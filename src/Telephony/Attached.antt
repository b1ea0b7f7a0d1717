-- ===== src/Telephony/Attached.antt =====
-- A voice turn that comes without the id of its call.
use mathlib.Core.List.{Memᴰ}
use vof_backend.Db.{AppDb}
use vof_backend.Db.Models.{Call, ManagerWorkspace, is_live}
use vof_backend.Errors.{Result, ok}
use vof_backend.Prelude.{
  All-find_first, find_first-test, find_first, Memᴰ-select, All-kept, Memᴰ-order_desc,
  All-order_desc, ◌==◌, Option-cases, ℕ, ◌≡◌, ap, ◌≢◌, inl, inr, Bool, true, ◌&&◌, none, some, List,
  [], ◌∷◌, arith,
}
use vof_backend.Telephony.Calls.{call_started_at, list_in_progress}
use vof_backend.Telephony.Events.{InboundVoiceTurn}
use vof_backend.Telephony.Voice.{Arrival, Materialized, is_recent, voice_call, materialize_voice}
use vof_backend.Text.{is_empty}

find_first-found :
    (p : Call → Bool) (xs : List Call) (c : Call) → Memᴰ c xs → p c ≡ true → find_first p xs ≢ none
find_first-found p [] c m t h = elim m [ ]
find_first-found p (x ∷ xs) c (Memᴰ.head e) t h = let q = ap p e in absurd (ground arith)
find_first-found p (x ∷ xs) c (Memᴰ.tail m) t h = find_first-found p xs c m t (ground arith)

abbrev pub is_running : ℕ → Call → Bool
is_running workspace_id c = c.workspace_id == workspace_id && is_live c.status

-- A turn that is put to a call that is there.
pub record Attached (now workspace_id : ℕ) (db : AppDb) (r : Result Materialized × AppDb)
    : Type 0 where
  pub call : Call
  pub running : is_running workspace_id call ≡ true
  pub recent : is_recent now call ≡ true
  pub outcome : r ≡ (
    ok (record { workspace_id = workspace_id; call_id = some call.id; pending_frames = [] }),
    db,
  )

attach :
    (a : Arrival) (ws : ManagerWorkspace) (workspace_id : ℕ) (e : InboundVoiceTurn) (db : AppDb)
    (c : Call)
    → voice_call a.now workspace_id e db ≡ some c
    → materialize_voice a ws workspace_id e db
      ≡ (ok (record { workspace_id = workspace_id; call_id = some c.id; pending_frames = [] }), db)
unfolding materialize_voice
attach a ws workspace_id e db c h = ground arith

listed-Attached :
    (a : Arrival) (ws : ManagerWorkspace) (workspace_id : ℕ) (e : InboundVoiceTurn) (db : AppDb)
    (c : Call)
    → is_empty e.ap_call_id ≡ true
    → find_first (is_recent a.now) (list_in_progress workspace_id db) ≡ some c
    → Attached a.now workspace_id db (materialize_voice a ws workspace_id e db)
unfolding voice_call list_in_progress
listed-Attached a ws workspace_id e db c n f = record {
  call = c;
  running =
      All-find_first (λ x. is_running workspace_id x ≡ true) (is_recent a.now) _ c
        (All-order_desc call_started_at (λ x. is_running workspace_id x ≡ true) _
          (All-kept (is_running workspace_id) db.calls))
        f;
  recent = find_first-test (is_recent a.now) _ c f;
  outcome = attach a ws workspace_id e db c (rw n f);
}

-- While a call of the workspace runs that started in the last 20 minutes, a voice turn without a call id
-- starts no call: it is put to a running call of that workspace that started in the last 20 minutes, it
-- announces nothing, and the database stays as it is.
pub materialize_voice-Attached :
    (a : Arrival) (ws : ManagerWorkspace) (workspace_id : ℕ) (e : InboundVoiceTurn) (db : AppDb)
    (c : Call)
    → is_empty e.ap_call_id ≡ true
    → Memᴰ c db.calls
    → is_running workspace_id c ≡ true
    → is_recent a.now c ≡ true
    → Attached a.now workspace_id db (materialize_voice a ws workspace_id e db)
materialize_voice-Attached a ws workspace_id e db c n m r t =
    elim (Option-cases (find_first (is_recent a.now) (list_in_progress workspace_id db))) [
      | inr (k, f) ↦ listed-Attached a ws workspace_id e db k n f
      | inl f ↦ absurd (
          find_first-found (is_recent a.now) (list_in_progress workspace_id db) c
            (unfold list_in_progress in
              Memᴰ-order_desc call_started_at c _
                (Memᴰ-select (is_running workspace_id) db.calls c r m))
            t f)
    ]
