-- ===== src/Telephony/Matched.antt =====
-- The call that an end of a call is matched with.
use vof_backend.Db.{AppDb}
use vof_backend.Db.Models.{Payload, Call, ManagerWorkspace, is_live}
use vof_backend.Errors.{Result, ok}
use vof_backend.Prelude.{
  Distinct, Distinct-save_row, Distinct-append, find_first-row, find_first-save_row,
  find_first-save_new, All-found, find_first-append, All-find_first, find_first-test, find_first,
  All-select, find_row, find_row-save_row, find_row-append, All-order_desc, ◌==◌, Option-cases,
  get_or_else, ℕ, ◌≡◌, refl, ap, inl, inr, Bool, true, false, ◌&&◌, Option, none, some, [], ◌∷◌,
  ◌++◌, arith,
}
use vof_backend.Telephony.Calls.{
  call_key, call_started_at, get_call, get_by_agentphone_id, list_in_progress, create_call,
  new_call, save_call, ended_row,
}
use vof_backend.Telephony.Ended.{is_stand_in, renamed, ended_match, ended_call}
use vof_backend.Telephony.Events.{CallEnded}
use vof_backend.Telephony.Voice.{Arrival, or_null}
use vof_backend.Text.{Text, is_empty, text_eq, text_eq_refl}

-- A call stands in the table under its id and under the provider's.
pub record Matched (ap_call_id : Text) (c : Call) (db : AppDb) : Type 0 where
  pub by_id : get_by_agentphone_id ap_call_id db ≡ some c
  pub by_key : get_call c.id db ≡ some c
  pub distinct : Distinct call_key db.calls

module _ (now workspace_id : ℕ) (e : CallEnded) (db : AppDb)
    (named : is_empty e.ap_call_id ≡ false) where
  known_match :
      (c : Call)
      → get_by_agentphone_id e.ap_call_id db ≡ some c
      → ended_match now workspace_id e db ≡ (ok (some c), db)
  unfolding ended_match
  known_match c h = ground arith

  stand_in_match :
      (c : Call)
      → get_by_agentphone_id e.ap_call_id db ≡ none
      → find_first (is_stand_in now) (list_in_progress workspace_id db) ≡ some c
      → ended_match now workspace_id e db ≡ (
        ok (some (record c { agentphone_call_id = e.ap_call_id })),
        (save_call (record c { agentphone_call_id = e.ap_call_id }) db).1,
      )
  unfolding ended_match renamed save_call
  stand_in_match c h f = ground arith

  no_match :
      get_by_agentphone_id e.ap_call_id db ≡ none
      → find_first (is_stand_in now) (list_in_progress workspace_id db) ≡ none
      → ended_match now workspace_id e db ≡ (ok none, db)
  unfolding ended_match
  no_match h f = ground arith

known-Matched :
    (ap : Text) (c : Call) (db : AppDb)
    → Distinct call_key db.calls
    → get_by_agentphone_id ap db ≡ some c
    → Matched ap c db
unfolding get_by_agentphone_id get_call
known-Matched ap c db d h = record {
  by_id = h;
  by_key = find_first-row call_key (λ x. text_eq x.agentphone_call_id ap) c db.calls d h;
  distinct = d;
}

stand_in_found :
    (now workspace_id : ℕ) (c : Call) (db : AppDb)
    → Distinct call_key db.calls
    → find_first (is_stand_in now) (list_in_progress workspace_id db) ≡ some c
    → get_call c.id db ≡ some c
unfolding list_in_progress get_call
stand_in_found now workspace_id c db d f =
    let Found : Call → Type 0 = λ x. find_row call_key x.id db.calls ≡ some x in
    All-find_first Found (is_stand_in now) _ c
      (All-order_desc call_started_at Found _ (
        All-select Found (λ x. x.workspace_id == workspace_id && is_live x.status) db.calls
          (All-found call_key db.calls d)))
      f

renamed-Matched :
    (ap : Text) (c : Call) (db : AppDb)
    → Distinct call_key db.calls
    → get_by_agentphone_id ap db ≡ none
    → get_call c.id db ≡ some c
    → Matched ap
        (record c { agentphone_call_id = ap })
        (save_call (record c { agentphone_call_id = ap }) db).1
unfolding get_by_agentphone_id get_call save_call
renamed-Matched ap c db d n h = record {
  by_id =
      find_first-save_new call_key (λ x. text_eq x.agentphone_call_id ap) c
        (record c { agentphone_call_id = ap }) db.calls (text_eq_refl ap) n h;
  by_key =
      ground
        (arith, find_row-save_row call_key c.id (record c { agentphone_call_id = ap }) db.calls);
  distinct = Distinct-save_row call_key (record c { agentphone_call_id = ap }) db.calls d;
}

created-Matched :
    (c : Call) (db : AppDb)
    → Distinct call_key db.calls
    → get_by_agentphone_id c.agentphone_call_id db ≡ none
    → get_call c.id db ≡ none
    → Matched c.agentphone_call_id c (record db { calls = db.calls ++ (c ∷ []) })
unfolding get_by_agentphone_id get_call
created-Matched c db d n f = record {
  by_id =
      find_first-append call_key (λ x. text_eq x.agentphone_call_id c.agentphone_call_id) c db.calls
        n (text_eq_refl c.agentphone_call_id);
  by_key = ground (arith, find_row-append call_key c.id db.calls c);
  distinct = Distinct-append call_key db.calls c f d;
}

-- The end of a call gives its row the same ids, and doing it again changes nothing.
pub ended-Matched :
    (ap : Text) (at : ℕ) (s : Option Payload) (c : Call) (db : AppDb)
    → Matched ap c db
    → Matched ap (ended_row at s c) (save_call (ended_row at s c) db).1
unfolding get_by_agentphone_id get_call save_call ended_row
ended-Matched ap at s c db m = record {
  by_id =
      find_first-save_row call_key (λ x. text_eq x.agentphone_call_id ap) c (ended_row at s c)
        db.calls refl (find_first-test (λ x. text_eq x.agentphone_call_id ap) db.calls c m.by_id)
        m.distinct m.by_id;
  by_key = ground (arith, m.by_key, find_row-save_row call_key c.id (ended_row at s c) db.calls);
  distinct = Distinct-save_row call_key (ended_row at s c) db.calls m.distinct;
}

-- The call of an end: there under both ids, whether it is new or not.
pub record Ending (ap_call_id : Text) (r : Result (Call × Bool) × AppDb) : Type 0 where
  pub call : Call
  pub is_new : Bool
  pub after : AppDb
  pub outcome : r ≡ (ok (call, is_new), after)
  pub matched : Matched ap_call_id call after

module _ (a : Arrival) (ws : ManagerWorkspace) (workspace_id : ℕ) (e : CallEnded) (db : AppDb)
    (named : is_empty e.ap_call_id ≡ false) where
  pub ended_found :
      (c : Call) (db' : AppDb)
      → ended_match a.now workspace_id e db ≡ (ok (some c), db')
      → ended_call a ws workspace_id e db ≡ (ok (c, false), db')
  unfolding ended_call
  ended_found c db' h = ground arith

  abbrev fresh_call : Call
  fresh_call =
      new_call a.new_call_id workspace_id ws.organization_id e.ap_call_id (or_null e.from_number)
        (or_null e.to_number) (get_or_else e.ended_at a.now) none

  ended_created :
      ended_match a.now workspace_id e db ≡ (ok none, db)
      → get_by_agentphone_id e.ap_call_id db ≡ none
      → ended_call a ws workspace_id e db
        ≡ (ok (fresh_call, true), record db { calls = db.calls ++ (fresh_call ∷ []) })
  unfolding ended_call create_call new_call
  ended_created h n = ground arith

  pub known_call :
      (c : Call)
      → get_by_agentphone_id e.ap_call_id db ≡ some c
      → ended_call a ws workspace_id e db ≡ (ok (c, false), db)
  known_call c h = ended_found c db (known_match a.now workspace_id e db named c h)

  pub ended_call-Ending :
      Distinct call_key db.calls
      → get_call a.new_call_id db ≡ none
      → Ending e.ap_call_id (ended_call a ws workspace_id e db)
  ended_call-Ending d f = elim (Option-cases (get_by_agentphone_id e.ap_call_id db)) [
    | inr (c, h) ↦ record {
      call = c;
      is_new = false;
      after = db;
      outcome = known_call c h;
      matched = known-Matched e.ap_call_id c db d h;
    }
    | inl n ↦
        elim (Option-cases (find_first (is_stand_in a.now) (list_in_progress workspace_id db))) [
          | inr (c, s) ↦ record {
            call = record c { agentphone_call_id = e.ap_call_id };
            is_new = false;
            after = (save_call (record c { agentphone_call_id = e.ap_call_id }) db).1;
            outcome = ended_found _ _ (stand_in_match a.now workspace_id e db named c n s);
            matched =
                renamed-Matched e.ap_call_id c db d n (stand_in_found a.now workspace_id c db d s);
          }
          | inl s ↦ record {
            call = fresh_call;
            is_new = true;
            after = record db { calls = db.calls ++ (fresh_call ∷ []) };
            outcome = ended_created (no_match a.now workspace_id e db named n s) n;
            matched = unfold new_call in created-Matched fresh_call db d n f;
          }
        ]
  ]
