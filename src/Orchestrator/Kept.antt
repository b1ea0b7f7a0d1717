-- ===== src/Orchestrator/Kept.antt =====
-- What the steps of a turn keep of a session: its version, and the decisions that it waits for.
use vof_backend.Db.{publish_frame}
use vof_backend.Db.Models.{Call}
use vof_backend.Orchestrator.Session.{
  save, CallSession, append_turn, SessionKey, load, new_session, load_or_create, check_version,
  execute,
}
use vof_backend.Orchestrator.Turn.{
  Whisper, VoiceWorld, TurnInput, drain_whispers, consume_whispers, keep_fragment, keep_reply,
}
use vof_backend.Prelude.{
  ◌==◌, if◌then◌else◌, get_or_else, ℕ, ◌+◌, ◌≡◌, refl, true, Option, none, some, List, [], ◌∷◌,
  ◌++◌, arith,
}
use vof_backend.Text.{Text, is_empty}

abbrev pub CurrentAt : ℕ → Option CallSession → Type 0
CurrentAt n none = Unit
CurrentAt n (some x) = (x.state_version == n) ≡ true

abbrev pub Current : CallSession → SessionKey → Type 0
Current s k = CurrentAt s.state_version k.value

pub save-stored :
    (s : CallSession) (k : SessionKey)
    → Current s k
    → (save s k).1.value ≡ some (record s { state_version = s.state_version + 1 })
unfolding save check_version execute
save-stored s k h = by_value k.value refl
  where
    by_value :
        (o : Option CallSession)
        → k.value ≡ o
        → (save s k).1.value ≡ some (record s { state_version = s.state_version + 1 })
    by_value none e = ground (arith, e)
    by_value (some x) e = ground (arith, e, h)

-- What the steps of a turn leave of a session and its key: the decisions and the version
abbrev pub Same : CallSession → CallSession → Type 0
Same s x = (x.pending_decisions ≡ s.pending_decisions) × (x.state_version ≡ s.state_version)

pub drain_whispers-Same : (ws : List Whisper) (s : CallSession) → Same s (drain_whispers ws s)
unfolding drain_whispers
drain_whispers-Same [] s = (refl, refl)
drain_whispers-Same (w ∷ ws) s =
    let rest = drain_whispers-Same ws (record s {
      manager_whispers =
          if is_empty w.guidance
          then s.manager_whispers
          else s.manager_whispers ++ (w.guidance ∷ []);
      pending_intervention_ids = elim w.intervention_id [
        | none ↦ s.pending_intervention_ids
        | some i ↦ s.pending_intervention_ids ++ (i ∷ [])
      ];
    }) in
    (rest.0, rest.1)

pub consume_whispers-Same : (s : CallSession) → Same s (consume_whispers s).0
unfolding consume_whispers
consume_whispers-Same s = ground arith

pub keep_reply-Same :
    (t : TurnInput) (c : Call) (reply : Text) (s : CallSession) (v : VoiceWorld)
    → Same s (keep_reply t c reply (s, v)).0
      × (((keep_reply t c reply (s, v)).1.key ≡ v.key)
          × ((keep_reply t c reply (s, v)).1.db.decisions ≡ v.db.decisions))
unfolding keep_reply append_turn keep_fragment publish_frame
keep_reply-Same t c [] s v = ((refl, refl), (refl, refl))
keep_reply-Same t c (x ∷ xs) s v = ((refl, refl), (refl, refl))

own_version :
    (o : Option CallSession) (fresh : CallSession) → CurrentAt (get_or_else o fresh).state_version o
own_version none fresh = tt
own_version (some x) fresh = ground arith

pub load_or_create-Current :
    (call_id workspace_id : ℕ) (fe : Option ℕ) (k : SessionKey)
    → Current (load_or_create call_id workspace_id fe k) k
unfolding load_or_create load
load_or_create-Current call_id workspace_id fe k =
    own_version k.value (new_session call_id workspace_id fe)
