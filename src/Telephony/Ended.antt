-- ===== src/Telephony/Ended.antt =====
-- The call of an end of a call, in `materialize_scope_and_call`.
use vof_backend.Db.{Frame, call_started, AppDb}
use vof_backend.Db.Models.{Payload, Call, ManagerWorkspace}
use vof_backend.Exec.{Exec, pure, gets, ◌>>=◌}
use vof_backend.Prelude.{
  find_first, if◌then◌else◌, is_some, get_or_else, ℕ, Bool, true, false, not, ◌&&◌, ◌||◌, Option,
  none, some, List, [], ◌∷◌,
}
use vof_backend.Telephony.Calls.{
  get_by_agentphone_id, list_in_progress, create_call, new_call, save_call, mark_ended,
}
use vof_backend.Telephony.Events.{CallEnded}
use vof_backend.Telephony.Voice.{Arrival, Materialized, is_recent, or_null}
use vof_backend.Text.{Text, codes, is_empty, starts_with}

-- A recent running call that has an id of its own making.
abbrev pub is_stand_in : ℕ → Call → Bool
is_stand_in now c = is_recent now c && starts_with c.agentphone_call_id (codes "ap_")

unfoldable pub renamed : Text → Call → Call
renamed ap_call_id c =
    if is_empty ap_call_id then c else record c { agentphone_call_id = ap_call_id }

-- The call of the provider's id, or else a stand-in, which takes the id.
unfoldable pub ended_match : ℕ → ℕ → CallEnded → Exec AppDb (Option Call)
unfolding get_by_agentphone_id list_in_progress save_call renamed
ended_match now workspace_id e = do
  by_id ← gets (λ db. if is_empty e.ap_call_id then none else get_by_agentphone_id e.ap_call_id db)
  stand_in ← gets (λ db. find_first (is_stand_in now) (list_in_progress workspace_id db))
  elim by_id [
    | some c ↦ pure (some c)
    | none ↦ elim stand_in [
      | none ↦ pure none
      | some c ↦ do c' ← save_call (renamed e.ap_call_id c); pure (some c')
    ]
  ]

abbrev has_text : Option Text → Bool
has_text none = false
has_text (some t) = not (is_empty t)

abbrev bool_text : Option Bool → Text
bool_text none = []
bool_text (some true) = codes "true"
bool_text (some false) = codes "false"

unfoldable pub summary_of : CallEnded → Option Payload
summary_of e =
    if has_text e.provider_summary || (has_text e.user_sentiment || is_some e.call_successful)
    then some (
        (codes "summary", get_or_else e.provider_summary [])
        ∷ (codes "user_sentiment", get_or_else e.user_sentiment [])
        ∷ (codes "call_successful", bool_text e.call_successful)
        ∷ [])
    else none

-- The call that ends, and whether it is new.
unfoldable pub ended_call :
    Arrival → ManagerWorkspace → (workspace_id : ℕ) → CallEnded → Exec AppDb (Call × Bool)
unfolding ended_match new_call create_call
ended_call a ws workspace_id e = do
  existing ← ended_match a.now workspace_id e
  elim existing [
    | some c ↦ pure (c, false)
    | none ↦ do
      c ← create_call (
          new_call a.new_call_id workspace_id ws.organization_id e.ap_call_id
            (or_null e.from_number) (or_null e.to_number) (get_or_else e.ended_at a.now) none)
      pure (c, true)
  ]

unfoldable pub ended_frames : Call → Bool → ℕ → List Frame
ended_frames c is_new at =
    if is_new
    then call_started c.id c.field_employee_id c.started_at ∷ Frame.call_ended c.id at ∷ []
    else Frame.call_ended c.id at ∷ []

unfoldable pub materialize_ended :
    Arrival → ManagerWorkspace → (workspace_id : ℕ) → CallEnded → Exec AppDb Materialized
unfolding ended_call mark_ended summary_of ended_frames
materialize_ended a ws workspace_id e = do
  r ← ended_call a ws workspace_id e
  marked ← mark_ended r.0.id (get_or_else e.ended_at r.0.started_at) (summary_of e)
  pure (record {
    workspace_id = workspace_id;
    call_id = some r.0.id;
    pending_frames = ended_frames r.0 r.1 (get_or_else e.ended_at r.0.started_at);
  })
