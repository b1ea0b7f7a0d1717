-- ===== src/Telephony/Materialize.antt =====
-- `materialize_scope_and_call`, from its parts.
use vof_backend.Db.{AppDb}
use vof_backend.Db.Models.{ManagerWorkspace}
use vof_backend.Decision.Resolve.{resolved}
use vof_backend.Decision.Service.{workspace_key}
use vof_backend.Errors.{not_found}
use vof_backend.Exec.{Exec, pure, raise, gets, or_raise, ◌>>=◌}
use vof_backend.Prelude.{find_row, if◌then◌else◌, ℕ, none, some, []}
use vof_backend.Telephony.Calls.{get_by_agentphone_id}
use vof_backend.Telephony.Ended.{materialize_ended}
use vof_backend.Telephony.Events.{TelephonyEvent, voice_event, ended_event}
use vof_backend.Telephony.Scope.{identifiers, resolve_workspace}
use vof_backend.Telephony.Voice.{Arrival, Materialized, materialize_voice}
use vof_backend.Text.{is_empty}

unfoldable pub materialize_in :
    Arrival → ManagerWorkspace → (workspace_id : ℕ) → TelephonyEvent → Exec AppDb Materialized
unfolding materialize_voice materialize_ended
materialize_in a ws workspace_id (voice_event e) = materialize_voice a ws workspace_id e
materialize_in a ws workspace_id (ended_event e) = materialize_ended a ws workspace_id e
materialize_in a ws workspace_id _ =
    pure (record { workspace_id = workspace_id; call_id = none; pending_frames = [] })

-- An end of a call whose line is unknown is still known by the call's id.
unfoldable pub materialize_unknown : TelephonyEvent → Exec AppDb Materialized
unfolding get_by_agentphone_id
materialize_unknown (ended_event e) = do
  found ← gets (λ db. if is_empty e.ap_call_id then none else get_by_agentphone_id e.ap_call_id db)
  c ← or_raise found not_found
  pure (record { workspace_id = c.workspace_id; call_id = some c.id; pending_frames = [] })
materialize_unknown _ = raise not_found

unfoldable pub materialize_scope_and_call : Arrival → TelephonyEvent → Exec AppDb Materialized
unfolding identifiers resolve_workspace materialize_unknown materialize_in
materialize_scope_and_call a event = do
  resolved ← resolve_workspace (identifiers event)
  elim resolved [
    | none ↦ materialize_unknown event
    | some w ↦ do
      found ← gets (λ db. find_row workspace_key w db.workspaces)
      ws ← or_raise found not_found
      materialize_in a ws w event
  ]
