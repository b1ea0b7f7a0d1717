-- ===== src/Telephony/Voice.antt =====
-- The call of a voice turn, in `materialize_scope_and_call`.
use vof_backend.Db.{Frame, call_started, prewarm, AppDb, enqueue_job}
use vof_backend.Db.Models.{seconds, Call, ManagerWorkspace}
use vof_backend.Exec.{Exec, pure, gets, ◌>>=◌, ◌>>◌}
use vof_backend.Prelude.{
  find_first, leb, if◌then◌else◌, get_or_else, ℕ, ◌+◌, ◌/◌, Bool, Option, none, some, List, [], ◌∷◌,
  ◌++◌,
}
use vof_backend.Telephony.Calls.{get_by_agentphone_id, list_in_progress, create_call, new_call}
use vof_backend.Telephony.Events.{WebhookScope, InboundVoiceTurn}
use vof_backend.Telephony.Roster.{find_by_phone, create_unprofiled}
use vof_backend.Text.{Text, codes, is_empty}
use vof_backend.Text.Hex.{uuid_text, decimal_text}

-- The clock and the new UUIDs of one delivery.
pub record Arrival : Type 0 where
  pub now : ℕ
  pub new_call_id : ℕ
  pub new_employee_id : ℕ

pub record Materialized : Type 0 where
  pub workspace_id : ℕ
  pub call_id : Option ℕ
  pub pending_frames : List Frame

-- Started within the last 20 minutes.
abbrev pub is_recent : ℕ → Call → Bool
is_recent now c = leb now (c.started_at + seconds 1200)

abbrev pub or_null : Text → Option Text
or_null [] = none
or_null (c ∷ cs) = some (c ∷ cs)

-- A turn without a call id belongs to the most recent running call.
unfoldable pub voice_call : ℕ → ℕ → InboundVoiceTurn → AppDb → Option Call
unfolding list_in_progress get_by_agentphone_id
voice_call now workspace_id e db =
    if is_empty e.ap_call_id
    then find_first (is_recent now) (list_in_progress workspace_id db)
    else get_by_agentphone_id e.ap_call_id db

abbrev scope_employee : Option WebhookScope → Option ℕ
scope_employee none = none
scope_employee (some s) = s.field_employee_id

unfoldable pub employee_of_phone :
    Arrival → ManagerWorkspace → (workspace_id : ℕ) → Text → Exec AppDb (Option ℕ)
unfolding find_by_phone create_unprofiled
employee_of_phone a ws workspace_id phone = do
  found ← gets (find_by_phone workspace_id phone)
  elim found [
    | some f ↦ pure (some f.id)
    | none ↦ do
      f ← create_unprofiled a.new_employee_id workspace_id ws.organization_id phone none
      pure (some f.id)
  ]

unfoldable pub voice_employee :
    Arrival → ManagerWorkspace → (workspace_id : ℕ) → InboundVoiceTurn → Exec AppDb (Option ℕ)
unfolding employee_of_phone
voice_employee a ws workspace_id e = elim (scope_employee e.scope) [
  | some f ↦ pure (some f)
  | none ↦
      if is_empty e.from_number
      then pure none
      else employee_of_phone a ws workspace_id e.from_number
]

-- The id of a call whose own id the provider left out: the line and the second of the start.
unfoldable pub synthetic_ap_call_id : (workspace_id started_at : ℕ) → InboundVoiceTurn → Text
synthetic_ap_call_id workspace_id started_at e =
    if is_empty e.ap_call_id
    then codes "ap_"
      ++ ((if is_empty e.ap_number_id then uuid_text workspace_id else e.ap_number_id)
          ++ (codes "_" ++ decimal_text (started_at / seconds 1)))
    else e.ap_call_id

unfoldable pub start_call :
    Arrival → ManagerWorkspace → (workspace_id : ℕ) → InboundVoiceTurn → Exec AppDb Materialized
unfolding voice_employee synthetic_ap_call_id new_call create_call enqueue_job
start_call a ws workspace_id e =
    let started_at = get_or_else e.delivery_timestamp a.now in
    do
      employee ← voice_employee a ws workspace_id e
      c ← create_call (
          new_call a.new_call_id workspace_id ws.organization_id
            (synthetic_ap_call_id workspace_id started_at e) (or_null e.from_number)
            (or_null e.to_number) started_at employee)
      enqueue_job (prewarm c.id workspace_id employee)
      pure (record {
        workspace_id = workspace_id;
        call_id = some c.id;
        pending_frames = call_started c.id employee started_at ∷ [];
      })

unfoldable pub materialize_voice :
    Arrival → ManagerWorkspace → (workspace_id : ℕ) → InboundVoiceTurn → Exec AppDb Materialized
unfolding voice_call start_call
materialize_voice a ws workspace_id e = do
  existing ← gets (voice_call a.now workspace_id e)
  elim existing [
    | some c ↦
        pure (record { workspace_id = workspace_id; call_id = some c.id; pending_frames = [] })
    | none ↦ start_call a ws workspace_id e
  ]
