-- ===== src/Orchestrator/SmsScope.antt =====
-- `_materialize` of app/orchestrator/sms_orchestrator.py: the employee and the call of a text message.
use vof_backend.Db.{AppDb}
use vof_backend.Db.Models.{Call, FieldEmployee, ManagerWorkspace, caller, TranscriptFragment}
use vof_backend.Errors.{Error, ok, err}
use vof_backend.Exec.{Exec, pure, ◌>>=◌}
use vof_backend.Orchestrator.Session.{SessionKey}
use vof_backend.Orchestrator.Transcripts.{append_fragment}
use vof_backend.Prelude.{
  ◌==◌, if◌then◌else◌, or_else, get_or_else, ℕ, Option, none, some, List, ◌++◌,
}
use vof_backend.Telephony.Calls.{get_by_agentphone_id, create_call, new_call}
use vof_backend.Telephony.Events.{InboundSms}
use vof_backend.Telephony.Roster.{find_by_phone, create_unprofiled}
use vof_backend.Text.{Text, codes, is_empty}
use vof_backend.Text.Hex.{uuid_text}

-- Each call has a key of Redis.
pub record SmsWorld : Type 0 where
  pub db : AppDb
  pub transcripts : List TranscriptFragment
  pub sessions : ℕ → SessionKey

abbrev pub set_key : ℕ → SessionKey → (ℕ → SessionKey) → ℕ → SessionKey
set_key i k f j = if i == j then k else f j

-- What a delivery takes from its surroundings: the clock at two times, new ids, the tokens of the model,
-- and the exception of the session's load, of the retrieval or of the stream, if one of them raises.
pub record SmsEnv : Type 0 where
  pub now : ℕ
  pub agent_ts : ℕ
  pub new_call_id : ℕ
  pub new_employee_id : ℕ
  pub tokens : List Text
  pub raised : Option Error

-- `sms_<conversation>`, or `sms_<workspace>_<number>`
unfoldable pub sms_key : InboundSms → ManagerWorkspace → Text
unfolding uuid_text
sms_key e w =
    if is_empty e.ap_conversation_id
    then codes "sms_"
      ++ (uuid_text w.id
          ++ (codes "_" ++ (if is_empty e.from_number then codes "unknown" else e.from_number)))
    else codes "sms_" ++ e.ap_conversation_id

abbrev pub some_text : Text → Option Text
some_text t = if is_empty t then none else some t

-- The employee of the sender's number, who is made where there is none.
unfoldable pub sms_employee :
    SmsEnv → InboundSms → ManagerWorkspace → Exec AppDb (Option FieldEmployee)
sms_employee env e w db =
    if is_empty e.from_number then (ok none, db) else elim (find_by_phone w.id e.from_number db) [
      | some f ↦ (ok (some f), db)
      | none ↦
          (do
            f ← create_unprofiled env.new_employee_id w.id w.organization_id e.from_number none
            pure (some f))
            db
    ]

unfoldable pub employee_id : Option FieldEmployee → Option ℕ
employee_id none = none
employee_id (some f) = some f.id

unfoldable pub sms_call :
    SmsEnv → InboundSms → ManagerWorkspace → Option FieldEmployee → Exec AppDb Call
sms_call env e w fe db = elim (get_by_agentphone_id (sms_key e w) db) [
  | some c ↦ (ok c, db)
  | none ↦
      create_call
        (new_call env.new_call_id w.id w.organization_id (sms_key e w) (some_text e.from_number)
          (or_else (some_text e.to_number) w.primary_number)
          (get_or_else e.delivery_timestamp env.now) (employee_id fe))
        db
]

-- The employee and then the call, in the session of `_materialize`.
unfoldable pub sms_scope :
    SmsEnv → InboundSms → ManagerWorkspace → Exec AppDb (Call × Option FieldEmployee)
sms_scope env e w = do
  fe ← sms_employee env e w
  c ← sms_call env e w fe
  pure {A = Call × Option FieldEmployee} (c, fe)

-- `_materialize`: in one transaction the employee, the call and the caller's fragment.
unfoldable pub materialize_sms :
    SmsEnv → InboundSms → ManagerWorkspace → Exec SmsWorld (Call × Option FieldEmployee)
materialize_sms env e w v =
    let (r, db) = sms_scope env e w v.db in
    elim r [
      | err x ↦ (err x, v)
      | ok (c, fe) ↦ (
        ok (c, fe),
        record v {
          db = db;
          transcripts =
              (append_fragment c.id w.id caller e.body (get_or_else e.delivery_timestamp env.now)
                v.transcripts).1;
        },
      )
    ]
