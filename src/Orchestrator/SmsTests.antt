-- ===== src/Orchestrator/SmsTests.antt =====
-- Two text messages of one conversation.
use vof_backend.Db.{SmsMessage, AppDb}
use vof_backend.Db.Models.{in_progress, Call, FieldEmployee}
use vof_backend.Errors.{ok}
use vof_backend.Orchestrator.SmsCalls.{sms_scope-again}
use vof_backend.Orchestrator.SmsReplies.{Answers, handle_conversational-Replied}
use vof_backend.Orchestrator.SmsScope.{
  SmsWorld, SmsEnv, sms_key, sms_employee, employee_id, sms_call, sms_scope, materialize_sms,
}
use vof_backend.Orchestrator.SmsTurn.{
  whole_body, outbound_body, send_sms_reply, spoken_of, tools_of, converse, answer_sms,
  handle_conversational,
}
use vof_backend.Orchestrator.ToolDispatch.{find_text, drain, flush, scan_from, scan_for_tool_calls}
use vof_backend.Orchestrator.TurnTests.{object, nothing_raised, hang_up, north, office}
use vof_backend.Prelude.{find_row, ◌≡◌, refl, false, none, some, [], ◌∷◌, map}
use vof_backend.Telephony.Calls.{get_by_agentphone_id, create_call, new_call}
use vof_backend.Telephony.Events.{InboundSms}
use vof_backend.Telephony.Roster.{find_by_phone, unprofiled_name, create_unprofiled}
use vof_backend.Text.{codes, text_eq, strip, starts_with}

abbrev env : SmsEnv
env = record {
  now = 20;
  agent_ts = 21;
  new_call_id = 30;
  new_employee_id = 40;
  tokens = codes " Noted. " ∷ [];
  raised = none;
}

abbrev later : SmsEnv
later = record env { now = 90; new_call_id = 31; new_employee_id = 41 }

abbrev message : InboundSms
message = record {
  scope = none;
  from_number = codes "+15550177";
  to_number = [];
  body = codes "Gate is shut";
  ap_conversation_id = codes "c1";
  delivery_timestamp = none;
}

abbrev second : InboundSms
second = record message { body = codes "Open again" }

abbrev world : SmsWorld
world = record {
  db = office [];
  transcripts = [];
  sessions = λ _. record { value = none; writes = 0 };
}

abbrev sender : FieldEmployee
sender = record {
  id = 40;
  workspace_id = 5;
  organization_id = 7;
  name = codes "Unknown caller 0177";
  phone = codes "+15550177";
  profiled = false;
  profile_email = none;
}

abbrev conversation : Call
conversation = record {
  id = 30;
  workspace_id = 5;
  organization_id = 7;
  field_employee_id = some 40;
  agentphone_call_id = codes "sms_c1";
  from_number = some (codes "+15550177");
  to_number = none;
  status = in_progress;
  started_at = 20;
  ended_at = none;
  provider_summary = none;
}

abbrev after_first : AppDb
after_first = record (office []) { calls = conversation ∷ []; field_employees = sender ∷ [] }

sms_scope-again_example :
    sms_scope later second north after_first ≡ (ok (conversation, some sender), after_first)
unfolding sms_scope sms_employee sms_call sms_key get_by_agentphone_id create_call new_call
    employee_id find_by_phone create_unprofiled unprofiled_name text_eq
sms_scope-again_example =
    sms_scope-again env later message second north conversation (some sender) (office [])
      after_first refl refl refl

abbrev world_first : SmsWorld
world_first = (materialize_sms env message north world).1

handle_conversational-Replied_example :
    Answers message north conversation 21 world_first
      (handle_conversational object hang_up nothing_raised env message 5 world)
      none
unfolding materialize_sms sms_scope sms_employee sms_call sms_key get_by_agentphone_id create_call
    new_call employee_id find_by_phone create_unprofiled unprofiled_name text_eq find_row
handle_conversational-Replied_example =
    handle_conversational-Replied object hang_up nothing_raised env message north conversation
      (some sender) world world_first 5 refl refl refl refl

first_reply :
    map
      (λ (m : SmsMessage). m.body)
      (handle_conversational object hang_up nothing_raised env message 5 world).db.messages
    ≡ codes "Noted." ∷ []
unfolding handle_conversational materialize_sms sms_scope sms_employee sms_call sms_key
    get_by_agentphone_id create_call new_call employee_id find_by_phone create_unprofiled
    unprofiled_name text_eq find_row answer_sms scan_for_tool_calls scan_from drain find_text
    starts_with flush converse spoken_of tools_of outbound_body whole_body strip send_sms_reply
first_reply = refl
