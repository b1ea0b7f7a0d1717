-- ===== src/Telephony/Tests.antt =====
-- The end of a call whose turns came without an id.
use vof_backend.Db.{Frame, AppDb}
use vof_backend.Db.Models.{seconds, in_progress, Call, ready, ManagerWorkspace}
use vof_backend.Errors.{ok}
use vof_backend.Prelude.{
  Distinct, find_row, save_row, insert_desc, order_desc, ltb, if◌then◌else◌, ◌+◌, ◌≡◌, refl, true,
  none, some, [], ◌∷◌,
}
use vof_backend.Telephony.Calls.{call_key, get_call}
use vof_backend.Telephony.Events.{CallEnded, ended_event}
use vof_backend.Telephony.Materialize.{materialize_scope_and_call}
use vof_backend.Telephony.Once.{agentphone_webhook-once}
use vof_backend.Telephony.Redelivery.{Delivered, materialize_ended-again}
use vof_backend.Telephony.Voice.{Arrival}
use vof_backend.Telephony.Webhook.{
  Delivery, Gateway, WebhookStore, bare, verify_agentphone_webhook, process_delivery,
  webhook_dedupe_ttl_seconds, is_seen, agentphone_webhook,
}
use vof_backend.Text.{codes, text_eq, starts_with}

abbrev office : ManagerWorkspace
office = record {
  id = 1;
  organization_id = 1;
  manager_user_id = some 7;
  primary_number = some (codes "+15550100");
  name = codes "Acme";
  provisioning_state = ready;
  email_inbox_id = none;
  email_inbox_addr = none;
  email_domain = none;
  agentphone_number_id = some (codes "num");
  agentphone_agent_id = none;
}

abbrev running : Call
running = record {
  id = 40;
  workspace_id = 1;
  organization_id = 1;
  field_employee_id = none;
  agentphone_call_id = codes "ap_num_1000";
  from_number = none;
  to_number = none;
  status = in_progress;
  started_at = 1000000000;
  ended_at = none;
  provider_summary = none;
}

abbrev calls_db : AppDb
calls_db = record {
  workspaces = office ∷ [];
  decisions = [];
  action_items = [];
  calls = running ∷ [];
  field_employees = [];
  frames = [];
  messages = [];
  jobs = [];
}

abbrev hang_up : CallEnded
hang_up = record {
  scope = none;
  ap_call_id = codes "call-1";
  ap_number_id = codes "num";
  ap_agent_id = [];
  from_number = [];
  to_number = codes "+15550100";
  provider_summary = some (codes "ok");
  user_sentiment = none;
  call_successful = some true;
  ended_at = some 1060000000;
}

abbrev arrival : Arrival
arrival = record { now = 1070000000; new_call_id = 41; new_employee_id = 42 }

calls-Distinct : Distinct call_key calls_db.calls
unfolding find_row
calls-Distinct = (refl, tt)

materialize_ended-again_example :
    Delivered arrival
      (record arrival { now = 1090000000; new_call_id = 43 })
      office
      1
      hang_up
      calls_db
unfolding get_call find_row
materialize_ended-again_example =
    materialize_ended-again arrival (record arrival { now = 1090000000; new_call_id = 43 }) office 1
      hang_up calls_db refl calls-Distinct refl

-- The running call takes the provider's id and is ended.
stand_in_ends :
    (materialize_scope_and_call arrival (ended_event hang_up) calls_db).0
    ≡ ok (record {
      workspace_id = 1;
      call_id = some 40;
      pending_frames = Frame.call_ended 40 1060000000 ∷ [];
    })
unfolding materialize_scope_and_call text_eq find_row order_desc insert_desc starts_with save_row
stand_in_ends = refl

-- A gateway whose hash is constant, and which reads every body as the hang-up.
abbrev gateway : Gateway
gateway = record {
  hmac_hex = λ secret message. codes "00";
  as_int = λ t. some 1060;
  parse_webhook = λ body. some (ended_event hang_up);
  secret = codes "k";
}

abbrev delivery : Delivery
delivery = record {
  raw_body = codes "body";
  signature = codes "sha256=00";
  timestamp = codes "1060";
  webhook_id = codes "w-1";
}

abbrev first_store : WebhookStore
first_store = record { db = calls_db; seen = [] }

abbrev second_store : WebhookStore
second_store = (agentphone_webhook gateway arrival delivery first_store).1

agentphone_webhook-once_example : agentphone_webhook gateway arrival delivery second_store ≡ (
    if ltb arrival.now (arrival.now + seconds webhook_dedupe_ttl_seconds)
    then (ok (bare 200), second_store)
    else process_delivery gateway arrival delivery (record second_store {
      seen =
          (delivery.webhook_id, arrival.now + seconds webhook_dedupe_ttl_seconds)
          ∷ second_store.seen;
    }))
unfolding verify_agentphone_webhook text_eq is_seen
agentphone_webhook-once_example =
    agentphone_webhook-once gateway arrival arrival delivery delivery first_store refl refl refl
      refl refl

abbrev forged : Delivery
forged = record delivery { signature = codes "sha256=11" }
