-- ===== src/Telephony/TurnTests.antt =====
-- A second turn of a call whose turns come without an id.
use mathlib.Core.List.{Memᴰ}
use vof_backend.Db.{call_started, prewarm, AppDb}
use vof_backend.Db.Models.{Call, ready, ManagerWorkspace}
use vof_backend.Errors.{ok}
use vof_backend.Prelude.{find_row, order_desc, ◌≡◌, refl, false, none, some, [], ◌∷◌}
use vof_backend.Telephony.Attached.{Attached, materialize_voice-Attached}
use vof_backend.Telephony.Calls.{new_call}
use vof_backend.Telephony.Events.{InboundVoiceTurn, voice_event}
use vof_backend.Telephony.Materialize.{materialize_scope_and_call}
use vof_backend.Telephony.Voice.{Arrival, materialize_voice}
use vof_backend.Text.{codes, text_eq}
use vof_backend.Text.Hex.{decimal_text}

abbrev line : ManagerWorkspace
line = record {
  id = 1;
  organization_id = 1;
  manager_user_id = some 7;
  primary_number = none;
  name = codes "Acme";
  provisioning_state = ready;
  email_inbox_id = none;
  email_inbox_addr = none;
  email_domain = none;
  agentphone_number_id = some (codes "num");
  agentphone_agent_id = none;
}

abbrev first_turn : InboundVoiceTurn
first_turn = record {
  scope = none;
  ap_call_id = [];
  ap_number_id = codes "num";
  ap_agent_id = [];
  from_number = codes "+15550177";
  to_number = [];
  transcript = codes "hello";
  delivery_timestamp = none;
}

abbrev quiet_db : AppDb
quiet_db = record {
  workspaces = line ∷ [];
  decisions = [];
  action_items = [];
  calls = [];
  field_employees = [];
  frames = [];
  messages = [];
  jobs = [];
}

abbrev first_arrival : Arrival
first_arrival = record { now = 1000000000; new_call_id = 60; new_employee_id = 61 }

abbrev second_arrival : Arrival
second_arrival = record { now = 1030000000; new_call_id = 62; new_employee_id = 63 }

abbrev first_call : Call
first_call =
    new_call 60 1 1 (codes "ap_num_1000") (some (codes "+15550177")) none 1000000000 (some 61)

abbrev running_db : AppDb
running_db = record quiet_db { calls = first_call ∷ [] }

-- The first turn creates the employee and the call, and announces it.
first_turn_starts : materialize_scope_and_call first_arrival (voice_event first_turn) quiet_db ≡ (
  ok (record {
    workspace_id = 1;
    call_id = some 60;
    pending_frames = call_started 60 (some 61) 1000000000 ∷ [];
  }),
  record running_db {
    field_employees =
        record {
          id = 61;
          workspace_id = 1;
          organization_id = 1;
          name = codes "Unknown caller 0177";
          phone = codes "+15550177";
          profiled = false;
          profile_email = none;
        }
        ∷ [];
    jobs = prewarm 60 1 (some 61) ∷ [];
  },
)
unfolding materialize_scope_and_call text_eq find_row order_desc new_call decimal_text
first_turn_starts = refl

materialize_voice-Attached_example :
    Attached second_arrival.now 1 running_db
      (materialize_voice second_arrival line 1 first_turn running_db)
unfolding new_call
materialize_voice-Attached_example =
    materialize_voice-Attached second_arrival line 1 first_turn running_db first_call refl
      (Memᴰ.head refl) refl refl
