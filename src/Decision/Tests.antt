-- ===== src/Decision/Tests.antt =====
-- A workspace with one Manager, and a decision that is opened, answered and timed out in it.
use vof_backend.Db.{decision_opened, decision_resolved, decision_timeout, AppDb}
use vof_backend.Db.Models.{
  inline, open_status, answered, answered_late, RespondedVia, websocket, sms, DecisionRequest,
  pending_approval, approved, email_drafter, ActionItem, ready, ManagerWorkspace,
}
use vof_backend.Decision.Answers.{respond-respond, resolve_now-timeout}
use vof_backend.Decision.Brief.{member, run_dashboard_rollup}
use vof_backend.Decision.Briefed.{is_missed_in, run_dashboard_rollup-once}
use vof_backend.Decision.Consistency.{DecisionsConsistent, Reach-Consistent}
use vof_backend.Decision.Gated.{resolve_now-gated}
use vof_backend.Decision.Lifecycle.{opens, times_out, Reach, here, next, Reach-settled}
use vof_backend.Decision.Repo.{key, get_decision, answered_row, timed_out_row, list_open_for_user}
use vof_backend.Decision.Resolve.{respond_to_decision, is_gated, resolve_now}
use vof_backend.Decision.RoundTrip.{IsOnlyOption, match_sms_response-ping}
use vof_backend.Decision.Service.{Env, short_id, OpenRequest, open_decision, respond}
use vof_backend.Decision.Sms.{
  reply_parts, parse_stripped, choose, find_candidate, match_sms_response,
}
use vof_backend.Decision.Timeout.{final, decision_timeout_job}
use vof_backend.Errors.{Error, conflict, Result, ok, err}
use vof_backend.Prelude.{
  Distinct, length, select, All, find_row, save_row, insert_desc, order_desc, if◌then◌else◌, ℕ, ◌≡◌,
  refl, subst, true, false, ◌&&◌, none, some, List, [], ◌∷◌, ◌++◌, map,
}
use vof_backend.Text.{Text, codes, text_eq, contains, strip, find_char, join, ascii}
use vof_backend.Text.Hex.{hex_text}

abbrev office : ManagerWorkspace
office = record {
  id = 1;
  organization_id = 1;
  manager_user_id = some 7;
  primary_number = none;
  name = codes "Acme";
  provisioning_state = ready;
  email_inbox_id = none;
  email_inbox_addr = none;
  email_domain = none;
  agentphone_number_id = none;
  agentphone_agent_id = none;
}

-- The action item waits for the decision whose id is 5.
abbrev gated_item : ActionItem
gated_item = record {
  id = 20;
  workspace_id = 1;
  organization_id = 1;
  call_id = none;
  title = codes "Send the quote";
  description = none;
  due_at = none;
  payload = (codes "decision_id", codes "00000000-0000-0000-0000-000000000005") ∷ [];
  status = pending_approval;
  extracted_by = none;
  confidence = none;
  handler = email_drafter;
  handler_outcome = none;
  handler_outcome_artifact_id = none;
  handler_executed_at = none;
  handler_attempts = 0;
  handler_error = none;
  created_at = 0;
}

abbrev start : AppDb
start = record {
  workspaces = office ∷ [];
  decisions = [];
  action_items = gated_item ∷ [];
  calls = [];
  field_employees = [];
  frames = [];
  messages = [];
  jobs = [];
}

abbrev env : Env
env = record { now = 100; new_id = 5; telephony = true; inline_mode = false }

abbrev offer : List Text
offer = codes "Yes" ∷ codes "No" ∷ []

abbrev request : OpenRequest
request = record {
  call_id = 3;
  workspace_id = 1;
  prompt = codes "Discount?";
  options = offer;
  decision_class = codes "inline";
  context = none;
  manager_phone = some (codes "+1");
  agentphone_agent_id = some (codes "a");
}

abbrev asked : DecisionRequest
asked = record {
  id = 5;
  call_id = 3;
  workspace_id = 1;
  target_user_id = 7;
  prompt = codes "Discount?";
  options = offer;
  decision_class = inline;
  timeout_at = some 45000100;
  status = open_status;
  response = none;
  responded_at = none;
  responded_by_user_id = none;
  responded_via = none;
  surfaced_in_brief_at = none;
  context = none;
  created_at = 100;
}

abbrev opened : AppDb
opened = record {
  workspaces = office ∷ [];
  decisions = asked ∷ [];
  action_items = gated_item ∷ [];
  calls = [];
  field_employees = [];
  frames = (1, decision_opened 3 5 (codes "Discount?") offer inline (some 45000100)) ∷ [];
  messages =
      record {
        agent_id = codes "a";
        to_number = codes "+1";
        body = codes "[DR-000000] Discount?" ++ (10 ∷ (10 ∷ codes "Reply with one of: Yes | No"));
      }
      ∷ [];
  jobs = decision_timeout 5 45000100 ∷ [];
}

open_decision_run : open_decision ascii env request start ≡ (ok asked, opened)
unfolding open_decision find_row text_eq hex_text join
open_decision_run = refl

-- The option in other letters, from the Manager's phone.
match_sms_run : (match_sms_response ascii 200 (codes " [dr-000000] no") 7 opened).0 ≡ ok none
unfolding match_sms_response strip find_char text_eq short_id hex_text parse_stripped
match_sms_run = refl

match_sms_lower :
    (match_sms_response ascii 200 (codes " [DR-000000]  no ") 7 opened).0
    ≡ ok (some (answered_row (codes "No") 7 sms 200 asked))
unfolding match_sms_response respond strip find_char text_eq short_id hex_text contains find_row
    save_row list_open_for_user order_desc find_candidate choose reply_parts parse_stripped
match_sms_lower = refl

asked-found : find_row key 5 opened.decisions ≡ some asked
unfolding find_row
asked-found = refl

Reach-opened : Reach ascii start opened
Reach-opened = subst (λ x. Reach ascii start x.1) open_decision_run (next here (opens env request))

start-Consistent : DecisionsConsistent start
start-Consistent = tt

Reach-Consistent_example : DecisionsConsistent opened
Reach-Consistent_example = Reach-Consistent ascii start opened Reach-opened start-Consistent

abbrev yes_row : DecisionRequest
yes_row = answered_row (codes "Yes") 7 websocket 200 asked

yes_run : (respond 200 5 7 (codes "Yes") websocket opened).0 ≡ ok yes_row
unfolding respond find_row contains text_eq
yes_run = refl

abbrev answered_db : AppDb
answered_db = record opened {
  decisions = yes_row ∷ [];
  frames = opened.frames ++ ((1, decision_resolved 3 5 (some (codes "Yes")) websocket) ∷ []);
}

respond-respond_example :
    (respond 300 5 8 (codes "No") sms (respond 200 5 7 (codes "Yes") websocket opened).1
      ≡ (err conflict, (respond 200 5 7 (codes "Yes") websocket opened).1))
    × (decision_timeout_job 300 5 (respond 200 5 7 (codes "Yes") websocket opened).1
        ≡ (ok (final answered), (respond 200 5 7 (codes "Yes") websocket opened).1))
respond-respond_example =
    respond-respond 200 5 7 (codes "Yes") websocket opened yes_row yes_run 300 8 (codes "No") sms

yes_step : (respond_to_decision 200 1 5 7 (codes "Yes") opened).1 ≡ answered_db
unfolding respond_to_decision respond find_row contains text_eq save_row get_decision
yes_step = refl

yes-found : find_row key 5 answered_db.decisions ≡ some yes_row
unfolding find_row
yes-found = refl

Reach-settled_example :
    find_row key 5 (decision_timeout_job 300 5 answered_db).1.decisions ≡ some yes_row
Reach-settled_example =
    Reach-settled ascii answered_db (decision_timeout_job 300 5 answered_db).1 5 yes_row
      (next here (times_out 300 5)) refl yes-found

resolve_now-timeout_example :
    ((user' : ℕ) (response : Text) (via : RespondedVia)
      → respond 300 5 user' response via (decision_timeout_job 250 5 opened).1
        ≡ (err conflict, (decision_timeout_job 250 5 opened).1))
    × ((e : DecisionRequest) × (find_row key 5
            (resolve_now 300 1 5 7 (codes "Yes") (decision_timeout_job 250 5 opened).1).1.decisions
          ≡ some e)
        × (e.status ≡ answered_late)
        × (e.response ≡ some (codes "Yes"))
        × (e.responded_by_user_id ≡ some 7))
unfolding contains text_eq
resolve_now-timeout_example =
    resolve_now-timeout 250 1 5 7 300 (codes "Yes") opened asked asked-found refl refl refl

resolve_now-gated_example :
    ((e : Error)
      → (resolve_now 300 1 5 7 (codes "Yes") opened).0 ≡ err e
      → (resolve_now 300 1 5 7 (codes "Yes") opened).1.action_items ≡ opened.action_items)
    × ((d : DecisionRequest) (n : ℕ)
        → (resolve_now 300 1 5 7 (codes "Yes") opened).0 ≡ ok (d, n)
        → ((resolve_now 300 1 5 7 (codes "Yes") opened).1.action_items
            ≡ map
                (λ item. if is_gated 1 5 item then record item { status = approved } else item)
                opened.action_items)
          × (n ≡ length (select (is_gated 1 5) opened.action_items))
          × (select (is_gated 1 5) (resolve_now 300 1 5 7 (codes "Yes") opened).1.action_items
              ≡ []))
resolve_now-gated_example = resolve_now-gated 1 5 300 7 (codes "Yes") opened

abbrev count_of : Result (DecisionRequest × ℕ) → ℕ
count_of (ok (d, n)) = n
count_of (err e) = 0

resolve_now_count : count_of (resolve_now 300 1 5 7 (codes "Yes") opened).0 ≡ 1
unfolding resolve_now find_row contains text_eq is_gated hex_text
resolve_now_count = refl

abbrev missed_db : AppDb
missed_db = record opened { decisions = timed_out_row 250 asked ∷ [] }

abbrev briefed_db : AppDb
briefed_db = (run_dashboard_rollup none 1 400 missed_db).1

missed_run : (run_dashboard_rollup none 1 400 missed_db).0 ≡ ok (timed_out_row 250 asked ∷ [])
unfolding run_dashboard_rollup order_desc insert_desc find_row
missed_run = refl

briefed_run : (run_dashboard_rollup none 1 500 briefed_db).0 ≡ ok []
unfolding run_dashboard_rollup order_desc insert_desc find_row
briefed_run = refl

briefed-Distinct : Distinct key briefed_db.decisions
unfolding run_dashboard_rollup order_desc insert_desc find_row
briefed-Distinct = (refl, tt)

missed-Distinct : Distinct key missed_db.decisions
unfolding find_row
missed-Distinct = (refl, tt)

run_dashboard_rollup-once_example :
    (member 5 (map key (timed_out_row 250 asked ∷ [])) ≡ is_missed_in 1 5 missed_db)
    × ((member 5 (map key (timed_out_row 250 asked ∷ [])) && member 5 (map key [])) ≡ false)
run_dashboard_rollup-once_example =
    run_dashboard_rollup-once ascii none none 1 1 400 500 5 missed_db briefed_db
      (timed_out_row 250 asked ∷ []) [] missed-Distinct briefed-Distinct missed_run here briefed_run

only_no : All (IsOnlyOption ascii (codes "No")) offer
unfolding text_eq
only_no = (λ h. cc, (λ h. refl, tt))

match_sms_response-ping_example :
    (match_sms_response ascii 200
      (codes "[DR-" ++ (short_id ascii 5 ++ (codes "] " ++ codes "No")))
      7
      opened).0
    ≡ ok (some (answered_row (codes "No") 7 sms 200 asked))
unfolding contains text_eq strip
match_sms_response-ping_example =
    match_sms_response-ping ascii 200 opened 5 asked (codes "No") asked-found refl (λ h. refl, tt)
      refl only_no refl refl
