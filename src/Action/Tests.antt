-- ===== src/Action/Tests.antt =====
-- Two action items of one workspace: one to mail, which is undecided, and one to schedule, which waits.
use vof_backend.Action.Approval.{
  approve_action_item, reject_action_item, ActionItemPatch, edit_action_item,
}
use vof_backend.Action.Attempts.{ItemReach-IsCounted}
use vof_backend.Action.Counted.{IsCounted}
use vof_backend.Action.Decided.{approve-once}
use vof_backend.Action.Dispatch.{HandlerResult, raised, dispatch}
use vof_backend.Action.Extract.{title_from, ActionItemCandidate, dedupe}
use vof_backend.Action.Finished.{ItemReach-finished}
use vof_backend.Action.Repo.{
  item_key, get_item, save_item, NewItem, new_item, create_item, status_row,
  list_approved_with_handler,
}
use vof_backend.Action.Retries.{run_row-retries}
use vof_backend.Action.Runs.{report, run_row, ran, dispatch-rows}
use vof_backend.Action.Steps.{Handlers, saves, approves, dispatches, ItemReach, no_step, and_then}
use vof_backend.Db.{AppDb}
use vof_backend.Db.Models.{
  pending_approval, approved, failed, rejected, ActionItemHandler, scheduler, email_drafter,
  none_handler, ActionItem, ready, ManagerWorkspace,
}
use vof_backend.Errors.{conflict, ok, err}
use vof_backend.Prelude.{Distinct, All, find_row, ℕ, ◌≡◌, refl, Option, none, some, List, [], ◌∷◌}
use vof_backend.Text.{Text, codes, text_eq, contains, strip, join, ascii}

abbrev mail : NewItem
mail = record {
  workspace_id = 1;
  organization_id = 1;
  call_id = none;
  title = codes "Send the quote";
  description = none;
  due_at = none;
  payload = [];
  status = pending_approval;
  extracted_by = none;
  confidence = none;
  handler = email_drafter;
}

abbrev mail_item : ActionItem
mail_item = new_item 20 100 mail

abbrev meeting_item : ActionItem
meeting_item = record (new_item 21 101 mail) { status = approved; handler = scheduler }

abbrev rejected_item : ActionItem
rejected_item = record (new_item 22 102 mail) { status = rejected }

abbrev workspace : ManagerWorkspace
workspace = record {
  id = 1;
  organization_id = 1;
  manager_user_id = some 7;
  primary_number = none;
  name = codes "Acme";
  provisioning_state = ready;
  email_inbox_id = none;
  email_inbox_addr = none;
  email_domain = none;
  agentphone_number_id = none;
  agentphone_agent_id = none;
}

abbrev items_db : AppDb
items_db = record {
  workspaces = workspace ∷ [];
  decisions = [];
  action_items = mail_item ∷ meeting_item ∷ rejected_item ∷ [];
  calls = [];
  field_employees = [];
  frames = [];
  messages = [];
  jobs = [];
}

-- Every handler raises.
abbrev broken : ActionItemHandler → ℕ → ActionItem → HandlerResult
broken h user i = raised (codes "ValueError") (codes "no")

abbrev noon : ActionItem → ℕ
noon i = 500

abbrev everyone : ℕ → Option ℕ
everyone w = some 7

items-Distinct : Distinct item_key items_db.action_items
unfolding find_row new_item
items-Distinct = (refl, (refl, (refl, tt)))

dispatch-rows_example :
    ((dispatch broken noon everyone 1 items_db).0
      ≡ ok (report (list_approved_with_handler 1 50 items_db)))
    × (get_item 21 (dispatch broken noon everyone 1 items_db).1
        ≡ ran broken noon
            (some 7)
            (find_row item_key 21 (list_approved_with_handler 1 50 items_db))
            (get_item 21 items_db))
unfolding find_row
dispatch-rows_example =
    dispatch-rows broken noon everyone 1 21 items_db workspace refl items-Distinct

abbrev no_items : AppDb
no_items = record items_db { action_items = [] }

abbrev mailed : AppDb
mailed = (create_item 20 100 mail no_items).1

abbrev mail_steps : ItemReach no_items (approve_action_item 1 20 mailed).1
mail_steps =
    and_then (and_then no_step (saves 20 100 mail refl (unfold get_item find_row in refl)))
      (approves 1 20)

ItemReach-IsCounted_example : All IsCounted (approve_action_item 1 20 mailed).1.action_items
ItemReach-IsCounted_example =
    ItemReach-IsCounted no_items (approve_action_item 1 20 mailed).1 refl mail_steps

abbrev handlers : Handlers
handlers = record { execute = broken; clock = noon; creds = everyone }

ItemReach-finished_example :
    get_item 22 (dispatch broken noon everyone 1 (approve_action_item 1 22 items_db).1).1
    ≡ some rejected_item
unfolding get_item find_row new_item
ItemReach-finished_example =
    ItemReach-finished 22 rejected_item items_db
      (dispatch broken noon everyone 1 (approve_action_item 1 22 items_db).1).1 items-Distinct refl
      refl (and_then (and_then no_step (approves 1 22)) (dispatches handlers 1))

abbrev no_patch : ActionItemPatch
no_patch = record {
  title = none;
  description = none;
  due_at = none;
  payload = none;
  handler = none;
}

abbrev mail_approved : AppDb
mail_approved = (save_item (status_row approved mail_item) items_db).1

approve-once_example :
    (approve_action_item 1 20 items_db ≡ (ok (status_row approved mail_item), mail_approved))
    × (approve_action_item 1 20 mail_approved ≡ (err conflict, mail_approved))
    × (reject_action_item 1 20 mail_approved ≡ (err conflict, mail_approved))
    × (edit_action_item 1 20 no_patch mail_approved ≡ (err conflict, mail_approved))
unfolding get_item find_row new_item
approve-once_example = approve-once 1 20 mail_item items_db no_patch refl refl refl

abbrev run_meeting : ActionItem → ActionItem
run_meeting = run_row broken noon (some 7)

run_row-retries_example :
    ((run_meeting meeting_item).status ≡ approved)
    × ((run_meeting (run_meeting meeting_item)).status ≡ approved)
    × ((run_meeting (run_meeting (run_meeting meeting_item))).status ≡ failed)
    × ((run_meeting (run_meeting (run_meeting meeting_item))).handler_attempts ≡ 3)
unfolding new_item
run_row-retries_example =
    run_row-retries noon (codes "ValueError") (codes "no") 7 meeting_item refl refl refl

abbrev blocker : Text → ActionItemCandidate
blocker t = record {
  title = title_from t 140;
  description = some t;
  handler = none_handler;
  confidence = 60;
  payload = (codes "origin", codes "summary_blocker") ∷ [];
  source_turn_idx = none;
  source_blocker_idx = none;
  extracted_by = codes "heuristic_action_item_extractor@0.1.0";
}

abbrev blockers : List ActionItemCandidate
blockers = blocker (codes "Call Acme") ∷ blocker (codes " call  ACME") ∷ []

one_call : dedupe ascii blockers ≡ blocker (codes "Call Acme") ∷ []
unfolding dedupe title_from contains text_eq join strip
one_call = refl
