-- ===== src/Action/Repo.antt =====
-- app/db/repositories/action_items_repo.py
use vof_backend.Db.{AppDb}
use vof_backend.Db.Models.{
  Payload, ActionItemStatus, ActionItemHandler, ActionItem, status_code, is_approved, has_handler,
}
use vof_backend.Errors.{ok}
use vof_backend.Exec.{Exec}
use vof_backend.Prelude.{
  take, drop, select, find_row, save_row, order_desc, order_asc, ◌==◌, or_else, get_or_else, ℕ,
  Bool, true, ◌&&◌, Option, none, some, List, [], ◌∷◌, ◌++◌,
}
use vof_backend.Text.{Text}

abbrev pub item_key : ActionItem → ℕ
item_key i = i.id

abbrev pub item_created : ActionItem → ℕ
item_created i = i.created_at

unfoldable pub get_item : ℕ → AppDb → Option ActionItem
get_item action_item_id db = find_row item_key action_item_id db.action_items

unfoldable pub save_item : ActionItem → Exec AppDb ActionItem
save_item i db = (ok i, record db { action_items = save_row item_key i db.action_items })

-- The columns that `create` is given; the defaults of the others are the table's.
pub record NewItem : Type 0 where
  pub workspace_id : ℕ
  pub organization_id : ℕ
  pub call_id : Option ℕ
  pub title : Text
  pub description : Option Text
  pub due_at : Option ℕ
  pub payload : Payload
  pub status : ActionItemStatus
  pub extracted_by : Option Text
  pub confidence : Option ℕ
  pub handler : ActionItemHandler

unfoldable pub new_item : (new_id now : ℕ) → NewItem → ActionItem
new_item new_id now n = record {
  id = new_id;
  workspace_id = n.workspace_id;
  organization_id = n.organization_id;
  call_id = n.call_id;
  title = n.title;
  description = n.description;
  due_at = n.due_at;
  payload = n.payload;
  status = n.status;
  extracted_by = n.extracted_by;
  confidence = n.confidence;
  handler = n.handler;
  handler_outcome = none;
  handler_outcome_artifact_id = none;
  handler_executed_at = none;
  handler_attempts = 0;
  handler_error = none;
  created_at = now;
}

unfoldable pub create_item : (new_id now : ℕ) → NewItem → Exec AppDb ActionItem
unfolding new_item
create_item new_id now n db = (
  ok (new_item new_id now n),
  record db { action_items = db.action_items ++ (new_item new_id now n ∷ []) },
)

abbrev pub status_row : ActionItemStatus → ActionItem → ActionItem
status_row status i = record i { status = status }

unfoldable pub update_status : ActionItem → ActionItemStatus → Exec AppDb ActionItem
unfolding save_item
update_status item status = save_item (status_row status item)

-- The arguments of `update_handler_outcome`; `None` leaves a column as it is.
pub record HandlerOutcome : Type 0 where
  pub status : ActionItemStatus
  pub outcome : Option Payload
  pub artifact_id : Option ℕ
  pub executed_at : Option ℕ
  pub error : Option Text
  pub attempts : Option ℕ

unfoldable pub outcome_row : HandlerOutcome → ActionItem → ActionItem
outcome_row o i = record i {
  status = o.status;
  handler_outcome = or_else o.outcome i.handler_outcome;
  handler_outcome_artifact_id = or_else o.artifact_id i.handler_outcome_artifact_id;
  handler_executed_at = or_else o.executed_at i.handler_executed_at;
  handler_error = or_else o.error i.handler_error;
  handler_attempts = get_or_else o.attempts i.handler_attempts;
}

unfoldable pub update_handler_outcome : ActionItem → HandlerOutcome → Exec AppDb ActionItem
unfolding save_item outcome_row
update_handler_outcome item o = save_item (outcome_row o item)

abbrev pub is_ready : ℕ → ActionItem → Bool
is_ready workspace_id i =
    i.workspace_id == workspace_id && is_approved i.status && has_handler i.handler

-- oldest first
unfoldable pub list_approved_with_handler : ℕ → ℕ → AppDb → List ActionItem
list_approved_with_handler workspace_id limit db =
    take limit (order_asc item_created (select (is_ready workspace_id) db.action_items))

abbrev pub status_is : Option ActionItemStatus → ActionItem → Bool
status_is none i = true
status_is (some s) i = status_code i.status == status_code s

unfoldable pub list_for_workspace :
    (workspace_id : ℕ) (status : Option ActionItemStatus) (limit offset : ℕ)
    → AppDb
    → List ActionItem
list_for_workspace workspace_id status limit offset db = take limit (
    drop offset (
      order_desc item_created
        (select (λ i. i.workspace_id == workspace_id && status_is status i) db.action_items)))
