-- ===== src/Action/Approval.antt =====
-- The Manager's handlers of app/api/workspaces/action_items.py. Access to the workspace has been checked
-- before.
use vof_backend.Action.Repo.{get_item, save_item, update_status}
use vof_backend.Db.{AppDb}
use vof_backend.Db.Models.{
  Payload, ActionItemStatus, pending_approval, needs_review, approved, rejected, ActionItemHandler,
  ActionItem,
}
use vof_backend.Errors.{not_found, conflict}
use vof_backend.Exec.{Exec, gets, or_raise, ◌>>=◌, ◌>>◌, raise_if}
use vof_backend.Prelude.{
  ◌==◌, if◌then◌else◌, or_else, get_or_else, ℕ, Bool, true, false, not, Option, none, some,
}
use vof_backend.Text.{Text}

abbrev pub item_of_workspace : ℕ → Option ActionItem → Option ActionItem
item_of_workspace workspace_id none = none
item_of_workspace workspace_id (some i) = if i.workspace_id == workspace_id then some i else none

unfoldable pub load_for_ws : (workspace_id action_item_id : ℕ) → Exec AppDb ActionItem
load_for_ws workspace_id action_item_id = do
  row ← gets (get_item action_item_id)
  or_raise (item_of_workspace workspace_id row) not_found

-- `pending_approval` and `needs_review`
abbrev pub is_undecided : ActionItemStatus → Bool
is_undecided pending_approval = true
is_undecided needs_review = true
is_undecided _ = false

unfoldable pub approve_action_item : (workspace_id action_item_id : ℕ) → Exec AppDb ActionItem
unfolding load_for_ws update_status
approve_action_item workspace_id action_item_id = do
  row ← load_for_ws workspace_id action_item_id
  raise_if (not (is_undecided row.status)) conflict
  update_status row approved

unfoldable pub reject_action_item : (workspace_id action_item_id : ℕ) → Exec AppDb ActionItem
unfolding load_for_ws update_status
reject_action_item workspace_id action_item_id = do
  row ← load_for_ws workspace_id action_item_id
  raise_if (not (is_undecided row.status)) conflict
  update_status row rejected

pub record ActionItemPatch : Type 0 where
  pub title : Option Text
  pub description : Option Text
  pub due_at : Option ℕ
  pub payload : Option Payload
  pub handler : Option ActionItemHandler

unfoldable pub patched : ActionItemPatch → ActionItem → ActionItem
patched b i = record i {
  title = get_or_else b.title i.title;
  description = or_else b.description i.description;
  due_at = or_else b.due_at i.due_at;
  payload = get_or_else b.payload i.payload;
  handler = get_or_else b.handler i.handler;
}

unfoldable pub edit_action_item :
    (workspace_id action_item_id : ℕ) → ActionItemPatch → Exec AppDb ActionItem
unfolding load_for_ws save_item patched
edit_action_item workspace_id action_item_id body = do
  row ← load_for_ws workspace_id action_item_id
  raise_if (not (is_undecided row.status)) conflict
  save_item (patched body row)
