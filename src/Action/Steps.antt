-- ===== src/Action/Steps.antt =====
-- The steps that change action items, and the databases that they reach.
use vof_backend.Action.Approval.{
  approve_action_item, reject_action_item, ActionItemPatch, edit_action_item,
}
use vof_backend.Action.Dispatch.{HandlerResult, dispatch}
use vof_backend.Action.Repo.{get_item, NewItem, create_item}
use vof_backend.Db.{AppDb}
use vof_backend.Db.Models.{pending_approval, ActionItemHandler, ActionItem}
use vof_backend.Decision.Resolve.{auto_approve}
use vof_backend.Prelude.{ℕ, ◌≡◌, Option, none}

-- What runs the handlers, and when.
pub record Handlers : Type 0 where
  pub execute : ActionItemHandler → ℕ → ActionItem → HandlerResult
  pub clock : ActionItem → ℕ
  pub creds : ℕ → Option ℕ

-- An answer that was given late approves the pending items that wait for its decision.
abbrev pub auto_approved : (workspace_id decision_id : ℕ) → AppDb → AppDb
auto_approved workspace_id decision_id db = record db {
  action_items = (auto_approve workspace_id decision_id db.action_items).0;
}

pub data ItemStep (db : AppDb) : AppDb → Type 0 where
  saves :
      (new_id now : ℕ) (n : NewItem)
      → n.status ≡ pending_approval
      → get_item new_id db ≡ none
      → ItemStep db (create_item new_id now n db).1
  approves : (workspace_id id : ℕ) → ItemStep db (approve_action_item workspace_id id db).1
  rejects : (workspace_id id : ℕ) → ItemStep db (reject_action_item workspace_id id db).1
  edits :
      (workspace_id id : ℕ) (b : ActionItemPatch)
      → ItemStep db (edit_action_item workspace_id id b db).1
  auto_approves :
      (workspace_id decision_id : ℕ) → ItemStep db (auto_approved workspace_id decision_id db)
  dispatches :
      (h : Handlers) (workspace_id : ℕ)
      → ItemStep db (dispatch h.execute h.clock h.creds workspace_id db).1

pub data ItemReach (db : AppDb) : AppDb → Type 0 where
  no_step : ItemReach db db
  and_then : {db' db'' : AppDb} → ItemReach db db' → ItemStep db' db'' → ItemReach db db''
