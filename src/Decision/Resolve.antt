-- ===== src/Decision/Resolve.antt =====
-- `respond_to_decision` and `resolve_now` of app/api/workspaces/decisions.py.
use vof_backend.Db.{AppDb}
use vof_backend.Db.Models.{
  DecisionStatus, open_status, answered, answered_late, timed_out, websocket, payload_get,
  DecisionRequest, approved, ActionItem, is_pending,
}
use vof_backend.Decision.Repo.{get_decision, lock_for_update, save}
use vof_backend.Decision.Service.{respond}
use vof_backend.Errors.{not_found, validation, conflict}
use vof_backend.Exec.{Exec, pure, gets, or_raise, ◌>>=◌, ◌>>◌, modify, raise_if}
use vof_backend.Prelude.{
  ◌==◌, if◌then◌else◌, ℕ, ◌+◌, Bool, true, false, not, ◌&&◌, Option, none, some, List, [], ◌∷◌,
}
use vof_backend.Text.{Text, codes, text_eq, contains}
use vof_backend.Text.Hex.{uuid_text}

-- A decision of another workspace is not found.
abbrev pub in_workspace : ℕ → Option DecisionRequest → Option DecisionRequest
in_workspace workspace_id none = none
in_workspace workspace_id (some d) = if d.workspace_id == workspace_id then some d else none

unfoldable pub respond_to_decision :
    (now workspace_id decision_id user_id : ℕ) (response : Text) → Exec AppDb DecisionRequest
respond_to_decision now workspace_id decision_id user response = do
  found ← gets (get_decision decision_id)
  existing ← or_raise (in_workspace workspace_id found) not_found
  respond now decision_id user response websocket

-- A pending action item of the workspace whose payload names the decision.
unfoldable pub is_gated : ℕ → ℕ → ActionItem → Bool
unfolding payload_get uuid_text
is_gated workspace_id decision_id item =
    item.workspace_id == workspace_id
    && is_pending item.status
    && text_eq (payload_get (codes "decision_id") item.payload) (uuid_text decision_id)

unfoldable pub auto_approve : ℕ → ℕ → List ActionItem → List ActionItem × ℕ
auto_approve workspace_id decision_id [] = ([], 0)
auto_approve workspace_id decision_id (item ∷ items) =
    let (items', n) = auto_approve workspace_id decision_id items in
    if is_gated workspace_id decision_id item
    then (record item { status = approved } ∷ items', n + 1)
    else (item ∷ items', n)

abbrev pub is_resolvable : DecisionStatus → Bool
is_resolvable timed_out = true
is_resolvable open_status = true
is_resolvable _ = false

unfoldable pub late_status : DecisionStatus → DecisionStatus
late_status timed_out = answered_late
late_status _ = answered

unfoldable pub resolved : (now user_id : ℕ) → Text → DecisionRequest → DecisionRequest
unfolding late_status
resolved now user option d = record d {
  status = late_status d.status;
  response = some option;
  responded_by_user_id = some user;
  responded_via = some websocket;
  responded_at = some now;
}

-- Returns the row and the number of action items that were approved with it.
unfoldable pub resolve_now :
    (now workspace_id decision_id user_id : ℕ) (option : Text) → Exec AppDb (DecisionRequest × ℕ)
unfolding lock_for_update save auto_approve resolved
resolve_now now workspace_id decision_id user option = do
  found ← lock_for_update decision_id
  d ← or_raise (in_workspace workspace_id found) not_found
  raise_if (not (is_resolvable d.status)) conflict
  raise_if (not (contains option d.options)) validation
  d' ← save (resolved now user option d)
  gated ← gets (λ db. auto_approve workspace_id decision_id db.action_items)
  modify (λ db. record db { action_items = gated.0 })
  pure (d', gated.1)
