-- ===== src/Action/Dispatch.antt =====
-- app/workers/action_item_dispatcher.py. The two mini-agents and the connectors that they call are the
-- argument `execute`: what running the handler of an item under a user's credentials comes to. An item
-- is run at the time that `clock` gives it.
use Prim.Native.Char.{code}
use vof_backend.Action.Repo.{HandlerOutcome, update_handler_outcome, list_approved_with_handler}
use vof_backend.Db.{AppDb}
use vof_backend.Db.Models.{
  Payload, payload_get, ActionItemStatus, approved, done, failed, needs_reconnect,
  ActionItemHandler, ActionItem, has_handler,
}
use vof_backend.Decision.Service.{workspace_key}
use vof_backend.Exec.{Exec, pure, gets, ◌>>=◌, ◌>>◌}
use vof_backend.Prelude.{
  length, find_row, leb, if◌then◌else◌, ℕ, ◌+◌, Option, none, some, List, [], ◌∷◌, ◌++◌,
}
use vof_backend.Text.{Text, codes, is_empty, text_eq}

pub data HandlerResult : Type 0 where
  revoked : (message : Text) → HandlerResult  -- `OAuthRevokedError`
  raised : (type_name message : Text) → HandlerResult  -- any other exception
  returned : Payload → HandlerResult  -- the outcome

unfoldable pub max_handler_attempts : ℕ
max_handler_attempts = 3

abbrev attempts_of : ActionItem → ℕ
attempts_of item = item.handler_attempts + 1

abbrev pub failure : ActionItemStatus → ℕ → Text → ActionItem → HandlerOutcome
failure status now error item = record {
  status = status;
  outcome = none;
  artifact_id = none;
  executed_at = some now;
  error = some error;
  attempts = some (attempts_of item);
}

unfoldable pub soft_status : Text → ActionItemStatus
soft_status code =
    if text_eq code (codes "google_oauth_not_configured") then needs_reconnect else failed

-- What is written after the handler of an item was run.
unfoldable pub handler_update : HandlerResult → ℕ → ActionItem → HandlerOutcome
unfolding max_handler_attempts soft_status
handler_update (revoked e) now item =
    failure needs_reconnect now (codes "oauth_revoked: " ++ e) item
handler_update (raised t e) now item =
    failure (if leb max_handler_attempts (attempts_of item) then failed else approved) now
      (t ++ (codes ": " ++ e)) item
handler_update (returned outcome) now item =
    let code = payload_get (codes "error") outcome in
    record {
      status = if is_empty code then done else soft_status code;
      outcome = some outcome;
      artifact_id = none;
      executed_at = some now;
      error = if is_empty code then none else some code;
      attempts = some (attempts_of item);
    }

pub data DispatchReport : Type 0 where
  no_workspace idle : DispatchReport
  processed : ℕ → DispatchReport

unfoldable pub write_outcome : ActionItem → Option HandlerOutcome → Exec AppDb Unit
unfolding update_handler_outcome
write_outcome item none = pure tt
write_outcome item (some o) = do saved ← update_handler_outcome item o; pure tt

module _ (execute : ActionItemHandler → ℕ → ActionItem → HandlerResult)
    (clock : ActionItem → ℕ) where
  -- `None` is an item with no handler, of which nothing is written.
  unfoldable pub item_update : Option ℕ → ActionItem → Option HandlerOutcome
  unfolding handler_update
  item_update oauth_user_id item =
      if has_handler item.handler
      then elim oauth_user_id [
        | none ↦ some (failure needs_reconnect (clock item) (codes "no_oauth_credentials") item)
        | some user ↦ some (handler_update (execute item.handler user item) (clock item) item)
      ]
      else none

  unfoldable pub run_one : Option ℕ → ActionItem → Exec AppDb Unit
  unfolding item_update write_outcome
  run_one oauth_user_id item = write_outcome item (item_update oauth_user_id item)

  unfoldable pub run_all : Option ℕ → List ActionItem → Exec AppDb Unit
  unfolding run_one
  run_all oauth_user_id [] = pure tt
  run_all oauth_user_id (item ∷ items) = do run_one oauth_user_id item; run_all oauth_user_id items

  -- `creds` gives the user of a workspace's active credential of Google.
  unfoldable pub dispatch_items :
      (creds : ℕ → Option ℕ) (workspace_id : ℕ) → List ActionItem → Exec AppDb DispatchReport
  unfolding run_all
  dispatch_items creds workspace_id [] = pure idle
  dispatch_items creds workspace_id (item ∷ items) = do
    run_all (creds workspace_id) (item ∷ items)
    pure (processed (length (item ∷ items)))

  unfoldable pub dispatch : (creds : ℕ → Option ℕ) (workspace_id : ℕ) → Exec AppDb DispatchReport
  unfolding dispatch_items list_approved_with_handler
  dispatch creds workspace_id = do
    workspace ← gets (λ db. find_row workspace_key workspace_id db.workspaces)
    items ← gets (list_approved_with_handler workspace_id 50)
    elim workspace [ none ↦ pure no_workspace | some w ↦ dispatch_items creds workspace_id items ]
