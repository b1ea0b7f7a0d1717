-- ===== src/Action.antt =====
-- Action items: app/db/repositories/action_items_repo.py, app/api/workspaces/action_items.py and
-- app/workers/action_item_dispatcher.py.
pub mod Repo
pub mod Approval
pub mod Dispatch
pub mod Extract
mod Deduped
mod Listed
mod Runs
mod Approvals
mod Steps
mod Counted
mod Attempts
mod Finished
mod Decided
mod Retries
mod Tests
