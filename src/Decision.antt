-- ===== src/Decision.antt =====
-- Decision requests: app/services/decisions.py, app/workers/decision_timeout.py,
-- app/db/repositories/decisions_repo.py and app/api/workspaces/decisions.py.
pub mod Repo
pub mod Service
pub mod Sms
pub mod Timeout
pub mod Resolve
pub mod Rows
pub mod Outcomes
pub mod Lifecycle
pub mod Consistency
pub mod Answers
pub mod Gated
pub mod Brief
pub mod Briefed
pub mod Reply
pub mod RoundTrip
mod Tests
