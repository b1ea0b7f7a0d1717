-- ===== src/Decision/Timeout.antt =====
-- `decision_timeout_job` of app/workers/decision_timeout.py.
use vof_backend.Db.{decision_resolved, AppDb, publish_frame}
use vof_backend.Db.Models.{DecisionStatus, timed_out, timeout, is_open}
use vof_backend.Decision.Repo.{get_decision, mark_timed_out}
use vof_backend.Errors.{ok}
use vof_backend.Exec.{Exec, pure, ◌>>=◌, ◌>>◌}
use vof_backend.Prelude.{if◌then◌else◌, ℕ, none, some}

-- The returned string: "missing", or the status of the row.
pub data TimeoutResult : Type 0 where
  missing : TimeoutResult
  final : DecisionStatus → TimeoutResult

unfoldable pub decision_timeout_job : (now decision_id : ℕ) → Exec AppDb TimeoutResult
unfolding get_decision mark_timed_out publish_frame
decision_timeout_job now decision_id db = elim (get_decision decision_id db) [
  | none ↦ (ok missing, db)
  | some d ↦
      if is_open d.status
      then (do
        d' ← mark_timed_out d now
        publish_frame d'.workspace_id (decision_resolved d'.call_id d'.id none timeout)
        pure (final timed_out))
          db
      else (ok (final d.status), db)
]
