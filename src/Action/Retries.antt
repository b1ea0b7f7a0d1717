-- ===== src/Action/Retries.antt =====
-- An item whose handler keeps raising.
use vof_backend.Action.Dispatch.{raised, max_handler_attempts, handler_update, item_update}
use vof_backend.Action.Repo.{outcome_row}
use vof_backend.Action.Runs.{run_row}
use vof_backend.Db.Models.{approved, failed, ActionItem, is_approved, has_handler}
use vof_backend.Prelude.{ℕ, ◌≡◌, true, some, arith}
use vof_backend.Text.{Text}

-- An approved item that was never run, whose handler raises at each run, is approved again after the
-- first run and the second, and failed after the third, with three attempts counted.
pub run_row-retries :
    (clock : ActionItem → ℕ) (t e : Text) (user : ℕ) (i : ActionItem)
    → has_handler i.handler ≡ true
    → is_approved i.status ≡ true
    → i.handler_attempts ≡ 0
    → let run = run_row (λ h u j. raised t e) clock (some user) in
      ((run i).status ≡ approved)
      × ((run (run i)).status ≡ approved)
      × ((run (run (run i))).status ≡ failed)
      × ((run (run (run i))).handler_attempts ≡ 3)
unfolding item_update handler_update outcome_row max_handler_attempts
run_row-retries clock t e user i h a n = ground arith
