-- ===== src/Decision/Brief.antt =====
-- What `run_dashboard_rollup` of app/miniagents/dashboard_rollup.py does with decisions: the missed ones
-- of `compute_aggregate` and `mark_decisions_surfaced` of app/services/dashboards/aggregator.py. The other
-- counts, the rendering, the artifact and the snapshots are outside: only what they raise is taken.
use vof_backend.Db.{AppDb}
use vof_backend.Db.Models.{DecisionRequest, is_timed_out}
use vof_backend.Decision.Repo.{key}
use vof_backend.Decision.Service.{workspace_key}
use vof_backend.Errors.{Error, runtime_error, ok, err}
use vof_backend.Exec.{Exec}
use vof_backend.Prelude.{
  select, find_row, order_desc, ◌==◌, if◌then◌else◌, is_some, get_or_else, ℕ, Bool, false, not,
  ◌&&◌, ◌||◌, Option, none, some, List, [], ◌∷◌, map,
}

abbrev pub is_missed : (workspace_id : ℕ) → DecisionRequest → Bool
is_missed workspace_id d =
    d.workspace_id == workspace_id && is_timed_out d.status && not (is_some d.surfaced_in_brief_at)

-- A row that is timed out has the time of it.
abbrev pub responded : DecisionRequest → ℕ
responded d = get_or_else d.responded_at 0

-- newest first
unfoldable pub missed_decisions : (workspace_id : ℕ) → AppDb → List DecisionRequest
missed_decisions workspace_id db =
    order_desc responded (select (is_missed workspace_id) db.decisions)

unfoldable pub member : ℕ → List ℕ → Bool
member x [] = false
member x (y ∷ ys) = x == y || member x ys

-- One row of the `UPDATE … WHERE id IN (…) AND surfaced_in_brief_at IS NULL`
abbrev pub is_surfaced_now : List ℕ → DecisionRequest → Bool
is_surfaced_now ids d = member d.id ids && not (is_some d.surfaced_in_brief_at)

unfoldable pub surface_row : List ℕ → (at : ℕ) → DecisionRequest → DecisionRequest
unfolding member
surface_row ids at d =
    if is_surfaced_now ids d then record d { surfaced_in_brief_at = some at } else d

-- The `UPDATE`, which changes no row where the list is empty
unfoldable pub mark_decisions_surfaced : List ℕ → (at : ℕ) → AppDb → AppDb
unfolding surface_row
mark_decisions_surfaced ids at db = record db { decisions = map (surface_row ids at) db.decisions }

-- The missed decisions of the brief; where there are none, no statement is sent. A raise before the commit leaves the decisions as they were.
unfoldable pub run_dashboard_rollup :
    (problem : Option Error) → (workspace_id now : ℕ) → Exec AppDb (List DecisionRequest)
unfolding missed_decisions mark_decisions_surfaced
run_dashboard_rollup problem workspace_id now db =
    elim (find_row workspace_key workspace_id db.workspaces) [
      | none ↦ (err runtime_error, db)
      | some w ↦ elim problem [
        | some x ↦ (err x, db)
        | none ↦ (
          ok (missed_decisions workspace_id db),
          mark_decisions_surfaced (map key (missed_decisions workspace_id db)) now db,
        )
      ]
    ]
