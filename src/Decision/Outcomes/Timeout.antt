-- ===== src/Decision/Outcomes/Timeout.antt =====
-- The timeout job closes an open row, or leaves the database as it was.
use vof_backend.Db.{decision_resolved, AppDb}
use vof_backend.Db.Models.{timed_out, timeout, DecisionRequest, is_open}
use vof_backend.Decision.Repo.{key, timed_out_row}
use vof_backend.Decision.Timeout.{TimeoutResult, missing, final, decision_timeout_job}
use vof_backend.Errors.{ok}
use vof_backend.Prelude.{
  find_row, save_row, Bool-cases, Option-cases, ℕ, ◌≡◌, ◌⊎◌, inl, inr, true, false, none, some, [],
  ◌∷◌, ◌++◌, arith,
}

-- The timeout job fires: the row was open.
pub record Fired (now i : ℕ) (db : AppDb) : Type 0 where
  pub row : DecisionRequest
  pub found : find_row key i db.decisions ≡ some row
  pub was_open : is_open row.status ≡ true
  pub outcome : decision_timeout_job now i db ≡ (
    ok (final timed_out),
    record db {
      decisions = save_row key (timed_out_row now row) db.decisions;
      frames =
          db.frames ++ ((row.workspace_id, decision_resolved row.call_id row.id none timeout) ∷ []);
    },
  )

-- The timeout job does nothing, and reports why.
pub record Skipped (now i : ℕ) (db : AppDb) : Type 0 where
  pub report : TimeoutResult
  pub outcome : decision_timeout_job now i db ≡ (ok report, db)

module _ (now i : ℕ) (db : AppDb) where
  timeout_missing :
      find_row key i db.decisions ≡ none → decision_timeout_job now i db ≡ (ok missing, db)
  unfolding decision_timeout_job
  timeout_missing h = ground arith

  module _ (d : DecisionRequest) (found : find_row key i db.decisions ≡ some d) where
    pub timeout_closed :
        is_open d.status ≡ false → decision_timeout_job now i db ≡ (ok (final d.status), db)
    unfolding decision_timeout_job
    timeout_closed h = ground arith

    pub timeout_fires :
        is_open d.status ≡ true
        → decision_timeout_job now i db ≡ (
          ok (final timed_out),
          record db {
            decisions = save_row key (timed_out_row now d) db.decisions;
            frames =
                db.frames ++ ((d.workspace_id, decision_resolved d.call_id d.id none timeout) ∷ []);
          },
        )
    unfolding decision_timeout_job
    timeout_fires h = ground arith

    timeout_found : Skipped now i db ⊎ Fired now i db
    timeout_found = elim (Bool-cases (is_open d.status)) [
      | inr closed ↦ inl (record { report = final d.status; outcome = timeout_closed closed })
      | inl live ↦
          inr (record { row = d; found = found; was_open = live; outcome = timeout_fires live })
    ]

  pub timeout-cases : Skipped now i db ⊎ Fired now i db
  timeout-cases = elim (Option-cases (find_row key i db.decisions)) [
    | inl absent ↦ inl (record { report = missing; outcome = timeout_missing absent })
    | inr (d, found) ↦ timeout_found d found
  ]
