-- ===== src/Decision/Outcomes/Respond.antt =====
-- `respond` answers an open row, or raises and leaves the database as it was.
use vof_backend.Db.{decision_resolved, AppDb}
use vof_backend.Db.Models.{RespondedVia, DecisionRequest, is_open}
use vof_backend.Decision.Repo.{key, answered_row}
use vof_backend.Decision.Service.{respond}
use vof_backend.Errors.{Error, not_found, validation, conflict, ok, err}
use vof_backend.Prelude.{
  find_row, save_row, Bool-cases, Option-cases, ℕ, ◌≡◌, ◌⊎◌, inl, inr, true, false, none, some, [],
  ◌∷◌, ◌++◌, arith,
}
use vof_backend.Text.{Text, contains}

-- `respond` succeeds.
pub record Responded (now i user : ℕ) (response : Text) (via : RespondedVia) (db : AppDb)
    : Type 0 where
  pub row : DecisionRequest
  pub found : find_row key i db.decisions ≡ some row
  pub was_open : is_open row.status ≡ true
  pub offered : contains response row.options ≡ true
  pub outcome : respond now i user response via db ≡ (
    ok (answered_row response user via now row),
    record db {
      decisions = save_row key (answered_row response user via now row) db.decisions;
      frames =
          db.frames
          ++ ((row.workspace_id, decision_resolved row.call_id row.id (some response) via) ∷ []);
    },
  )

-- `respond` raises, and has written nothing.
pub record Refused (now i user : ℕ) (response : Text) (via : RespondedVia) (db : AppDb)
    : Type 0 where
  pub error : Error
  pub outcome : respond now i user response via db ≡ (err error, db)

module _ (now i user : ℕ) (response : Text) (via : RespondedVia) (db : AppDb) where
  pub respond_missing :
      find_row key i db.decisions ≡ none → respond now i user response via db ≡ (err not_found, db)
  unfolding respond
  respond_missing h = ground arith

  module _ (d : DecisionRequest) (found : find_row key i db.decisions ≡ some d) where
    pub respond_closed :
        is_open d.status ≡ false → respond now i user response via db ≡ (err conflict, db)
    unfolding respond
    respond_closed h = ground arith

    pub respond_unoffered :
        is_open d.status ≡ true
        → contains response d.options ≡ false
        → respond now i user response via db ≡ (err validation, db)
    unfolding respond
    respond_unoffered h o = ground arith

    pub respond_answers :
        is_open d.status ≡ true
        → contains response d.options ≡ true
        → respond now i user response via db ≡ (
          ok (answered_row response user via now d),
          record db {
            decisions = save_row key (answered_row response user via now d) db.decisions;
            frames =
                db.frames
                ++ ((d.workspace_id, decision_resolved d.call_id d.id (some response) via) ∷ []);
          },
        )
    unfolding respond
    respond_answers h o = ground arith

    respond_found : Refused now i user response via db ⊎ Responded now i user response via db
    respond_found = elim (Bool-cases (is_open d.status)) [
      | inr closed ↦ inl (record { error = conflict; outcome = respond_closed closed })
      | inl open_row ↦ elim (Bool-cases (contains response d.options)) [
        | inr other ↦
            inl (record { error = validation; outcome = respond_unoffered open_row other })
        | inl offered ↦ inr (record {
          row = d;
          found = found;
          was_open = open_row;
          offered = offered;
          outcome = respond_answers open_row offered;
        })
      ]
    ]

  pub respond-cases : Refused now i user response via db ⊎ Responded now i user response via db
  respond-cases = elim (Option-cases (find_row key i db.decisions)) [
    | inl absent ↦ inl (record { error = not_found; outcome = respond_missing absent })
    | inr (d, found) ↦ respond_found d found
  ]
