-- ===== src/Decision/Outcomes/Resolve.antt =====
-- `resolve_now` answers a row that is open or timed out, or raises and leaves the database as it was.
use vof_backend.Db.{AppDb}
use vof_backend.Db.Models.{DecisionRequest}
use vof_backend.Decision.Repo.{key}
use vof_backend.Decision.Resolve.{auto_approve, is_resolvable, resolved, resolve_now}
use vof_backend.Errors.{Error, not_found, validation, conflict, ok, err}
use vof_backend.Prelude.{
  find_row, save_row, ◌==◌, Bool-cases, Option-cases, ℕ, ◌≡◌, ◌⊎◌, inl, inr, true, false, none,
  some, arith,
}
use vof_backend.Text.{Text, contains}

-- `resolve_now` succeeds.
pub record ResolvedNow (now w i user : ℕ) (option : Text) (db : AppDb) : Type 0 where
  pub row : DecisionRequest
  pub found : find_row key i db.decisions ≡ some row
  pub here : row.workspace_id ≡ w
  pub was_resolvable : is_resolvable row.status ≡ true
  pub offered : contains option row.options ≡ true
  pub outcome : resolve_now now w i user option db ≡ (
    ok (resolved now user option row, (auto_approve w i db.action_items).1),
    record db {
      decisions = save_row key (resolved now user option row) db.decisions;
      action_items = (auto_approve w i db.action_items).0;
    },
  )

pub record NotResolved (now w i user : ℕ) (option : Text) (db : AppDb) : Type 0 where
  pub error : Error
  pub outcome : resolve_now now w i user option db ≡ (err error, db)

module _ (now w i user : ℕ) (option : Text) (db : AppDb) where
  resolve_missing :
      find_row key i db.decisions ≡ none → resolve_now now w i user option db ≡ (err not_found, db)
  unfolding resolve_now
  resolve_missing h = ground arith

  module _ (d : DecisionRequest) (found : find_row key i db.decisions ≡ some d) where
    resolve_elsewhere :
        (d.workspace_id == w) ≡ false → resolve_now now w i user option db ≡ (err not_found, db)
    unfolding resolve_now
    resolve_elsewhere h = ground arith

    module _ (here : (d.workspace_id == w) ≡ true) where
      pub resolve_settled :
          is_resolvable d.status ≡ false → resolve_now now w i user option db ≡ (err conflict, db)
      unfolding resolve_now
      resolve_settled h = ground arith

      module _ (live : is_resolvable d.status ≡ true) where
        resolve_unoffered :
            contains option d.options ≡ false
            → resolve_now now w i user option db ≡ (err validation, db)
        unfolding resolve_now
        resolve_unoffered h = ground arith

        pub resolve_done :
            contains option d.options ≡ true
            → resolve_now now w i user option db ≡ (
              ok (resolved now user option d, (auto_approve w i db.action_items).1),
              record db {
                decisions = save_row key (resolved now user option d) db.decisions;
                action_items = (auto_approve w i db.action_items).0;
              },
            )
        unfolding resolve_now
        resolve_done h = ground arith

        resolve_live : NotResolved now w i user option db ⊎ ResolvedNow now w i user option db
        resolve_live = elim (Bool-cases (contains option d.options)) [
          | inr h ↦ inl (record { error = validation; outcome = resolve_unoffered h })
          | inl h ↦ inr (record {
            row = d;
            found = found;
            here = ground arith;
            was_resolvable = live;
            offered = h;
            outcome = resolve_done h;
          })
        ]

      resolve_here : NotResolved now w i user option db ⊎ ResolvedNow now w i user option db
      resolve_here = elim (Bool-cases (is_resolvable d.status)) [
        | inr h ↦ inl (record { error = conflict; outcome = resolve_settled h })
        | inl h ↦ resolve_live h
      ]

    resolve_found : NotResolved now w i user option db ⊎ ResolvedNow now w i user option db
    resolve_found = elim (Bool-cases (d.workspace_id == w)) [
      | inr h ↦ inl (record { error = not_found; outcome = resolve_elsewhere h })
      | inl h ↦ resolve_here h
    ]

  pub resolve-cases : NotResolved now w i user option db ⊎ ResolvedNow now w i user option db
  resolve-cases = elim (Option-cases (find_row key i db.decisions)) [
    | inl absent ↦ inl (record { error = not_found; outcome = resolve_missing absent })
    | inr (d, found) ↦ resolve_found d found
  ]
