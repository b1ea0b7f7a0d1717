-- ===== src/Decision/Answers.antt =====
-- Who answers a decision first, and what a response, a timeout and a late resolution make of one another.
use vof_backend.Db.{AppDb}
use vof_backend.Db.Models.{answered, answered_late, RespondedVia, DecisionRequest, is_open}
use vof_backend.Decision.Outcomes.Resolve.{resolve_done}
use vof_backend.Decision.Outcomes.Respond.{
  respond_missing, respond_closed, respond_unoffered, respond_answers, respond-cases,
}
use vof_backend.Decision.Outcomes.Timeout.{timeout_closed, timeout_fires}
use vof_backend.Decision.Repo.{key, answered_row, timed_out_row}
use vof_backend.Decision.Resolve.{resolved, resolve_now}
use vof_backend.Decision.Service.{respond}
use vof_backend.Decision.Timeout.{final, decision_timeout_job}
use vof_backend.Errors.{not_found, validation, conflict, Result, ok, err}
use vof_backend.Prelude.{
  find_row, find_row-key, find_row-save_row, ℕ, ◌≡◌, refl, ap, subst, inl, inr, true, false, none,
  some, arith,
}
use vof_backend.Text.{Text, contains}

module _ (now i user : ℕ) (response : Text) (via : RespondedVia) (db : AppDb) where
  -- `respond` answers exactly the open rows, with one of the offered options; a missing row is
  -- `not_found`, a row that is not open a conflict and any other response a validation error. An error
  -- leaves the database as it was.
  pub respond_branches :
      (find_row key i db.decisions ≡ none
        → respond now i user response via db ≡ (err not_found, db))
      × ((d : DecisionRequest)
          → find_row key i db.decisions ≡ some d
          → (is_open d.status ≡ false → respond now i user response via db ≡ (err conflict, db))
            × (is_open d.status ≡ true
                → contains response d.options ≡ false
                → respond now i user response via db ≡ (err validation, db))
            × (is_open d.status ≡ true
                → contains response d.options ≡ true
                → ((respond now i user response via db).0
                    ≡ ok (answered_row response user via now d))
                  × (find_row key i (respond now i user response via db).1.decisions
                      ≡ some (answered_row response user via now d))))
  respond_branches = (
    respond_missing now i user response via db,
    λ d found. (
      respond_closed now i user response via db d found,
      respond_unoffered now i user response via db d found,
      λ live offered. rw (respond_answers now i user response via db d found live offered) (
        refl,
        ground (
          arith,
          find_row-key key i db.decisions d found,
          find_row-save_row key i (answered_row response user via now d) db.decisions,
        ),
      ),
    ),
  )

  answered_found :
      (d : DecisionRequest)
      → (respond now i user response via db).0 ≡ ok d
      → (e : DecisionRequest) × (find_row key i (respond now i user response via db).1.decisions
          ≡ some e)
        × (e.status ≡ answered)
  answered_found d h = elim (respond-cases now i user response via db) [
    | inl r ↦
        absurd (let q = ap (λ (x : Result DecisionRequest × AppDb). x.0) r.outcome in cc (q, h))
    | inr r ↦ (
      answered_row response user via now r.row,
      rw r.outcome (
          ground (
            arith,
            find_row-key key i db.decisions r.row r.found,
            r.found,
            find_row-save_row key i (answered_row response user via now r.row) db.decisions,
          )),
      refl,
    )
  ]

  -- The first responder wins: after a response that succeeded, every other response to the same
  -- decision, by whomever, over whichever channel and with whichever option, is a conflict that changes
  -- nothing, and the timeout job finds the row answered and changes nothing.
  pub respond-respond :
      (d : DecisionRequest)
      → (respond now i user response via db).0 ≡ ok d
      → (now' user' : ℕ) (response' : Text) (via' : RespondedVia)
      → let db' = (respond now i user response via db).1 in
        (respond now' i user' response' via' db' ≡ (err conflict, db'))
        × (decision_timeout_job now' i db' ≡ (ok (final answered), db'))
  respond-respond d h now' user' response' via' =
      let (e, found, settled) = answered_found d h in
      let db' = (respond now i user response via db).1 in
      (
        respond_closed now' i user' response' via' db' e found (rw settled),
        subst (λ s. decision_timeout_job now' i db' ≡ (ok (final s), db')) settled
            (timeout_closed now' i db' e found (rw settled)),
      )

-- After the timeout job has fired on an open decision a response is a conflict that changes nothing,
-- but the Manager can still resolve it: with an offered option, the row is then answered late, with
-- that option and by that Manager.
pub resolve_now-timeout :
    (now w i user now' : ℕ) (option : Text) (db : AppDb) (d : DecisionRequest)
    → find_row key i db.decisions ≡ some d
    → is_open d.status ≡ true
    → d.workspace_id ≡ w
    → contains option d.options ≡ true
    → let db' = (decision_timeout_job now i db).1 in
      ((user' : ℕ) (response : Text) (via : RespondedVia)
        → respond now' i user' response via db' ≡ (err conflict, db'))
      × ((e : DecisionRequest) × (find_row key i (resolve_now now' w i user option db').1.decisions
            ≡ some e)
          × (e.status ≡ answered_late)
          × (e.response ≡ some option)
          × (e.responded_by_user_id ≡ some user))
unfolding resolved
resolve_now-timeout now w i user now' option db d found live at_home offered =
    let db' = (decision_timeout_job now i db).1 in
    let t = timed_out_row now d in
    let found' : find_row key i db'.decisions ≡ some t = rw (timeout_fires now i db d found live) (
      ground (
        arith,
        find_row-key key i db.decisions d found,
        found,
        find_row-save_row key i (timed_out_row now d) db.decisions,
      )) in
    (
      λ user' response via. respond_closed now' i user' response via db' t found' refl,
      (
        resolved now' user option t,
        rw (resolve_done now' w i user option db' t found' (ground arith) refl offered) (
            ground (
              arith,
              find_row-key key i db.decisions d found,
              found',
              find_row-save_row key i (resolved now' user option t) db'.decisions,
            )),
        refl,
        refl,
        refl,
      ),
    )
