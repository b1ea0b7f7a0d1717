-- ===== src/Orchestrator/Pending.antt =====
-- The decisions that a session waits for are rows of the database.
use vof_backend.Access.Guards.{User}
use vof_backend.Db.{AppDb}
use vof_backend.Db.Models.{DecisionRequest}
use vof_backend.Decision.Outcomes.Open.{opened_row, opened_db, open-cases}
use vof_backend.Decision.Repo.{key, get_decision}
use vof_backend.Decision.Service.{Env, OpenRequest, workspace_key, open_decision}
use vof_backend.Errors.{Error, key_error, runtime_error, Result, ok, err}
use vof_backend.Exec.{Exec, pure, ◌>>=◌, >>=-ok, >>=-err}
use vof_backend.Orchestrator.Substream.{ToolResult}
use vof_backend.Orchestrator.ToolDispatch.{ToolCall}
use vof_backend.Orchestrator.Tools.{
  dispatch, ToolContext, RequestManagerDecisionInput, RequestCorrectionInput, Schemas, said,
  decision_request, opened_result, end_call, request_manager_decision, correction_said,
  request_correction,
}
use vof_backend.Prelude.{
  find_row, find_row-append, Bool-cases, Option-cases, is_some, ℕ, ◌≡◌, refl, ap, subst, ◌⊎◌, inl,
  inr, Bool, true, Option, none, some, List, [], ◌∷◌, ◌++◌, arith,
}
use vof_backend.Text.{Text, codes, text_eq, CaseMap}

abbrev pub HasDecision : AppDb → ℕ → Type 0
HasDecision db i = is_some (get_decision i db) ≡ true

-- The decision that a result names.
abbrev pub Names : Result ToolResult → ℕ → Type 0
Names r i = (t : ToolResult) × (r ≡ ok t) × (t.decision_id ≡ some i)

-- What a tool leaves: the decisions that were there, and the one that its result names, and no other.
pub record Keeps (db : AppDb) (r : Result ToolResult × AppDb) : Type 0 where
  pub old : (i : ℕ) → HasDecision db i → HasDecision r.1 i
  pub named : (t : ToolResult) (i : ℕ) → r.0 ≡ ok t → t.decision_id ≡ some i → HasDecision r.1 i
  pub fresh : (i : ℕ) → HasDecision r.1 i → HasDecision db i ⊎ Names r.0 i

-- A result without a decision, on the same database
unchanged-Keeps :
    (db : AppDb) (r : Result ToolResult)
    → ((t : ToolResult) → r ≡ ok t → t.decision_id ≡ none)
    → Keeps db (r, db)
unchanged-Keeps db r h = record {
  old = λ i k. k;
  named = λ t i e k. absurd (ground (arith, h t e));
  fresh = λ i k. inl k;
}

said-Keeps : (db : AppDb) (t : Text) (end_turn : Bool) → Keeps db (ok (said t end_turn), db)
said-Keeps db t end_turn = unchanged-Keeps db (ok (said t end_turn)) (λ x e. ground (arith, e))

err-Keeps : (db : AppDb) (e : Error) → Keeps db (err e, db)
err-Keeps db e = unchanged-Keeps db (err e) (λ x k. absurd (cc))

append-HasDecision :
    (ds : List DecisionRequest) (d : DecisionRequest) (i : ℕ)
    → is_some (find_row key i ds) ≡ true
    → is_some (find_row key i (ds ++ (d ∷ []))) ≡ true
append-HasDecision ds d i h = ground (arith, find_row-append key i ds d)

new-HasDecision :
    (ds : List DecisionRequest) (d : DecisionRequest)
    → is_some (find_row key d.id (ds ++ (d ∷ []))) ≡ true
new-HasDecision ds d = by_old (find_row key d.id ds) refl
  where
    by_old :
        (o : Option DecisionRequest)
        → find_row key d.id ds ≡ o
        → is_some (find_row key d.id (ds ++ (d ∷ []))) ≡ true
    by_old none e = ground (arith, find_row-append key d.id ds d, e)
    by_old (some x) e = ground (arith, find_row-append key d.id ds d, e)

-- A row that is there after one was added is an old one or the new one.
fresh-HasDecision :
    (ds : List DecisionRequest) (d : DecisionRequest) (i : ℕ)
    → is_some (find_row key i (ds ++ (d ∷ []))) ≡ true
    → (is_some (find_row key i ds) ≡ true) ⊎ (d.id ≡ i)
fresh-HasDecision ds d i h = elim (Option-cases (find_row key i ds)) [
  | inl e ↦ inr (ground (arith, find_row-append key i ds d, e, h))
  | inr (x, e) ↦ inl (rw e refl)
]

module _ (c : CaseMap) (env : AppDb → Env) (users : List User) (ctx : ToolContext) where
  opened-Keeps :
      (i : RequestManagerDecisionInput) (req : OpenRequest) (db : AppDb)
      → Keeps db ((open_decision c (env db) req >>= λ d. pure (opened_result i d)) db)
  unfolding get_decision
  opened-Keeps i req db = elim (open-cases c (env db) req db) [
    | inl n ↦
        rw
          (>>=-err (open_decision c (env db) req) (λ d. pure (opened_result i d)) db db n.error
            n.outcome)
          (err-Keeps db n.error)
    | inr o ↦
        let row = opened_row (env db) req o.manager o.cls in
        rw
          (>>=-ok (open_decision c (env db) req) (λ d. pure (opened_result i d)) db
            (opened_db c (env db) req row db) row o.outcome)
          (record {
            old = λ k h. append-HasDecision db.decisions row k h;
            named = λ t k e h.
                (let same : row.id ≡ k = ground (arith, e, h) in
                  subst (λ n. is_some (find_row key n (db.decisions ++ (row ∷ []))) ≡ true) same
                    (new-HasDecision db.decisions row));
            fresh = λ k h. elim (fresh-HasDecision db.decisions row k h) [
              | inl old ↦ inl old
              | inr e ↦ inr (opened_result i row, refl, ap some e)
            ];
          })
  ]

  request_manager_decision-Keeps :
      (i : RequestManagerDecisionInput) (db : AppDb)
      → Keeps db (request_manager_decision c env users ctx i db)
  unfolding request_manager_decision
  request_manager_decision-Keeps i db =
      elim (Option-cases (find_row workspace_key ctx.workspace_id db.workspaces)) [
        | inl h ↦ rw (request_manager_decision, h) (said-Keeps db _ true)
        | inr (w, h) ↦
            rw (request_manager_decision, h) (opened-Keeps i (decision_request users ctx i w db) db)
      ]

  correction_said-none :
      (i : RequestCorrectionInput) (r : Result (Unit {0})) (t : ToolResult)
      → correction_said c env users ctx i r ≡ ok t
      → t.decision_id ≡ none
  unfolding correction_said
  correction_said-none i (ok u) t h = ground (arith, h)
  correction_said-none i (err e) t h = ground (arith, h)

  module _
      (apply_correction : (manager_user_id : ℕ) → RequestCorrectionInput → Result (Unit {0})) where
    request_correction-Keeps :
        (i : RequestCorrectionInput) (db : AppDb)
        → Keeps db (request_correction c env users ctx apply_correction i db)
    unfolding request_correction
    request_correction-Keeps i db =
        elim (Option-cases (find_row workspace_key ctx.workspace_id db.workspaces)) [
          | inl h ↦ rw (request_correction, h) (said-Keeps db _ true)
          | inr (w, h) ↦ elim (Option-cases w.manager_user_id) [
            | inl k ↦ rw (request_correction, h, k) (said-Keeps db _ true)
            | inr (m, k) ↦
                rw (request_correction, h, k)
                  (unchanged-Keeps db _ (correction_said-none i (apply_correction m i)))
          ]
        ]

    module _ {Args : Type 0} (schemas : Schemas Args) where
      abbrev tool : ToolCall Args → Exec AppDb ToolResult
      tool = dispatch c env users ctx schemas apply_correction

      pub dispatch-Keeps : (t : ToolCall Args) (db : AppDb) → Keeps db (tool t db)
      unfolding dispatch
      dispatch-Keeps t db = elim (Bool-cases (text_eq t.name (codes "request_manager_decision"))) [
        | inl e ↦ elim (Option-cases (schemas.decision_input t.args)) [
          | inl k ↦ rw (dispatch, e, k) (err-Keeps db runtime_error)
          | inr (i, k) ↦ rw (dispatch, e, k) (request_manager_decision-Keeps i db)
        ]
        | inr e ↦ elim (Bool-cases (text_eq t.name (codes "request_correction"))) [
          | inl f ↦ elim (Option-cases (schemas.correction_input t.args)) [
            | inl k ↦ rw (dispatch, e, f, k) (err-Keeps db runtime_error)
            | inr (i, k) ↦ rw (dispatch, e, f, k) (request_correction-Keeps i db)
          ]
          | inr f ↦ elim (Bool-cases (text_eq t.name (codes "end_call"))) [
            | inl g ↦ elim (Option-cases (schemas.end_call_input t.args)) [
              | inl k ↦ rw (dispatch, e, f, g, k) (err-Keeps db runtime_error)
              | inr (i, k) ↦
                  rw (dispatch, e, f, g, k)
                    (unchanged-Keeps db (ok end_call) (λ x q. ground (arith, q)))
            ]
            | inr g ↦ rw (dispatch, e, f, g) (err-Keeps db key_error)
          ]
        ]
      ]
