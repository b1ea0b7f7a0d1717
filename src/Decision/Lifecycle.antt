-- ===== src/Decision/Lifecycle.antt =====
-- Every operation on decisions moves rows along the edges of `may_move`, and an answer is final.
use vof_backend.Db.{AppDb}
use vof_backend.Db.Models.{RespondedVia, websocket, sms, DecisionRequest, is_open}
use vof_backend.Decision.Outcomes.Open.{opened_row, open-cases}
use vof_backend.Decision.Outcomes.Resolve.{resolve-cases}
use vof_backend.Decision.Outcomes.Respond.{respond-cases}
use vof_backend.Decision.Outcomes.Sms.{sms-cases}
use vof_backend.Decision.Outcomes.Timeout.{timeout-cases}
use vof_backend.Decision.Repo.{key, get_decision, answered_row, timed_out_row}
use vof_backend.Decision.Resolve.{
  in_workspace, respond_to_decision, is_resolvable, resolved, resolve_now,
}
use vof_backend.Decision.Rows.{
  may_move, is_settled, RowStep, Evolves, Evolves-refl, Evolves-append, Evolves-save,
}
use vof_backend.Decision.Service.{Env, OpenRequest, open_decision, respond}
use vof_backend.Decision.Sms.{match_sms_response}
use vof_backend.Decision.Timeout.{decision_timeout_job}
use vof_backend.Exec.{map_state}
use vof_backend.Prelude.{
  find_row, Option-cases, ℕ, ◌≡◌, refl, subst, ◌⊎◌, inl, inr, true, some, List, arith,
}
use vof_backend.Text.{Text, CaseMap}

Evolves-state :
    (ds : List DecisionRequest) (db db' : AppDb)
    → db ≡ db'
    → Evolves ds db.decisions
    → Evolves ds db'.decisions
Evolves-state ds db db' e h = subst (λ x. Evolves ds x.decisions) e h

answered_row-RowStep :
    (now user : ℕ) (response : Text) (via : RespondedVia) (d : DecisionRequest)
    → is_open d.status ≡ true
    → RowStep d (answered_row response user via now d)
unfolding may_move
answered_row-RowStep now user response via d h = record {
  same_id = refl;
  same_target = refl;
  same_options = refl;
  same_timeout = refl;
  same_surfaced = refl;
  edge = ground arith;
  final_answer = λ s. ground arith;
}

timed_out_row-RowStep :
    (now : ℕ) (d : DecisionRequest) → is_open d.status ≡ true → RowStep d (timed_out_row now d)
unfolding may_move
timed_out_row-RowStep now d h = record {
  same_id = refl;
  same_target = refl;
  same_options = refl;
  same_timeout = refl;
  same_surfaced = refl;
  edge = ground arith;
  final_answer = λ s. ground arith;
}

resolved-RowStep :
    (now user : ℕ) (option : Text) (d : DecisionRequest)
    → is_resolvable d.status ≡ true
    → RowStep d (resolved now user option d)
unfolding may_move resolved
resolved-RowStep now user option d h = record {
  same_id = refl;
  same_target = refl;
  same_options = refl;
  same_timeout = refl;
  same_surfaced = refl;
  edge = ground arith;
  final_answer = λ s. ground arith;
}

pub respond-Evolves :
    (now i user : ℕ) (response : Text) (via : RespondedVia) (db : AppDb)
    → Evolves db.decisions (respond now i user response via db).1.decisions
respond-Evolves now i user response via db = elim (respond-cases now i user response via db) [
  | inl r ↦ rw r.outcome (Evolves-refl db.decisions)
  | inr r ↦ rw r.outcome (
      Evolves-save db.decisions i r.row (answered_row response user via now r.row) r.found
        (answered_row-RowStep now user response via r.row r.was_open))
]

pub timeout-Evolves :
    (now i : ℕ) (db : AppDb) → Evolves db.decisions (decision_timeout_job now i db).1.decisions
timeout-Evolves now i db = elim (timeout-cases now i db) [
  | inl r ↦ rw r.outcome (Evolves-refl db.decisions)
  | inr r ↦ rw r.outcome (
      Evolves-save db.decisions i r.row (timed_out_row now r.row) r.found
        (timed_out_row-RowStep now r.row r.was_open))
]

pub resolve-Evolves :
    (now w i user : ℕ) (option : Text) (db : AppDb)
    → Evolves db.decisions (resolve_now now w i user option db).1.decisions
resolve-Evolves now w i user option db = elim (resolve-cases now w i user option db) [
  | inl r ↦ rw r.outcome (Evolves-refl db.decisions)
  | inr r ↦ rw r.outcome (
      Evolves-save db.decisions i r.row (resolved now user option r.row) r.found
        (resolved-RowStep now user option r.row r.was_resolvable))
]

pub sms-Evolves :
    (c : CaseMap) (now : ℕ) (body : Text) (manager : ℕ) (db : AppDb)
    → Evolves db.decisions (match_sms_response c now body manager db).1.decisions
sms-Evolves c now body manager db = elim (sms-cases c now body manager db) [
  | inl r ↦ rw r.outcome (Evolves-refl db.decisions)
  | inr r ↦
      rw (r.outcome, map_state some (respond now r.row.id manager r.chosen sms) db)
        (respond-Evolves now r.row.id manager r.chosen sms db)
]

pub open-Evolves :
    (c : CaseMap) (env : Env) (req : OpenRequest) (db : AppDb)
    → Evolves db.decisions (open_decision c env req db).1.decisions
open-Evolves c env req db = elim (open-cases c env req db) [
  | inl r ↦ rw r.outcome (Evolves-refl db.decisions)
  | inr r ↦ rw r.outcome (Evolves-append db.decisions (opened_row env req r.manager r.cls))
]

-- The API call is `respond` from the socket, or changes nothing.
pub api_respond_state :
    (now w i user : ℕ) (response : Text) (db : AppDb)
    → ((respond_to_decision now w i user response db).1 ≡ db)
      ⊎ ((respond_to_decision now w i user response db).1
          ≡ (respond now i user response websocket db).1)
unfolding respond_to_decision
api_respond_state now w i user response db =
    elim (Option-cases (in_workspace w (get_decision i db))) [
      | inl h ↦ inl (rw (h, respond_to_decision))
      | inr (d, h) ↦ inr (rw (h, respond_to_decision))
    ]

-- One step of the program on the decisions, by whoever takes it.
pub data Step (c : CaseMap) (db : AppDb) : AppDb → Type 0 where
  opens : (env : Env) (req : OpenRequest) → Step c db (open_decision c env req db).1
  responds :
      (now w i user : ℕ) (response : Text)
      → Step c db (respond_to_decision now w i user response db).1
  texts :
      (now : ℕ) (body : Text) (manager : ℕ) → Step c db (match_sms_response c now body manager db).1
  times_out : (now i : ℕ) → Step c db (decision_timeout_job now i db).1
  resolves : (now w i user : ℕ) (option : Text) → Step c db (resolve_now now w i user option db).1

pub data Reach (c : CaseMap) (db : AppDb) : AppDb → Type 0 where
  here : Reach c db db
  next : {db' db'' : AppDb} → Reach c db db' → Step c db' db'' → Reach c db db''

pub Step-Evolves :
    {c : CaseMap} {db db' : AppDb} → Step c db db' → Evolves db.decisions db'.decisions
Step-Evolves {c} {db} (opens env req) = open-Evolves c env req db
Step-Evolves {c} {db} (responds now w i user response) =
    elim (api_respond_state now w i user response db) [
      | inl e ↦ rw e (Evolves-refl db.decisions)
      | inr e ↦ rw e (respond-Evolves now i user response websocket db)
    ]
Step-Evolves {c} {db} (texts now body manager) = sms-Evolves c now body manager db
Step-Evolves {c} {db} (times_out now i) = timeout-Evolves now i db
Step-Evolves {c} {db} (resolves now w i user option) = resolve-Evolves now w i user option db

settled-Step :
    {c : CaseMap} {db db' : AppDb} (i : ℕ) (d : DecisionRequest)
    → Step c db db'
    → is_settled d.status ≡ true
    → find_row key i db.decisions ≡ some d
    → find_row key i db'.decisions ≡ some d
settled-Step {db' = db'} i d st h found =
    let n = Step-Evolves st i d found in
    subst (λ e. find_row key i db'.decisions ≡ some e) (n.step.final_answer h) n.found

-- An answer is final: whatever responses, messages, timeouts and late resolutions follow, in whatever
-- order, the row of an answered decision stays exactly as it was.
pub Reach-settled :
    (c : CaseMap) (db db' : AppDb) (i : ℕ) (d : DecisionRequest)
    → Reach c db db'
    → is_settled d.status ≡ true
    → find_row key i db.decisions ≡ some d
    → find_row key i db'.decisions ≡ some d
Reach-settled c db db' i d here h found = found
Reach-settled c db db' i d (next r st) h found =
    settled-Step i d st h (Reach-settled c db _ i d r h found)
