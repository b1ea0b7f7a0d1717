-- ===== src/Decision/Consistency.antt =====
-- What a row of the decisions table says in each status, in every database that the program reaches.
use vof_backend.Db.{AppDb}
use vof_backend.Db.Models.{
  DecisionClass, inline, bridged, async, DecisionStatus, open_status, answered, answered_late,
  timed_out, cancelled, RespondedVia, websocket, sms, timeout, DecisionRequest, is_open,
}
use vof_backend.Decision.Lifecycle.{
  api_respond_state, Step, opens, responds, texts, times_out, resolves, Reach, here, next,
}
use vof_backend.Decision.Outcomes.Open.{opened_row, open-cases}
use vof_backend.Decision.Outcomes.Resolve.{resolve-cases}
use vof_backend.Decision.Outcomes.Respond.{respond-cases}
use vof_backend.Decision.Outcomes.Sms.{sms-cases}
use vof_backend.Decision.Outcomes.Timeout.{timeout-cases}
use vof_backend.Decision.Repo.{key, new_decision, answered_row, timed_out_row}
use vof_backend.Decision.Resolve.{is_resolvable, late_status, resolved}
use vof_backend.Decision.Service.{
  Env, default_timeout, no_options, OpenRequest, timeout_of, respond,
}
use vof_backend.Exec.{map_state}
use vof_backend.Prelude.{
  All, All-append, All-save_row, All-find_row, is_some, ℕ, ◌≡◌, refl, inl, inr, Bool, true, false,
  Option, none, some, [], ◌∷◌,
}
use vof_backend.Text.{Text, contains, CaseMap}

-- A recorded answer is one of the offered options, with the time, the responder and a channel.
abbrev pub is_offered : DecisionRequest → Bool
is_offered d = elim d.response [ none ↦ false | some r ↦ contains r d.options ]

abbrev pub is_by_person : Option RespondedVia → Bool
is_by_person none = false
is_by_person (some timeout) = false
is_by_person (some _) = true

pub record IsUnanswered (d : DecisionRequest) : Type 0 where
  pub no_response : d.response ≡ none
  pub no_time : d.responded_at ≡ none
  pub no_responder : d.responded_by_user_id ≡ none
  pub no_channel : d.responded_via ≡ none

pub record IsAnswered (d : DecisionRequest) : Type 0 where
  pub offered : is_offered d ≡ true
  pub at_time : is_some d.responded_at ≡ true
  pub by_user : is_some d.responded_by_user_id ≡ true
  pub by_person : is_by_person d.responded_via ≡ true

pub record IsTimedOut (d : DecisionRequest) : Type 0 where
  pub no_response : d.response ≡ none
  pub at_time : is_some d.responded_at ≡ true
  pub no_responder : d.responded_by_user_id ≡ none
  pub by_timeout : d.responded_via ≡ some timeout

abbrev pub Outcome : DecisionStatus → DecisionRequest → Type 0
Outcome open_status d = IsUnanswered d
Outcome answered d = IsAnswered d
Outcome answered_late d = IsAnswered d
Outcome timed_out d = IsTimedOut d
Outcome cancelled d = ⊥

pub record IsConsistent (d : DecisionRequest) : Type 0 where
  pub asks : no_options d.options ≡ false
  pub live_wait : is_some d.timeout_at ≡ is_some (default_timeout d.decision_class)
  pub outcome : Outcome d.status d

-- No row is cancelled, and each row agrees with its status.
abbrev pub DecisionsConsistent : AppDb → Type 0
DecisionsConsistent db = All IsConsistent db.decisions

open-Outcome :
    (s : DecisionStatus) (d : DecisionRequest) → is_open s ≡ true → Outcome s d → IsUnanswered d
open-Outcome open_status d h o = o
open-Outcome answered d h o = cc
open-Outcome answered_late d h o = cc
open-Outcome timed_out d h o = cc
open-Outcome cancelled d h o = cc

unanswered : (d : DecisionRequest) → is_open d.status ≡ true → IsConsistent d → IsUnanswered d
unanswered d h w = open-Outcome d.status d h w.outcome

late-Outcome :
    (s : DecisionStatus) (e : DecisionRequest)
    → is_resolvable s ≡ true
    → IsAnswered e
    → Outcome (late_status s) e
unfolding late_status
late-Outcome open_status e h o = o
late-Outcome timed_out e h o = o
late-Outcome answered e h o = cc
late-Outcome answered_late e h o = cc
late-Outcome cancelled e h o = cc

answered_row-IsConsistent :
    (now user : ℕ) (response : Text) (d : DecisionRequest)
    → contains response d.options ≡ true
    → (via : RespondedVia) → is_by_person (some via) ≡ true
    → IsConsistent d
    → IsConsistent (answered_row response user via now d)
answered_row-IsConsistent now user response d o via p w = record {
  asks = w.asks;
  live_wait = w.live_wait;
  outcome = record { offered = o; at_time = refl; by_user = refl; by_person = p };
}

timed_out_row-IsConsistent :
    (now : ℕ) (d : DecisionRequest)
    → is_open d.status ≡ true
    → IsConsistent d
    → IsConsistent (timed_out_row now d)
timed_out_row-IsConsistent now d h w =
    let u = unanswered d h w in
    record {
      asks = w.asks;
      live_wait = w.live_wait;
      outcome = record {
        no_response = u.no_response;
        at_time = refl;
        no_responder = u.no_responder;
        by_timeout = refl;
      };
    }

resolved-IsConsistent :
    (now user : ℕ) (option : Text) (d : DecisionRequest)
    → is_resolvable d.status ≡ true
    → contains option d.options ≡ true
    → IsConsistent d
    → IsConsistent (resolved now user option d)
unfolding resolved
resolved-IsConsistent now user option d h o w = record {
  asks = w.asks;
  live_wait = w.live_wait;
  outcome =
      late-Outcome d.status (resolved now user option d) h
        (record { offered = o; at_time = refl; by_user = refl; by_person = refl });
}

opened_row-IsConsistent :
    (env : Env) (req : OpenRequest) (manager : ℕ) (cls : DecisionClass)
    → no_options req.options ≡ false
    → IsConsistent (opened_row env req manager cls)
unfolding new_decision timeout_of
opened_row-IsConsistent env req manager inline h = record {
  asks = h;
  live_wait = refl;
  outcome = record { no_response = refl; no_time = refl; no_responder = refl; no_channel = refl };
}
opened_row-IsConsistent env req manager bridged h = record {
  asks = h;
  live_wait = refl;
  outcome = record { no_response = refl; no_time = refl; no_responder = refl; no_channel = refl };
}
opened_row-IsConsistent env req manager async h = record {
  asks = h;
  live_wait = refl;
  outcome = record { no_response = refl; no_time = refl; no_responder = refl; no_channel = refl };
}

respond-Consistent :
    (now i user : ℕ) (response : Text) (db : AppDb) (via : RespondedVia)
    → is_by_person (some via) ≡ true
    → DecisionsConsistent db
    → DecisionsConsistent (respond now i user response via db).1
respond-Consistent now i user response db via p w =
    elim (respond-cases now i user response via db) [
      | inl r ↦ rw r.outcome w
      | inr r ↦ rw r.outcome (
          All-save_row key IsConsistent (answered_row response user via now r.row) db.decisions
            (answered_row-IsConsistent now user response r.row r.offered via p
              (All-find_row key IsConsistent i db.decisions w r.found))
            w)
    ]

Step-Consistent :
    {c : CaseMap} {db db' : AppDb}
    → Step c db db'
    → DecisionsConsistent db
    → DecisionsConsistent db'
Step-Consistent {c} {db} (opens env req) w = elim (open-cases c env req db) [
  | inl r ↦ rw r.outcome w
  | inr r ↦ rw r.outcome (
      All-append IsConsistent db.decisions (opened_row env req r.manager r.cls ∷ []) w
        (opened_row-IsConsistent env req r.manager r.cls r.has_options, tt))
]
Step-Consistent {c} {db} (responds now w i user response) h =
    elim (api_respond_state now w i user response db) [
      | inl e ↦ rw e h
      | inr e ↦ rw e (respond-Consistent now i user response db websocket refl h)
    ]
Step-Consistent {c} {db} (texts now body manager) h = elim (sms-cases c now body manager db) [
  | inl r ↦ rw r.outcome h
  | inr r ↦
      rw (r.outcome, map_state some (respond now r.row.id manager r.chosen sms) db)
        (respond-Consistent now r.row.id manager r.chosen db sms refl h)
]
Step-Consistent {c} {db} (times_out now i) w = elim (timeout-cases now i db) [
  | inl r ↦ rw r.outcome w
  | inr r ↦ rw r.outcome (
      All-save_row key IsConsistent (timed_out_row now r.row) db.decisions
        (timed_out_row-IsConsistent now r.row r.was_open
          (All-find_row key IsConsistent i db.decisions w r.found))
        w)
]
Step-Consistent {c} {db} (resolves now w i user option) h =
    elim (resolve-cases now w i user option db) [
      | inl r ↦ rw r.outcome h
      | inr r ↦ rw r.outcome (
          All-save_row key IsConsistent (resolved now user option r.row) db.decisions
            (resolved-IsConsistent now user option r.row r.was_resolvable r.offered
              (All-find_row key IsConsistent i db.decisions h r.found))
            h)
    ]

-- From a database whose decisions are consistent, such as one without decisions, every sequence of
-- openings, responses, text messages, timeouts and late resolutions leads to one: each row offers at
-- least one option, waits for a time exactly if its class has a timeout, and is either open with no
-- trace of an answer, or answered (in time or late) by a person with one of its options, or timed out
-- with no answer and no responder; none is cancelled.
pub Reach-Consistent :
    (c : CaseMap) (db db' : AppDb)
    → Reach c db db'
    → DecisionsConsistent db
    → DecisionsConsistent db'
Reach-Consistent c db db' here w = w
Reach-Consistent c db db' (next r st) w = Step-Consistent st (Reach-Consistent c db _ r w)
