-- ===== src/Decision/Repo.antt =====
-- app/db/repositories/decisions_repo.py. Each method is one step: the row lock of `lock_for_update` holds
-- until the commit, and the row that it returns is taken as the current one.
use vof_backend.Db.{AppDb}
use vof_backend.Db.Models.{
  DecisionClass, open_status, answered, timed_out, RespondedVia, timeout, Payload, DecisionRequest,
  is_open,
}
use vof_backend.Errors.{ok}
use vof_backend.Exec.{Exec, gets}
use vof_backend.Prelude.{
  select, find_row, save_row, order_desc, ◌==◌, ℕ, ◌&&◌, Option, none, some, List, [], ◌∷◌, ◌++◌,
}
use vof_backend.Text.{Text}

abbrev pub key : DecisionRequest → ℕ
key d = d.id

abbrev pub target : DecisionRequest → ℕ
target d = d.target_user_id

abbrev pub created : DecisionRequest → ℕ
created d = d.created_at

unfoldable pub get_decision : ℕ → AppDb → Option DecisionRequest
get_decision decision_id db = find_row key decision_id db.decisions

unfoldable pub lock_for_update : ℕ → Exec AppDb (Option DecisionRequest)
unfolding get_decision
lock_for_update decision_id = gets (get_decision decision_id)

-- The new row; its id and its time of creation come from outside.
unfoldable pub new_decision :
    (new_id now call_id workspace_id target_user_id : ℕ) (prompt : Text) (options : List Text)
    (decision_class : DecisionClass) (timeout_at : Option ℕ) (context : Option Payload)
    → DecisionRequest
new_decision new_id now call_id workspace_id target_user_id prompt options cls timeout_at context =
    record {
      id = new_id;
      call_id = call_id;
      workspace_id = workspace_id;
      target_user_id = target_user_id;
      prompt = prompt;
      options = options;
      decision_class = cls;
      timeout_at = timeout_at;
      status = open_status;
      response = none;
      responded_at = none;
      responded_by_user_id = none;
      responded_via = none;
      surfaced_in_brief_at = none;
      context = context;
      created_at = now;
    }

unfoldable pub create : DecisionRequest → Exec AppDb DecisionRequest
create d db = (ok d, record db { decisions = db.decisions ++ (d ∷ []) })

unfoldable pub save : DecisionRequest → Exec AppDb DecisionRequest
save d db = (ok d, record db { decisions = save_row key d db.decisions })

-- The fields that `mark_answered` assigns.
abbrev pub answered_row :
    (response : Text) (responded_by_user_id : ℕ) (via : RespondedVia) (responded_at : ℕ)
    → DecisionRequest
    → DecisionRequest
answered_row response user via at d = record d {
  status = answered;
  response = some response;
  responded_by_user_id = some user;
  responded_via = some via;
  responded_at = some at;
}

unfoldable pub mark_answered :
    DecisionRequest
    → (response : Text) (responded_by_user_id : ℕ) (via : RespondedVia) (responded_at : ℕ)
    → Exec AppDb DecisionRequest
unfolding save
mark_answered decision response user via at = save (answered_row response user via at decision)

abbrev pub timed_out_row : (ended_at : ℕ) → DecisionRequest → DecisionRequest
timed_out_row at d = record d {
  status = timed_out;
  responded_via = some timeout;
  responded_at = some at;
}

unfoldable pub mark_timed_out : DecisionRequest → (ended_at : ℕ) → Exec AppDb DecisionRequest
unfolding save
mark_timed_out decision at = save (timed_out_row at decision)

-- newest first
unfoldable pub list_open_for_user : ℕ → AppDb → List DecisionRequest
list_open_for_user user_id db =
    order_desc created (select (λ d. d.target_user_id == user_id && is_open d.status) db.decisions)
