-- ===== src/Orchestrator/Tools.antt =====
-- The tools of app/orchestrator/tools and their registry. The schemas are pydantic's. What a correction
-- does to the brain is that of Brain.Correction, and here only its outcome is taken.
use vof_backend.Access.Guards.{User, user_key}
use vof_backend.Brain.Correction.{CorrectionKind}
use vof_backend.Db.{AppDb}
use vof_backend.Db.Models.{DecisionClass, inline, bridged, async, DecisionRequest, ManagerWorkspace}
use vof_backend.Decision.Service.{Env, OpenRequest, workspace_key, open_decision}
use vof_backend.Errors.{not_found, validation, key_error, runtime_error, Result, ok, err}
use vof_backend.Exec.{Exec, pure, ◌>>=◌}
use vof_backend.Orchestrator.Substream.{ToolResult}
use vof_backend.Orchestrator.ToolDispatch.{ToolCall}
use vof_backend.Prelude.{
  find_row, if◌then◌else◌, get_or_else, ℕ, Bool, true, false, not, Option, none, some, List, [],
  ◌∷◌, ◌++◌,
}
use vof_backend.Text.{Text, codes, is_empty, text_eq, CaseMap}

pub record ToolContext : Type 0 where
  pub workspace_id : ℕ
  pub call_id : ℕ

pub record RequestManagerDecisionInput : Type 0 where
  pub prompt : Text
  pub options : List Text
  pub decision_class : DecisionClass
  pub rationale : Option Text

pub record RequestCorrectionInput : Type 0 where
  pub slug : Text
  pub kind : CorrectionKind
  pub text : Text
  pub title : Option Text
  pub rationale : Option Text

-- `model_validate`, with none for a `ValidationError`
pub record Schemas (Args : Type 0) : Type 0 where
  pub decision_input : Args → Option RequestManagerDecisionInput
  pub correction_input : Args → Option RequestCorrectionInput
  pub end_call_input : Args → Option Text

abbrev pub said : Text → (end_turn : Bool) → ToolResult
said t end_turn = record {
  bridge_text = some t;
  end_turn = end_turn;
  hangup = false;
  decision_id = none;
}

unfoldable pub bridge_by_class : DecisionClass → Text
bridge_by_class inline =
    codes "Let me check with leadership on that real quick - while I do, what else came up?"
bridge_by_class bridged =
    codes "I'll run that by leadership. Anything else from the meeting we should capture first?"
bridge_by_class async = codes "Got it, I'll flag that for leadership to review - moving on."

abbrev pub class_name : DecisionClass → Text
class_name inline = codes "inline"
class_name bridged = codes "bridged"
class_name async = codes "async"

abbrev is_async : DecisionClass → Bool
is_async async = true
is_async _ = false

-- The phone of the Manager, where the user is on the roster.
unfoldable pub manager_phone : List User → ManagerWorkspace → AppDb → Option Text
manager_phone users w db = elim w.manager_user_id [
  | none ↦ none
  | some user_id ↦ elim (find_row user_key user_id users) [
    | none ↦ none
    | some u ↦ elim u.field_employee_id [
      | none ↦ none
      | some fe_id ↦ elim (find_row (λ f. f.id) fe_id db.field_employees) [
        | none ↦ none
        | some f ↦ some f.phone
      ]
    ]
  ]
]

unfoldable pub decision_request :
    List User → ToolContext → RequestManagerDecisionInput → ManagerWorkspace → AppDb → OpenRequest
unfolding manager_phone
decision_request users ctx i w db = record {
  call_id = ctx.call_id;
  workspace_id = ctx.workspace_id;
  prompt = i.prompt;
  options = i.options;
  decision_class = class_name i.decision_class;
  context =
      if is_empty (get_or_else i.rationale [])
      then none
      else some ((codes "rationale", get_or_else i.rationale []) ∷ []);
  manager_phone = manager_phone users w db;
  agentphone_agent_id = w.agentphone_agent_id;
}

abbrev pub opened_result : RequestManagerDecisionInput → DecisionRequest → ToolResult
opened_result i d = record {
  bridge_text = some (bridge_by_class i.decision_class);
  end_turn = not (is_async i.decision_class);
  hangup = false;
  decision_id = some d.id;
}

abbrev pub end_call : ToolResult
end_call = record {
  bridge_text = some (codes "Thanks - I've got what I need. Talk soon.");
  end_turn = true;
  hangup = true;
  decision_id = none;
}

module _ (c : CaseMap) (env : AppDb → Env) (users : List User) (ctx : ToolContext) where
  unfoldable pub request_manager_decision : RequestManagerDecisionInput → Exec AppDb ToolResult
  unfolding decision_request open_decision
  request_manager_decision i db = elim (find_row workspace_key ctx.workspace_id db.workspaces) [
    | none ↦ (ok (said (codes "(internal: workspace not found)") true), db)
    | some w ↦
        (open_decision c (env db) (decision_request users ctx i w db) >>= λ d.
        pure (opened_result i d))
          db
  ]

  -- What the tool says of the outcome of the service.
  unfoldable pub correction_said : RequestCorrectionInput → Result (Unit {0}) → Result ToolResult
  correction_said i (ok _) = ok (said (codes "Got it, I've updated that. Anything else?") false)
  correction_said i (err not_found) = ok (
      said
        (codes "I don't have a page called '"
          ++ (i.slug ++ codes "' yet - I'll make a note so we can sort it out post-call."))
        false)
  correction_said i (err validation) = ok (
      said (codes "Couldn't apply that correction the way you described - I'll log it for review.")
        false)
  correction_said i (err e) = err e

  unfoldable pub request_correction :
      (apply_correction : (manager_user_id : ℕ) → RequestCorrectionInput → Result (Unit {0}))
      → RequestCorrectionInput
      → Exec AppDb ToolResult
  unfolding correction_said
  request_correction apply_correction i db =
      elim (find_row workspace_key ctx.workspace_id db.workspaces) [
        | none ↦
            (ok (said (codes "Couldn't find your workspace - flagging that for later.") true), db)
        | some w ↦ elim w.manager_user_id [
          | none ↦ (
            ok (
                said (codes "Couldn't apply that correction - no Manager on file. Will flag.")
                  true),
            db,
          )
          | some manager_id ↦ (correction_said i (apply_correction manager_id i), db)
        ]
      ]

  module _ {Args : Type 0} (schemas : Schemas Args)
      (apply_correction : (manager_user_id : ℕ) → RequestCorrectionInput → Result (Unit {0})) where
    -- `ToolRegistry.dispatch`. A `ValidationError` is no `Validation`.
    unfoldable pub dispatch : ToolCall Args → Exec AppDb ToolResult
    unfolding request_manager_decision request_correction text_eq
    dispatch t db =
        if text_eq t.name (codes "request_manager_decision")
        then (elim (schemas.decision_input t.args) [
          | none ↦ (err runtime_error, db)
          | some i ↦ request_manager_decision i db
        ])
        else if text_eq t.name (codes "request_correction")
        then (elim (schemas.correction_input t.args) [
          | none ↦ (err runtime_error, db)
          | some i ↦ request_correction apply_correction i db
        ])
        else if text_eq t.name (codes "end_call")
        then (elim (schemas.end_call_input t.args) [
          | none ↦ (err runtime_error, db)
          | some reason ↦ (ok end_call, db)
        ])
        else (err key_error, db)
