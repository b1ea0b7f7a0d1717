-- ===== src/Db.antt =====
-- The application database, with what a committed step hands to the outside: frames for the
-- WebSocket bus, text messages and deferred jobs.
pub mod Models
use vof_backend.Db.Models.{
  DecisionClass, RespondedVia, DecisionRequest, ActionItem, Call, FieldEmployee, ManagerWorkspace,
  Speaker,
}
use vof_backend.Errors.{ok}
use vof_backend.Exec.{Exec}
use vof_backend.Prelude.{ℕ, Option, List, [], ◌∷◌, ◌++◌}
use vof_backend.Text.{Text}

-- app/schemas/ws_frames.py
pub data Frame : Type 0 where
  call_started : (call_id : ℕ) (field_employee_id : Option ℕ) (started_at : ℕ) → Frame
  call_ended : (call_id ended_at : ℕ) → Frame
  transcript_fragment : (call_id : ℕ) (speaker : Speaker) (fragment : Text) (seq ts : ℕ) → Frame
  decision_opened :
      (call_id decision_id : ℕ) (prompt : Text) (options : List Text)
      (decision_class : DecisionClass) (timeout_at : Option ℕ)
      → Frame
  decision_resolved :
      (call_id decision_id : ℕ) (response : Option Text) (responded_via : RespondedVia) → Frame

pub record SmsMessage : Type 0 where
  pub agent_id : Text
  pub to_number : Text
  pub body : Text

-- A job of the queue, by its id.
pub data Job : Type 0 where
  decision_timeout : (decision_id fire_at : ℕ) → Job
  correction_cascade : (workspace_id : ℕ) (slug kind : Text) → Job
  post_call : (call_id : ℕ) → Job
  prewarm : (call_id workspace_id : ℕ) (field_employee_id : Option ℕ) → Job

pub record AppDb : Type 0 where
  pub workspaces : List ManagerWorkspace
  pub decisions : List DecisionRequest
  pub action_items : List ActionItem
  pub calls : List Call
  pub field_employees : List FieldEmployee
  pub frames : List (ℕ × Frame)
  pub messages : List SmsMessage
  pub jobs : List Job

-- `publish_frame`: a failure of the bus is logged and passed over.
unfoldable pub publish_frame : ℕ → Frame → Exec AppDb Unit
publish_frame workspace_id frame db =
    (ok tt, record db { frames = db.frames ++ ((workspace_id, frame) ∷ []) })

unfoldable pub enqueue_job : Job → Exec AppDb Unit
enqueue_job job db = (ok tt, record db { jobs = db.jobs ++ (job ∷ []) })
