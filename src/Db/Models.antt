-- ===== src/Db/Models.antt =====
-- app/db/models: the rows that the modelled code reads and writes. An id is the number of its UUID, a
-- time is a count of microseconds, and a JSON column is its entries with each value as its text.
use vof_backend.Prelude.{if◌then◌else◌, ℕ, ◌*◌, Bool, true, false, Option, List, [], ◌∷◌}
use vof_backend.Text.{Text, text_eq}

abbrev pub seconds : ℕ → ℕ
seconds n = n * 1000000

pub data DecisionClass : Type 0 where
  inline bridged async : DecisionClass

pub data DecisionStatus : Type 0 where
  open_status answered answered_late timed_out cancelled : DecisionStatus

pub data RespondedVia : Type 0 where
  websocket sms timeout : RespondedVia

abbrev pub Payload : Type 0
Payload = List (Text × Text)

-- `payload.get(name) or ""`
unfoldable pub payload_get : Text → Payload → Text
payload_get name [] = []
payload_get name ((k, v) ∷ p) = let rest = payload_get name p in if text_eq k name then v else rest

pub record DecisionRequest : Type 0 where
  pub id : ℕ
  pub call_id : ℕ
  pub workspace_id : ℕ
  pub target_user_id : ℕ
  pub prompt : Text
  pub options : List Text
  pub decision_class : DecisionClass
  pub timeout_at : Option ℕ
  pub status : DecisionStatus
  pub response : Option Text
  pub responded_at : Option ℕ
  pub responded_by_user_id : Option ℕ
  pub responded_via : Option RespondedVia
  pub surfaced_in_brief_at : Option ℕ
  pub context : Option Payload
  pub created_at : ℕ

pub data ActionItemStatus : Type 0 where
  pending_approval needs_review approved done failed needs_reconnect rejected : ActionItemStatus

pub data ActionItemHandler : Type 0 where
  scheduler email_drafter none_handler : ActionItemHandler

pub record ActionItem : Type 0 where
  pub id : ℕ
  pub workspace_id : ℕ
  pub organization_id : ℕ
  pub call_id : Option ℕ
  pub title : Text
  pub description : Option Text
  pub due_at : Option ℕ
  pub payload : Payload
  pub status : ActionItemStatus
  pub extracted_by : Option Text
  pub confidence : Option ℕ  -- in hundredths
  pub handler : ActionItemHandler
  pub handler_outcome : Option Payload
  pub handler_outcome_artifact_id : Option ℕ
  pub handler_executed_at : Option ℕ
  pub handler_attempts : ℕ
  pub handler_error : Option Text
  pub created_at : ℕ

pub data CallStatus : Type 0 where
  ringing in_progress ended failed_call : CallStatus

pub record Call : Type 0 where
  pub id : ℕ
  pub workspace_id : ℕ
  pub organization_id : ℕ
  pub field_employee_id : Option ℕ
  pub agentphone_call_id : Text
  pub from_number : Option Text
  pub to_number : Option Text
  pub status : CallStatus
  pub started_at : ℕ
  pub ended_at : Option ℕ
  pub provider_summary : Option Payload

pub record FieldEmployee : Type 0 where
  pub id : ℕ
  pub workspace_id : ℕ
  pub organization_id : ℕ
  pub name : Text
  pub phone : Text
  pub profiled : Bool
  pub profile_email : Option Text  -- `profile["email"]`

pub data ProvisioningState : Type 0 where
  pending_state number_pending ready provisioning_failed : ProvisioningState

pub record ManagerWorkspace : Type 0 where
  pub id : ℕ
  pub organization_id : ℕ
  pub manager_user_id : Option ℕ
  pub name : Text
  pub primary_number : Option Text
  pub agentphone_number_id : Option Text
  pub agentphone_agent_id : Option Text
  pub provisioning_state : ProvisioningState
  pub email_inbox_id : Option Text
  pub email_inbox_addr : Option Text
  pub email_domain : Option Text

abbrev pub is_open : DecisionStatus → Bool
is_open open_status = true
is_open _ = false

abbrev pub is_timed_out : DecisionStatus → Bool
is_timed_out timed_out = true
is_timed_out _ = false

abbrev pub is_pending : ActionItemStatus → Bool
is_pending pending_approval = true
is_pending _ = false

-- The place of a status in its type, which tells two of them apart.
abbrev pub status_code : ActionItemStatus → ℕ
status_code pending_approval = 0
status_code needs_review = 1
status_code approved = 2
status_code done = 3
status_code failed = 4
status_code needs_reconnect = 5
status_code rejected = 6

abbrev pub is_approved : ActionItemStatus → Bool
is_approved approved = true
is_approved _ = false

abbrev pub has_handler : ActionItemHandler → Bool
has_handler none_handler = false
has_handler _ = true

abbrev pub is_live : CallStatus → Bool
is_live ringing = true
is_live in_progress = true
is_live _ = false

-- `SourceType`; the columns of a provenance row.
pub data SourceType : Type 0 where
  manager_correction field_call automated_extraction : SourceType

pub record Provenance : Type 0 where
  pub id : ℕ
  pub workspace_id : ℕ
  pub source_type : SourceType
  pub source_id : Option ℕ
  pub extracted_by : Option Text
  pub extracted_at : ℕ
  pub confidence : Option ℕ  -- in hundredths
  pub cites : List ℕ
  pub rationale : Option Text

pub data Speaker : Type 0 where
  caller agent : Speaker

pub record TranscriptFragment : Type 0 where
  pub call_id : ℕ
  pub workspace_id : ℕ
  pub speaker : Speaker
  pub text : Text
  pub seq : ℕ
  pub ts : ℕ
