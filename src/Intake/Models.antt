-- ===== src/Intake/Models.antt =====
-- app/db/models/intake.py, and the output of the classifier, skills/classifier/schema.py, whose kinds
-- and scopes are texts here. The target of a caller is left out with the handler that only names it.
use vof_backend.Prelude.{ℕ, Bool, true, false, Option, List}
use vof_backend.Text.{Text}

pub data IntakeSource : Type 0 where
  form upload voice_intake correction rep_email_followup : IntakeSource

pub data IntakePurpose : Type 0 where
  onboarding ongoing_update correction_purpose : IntakePurpose

pub data IntakeStatus : Type 0 where
  queued extracting classified ingested needs_review failed superseded deleted : IntakeStatus

pub record ExtractedEntity : Type 0 where
  pub entity_type : Text
  pub name : Text

pub record Classification : Type 0 where
  pub scope : Text
  pub kind : Text
  pub target_caller_id : Option ℕ
  pub suggested_slug : Option Text
  pub extracted_entities : List ExtractedEntity
  pub confidence : ℕ  -- in hundredths
  pub reasoning : Text

-- The classification of an item: that of the classifier, or where a reply by email came from.
pub data ItemClassification : Type 0 where
  classified_as : Classification → ItemClassification
  via_email_reply :
      (call_id field_employee_id parent_email_message_id timestamp : ℕ) → ItemClassification

-- What the handlers answer, by their `action`.
pub data HandlerResult : Type 0 where
  manager_authoritative_conflict : (slug : Text) (provenance_id : ℕ) → HandlerResult
  upserted_brain_page :
      (slug kind : Text) (version : ℕ) (entities : List ExtractedEntity) (provenance_id : ℕ)
      → HandlerResult
  queued_caller_profile_update :
      (target_caller_id : Option ℕ) (kind : Text) (provenance_id : ℕ) → HandlerResult
  upserted_workspace_side :
      (workspace_side : HandlerResult) (target_caller_id : Option ℕ) → HandlerResult
  fanout_raw_source :
      (pages_upserted : List Text) (entities_count provenance_id : ℕ) → HandlerResult

-- `result.get("needs_review")`
abbrev pub wants_review : HandlerResult → Bool
wants_review (manager_authoritative_conflict slug provenance_id) = true
wants_review _ = false

pub record IntakeBufferItem : Type 0 where
  pub id : ℕ
  pub workspace_id : ℕ
  pub organization_id : ℕ
  pub submitted_by_user_id : ℕ
  pub source : IntakeSource
  pub purpose : IntakePurpose
  pub content_text : Option Text
  pub content_blob_key : Option Text
  pub content_mime : Option Text
  pub content_filename : Option Text
  pub content_sha256 : Option Text
  pub extractor_used : Option Text
  pub status : IntakeStatus
  pub classification : Option ItemClassification
  pub handler_result : Option HandlerResult
  pub superseded_by_item_id : Option ℕ
  pub error : Option Text
  pub created_at : ℕ

abbrev pub is_purpose : IntakePurpose → IntakePurpose → Bool
is_purpose onboarding onboarding = true
is_purpose ongoing_update ongoing_update = true
is_purpose correction_purpose correction_purpose = true
is_purpose _ _ = false

abbrev pub is_deleted : IntakeStatus → Bool
is_deleted deleted = true
is_deleted _ = false

abbrev pub is_superseded : IntakeStatus → Bool
is_superseded superseded = true
is_superseded _ = false

-- `TERMINAL_STATUSES` of app/services/intake_processing.py
abbrev pub is_terminal : IntakeStatus → Bool
is_terminal ingested = true
is_terminal failed = true
is_terminal deleted = true
is_terminal superseded = true
is_terminal _ = false
