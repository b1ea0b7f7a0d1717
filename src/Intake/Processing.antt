-- ===== src/Intake/Processing.antt =====
-- `process_intake_item` of app/services/intake_processing.py, which goes through extraction, the
-- classifier and a handler. What is outside of it is a `Pipeline`; every step commits.
use vof_backend.Brain.Correction.{TextRepr}
use vof_backend.Db.Models.{ManagerWorkspace}
use vof_backend.Decision.Service.{workspace_key}
use vof_backend.Errors.{Error, not_found, Result, ok, err}
use vof_backend.Exec.{Exec, pure, ◌>>◌}
use vof_backend.Intake.Extract.{
  raised, returned, Attempt, unsupported, ExtractedContent, text_of, extract_content,
}
use vof_backend.Intake.Handlers.{resolve_handler}
use vof_backend.Intake.Models.{
  HandlerResult, needs_review, failed, IntakeSource, IntakeStatus, extracting, classified, ingested,
  Classification, classified_as, wants_review, IntakeBufferItem, is_terminal,
}
use vof_backend.Intake.Pages.{HandlerInput}
use vof_backend.Intake.Repo.{get_item, update_status, no_update, ItemUpdate}
use vof_backend.Intake.World.{IntakeWorld, on_items, on_handler}
use vof_backend.Prelude.{take, find_row, ltb, if◌then◌else◌, ℕ, Option, none, some, ◌++◌}
use vof_backend.Text.{Text, codes, is_empty, strip, CaseMap}

-- `_classifier_input_dict`, without the two lists that are always empty
pub record ClassifierInput : Type 0 where
  pub workspace_id : ℕ
  pub workspace_name : Text
  pub content : Text
  pub source : IntakeSource
  pub filename : Option Text

-- The readers of the formats, the model behind the classifier, and texts that Python makes of values.
pub record Pipeline : Type 0 where
  pub casing : CaseMap
  pub repr : TextRepr
  pub title_case : Text → Text
  pub extract : (name blob filename : Text) → Attempt ExtractedContent
  pub missing_blob : Text → Text
  pub classify : ClassifierInput → Attempt Classification
  pub error_text : Error → Text
  pub confidence_text : ℕ → Text

abbrev pub confidence_threshold : ℕ
confidence_threshold = 70  -- in hundredths

unfoldable pub classifier_input : IntakeBufferItem → ManagerWorkspace → Text → ClassifierInput
classifier_input i w content = record {
  workspace_id = i.workspace_id;
  workspace_name = w.name;
  content = take 50000 content;
  source = i.source;
  filename = i.content_filename;
}

unfoldable pub set_item : ℕ → ItemUpdate → Exec IntakeWorld Unit
unfolding update_status
set_item item_id u = on_items (update_status item_id u)

-- A step that ends the run with a status and a message.
unfoldable pub end_with : ℕ → IntakeStatus → Text → Exec IntakeWorld IntakeStatus
unfolding set_item
end_with item_id status message = do
  set_item item_id (record no_update { status = some status; error = some message })
  pure status

module _ (p : Pipeline) (now : ℕ) (fresh : ℕ → ℕ) where
  unfoldable pub unknown_scope : Text → Text
  unknown_scope scope =
      codes "unknown scope "
      ++ (p.repr.repr scope
          ++ codes "; expected one of ['BOTH', 'CALLER_SPECIFIC', 'ORG_WIDE', 'RAW_SOURCE']")

  unfoldable pub handler_input : IntakeBufferItem → Text → Classification → HandlerInput
  handler_input i content cl = record {
    workspace_id = i.workspace_id;
    item_id = i.id;
    content_text = content;
    classification = cl;
    now = now;
    fresh = fresh;
  }

  abbrev pub final_status : HandlerResult → IntakeStatus
  final_status r = if wants_review r then needs_review else ingested

  -- The end of a run whose handler has answered.
  unfoldable pub handled : IntakeBufferItem → Result HandlerResult → Exec IntakeWorld IntakeStatus
  unfolding set_item end_with
  handled i (err e) = end_with i.id failed (codes "handler_failed: " ++ p.error_text e)
  handled i (ok r) = do
    set_item i.id (record no_update { status = some (final_status r); handler_result = some r })
    pure (final_status r)

  -- Step 4
  unfoldable pub dispatch_item :
      IntakeBufferItem → Text → Classification → Exec IntakeWorld IntakeStatus
  unfolding resolve_handler handler_input handled unknown_scope end_with
  dispatch_item i content cl w = elim (resolve_handler p.casing p.title_case cl.scope) [
    | none ↦ end_with i.id failed (codes "handler_failed: " ++ unknown_scope cl.scope) w
    | some h ↦
        let (r, w1) = on_handler i.workspace_id (h (handler_input i content cl)) w in handled i r w1
  ]

  -- Step 3
  unfoldable pub gate_item :
      IntakeBufferItem → Text → Classification → Exec IntakeWorld IntakeStatus
  unfolding dispatch_item end_with
  gate_item i content cl =
      if ltb cl.confidence confidence_threshold
      then end_with i.id needs_review (codes "low_confidence: " ++ p.confidence_text cl.confidence)
      else dispatch_item i content cl

  -- Step 2
  unfoldable pub classify_item :
      IntakeBufferItem → ManagerWorkspace → Text → Exec IntakeWorld IntakeStatus
  unfolding classifier_input set_item gate_item end_with
  classify_item i w content = elim (p.classify (classifier_input i w content)) [
    | unsupported m ↦ end_with i.id failed (codes "classify_failed: " ++ m)
    | raised m ↦ end_with i.id failed (codes "classify_failed: " ++ m)
    | returned cl ↦ (do
      set_item i.id
          (record no_update { status = some classified; classification = some (classified_as cl) })
      gate_item i content cl)
  ]

  unfoldable pub keep_extractor : ℕ → Option Text → Exec IntakeWorld Unit
  unfolding set_item
  keep_extractor item_id extractor =
      if is_empty (text_of extractor)
      then pure tt
      else set_item item_id (record no_update { extractor_used = extractor })

  unfoldable pub content_item :
      IntakeBufferItem → ManagerWorkspace → Text → Exec IntakeWorld IntakeStatus
  unfolding classify_item end_with
  content_item i w content =
      if is_empty (strip content)
      then end_with i.id needs_review (codes "empty_content_after_extraction")
      else classify_item i w content

  -- The rest of a run whose text has been extracted.
  unfoldable pub extracted_item :
      IntakeBufferItem → ManagerWorkspace → Text × Option Text → Exec IntakeWorld IntakeStatus
  unfolding keep_extractor content_item
  extracted_item i w (content, extractor) = do
    keep_extractor i.id extractor
    content_item i w content

  -- Step 1 once the item is marked, and what follows it
  unfoldable pub read_item : IntakeBufferItem → ManagerWorkspace → Exec IntakeWorld IntakeStatus
  unfolding extracted_item end_with extract_content
  read_item i ws w =
      elim (extract_content p.casing ⦃R = p.repr⦄ p.extract p.missing_blob i w.blobs) [
        | unsupported m ↦ end_with i.id failed (codes "unsupported_format: " ++ m) w
        | raised m ↦ end_with i.id failed (codes "extract_failed: " ++ m) w
        | returned t ↦ extracted_item i ws t w
      ]

  unfoldable pub run_item : IntakeBufferItem → ManagerWorkspace → Exec IntakeWorld IntakeStatus
  unfolding set_item read_item
  run_item i ws = do set_item i.id (record no_update { status = some extracting }); read_item i ws

  unfoldable pub process_intake_item : ℕ → Exec IntakeWorld IntakeStatus
  unfolding get_item run_item
  process_intake_item item_id w = elim (get_item item_id w.items) [
    | none ↦ (err not_found, w)
    | some i ↦
        if is_terminal i.status
        then (ok i.status, w)
        else elim (find_row workspace_key i.workspace_id w.workspaces) [
          | none ↦ (err not_found, w)
          | some ws ↦ run_item i ws w
        ]
  ]
