-- ===== src/Intake/Api.antt =====
-- app/api/workspaces/intake.py, after the guard of the workspace. A response is the row itself; the
-- summary that is sent leaves out its owners and its content.
use vof_backend.Errors.{not_found, validation}
use vof_backend.Exec.{Exec, pure, ◌>>=◌, ◌>>◌, raise_if}
use vof_backend.Intake.Models.{needs_review, failed, IntakeStatus, ingested, IntakeBufferItem}
use vof_backend.Intake.Processing.{Pipeline, process_intake_item}
use vof_backend.Intake.Processor.{
  TextSubmission, Upload, SubmissionResult, submit_text, submit_upload, fetch_item, download_url,
  supersede, delete_submission,
}
use vof_backend.Intake.Repo.{list_for_workspace}
use vof_backend.Intake.World.{IntakeWorld}
use vof_backend.Prelude.{
  length, ◌==◌, if◌then◌else◌, ℕ, ◌+◌, Bool, true, false, not, none, List, [], ◌∷◌, ◌++◌,
}
use vof_backend.Text.{Text}

module _ (sha256 encode : Text → Text) (p : Pipeline) (now : ℕ) (fresh : ℕ → ℕ) where
  -- The item as it is after its processing, where it is new.
  unfoldable pub eager : SubmissionResult → Exec IntakeWorld SubmissionResult
  unfolding process_intake_item fetch_item
  eager r = if r.deduped then pure r else (do
    status ← process_intake_item p now fresh r.item.id
    item ← fetch_item r.item.id
    pure (record r { item = item }))

  unfoldable pub submit_text_endpoint : TextSubmission → Exec IntakeWorld SubmissionResult
  unfolding eager submit_text
  submit_text_endpoint t = do r ← submit_text sha256 encode t; eager r

  -- The file may come without a name.
  unfoldable pub submit_upload_endpoint :
      (has_filename : Bool) → Upload → Exec IntakeWorld SubmissionResult
  unfolding eager submit_upload
  submit_upload_endpoint has_filename u = do
    raise_if (not has_filename) validation
    r ← submit_upload sha256 p.casing u
    eager r

  unfoldable pub get_item_endpoint : (workspace_id item_id : ℕ) → Exec IntakeWorld IntakeBufferItem
  unfolding fetch_item
  get_item_endpoint workspace_id item_id = do
    item ← fetch_item item_id
    raise_if (not (item.workspace_id == workspace_id)) not_found
    pure item

  unfoldable pub download_item :
      (signed_url : Text → Text) → (workspace_id item_id : ℕ) → Exec IntakeWorld Text
  unfolding get_item_endpoint download_url
  download_item signed_url workspace_id item_id = do
    item ← get_item_endpoint workspace_id item_id
    download_url signed_url item

  -- The workspace of the path is not compared with that of the item.
  unfoldable pub supersede_item : (workspace_id item_id new_item_id : ℕ) → Exec IntakeWorld Unit
  unfolding supersede
  supersede_item workspace_id item_id new_item_id = supersede item_id new_item_id

  unfoldable pub delete_item : (workspace_id item_id : ℕ) → Exec IntakeWorld Unit
  unfolding delete_submission
  delete_item workspace_id item_id = delete_submission item_id

  unfoldable pub reprocess_item : (workspace_id item_id : ℕ) → Exec IntakeWorld IntakeBufferItem
  unfolding get_item_endpoint process_intake_item fetch_item
  reprocess_item workspace_id item_id = do
    item ← get_item_endpoint workspace_id item_id
    status ← process_intake_item p now fresh item_id
    fetch_item item_id

-- What the review of the last 200 items counts.
pub record Review : Type 0 where
  pub total_recent : ℕ
  pub needs_review_count : ℕ
  pub ingested_count : ℕ
  pub failed_count : ℕ
  pub needs_review_items : List IntakeBufferItem

abbrev is_needs_review : IntakeStatus → Bool
is_needs_review needs_review = true
is_needs_review _ = false

abbrev is_ingested : IntakeStatus → Bool
is_ingested ingested = true
is_ingested _ = false

abbrev is_failed : IntakeStatus → Bool
is_failed failed = true
is_failed _ = false

-- The counts by kind, and those of the other statuses, are left out.
unfoldable pub review_step : IntakeBufferItem → Review → Review
review_step i r = record {
  total_recent = r.total_recent;
  needs_review_count = r.needs_review_count + (if is_needs_review i.status then 1 else 0);
  ingested_count = r.ingested_count + (if is_ingested i.status then 1 else 0);
  failed_count = r.failed_count + (if is_failed i.status then 1 else 0);
  needs_review_items =
      if is_needs_review i.status then r.needs_review_items ++ (i ∷ []) else r.needs_review_items;
}

unfoldable pub review_from : List IntakeBufferItem → Review → Review
unfolding review_step
review_from [] r = r
review_from (i ∷ is) r = review_from is (review_step i r)

unfoldable pub review_view : (workspace_id : ℕ) → IntakeWorld → Review
unfolding review_from list_for_workspace
review_view workspace_id w =
    let recent = list_for_workspace workspace_id none 200 0 w.items in
    review_from recent (record {
      total_recent = length recent;
      needs_review_count = 0;
      ingested_count = 0;
      failed_count = 0;
      needs_review_items = [];
    })
