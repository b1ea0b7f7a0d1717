-- ===== src/Intake/Tests.antt =====
-- Runs of the intake, and the properties at them.
use vof_backend.Brain.Correction.{TextRepr}
use vof_backend.Brain.Slug.{lstrip_dash, rstrip_dash, slugify}
use vof_backend.Brain.Store.{BrainPage, find_page}
use vof_backend.Db.Models.{ready, ManagerWorkspace}
use vof_backend.Errors.{ok}
use vof_backend.Intake.Deduped.{submit_upload-again}
use vof_backend.Intake.Extract.{
  returned, Extractor, after_last, file_extension, resolve_in, resolve, put_blob,
}
use vof_backend.Intake.Handlers.{org_write}
use vof_backend.Intake.Life.{steps, IntakeOp, processes, supersedes, deletes}
use vof_backend.Intake.Models.{
  needs_review, ongoing_update, queued, ingested, Classification, IntakeBufferItem,
}
use vof_backend.Intake.Pages.{kind_prefix, derive_slug}
use vof_backend.Intake.Processed.{process_intake_item-Finished}
use vof_backend.Intake.Processing.{Pipeline, handler_input, dispatch_item, process_intake_item}
use vof_backend.Intake.Processor.{
  Upload, upload_key, upload_item, store_upload, place_upload, submit_upload,
}
use vof_backend.Intake.Repo.{get_item, find_by_sha, new_intake_item, updated}
use vof_backend.Intake.Reviewed.{dispatch_item-locked}
use vof_backend.Intake.Runs.{Finished}
use vof_backend.Intake.Steps.{Lived, steps-Lived}
use vof_backend.Intake.World.{IntakeWorld}
use vof_backend.Prelude.{find_row, ℕ, ◌+◌, ◌≡◌, refl, true, false, none, some, List, [], ◌∷◌, ◌++◌}
use vof_backend.Text.{codes, text_eq, contains, is_space, lstrip, rstrip, strip, find_char, ascii}
use vof_backend.Text.Hex.{decimal_text}

abbrev quoted : TextRepr
quoted = record { repr = λ t. b'\'' ∷ (t ++ (b'\'' ∷ [])) }

abbrev pepsi : Classification
pepsi = record {
  scope = codes "ORG_WIDE";
  kind = codes "account";
  target_caller_id = none;
  suggested_slug = none;
  extracted_entities = record { entity_type = codes "company"; name = codes "Pepsi Co" } ∷ [];
  confidence = 90;
  reasoning = codes "names an account";
}

-- The text is the file itself, and the classifier sees the same account in every text.
abbrev pipeline : Pipeline
pipeline = record {
  casing = ascii;
  repr = quoted;
  title_case = λ t. t;
  extract = λ name blob filename. returned (record { text = some blob; rows = []; warnings = [] });
  missing_blob = λ k. k;
  classify = λ i. returned pepsi;
  error_text = λ e. codes "error";
  confidence_text = λ n. decimal_text n;
}

abbrev workspace : ManagerWorkspace
workspace = record {
  id = 1;
  organization_id = 2;
  manager_user_id = none;
  name = codes "Acme";
  primary_number = none;
  agentphone_number_id = none;
  agentphone_agent_id = none;
  provisioning_state = ready;
  email_inbox_id = none;
  email_inbox_addr = none;
  email_domain = none;
}

abbrev numbers : ℕ → ℕ
numbers n = 100 + n

abbrev empty_world : IntakeWorld
empty_world = record {
  items = [];
  workspaces = workspace ∷ [];
  blobs = λ k. none;
  brains = λ k. record { pages = []; versions = [] };
  provenance = [];
}

abbrev notes : Upload
notes = record {
  id = 7;
  key_id = 8;
  now = 10;
  workspace_id = 1;
  organization_id = 2;
  submitted_by_user_id = 3;
  purpose = ongoing_update;
  blob = codes "Pepsi wants a discount.";
  filename = codes "notes.txt";
  content_mime = none;
}

abbrev text_extractor : Extractor
text_extractor = record {
  name = codes "text";
  accepts_mime = codes "text/plain" ∷ codes "text/markdown" ∷ [];
  accepts_ext = codes ".txt" ∷ codes ".md" ∷ codes ".markdown" ∷ [];
}

abbrev stored_item : IntakeBufferItem
stored_item = upload_item (λ t. t) notes text_extractor

abbrev stored : IntakeWorld
stored = record empty_world {
  items = stored_item ∷ [];
  blobs = put_blob (upload_key notes) (codes "Pepsi wants a discount.") (λ k. none);
}

resolve_test : resolve ascii none (codes "Notes.TXT") ≡ some text_extractor
unfolding resolve_in contains file_extension after_last text_eq find_char
resolve_test = refl

submit_upload_test :
    submit_upload (λ t. t) ascii notes empty_world
    ≡ (ok (record { item = stored_item; deduped = false }), stored)
unfolding submit_upload find_by_sha place_upload store_upload resolve_in contains file_extension
    after_last text_eq find_char
submit_upload_test = refl

submit_upload-again_example :
    submit_upload (λ t. t) ascii (record notes { id = 9; filename = codes "copy.md" }) stored
    ≡ (ok (record { item = stored_item; deduped = true }), stored)
submit_upload-again_example =
    submit_upload-again (λ t. t) ascii notes (record notes { id = 9; filename = codes "copy.md" })
      empty_world stored (record { item = stored_item; deduped = false }) submit_upload_test refl
      refl

process_intake_item-Finished_example :
    Finished 7 stored (process_intake_item pipeline 20 numbers 7 stored)
unfolding get_item upload_item new_intake_item updated find_row
process_intake_item-Finished_example =
    process_intake_item-Finished pipeline 20 numbers 7 stored stored_item workspace refl refl refl

abbrev locked_page : BrainPage
locked_page = record {
  slug = codes "accounts/pepsi-co";
  kind = codes "account";
  title = codes "Pepsi Co";
  compiled_truth = codes "No discounts.";
  timeline = [];
  tags = [];
  provenance_id = none;
  manager_authoritative = true;
  deleted_at = none;
  version = 1;
  created_at = 1;
  updated_at = 1;
}

abbrev locked_world : IntakeWorld
locked_world = record stored { brains = λ k. record { pages = locked_page ∷ []; versions = [] } }

dispatch_item-locked_example :
    ((dispatch_item pipeline 20 numbers stored_item
        (codes "Pepsi wants a discount.")
        (record pepsi { scope = codes "ORG_WIDE" })
        locked_world).0
      ≡ ok needs_review)
    × ((dispatch_item pipeline 20 numbers stored_item
          (codes "Pepsi wants a discount.")
          (record pepsi { scope = codes "BOTH" })
          locked_world).0
        ≡ ok ingested)
unfolding get_item upload_item new_intake_item updated find_row org_write derive_slug slugify
    lstrip_dash rstrip_dash kind_prefix find_page text_eq handler_input strip lstrip rstrip is_space
dispatch_item-locked_example =
    dispatch_item-locked pipeline 20 numbers stored_item (codes "Pepsi wants a discount.") pepsi
      locked_world stored_item locked_page refl refl refl

-- An upload, its run, its deletion and a run after that
abbrev intake_ops : List IntakeOp
intake_ops = processes 7 20 numbers ∷ deletes 7 ∷ processes 7 21 numbers ∷ supersedes 7 7 ∷ []

steps-Lived_example : Lived 7 queued (steps pipeline (λ t. t) (λ t. t) intake_ops stored)
unfolding get_item upload_item new_intake_item updated find_row
steps-Lived_example = steps-Lived pipeline (λ t. t) (λ t. t) 7 intake_ops stored stored_item refl
