-- ===== src/Intake/Processor.antt =====
-- `IntakeProcessor` of app/services/intake_processor.py. The hash and the encoding of a text, and the
-- signature of a URL, are those of libraries.
use vof_backend.Errors.{not_found, validation, conflict, ok, err}
use vof_backend.Exec.{Exec, pure, gets, or_raise, ◌>>=◌, ◌>>◌, modify, raise_if}
use vof_backend.Intake.Extract.{Extractor, resolve_in, resolve, put_blob, delete_blob, text_of}
use vof_backend.Intake.Models.{IntakeSource, upload, IntakePurpose, IntakeBufferItem, is_superseded}
use vof_backend.Intake.Repo.{
  get_item, list_for_workspace, no_update, find_by_sha, new_intake_item, updated, mark_superseded,
  soft_delete,
}
use vof_backend.Intake.World.{IntakeWorld, on_items}
use vof_backend.Prelude.{
  length, ltb, ◌==◌, if◌then◌else◌, ℕ, Bool, true, false, Option, none, some, List, [], ◌∷◌, ◌++◌,
}
use vof_backend.Storage.{storage_key}
use vof_backend.Text.{Text, codes, is_empty, strip, CaseMap}
use vof_backend.Text.Hex.{uuid_text}

pub record TextSubmission : Type 0 where
  pub id : ℕ
  pub now : ℕ
  pub workspace_id : ℕ
  pub organization_id : ℕ
  pub submitted_by_user_id : ℕ
  pub purpose : IntakePurpose
  pub text : Text
  pub source : IntakeSource

-- The key of the blob has a UUID of its own.
pub record Upload : Type 0 where
  pub id : ℕ
  pub key_id : ℕ
  pub now : ℕ
  pub workspace_id : ℕ
  pub organization_id : ℕ
  pub submitted_by_user_id : ℕ
  pub purpose : IntakePurpose
  pub blob : Text
  pub filename : Text
  pub content_mime : Option Text

pub record SubmissionResult : Type 0 where
  pub item : IntakeBufferItem
  pub deduped : Bool

abbrev pub max_upload_bytes : ℕ
max_upload_bytes = 26214400

unfoldable pub upload_key : Upload → Text
unfolding storage_key
upload_key u = storage_key u.workspace_id (codes "intake" ∷ uuid_text u.key_id ∷ u.filename ∷ [])

abbrev add_item : IntakeBufferItem → Exec IntakeWorld Unit
add_item i = modify (λ w. record w { items = w.items ++ (i ∷ []) })

module _ (sha256 : Text → Text) where
  unfoldable pub submit_text :
      (encode : Text → Text) → TextSubmission → Exec IntakeWorld SubmissionResult
  unfolding new_intake_item
  submit_text encode t =
      let item = new_intake_item (record {
        id = t.id;
        workspace_id = t.workspace_id;
        organization_id = t.organization_id;
        submitted_by_user_id = t.submitted_by_user_id;
        source = t.source;
        purpose = t.purpose;
        content_text = some t.text;
        content_blob_key = none;
        content_mime = none;
        content_filename = none;
        content_sha256 = some (sha256 (encode t.text));
        created_at = t.now;
      }) in
      do
        raise_if (is_empty (strip t.text)) validation
        add_item item
        pure (record { item = item; deduped = false })

  -- The row of an upload with its extractor.
  unfoldable pub upload_item : Upload → Extractor → IntakeBufferItem
  unfolding new_intake_item upload_key updated
  upload_item u e =
      updated (record no_update { extractor_used = some e.name })
        (new_intake_item (record {
          id = u.id;
          workspace_id = u.workspace_id;
          organization_id = u.organization_id;
          submitted_by_user_id = u.submitted_by_user_id;
          source = upload;
          purpose = u.purpose;
          content_text = none;
          content_blob_key = some (upload_key u);
          content_mime = u.content_mime;
          content_filename = some u.filename;
          content_sha256 = some (sha256 u.blob);
          created_at = u.now;
        }))

  -- The upload of a new file.
  unfoldable pub store_upload : Upload → Extractor → Exec IntakeWorld SubmissionResult
  unfolding upload_item upload_key
  store_upload u e = do
    modify (λ w. record w { blobs = put_blob (upload_key u) u.blob w.blobs })
    add_item (upload_item u e)
    pure (record { item = upload_item u e; deduped = false })

  unfoldable pub place_upload :
      CaseMap → Upload → Option IntakeBufferItem → Exec IntakeWorld SubmissionResult
  unfolding store_upload resolve_in
  place_upload c u (some item) w = (ok (record { item = item; deduped = true }), w)
  place_upload c u none w = elim (resolve c u.content_mime u.filename) [
    | none ↦ (err validation, w)
    | some e ↦ store_upload u e w
  ]

  unfoldable pub submit_upload : CaseMap → Upload → Exec IntakeWorld SubmissionResult
  unfolding find_by_sha place_upload
  submit_upload c u w =
      if ltb max_upload_bytes (length u.blob)
      then (err validation, w)
      else elim (find_by_sha u.workspace_id (sha256 u.blob) w.items) [
        | err e ↦ (err e, w)
        | ok existing ↦ place_upload c u existing w
      ]

unfoldable pub fetch_item : ℕ → Exec IntakeWorld IntakeBufferItem
unfolding get_item
fetch_item item_id = do found ← gets (λ w. get_item item_id w.items); or_raise found not_found

unfoldable pub list_items :
    (workspace_id : ℕ)
    → Option IntakePurpose
    → (limit offset : ℕ) → Exec IntakeWorld (List IntakeBufferItem)
unfolding list_for_workspace
list_items workspace_id purpose limit offset =
    gets (λ w. list_for_workspace workspace_id purpose limit offset w.items)

unfoldable pub download_url : (signed_url : Text → Text) → IntakeBufferItem → Exec IntakeWorld Text
download_url signed_url i = do
  raise_if (is_empty (text_of i.content_blob_key)) validation
  pure (signed_url (text_of i.content_blob_key))

unfoldable pub supersede : (old_item_id new_item_id : ℕ) → Exec IntakeWorld Unit
unfolding get_item mark_superseded
supersede old_item_id new_item_id w = elim (get_item old_item_id w.items) [
  | none ↦ (err not_found, w)
  | some old ↦
      if is_superseded old.status then (err conflict, w) else elim (get_item new_item_id w.items) [
        | none ↦ (err not_found, w)
        | some new ↦
            if new.workspace_id == old.workspace_id
            then on_items (mark_superseded old_item_id new_item_id) w
            else (err validation, w)
      ]
]

-- A failure of the store is logged and passed over. The flag `force` does nothing.
unfoldable pub delete_submission : ℕ → Exec IntakeWorld Unit
unfolding get_item soft_delete
delete_submission item_id w = elim (get_item item_id w.items) [
  | none ↦ (err not_found, w)
  | some item ↦ on_items (soft_delete item_id) (record w {
    blobs =
        if is_empty (text_of item.content_blob_key)
        then w.blobs
        else delete_blob (text_of item.content_blob_key) w.blobs;
  })
]
