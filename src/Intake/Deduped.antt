-- ===== src/Intake/Deduped.antt =====
-- The same file twice.
use vof_backend.Errors.{Result, ok, err}
use vof_backend.Intake.Extract.{Extractor, resolve}
use vof_backend.Intake.Models.{IntakeBufferItem}
use vof_backend.Intake.Processor.{
  Upload, SubmissionResult, max_upload_bytes, upload_item, store_upload, place_upload,
  submit_upload,
}
use vof_backend.Intake.Repo.{has_sha, one_or_none, find_by_sha, new_intake_item, updated}
use vof_backend.Intake.World.{IntakeWorld}
use vof_backend.Prelude.{
  length, select, ltb, Bool-cases, Option-cases, ◌≡◌, refl, ap, inl, inr, Bool, true, false, Option,
  none, some, List, [], ◌∷◌, ◌++◌, arith,
}
use vof_backend.Text.{Text, text_eq_refl, CaseMap}

select_new {ℓ} :
    {A : Type ℓ} (keep : A → Bool) (xs : List A) (a : A)
    → select keep xs ≡ []
    → keep a ≡ true
    → select keep (xs ++ (a ∷ [])) ≡ a ∷ []
select_new keep [] a h k = rw k refl
select_new keep (x ∷ xs) a h k = ground (arith, select_new keep xs a)

-- No row, where `scalar_one_or_none` gives none
one_or_none_empty {ℓ} : {A : Type ℓ} (xs : List A) → one_or_none xs ≡ ok none → xs ≡ []
one_or_none_empty [] h = refl
one_or_none_empty (x ∷ []) h = absurd (cc)
one_or_none_empty (x ∷ (y ∷ ys)) h = absurd (cc)

module _ (sha256 : Text → Text) (c : CaseMap) (u : Upload) where
  upload_item-has_sha :
      (e : Extractor) → has_sha u.workspace_id (sha256 u.blob) (upload_item sha256 u e) ≡ true
  unfolding upload_item new_intake_item updated
  upload_item-has_sha e = ground (arith, text_eq_refl (sha256 u.blob))

  find_by_sha-stored :
      (e : Extractor) (items : List IntakeBufferItem)
      → find_by_sha u.workspace_id (sha256 u.blob) items ≡ ok none
      → find_by_sha u.workspace_id (sha256 u.blob) (items ++ (upload_item sha256 u e ∷ []))
        ≡ ok (some (upload_item sha256 u e))
  unfolding find_by_sha
  find_by_sha-stored e items h = ap one_or_none (
      select_new (has_sha u.workspace_id (sha256 u.blob)) items (upload_item sha256 u e)
        (one_or_none_empty _ h) (upload_item-has_sha e))

  -- What is found after an upload.
  place_upload-found :
      (existing : Option IntakeBufferItem) (w w1 : IntakeWorld) (r : SubmissionResult)
      → find_by_sha u.workspace_id (sha256 u.blob) w.items ≡ ok existing
      → place_upload sha256 c u existing w ≡ (ok r, w1)
      → find_by_sha u.workspace_id (sha256 u.blob) w1.items ≡ ok (some r.item)
  unfolding place_upload store_upload
  place_upload-found (some item) w w1 r h k = ground (arith, h)
  place_upload-found none w w1 r h k = elim (Option-cases (resolve c u.content_mime u.filename)) [
    | inl e ↦ ground arith
    | inr (x, e) ↦ ground (arith, find_by_sha-stored x w.items h)
  ]

  submit_upload-found :
      (w w1 : IntakeWorld) (r : SubmissionResult)
      → submit_upload sha256 c u w ≡ (ok r, w1)
      → (ltb max_upload_bytes (length u.blob) ≡ false)
        × (find_by_sha u.workspace_id (sha256 u.blob) w1.items ≡ ok (some r.item))
  unfolding submit_upload
  submit_upload-found w w1 r h = elim (Bool-cases (ltb max_upload_bytes (length u.blob))) [
    | inl e ↦ absurd (ground arith)
    | inr e ↦ by_found e (find_by_sha u.workspace_id (sha256 u.blob) w.items) refl
  ]
    where
      by_found :
          ltb max_upload_bytes (length u.blob) ≡ false
          → (f : Result (Option IntakeBufferItem))
          → find_by_sha u.workspace_id (sha256 u.blob) w.items ≡ f
          → (ltb max_upload_bytes (length u.blob) ≡ false)
            × (find_by_sha u.workspace_id (sha256 u.blob) w1.items ≡ ok (some r.item))
      by_found small (err x) e = absurd (ground arith)
      by_found small (ok o) e = (small, place_upload-found o w w1 r e (ground arith))

-- Once an upload has succeeded, a second one of the same bytes in the same workspace gives the item of
-- the first, marked as deduped, and changes nothing, whatever its name, its type and its purpose are.
pub submit_upload-again :
    (sha256 : Text → Text) (c : CaseMap) (u v : Upload) (w w1 : IntakeWorld) (r : SubmissionResult)
    → submit_upload sha256 c u w ≡ (ok r, w1)
    → v.workspace_id ≡ u.workspace_id
    → v.blob ≡ u.blob
    → submit_upload sha256 c v w1 ≡ (ok (record { item = r.item; deduped = true }), w1)
unfolding submit_upload place_upload
submit_upload-again sha256 c u v w w1 r h same_workspace same_blob =
    let (small, found) = submit_upload-found sha256 c u w w1 r h in ground (arith, small, found)
