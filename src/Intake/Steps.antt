-- ===== src/Intake/Steps.antt =====
-- The operations of the intake as moves of the status of an item.
use vof_backend.Decision.Service.{workspace_key}
use vof_backend.Errors.{Result, ok, err}
use vof_backend.Intake.Extract.{resolve, put_blob}
use vof_backend.Intake.Life.{
  step, steps, Moves, stays, finishes, superseding, deleting, Life, begins, goes, IntakeOp,
  submits_text, uploads, processes, supersedes, deletes, Moved, same-Moved, append-Moved,
  saved-Moved,
}
use vof_backend.Intake.Models.{
  IntakeStatus, superseded, deleted, IntakeBufferItem, is_superseded, is_terminal,
}
use vof_backend.Intake.Processed.{process_intake_item-Finished}
use vof_backend.Intake.Processing.{Pipeline, process_intake_item}
use vof_backend.Intake.Processor.{
  TextSubmission, Upload, max_upload_bytes, upload_key, submit_text, upload_item, store_upload,
  place_upload, submit_upload, supersede, delete_submission,
}
use vof_backend.Intake.Repo.{
  item_key, get_item, find_by_sha, change_item, mark_superseded, soft_delete,
}
use vof_backend.Intake.Runs.{Finished}
use vof_backend.Intake.World.{IntakeWorld}
use vof_backend.Prelude.{
  length, find_row, save_row, ltb, ◌==◌, Bool-cases, Option-cases, ℕ, ◌≡◌, refl, sym, subst, inl,
  inr, false, Option, none, some, List, [], ◌∷◌, arith,
}
use vof_backend.Text.{Text, is_empty, strip}

module _ (p : Pipeline) (sha256 encode : Text → Text) (k : ℕ) (w : IntakeWorld)
    (i : IntakeBufferItem) (found : get_item k w.items ≡ some i) where
  submit_text-Moved : (t : TextSubmission) → Moved k i.status (submit_text sha256 encode t w).1
  unfolding submit_text
  submit_text-Moved t = elim (Bool-cases (is_empty (strip t.text))) [
    | inl e ↦ rw e (same-Moved k w i found)
    | inr e ↦ rw e (append-Moved k w i found _ w.blobs)
  ]

  place_upload-Moved :
      (u : Upload) (o : Option IntakeBufferItem)
      → Moved k i.status (place_upload sha256 p.casing u o w).1
  unfolding place_upload store_upload
  place_upload-Moved u (some x) = same-Moved k w i found
  place_upload-Moved u none = elim (Option-cases (resolve p.casing u.content_mime u.filename)) [
    | inl e ↦ rw (place_upload, e) (same-Moved k w i found)
    | inr (x, e) ↦
        rw (place_upload, e)
          (append-Moved k w i found (upload_item sha256 u x)
            (put_blob (upload_key u) u.blob w.blobs))
  ]

  submit_upload-Moved : (u : Upload) → Moved k i.status (submit_upload sha256 p.casing u w).1
  unfolding submit_upload
  submit_upload-Moved u = elim (Bool-cases (ltb max_upload_bytes (length u.blob))) [
    | inl e ↦ rw (submit_upload, e) (same-Moved k w i found)
    | inr e ↦ by_found e (find_by_sha u.workspace_id (sha256 u.blob) w.items) refl
  ]
    where
      by_found :
          ltb max_upload_bytes (length u.blob) ≡ false
          → (r : Result (Option IntakeBufferItem))
          → find_by_sha u.workspace_id (sha256 u.blob) w.items ≡ r
          → Moved k i.status (submit_upload sha256 p.casing u w).1
      by_found e (err x) f = rw (submit_upload, e, f) (same-Moved k w i found)
      by_found e (ok o) f = rw (submit_upload, e, f) (place_upload-Moved u o)

  -- A run on an item that has not ended
  ended-Moved :
      (item_id now : ℕ) (fresh : ℕ → ℕ) (x : IntakeBufferItem)
      → get_item item_id w.items ≡ some x
      → is_terminal x.status ≡ false
      → Finished item_id w (process_intake_item p now fresh item_id w)
      → Moved k i.status (process_intake_item p now fresh item_id w).1
  unfolding get_item
  ended-Moved item_id now fresh x there live f = elim (Bool-cases (k == item_id)) [
    | inl e ↦ record {
      row = f.row;
      found = ground (arith, f.found, e);
      moves =
          (let this : x ≡ i = ground (arith, found, there, e) in
            subst (λ z. Moves z.status f.row.status) this
              (subst (λ s. Moves x.status s) (sym f.same)
                (finishes x.status f.status live f.outcome)));
    }
    | inr e ↦ record {
      row = i;
      found = ground (arith, f.others k e, found);
      moves = stays i.status;
    }
  ]

  process_intake_item-Moved :
      (item_id now : ℕ) (fresh : ℕ → ℕ)
      → Moved k i.status (process_intake_item p now fresh item_id w).1
  unfolding process_intake_item
  process_intake_item-Moved item_id now fresh = elim (Option-cases (get_item item_id w.items)) [
    | inl e ↦ rw (process_intake_item, e) (same-Moved k w i found)
    | inr (x, e) ↦ elim (Bool-cases (is_terminal x.status)) [
      | inl h ↦ rw (process_intake_item, e, h) (same-Moved k w i found)
      | inr h ↦ elim (Option-cases (find_row workspace_key x.workspace_id w.workspaces)) [
        | inl n ↦ rw (process_intake_item, e, h, n) (same-Moved k w i found)
        | inr (ws, n) ↦
            ended-Moved item_id now fresh x e h
              (process_intake_item-Finished p now fresh item_id w x ws e h n)
      ]
    ]
  ]

  changed :
      (n : ℕ) (x : IntakeBufferItem)
      → get_item n w.items ≡ some x
      → (f : IntakeBufferItem → IntakeBufferItem)
      → change_item f n w.items ≡ (ok tt, save_row item_key (f x) w.items)
  unfolding change_item
  changed n x h f = ground (arith, h)

  supersede-Moved : (old new : ℕ) → Moved k i.status (supersede old new w).1
  unfolding supersede mark_superseded
  supersede-Moved old new = elim (Option-cases (get_item old w.items)) [
    | inl e ↦ rw (supersede, e) (same-Moved k w i found)
    | inr (x, e) ↦ elim (Bool-cases (is_superseded x.status)) [
      | inl h ↦ rw (supersede, e, h) (same-Moved k w i found)
      | inr h ↦ elim (Option-cases (get_item new w.items)) [
        | inl n ↦ rw (supersede, e, h, n) (same-Moved k w i found)
        | inr (y, n) ↦ elim (Bool-cases (y.workspace_id == x.workspace_id)) [
          | inl q ↦
              rw
                (
                  supersede,
                  e,
                  h,
                  n,
                  q,
                  changed old x e
                      (λ z. record z { status = superseded; superseded_by_item_id = some new }),
                )
                (saved-Moved k w i found old x
                  (record x { status = superseded; superseded_by_item_id = some new }) w.blobs e
                  refl (superseding x.status h))
          | inr q ↦ rw (supersede, e, h, n, q) (same-Moved k w i found)
        ]
      ]
    ]
  ]

  delete_submission-Moved : (item_id : ℕ) → Moved k i.status (delete_submission item_id w).1
  unfolding delete_submission soft_delete
  delete_submission-Moved item_id = elim (Option-cases (get_item item_id w.items)) [
    | inl e ↦ rw (delete_submission, e) (same-Moved k w i found)
    | inr (x, e) ↦
        rw
          (
            delete_submission,
            e,
            changed item_id x e (λ z. record z { status = deleted; content_blob_key = none }),
          )
          (saved-Moved k w i found item_id x
            (record x { status = deleted; content_blob_key = none }) _ e refl (deleting x.status))
  ]

  step-Moved : (o : IntakeOp) → Moved k i.status (step p sha256 encode o w)
  step-Moved (submits_text t) = submit_text-Moved t
  step-Moved (uploads u) = submit_upload-Moved u
  step-Moved (processes item_id now fresh) = process_intake_item-Moved item_id now fresh
  step-Moved (supersedes old new) = supersede-Moved old new
  step-Moved (deletes item_id) = delete_submission-Moved item_id

-- An item after a sequence of steps, with the life that led to it
pub record Lived (k : ℕ) (s : IntakeStatus) (w : IntakeWorld) : Type 0 where
  pub row : IntakeBufferItem
  pub found : get_item k w.items ≡ some row
  pub life : Life s row.status

-- The operations refine the life of an item: whatever submissions, uploads, runs, supersessions and
-- deletions come, in whatever order and also where they raise, an item that is there stays there, and its
-- status makes only the moves of its life. A run is taken as one step.
pub steps-Lived :
    (p : Pipeline) (sha256 encode : Text → Text) (k : ℕ) (os : List IntakeOp) (w : IntakeWorld)
    (i : IntakeBufferItem)
    → get_item k w.items ≡ some i
    → Lived k i.status (steps p sha256 encode os w)
steps-Lived p sha256 encode k [] w i found = record {
  row = i;
  found = found;
  life = begins i.status;
}
steps-Lived p sha256 encode k (o ∷ os) w i found =
    let m = step-Moved p sha256 encode k w i found o in
    let rest = steps-Lived p sha256 encode k os (step p sha256 encode o w) m.row m.found in
    record {
      row = rest.row;
      found = rest.found;
      life = goes i.status m.row.status rest.row.status m.moves rest.life;
    }
