-- ===== src/Intake/Life.antt =====
-- The life of an intake item: the operations of the intake, and the moves of a status.
use vof_backend.Intake.Extract.{Blobs}
use vof_backend.Intake.Models.{
  IntakeStatus, superseded, deleted, IntakeBufferItem, is_superseded, is_terminal,
}
use vof_backend.Intake.Processing.{Pipeline, process_intake_item}
use vof_backend.Intake.Processor.{
  TextSubmission, Upload, submit_text, submit_upload, supersede, delete_submission,
}
use vof_backend.Intake.Repo.{item_key, get_item}
use vof_backend.Intake.Runs.{is_outcome}
use vof_backend.Intake.World.{IntakeWorld}
use vof_backend.Prelude.{
  save_row, find_row-key, find_row-save_row, find_row-append, ◌==◌, Bool-cases, ℕ, ◌≡◌, subst, inl,
  inr, true, false, some, List, [], ◌∷◌, ◌++◌, arith,
}
use vof_backend.Text.{Text}

-- The moves that an item makes: a run that has not ended before ends, and an item is superseded, once in
-- a row, or deleted, also after its end.
pub data Moves : IntakeStatus → IntakeStatus → Type 0 where
  stays : (s : IntakeStatus) → Moves s s
  finishes : (s t : IntakeStatus) → is_terminal s ≡ false → is_outcome t ≡ true → Moves s t
  superseding : (s : IntakeStatus) → is_superseded s ≡ false → Moves s superseded
  deleting : (s : IntakeStatus) → Moves s deleted

pub data Life : IntakeStatus → IntakeStatus → Type 0 where
  begins : (s : IntakeStatus) → Life s s
  goes : (s t u : IntakeStatus) → Moves s t → Life t u → Life s u

pub data IntakeOp : Type 0 where
  submits_text : TextSubmission → IntakeOp
  uploads : Upload → IntakeOp
  processes : (item_id now : ℕ) → (fresh : ℕ → ℕ) → IntakeOp
  supersedes : (old_item_id new_item_id : ℕ) → IntakeOp
  deletes : (item_id : ℕ) → IntakeOp

-- An item after a step
pub record Moved (k : ℕ) (s : IntakeStatus) (w : IntakeWorld) : Type 0 where
  pub row : IntakeBufferItem
  pub found : get_item k w.items ≡ some row
  pub moves : Moves s row.status

module _ (p : Pipeline) (sha256 encode : Text → Text) where
  abbrev pub step : IntakeOp → IntakeWorld → IntakeWorld
  step (submits_text t) w = (submit_text sha256 encode t w).1
  step (uploads u) w = (submit_upload sha256 p.casing u w).1
  step (processes item_id now fresh) w = (process_intake_item p now fresh item_id w).1
  step (supersedes old_item_id new_item_id) w = (supersede old_item_id new_item_id w).1
  step (deletes item_id) w = (delete_submission item_id w).1

  abbrev pub steps : List IntakeOp → IntakeWorld → IntakeWorld
  steps [] w = w
  steps (o ∷ os) w = steps os (step o w)

module _ (k : ℕ) (w : IntakeWorld) (i : IntakeBufferItem)
    (found : get_item k w.items ≡ some i) where
  pub same-Moved : Moved k i.status w
  same-Moved = record { row = i; found = found; moves = stays i.status }

  -- A new row does not hide the item.
  pub append-Moved :
      (x : IntakeBufferItem) (b : Blobs)
      → Moved k i.status (record w { items = w.items ++ (x ∷ []); blobs = b })
  unfolding get_item
  append-Moved x b = record {
    row = i;
    found = ground (arith, found, find_row-append item_key k w.items x);
    moves = stays i.status;
  }

  -- A write of one row
  pub saved-Moved :
      (id : ℕ) (x y : IntakeBufferItem) (b : Blobs)
      → get_item id w.items ≡ some x
      → y.id ≡ x.id
      → Moves x.status y.status
      → Moved k i.status (record w { items = save_row item_key y w.items; blobs = b })
  unfolding get_item
  saved-Moved id x y b there same m = elim (Bool-cases (y.id == k)) [
    | inl e ↦ record {
      row = y;
      found = ground (arith, found, e, find_row-save_row item_key k y w.items);
      moves =
          (let this : x ≡ i =
              ground (arith, found, there, e, same, find_row-key item_key id w.items x) in
            subst (λ z. Moves z.status y.status) this m);
    }
    | inr e ↦ record {
      row = i;
      found = ground (arith, found, e, find_row-save_row item_key k y w.items);
      moves = stays i.status;
    }
  ]
