-- ===== src/Intake/Runs.antt =====
-- Where a run of the intake ends.
use vof_backend.Errors.{Result, ok}
use vof_backend.Exec.{Exec, pure, ◌>>=◌, >>=-ok}
use vof_backend.Intake.Models.{needs_review, failed, IntakeStatus, ingested, IntakeBufferItem}
use vof_backend.Intake.Processing.{set_item, end_with}
use vof_backend.Intake.Repo.{
  item_key, get_item, update_status, no_update, ItemUpdate, updated, change_item,
}
use vof_backend.Intake.World.{IntakeWorld}
use vof_backend.Prelude.{
  save_row, find_row-key, find_row-save_row, ◌==◌, ℕ, ◌≡◌, refl, ◌∙◌, Bool, true, false, some,
  arith,
}
use vof_backend.Text.{Text}

-- A run with one item: no other row changes, and the item's is still there with its workspace.
pub record Tracked (item_id : ℕ) (w0 w : IntakeWorld) : Type 0 where
  pub row : IntakeBufferItem
  pub found : get_item item_id w.items ≡ some row
  pub others : (k : ℕ) → (k == item_id) ≡ false → get_item k w.items ≡ get_item k w0.items

abbrev pub is_outcome : IntakeStatus → Bool
is_outcome ingested = true
is_outcome needs_review = true
is_outcome failed = true
is_outcome _ = false

-- A run that returns the status that the item's row has then.
pub record Finished (item_id : ℕ) (w0 : IntakeWorld) (r : Result IntakeStatus × IntakeWorld)
    : Type 0 where
  pub status : IntakeStatus
  pub outcome : is_outcome status ≡ true
  pub result : r.0 ≡ ok status
  pub row : IntakeBufferItem
  pub found : get_item item_id r.1.items ≡ some row
  pub same : row.status ≡ status
  pub others : (k : ℕ) → (k == item_id) ≡ false → get_item k r.1.items ≡ get_item k w0.items

module _ (item_id : ℕ) (u : ItemUpdate) (w : IntakeWorld) (i : IntakeBufferItem)
    (found : get_item item_id w.items ≡ some i) where
  set_item-found :
      set_item item_id u w ≡ (ok tt, record w { items = save_row item_key (updated u i) w.items })
  unfolding set_item update_status change_item
  set_item-found = ground (arith, found)

  abbrev saved : IntakeWorld
  saved = record w { items = save_row item_key (updated u i) w.items }

  row_key : (updated u i).id ≡ item_id
  unfolding updated get_item
  row_key = find_row-key item_key item_id w.items i found

  saved-found : get_item item_id saved.items ≡ some (updated u i)
  unfolding get_item
  saved-found =
      ground (arith, row_key, find_row-save_row item_key item_id (updated u i) w.items, found)

  saved-others : (k : ℕ) → (k == item_id) ≡ false → get_item k saved.items ≡ get_item k w.items
  unfolding get_item
  saved-others k h = ground (arith, row_key, find_row-save_row item_key k (updated u i) w.items)

-- A write on the item keeps the run in track, and what comes after it goes on from there.
module _ {item_id : ℕ} {w0 w : IntakeWorld} (t : Tracked item_id w0 w) where
  pub set-Tracked : (u : ItemUpdate) → Tracked item_id w0 (set_item item_id u w).1
  set-Tracked u = rw (set_item-found item_id u w t.row t.found) (record {
    row = updated u t.row;
    found = saved-found item_id u w t.row t.found;
    others = λ k h. saved-others item_id u w t.row t.found k h ∙ t.others k h;
  })

  pub set_then :
      {A : Type 0} (u : ItemUpdate) (k : Unit {0} → Exec IntakeWorld A)
      → (set_item item_id u >>= k) w ≡ k tt (set_item item_id u w).1
  set_then u k =
      >>=-ok (set_item item_id u) k w (set_item item_id u w).1 tt
        (rw (set_item-found item_id u w t.row t.found) refl)

module _ {item_id : ℕ} {w0 w : IntakeWorld} (t : Tracked item_id w0 w) where
  -- A write of an outcome with which the run ends.
  pub set-Finished :
      (u : ItemUpdate) (st : IntakeStatus)
      → is_outcome st ≡ true
      → u.status ≡ some st
      → Finished item_id w0 ((set_item item_id u >>= λ _. pure st) w)
  unfolding updated
  set-Finished u st out h = rw (set_then t u (λ _. pure st)) (record {
    status = st;
    outcome = out;
    result = refl;
    row = updated u t.row;
    found = rw (set_item-found item_id u w t.row t.found) (saved-found item_id u w t.row t.found);
    same = rw h refl;
    others = (set-Tracked t u).others;
  })

  pub end_with-Finished :
      (st : IntakeStatus) (message : Text)
      → is_outcome st ≡ true
      → Finished item_id w0 (end_with item_id st message w)
  unfolding end_with
  end_with-Finished st message out =
      set-Finished (record no_update { status = some st; error = some message }) st out refl
