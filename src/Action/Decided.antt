-- ===== src/Action/Decided.antt =====
-- A decision of the Manager on an action item is made once.
use vof_backend.Action.Approval.{
  is_undecided, approve_action_item, reject_action_item, ActionItemPatch, patched, edit_action_item,
}
use vof_backend.Action.Approvals.{decided, undecided}
use vof_backend.Action.Repo.{item_key, get_item, save_item, status_row, update_status}
use vof_backend.Db.{AppDb}
use vof_backend.Db.Models.{approved, rejected, ActionItem}
use vof_backend.Errors.{conflict, ok, err}
use vof_backend.Prelude.{find_row-key, find_row-save_row, ◌==◌, ℕ, ◌≡◌, refl, true, some, arith}

module _ (workspace_id id : ℕ) (i : ActionItem) (db : AppDb) where
  abbrev after : (ActionItem → ActionItem) → AppDb
  after f = (save_item (f i) db).1

  changed_item :
      (f : ActionItem → ActionItem)
      → get_item id db ≡ some i
      → (f i).id ≡ i.id
      → get_item id (after f) ≡ some (f i)
  unfolding get_item save_item
  changed_item f h e = ground (
    arith,
    find_row-save_row item_key id (f i) db.action_items,
    find_row-key item_key id db.action_items i h,
  )

  -- An approval of an undecided item of the workspace returns the item as approved. After that, an
  -- approval, a rejection and an edit of the item raise a conflict and change nothing.
  pub approve-once :
      (b : ActionItemPatch)
      → get_item id db ≡ some i
      → (i.workspace_id == workspace_id) ≡ true
      → is_undecided i.status ≡ true
      → (approve_action_item workspace_id id db
          ≡ (ok (status_row approved i), after (status_row approved)))
        × (approve_action_item workspace_id id (after (status_row approved))
            ≡ (err conflict, after (status_row approved)))
        × (reject_action_item workspace_id id (after (status_row approved))
            ≡ (err conflict, after (status_row approved)))
        × (edit_action_item workspace_id id b (after (status_row approved))
            ≡ (err conflict, after (status_row approved)))
  unfolding approve_action_item reject_action_item edit_action_item update_status save_item
  approve-once b h w u =
      let later = decided workspace_id id (after (status_row approved)) in
      let found = changed_item (status_row approved) h refl in
      (
        undecided workspace_id id db (status_row approved) i h w u,
        later (status_row approved) (status_row approved i) found w refl,
        later (status_row rejected) (status_row approved i) found w refl,
        later (patched b) (status_row approved i) found w refl,
      )
