-- ===== src/Action/Approvals.antt =====
-- What the Manager's handlers come to.
use vof_backend.Action.Approval.{
  load_for_ws, is_undecided, approve_action_item, reject_action_item, ActionItemPatch, patched,
  edit_action_item,
}
use vof_backend.Action.Repo.{get_item, save_item, status_row, update_status}
use vof_backend.Db.{AppDb}
use vof_backend.Db.Models.{approved, rejected, ActionItem}
use vof_backend.Errors.{Error, not_found, conflict, Result, ok, err}
use vof_backend.Exec.{Exec, ◌>>=◌, ◌>>◌, raise_if}
use vof_backend.Prelude.{
  ◌==◌, Bool-cases, Option-cases, ℕ, ◌≡◌, inl, inr, true, false, not, none, some, arith,
}

-- A handler that raises leaves the database; otherwise it saves a change of an undecided item.
pub data Changed (db : AppDb) (id : ℕ) (f : ActionItem → ActionItem) (r : Result ActionItem × AppDb)
    : Type 0 where
  refused_change : (e : Error) → r ≡ (err e, db) → Changed db id f r
  saved_change :
      (i : ActionItem)
      → get_item id db ≡ some i
      → is_undecided i.status ≡ true
      → r ≡ (ok (f i), (save_item (f i) db).1)
      → Changed db id f r

module _ (workspace_id id : ℕ) (db : AppDb) where
  -- The part that the three handlers share.
  abbrev pub change : (ActionItem → ActionItem) → Exec AppDb ActionItem
  change f = do
    row ← load_for_ws workspace_id id
    raise_if (not (is_undecided row.status)) conflict
    save_item (f row)

  module _ (f : ActionItem → ActionItem) where
    missing : get_item id db ≡ none → change f db ≡ (err not_found, db)
    unfolding load_for_ws
    missing h = ground arith

    module _ (i : ActionItem) (found : get_item id db ≡ some i) where
      foreign : (i.workspace_id == workspace_id) ≡ false → change f db ≡ (err not_found, db)
      unfolding load_for_ws
      foreign w = ground arith

      pub decided :
          (i.workspace_id == workspace_id) ≡ true
          → is_undecided i.status ≡ false
          → change f db ≡ (err conflict, db)
      unfolding load_for_ws
      decided w u = ground arith

      pub undecided :
          (i.workspace_id == workspace_id) ≡ true
          → is_undecided i.status ≡ true
          → change f db ≡ save_item (f i) db
      unfolding load_for_ws
      undecided w u = ground arith

  change-cases : (f : ActionItem → ActionItem) → Changed db id f (change f db)
  unfolding save_item
  change-cases f = elim (Option-cases (get_item id db)) [
    | inl h ↦ refused_change not_found (missing f h)
    | inr (i, h) ↦ elim (Bool-cases (i.workspace_id == workspace_id)) [
      | inr w ↦ refused_change not_found (foreign f i h w)
      | inl w ↦ elim (Bool-cases (is_undecided i.status)) [
        | inl u ↦ saved_change i h u (undecided f i h w u)
        | inr u ↦ refused_change conflict (decided f i h w u)
      ]
    ]
  ]

  pub approve-cases : Changed db id (status_row approved) (approve_action_item workspace_id id db)
  unfolding approve_action_item update_status
  approve-cases = change-cases (status_row approved)

  pub reject-cases : Changed db id (status_row rejected) (reject_action_item workspace_id id db)
  unfolding reject_action_item update_status
  reject-cases = change-cases (status_row rejected)

  pub edit-cases :
      (b : ActionItemPatch) → Changed db id (patched b) (edit_action_item workspace_id id b db)
  unfolding edit_action_item
  edit-cases b = change-cases (patched b)
