-- ===== src/Action/Runs.antt =====
-- What a run of the dispatcher does to every row.
use vof_backend.Action.Dispatch.{
  HandlerResult, DispatchReport, idle, processed, item_update, run_one, run_all, dispatch_items,
  dispatch,
}
use vof_backend.Action.Listed.{
  list_approved-Within, list_approved-Distinct, updated_row, write_outcome-rows, write_outcome-ok,
}
use vof_backend.Action.Repo.{item_key, get_item, list_approved_with_handler}
use vof_backend.Db.{AppDb}
use vof_backend.Db.Models.{ActionItemHandler, ActionItem, ManagerWorkspace}
use vof_backend.Decision.Service.{workspace_key}
use vof_backend.Errors.{ok}
use vof_backend.Exec.{pure, then_ok}
use vof_backend.Prelude.{
  Distinct, Within, length, find_row, ◌==◌, if◌then◌else◌, Bool-cases, Option-cases, ℕ, ◌≡◌, refl,
  ap, ◌∙◌, ◌⊎◌, inl, inr, true, Option, none, some, List, [], ◌∷◌, arith,
}

abbrev pub report : List ActionItem → DispatchReport
report [] = idle
report (i ∷ items) = processed (length (i ∷ items))

module _ (execute : ActionItemHandler → ℕ → ActionItem → HandlerResult)
    (clock : ActionItem → ℕ) where
  abbrev pub run_row : Option ℕ → ActionItem → ActionItem
  run_row oauth_user_id i = updated_row (item_update execute clock oauth_user_id i) i

  -- The row of an id after a list of items was run, from the item of that id in the list.
  abbrev pub ran : Option ℕ → Option ActionItem → Option ActionItem → Option ActionItem
  ran oauth_user_id none old = old
  ran oauth_user_id (some i) old = some (run_row oauth_user_id i)

  ran-next :
      (o : Option ℕ) (i : ActionItem) (k : ℕ) (rest old : Option ActionItem)
      → ((i.id == k) ≡ true → rest ≡ none)
      → ran o rest (if i.id == k then some (run_row o i) else old)
        ≡ ran o (if i.id == k then some i else rest) old
  ran-next o i k rest old h = elim (Bool-cases (i.id == k)) [
    | inl e ↦ rw (e, h e) refl
    | inr e ↦ rw e refl
  ]

  run_one-rows :
      (o : Option ℕ) (i : ActionItem) (k : ℕ) (db : AppDb)
      → get_item i.id db ≡ some i
      → ((run_one execute clock o i db).0 ≡ ok tt)
        × (get_item k (run_one execute clock o i db).1
            ≡ (if i.id == k then some (run_row o i) else get_item k db))
  unfolding run_one
  run_one-rows o i k db h = write_outcome-rows (item_update execute clock o i) i k db h

  -- The items that wait are found as they were after the first was run.
  run_one-Within :
      (o : Option ℕ) (i : ActionItem) (items : List ActionItem) (db : AppDb)
      → Distinct item_key (i ∷ items)
      → Within item_key (i ∷ items) db.action_items
      → Within item_key items (run_one execute clock o i db).1.action_items
  unfolding find_row get_item
  run_one-Within o i items db d w k a h =
      let r = run_one-rows o i k db (w i.id i (ground arith)) in let f = w k a in ground arith

  pub run_all-next :
      (o : Option ℕ) (i : ActionItem) (items : List ActionItem) (db : AppDb)
      → run_all execute clock o (i ∷ items) db
        ≡ run_all execute clock o items (run_one execute clock o i db).1
  unfolding run_all run_one
  run_all-next o i items db =
      then_ok (run_one execute clock o i) (run_all execute clock o items) db
        (write_outcome-ok (item_update execute clock o i) i db)

  pub run_all-rows :
      (o : Option ℕ) (items : List ActionItem) (k : ℕ) (db : AppDb)
      → Distinct item_key items
      → Within item_key items db.action_items
      → ((run_all execute clock o items db).0 ≡ ok tt)
        × (get_item k (run_all execute clock o items db).1
            ≡ ran o (find_row item_key k items) (get_item k db))
  unfolding run_all find_row get_item
  run_all-rows o [] k db d w = (refl, refl)
  run_all-rows o (i ∷ items) k db d w =
      let r = run_one-rows o i k db (w i.id i (ground arith)) in
      let (q, s) =
        run_all-rows o items k (run_one execute clock o i db).1 d.1
          (run_one-Within o i items db d w) in
      rw (run_all-next o i items db) (
        q,
        (s
            ∙ (rw r.1
                (ran-next o i k (find_row item_key k items) (get_item k db) (λ e. ground arith)))),
      )

  run_all-ok :
      (o : Option ℕ) (items : List ActionItem) (db : AppDb)
      → (run_all execute clock o items db).0 ≡ ok tt
  run_all-ok o [] db = unfold run_all in refl
  run_all-ok o (i ∷ items) db =
      rw (run_all-next o i items db) (run_all-ok o items (run_one execute clock o i db).1)

  dispatch_items-next :
      (creds : ℕ → Option ℕ) (workspace_id : ℕ) (i : ActionItem) (items : List ActionItem)
      (db : AppDb)
      → (run_all execute clock (creds workspace_id) (i ∷ items) db).0 ≡ ok tt
      → dispatch_items execute clock creds workspace_id (i ∷ items) db
        ≡ (ok (report (i ∷ items)), (run_all execute clock (creds workspace_id) (i ∷ items) db).1)
  unfolding dispatch_items
  dispatch_items-next creds workspace_id i items db h =
      then_ok (run_all execute clock (creds workspace_id) (i ∷ items)) (pure (report (i ∷ items)))
        db h

  dispatch_items-rows :
      (creds : ℕ → Option ℕ) (workspace_id k : ℕ) (items : List ActionItem) (db : AppDb)
      → Distinct item_key items
      → Within item_key items db.action_items
      → ((dispatch_items execute clock creds workspace_id items db).0 ≡ ok (report items))
        × (get_item k (dispatch_items execute clock creds workspace_id items db).1
            ≡ ran (creds workspace_id) (find_row item_key k items) (get_item k db))
  dispatch_items-rows creds workspace_id k [] db d w =
      unfold dispatch_items find_row in (refl, refl)
  dispatch_items-rows creds workspace_id k (i ∷ items) db d w =
      let r = run_all-rows (creds workspace_id) (i ∷ items) k db d w in
      rw (dispatch_items-next creds workspace_id i items db r.0) (refl, r.1)

  -- For a workspace that is there, one run of the dispatcher raises nothing. Of every id, it leaves the
  -- row as it was unless the row was among the at most 50 that were listed, and then it leaves what one
  -- run of its handler makes of it: no item is run twice, and none outside the list is touched.
  pub dispatch-rows :
      (creds : ℕ → Option ℕ) (workspace_id k : ℕ) (db : AppDb) (w : ManagerWorkspace)
      → find_row workspace_key workspace_id db.workspaces ≡ some w
      → Distinct item_key db.action_items
      → ((dispatch execute clock creds workspace_id db).0
          ≡ ok (report (list_approved_with_handler workspace_id 50 db)))
        × (get_item k (dispatch execute clock creds workspace_id db).1
            ≡ ran
                (creds workspace_id)
                (find_row item_key k (list_approved_with_handler workspace_id 50 db))
                (get_item k db))
  unfolding dispatch
  dispatch-rows creds workspace_id k db w f d = rw f (
      dispatch_items-rows creds workspace_id k (list_approved_with_handler workspace_id 50 db) db
        (list_approved-Distinct workspace_id 50 db d) (list_approved-Within workspace_id 50 db d))

  dispatch_items-state :
      (creds : ℕ → Option ℕ) (workspace_id : ℕ) (items : List ActionItem) (db : AppDb)
      → (dispatch_items execute clock creds workspace_id items db).1
        ≡ (run_all execute clock (creds workspace_id) items db).1
  dispatch_items-state creds workspace_id [] db = unfold dispatch_items run_all in refl
  dispatch_items-state creds workspace_id (i ∷ items) db =
      ap (λ r. r.1)
        (dispatch_items-next creds workspace_id i items db
          (run_all-ok (creds workspace_id) (i ∷ items) db))

  -- The database after a dispatch: the workspace is missing, or its ready items were run.
  pub dispatch-state :
      (creds : ℕ → Option ℕ) (workspace_id : ℕ) (db : AppDb)
      → ((dispatch execute clock creds workspace_id db).1 ≡ db)
        ⊎ ((dispatch execute clock creds workspace_id db).1
            ≡ (run_all execute clock
                (creds workspace_id)
                (list_approved_with_handler workspace_id 50 db)
                db).1)
  unfolding dispatch
  dispatch-state creds workspace_id db =
      elim (Option-cases (find_row workspace_key workspace_id db.workspaces)) [
        | inl h ↦ inl (rw h refl)
        | inr (w, h) ↦ inr (
            rw h (
              dispatch_items-state creds workspace_id
                (list_approved_with_handler workspace_id 50 db) db))
      ]
