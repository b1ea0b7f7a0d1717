-- ===== src/Action/Finished.antt =====
-- Items that are done, failed, rejected or waiting for a reconnection.
use vof_backend.Action.Approval.{is_undecided, patched}
use vof_backend.Action.Approvals.{
  Changed, refused_change, saved_change, approve-cases, reject-cases, edit-cases,
}
use vof_backend.Action.Dispatch.{write_outcome, item_update, run_one, run_all, dispatch}
use vof_backend.Action.Listed.{list_approved-Within, list_approved-Distinct, list_approved-approved}
use vof_backend.Action.Repo.{
  item_key, get_item, save_item, new_item, create_item, status_row, HandlerOutcome, outcome_row,
  update_handler_outcome, list_approved_with_handler,
}
use vof_backend.Action.Runs.{run_all-next, run_all-rows, dispatch-state}
use vof_backend.Action.Steps.{
  Handlers, ItemStep, saves, approves, rejects, edits, auto_approves, dispatches, ItemReach,
  no_step, and_then,
}
use vof_backend.Db.{AppDb}
use vof_backend.Db.Models.{ActionItemStatus, approved, rejected, ActionItem, is_approved}
use vof_backend.Decision.Resolve.{is_gated, auto_approve}
use vof_backend.Errors.{Result}
use vof_backend.Prelude.{
  Distinct, Distinct-save_row, Distinct-append, find_row, find_row-key, find_row-save_row,
  find_row-append, All-find_row, Bool-cases, Option-cases, ℕ, ◌≡◌, refl, sym, ◌∙◌, subst, inl, inr,
  Bool, true, false, not, ◌&&◌, Option, none, some, List, [], ◌∷◌, arith,
}

abbrev pub is_finished : ActionItemStatus → Bool
is_finished s = not (is_undecided s) && not (is_approved s)

-- A step keeps the ids apart and leaves the finished rows as they are.
pub record Settles (db db' : AppDb) : Type 0 where
  pub distinct : Distinct item_key db'.action_items
  pub kept :
      (k : ℕ) (i : ActionItem)
      → get_item k db ≡ some i
      → is_finished i.status ≡ true
      → get_item k db' ≡ some i

Settles-refl : (db : AppDb) → Distinct item_key db.action_items → Settles db db
Settles-refl db d = record { distinct = d; kept = λ k i h f. h }

Changed-Settles :
    (db : AppDb) (id : ℕ) (f : ActionItem → ActionItem) (r : Result ActionItem × AppDb)
    → ((i : ActionItem) → (f i).id ≡ i.id)
    → Changed db id f r
    → Distinct item_key db.action_items
    → Settles db r.1
unfolding save_item get_item
Changed-Settles db id f r same (refused_change e o) d = rw o (Settles-refl db d)
Changed-Settles db id f r same (saved_change j h u o) d = rw o (record {
  distinct = Distinct-save_row item_key (f j) db.action_items d;
  kept = λ k i g fin. ground (
    arith,
    find_row-save_row item_key k (f j) db.action_items,
    same j,
    find_row-key item_key id db.action_items j h,
  );
})

find_row-auto_approve :
    (k workspace_id decision_id : ℕ) (items : List ActionItem) (i : ActionItem)
    → find_row item_key k items ≡ some i
    → is_finished i.status ≡ true
    → find_row item_key k (auto_approve workspace_id decision_id items).0 ≡ some i
unfolding auto_approve find_row is_gated
find_row-auto_approve k workspace_id decision_id [] i h f = h
find_row-auto_approve k workspace_id decision_id (j ∷ items) i h f =
    ground (arith, find_row-auto_approve k workspace_id decision_id items i)

none-auto_approve :
    (k workspace_id decision_id : ℕ) (items : List ActionItem)
    → find_row item_key k items ≡ none
    → find_row item_key k (auto_approve workspace_id decision_id items).0 ≡ none
unfolding auto_approve find_row
none-auto_approve k workspace_id decision_id [] h = h
none-auto_approve k workspace_id decision_id (j ∷ items) h =
    ground (arith, none-auto_approve k workspace_id decision_id items)

Distinct-auto_approve :
    (workspace_id decision_id : ℕ) (items : List ActionItem)
    → Distinct item_key items
    → Distinct item_key (auto_approve workspace_id decision_id items).0
unfolding auto_approve
Distinct-auto_approve workspace_id decision_id [] d = tt
Distinct-auto_approve workspace_id decision_id (j ∷ items) d =
    elim (Bool-cases (is_gated workspace_id decision_id j)) [
      | inl g ↦ rw g (
        none-auto_approve j.id workspace_id decision_id items d.0,
        Distinct-auto_approve workspace_id decision_id items d.1,
      )
      | inr g ↦ rw g (
        none-auto_approve j.id workspace_id decision_id items d.0,
        Distinct-auto_approve workspace_id decision_id items d.1,
      )
    ]

write_outcome-Distinct :
    (u : Option HandlerOutcome) (i : ActionItem) (db : AppDb)
    → Distinct item_key db.action_items
    → Distinct item_key (write_outcome i u db).1.action_items
unfolding write_outcome update_handler_outcome save_item
write_outcome-Distinct none i db d = d
write_outcome-Distinct (some o) i db d =
    Distinct-save_row item_key (outcome_row o i) db.action_items d

finished_approved : (s : ActionItemStatus) → is_finished s ≡ true → is_approved s ≡ false
finished_approved s h = ground arith

module _ (h : Handlers) where
  run_all-Distinct :
      (o : Option ℕ) (items : List ActionItem) (db : AppDb)
      → Distinct item_key db.action_items
      → Distinct item_key (run_all h.execute h.clock o items db).1.action_items
  run_all-Distinct o [] db d = unfold run_all in d
  run_all-Distinct o (i ∷ items) db d = rw (run_all-next h.execute h.clock o i items db) (
      run_all-Distinct o items (run_one h.execute h.clock o i db).1
        (unfold run_one in write_outcome-Distinct (item_update h.execute h.clock o i) i db d))

  -- A finished item is not among the listed ones.
  listed-finished :
      (workspace_id k : ℕ) (i : ActionItem) (db : AppDb)
      → Distinct item_key db.action_items
      → get_item k db ≡ some i
      → is_finished i.status ≡ true
      → find_row item_key k (list_approved_with_handler workspace_id 50 db) ≡ none
  unfolding get_item
  listed-finished workspace_id k i db d g f =
      elim (Option-cases (find_row item_key k (list_approved_with_handler workspace_id 50 db))) [
        | inl e ↦ e
        | inr (j, e) ↦
            let same = list_approved-Within workspace_id 50 db d k j e in
            let a =
              All-find_row item_key (λ x. is_approved x.status ≡ true) k
                (list_approved_with_handler workspace_id 50 db)
                (list_approved-approved workspace_id 50 db) e in
            let q : j ≡ i = ground arith in
            let b = subst (λ x. is_approved x.status ≡ true) q a in
            let c = finished_approved i.status f in absurd (cc)
      ]

  dispatch-Settles :
      (workspace_id : ℕ) (db : AppDb)
      → Distinct item_key db.action_items
      → Settles db (dispatch h.execute h.clock h.creds workspace_id db).1
  dispatch-Settles workspace_id db d =
      elim (dispatch-state h.execute h.clock h.creds workspace_id db) [
        | inl e ↦ subst (Settles db) (sym e) (Settles-refl db d)
        | inr e ↦ subst (Settles db) (sym e) (record {
          distinct =
              run_all-Distinct (h.creds workspace_id)
                (list_approved_with_handler workspace_id 50 db) db d;
          kept = λ k i g f.
              let r =
                run_all-rows h.execute h.clock (h.creds workspace_id)
                  (list_approved_with_handler workspace_id 50 db) k db
                  (list_approved-Distinct workspace_id 50 db d)
                  (list_approved-Within workspace_id 50 db d) in
              r.1 ∙ rw (listed-finished workspace_id k i db d g f) g;
        })
      ]

step-Settles :
    (db db' : AppDb) → ItemStep db db' → Distinct item_key db.action_items → Settles db db'
step-Settles db db' (saves new_id now n p f) d =
    unfold create_item new_item get_item in
    record {
      distinct = Distinct-append item_key db.action_items (new_item new_id now n) f d;
      kept = λ k i g fin.
          ground (arith, find_row-append item_key k db.action_items (new_item new_id now n));
    }
step-Settles db db' (approves workspace_id id) d =
    Changed-Settles db id (status_row approved) _ (λ i. refl) (approve-cases workspace_id id db) d
step-Settles db db' (rejects workspace_id id) d =
    Changed-Settles db id (status_row rejected) _ (λ i. refl) (reject-cases workspace_id id db) d
step-Settles db db' (edits workspace_id id b) d =
    Changed-Settles db id (patched b) _ (λ i. unfold patched in refl)
      (edit-cases workspace_id id db b) d
step-Settles db db' (auto_approves workspace_id decision_id) d =
    unfold get_item in
    record {
      distinct = Distinct-auto_approve workspace_id decision_id db.action_items d;
      kept = λ k i g f. find_row-auto_approve k workspace_id decision_id db.action_items i g f;
    }
step-Settles db db' (dispatches h workspace_id) d = dispatch-Settles h workspace_id db d

reach-Settles :
    (db db' : AppDb) → Distinct item_key db.action_items → ItemReach db db' → Settles db db'
reach-Settles db db' d no_step = Settles-refl db d
reach-Settles db db' d (and_then {db' = m} r s) =
    let a = reach-Settles db m d r in
    let b = step-Settles m db' s a.distinct in
    record { distinct = b.distinct; kept = λ k i g f. b.kept k i (a.kept k i g f) f }

-- An item that is done, failed, rejected or waiting for a reconnection is the same row, every column of
-- it, after every sequence of steps, given that the ids of the items are different at first.
pub ItemReach-finished :
    (k : ℕ) (i : ActionItem) (db db' : AppDb)
    → Distinct item_key db.action_items
    → get_item k db ≡ some i
    → is_finished i.status ≡ true
    → ItemReach db db'
    → get_item k db' ≡ some i
ItemReach-finished k i db db' d h f r = (reach-Settles db db' d r).kept k i h f
