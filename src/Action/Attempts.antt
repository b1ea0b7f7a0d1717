-- ===== src/Action/Attempts.antt =====
-- How often the handler of an item is run.
use vof_backend.Action.Approval.{is_undecided, patched}
use vof_backend.Action.Approvals.{
  Changed, refused_change, saved_change, approve-cases, reject-cases, edit-cases,
}
use vof_backend.Action.Counted.{
  IsCounted, approved-IsCounted, rejected-IsCounted, patched-IsCounted, updated-IsCounted,
  no_credentials-IsCounted,
}
use vof_backend.Action.Dispatch.{
  HandlerResult, failure, handler_update, item_update, run_one, run_all, dispatch,
}
use vof_backend.Action.Listed.{
  list_approved-All, list_approved-approved, updated_row, write_outcome-All,
}
use vof_backend.Action.Repo.{
  item_key, get_item, save_item, new_item, create_item, status_row, HandlerOutcome,
  list_approved_with_handler,
}
use vof_backend.Action.Runs.{run_row, run_all-next, dispatch-state}
use vof_backend.Action.Steps.{
  ItemStep, saves, approves, rejects, edits, auto_approves, dispatches, ItemReach, no_step,
  and_then,
}
use vof_backend.Db.{AppDb}
use vof_backend.Db.Models.{
  approved, needs_reconnect, rejected, ActionItemHandler, ActionItem, is_approved, has_handler,
}
use vof_backend.Decision.Resolve.{is_gated, auto_approve}
use vof_backend.Errors.{Result}
use vof_backend.Prelude.{
  All, All-append, All-save_row, All-find_row, Bool-cases, ℕ, ◌≡◌, refl, sym, subst, inl, inr, true,
  Option, none, some, List, [], ◌∷◌, arith,
}
use vof_backend.Text.{codes}

abbrev Counted : AppDb → Type 0
Counted db = All IsCounted db.action_items

save_item-Counted :
    (i : ActionItem) (db : AppDb) → IsCounted i → Counted db → Counted (save_item i db).1
unfolding save_item
save_item-Counted i db c all = All-save_row item_key IsCounted i db.action_items c all

module _ (execute : ActionItemHandler → ℕ → ActionItem → HandlerResult)
    (clock : ActionItem → ℕ) where
  run_row-IsCounted :
      (o : Option ℕ) (i : ActionItem)
      → is_approved i.status ≡ true
      → IsCounted i
      → IsCounted (run_row execute clock o i)
  unfolding item_update
  run_row-IsCounted o i a c = elim (Bool-cases (has_handler i.handler)) [
    | inr h ↦ rw h c
    | inl h ↦
        rw h
          (elim o
            as (λ x. IsCounted (
              updated_row
                (elim x as (λ _. Option HandlerOutcome) [
                  | none ↦ some (failure needs_reconnect (clock i) (codes "no_oauth_credentials") i)
                  | some user ↦ some (handler_update (execute i.handler user i) (clock i) i)
                ])
                i)) [
                  | none ↦ no_credentials-IsCounted (clock i) (codes "no_oauth_credentials") i a c
                  | some user ↦ updated-IsCounted (execute i.handler user i) (clock i) i a c
                ])
  ]

  run_one-Counted :
      (o : Option ℕ) (i : ActionItem) (db : AppDb)
      → is_approved i.status ≡ true
      → IsCounted i
      → Counted db
      → Counted (run_one execute clock o i db).1
  unfolding run_one
  run_one-Counted o i db a c all =
      write_outcome-All IsCounted (item_update execute clock o i) i db (run_row-IsCounted o i a c)
        all

  run_all-Counted :
      (o : Option ℕ) (items : List ActionItem) (db : AppDb)
      → All (λ i. is_approved i.status ≡ true) items
      → All IsCounted items
      → Counted db
      → Counted (run_all execute clock o items db).1
  unfolding run_all
  run_all-Counted o [] db a c all = all
  run_all-Counted o (i ∷ items) db a c all =
      subst (λ x. Counted x.1) (sym (run_all-next execute clock o i items db))
        (run_all-Counted o items (run_one execute clock o i db).1 a.1 c.1
          (run_one-Counted o i db a.0 c.0 all))

  dispatch-Counted :
      (creds : ℕ → Option ℕ) (workspace_id : ℕ) (db : AppDb)
      → Counted db
      → Counted (dispatch execute clock creds workspace_id db).1
  dispatch-Counted creds workspace_id db all =
      elim (dispatch-state execute clock creds workspace_id db) [
        | inl h ↦ subst Counted (sym h) all
        | inr h ↦ subst Counted (sym h) (
            run_all-Counted (creds workspace_id) (list_approved_with_handler workspace_id 50 db) db
              (list_approved-approved workspace_id 50 db)
              (list_approved-All IsCounted workspace_id 50 db all) all)
      ]

auto_approve-Counted :
    (workspace_id decision_id : ℕ) (items : List ActionItem)
    → All IsCounted items
    → All IsCounted (auto_approve workspace_id decision_id items).0
unfolding auto_approve is_gated
auto_approve-Counted workspace_id decision_id [] all = tt
auto_approve-Counted workspace_id decision_id (i ∷ items) all =
    elim (Bool-cases (is_gated workspace_id decision_id i)) [
      | inl g ↦ rw g (
        approved-IsCounted i (ground arith) all.0,
        auto_approve-Counted workspace_id decision_id items all.1,
      )
      | inr g ↦ rw g (all.0, auto_approve-Counted workspace_id decision_id items all.1)
    ]

Changed-Counted :
    (db : AppDb) (id : ℕ) (f : ActionItem → ActionItem) (r : Result ActionItem × AppDb)
    → ((i : ActionItem) → is_undecided i.status ≡ true → IsCounted i → IsCounted (f i))
    → Changed db id f r
    → Counted db
    → Counted r.1
Changed-Counted db id f r keep (refused_change e o) all = rw o all
Changed-Counted db id f r keep (saved_change i h u o) all = rw o (
    save_item-Counted (f i) db
      (keep i u (unfold get_item in All-find_row item_key IsCounted id db.action_items all h)) all)

step-Counted : (db db' : AppDb) → ItemStep db db' → Counted db → Counted db'
step-Counted db db' (saves new_id now n p f) all =
    unfold create_item new_item in
    All-append IsCounted db.action_items (new_item new_id now n ∷ []) all
      (record { not_run = λ e. refl; may_run = λ e. omega arith; bounded = omega arith }, tt)
step-Counted db db' (approves workspace_id id) all =
    Changed-Counted db id (status_row approved) _ approved-IsCounted
      (approve-cases workspace_id id db) all
step-Counted db db' (rejects workspace_id id) all =
    Changed-Counted db id (status_row rejected) _ rejected-IsCounted
      (reject-cases workspace_id id db) all
step-Counted db db' (edits workspace_id id b) all =
    Changed-Counted db id (patched b) _ (patched-IsCounted b) (edit-cases workspace_id id db b) all
step-Counted db db' (auto_approves workspace_id decision_id) all =
    auto_approve-Counted workspace_id decision_id db.action_items all
step-Counted db db' (dispatches h workspace_id) all =
    dispatch-Counted h.execute h.clock h.creds workspace_id db all

-- From a database without action items, every sequence of steps leaves each item counted: an undecided
-- item was never run, an approved one fewer than three times, and none more than three times.
pub ItemReach-IsCounted :
    (db db' : AppDb) → db.action_items ≡ [] → ItemReach db db' → All IsCounted db'.action_items
ItemReach-IsCounted db db' e no_step = rw e tt
ItemReach-IsCounted db db' e (and_then {db' = m} r s) =
    step-Counted m db' s (ItemReach-IsCounted db m e r)
