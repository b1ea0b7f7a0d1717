-- ===== src/Action/Listed.antt =====
-- The items that the dispatcher lists, and the row that it writes.
use vof_backend.Action.Dispatch.{write_outcome}
use vof_backend.Action.Repo.{
  item_key, item_created, get_item, save_item, HandlerOutcome, outcome_row, update_handler_outcome,
  is_ready, list_approved_with_handler,
}
use vof_backend.Db.{AppDb}
use vof_backend.Db.Models.{ActionItem, is_approved}
use vof_backend.Errors.{ok}
use vof_backend.Prelude.{
  Distinct, Within, take-Within, Distinct-take, select-Within, Distinct-select, find_row-order_asc,
  Distinct-order_asc, select, All, All-weaken, All-take, All-select, All-kept, find_row-save_row,
  All-save_row, order_asc, All-order_asc, ◌==◌, if◌then◌else◌, ℕ, ◌≡◌, refl, sym, ◌∙◌, true, Option,
  none, some, arith,
}

pub list_approved-Within :
    (workspace_id limit : ℕ) (db : AppDb)
    → Distinct item_key db.action_items
    → Within item_key (list_approved_with_handler workspace_id limit db) db.action_items
unfolding list_approved_with_handler
list_approved-Within workspace_id limit db d k i h =
    let ready = select (is_ready workspace_id) db.action_items in
    let dr = Distinct-select item_key (is_ready workspace_id) db.action_items d in
    select-Within item_key (is_ready workspace_id) db.action_items d k i (
      sym (find_row-order_asc item_key item_created k ready dr)
      ∙ take-Within item_key limit (order_asc item_created ready) k i h)

pub list_approved-Distinct :
    (workspace_id limit : ℕ) (db : AppDb)
    → Distinct item_key db.action_items
    → Distinct item_key (list_approved_with_handler workspace_id limit db)
unfolding list_approved_with_handler
list_approved-Distinct workspace_id limit db d = Distinct-take item_key limit _ (
    Distinct-order_asc item_key item_created (select (is_ready workspace_id) db.action_items)
      (Distinct-select item_key (is_ready workspace_id) db.action_items d))

pub list_approved-All {κ} :
    (P : ActionItem → Type κ) (workspace_id limit : ℕ) (db : AppDb)
    → All P db.action_items
    → All P (list_approved_with_handler workspace_id limit db)
unfolding list_approved_with_handler
list_approved-All P workspace_id limit db all = All-take P limit _ (
    All-order_asc item_created P (select (is_ready workspace_id) db.action_items)
      (All-select P (is_ready workspace_id) db.action_items all))

pub list_approved-approved :
    (workspace_id limit : ℕ) (db : AppDb)
    → All (λ i. is_approved i.status ≡ true) (list_approved_with_handler workspace_id limit db)
unfolding list_approved_with_handler
list_approved-approved workspace_id limit db =
    All-weaken (λ i. is_ready workspace_id i ≡ true) (λ i. is_approved i.status ≡ true) _
      (λ i h. ground arith)
      (All-take (λ i. is_ready workspace_id i ≡ true) limit _
        (All-order_asc item_created (λ i. is_ready workspace_id i ≡ true)
          (select (is_ready workspace_id) db.action_items)
          (All-kept (is_ready workspace_id) db.action_items)))

-- The row that is left where an outcome is written, or none is.
abbrev pub updated_row : Option HandlerOutcome → ActionItem → ActionItem
updated_row none i = i
updated_row (some o) i = outcome_row o i

pub write_outcome-rows :
    (u : Option HandlerOutcome) (i : ActionItem) (k : ℕ) (db : AppDb)
    → get_item i.id db ≡ some i
    → ((write_outcome i u db).0 ≡ ok tt)
      × (get_item k (write_outcome i u db).1
          ≡ (if i.id == k then some (updated_row u i) else get_item k db))
unfolding write_outcome get_item update_handler_outcome save_item outcome_row
write_outcome-rows none i k db h = (refl, ground arith)
write_outcome-rows (some o) i k db h =
    (refl, ground (arith, find_row-save_row item_key k (outcome_row o i) db.action_items))

pub write_outcome-ok :
    (u : Option HandlerOutcome) (i : ActionItem) (db : AppDb) → (write_outcome i u db).0 ≡ ok tt
unfolding write_outcome update_handler_outcome save_item
write_outcome-ok none i db = refl
write_outcome-ok (some o) i db = refl

pub write_outcome-All {κ} :
    (P : ActionItem → Type κ) (u : Option HandlerOutcome) (i : ActionItem) (db : AppDb)
    → P (updated_row u i)
    → All P db.action_items
    → All P (write_outcome i u db).1.action_items
unfolding write_outcome update_handler_outcome save_item
write_outcome-All P none i db p all = all
write_outcome-All P (some o) i db p all =
    All-save_row item_key P (outcome_row o i) db.action_items p all
