-- ===== src/Decision/Gated.antt =====
-- The action items that wait for a decision, and the brief of missed decisions.
use vof_backend.Db.{AppDb}
use vof_backend.Db.Models.{DecisionRequest, approved, ActionItem}
use vof_backend.Decision.Outcomes.Resolve.{resolve-cases}
use vof_backend.Decision.Resolve.{is_gated, auto_approve, resolve_now}
use vof_backend.Errors.{Error, ok, err}
use vof_backend.Prelude.{
  length, select, if◌then◌else◌, ℕ, ◌≡◌, refl, ap, inl, inr, false, List, [], ◌∷◌, map, arith,
}
use vof_backend.Text.{Text}

approve : ActionItem → ActionItem
approve item = record item { status = approved }

module _ (w i : ℕ) where
  abbrev open_gate : ActionItem → ActionItem
  open_gate item = if is_gated w i item then approve item else item

  auto_approve-eq :
      (items : List ActionItem)
      → auto_approve w i items ≡ (map open_gate items, length (select (is_gated w i) items))
  unfolding auto_approve approve
  auto_approve-eq [] = refl
  auto_approve-eq (x ∷ xs) = ground (arith, auto_approve-eq xs)

  gate_opened : (item : ActionItem) → is_gated w i (open_gate item) ≡ false
  unfolding is_gated approve
  gate_opened item = ground arith

  none_left : (items : List ActionItem) → select (is_gated w i) (map open_gate items) ≡ []
  none_left [] = refl
  none_left (x ∷ xs) = ground (arith, gate_opened x, none_left xs)

  -- When `resolve_now` answers a decision, exactly the pending items of the workspace whose payload
  -- names the decision become approved, every other item stays as it is, the returned count is their
  -- number, and no item waits for the decision any more. When it raises, no item changes.
  pub resolve_now-gated :
      (now user : ℕ) (option : Text) (db : AppDb)
      → let (r, db') = resolve_now now w i user option db in
        ((e : Error) → r ≡ err e → db'.action_items ≡ db.action_items)
        × ((d : DecisionRequest) (n : ℕ)
            → r ≡ ok (d, n)
            → (db'.action_items
                ≡ map
                    (λ item. if is_gated w i item then record item { status = approved } else item)
                    db.action_items)
              × (n ≡ length (select (is_gated w i) db.action_items))
              × (select (is_gated w i) db'.action_items ≡ []))
  unfolding approve
  resolve_now-gated now user option db = elim (resolve-cases now w i user option db) [
    | inl r ↦ rw r.outcome (λ e h. refl, λ d n h. absurd (cc))
    | inr r ↦ rw r.outcome (
      λ e h. absurd (cc),
      λ d n h. (
        ap (λ (x : List ActionItem × ℕ). x.0) (auto_approve-eq db.action_items),
        ground (arith, auto_approve-eq db.action_items),
        rw (auto_approve-eq db.action_items) (none_left db.action_items),
      ),
    )
  ]
