-- ===== src/Action/Deduped.antt =====
-- Which candidates are kept.
use vof_backend.Action.Extract.{ActionItemCandidate, dedupe_key, dedupe_from, dedupe}
use vof_backend.Prelude.{
  Bool-cases, ◌≡◌, inl, inr, true, false, not, ◌&&◌, List, [], ◌∷◌, map, arith,
}
use vof_backend.Text.{Text, text_eq_iff, text_eq_refl, contains, CaseMap}

skip_key :
    (k x : Text) (seen keys rest : List Text)
    → contains x seen ≡ true
    → contains k rest ≡ (not (contains k seen) && contains k keys)
    → contains k rest ≡ (not (contains k seen) && contains k (x ∷ keys))
unfolding contains
skip_key k x seen keys rest e h = ground (arith, text_eq_iff k x)

keep_key :
    (k x : Text) (seen keys rest : List Text)
    → contains x seen ≡ false
    → contains k rest ≡ (not (contains k (x ∷ seen)) && contains k keys)
    → contains k (x ∷ rest) ≡ (not (contains k seen) && contains k (x ∷ keys))
unfolding contains
keep_key k x seen keys rest e h = ground (arith, text_eq_iff k x)

fresh_key :
    (x : Text) (seen keys rest : List Text)
    → contains x rest ≡ (not (contains x (x ∷ seen)) && contains x keys)
    → contains x rest ≡ false
unfolding contains
fresh_key x seen keys rest h = ground (arith, text_eq_refl x)

module _ (c : CaseMap) where
  abbrev pub keys_of : List ActionItemCandidate → List Text
  keys_of items = map (dedupe_key c) items

  abbrev pub NoRepeat : List ActionItemCandidate → Type 0
  NoRepeat [] = Unit
  NoRepeat (x ∷ xs) = (contains (dedupe_key c x) (keys_of xs) ≡ false) × NoRepeat xs

  skipped :
      (seen : List Text) (it : ActionItemCandidate) (items : List ActionItemCandidate)
      → contains (dedupe_key c it) seen ≡ true
      → dedupe_from c seen (it ∷ items) ≡ dedupe_from c seen items
  unfolding dedupe_from
  skipped seen it items h = ground arith

  kept :
      (seen : List Text) (it : ActionItemCandidate) (items : List ActionItemCandidate)
      → contains (dedupe_key c it) seen ≡ false
      → dedupe_from c seen (it ∷ items) ≡ it ∷ dedupe_from c (dedupe_key c it ∷ seen) items
  unfolding dedupe_from
  kept seen it items h = ground arith

  -- A key is kept exactly where it is among the items and was not seen before.
  kept_keys :
      (k : Text) (seen : List Text) (items : List ActionItemCandidate)
      → contains k (keys_of (dedupe_from c seen items))
        ≡ (not (contains k seen) && contains k (keys_of items))
  kept_keys k seen [] = unfold dedupe_from contains in ground arith
  kept_keys k seen (it ∷ items) = elim (Bool-cases (contains (dedupe_key c it) seen)) [
    | inl e ↦
        rw (skipped seen it items e)
          (skip_key k (dedupe_key c it) seen (keys_of items) _ e (kept_keys k seen items))
    | inr e ↦ rw (kept seen it items e) (
        keep_key k (dedupe_key c it) seen (keys_of items) _ e
          (kept_keys k (dedupe_key c it ∷ seen) items))
  ]

  dedupe_from-NoRepeat :
      (seen : List Text) (items : List ActionItemCandidate) → NoRepeat (dedupe_from c seen items)
  dedupe_from-NoRepeat seen [] = unfold dedupe_from in tt
  dedupe_from-NoRepeat seen (it ∷ items) = elim (Bool-cases (contains (dedupe_key c it) seen)) [
    | inl e ↦ rw (skipped seen it items e) (dedupe_from-NoRepeat seen items)
    | inr e ↦ rw (kept seen it items e) (
      fresh_key (dedupe_key c it) seen (keys_of items) _
          (kept_keys (dedupe_key c it) (dedupe_key c it ∷ seen) items),
      dedupe_from-NoRepeat (dedupe_key c it ∷ seen) items,
    )
  ]

  -- The kept candidates have different keys, and every key of the candidates is the key of one that is
  -- kept.
  pub dedupe-NoRepeat :
      (items : List ActionItemCandidate)
      → NoRepeat (dedupe c items)
        × ((k : Text) → contains k (keys_of (dedupe c items)) ≡ contains k (keys_of items))
  unfolding dedupe
  dedupe-NoRepeat items =
      (dedupe_from-NoRepeat [] items, λ k. unfold contains in kept_keys k [] items)
