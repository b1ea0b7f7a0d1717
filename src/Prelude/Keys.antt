-- ===== src/Prelude/Keys.antt =====
-- Tables whose rows have different keys, and what selecting, ordering and cutting keep of them.
use Prim.Native.Nat.{ℕ, zero, suc}
use mathlib.Core.Bool.{Bool, true, false}
use mathlib.Core.List.{List, [], ◌∷◌, ◌++◌}
use mathlib.Core.Logic.{inl, inr}
use mathlib.Core.Option.{none, some}
use mathlib.Core.Path.{◌≡◌, refl, ◌∙◌, subst}
use native.Mathlib.Omega.{arith}
use vof_backend.Prelude.Lists.{take, select, find_first, All}
use vof_backend.Prelude.Table.{
  find_row, save_row, find_row-save_row, find_row-append, insert_asc, order_asc,
}
use vof_backend.Prelude.Tests.{ltb, ◌==◌, if◌then◌else◌, Bool-cases, Option-cases}

module _ {ℓ} {A : Type ℓ} (key : A → ℕ) where
  abbrev pub Distinct : List A → Type ℓ
  Distinct [] = Unit
  Distinct (x ∷ xs) = (find_row key (key x) xs ≡ none) × Distinct xs

  -- Every row that a key finds in the first is found in the second.
  abbrev pub Within : List A → List A → Type ℓ
  Within xs ys = (k : ℕ) (a : A) → find_row key k xs ≡ some a → find_row key k ys ≡ some a

  none-Within :
      (xs ys : List A) (k : ℕ) → Within xs ys → find_row key k ys ≡ none → find_row key k xs ≡ none
  none-Within xs ys k w h = elim (Option-cases (find_row key k xs)) [
    | inl e ↦ e
    | inr (a, e) ↦ (let f = w k a e in absurd (cc))
  ]

  pub take-Within : (n : ℕ) (xs : List A) → Within (take n xs) xs
  unfolding find_row
  take-Within zero xs k a h = absurd (cc)
  take-Within (suc n) [] k a h = h
  take-Within (suc n) (x ∷ xs) k a h = ground (arith, take-Within n xs k a)

  pub Distinct-take : (n : ℕ) (xs : List A) → Distinct xs → Distinct (take n xs)
  Distinct-take zero xs d = tt
  Distinct-take (suc n) [] d = tt
  Distinct-take (suc n) (x ∷ xs) d =
      (none-Within (take n xs) xs (key x) (take-Within n xs) d.0, Distinct-take n xs d.1)

  find_row-select_fresh :
      (p : A → Bool) (k : ℕ) (xs : List A)
      → find_row key k xs ≡ none
      → find_row key k (select p xs) ≡ none
  unfolding find_row
  find_row-select_fresh p k [] h = refl
  find_row-select_fresh p k (x ∷ xs) h = ground (arith, find_row-select_fresh p k xs)

  pub select-Within : (p : A → Bool) (xs : List A) → Distinct xs → Within (select p xs) xs
  unfolding find_row
  select-Within p [] d k a h = h
  select-Within p (x ∷ xs) d k a h =
      ground (arith, select-Within p xs d.1 k a, find_row-select_fresh p (key x) xs d.0)

  pub Distinct-select : (p : A → Bool) (xs : List A) → Distinct xs → Distinct (select p xs)
  Distinct-select p [] d = tt
  Distinct-select p (x ∷ xs) d = elim (Bool-cases (p x)) [
    | inl e ↦ rw e (find_row-select_fresh p (key x) xs d.0, Distinct-select p xs d.1)
    | inr e ↦ rw e (Distinct-select p xs d.1)
  ]

  pub Distinct-save_row : (a : A) (xs : List A) → Distinct xs → Distinct (save_row key a xs)
  unfolding save_row
  Distinct-save_row a [] d = tt
  Distinct-save_row a (x ∷ xs) d = elim (Bool-cases (key x == key a)) [
    | inl e ↦ rw e (ground (arith, d.0), d.1)
    | inr e ↦
        rw e (ground (arith, d.0, find_row-save_row key (key x) a xs), Distinct-save_row a xs d.1)
  ]

  pub Distinct-append :
      (xs : List A) (a : A)
      → find_row key (key a) xs ≡ none
      → Distinct xs
      → Distinct (xs ++ (a ∷ []))
  unfolding find_row
  Distinct-append [] a h d = (refl, tt)
  Distinct-append (x ∷ xs) a h d = (
    ground (arith, d.0, find_row-append key (key x) xs a),
    Distinct-append xs a (ground arith) d.1,
  )

  pub find_first-row :
      (p : A → Bool) (a : A) (xs : List A)
      → Distinct xs
      → find_first p xs ≡ some a
      → find_row key (key a) xs ≡ some a
  unfolding find_row
  find_first-row p a [] d h = absurd (cc)
  find_first-row p a (x ∷ xs) d h = ground (arith, d.0, find_first-row p a xs d.1)

  -- The save of a row that a test found, whose new value passes the test.
  pub find_first-save_row :
      (p : A → Bool) (a a' : A) (xs : List A)
      → key a' ≡ key a
      → p a' ≡ true
      → Distinct xs
      → find_first p xs ≡ some a
      → find_first p (save_row key a' xs) ≡ some a'
  unfolding save_row find_row
  find_first-save_row p a a' [] k t d h = absurd (cc)
  find_first-save_row p a a' (x ∷ xs) k t d h =
      ground (arith, d.0, find_first-row p a xs d.1, find_first-save_row p a a' xs k t d.1)

  -- The save of a row where no row passed the test before.
  pub find_first-save_new :
      (p : A → Bool) (a a' : A) (xs : List A)
      → p a' ≡ true
      → find_first p xs ≡ none
      → find_row key (key a') xs ≡ some a
      → find_first p (save_row key a' xs) ≡ some a'
  unfolding save_row find_row
  find_first-save_new p a a' [] t n h = absurd (cc)
  find_first-save_new p a a' (x ∷ xs) t n h = ground (arith, find_first-save_new p a a' xs)

  All-found_later :
      (x : A) (xs ys : List A)
      → find_row key (key x) xs ≡ none
      → All (λ a. find_row key (key a) xs ≡ some a) ys
      → All (λ a. find_row key (key a) (x ∷ xs) ≡ some a) ys
  unfolding find_row
  All-found_later x xs [] h all = tt
  All-found_later x xs (y ∷ ys) h all = (ground (arith, all.0), All-found_later x xs ys h all.1)

  -- Every row is the one that its key finds.
  pub All-found : (xs : List A) → Distinct xs → All (λ a. find_row key (key a) xs ≡ some a) xs
  All-found [] d = tt
  All-found (x ∷ xs) d =
      (unfold find_row in ground arith, All-found_later x xs xs d.0 (All-found xs d.1))

  pub find_first-append :
      (p : A → Bool) (a : A) (xs : List A)
      → find_first p xs ≡ none
      → p a ≡ true
      → find_first p (xs ++ (a ∷ [])) ≡ some a
  find_first-append p a [] h t = rw t refl
  find_first-append p a (x ∷ xs) h t = ground (arith, find_first-append p a xs)

  pub save_row-same :
      (a : A) (xs : List A) → find_row key (key a) xs ≡ some a → save_row key a xs ≡ xs
  unfolding save_row find_row
  save_row-same a [] h = refl
  save_row-same a (x ∷ xs) h = ground (arith, save_row-same a xs)

  module _ (value : A → ℕ) where
    find_row-insert_asc :
        (k : ℕ) (a : A) (xs : List A)
        → find_row key (key a) xs ≡ none
        → find_row key k (insert_asc value a xs)
          ≡ (if key a == k then some a else find_row key k xs)
    unfolding insert_asc find_row
    find_row-insert_asc k a [] h = ground arith
    find_row-insert_asc k a (x ∷ xs) h = ground (arith, find_row-insert_asc k a xs)

    fresh_tail :
        (k : ℕ) (x : A) (xs : List A)
        → find_row key k (x ∷ xs) ≡ none
        → ((k == key x) ≡ false) × (find_row key k xs ≡ none)
    unfolding find_row
    fresh_tail k x xs h = ground arith

    Distinct-insert_asc :
        (a : A) (xs : List A)
        → find_row key (key a) xs ≡ none
        → Distinct xs
        → Distinct (insert_asc value a xs)
    unfolding insert_asc
    Distinct-insert_asc a [] h d = (h, tt)
    Distinct-insert_asc a (x ∷ xs) h d =
        let f = fresh_tail (key a) x xs h in
        elim (Bool-cases (ltb (value x) (value a))) [
          | inl e ↦ rw e (
            ground (arith, find_row-insert_asc (key x) a xs f.1),
            Distinct-insert_asc a xs f.1 d.1,
          )
          | inr e ↦ rw e (h, d)
        ]

    pub find_row-order_asc :
        (k : ℕ) (xs : List A)
        → Distinct xs
        → find_row key k (order_asc value xs) ≡ find_row key k xs
    unfolding order_asc find_row
    find_row-order_asc k [] d = refl
    find_row-order_asc k (x ∷ xs) d = ground (
      arith,
      find_row-order_asc k xs d.1,
      find_row-order_asc (key x) xs d.1,
      find_row-insert_asc k x (order_asc value xs),
    )

    pub Distinct-order_asc : (xs : List A) → Distinct xs → Distinct (order_asc value xs)
    unfolding order_asc
    Distinct-order_asc [] d = tt
    Distinct-order_asc (x ∷ xs) d =
        Distinct-insert_asc x (order_asc value xs) (find_row-order_asc (key x) xs d.1 ∙ d.0)
          (Distinct-order_asc xs d.1)

pub All-find_first {ℓ κ} :
    {A : Type ℓ} (P : A → Type κ) (p : A → Bool) (xs : List A) (a : A)
    → All P xs
    → find_first p xs ≡ some a
    → P a
All-find_first P p [] a h e = absurd (cc)
All-find_first P p (x ∷ xs) a h e = elim (Bool-cases (p x)) [
  | inl t ↦ (let q : x ≡ a = ground arith in subst P q h.0)
  | inr t ↦ All-find_first P p xs a h.1 (ground arith)
]

pub find_first-test {ℓ} :
    {A : Type ℓ} (p : A → Bool) (xs : List A) (a : A) → find_first p xs ≡ some a → p a ≡ true
find_first-test p [] a h = absurd (cc)
find_first-test p (x ∷ xs) a h = ground (arith, find_first-test p xs a)
