-- ===== src/Prelude/Table.antt =====
-- A database table: its rows in the order of insertion, found by their primary key.
use Prim.Native.Nat.{ℕ}
use mathlib.Core.List.{List, [], ◌∷◌, ◌++◌, map, Memᴰ}
use mathlib.Core.Logic.{inl, inr}
use mathlib.Core.Option.{Option, none, some}
use mathlib.Core.Path.{◌≡◌, refl, sym, subst}
use native.Mathlib.Omega.{arith}
use vof_backend.Prelude.Lists.{All}
use vof_backend.Prelude.Tests.{ltb, ◌==◌, if◌then◌else◌, Bool-cases, is_some, or_else}

module _ {ℓ} {A : Type ℓ} (key : A → ℕ) where
  -- `session.get(Model, k)`, or `select … where id == k`
  unfoldable pub find_row : ℕ → List A → Option A
  find_row k [] = none
  find_row k (x ∷ xs) = let rest = find_row k xs in if key x == k then some x else rest

  -- The flush of a row object whose fields were assigned.
  unfoldable pub save_row : A → List A → List A
  save_row a [] = []
  save_row a (x ∷ xs) = let rest = save_row a xs in if key x == key a then a ∷ xs else x ∷ rest

  pub find_row-key : (k : ℕ) (xs : List A) (a : A) → find_row k xs ≡ some a → key a ≡ k
  unfolding find_row
  find_row-key k [] a h = cc
  find_row-key k (x ∷ xs) a h = ground (arith, find_row-key k xs a)

  -- After a save, the key of the row finds it if it found a row before, and no other key changes.
  pub find_row-save_row :
      (k : ℕ) (a : A) (xs : List A)
      → find_row k (save_row a xs)
        ≡ (if key a == k then (if is_some (find_row k xs) then some a else none) else find_row k xs)
  unfolding find_row save_row
  find_row-save_row k a [] = ground arith
  find_row-save_row k a (x ∷ xs) = ground (arith, find_row-save_row k a xs)

  -- A save keeps the keys and their order.
  pub map-save_row : (a : A) (xs : List A) → map key (save_row a xs) ≡ map key xs
  unfolding save_row
  map-save_row a [] = refl
  map-save_row a (x ∷ xs) = ground (arith, map-save_row a xs)

  pub find_row-append :
      (k : ℕ) (xs : List A) (a : A)
      → find_row k (xs ++ (a ∷ [])) ≡ or_else (find_row k xs) (if key a == k then some a else none)
  unfolding find_row
  find_row-append k [] a = ground arith
  find_row-append k (x ∷ xs) a = ground (arith, find_row-append k xs a)

  module _ {κ} (P : A → Type κ) where
    pub All-save_row : (a : A) (xs : List A) → P a → All P xs → All P (save_row a xs)
    unfolding save_row
    All-save_row a [] p h = tt
    All-save_row a (x ∷ xs) p h = elim (Bool-cases (key x == key a)) [
      | inl e ↦ rw e (p, h.1)
      | inr e ↦ rw e (h.0, All-save_row a xs p h.1)
    ]

    pub All-find_row : (k : ℕ) (xs : List A) {a : A} → All P xs → find_row k xs ≡ some a → P a
    unfolding find_row
    All-find_row k [] h e = absurd (cc)
    All-find_row k (x ∷ xs) {a} h e = elim (Bool-cases (key x == k)) [
      | inl t ↦ (let q : x ≡ a = ground arith in subst P q h.0)
      | inr f ↦ All-find_row k xs h.1 (ground arith)
    ]

-- `order by … desc`; rows with equal values keep their order.
module _ {ℓ} {A : Type ℓ} (value : A → ℕ) where
  unfoldable pub insert_desc : A → List A → List A
  insert_desc a [] = a ∷ []
  insert_desc a (x ∷ xs) =
      let rest = insert_desc a xs in if ltb (value x) (value a) then a ∷ (x ∷ xs) else x ∷ rest

  unfoldable pub order_desc : List A → List A
  unfolding insert_desc
  order_desc [] = []
  order_desc (x ∷ xs) = insert_desc x (order_desc xs)

  Memᴰ-insert_new : (a : A) (xs : List A) → Memᴰ a (insert_desc a xs)
  unfolding insert_desc
  Memᴰ-insert_new a [] = Memᴰ.head refl
  Memᴰ-insert_new a (y ∷ ys) = elim (Bool-cases (ltb (value y) (value a))) [
    | inl k ↦ rw k (Memᴰ.head refl)
    | inr k ↦ rw k (Memᴰ.tail (Memᴰ-insert_new a ys))
  ]

  Memᴰ-insert_old : (a x : A) (xs : List A) → Memᴰ x xs → Memᴰ x (insert_desc a xs)
  unfolding insert_desc
  Memᴰ-insert_old a x [] m = elim m [ ]
  Memᴰ-insert_old a x (y ∷ ys) (Memᴰ.head e) = elim (Bool-cases (ltb (value y) (value a))) [
    | inl k ↦ rw k (Memᴰ.tail (Memᴰ.head e))
    | inr k ↦ rw k (Memᴰ.head e)
  ]
  Memᴰ-insert_old a x (y ∷ ys) (Memᴰ.tail m) = elim (Bool-cases (ltb (value y) (value a))) [
    | inl k ↦ rw k (Memᴰ.tail (Memᴰ.tail m))
    | inr k ↦ rw k (Memᴰ.tail (Memᴰ-insert_old a x ys m))
  ]

  pub Memᴰ-order_desc : (x : A) (xs : List A) → Memᴰ x xs → Memᴰ x (order_desc xs)
  unfolding order_desc
  Memᴰ-order_desc x [] m = elim m [ ]
  Memᴰ-order_desc x (y ∷ ys) (Memᴰ.head e) =
      subst (λ z. Memᴰ z (insert_desc y (order_desc ys))) (sym e)
        (Memᴰ-insert_new y (order_desc ys))
  Memᴰ-order_desc x (y ∷ ys) (Memᴰ.tail m) =
      Memᴰ-insert_old y x (order_desc ys) (Memᴰ-order_desc x ys m)

  module _ {κ} (P : A → Type κ) where
    All-insert_desc : (a : A) (xs : List A) → P a → All P xs → All P (insert_desc a xs)
    unfolding insert_desc
    All-insert_desc a [] p h = (p, tt)
    All-insert_desc a (y ∷ ys) p h = elim (Bool-cases (ltb (value y) (value a))) [
      | inl k ↦ rw k (p, h)
      | inr k ↦ rw k (h.0, All-insert_desc a ys p h.1)
    ]

    pub All-order_desc : (xs : List A) → All P xs → All P (order_desc xs)
    unfolding order_desc
    All-order_desc [] h = tt
    All-order_desc (x ∷ xs) h = All-insert_desc x (order_desc xs) h.0 (All-order_desc xs h.1)

-- `order by … asc`, in the same way
module _ {ℓ} {A : Type ℓ} (value : A → ℕ) where
  unfoldable pub insert_asc : A → List A → List A
  insert_asc a [] = a ∷ []
  insert_asc a (x ∷ xs) =
      let rest = insert_asc a xs in if ltb (value x) (value a) then x ∷ rest else a ∷ (x ∷ xs)

  unfoldable pub order_asc : List A → List A
  unfolding insert_asc
  order_asc [] = []
  order_asc (x ∷ xs) = insert_asc x (order_asc xs)

  module _ {κ} (P : A → Type κ) where
    All-insert_asc : (a : A) (xs : List A) → P a → All P xs → All P (insert_asc a xs)
    unfolding insert_asc
    All-insert_asc a [] p h = (p, tt)
    All-insert_asc a (y ∷ ys) p h = elim (Bool-cases (ltb (value y) (value a))) [
      | inl k ↦ rw k (h.0, All-insert_asc a ys p h.1)
      | inr k ↦ rw k (p, h)
    ]

    pub All-order_asc : (xs : List A) → All P xs → All P (order_asc xs)
    unfolding order_asc
    All-order_asc [] h = tt
    All-order_asc (x ∷ xs) h = All-insert_asc x (order_asc xs) h.0 (All-order_asc xs h.1)

-- A row that an id finds stands in the table.
pub Memᴰ-find_row {ℓ} :
    {A : Type ℓ} (key : A → ℕ) (k : ℕ) (xs : List A) (a : A)
    → find_row key k xs ≡ some a
    → Memᴰ a xs
unfolding find_row
Memᴰ-find_row key k [] a h = absurd (cc)
Memᴰ-find_row key k (x ∷ xs) a h = elim (Bool-cases (key x == k)) [
  | inl e ↦ Memᴰ.head (ground arith)
  | inr e ↦ Memᴰ.tail (Memᴰ-find_row key k xs a (ground arith))
]
