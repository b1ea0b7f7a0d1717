-- ===== src/Exec.antt =====
-- A method that reads and writes a state and may raise: the state comes back beside the result, also
-- after a raise, since what was committed stays.
use vof_backend.Errors.{Error, Result, ok, err}
use vof_backend.Prelude.{◌≡◌, refl, ap, Bool, true, false, Option, none, some, arith}

abbrev pub Exec {ℓ} : Type ℓ → Type ℓ → Type ℓ
Exec S A = S → Result A × S

module _ {ℓ} {S A : Type ℓ} where
  abbrev pub pure : A → Exec S A
  pure a s = (ok a, s)

  abbrev pub raise : Error → Exec S A
  raise e s = (err e, s)

  abbrev pub lift : Result A → Exec S A
  lift r s = (r, s)

  abbrev pub gets : (S → A) → Exec S A
  gets f s = (ok (f s), s)

  -- `None` where the code raises for it
  abbrev pub or_raise : Option A → Error → Exec S A
  or_raise none e = raise e
  or_raise (some a) e = pure a

  -- A session that is left without `commit`: its writes are rolled back.
  abbrev pub transact : Exec S A → Exec S A
  transact m s = let (r, s') = m s in elim r [ ok a ↦ (ok a, s') | err e ↦ (err e, s) ]

module _ {ℓ} {S A B : Type ℓ} where
  infixl 10 ◌>>=◌
  abbrev pub ◌>>=◌ : Exec S A → (A → Exec S B) → Exec S B
  ◌>>=◌ m f s = let (r, s') = m s in elim r [ ok a ↦ f a s' | err e ↦ (err e, s') ]

module _ {ℓ} {S B : Type ℓ} where
  infixl 10 ◌>>◌
  abbrev pub ◌>>◌ : Exec S Unit → Exec S B → Exec S B
  m >> k = m >>= λ _. k

module _ {ℓ} {S : Type ℓ} where
  abbrev pub modify : (S → S) → Exec S Unit
  modify f s = (ok tt, f s)

  abbrev pub raise_if : Bool → Error → Exec S Unit
  raise_if true e = raise e
  raise_if false e = pure tt

-- Mapping the result of an action leaves its state alone.
module _ {ℓ} {S A B : Type ℓ} (f : A → B) where
  pub map_state : (m : Exec S A) (s : S) → ((m >>= λ a. pure (f a)) s).1 ≡ (m s).1
  map_state m s =
      elim (m s).0
        as (λ r.
          (elim r as (λ x. Result B × S) [ ok a ↦ pure (f a) (m s).1 | err e ↦ (err e, (m s).1) ]).1
          ≡ (m s).1) [ ok a ↦ refl | err e ↦ refl ]

  pub map_result :
      (m : Exec S A) (s : S) (a : A) → (m s).0 ≡ ok a → ((m >>= λ x. pure (f x)) s).0 ≡ ok (f a)
  map_result m s a h = ground arith

-- After an action that returns, the next one goes on from its state.
pub then_ok {ℓ} :
    {S B : Type ℓ} (m : Exec S Unit) (k : Exec S B) (s : S)
    → (m s).0 ≡ ok tt
    → (m >> k) s ≡ k (m s).1
then_ok m k s h = ground arith

-- The two parts of a bind that returns.
pub >>=-eq-ok {ℓ} :
    {S A B : Type ℓ} (m : Exec S A) (f : A → Exec S B) (s s2 : S) (b : B)
    → (m >>= f) s ≡ (ok b, s2)
    → (a : A) × (m s ≡ (ok a, (m s).1)) × (f a (m s).1 ≡ (ok b, s2))
>>=-eq-ok {S = S} {A = A} {B = B} m f s s2 b h = bound (m s).0 (m s).1 refl h
  where
    bound :
        (r : Result A) (s1 : S)
        → m s ≡ (r, s1)
        → elim r as (λ x. Result B × S) [ ok a ↦ f a s1 | err e ↦ (err e, s1) ] ≡ (ok b, s2)
        → (a : A) × (m s ≡ (ok a, s1)) × (f a s1 ≡ (ok b, s2))
    bound (ok a) s1 e k = (a, e, k)
    bound (err x) s1 e k = absurd (cc)

pub >>=-ok {ℓ} :
    {S A B : Type ℓ} (m : Exec S A) (f : A → Exec S B) (s s1 : S) (a : A)
    → m s ≡ (ok a, s1)
    → (m >>= f) s ≡ f a s1
>>=-ok {S = S} {A = A} {B = B} m f s s1 a h =
    ap
      (λ (x : Result A × S). elim x.0 as (λ _. Result B × S) [
        | ok b ↦ f b x.1
        | err e ↦ (err e, x.1)
      ])
      h

pub >>=-err {ℓ} :
    {S A B : Type ℓ} (m : Exec S A) (f : A → Exec S B) (s s1 : S) (e : Error)
    → m s ≡ (err e, s1)
    → (m >>= f) s ≡ (err e, s1)
>>=-err {S = S} {A = A} {B = B} m f s s1 e h =
    ap
      (λ (x : Result A × S). elim x.0 as (λ _. Result B × S) [
        | ok b ↦ f b x.1
        | err d ↦ (err d, x.1)
      ])
      h
