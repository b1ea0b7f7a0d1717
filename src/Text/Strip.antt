-- ===== src/Text/Strip.antt =====
-- What `strip` does to texts put together from parts.
use vof_backend.Prelude.{All, ℕ, ◌≡◌, refl, false, [], ◌∷◌, ◌++◌, arith}
use vof_backend.Text.{Text, is_empty, is_space, lstrip, rstrip, strip}

abbrev pub NoSpace : ℕ → Type 0
NoSpace c = is_space c ≡ false

is_empty_append : (xs ys : Text) → is_empty ys ≡ false → is_empty (xs ++ ys) ≡ false
is_empty_append [] ys h = h
is_empty_append (x ∷ xs) ys h = refl

pub rstrip-append :
    (xs ys : Text) → is_empty (rstrip ys) ≡ false → rstrip (xs ++ ys) ≡ xs ++ rstrip ys
unfolding rstrip
rstrip-append [] ys h = refl
rstrip-append (x ∷ xs) ys h =
    ground (arith, rstrip-append xs ys h, is_empty_append xs (rstrip ys) h)

-- A text without spaces is left alone.
pub rstrip_tight : (xs : Text) → All NoSpace xs → rstrip xs ≡ xs
unfolding rstrip
rstrip_tight [] h = refl
rstrip_tight (x ∷ xs) h = ground (arith, rstrip_tight xs h.1)

pub strip_tight : (xs : Text) → All NoSpace xs → strip xs ≡ xs
unfolding strip
strip_tight [] h = refl
strip_tight (x ∷ xs) h = ground (arith, rstrip_tight (x ∷ xs) h)

-- A first character that is no space, and an end that `rstrip` leaves alone.
pub strip-append :
    (c : ℕ) (xs ys : Text)
    → NoSpace c
    → is_empty ys ≡ false
    → rstrip ys ≡ ys
    → strip (c ∷ (xs ++ ys)) ≡ c ∷ (xs ++ ys)
unfolding strip
strip-append c xs ys h e r = ground (arith, rstrip-append (c ∷ xs) ys)

-- `strip` is idempotent.
pub rstrip-rstrip : (s : Text) → rstrip (rstrip s) ≡ rstrip s
unfolding rstrip
rstrip-rstrip [] = refl
rstrip-rstrip (c ∷ s) = ground (arith, rstrip-rstrip s)

lstrip-rstrip-lstrip : (s : Text) → lstrip (rstrip (lstrip s)) ≡ rstrip (lstrip s)
unfolding lstrip rstrip
lstrip-rstrip-lstrip [] = refl
lstrip-rstrip-lstrip (c ∷ s) = ground (arith, lstrip-rstrip-lstrip s)

pub strip-strip : (s : Text) → strip (strip s) ≡ strip s
unfolding strip
strip-strip s = rw lstrip-rstrip-lstrip (rstrip-rstrip (lstrip s))
