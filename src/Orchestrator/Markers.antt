-- ===== src/Orchestrator/Markers.antt =====
-- Where a marker stands in a text, and what more text after it changes.
use vof_backend.Orchestrator.ToolDispatch.{find_text}
use vof_backend.Prelude.{
  length, ℕ, zero, suc, ◌+◌, ◌≤◌, ◌<◌, ◌≡◌, refl, true, false, none, some, [], ◌∷◌, ◌++◌, arith,
}
use vof_backend.Text.{Text, starts_with}

pub starts_with-append : (s r n : Text) → starts_with s n ≡ true → starts_with (s ++ r) n ≡ true
unfolding starts_with
starts_with-append s r [] h = refl
starts_with-append [] r (p ∷ ps) h = cc
starts_with-append (c ∷ s) r (p ∷ ps) h = ground (arith, starts_with-append s r ps)

-- A text as long as the marker does not come to start with it.
pub starts_with-append_false :
    (s r n : Text) → length n ≤ length s → starts_with s n ≡ false → starts_with (s ++ r) n ≡ false
unfolding starts_with
starts_with-append_false s r [] l h = absurd (cc)
starts_with-append_false [] r (p ∷ ps) l h = absurd (omega arith)
starts_with-append_false (c ∷ s) r (p ∷ ps) l h = ground (arith, starts_with-append_false s r ps)

pub starts_with-length : (s n : Text) → starts_with s n ≡ true → length n ≤ length s
unfolding starts_with
starts_with-length s [] h = omega arith
starts_with-length [] (p ∷ ps) h = absurd (cc)
starts_with-length (c ∷ s) (p ∷ ps) h = ground (arith, starts_with-length s ps)

-- The marker that is found lies in the text.
pub find_text-length : (n s : Text) (i : ℕ) → find_text n s ≡ some i → i + length n ≤ length s
unfolding find_text
find_text-length [] [] i h = ground arith
find_text-length (p ∷ ps) [] i h = absurd (cc)
find_text-length n (c ∷ s) zero h = ground (arith, starts_with-length (c ∷ s) n)
find_text-length n (c ∷ s) (suc i) h =
    ground (arith, starts_with-length (c ∷ s) n, find_text-length n s i)

pub find_text_short : (n s : Text) → length s < length n → find_text n s ≡ none
unfolding find_text
find_text_short [] [] h = absurd (omega arith)
find_text_short (p ∷ ps) [] h = refl
find_text_short n (c ∷ s) h = ground (arith, starts_with-length (c ∷ s) n, find_text_short n s)

-- What a search says of the first character and of the others.
pub find_text-none :
    (n s : Text) (c : ℕ)
    → find_text n (c ∷ s) ≡ none
    → (starts_with (c ∷ s) n ≡ false) × (find_text n s ≡ none)
unfolding find_text
find_text-none n s c h = ground arith

pub find_text-zero :
    (n s : Text) (c : ℕ) → find_text n (c ∷ s) ≡ some 0 → starts_with (c ∷ s) n ≡ true
unfolding find_text
find_text-zero n s c h = ground arith

pub find_text-suc :
    (n s : Text) (c i : ℕ)
    → find_text n (c ∷ s) ≡ some (suc i)
    → (starts_with (c ∷ s) n ≡ false) × (find_text n s ≡ some i)
unfolding find_text
find_text-suc n s c i h = ground arith
