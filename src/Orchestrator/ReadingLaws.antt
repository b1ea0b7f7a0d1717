-- ===== src/Orchestrator/ReadingLaws.antt =====
-- How the reference reads a text that a search of a marker has divided.
use mathlib.Core.List.{append_assoc, append-nil}
use vof_backend.Orchestrator.Markers.{
  starts_with-append, starts_with-append_false, find_text-length, find_text_short, find_text-none,
  find_text-zero, find_text-suc,
}
use vof_backend.Orchestrator.Reading.{char, cut, over, signs, Mode, outside, inside, reads}
use vof_backend.Orchestrator.ToolDispatch.{
  marker_open, marker_close, find_text, safe_length, marker_event,
}
use vof_backend.Prelude.{
  length, take, drop, leb, Bool-cases, ℕ, zero, suc, ◌+◌, ◌≤◌, ◌≡◌, refl, ap, ◌∙◌, inl, inr, true,
  false, Option, none, some, [], ◌∷◌, ◌++◌, map, arith,
}
use vof_backend.Text.{Text, strip, starts_with}

drop-append_le : (k : ℕ) (s r : Text) → k ≤ length s → drop k (s ++ r) ≡ drop k s ++ r
drop-append_le zero s r h = refl
drop-append_le (suc k) [] r h = absurd (omega arith)
drop-append_le (suc k) (c ∷ s) r h = drop-append_le k s r (omega arith)

module _ {Args : Type 0} (json_object : Text → Option Args) where
  reads-skip :
      (m : Mode) (k : ℕ) (s : Text) → reads json_object m k s ≡ reads json_object m 0 (drop k s)
  unfolding reads
  reads-skip m zero s = refl
  reads-skip outside (suc k) [] = refl
  reads-skip (inside t) (suc k) [] = refl
  reads-skip outside (suc k) (c ∷ s) = reads-skip outside k s
  reads-skip (inside t) (suc k) (c ∷ s) = reads-skip (inside t) k s

  reads-char :
      (c : ℕ) (s : Text)
      → starts_with (c ∷ s) marker_open ≡ false
      → reads json_object outside 0 (c ∷ s) ≡ char c ∷ reads json_object outside 0 s
  unfolding reads
  reads-char c s h = rw (h, reads) refl

  reads-open :
      (c : ℕ) (s : Text)
      → starts_with (c ∷ s) marker_open ≡ true
      → reads json_object outside 0 (c ∷ s) ≡ reads json_object (inside []) 0 (drop 6 s)
  unfolding reads
  reads-open c s h = rw (h, reads) (reads-skip (inside []) 6 s)

  reads-kept :
      (t : Text) (c : ℕ) (s : Text)
      → starts_with (c ∷ s) marker_close ≡ false
      → reads json_object (inside t) 0 (c ∷ s) ≡ reads json_object (inside (t ++ (c ∷ []))) 0 s
  unfolding reads
  reads-kept t c s h = rw (h, reads) refl

  reads-close :
      (t : Text) (c : ℕ) (s : Text)
      → starts_with (c ∷ s) marker_close ≡ true
      → reads json_object (inside t) 0 (c ∷ s)
        ≡ signs (marker_event json_object (strip t)) ++ reads json_object outside 0 (drop 1 s)
  unfolding reads
  reads-close t c s h =
      rw (h, reads)
        (ap (λ l. signs (marker_event json_object (strip t)) ++ l) (reads-skip outside 1 s))

  -- Outside a marker, where none opens.
  pub reads-safe :
      (s r : Text)
      → find_text marker_open s ≡ none
      → reads json_object outside 0 (s ++ r)
        ≡ map char (take (safe_length s) s)
          ++ reads json_object outside 0 (drop (safe_length s) s ++ r)
  reads-safe [] r h = refl
  reads-safe (c ∷ s) r h =
      let (first, rest) = find_text-none marker_open s c h in
      elim (Bool-cases (leb (length s) 5)) [
        | inl e ↦ let short : safe_length (c ∷ s) ≡ 0 = ground arith in rw short refl
        | inr e ↦
            let long : safe_length (c ∷ s) ≡ suc (safe_length s) = ground arith in
            rw long (
              reads-char c (s ++ r)
                (starts_with-append_false (c ∷ s) r marker_open (ground arith) first)
              ∙ ap (λ l. char c ∷ l) (reads-safe s r rest))
      ]

  pub reads-opened :
      (s r : Text) (i : ℕ)
      → find_text marker_open s ≡ some i
      → reads json_object outside 0 (s ++ r)
        ≡ map char (take i s) ++ reads json_object (inside []) 0 (drop (i + 7) s ++ r)
  unfolding find_text
  reads-opened [] r i h = absurd (cc)
  reads-opened (c ∷ s) r zero h =
      let long = find_text-length marker_open (c ∷ s) 0 h in
      reads-open c (s ++ r)
        (starts_with-append (c ∷ s) r marker_open (find_text-zero marker_open s c h))
      ∙ ap (λ l. reads json_object (inside []) 0 l) (drop-append_le 6 s r (omega arith))
  reads-opened (c ∷ s) r (suc i) h =
      let (first, rest) = find_text-suc marker_open s c i h in
      let long = find_text-length marker_open s i rest in
      let e : suc i + 7 ≡ suc (i + 7) = omega arith in
      rw e (
        reads-char c (s ++ r) (starts_with-append_false (c ∷ s) r marker_open (omega arith) first)
        ∙ ap (λ l. char c ∷ l) (reads-opened s r i rest))

  pub reads-closed :
      (t s r : Text) (i : ℕ)
      → find_text marker_close s ≡ some i
      → reads json_object (inside t) 0 (s ++ r)
        ≡ signs (marker_event json_object (strip (t ++ take i s)))
          ++ reads json_object outside 0 (drop (i + 2) s ++ r)
  unfolding find_text
  reads-closed t [] r i h = absurd (cc)
  reads-closed t (c ∷ s) r zero h =
      let long = find_text-length marker_close (c ∷ s) 0 h in
      rw append-nil (
        reads-close t c (s ++ r)
          (starts_with-append (c ∷ s) r marker_close (find_text-zero marker_close s c h))
        ∙ ap (λ l. signs (marker_event json_object (strip t)) ++ reads json_object outside 0 l)
            (drop-append_le 1 s r (omega arith)))
  reads-closed t (c ∷ s) r (suc i) h =
      let (first, rest) = find_text-suc marker_close s c i h in
      let long = find_text-length marker_close s i rest in
      let e : suc i + 2 ≡ suc (i + 2) = omega arith in
      rw (e, ← append_assoc t (c ∷ []) (take i s))
        (reads-kept t c (s ++ r)
            (starts_with-append_false (c ∷ s) r marker_close (omega arith) first)
          ∙ reads-closed (t ++ (c ∷ [])) s r i rest)

  pub reads-cut :
      (t s : Text)
      → find_text marker_close s ≡ none
      → reads json_object (inside t) 0 s ≡ cut (take 80 (t ++ s)) ∷ over ∷ []
  unfolding reads
  reads-cut t [] h = rw (append-nil, reads) refl
  reads-cut t (c ∷ s) h =
      let (first, rest) = find_text-none marker_close s c h in
      rw (← append_assoc t (c ∷ []) s) (reads-kept t c s first ∙ reads-cut (t ++ (c ∷ [])) s rest)

  pub reads-rest :
      (s : Text) → length s ≤ 6 → reads json_object outside 0 s ≡ map char s ++ (over ∷ [])
  unfolding reads
  reads-rest [] h = refl
  reads-rest (c ∷ s) h =
      let none_opens = find_text_short marker_open (c ∷ s) (omega arith) in
      reads-char c s (find_text-none marker_open s c none_opens).0
      ∙ ap (λ l. char c ∷ l) (reads-rest s (omega arith))
