-- ===== src/Decision/Reply.antt =====
-- The prefix that the Manager's message carries is read back from the reply.
use mathlib.Core.List.{append_assoc}
use vof_backend.Decision.Service.{short_id}
use vof_backend.Decision.Sms.{reply_parts, parse_stripped, parse_reply}
use vof_backend.Prelude.{
  length, take, drop, All, All-take, take-append, drop-append, drop-drop, length-take, length-map,
  ◌==◌, ℕ, suc, ◌+◌, ◌-◌, ◌≡◌, refl, ap, ◌∙◌, subst, false, some, [], ◌∷◌, ◌++◌, map, arith,
}
use vof_backend.Text.{
  Text, codes, is_empty, is_space, lstrip, rstrip, strip, find_char, IsHex, ascii_upper, CaseMap,
}
use vof_backend.Text.Hex.{hex_text, hex_text-IsHex, upper_of_IsHex, length-hex_text}
use vof_backend.Text.Strip.{NoSpace, strip_tight, strip-append, rstrip-rstrip}

-- The characters of a short id: no space, no bracket, and unchanged by `upper`.
pub record IsTag (x : ℕ) : Type 0 where
  pub hex : IsHex x
  pub tight : NoSpace x
  pub not_close : (x == b']') ≡ false
  pub is_upper : ascii_upper x ≡ x

All-map-upper : (s : Text) → All IsHex s → All IsTag (map ascii_upper s)
All-map-upper [] h = tt
All-map-upper (x ∷ s) h =
    let (a, b, d, e) = upper_of_IsHex x h.0 in
    (record { hex = a; tight = b; not_close = d; is_upper = e }, All-map-upper s h.1)

upper_tag : (s : Text) → All IsTag s → map ascii_upper s ≡ s
upper_tag [] h = refl
upper_tag (x ∷ s) h = cc (h.0.is_upper, upper_tag s h.1)

tags-IsHex : (s : Text) → All IsTag s → All IsHex s
tags-IsHex [] h = tt
tags-IsHex (x ∷ s) h = (h.0.hex, tags-IsHex s h.1)

tags_tight : (s : Text) → All IsTag s → All NoSpace s
tags_tight [] h = tt
tags_tight (x ∷ s) h = (h.0.tight, tags_tight s h.1)

find_close : (s rest : Text) → All IsTag s → find_char b']' (s ++ (b']' ∷ rest)) ≡ some (length s)
unfolding find_char
find_close [] rest h = refl
find_close (x ∷ s) rest h = ground (arith, h.0.not_close, find_close s rest h.1)

module _ (c : CaseMap) (i : ℕ) where
  six : Text
  six = take 6 (hex_text 32 i)

  six-IsHex : All IsHex six
  unfolding six
  six-IsHex = All-take IsHex 6 (hex_text 32 i) (hex_text-IsHex 32 i)

  short_id-tags : All IsTag (short_id c i)
  unfolding short_id six
  short_id-tags = rw (c.upper_hex six six-IsHex) (All-map-upper six six-IsHex)

  length-short_id : length (short_id c i) ≡ 6
  unfolding short_id six
  length-short_id = rw (c.upper_hex six six-IsHex) (
      omega (
        arith,
        length-map ascii_upper (take 6 (hex_text 32 i)),
        length-take 6 (hex_text 32 i),
        length-hex_text 32 i,
      ))

  short_id_upper : c.upper (short_id c i) ≡ short_id c i
  short_id_upper =
      c.upper_hex (short_id c i) (tags-IsHex (short_id c i) short_id-tags)
      ∙ upper_tag (short_id c i) short_id-tags

not_empty_of_length : (s : Text) → length s ≡ 6 → is_empty s ≡ false
not_empty_of_length [] h = absurd (omega arith)
not_empty_of_length (x ∷ s) h = refl

module _ (c : CaseMap) (s rest : Text) (tags : All IsTag s) (same : c.upper s ≡ s)
    (full : is_empty s ≡ false) (said : is_empty rest ≡ false) (tight : strip rest ≡ rest) where
  abbrev body : Text
  body = codes "[DR-" ++ (s ++ (codes "] " ++ rest))

  rest_tight : rstrip rest ≡ rest
  unfolding strip
  rest_tight = subst (λ r. rstrip r ≡ r) tight (rstrip-rstrip (lstrip rest))

  strip_space : strip (32 ∷ rest) ≡ strip rest
  unfolding strip is_space
  strip_space = refl

  strip-body : strip body ≡ body
  unfolding is_space
  strip-body =
      subst (λ l. strip (91 ∷ l) ≡ 91 ∷ l)
        (ap (λ l. 68 ∷ (82 ∷ (45 ∷ l))) (append_assoc s (93 ∷ (32 ∷ [])) rest))
        (strip-append 91 (68 ∷ (82 ∷ (45 ∷ (s ++ (93 ∷ (32 ∷ [])))))) rest refl said rest_tight)

  find_char-body : find_char b']' body ≡ some (suc (suc (suc (suc (length s)))))
  unfolding find_char
  find_char-body = rw (find_close s (32 ∷ rest) tags)

  parts : reply_parts c body (suc (suc (suc (suc (length s))))) ≡ some (s, rest)
  unfolding reply_parts
  parts =
      let at : suc (suc (suc (suc (length s)))) - 4 ≡ length s = omega arith in
      let after : drop (suc (suc (suc (suc (length s)))) + 1) body ≡ 32 ∷ rest =
        rw (← drop-drop 1 (suc (suc (suc (suc (length s))))) body)
          (rw (drop-append s (b']' ∷ (32 ∷ rest)))) in
      rw
        (
          at,
          take-append s (b']' ∷ (32 ∷ rest)),
          strip_tight s (tags_tight s tags),
          same,
          after,
          strip_space,
          tight,
        )
        (rw (full, said))

  parse_stripped-tag : parse_stripped c body ≡ some (s, rest)
  unfolding parse_stripped
  parse_stripped-tag = rw (find_char-body, parse_stripped) parts

  parse_reply-tag : parse_reply c body ≡ some (s, rest)
  unfolding parse_reply
  parse_reply-tag = rw (strip-body) parse_stripped-tag

-- A reply of the form `[DR-XXXXXX] <answer>`, with the short id as the message to the Manager gives it,
-- is read as that id and that answer, if the answer is not empty and has no space at its ends.
pub parse_reply-short_id :
    (c : CaseMap) (i : ℕ) (rest : Text)
    → is_empty rest ≡ false
    → strip rest ≡ rest
    → parse_reply c (codes "[DR-" ++ (short_id c i ++ (codes "] " ++ rest)))
      ≡ some (short_id c i, rest)
parse_reply-short_id c i rest e s =
    parse_reply-tag c (short_id c i) rest (short_id-tags c i) (short_id_upper c i)
      (not_empty_of_length (short_id c i) (length-short_id c i)) e s
