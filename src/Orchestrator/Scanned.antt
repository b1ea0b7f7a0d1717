-- ===== src/Orchestrator/Scanned.antt =====
-- The scanner reads an answer as the reference does, wherever the tokens divide it.
use mathlib.Core.List.{append_assoc, append-nil}
use vof_backend.Orchestrator.Markers.{find_text-length}
use vof_backend.Orchestrator.Reading.{Sign, char, signs, spell, Mode, outside, inside, reads}
use vof_backend.Orchestrator.ReadingLaws.{
  reads-safe, reads-opened, reads-closed, reads-cut, reads-rest,
}
use vof_backend.Orchestrator.ToolDispatch.{
  done, marker_open, marker_close, find_text, ScanEvent, Scanner, new_scanner, safe_length, spoken,
  marker_event, drain, flush, scan_from, scan_received, scan_for_tool_calls,
}
use vof_backend.Prelude.{
  length, take, drop, length-drop, Option-cases, ℕ, zero, suc, ◌+◌, ◌≤◌, ◌<◌, ◌≡◌, refl, sym, ap,
  ◌∙◌, inl, inr, Bool, true, false, Option, none, some, List, [], ◌∷◌, ◌++◌, map, arith,
}
use vof_backend.Text.{Text, strip, joined}

abbrev mode : Bool → Mode
mode false = outside
mode true = inside []

-- A scanner that waits for more text: the marker that it looks for is not in the buffer.
abbrev IsDrained : Scanner → Type 0
IsDrained s =
    (s.in_marker ≡ false → length s.buffer ≤ 6)
    × (s.in_marker ≡ true → find_text marker_close s.buffer ≡ none)

module _ {Args : Type 0} where
  spell-append : (es fs : List (ScanEvent Args)) → spell (es ++ fs) ≡ spell es ++ spell fs
  spell-append [] fs = refl
  spell-append (e ∷ es) fs =
      ap (λ l. signs e ++ l) (spell-append es fs)
      ∙ sym (append_assoc (signs e) (spell es) (spell fs))

  spell-spoken : (t : Text) → spell {Args = Args} (spoken t) ≡ map char t
  spell-spoken [] = refl
  spell-spoken (c ∷ t) = append-nil (map char (c ∷ t))

module _ {Args : Type 0} (json_object : Text → Option Args) where
  abbrev reads_from : Scanner → Text → List (Sign Args)
  reads_from s r = reads json_object (mode s.in_marker) 0 (s.buffer ++ r)

  -- What the inner loop returns: its events are what the reference reads before the rest.
  record Drains (s : Scanner) (r : Option (List (ScanEvent Args) × Scanner)) : Type 0 where
    events : List (ScanEvent Args)
    after : Scanner
    returned : r ≡ some (events, after)
    drained : IsDrained after
    spelled : (rest : Text) → reads_from s rest ≡ spell events ++ reads_from after rest

  drain-Drains :
      (fuel : ℕ) (m : Bool) (b : Text)
      → length b < fuel
      → Drains
          (record { in_marker = m; buffer = b })
          (drain json_object fuel (record { in_marker = m; buffer = b }))
  unfolding drain
  drain-Drains zero m b h = absurd (omega arith)
  drain-Drains (suc fuel) false b h = elim (Option-cases (find_text marker_open b)) [
    | inl e ↦
        let n = safe_length b in
        record {
          events = spoken (take n b);
          after = record { in_marker = false; buffer = drop n b };
          returned = rw (e, drain) refl;
          drained = (λ _. omega (arith, length-drop {0} n b), λ x. cc);
          spelled = λ rest. rw (spell-spoken (take n b)) (reads-safe json_object b rest e);
        }
    | inr (i, e) ↦
        let b' = drop (i + 7) b in
        let found = find_text-length marker_open b i e in
        let d = drain-Drains fuel true b' (omega (arith, length-drop {0} (i + 7) b)) in
        record {
          events = spoken (take i b) ++ d.events;
          after = d.after;
          returned = rw (e, drain, d.returned) refl;
          drained = d.drained;
          spelled = λ rest.
              reads-opened json_object b rest i e
              ∙ rw
                  (
                    spell-append (spoken (take i b)) d.events,
                    spell-spoken (take i b),
                    append_assoc,
                    d.spelled rest,
                  )
                  refl;
        }
  ]
  drain-Drains (suc fuel) true b h = elim (Option-cases (find_text marker_close b)) [
    | inl e ↦ record {
      events = [];
      after = record { in_marker = true; buffer = b };
      returned = rw (e, drain) refl;
      drained = (λ x. cc, λ _. e);
      spelled = λ rest. refl;
    }
    | inr (i, e) ↦
        let b' = drop (i + 2) b in
        let found = find_text-length marker_close b i e in
        let d = drain-Drains fuel false b' (omega (arith, length-drop {0} (i + 2) b)) in
        record {
          events = marker_event json_object (strip (take i b)) ∷ d.events;
          after = d.after;
          returned = rw (e, drain, d.returned) refl;
          drained = d.drained;
          spelled = λ rest.
              reads-closed json_object [] b rest i e ∙ rw (append_assoc, d.spelled rest) refl;
        }
  ]

  -- The end of the stream.
  flush-reads :
      (m : Bool) (b : Text)
      → IsDrained (record { in_marker = m; buffer = b })
      → spell (flush json_object (record { in_marker = m; buffer = b }))
        ≡ reads_from (record { in_marker = m; buffer = b }) []
  unfolding flush
  flush-reads false b d =
      rw (append-nil, spell-append (spoken b) (done ∷ []), spell-spoken b)
        (sym (reads-rest json_object b (d.0 refl)))
  flush-reads true b d = rw (append-nil b) (sym (reads-cut json_object [] b (d.1 refl)))

  scan_from-reads :
      (s : Scanner) (tokens : List Text)
      → IsDrained s
      → (events : List (ScanEvent Args)) × (scan_from json_object s tokens ≡ some events)
        × (spell events ≡ reads_from s (joined tokens))
  unfolding scan_from
  scan_from-reads s [] d = (flush json_object s, refl, flush-reads s.in_marker s.buffer d)
  scan_from-reads s (t ∷ ts) d =
      let b = s.buffer ++ t in
      let r = drain-Drains (suc (length b)) s.in_marker b (omega arith) in
      let (rest, returned, read) = scan_from-reads r.after ts r.drained in
      (
        r.events ++ rest,
        rw (scan_from, r.returned, returned) refl,
        rw (spell-append r.events rest, read, ← append_assoc s.buffer t (joined ts))
            (sym (r.spelled (joined ts))),
      )

  -- What was read of a stream that raises is the start of what the reference reads in its tokens.
  scan_received_from :
      (s : Scanner) (tokens : List Text)
      → IsDrained s
      → (events : List (ScanEvent Args)) × (unread : List (Sign Args)) × (scan_received json_object
            s tokens
          ≡ some events)
        × (spell events ++ unread ≡ reads_from s (joined tokens))
  unfolding scan_received
  scan_received_from s [] d = ([], reads_from s [], refl, refl)
  scan_received_from s (t ∷ ts) d =
      let b = s.buffer ++ t in
      let r = drain-Drains (suc (length b)) s.in_marker b (omega arith) in
      let (rest, unread, returned, read) = scan_received_from r.after ts r.drained in
      (
        r.events ++ rest,
        unread,
        rw (scan_received, r.returned, returned) refl,
        rw (spell-append r.events rest, append_assoc, read, ← append_assoc s.buffer t (joined ts))
            (sym (r.spelled (joined ts))),
      )

  pub scan_received-reads :
      (tokens : List Text)
      → (events : List (ScanEvent Args)) × (unread : List (Sign Args)) × (scan_received json_object
            new_scanner tokens
          ≡ some events)
        × (spell events ++ unread ≡ reads json_object outside 0 (joined tokens))
  scan_received-reads tokens = scan_received_from new_scanner tokens (λ _. omega arith, λ x. cc)

-- The scanner comes to an end on every stream of tokens, and the characters that it passes on, its tool
-- calls and its errors are, in their order, what the reference reads in the whole answer: they do not
-- depend on where the tokens divide it, also where that is within a marker.
pub scan_for_tool_calls-reads :
    {Args : Type 0} (json_object : Text → Option Args) (tokens : List Text)
    → (events : List (ScanEvent Args)) × (scan_for_tool_calls json_object tokens ≡ some events)
      × (spell events ≡ reads json_object outside 0 (joined tokens))
unfolding scan_for_tool_calls
scan_for_tool_calls-reads json_object tokens =
    scan_from-reads json_object (record { in_marker = false; buffer = [] }) tokens
      (λ _. omega arith, λ x. cc)
