-- ===== src/Orchestrator/ToolDispatch.antt =====
-- `scan_for_tool_calls` and `_parse_marker` of app/orchestrator/tool_dispatch.py with the markers of
-- app/orchestrator/tools/base.py, on a stream of tokens that ends or raises. `json_object` is `json.loads` where it
-- gives a dict, and none where it raises or gives anything else.
use vof_backend.Prelude.{
  length, take, drop, if◌then◌else◌, ℕ, zero, suc, ◌+◌, ◌-◌, Bool, true, false, Option, none, some,
  List, [], ◌∷◌, ◌++◌,
}
use vof_backend.Text.{Text, codes, is_empty, strip, starts_with, find_char}

abbrev pub marker_open : Text
marker_open = codes "<<TOOL "

abbrev pub marker_close : Text
marker_close = codes ">>"

-- `buffer.find(needle)`, with `none` for -1
unfoldable pub find_text : (needle : Text) → Text → Option ℕ
find_text needle [] = if is_empty needle then some 0 else none
find_text needle (c ∷ s) =
    let rest = find_text needle s in
    if starts_with (c ∷ s) needle then some 0 else elim rest [ none ↦ none | some i ↦ some (suc i) ]

pub record ToolCall (Args : Type 0) : Type 0 where
  pub name : Text
  pub args : Args

-- The errors are a malformed marker and one that is not closed, with the start of the raw text.
pub data ScanEvent (Args : Type 0) : Type 0 where
  text : Text → ScanEvent Args
  tool_call : ToolCall Args → ScanEvent Args
  malformed : Text → ScanEvent Args
  unterminated : Text → ScanEvent Args
  done : ScanEvent Args

-- The position of the loop between two tokens.
pub record Scanner : Type 0 where
  pub in_marker : Bool
  pub buffer : Text

abbrev pub new_scanner : Scanner
new_scanner = record { in_marker = false; buffer = [] }

-- What the buffer gives when no marker opens in it: all but the last six characters.
abbrev pub safe_length : Text → ℕ
safe_length buffer = length buffer - 6

module _ {Args : Type 0} where
  abbrev pub spoken : Text → List (ScanEvent Args)
  spoken [] = []
  spoken (c ∷ s) = text (c ∷ s) ∷ []

module _ {Args : Type 0} (json_object : Text → Option Args) where
  unfoldable pub parse_marker : Text → Option (ToolCall Args)
  parse_marker raw = elim (find_char b' ' raw) [
    | none ↦ none
    | some zero ↦ none
    | some (suc i) ↦ elim (json_object (strip (drop (suc (suc i)) raw))) [
      | none ↦ none
      | some args ↦ some (record { name = strip (take (suc i) raw); args = args })
    ]
  ]

  unfoldable pub marker_event : Text → ScanEvent Args
  marker_event raw = elim (parse_marker raw) [
    | none ↦ malformed (take 80 raw)
    | some call ↦ tool_call call
  ]

  -- The inner loop, which a round leaves with a shorter buffer or ends.
  unfoldable pub drain : (fuel : ℕ) → Scanner → Option (List (ScanEvent Args) × Scanner)
  drain zero s = none
  drain (suc fuel) s = elim s.in_marker [
    | false ↦ elim (find_text marker_open s.buffer) [
      | none ↦ some (
        spoken (take (safe_length s.buffer) s.buffer),
        record { in_marker = false; buffer = drop (safe_length s.buffer) s.buffer },
      )
      | some idx ↦
          elim (drain fuel (record { in_marker = true; buffer = drop (idx + 7) s.buffer })) [
            | none ↦ none
            | some (events, s') ↦ some (spoken (take idx s.buffer) ++ events, s')
          ]
    ]
    | true ↦ elim (find_text marker_close s.buffer) [
      | none ↦ some ([], s)
      | some close ↦
          elim (drain fuel (record { in_marker = false; buffer = drop (close + 2) s.buffer })) [
            | none ↦ none
            | some (events, s') ↦ some (marker_event (strip (take close s.buffer)) ∷ events, s')
          ]
    ]
  ]

  -- The end of the stream.
  unfoldable pub flush : Scanner → List (ScanEvent Args)
  flush s = elim s.in_marker [
    | false ↦ spoken s.buffer ++ (done ∷ [])
    | true ↦ unterminated (take 80 s.buffer) ∷ done ∷ []
  ]

  -- The loop over the tokens, with fuel for each inner loop by its buffer.
  unfoldable pub scan_from : Scanner → List Text → Option (List (ScanEvent Args))
  scan_from s [] = some (flush s)
  scan_from s (token ∷ tokens) =
      elim (drain (suc (length (s.buffer ++ token))) (record s { buffer = s.buffer ++ token })) [
        | none ↦ none
        | some (events, s') ↦ elim (scan_from s' tokens) [
          | none ↦ none
          | some rest ↦ some (events ++ rest)
        ]
      ]

  -- The events of the tokens before the stream raises, which passes through.
  unfoldable pub scan_received : Scanner → List Text → Option (List (ScanEvent Args))
  scan_received s [] = some []
  scan_received s (token ∷ tokens) =
      elim (drain (suc (length (s.buffer ++ token))) (record s { buffer = s.buffer ++ token })) [
        | none ↦ none
        | some (events, s') ↦ elim (scan_received s' tokens) [
          | none ↦ none
          | some rest ↦ some (events ++ rest)
        ]
      ]

  unfoldable pub scan_for_tool_calls : List Text → Option (List (ScanEvent Args))
  scan_for_tool_calls tokens = scan_from new_scanner tokens
