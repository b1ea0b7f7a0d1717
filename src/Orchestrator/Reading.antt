-- ===== src/Orchestrator/Reading.antt =====
-- How an answer with tool markers is read, one character after the other and with no regard to tokens.
use vof_backend.Orchestrator.ToolDispatch.{
  text, done, marker_open, marker_close, ToolCall, ScanEvent, tool_call, malformed, unterminated,
  marker_event,
}
use vof_backend.Prelude.{take, ℕ, zero, suc, true, false, Option, List, [], ◌∷◌, ◌++◌, map}
use vof_backend.Text.{Text, strip, starts_with}

-- What the listener gets: characters, calls and errors.
pub data Sign (Args : Type 0) : Type 0 where
  char : ℕ → Sign Args
  invoked : ToolCall Args → Sign Args
  fault : Text → Sign Args
  cut : Text → Sign Args
  over : Sign Args

module _ {Args : Type 0} where
  -- The signs of an event: a text is its characters, however the events divide it.
  abbrev pub signs : ScanEvent Args → List (Sign Args)
  signs (text t) = map char t
  signs (tool_call c) = invoked c ∷ []
  signs (malformed t) = fault t ∷ []
  signs (unterminated t) = cut t ∷ []
  signs done = over ∷ []

  abbrev pub spell : List (ScanEvent Args) → List (Sign Args)
  spell [] = []
  spell (e ∷ es) = signs e ++ spell es

-- Outside a marker, or inside one after its text so far.
pub data Mode : Type 0 where
  outside : Mode
  inside : Text → Mode

module _ {Args : Type 0} (json_object : Text → Option Args) where
  -- The characters of a marker that was recognised at its first one are skipped.
  unfoldable pub reads : Mode → (skip : ℕ) → Text → List (Sign Args)
  reads outside k [] = over ∷ []
  reads (inside t) k [] = cut (take 80 t) ∷ over ∷ []
  reads m (suc k) (c ∷ s) = reads m k s
  reads outside zero (c ∷ s) = elim (starts_with (c ∷ s) marker_open) [
    | true ↦ reads (inside []) 6 s
    | false ↦ char c ∷ reads outside 0 s
  ]
  reads (inside t) zero (c ∷ s) = elim (starts_with (c ∷ s) marker_close) [
    | true ↦ signs (marker_event json_object (strip t)) ++ reads outside 1 s
    | false ↦ reads (inside (t ++ (c ∷ []))) 0 s
  ]
