-- ===== src/Orchestrator/ScanTests.antt =====
-- An answer with a tool marker that three tokens divide.
use vof_backend.Orchestrator.Reading.{spell, outside, reads}
use vof_backend.Orchestrator.Scanned.{scan_for_tool_calls-reads}
use vof_backend.Orchestrator.ToolDispatch.{
  text, done, find_text, ScanEvent, tool_call, unterminated, parse_marker, marker_event, drain,
  flush, scan_from, scan_for_tool_calls,
}
use vof_backend.Prelude.{◌==◌, if◌then◌else◌, ◌≡◌, refl, Option, none, some, List, [], ◌∷◌}
use vof_backend.Text.{Text, codes, strip, starts_with, find_char, joined}

abbrev object : Text → Option Text
object [] = none
object (c ∷ s) = if c == b'{' then some (c ∷ s) else none

abbrev tokens : List Text
tokens = codes "Hi. <<TO" ∷ codes "OL end_call {}>" ∷ codes "> Bye" ∷ []

scan_for_tool_calls-reads_example :
    (events : List (ScanEvent Text)) × (scan_for_tool_calls object tokens ≡ some events)
    × (spell events ≡ reads object outside 0 (joined tokens))
scan_for_tool_calls-reads_example = scan_for_tool_calls-reads object tokens

end_call_events :
    scan_for_tool_calls object tokens
    ≡ some (
        text (codes "Hi")
        ∷ text (codes ". ")
        ∷ tool_call (record { name = codes "end_call"; args = codes "{}" })
        ∷ text (codes " Bye")
        ∷ done
        ∷ [])
unfolding scan_for_tool_calls scan_from drain find_text starts_with marker_event parse_marker
    find_char strip flush
end_call_events = refl

-- An opened marker at the end of the stream.
open_marker :
    scan_for_tool_calls object (codes "<<TOOL x" ∷ []) ≡ some (unterminated (codes "x") ∷ done ∷ [])
unfolding scan_for_tool_calls scan_from drain find_text starts_with flush
open_marker = refl
