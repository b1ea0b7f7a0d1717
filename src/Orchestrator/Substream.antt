-- ===== src/Orchestrator/Substream.antt =====
-- The answer of a turn: `_text_substream` of app/orchestrator/turn_loop.py with the tools of
-- app/orchestrator/tools/base.py. A tool is the argument `dispatch` on the database; one that raises
-- leaves what it has committed.
use vof_backend.Db.{AppDb}
use vof_backend.Errors.{Error, ok, err}
use vof_backend.Exec.{Exec}
use vof_backend.Orchestrator.ToolDispatch.{
  done, ToolCall, ScanEvent, tool_call, malformed, unterminated,
}
use vof_backend.Prelude.{
  if◌then◌else◌, get_or_else, ℕ, Bool, true, false, ◌||◌, Option, List, [], ◌∷◌, ◌++◌,
}
use vof_backend.Text.{Text, codes, is_empty}

-- The context for the next turn is read for the decision that a tool opened.
pub record ToolResult : Type 0 where
  pub bridge_text : Option Text
  pub end_turn : Bool
  pub hangup : Bool
  pub decision_id : Option ℕ

-- `spoken_parts`, which are also what the stream yields, `tool_results` and `hangup_pending`, and whether
-- the stream has returned.
pub record Substream : Type 0 where
  pub spoken_parts : List Text
  pub tool_results : List (Option ℕ)
  pub hangup_pending : Bool
  pub stopped : Bool
  pub db : AppDb

abbrev pub say : Text → Substream → Substream
say t s = record s { spoken_parts = s.spoken_parts ++ (t ∷ []) }

abbrev pub stop : Substream → Substream
stop s = record s { stopped = true }

unfoldable pub snag_text : Text → Text
snag_text error_name = codes "Hmm, I hit a snag - " ++ (error_name ++ codes ". Moving on for now.")

-- `if result.bridge_text`, after the result is kept
unfoldable pub tool_done : ToolResult → AppDb → Substream → Substream
tool_done r db s =
    let kept = record s {
      tool_results = s.tool_results ++ (r.decision_id ∷ []);
      hangup_pending = s.hangup_pending || r.hangup;
      db = db;
    } in
    let bridge = get_or_else r.bridge_text [] in if is_empty bridge then kept else say bridge kept

module _ {Args : Type 0} (dispatch : ToolCall Args → Exec AppDb ToolResult)
    (error_name : Error → Text) where
  unfoldable pub text_substream : List (ScanEvent Args) → Substream → Substream
  unfolding tool_done snag_text
  text_substream [] s = s
  text_substream (ScanEvent.text t ∷ es) s = text_substream es (say t s)
  text_substream (tool_call c ∷ es) s =
      let (r, db) = dispatch c s.db in
      elim r [
        | err e ↦ stop (say (snag_text (error_name e)) (record s { db = db }))
        | ok result ↦ elim result.end_turn [
          | true ↦ stop (tool_done result db s)
          | false ↦ text_substream es (tool_done result db s)
        ]
      ]
  text_substream (malformed t ∷ es) s = text_substream es s
  text_substream (unterminated t ∷ es) s = text_substream es s
  text_substream (done ∷ es) s = stop s
