-- ===== src/Orchestrator/ToolTests.antt =====
-- A voice turn that asks the Manager.
use vof_backend.Db.{AppDb}
use vof_backend.Db.Models.{inline}
use vof_backend.Decision.Repo.{create}
use vof_backend.Decision.Service.{Env, class_of, open_decision}
use vof_backend.Errors.{not_found, Result, err}
use vof_backend.Exec.{Exec}
use vof_backend.Orchestrator.Awaited.{Awaits, run-Awaits}
use vof_backend.Orchestrator.Session.{
  save, append_turn, SessionKey, load, new_session, load_or_create, check_version, execute,
}
use vof_backend.Orchestrator.Substream.{ToolResult, tool_done, text_substream}
use vof_backend.Orchestrator.ToolDispatch.{
  find_text, ToolCall, parse_marker, marker_event, drain, flush, scan_from, scan_for_tool_calls,
}
use vof_backend.Orchestrator.Tools.{
  dispatch, RequestCorrectionInput, Schemas, bridge_by_class, decision_request,
  request_manager_decision,
}
use vof_backend.Orchestrator.Turn.{
  run, VoiceWorld, TurnInput, Answer, drain_whispers, has_id, add_pending, consume_whispers,
  heard_session, begin_turn, keep_reply, finish_turn, speak, answer_turn,
}
use vof_backend.Orchestrator.TurnTests.{
  object, nothing_raised, north, live_call, voice_world, goodbye,
}
use vof_backend.Prelude.{find_row, ℕ, ◌≡◌, refl, true, false, Option, none, some, List, [], ◌∷◌}
use vof_backend.Telephony.Calls.{get_call}
use vof_backend.Text.{
  Text, codes, text_eq, is_space, lstrip, rstrip, strip, starts_with, find_char, ascii,
}

-- Every object of JSON is taken as the same question.
abbrev asked : Schemas Text
asked = record {
  decision_input = λ a. some (record {
    prompt = codes "20% off?";
    options = codes "Yes" ∷ codes "No" ∷ [];
    decision_class = inline;
    rationale = none;
  });
  correction_input = λ a. none;
  end_call_input = λ a. some [];
}

abbrev env_of : AppDb → Env
env_of db = record { now = 20; new_id = 77; telephony = true; inline_mode = false }

abbrev not_there : (manager_user_id : ℕ) → RequestCorrectionInput → Result (Unit {0})
not_there m i = err not_found

abbrev question : TurnInput
question = record goodbye { tokens = codes "<<TOOL request_manager_decision {}>>" ∷ [] }

abbrev question_tools : ToolCall Text → Exec AppDb ToolResult
question_tools = dispatch ascii env_of [] (record { workspace_id = 5; call_id = 3 }) asked not_there

abbrev question_run : Option Answer × VoiceWorld
question_run = run object question_tools nothing_raised 40 10 question voice_world

abbrev waited_for : SessionKey → List ℕ
waited_for k = elim k.value [ none ↦ [] | some s ↦ s.pending_decisions ]

question_pending : waited_for question_run.1.key ≡ 77 ∷ []
unfolding run answer_turn get_call find_row scan_for_tool_calls scan_from drain find_text
    starts_with marker_event parse_marker find_char strip lstrip rstrip is_space flush begin_turn
    heard_session load_or_create load new_session drain_whispers speak text_substream tool_done
    dispatch text_eq request_manager_decision decision_request open_decision class_of create
    finish_turn add_pending has_id keep_reply consume_whispers save check_version execute
    append_turn bridge_by_class
question_pending = refl

run-Awaits_example : Awaits voice_world.db question_run.1
unfolding get_call find_row
run-Awaits_example =
    run-Awaits object ascii env_of [] asked not_there nothing_raised 40 10 question live_call north
      voice_world refl refl refl refl
