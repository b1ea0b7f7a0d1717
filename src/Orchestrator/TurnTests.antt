-- ===== src/Orchestrator/TurnTests.antt =====
-- A voice turn that ends its call, and two turns that save one session.
use vof_backend.Db.{AppDb}
use vof_backend.Db.Models.{in_progress, Call, ready, ManagerWorkspace, TranscriptFragment}
use vof_backend.Errors.{Error, ok}
use vof_backend.Exec.{Exec}
use vof_backend.Orchestrator.Heard.{Heard, run-Heard}
use vof_backend.Orchestrator.Saves.{
  Savers, SaveCommand, checks, executes, save_commands, save_commands-exclusive,
}
use vof_backend.Orchestrator.Session.{
  save, CallSession, SessionKey, new_session, cas_mismatch, save_failed, Watched, check_version,
  execute,
}
use vof_backend.Orchestrator.Substream.{ToolResult}
use vof_backend.Orchestrator.ToolDispatch.{
  find_text, ToolCall, parse_marker, marker_event, drain, flush, scan_from, scan_for_tool_calls,
}
use vof_backend.Orchestrator.Turn.{run, VoiceWorld, TurnInput, Answer}
use vof_backend.Prelude.{
  All, find_row, ◌==◌, if◌then◌else◌, ◌≡◌, refl, true, Option, none, some, List, [], ◌∷◌, map,
  arith,
}
use vof_backend.Telephony.Calls.{get_call}
use vof_backend.Text.{Text, codes, strip, starts_with, find_char}

abbrev pub object : Text → Option Text
object [] = none
object (c ∷ s) = if c == b'{' then some (c ∷ s) else none

abbrev pub nothing_raised : Error → Text
nothing_raised x = codes "Error"

-- `hang_up`, whatever is called.
abbrev pub hang_up : ToolCall Text → Exec AppDb ToolResult
hang_up c db = (
  ok (record {
    bridge_text = some (codes "Bye");
    end_turn = true;
    hangup = true;
    decision_id = none;
  }),
  db,
)

abbrev pub north : ManagerWorkspace
north = record {
  id = 5;
  organization_id = 7;
  manager_user_id = some 9;
  primary_number = none;
  name = codes "Acme";
  provisioning_state = ready;
  email_inbox_id = none;
  email_inbox_addr = none;
  email_domain = none;
  agentphone_number_id = none;
  agentphone_agent_id = some (codes "ag");
}

abbrev pub live_call : Call
live_call = record {
  id = 3;
  workspace_id = 5;
  organization_id = 7;
  field_employee_id = none;
  agentphone_call_id = codes "ap";
  from_number = none;
  to_number = none;
  status = in_progress;
  started_at = 10;
  ended_at = none;
  provider_summary = none;
}

abbrev pub office : List Call → AppDb
office calls = record {
  workspaces = north ∷ [];
  decisions = [];
  action_items = [];
  calls = calls;
  field_employees = [];
  frames = [];
  messages = [];
  jobs = [];
}

abbrev no_key : SessionKey
no_key = record { value = none; writes = 0 }

abbrev pub voice_world : VoiceWorld
voice_world = record {
  db = office (live_call ∷ []);
  transcripts = [];
  key = no_key;
  whispers = [];
  stamps = [];
}

abbrev pub goodbye : TurnInput
goodbye = record {
  call_id = 3;
  transcript = codes "done";
  now = 20;
  agent_ts = 21;
  in_time = true;
  bridge = codes "One moment...";
  tokens = codes " Ok. <<TOOL end_call {}>>more" ∷ [];
  context_raised = none;
  stream_raised = none;
}

abbrev goodbye_run : Option Answer × VoiceWorld
goodbye_run = run object hang_up nothing_raised 40 10 goodbye voice_world

run-Heard_example : Heard object hang_up nothing_raised goodbye live_call voice_world goodbye_run
unfolding get_call find_row
run-Heard_example =
    run-Heard object hang_up nothing_raised 40 10 goodbye live_call north voice_world (omega arith)
      (omega arith) refl refl refl

-- After the tool nothing of the answer is spoken.
goodbye_transcript :
    map (λ (f : TranscriptFragment). f.text) goodbye_run.1.transcripts
    ≡ codes "done" ∷ codes "Ok. Bye" ∷ []
unfolding run get_call find_row scan_for_tool_calls scan_from drain find_text starts_with
    marker_event parse_marker find_char strip flush
goodbye_transcript = refl

abbrev loaded : CallSession
loaded = new_session 3 5 none

abbrev stored : SessionKey
stored = record { value = some loaded; writes = 1 }

-- Two saves check before either writes.
abbrev both : List SaveCommand
both = checks loaded ∷ checks loaded ∷ executes 0 ∷ []

abbrev both_after : Savers
both_after = save_commands both (record { key = stored; watched = [] })

save_commands-exclusive_example :
    (save loaded both_after.key ≡ (some cas_mismatch, both_after.key))
    × All
        (λ (w : Watched).
          w.session.state_version ≡ loaded.state_version
          → execute w both_after.key ≡ (some save_failed, both_after.key))
        both_after.watched
unfolding save_commands check_version execute new_session
save_commands-exclusive_example =
    save_commands-exclusive stored loaded both loaded refl (omega arith) refl
