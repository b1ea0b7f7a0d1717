-- ===== src/Orchestrator/Turn.antt =====
-- `TurnLoop.run` of app/orchestrator/turn_loop.py. The prompt, the retrieval of its context and the
-- model are outside: their result is the stream of tokens, with whether the context was there in time, or
-- what one of them raised.
use vof_backend.Db.{transcript_fragment, AppDb, publish_frame}
use vof_backend.Db.Models.{
  DecisionStatus, answered, timed_out, DecisionRequest, Call, Speaker, caller, agent,
  TranscriptFragment,
}
use vof_backend.Decision.Repo.{get_decision}
use vof_backend.Decision.Service.{workspace_key}
use vof_backend.Errors.{Error, not_found}
use vof_backend.Exec.{Exec}
use vof_backend.Orchestrator.Session.{save, CallSession, append_turn, SessionKey, load_or_create}
use vof_backend.Orchestrator.Streaming.{Chunk, token_stream_to_ndjson, stream_received}
use vof_backend.Orchestrator.Substream.{ToolResult, Substream, text_substream}
use vof_backend.Orchestrator.ToolDispatch.{
  ToolCall, ScanEvent, new_scanner, scan_received, scan_for_tool_calls,
}
use vof_backend.Orchestrator.Transcripts.{append_fragment}
use vof_backend.Prelude.{
  length, find_row, ◌==◌, if◌then◌else◌, ℕ, Bool, true, false, ◌||◌, Option, none, some, List, [],
  ◌∷◌, ◌++◌, map,
}
use vof_backend.Telephony.Calls.{get_call}
use vof_backend.Text.{Text, is_empty, strip, joined}

-- An entry of the list `whispers:{call_id}`, where it is JSON
pub record Whisper : Type 0 where
  pub guidance : Text
  pub intervention_id : Option ℕ

-- The database, the transcripts, what Redis has for the call, and `consumed_at_turn` of interventions.
pub record VoiceWorld : Type 0 where
  pub db : AppDb
  pub transcripts : List TranscriptFragment
  pub key : SessionKey
  pub whispers : List Whisper
  pub stamps : List (ℕ × ℕ)

pub record TurnInput : Type 0 where
  pub call_id : ℕ
  pub transcript : Text
  pub now : ℕ  -- of the delivery, or of the clock
  pub agent_ts : ℕ
  pub in_time : Bool
  pub bridge : Text  -- the one of four phrases that was drawn
  pub tokens : List Text
  pub context_raised : Option Error  -- by the session's load or the retrieval
  pub stream_raised : Option Error  -- by the model, after the tokens

-- A line of the answer to the provider.
pub data Line : Type 0 where
  says : Chunk → Line
  hangup : Line

-- The lines that the generator yields, and what it raises after them.
pub record Answer : Type 0 where
  pub lines : List Line
  pub raised : Option Error

abbrev pub is_resolved : DecisionStatus → Bool
is_resolved answered = true
is_resolved timed_out = true
is_resolved _ = false

-- The pending decisions that stay so: the ones that are there and not resolved.
unfoldable pub still_pending : AppDb → List ℕ → List ℕ
unfolding get_decision
still_pending db [] = []
still_pending db (i ∷ is) =
    let rest = still_pending db is in
    elim (get_decision i db) [
      | none ↦ rest
      | some d ↦ if is_resolved d.status then rest else i ∷ rest
    ]

-- The rows whose resolution the prompt of this turn tells.
unfoldable pub decision_updates : AppDb → List ℕ → List DecisionRequest
unfolding get_decision
decision_updates db [] = []
decision_updates db (i ∷ is) =
    let rest = decision_updates db is in
    elim (get_decision i db) [
      | none ↦ rest
      | some d ↦ if is_resolved d.status then d ∷ rest else rest
    ]

unfoldable pub drain_whispers : List Whisper → CallSession → CallSession
drain_whispers [] s = s
drain_whispers (w ∷ ws) s = drain_whispers ws (record s {
  manager_whispers =
      if is_empty w.guidance then s.manager_whispers else s.manager_whispers ++ (w.guidance ∷ []);
  pending_intervention_ids = elim w.intervention_id [
    | none ↦ s.pending_intervention_ids
    | some i ↦ s.pending_intervention_ids ++ (i ∷ [])
  ];
})

unfoldable pub has_id : ℕ → List ℕ → Bool
has_id i [] = false
has_id i (j ∷ js) = j == i || has_id i js

-- The decisions that tools opened, each once.
unfoldable pub add_pending : List (Option ℕ) → List ℕ → List ℕ
unfolding has_id
add_pending [] pending = pending
add_pending (none ∷ rs) pending = add_pending rs pending
add_pending (some i ∷ rs) pending =
    add_pending rs (if has_id i pending then pending else pending ++ (i ∷ []))

abbrev no_whispers : List Text → Bool
no_whispers [] = true
no_whispers (w ∷ ws) = false

-- `mark_consumed` of each pending intervention, with the length of the history
unfoldable pub consume_whispers : CallSession → CallSession × List (ℕ × ℕ)
consume_whispers s = if no_whispers s.manager_whispers then (s, []) else (
  record s {
    consumed_whispers = s.consumed_whispers ++ s.manager_whispers;
    manager_whispers = [];
    pending_intervention_ids = [];
  },
  map (λ i. (i, length s.conversation_history)) s.pending_intervention_ids,
)

-- A fragment is kept and published.
unfoldable pub keep_fragment :
    (call_id workspace_id : ℕ) → Speaker → Text → (ts : ℕ) → VoiceWorld → VoiceWorld
unfolding append_fragment publish_frame
keep_fragment call_id workspace_id speaker words ts v =
    let (f, transcripts) = append_fragment call_id workspace_id speaker words ts v.transcripts in
    record v {
      transcripts = transcripts;
      db = (publish_frame workspace_id (transcript_fragment call_id speaker words f.seq ts) v.db).1;
    }

abbrev pub bridge_lines : TurnInput → List Line
bridge_lines t = if t.in_time then [] else says (record { text = t.bridge; interim = true }) ∷ []

abbrev pub hangup_lines : Bool → List Line
hangup_lines true = hangup ∷ []
hangup_lines false = []

-- The field employee of the call, where the row is there.
unfoldable pub turn_employee : Call → AppDb → Option ℕ
turn_employee c db = elim c.field_employee_id [
  | none ↦ none
  | some i ↦ elim (find_row (λ f. f.id) i db.field_employees) [ none ↦ none | some f ↦ some f.id ]
]

-- The session with the caller's words, without the decisions that are resolved.
unfoldable pub heard_session :
    TurnInput → Call → (field_employee_id : Option ℕ) → VoiceWorld → CallSession
unfolding load_or_create append_turn still_pending
heard_session t call fe v =
    let s = load_or_create call.id call.workspace_id fe v.key in
    let s1 = append_turn (record { speaker = caller; text = t.transcript; ts = t.now }) s in
    record s1 { pending_decisions = still_pending v.db s1.pending_decisions }

-- Steps 1 to 4: the caller's fragment, and the session that the prompt is rendered with.
unfoldable pub begin_turn : TurnInput → Call → VoiceWorld → CallSession × VoiceWorld
unfolding keep_fragment heard_session drain_whispers
begin_turn t call v =
    let v1 = keep_fragment call.id call.workspace_id caller t.transcript t.now v in
    (
      drain_whispers v1.whispers (heard_session t call (turn_employee call v.db) v1),
      record v1 { whispers = [] },
    )

-- The agent's fragment, where the reply is not blank.
unfoldable pub keep_reply :
    TurnInput → Call → (reply : Text) → CallSession × VoiceWorld → CallSession × VoiceWorld
unfolding keep_fragment append_turn
keep_reply t call reply (s, v) = if is_empty reply then (s, v) else (
  append_turn (record { speaker = agent; text = reply; ts = t.agent_ts }) s,
  keep_fragment call.id call.workspace_id agent reply t.agent_ts v,
)

-- Steps 7 and 8. A save that fails is logged.
unfoldable pub finish_turn : TurnInput → Call → Substream → CallSession → VoiceWorld → VoiceWorld
unfolding keep_reply add_pending consume_whispers save
finish_turn t call sub s v =
    let s1 = record s { pending_decisions = add_pending sub.tool_results s.pending_decisions } in
    let (s2, v2) =
      keep_reply t call (strip (joined sub.spoken_parts)) (s1, record v { db = sub.db }) in
    let (s3, stamps) = consume_whispers s2 in
    record v2 { key = (save s3 v2.key).1; stamps = v2.stamps ++ stamps }

module _ (chunk_chars first_flush_chars : ℕ) where
  -- The lines of the answer.
  unfoldable pub turn_lines : TurnInput → Substream → List Line
  unfolding token_stream_to_ndjson
  turn_lines t sub =
      bridge_lines t
      ++ (map says (token_stream_to_ndjson chunk_chars first_flush_chars sub.spoken_parts)
          ++ hangup_lines sub.hangup_pending)

  -- The lines before the stream of the model raises.
  unfoldable pub lines_received : TurnInput → Substream → List Line
  unfolding stream_received
  lines_received t sub =
      bridge_lines t ++ map says (stream_received chunk_chars sub.spoken_parts [] first_flush_chars)

abbrev pub no_answer : Error → Answer
no_answer x = record { lines = []; raised = some x }

abbrev pub silent : AppDb → Substream
silent db = record {
  spoken_parts = [];
  tool_results = [];
  hangup_pending = false;
  stopped = false;
  db = db;
}

-- A stream that has returned does not get to what the model raises.
abbrev pub raised_in : TurnInput → Substream → Option Error
raised_in t sub = elim t.stream_raised [
  | none ↦ none
  | some x ↦ if sub.stopped then none else some x
]

module _ {Args : Type 0} (json_object : Text → Option Args) where
  abbrev pub turn_events : TurnInput → Option (List (ScanEvent Args))
  turn_events t = elim t.stream_raised [
    | none ↦ scan_for_tool_calls json_object t.tokens
    | some x ↦ scan_received json_object new_scanner t.tokens
  ]

module _ {Args : Type 0} (json_object : Text → Option Args)
    (dispatch : ToolCall Args → Exec AppDb ToolResult) (error_name : Error → Text) where
  -- Step 6: the events of the answer, and what is spoken of them.
  unfoldable pub speak : TurnInput → AppDb → Option Substream
  unfolding scan_for_tool_calls scan_received text_substream
  speak t db = elim (turn_events json_object t) [
    | none ↦ none
    | some events ↦ some (text_substream dispatch error_name events (silent db))
  ]

  -- Steps 6 to 8, with none where a loop runs out of fuel. A raise leaves the session unsaved; what the
  -- tools committed stays.
  unfoldable pub answer_turn :
      (chunk_chars first_flush_chars : ℕ)
      → TurnInput
      → Call
      → CallSession × VoiceWorld
      → Option Answer × VoiceWorld
  unfolding speak finish_turn turn_lines lines_received
  answer_turn chunk_chars first_flush_chars t call (s, v) = elim (speak t v.db) [
    | none ↦ (none, v)
    | some sub ↦ elim (raised_in t sub) [
      | none ↦ (
        some (record { lines = turn_lines chunk_chars first_flush_chars t sub; raised = none }),
        finish_turn t call sub s v,
      )
      | some x ↦ (
        some (record {
          lines = lines_received chunk_chars first_flush_chars t sub;
          raised = some x;
        }),
        record v { db = sub.db },
      )
    ]
  ]

  unfoldable pub run :
      (chunk_chars first_flush_chars : ℕ) → TurnInput → VoiceWorld → Option Answer × VoiceWorld
  unfolding get_call begin_turn answer_turn
  run chunk_chars first_flush_chars t v = elim (get_call t.call_id v.db) [
    | none ↦ (some (no_answer not_found), v)
    | some call ↦ elim (find_row workspace_key call.workspace_id v.db.workspaces) [
      | none ↦ (some (no_answer not_found), v)
      | some _ ↦ elim t.context_raised [
        | some x ↦ (
          some (no_answer x),
          keep_fragment call.id call.workspace_id caller t.transcript t.now v,
        )
        | none ↦ answer_turn chunk_chars first_flush_chars t call (begin_turn t call v)
      ]
    ]
  ]
