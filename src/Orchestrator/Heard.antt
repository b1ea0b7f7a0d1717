-- ===== src/Orchestrator/Heard.antt =====
-- What the transcript has of a turn, and what the caller hears.
use mathlib.Core.List.{append_assoc, append-nil}
use vof_backend.Db.{AppDb}
use vof_backend.Db.Models.{Call, ManagerWorkspace, Speaker, caller, agent, TranscriptFragment}
use vof_backend.Decision.Service.{workspace_key}
use vof_backend.Errors.{Error}
use vof_backend.Exec.{Exec}
use vof_backend.Orchestrator.Ran.{ran, Ran, asks_hangup, gone_on, text_substream-ran}
use vof_backend.Orchestrator.Reading.{Sign, spell, outside, reads}
use vof_backend.Orchestrator.Scanned.{scan_received-reads, scan_for_tool_calls-reads}
use vof_backend.Orchestrator.Session.{CallSession}
use vof_backend.Orchestrator.Streamed.{
  Speaks, SpeaksStart, stream_received-SpeaksStart, token_stream_to_ndjson-Speaks,
}
use vof_backend.Orchestrator.Streaming.{Chunk, token_stream_to_ndjson, stream_received}
use vof_backend.Orchestrator.Substream.{ToolResult, Substream}
use vof_backend.Orchestrator.ToolDispatch.{ToolCall, ScanEvent}
use vof_backend.Orchestrator.Transcripts.{max_seq, new_fragment, append_fragment}
use vof_backend.Orchestrator.Turn.{
  run, VoiceWorld, TurnInput, says, Answer, add_pending, keep_fragment, bridge_lines, hangup_lines,
  begin_turn, keep_reply, finish_turn, silent, turn_events, speak, answer_turn,
}
use vof_backend.Prelude.{
  find_row, if◌then◌else◌, Option-cases, ℕ, ◌+◌, ◌≤◌, ◌<◌, ◌≡◌, refl, sym, ap, ◌∙◌, subst, inl, inr,
  Option, none, some, List, [], ◌∷◌, ◌++◌, map, arith,
}
use vof_backend.Telephony.Calls.{get_call}
use vof_backend.Text.{Text, is_empty, strip, joined}

abbrev fragment : Call → Speaker → Text → (ts seq : ℕ) → TranscriptFragment
fragment c speaker words ts seq = record {
  call_id = c.id;
  workspace_id = c.workspace_id;
  speaker = speaker;
  text = words;
  seq = seq;
  ts = ts;
}

-- The fragments that a turn adds: the caller's, and the agent's where the reply is not blank.
abbrev fragments_of : TurnInput → Call → (reply : Text) → (last : ℕ) → List TranscriptFragment
fragments_of t c reply last =
    fragment c caller t.transcript t.now (last + 1)
    ∷ (if is_empty reply then [] else fragment c agent reply t.agent_ts (last + 2) ∷ [])

-- What the answer of a turn raises: a stream that has ended does not get to it.
abbrev pub raised_after : TurnInput → Ran → Option Error
raised_after t n = elim t.stream_raised [ none ↦ none | some x ↦ if n.ended then none else some x ]

-- The result of a turn that says all its words.
pub record Whole (t : TurnInput) (c : Call) (v : VoiceWorld) (n : Ran)
    (r : Option Answer × VoiceWorld) : Type 0 where
  pub chunks : List Chunk
  pub lines :
      r.0
      ≡ some (record {
        lines = bridge_lines t ++ (map says chunks ++ hangup_lines (asks_hangup n.results));
        raised = none;
      })
  pub heard : Speaks (joined n.words) chunks
  pub kept :
      r.1.transcripts
      ≡ v.transcripts ++ fragments_of t c (strip (joined n.words)) (max_seq c.id v.transcripts)

-- The result of a turn that is broken off by `x`.
pub record Broken (t : TurnInput) (c : Call) (v : VoiceWorld) (n : Ran) (x : Error)
    (r : Option Answer × VoiceWorld) : Type 0 where
  pub chunks : List Chunk
  pub lines : r.0 ≡ some (record { lines = bridge_lines t ++ map says chunks; raised = some x })
  pub heard : SpeaksStart (joined n.words) chunks
  pub kept :
      r.1.transcripts
      ≡ v.transcripts
        ++ (fragment c caller t.transcript t.now (max_seq c.id v.transcripts + 1) ∷ [])
  pub unsaved : r.1.key ≡ v.key
  pub tools_kept : r.1.db ≡ n.db

abbrev pub Ends :
    TurnInput → Call → VoiceWorld → Ran → (Option Answer × VoiceWorld) → Option Error → Type 0
Ends t c v n r none = Whole t c v n r
Ends t c v n r (some x) = Broken t c v n x r

-- The result of a turn: the events are what the reference reads of the tokens, all of it where the stream
-- comes to its end, and what is spoken and done is what the reference tells of them.
pub record Heard {Args : Type 0} (json_object : Text → Option Args)
    (dispatch : ToolCall Args → Exec AppDb ToolResult) (error_name : Error → Text) (t : TurnInput)
    (c : Call) (v : VoiceWorld) (r : Option Answer × VoiceWorld) : Type 0 where
  pub events : List (ScanEvent Args)
  pub unread : List (Sign Args)
  pub read : spell events ++ unread ≡ reads json_object outside 0 (joined t.tokens)
  pub all_read : t.stream_raised ≡ none → unread ≡ []
  pub ends :
      let n = ran dispatch error_name events (begin_turn t c v).1.db in
      Ends t c v n r (raised_after t n)

max_seq-append :
    (c : Call) (speaker : Speaker) (words : Text) (ts n : ℕ) (fs : List TranscriptFragment)
    → max_seq c.id fs < n
    → max_seq c.id (fs ++ (fragment c speaker words ts n ∷ [])) ≡ n
unfolding max_seq
max_seq-append c speaker words ts n [] h = ground arith
max_seq-append c speaker words ts n (f ∷ fs) h =
    ground (arith, max_seq-append c speaker words ts n fs)

keep_fragment-transcripts :
    (c : Call) (speaker : Speaker) (words : Text) (ts : ℕ) (v : VoiceWorld)
    → (keep_fragment c.id c.workspace_id speaker words ts v).transcripts
      ≡ v.transcripts ++ (fragment c speaker words ts (max_seq c.id v.transcripts + 1) ∷ [])
unfolding keep_fragment append_fragment new_fragment
keep_fragment-transcripts c speaker words ts v = refl

keep_reply-transcripts :
    (t : TurnInput) (c : Call) (reply : Text) (s : CallSession) (v : VoiceWorld)
    → (keep_reply t c reply (s, v)).1.transcripts ≡ (
        if is_empty reply
        then v.transcripts
        else v.transcripts
          ++ (fragment c agent reply t.agent_ts (max_seq c.id v.transcripts + 1) ∷ []))
unfolding keep_reply
keep_reply-transcripts t c [] s v = refl
keep_reply-transcripts t c (x ∷ xs) s v = keep_fragment-transcripts c agent (x ∷ xs) t.agent_ts v

finish_turn-transcripts :
    (t : TurnInput) (c : Call) (sub : Substream) (s : CallSession) (v : VoiceWorld)
    → (finish_turn t c sub s v).transcripts ≡ (
        if is_empty (strip (joined sub.spoken_parts))
        then v.transcripts
        else v.transcripts
          ++ (fragment c agent
                (strip (joined sub.spoken_parts))
                t.agent_ts
                (max_seq c.id v.transcripts + 1)
              ∷ []))
unfolding finish_turn
finish_turn-transcripts t c sub s v =
    keep_reply-transcripts t c (strip (joined sub.spoken_parts))
      (record s { pending_decisions = add_pending sub.tool_results s.pending_decisions })
      (record v { db = sub.db })

-- The two fragments of a turn, one after the other.
two_fragments :
    (t : TurnInput) (c : Call) (reply : Text) (fs gs : List TranscriptFragment)
    → gs ≡ fs ++ (fragment c caller t.transcript t.now (max_seq c.id fs + 1) ∷ [])
    → (if is_empty reply
        then gs
        else gs ++ (fragment c agent reply t.agent_ts (max_seq c.id gs + 1) ∷ []))
      ≡ fs ++ fragments_of t c reply (max_seq c.id fs)
two_fragments t c [] fs gs h = h
two_fragments t c (x ∷ xs) fs gs h =
    let first = fragment c caller t.transcript t.now (max_seq c.id fs + 1) in
    let n : max_seq c.id gs + 1 ≡ max_seq c.id fs + 2 = rw h (
      rw (max_seq-append c caller t.transcript t.now (max_seq c.id fs + 1) fs (omega arith))
        (omega arith)) in
    rw n (rw h (append_assoc fs (first ∷ []) _))

module _ {Args : Type 0} (json_object : Text → Option Args) where
  record Came (t : TurnInput) : Type 0 where
    events : List (ScanEvent Args)
    unread : List (Sign Args)
    came : turn_events json_object t ≡ some events
    read : spell events ++ unread ≡ reads json_object outside 0 (joined t.tokens)
    all_read : t.stream_raised ≡ none → unread ≡ []

  turn_events-Came : (t : TurnInput) → Came t
  turn_events-Came t = elim (Option-cases t.stream_raised) [
    | inl h ↦
        let (events, came, read) = scan_for_tool_calls-reads json_object t.tokens in
        record {
          events = events;
          unread = [];
          came = rw h came;
          read = append-nil (spell events) ∙ read;
          all_read = λ _. refl;
        }
    | inr (x, h) ↦
        let (events, unread, came, read) = scan_received-reads json_object t.tokens in
        record {
          events = events;
          unread = unread;
          came = rw h came;
          read = read;
          all_read = λ e. absurd (cc);
        }
  ]

  module _ (dispatch : ToolCall Args → Exec AppDb ToolResult) (error_name : Error → Text) where
    -- The substream of an answer is what the reference tells.
    pub speak-ran :
        (t : TurnInput) (db : AppDb) (events : List (ScanEvent Args))
        → turn_events json_object t ≡ some events
        → speak json_object dispatch error_name t db
          ≡ some (gone_on (silent db) (ran dispatch error_name events db))
    unfolding speak
    speak-ran t db events came =
        rw (speak, came) (ap some (text_substream-ran dispatch error_name events (silent db)))

    answer_turn-Ends :
        (chunk_chars first_flush_chars : ℕ) (t : TurnInput) (c : Call) (v : VoiceWorld)
        (events : List (ScanEvent Args))
        → 1 ≤ chunk_chars
        → 1 ≤ first_flush_chars
        → turn_events json_object t ≡ some events
        → let n = ran dispatch error_name events (begin_turn t c v).1.db in
          Ends t c v n
            (answer_turn json_object dispatch error_name chunk_chars first_flush_chars t c
              (begin_turn t c v))
            (raised_after t n)
    unfolding answer_turn begin_turn
    answer_turn-Ends chunk_chars first_flush_chars t c v events p q came =
        let (s, v1) = begin_turn t c v in
        let n = ran dispatch error_name events v1.db in
        let sub = gone_on (silent v1.db) n in
        let spoke = speak-ran t v1.db events came in
        elim (Option-cases (raised_after t n)) [
          | inl h ↦
              rw (answer_turn, spoke, h)
                (record {
                  chunks = token_stream_to_ndjson chunk_chars first_flush_chars n.words;
                  lines = refl;
                  heard = token_stream_to_ndjson-Speaks chunk_chars first_flush_chars n.words p q;
                  kept =
                      finish_turn-transcripts t c sub s v1
                      ∙ two_fragments t c (strip (joined n.words)) v.transcripts v1.transcripts
                          (keep_fragment-transcripts c caller t.transcript t.now v);
                })
          | inr (x, h) ↦
              rw (answer_turn, spoke, h)
                (record {
                  chunks = stream_received chunk_chars n.words [] first_flush_chars;
                  lines = refl;
                  heard = stream_received-SpeaksStart chunk_chars n.words [] first_flush_chars p q;
                  kept = keep_fragment-transcripts c caller t.transcript t.now v;
                  unsaved = unfold begin_turn keep_fragment in refl;
                  tools_kept = refl;
                })
        ]

    pub run-answered :
        (chunk_chars first_flush_chars : ℕ) (t : TurnInput) (c : Call) (w : ManagerWorkspace)
        (v : VoiceWorld)
        → get_call t.call_id v.db ≡ some c
        → find_row workspace_key c.workspace_id v.db.workspaces ≡ some w
        → t.context_raised ≡ none
        → run json_object dispatch error_name chunk_chars first_flush_chars t v
          ≡ answer_turn json_object dispatch error_name chunk_chars first_flush_chars t c
              (begin_turn t c v)
    unfolding run
    run-answered chunk_chars first_flush_chars t c w v hc hw hr = rw (run, hc, hw, hr) refl

    -- A turn on a call that is there, in a workspace that is there, whose context is loaded without an
    -- exception, comes to its end. The scanned events are those that the reference reader finds in the
    -- tokens: all of them, or the first ones where the stream of the model raises. What is spoken is what
    -- the reference tells of these events: texts and the phrases of the tools up to one that ends the turn
    -- or raises. Where the stream does not raise before that, the lines are the bridge phrase if the
    -- context came late, then chunks that say just these words, then a hangup exactly when a tool that ran
    -- asked for it; the transcript gains the caller's words, and as the agent's the words, spaces at its
    -- ends left out, if that is not blank, both numbered on from the last fragment of the call. Where it
    -- does, the exception comes after chunks that say the start of the words, with no final chunk; the
    -- transcript gains the caller's words alone, the stored session is as before, and what the tools did
    -- stays. The thresholds of the chunks are positive.
    pub run-Heard :
        (chunk_chars first_flush_chars : ℕ) (t : TurnInput) (c : Call) (w : ManagerWorkspace)
        (v : VoiceWorld)
        → 1 ≤ chunk_chars
        → 1 ≤ first_flush_chars
        → get_call t.call_id v.db ≡ some c
        → find_row workspace_key c.workspace_id v.db.workspaces ≡ some w
        → t.context_raised ≡ none
        → Heard json_object dispatch error_name t c v
            (run json_object dispatch error_name chunk_chars first_flush_chars t v)
    run-Heard chunk_chars first_flush_chars t c w v p q hc hw hr =
        let e = turn_events-Came t in
        subst (Heard json_object dispatch error_name t c v)
          (sym (run-answered chunk_chars first_flush_chars t c w v hc hw hr))
          (record {
            events = e.events;
            unread = e.unread;
            read = e.read;
            all_read = e.all_read;
            ends = answer_turn-Ends chunk_chars first_flush_chars t c v e.events p q e.came;
          })
