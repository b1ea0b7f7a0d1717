-- ===== src/Orchestrator/Awaited.antt =====
-- A turn stores the decisions that it opened as those that its session waits for.
use vof_backend.Access.Guards.{User}
use vof_backend.Db.{AppDb, publish_frame}
use vof_backend.Db.Models.{Call, ManagerWorkspace, caller}
use vof_backend.Decision.Repo.{key, get_decision}
use vof_backend.Decision.Service.{Env, workspace_key}
use vof_backend.Errors.{Error, Result}
use vof_backend.Exec.{Exec}
use vof_backend.Orchestrator.Heard.{run-answered}
use vof_backend.Orchestrator.Kept.{
  CurrentAt, Current, save-stored, Same, drain_whispers-Same, consume_whispers-Same,
  keep_reply-Same, load_or_create-Current,
}
use vof_backend.Orchestrator.Pending.{HasDecision, Keeps, dispatch-Keeps}
use vof_backend.Orchestrator.Scanned.{scan_for_tool_calls-reads}
use vof_backend.Orchestrator.Session.{CallSession, append_turn}
use vof_backend.Orchestrator.Substream.{ToolResult, Substream, text_substream}
use vof_backend.Orchestrator.ToolDispatch.{ToolCall}
use vof_backend.Orchestrator.Tools.{dispatch, ToolContext, RequestCorrectionInput, Schemas}
use vof_backend.Orchestrator.Turn.{
  run, VoiceWorld, TurnInput, has_id, add_pending, consume_whispers, keep_fragment, turn_employee,
  heard_session, begin_turn, keep_reply, finish_turn, turn_lines, silent, speak, answer_turn,
}
use vof_backend.Orchestrator.Waiting.{
  add_pending-PendingIn, add_pending-HasDecision, still_pending-HasDecision, OpenedIn,
  OpenedIn-PendingIn, Answered, text_substream-Answered,
}
use vof_backend.Prelude.{
  All, All-weaken, find_row, is_some, ℕ, ◌+◌, ◌≡◌, refl, sym, ◌∙◌, subst, inl, inr, true, Option,
  none, some, List, arith,
}
use vof_backend.Telephony.Calls.{get_call}
use vof_backend.Text.{Text, strip, joined, CaseMap}

-- The session that a turn stores: it waits for rows of the database alone, and for every row that was not
-- there before the turn.
pub record Awaits (before : AppDb) (r : VoiceWorld) : Type 0 where
  pub session : CallSession
  pub stored : r.key.value ≡ some session
  pub rows : All (HasDecision r.db) session.pending_decisions
  pub opened :
      (i : ℕ)
      → HasDecision r.db i
      → get_decision i before ≡ none
      → has_id i session.pending_decisions ≡ true

module _ (t : TurnInput) (c : Call) (sub : Substream) (s : CallSession) (v : VoiceWorld)
    (current : Current s v.key) (waits_before : All (HasDecision sub.db) s.pending_decisions)
    (before : AppDb) (answered : Answered before sub) where
  abbrev s1 : CallSession
  s1 = record s { pending_decisions = add_pending sub.tool_results s.pending_decisions }

  abbrev replied : CallSession × VoiceWorld
  replied = keep_reply t c (strip (joined sub.spoken_parts)) (s1, record v { db = sub.db })

  abbrev consumed : CallSession
  consumed = (consume_whispers replied.0).0

  -- A new row is one that a result names.
  new_row :
      (i : ℕ) → HasDecision sub.db i → get_decision i before ≡ none → OpenedIn sub.tool_results i
  new_row i h n = elim (answered.fresh i h) [
    | inl old ↦ absurd (ground (arith, old, n))
    | inr o ↦ o
  ]

  pub finish_turn-Awaits : Awaits before (finish_turn t c sub s v)
  unfolding finish_turn get_decision
  finish_turn-Awaits =
      let (reply_same, (reply_key, reply_rows)) =
        keep_reply-Same t c (strip (joined sub.spoken_parts)) s1 (record v { db = sub.db }) in
      let whisper_same = consume_whispers-Same replied.0 in
      let waits : consumed.pending_decisions ≡ s1.pending_decisions =
        whisper_same.0 ∙ reply_same.0 in
      let version : consumed.state_version ≡ s.state_version = whisper_same.1 ∙ reply_same.1 in
      record {
        session = record consumed { state_version = consumed.state_version + 1 };
        stored = save-stored consumed replied.1.key (
            subst (λ k. Current consumed k) (sym reply_key)
              (subst (λ n. CurrentAt n v.key.value) (sym version) current));
        rows =
            subst (λ ds. All (λ i. is_some (find_row key i ds) ≡ true) consumed.pending_decisions)
              (sym reply_rows)
              (subst (λ is. All (HasDecision sub.db) is) (sym waits)
                (add_pending-HasDecision sub.db sub.tool_results s.pending_decisions answered.named
                  waits_before));
        opened = λ i h n.
            subst (λ is. has_id i is ≡ true) (sym waits)
              (OpenedIn-PendingIn s1.pending_decisions sub.tool_results i
                (add_pending-PendingIn sub.tool_results s.pending_decisions)
                (new_row i (subst (λ ds. is_some (find_row key i ds) ≡ true) reply_rows h) n));
      }

module _ (t : TurnInput) (c : Call) (v : VoiceWorld) where
  abbrev heard_world : VoiceWorld
  heard_world = keep_fragment c.id c.workspace_id caller t.transcript t.now v

  abbrev heard : CallSession
  heard = heard_session t c (turn_employee c v.db) heard_world

  drained : Same heard (begin_turn t c v).0
  unfolding begin_turn
  drained = drain_whispers-Same heard_world.whispers heard

  begin_turn-Current : Current (begin_turn t c v).0 (begin_turn t c v).1.key
  unfolding begin_turn heard_session append_turn keep_fragment
  begin_turn-Current =
      subst (λ n. CurrentAt n v.key.value) (sym drained.1)
        (load_or_create-Current c.id c.workspace_id (turn_employee c v.db) v.key)

  begin_turn-rows : All (HasDecision (begin_turn t c v).1.db) (begin_turn t c v).0.pending_decisions
  unfolding begin_turn heard_session
  begin_turn-rows =
      subst (λ is. All (HasDecision heard_world.db) is) (sym drained.0)
        (still_pending-HasDecision heard_world.db _)

  -- Keeping the caller's words leaves the decisions alone.
  heard-Awaits : (r : VoiceWorld) → Awaits (begin_turn t c v).1.db r → Awaits v.db r
  unfolding begin_turn keep_fragment publish_frame get_decision
  heard-Awaits r a = record {
    session = a.session;
    stored = a.stored;
    rows = a.rows;
    opened = a.opened;
  }

module _ {Args : Type 0} (json_object : Text → Option Args)
    (dispatch : ToolCall Args → Exec AppDb ToolResult) (error_name : Error → Text)
    (keeps : (t : ToolCall Args) (db : AppDb) → Keeps db (dispatch t db)) where
  silent-Answered : (db : AppDb) → Answered db (silent db)
  silent-Answered db = record { old = λ i k. k; named = tt; fresh = λ i k. inl k }

  turn-Awaits :
      (chunk_chars first_flush_chars : ℕ) (t : TurnInput) (c : Call) (w : ManagerWorkspace)
      (v : VoiceWorld)
      → get_call t.call_id v.db ≡ some c
      → find_row workspace_key c.workspace_id v.db.workspaces ≡ some w
      → t.context_raised ≡ none
      → t.stream_raised ≡ none
      → Awaits v.db (run json_object dispatch error_name chunk_chars first_flush_chars t v).1
  unfolding speak begin_turn
  turn-Awaits chunk_chars first_flush_chars t c w v hc hw hr hs =
      let (s, v1) = begin_turn t c v in
      let (events, came, _) = scan_for_tool_calls-reads json_object t.tokens in
      let sub = text_substream dispatch error_name events (silent v1.db) in
      let spoke : speak json_object dispatch error_name t v1.db ≡ some sub =
        rw (speak, hs, came) refl in
      let answered =
        text_substream-Answered dispatch error_name keeps v1.db events (silent v1.db)
          (silent-Answered v1.db) in
      let waits =
        All-weaken (HasDecision v1.db) (HasDecision sub.db) s.pending_decisions answered.old
          (begin_turn-rows t c v) in
      let awaits =
        finish_turn-Awaits t c sub s v1 (begin_turn-Current t c v) waits v1.db answered in
      let ended : answer_turn json_object dispatch error_name chunk_chars first_flush_chars t c
            (s, v1)
          ≡ (
            some (record { lines = turn_lines chunk_chars first_flush_chars t sub; raised = none }),
            finish_turn t c sub s v1,
          ) =
        unfold answer_turn in rw (answer_turn, spoke, hs) refl in
      heard-Awaits t c v _ (
        subst (λ r. Awaits v1.db r.1)
          (sym (
            run-answered json_object dispatch error_name chunk_chars first_flush_chars t c w v hc hw
              hr
            ∙ ended))
          awaits)

-- A turn on a call that is there, in a workspace that is there, with the tools of the program, where
-- neither the loading of the context nor the stream of the model raises. The session that is stored after
-- it waits only for decisions that are rows of the database, and for every decision that was not there
-- before the turn, so for each one that a tool opened, also where another tool raised.
pub run-Awaits :
    {Args : Type 0} (json_object : Text → Option Args) (cm : CaseMap) (env : AppDb → Env)
    (users : List User) (schemas : Schemas Args)
    (apply_correction : (manager_user_id : ℕ) → RequestCorrectionInput → Result (Unit {0}))
    (error_name : Error → Text) (chunk_chars first_flush_chars : ℕ) (t : TurnInput) (c : Call)
    (w : ManagerWorkspace) (v : VoiceWorld)
    → get_call t.call_id v.db ≡ some c
    → find_row workspace_key c.workspace_id v.db.workspaces ≡ some w
    → t.context_raised ≡ none
    → t.stream_raised ≡ none
    → let tools =
        dispatch cm env users
          (record { workspace_id = c.workspace_id; call_id = c.id })
          schemas
          apply_correction in
      Awaits v.db (run json_object tools error_name chunk_chars first_flush_chars t v).1
run-Awaits json_object cm env users schemas apply_correction error_name m n t c w v hc hw hr hs =
    let ctx : ToolContext = record { workspace_id = c.workspace_id; call_id = c.id } in
    turn-Awaits json_object (dispatch cm env users ctx schemas apply_correction) error_name
      (dispatch-Keeps cm env users ctx apply_correction schemas) m n t c w v hc hw hr hs
