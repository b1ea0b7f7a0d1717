-- ===== src/Orchestrator/SmsTurn.antt =====
-- `SMSOrchestratorHandler` of app/orchestrator/sms_orchestrator.py. The prompt, the retrieval and the
-- model are outside: their result is the stream of tokens, or what one of them raised. `handle` logs an
-- exception of the conversation, which ends it with nothing sent.
use vof_backend.Db.{AppDb}
use vof_backend.Db.Models.{Call, FieldEmployee, ManagerWorkspace, caller, agent}
use vof_backend.Decision.Service.{workspace_key}
use vof_backend.Decision.Sms.{match_sms_response}
use vof_backend.Errors.{Error, Result, ok, err}
use vof_backend.Exec.{Exec}
use vof_backend.Orchestrator.Session.{save, append_turn, load_or_create}
use vof_backend.Orchestrator.SmsScope.{SmsWorld, set_key, SmsEnv, employee_id, materialize_sms}
use vof_backend.Orchestrator.Substream.{ToolResult}
use vof_backend.Orchestrator.ToolDispatch.{
  done, ToolCall, ScanEvent, tool_call, scan_for_tool_calls,
}
use vof_backend.Orchestrator.Transcripts.{append_fragment}
use vof_backend.Orchestrator.Turn.{add_pending}
use vof_backend.Prelude.{
  length, take, find_row, ltb, if◌then◌else◌, get_or_else, ℕ, ◌||◌, Option, none, some, List, [],
  ◌∷◌, ◌++◌,
}
use vof_backend.Telephony.Events.{InboundSms}
use vof_backend.Text.{Text, codes, is_empty, text_eq, rstrip, strip, starts_with, join, CaseMap}

-- The reply and the phrases of the tools, put together.
unfoldable pub whole_body : (full_reply : Text) → (bridge_texts : List Text) → Text
unfolding join
whole_body full_reply [] = strip full_reply
whole_body full_reply (b ∷ bs) = strip (strip full_reply ++ (10 ∷ (10 ∷ join (10 ∷ []) (b ∷ bs))))

-- The text message of a reply and the phrases of the tools, cut to 1400 characters.
unfoldable pub outbound_body : (full_reply : Text) → (bridge_texts : List Text) → Text
unfolding whole_body
outbound_body full_reply bridges =
    let whole = whole_body full_reply bridges in
    let body = if is_empty whole then codes "Got it." else whole in
    if ltb 1400 (length body) then rstrip (take 1397 body) ++ codes "..." else body

-- `_send_sms_reply`. A failure of the provider is logged and passed over.
unfoldable pub send_sms_reply : ManagerWorkspace → (to_number body : Text) → AppDb → AppDb
send_sms_reply w to_number body db =
    let agent = get_or_else w.agentphone_agent_id [] in
    if is_empty agent || is_empty to_number then db else record db {
      messages =
          db.messages ++ (record { agent_id = agent; to_number = to_number; body = body } ∷ []);
    }

-- The results of the tool calls: the phrases, the decisions that were opened, and the database.
pub record SmsTools : Type 0 where
  pub bridge_texts : List Text
  pub decision_ids : List (Option ℕ)
  pub db : AppDb

unfoldable pub tool_failed : Text → Text
tool_failed error_name =
    codes "(I tried to flag that to your manager but hit an error: " ++ (error_name ++ codes ".)")

module _ {Args : Type 0} where
  -- `_collect_llm_reply`
  unfoldable pub spoken_of : List (ScanEvent Args) → Text
  spoken_of [] = []
  spoken_of (ScanEvent.text t ∷ es) = t ++ spoken_of es
  spoken_of (done ∷ es) = []
  spoken_of (_ ∷ es) = spoken_of es

  unfoldable pub tools_of : List (ScanEvent Args) → List (ToolCall Args)
  tools_of [] = []
  tools_of (tool_call c ∷ es) = c ∷ tools_of es
  tools_of (done ∷ es) = []
  tools_of (_ ∷ es) = tools_of es

module _ {Args : Type 0} (json_object : Text → Option Args)
    (dispatch : ToolCall Args → Exec AppDb ToolResult) (error_name : Error → Text) where
  -- Step 7. Only one tool is allowed.
  unfoldable pub sms_tools : List (ToolCall Args) → SmsTools → SmsTools
  unfolding tool_failed
  sms_tools [] s = s
  sms_tools (c ∷ cs) s =
      if text_eq c.name (codes "request_manager_decision")
      then (let (r, db) = dispatch c s.db in
          elim r [
            | err x ↦ sms_tools cs (record s {
              bridge_texts = s.bridge_texts ++ (tool_failed (error_name x) ∷ []);
              db = db;
            })
            | ok result ↦
                let bridge = get_or_else result.bridge_text [] in
                sms_tools cs (record s {
                  bridge_texts =
                      if is_empty bridge then s.bridge_texts else s.bridge_texts ++ (bridge ∷ []);
                  decision_ids = s.decision_ids ++ (result.decision_id ∷ []);
                  db = db;
                })
          ])
      else sms_tools cs s

  -- Steps 4 to 8, on the call of the conversation.
  unfoldable pub converse :
      SmsEnv
      → InboundSms
      → ManagerWorkspace
      → Call
      → Option FieldEmployee
      → List (ScanEvent Args)
      → SmsWorld
      → SmsWorld
  unfolding load_or_create append_turn sms_tools outbound_body append_fragment save send_sms_reply
      add_pending
  converse env e w c fe events v =
      let s =
        append_turn
          (record {
            speaker = caller;
            text = e.body;
            ts = get_or_else e.delivery_timestamp env.now;
          })
          (load_or_create c.id w.id (employee_id fe) (v.sessions c.id)) in
      let tools =
        sms_tools (tools_of events) (record { bridge_texts = []; decision_ids = []; db = v.db }) in
      let body = outbound_body (spoken_of events) tools.bridge_texts in
      let s1 =
        append_turn (record { speaker = agent; text = body; ts = env.agent_ts })
          (record s { pending_decisions = add_pending tools.decision_ids s.pending_decisions }) in
      record {
        db = send_sms_reply w e.from_number body tools.db;
        transcripts = (append_fragment c.id w.id agent body env.agent_ts v.transcripts).1;
        sessions = set_key c.id (save s1 (v.sessions c.id)).1 v.sessions;
      }

  -- The conversation after `_materialize`. The tools run when the whole reply is there, so a raise before
  -- that leaves the database as `_materialize` committed it, and the session unsaved.
  unfoldable pub answer_sms :
      SmsEnv
      → InboundSms
      → ManagerWorkspace
      → Result (Call × Option FieldEmployee) × SmsWorld
      → SmsWorld
  unfolding converse scan_for_tool_calls
  answer_sms env e w (err x, v) = v
  answer_sms env e w (ok (c, fe), v) = elim env.raised [
    | some x ↦ v
    | none ↦ elim (scan_for_tool_calls json_object env.tokens) [
      | none ↦ v
      | some events ↦ converse env e w c fe events v
    ]
  ]

  -- `_handle_conversational`, with the workspace that is looked up again
  unfoldable pub handle_conversational :
      SmsEnv → InboundSms → (workspace_id : ℕ) → SmsWorld → SmsWorld
  unfolding materialize_sms answer_sms
  handle_conversational env e workspace_id v =
      elim (find_row workspace_key workspace_id v.db.workspaces) [
        | none ↦ v
        | some w ↦ answer_sms env e w (materialize_sms env e w v)
      ]

  -- `_handle_decision_response`
  unfoldable pub handle_decision_response :
      CaseMap → SmsEnv → InboundSms → (workspace_id : ℕ) → SmsWorld → Result (Unit {0}) × SmsWorld
  unfolding match_sms_response
  handle_decision_response c env e workspace_id v =
      elim (find_row workspace_key workspace_id v.db.workspaces) [
        | none ↦ (ok tt, v)
        | some w ↦ elim w.manager_user_id [
          | none ↦ (ok tt, v)
          | some manager_id ↦
              let (r, db) = match_sms_response c env.now e.body manager_id v.db in
              (elim r [ ok _ ↦ ok tt | err x ↦ err x ], record v { db = db })
        ]
      ]

  unfoldable pub handle_sms :
      CaseMap → SmsEnv → InboundSms → (workspace_id : ℕ) → Exec SmsWorld (Unit {0})
  unfolding handle_decision_response handle_conversational strip starts_with
  handle_sms c env e workspace_id v =
      if starts_with (strip e.body) (codes "[DR-")
      then handle_decision_response c env e workspace_id v
      else (ok tt, handle_conversational env e workspace_id v)
