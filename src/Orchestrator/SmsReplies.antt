-- ===== src/Orchestrator/SmsReplies.antt =====
-- What an SMS conversation answers, and on which call.
use vof_backend.Db.{SmsMessage, AppDb}
use vof_backend.Db.Models.{Call, FieldEmployee, ManagerWorkspace, agent}
use vof_backend.Decision.Service.{workspace_key}
use vof_backend.Errors.{Error, ok}
use vof_backend.Exec.{Exec}
use vof_backend.Orchestrator.Scanned.{scan_for_tool_calls-reads}
use vof_backend.Orchestrator.SmsScope.{SmsWorld, SmsEnv, materialize_sms}
use vof_backend.Orchestrator.SmsTurn.{
  whole_body, outbound_body, send_sms_reply, spoken_of, tools_of, sms_tools, converse, answer_sms,
  handle_conversational,
}
use vof_backend.Orchestrator.Substream.{ToolResult}
use vof_backend.Orchestrator.ToolDispatch.{ToolCall, ScanEvent}
use vof_backend.Orchestrator.Transcripts.{max_seq, new_fragment, append_fragment}
use vof_backend.Prelude.{
  length, take, length-append, length-take, find_row, ltb, if◌then◌else◌, Bool-cases, Option-cases,
  get_or_else, ℕ, ◌+◌, ◌≤◌, ◌≡◌, refl, sym, subst, inl, inr, false, Option, none, some, List, [],
  ◌∷◌, ◌++◌, arith,
}
use vof_backend.Telephony.Events.{InboundSms}
use vof_backend.Text.{Text, codes, is_empty, rstrip}

length-rstrip : (s : Text) → length (rstrip s) ≤ length s
unfolding rstrip
length-rstrip [] = omega arith
length-rstrip (c ∷ s) = ground (arith, length-rstrip s)

body_bounds :
    (body : Text)
    → is_empty body ≡ false
    → let sent = if ltb 1400 (length body) then rstrip (take 1397 body) ++ codes "..." else body in
      (1 ≤ length sent) × (length sent ≤ 1400)
body_bounds [] h = absurd (cc)
body_bounds (x ∷ xs) h = elim (Bool-cases (ltb 1400 (length (x ∷ xs)))) [
  | inl e ↦ rw e (
      omega (
        arith,
        length-append {0} (rstrip (take 1397 (x ∷ xs))) (codes "..."),
        length-rstrip (take 1397 (x ∷ xs)),
        length-take {0} 1397 (x ∷ xs),
      ))
  | inr e ↦ rw e (ground arith)
]

outbound_body_bounds :
    (reply : Text) (bridges : List Text)
    → (1 ≤ length (outbound_body reply bridges)) × (length (outbound_body reply bridges) ≤ 1400)
unfolding outbound_body
outbound_body_bounds reply bridges =
    body_bounds
      (if is_empty (whole_body reply bridges) then codes "Got it." else whole_body reply bridges)
      (full (whole_body reply bridges))
  where
    full : (t : Text) → is_empty (if is_empty t then codes "Got it." else t) ≡ false
    full [] = refl
    full (x ∷ xs) = refl

-- A conversation that is answered: one message, which is also the agent's fragment.
pub record Replied (e : InboundSms) (w : ManagerWorkspace) (c : Call) (at : ℕ) (v r : SmsWorld)
    : Type 0 where
  pub body : Text
  pub before : List SmsMessage
  pub sent :
      r.db.messages
      ≡ before
        ++ (record {
          agent_id = get_or_else w.agentphone_agent_id [];
          to_number = e.from_number;
          body = body;
        }
            ∷ [])
  pub full : 1 ≤ length body
  pub short : length body ≤ 1400
  pub kept :
      r.transcripts
      ≡ v.transcripts
        ++ (record {
          call_id = c.id;
          workspace_id = w.id;
          speaker = agent;
          text = body;
          seq = max_seq c.id v.transcripts + 1;
          ts = at;
        }
            ∷ [])

-- What comes of a message that was taken in as `v`, by what the conversation raised.
abbrev pub Answers :
    InboundSms → ManagerWorkspace → Call → ℕ → (v r : SmsWorld) → Option Error → Type 0
Answers e w c at v r none = Replied e w c at v r
Answers e w c at v r (some x) = r ≡ v

module _ {Args : Type 0} (json_object : Text → Option Args)
    (dispatch : ToolCall Args → Exec AppDb ToolResult) (error_name : Error → Text) where
  converse-Replied :
      (env : SmsEnv) (e : InboundSms) (w : ManagerWorkspace) (c : Call) (fe : Option FieldEmployee)
      (events : List (ScanEvent Args)) (v : SmsWorld)
      → is_empty (get_or_else w.agentphone_agent_id []) ≡ false
      → is_empty e.from_number ≡ false
      → Replied e w c env.agent_ts v
          (converse json_object dispatch error_name env e w c fe events v)
  unfolding converse send_sms_reply append_fragment new_fragment
  converse-Replied env e w c fe events v h k =
      let tools =
        sms_tools json_object dispatch error_name (tools_of events)
          (record { bridge_texts = []; decision_ids = []; db = v.db }) in
      let body = outbound_body (spoken_of events) tools.bridge_texts in
      record {
        body = body;
        before = tools.db.messages;
        sent = rw (h, k) refl;
        full = (outbound_body_bounds (spoken_of events) tools.bridge_texts).0;
        short = (outbound_body_bounds (spoken_of events) tools.bridge_texts).1;
        kept = refl;
      }

  -- A text message whose employee and call are found or made. When the session, the retrieval and the
  -- stream of the model come without an exception, it is answered, also where a tool raises: the last
  -- message that is given to the provider goes to the sender, has from 1 to 1400 characters, and is the
  -- next fragment of the call. When one of them raises, nothing is sent, no tool is run and no session is
  -- saved: all is as it was when the message was taken in. This needs that the workspace has an agent and
  -- the message a number.
  pub handle_conversational-Replied :
      (env : SmsEnv) (e : InboundSms) (w : ManagerWorkspace) (c : Call) (fe : Option FieldEmployee)
      (v v1 : SmsWorld) (workspace_id : ℕ)
      → find_row workspace_key workspace_id v.db.workspaces ≡ some w
      → materialize_sms env e w v ≡ (ok (c, fe), v1)
      → is_empty (get_or_else w.agentphone_agent_id []) ≡ false
      → is_empty e.from_number ≡ false
      → Answers e w c env.agent_ts v1
          (handle_conversational json_object dispatch error_name env e workspace_id v)
          env.raised
  unfolding handle_conversational
  handle_conversational-Replied env e w c fe v v1 i hw hm h k =
      let r : SmsWorld = handle_conversational json_object dispatch error_name env e i v in
      elim (Option-cases env.raised) [
        | inl q ↦
            let (events, came, _) = scan_for_tool_calls-reads json_object env.tokens in
            subst (Answers e w c env.agent_ts v1 r) (sym q) (
              rw (handle_conversational, hw, hm, answer_sms, q, came)
                (converse-Replied env e w c fe events v1 h k))
        | inr (x, q) ↦
            subst (Answers e w c env.agent_ts v1 r) (sym q)
              (rw (handle_conversational, hw, hm, answer_sms, q) refl)
      ]
