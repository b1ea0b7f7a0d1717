-- ===== src/Decision/Service.antt =====
-- `open` and `respond` of app/services/decisions.py.
use vof_backend.Db.{
  decision_opened, decision_resolved, SmsMessage, Job, decision_timeout, AppDb, publish_frame,
}
use vof_backend.Db.Models.{
  seconds, DecisionClass, inline, bridged, async, RespondedVia, websocket, Payload, DecisionRequest,
  ManagerWorkspace, is_open,
}
use vof_backend.Decision.Repo.{lock_for_update, new_decision, create, mark_answered}
use vof_backend.Errors.{not_found, validation, conflict, ok}
use vof_backend.Exec.{Exec, pure, gets, or_raise, ◌>>=◌, ◌>>◌, raise_if}
use vof_backend.Prelude.{
  take, find_row, if◌then◌else◌, get_or_else, ℕ, ◌+◌, Bool, true, false, not, ◌&&◌, Option, none,
  some, List, [], ◌∷◌, ◌++◌,
}
use vof_backend.Text.{Text, codes, is_empty, text_eq, contains, join, CaseMap}
use vof_backend.Text.Hex.{hex_text}

-- What an operation takes from its surroundings: the clock, a new UUID, whether a telephony provider
-- was passed in, and the test switch of the timeout queue.
pub record Env : Type 0 where
  pub now : ℕ
  pub new_id : ℕ
  pub telephony : Bool
  pub inline_mode : Bool

unfoldable pub class_of : Text → Option DecisionClass
class_of name =
    if text_eq name (codes "inline")
    then some inline
    else if text_eq name (codes "bridged")
    then some bridged
    else if text_eq name (codes "async")
    then some async
    else none

-- `DEFAULT_TIMEOUTS_SECONDS`
unfoldable pub default_timeout : DecisionClass → Option ℕ
default_timeout inline = some 45
default_timeout bridged = some 120
default_timeout async = none

-- The first six hexadecimal digits of the id, in capitals.
unfoldable pub short_id : CaseMap → ℕ → Text
short_id c decision_id = c.upper (take 6 (hex_text 32 decision_id))

abbrev pub no_options : List Text → Bool
no_options [] = true
no_options (o ∷ os) = false

pub record OpenRequest : Type 0 where
  pub call_id : ℕ
  pub workspace_id : ℕ
  pub prompt : Text
  pub options : List Text
  pub decision_class : Text
  pub context : Option Payload
  pub manager_phone : Option Text
  pub agentphone_agent_id : Option Text

abbrev pub workspace_key : ManagerWorkspace → ℕ
workspace_key w = w.id

unfoldable pub timeout_of : ℕ → DecisionClass → Option ℕ
unfolding default_timeout
timeout_of now cls = elim (default_timeout cls) [ none ↦ none | some s ↦ some (now + seconds s) ]

unfoldable pub publish_opened : DecisionRequest → Exec AppDb Unit
unfolding publish_frame
publish_opened d =
    publish_frame d.workspace_id
      (decision_opened d.call_id d.id d.prompt d.options d.decision_class d.timeout_at)

unfoldable pub publish_resolved : DecisionRequest → Exec AppDb Unit
unfolding publish_frame
publish_resolved d =
    publish_frame d.workspace_id
      (decision_resolved d.call_id d.id d.response (get_or_else d.responded_via websocket))

-- The text message to the Manager. A failure of the provider is logged and passed over.
unfoldable pub ping_body : CaseMap → DecisionRequest → Text
unfolding short_id
ping_body c d =
    codes "[DR-"
    ++ (short_id c d.id
        ++ (codes "] "
            ++ (d.prompt
                ++ (10 ∷ (10 ∷ (codes "Reply with one of: " ++ join (codes " | ") d.options))))))

unfoldable pub sms_ping :
    CaseMap → Env → DecisionRequest → Option Text → Option Text → List SmsMessage
unfolding ping_body
sms_ping c env d (some to) (some agent) =
    if not (is_empty to) && not (is_empty agent) && env.telephony
    then record { agent_id = agent; to_number = to; body = ping_body c d } ∷ []
    else []
sms_ping c env d _ _ = []

unfoldable pub send_sms_ping :
    CaseMap → Env → DecisionRequest → Option Text → Option Text → Exec AppDb Unit
unfolding sms_ping
send_sms_ping c env d to agent db =
    (ok tt, record db { messages = db.messages ++ sms_ping c env d to agent })

-- `schedule_or_inline` of the timeout worker, when there is a timeout.
unfoldable pub timeout_jobs : Env → DecisionRequest → List Job
timeout_jobs env d = elim d.timeout_at [
  | none ↦ []
  | some at ↦ if env.inline_mode then [] else decision_timeout d.id at ∷ []
]

unfoldable pub schedule_timeout : Env → DecisionRequest → Exec AppDb Unit
unfolding timeout_jobs
schedule_timeout env d db = (ok tt, record db { jobs = db.jobs ++ timeout_jobs env d })

unfoldable pub open_decision : CaseMap → Env → OpenRequest → Exec AppDb DecisionRequest
unfolding class_of timeout_of new_decision create publish_opened send_sms_ping schedule_timeout
open_decision c env req = do
  raise_if (no_options req.options) validation
  cls ← or_raise (class_of req.decision_class) validation
  found ← gets (λ db. find_row workspace_key req.workspace_id db.workspaces)
  ws ← or_raise found not_found
  manager ← or_raise ws.manager_user_id validation
  d ← create (
      new_decision env.new_id env.now req.call_id req.workspace_id manager req.prompt req.options
        cls (timeout_of env.now cls) req.context)
  publish_opened d
  send_sms_ping c env d req.manager_phone req.agentphone_agent_id
  schedule_timeout env d
  pure d

unfoldable pub respond :
    (now decision_id responder_user_id : ℕ) (response : Text) (via : RespondedVia)
    → Exec AppDb DecisionRequest
unfolding lock_for_update mark_answered publish_resolved
respond now decision_id responder response via = do
  found ← lock_for_update decision_id
  d ← or_raise found not_found
  raise_if (not (is_open d.status)) conflict
  raise_if (not (contains response d.options)) validation
  d' ← mark_answered d response responder via now
  publish_resolved d'
  pure d'
