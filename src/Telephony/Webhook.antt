-- ===== src/Telephony/Webhook.antt =====
-- The endpoint of app/api/webhooks/agentphone.py, with `verify_agentphone_webhook` of
-- app/security/hmac.py and `claim_webhook_id` of app/realtime/redis_client.py. The clock of Redis is that
-- of the delivery.
use vof_backend.Db.{Frame, AppDb, publish_frame}
use vof_backend.Db.Models.{seconds}
use vof_backend.Errors.{not_found, Result, ok, err}
use vof_backend.Exec.{Exec, pure}
use vof_backend.Prelude.{
  ltb, if◌then◌else◌, ℕ, ◌+◌, ◌-◌, ◌*◌, Bool, true, false, ◌&&◌, ◌||◌, Option, none, some, List, [],
  ◌∷◌, ◌++◌,
}
use vof_backend.Telephony.Events.{TelephonyEvent}
use vof_backend.Telephony.Materialize.{materialize_scope_and_call}
use vof_backend.Telephony.Voice.{Arrival, Materialized}
use vof_backend.Text.{Text, codes, is_empty, text_eq}

-- A missing header is empty.
pub record Delivery : Type 0 where
  pub raw_body : Text
  pub signature : Text
  pub timestamp : Text
  pub webhook_id : Text

-- What the endpoint takes from outside: the keyed hash of a message in hexadecimal digits, the reading of
-- an integer, and the adapter that parses a body.
pub record Gateway : Type 0 where
  pub hmac_hex : (secret message : Text) → Text
  pub as_int : Text → Option ℕ
  pub parse_webhook : Text → Option TelephonyEvent
  pub secret : Text

-- The keys `seen_webhooks:` of Redis, each with the time at which it expires.
pub record WebhookStore : Type 0 where
  pub db : AppDb
  pub seen : List (Text × ℕ)

-- The status, and the event that is handed to its handler.
pub record WebhookResponse : Type 0 where
  pub status : ℕ
  pub handled : Option TelephonyEvent

abbrev pub bare : ℕ → WebhookResponse
bare status = record { status = status; handled = none }

unfoldable pub compute_signature : Gateway → (raw_body timestamp : Text) → Text
compute_signature g raw_body timestamp =
    codes "sha256=" ++ g.hmac_hex g.secret (timestamp ++ (codes "." ++ raw_body))

pub data SignatureCheck : Type 0 where
  valid invalid out_of_window : SignatureCheck

unfoldable pub replay_window_seconds : ℕ
replay_window_seconds = 300

-- More than the window apart, in either direction; `now` is in microseconds, `ts` in seconds.
abbrev pub is_out_of_window : (now ts : ℕ) → Bool
is_out_of_window now ts =
    ltb (seconds replay_window_seconds) (now - seconds ts)
    || ltb (seconds replay_window_seconds) (seconds ts - now)

unfoldable pub check_at : Gateway → ℕ → Delivery → Option ℕ → SignatureCheck
unfolding compute_signature replay_window_seconds
check_at g now d none = invalid
check_at g now d (some ts) =
    if is_out_of_window now ts
    then out_of_window
    else if text_eq (compute_signature g d.raw_body d.timestamp) d.signature
    then valid
    else invalid

unfoldable pub verify_agentphone_webhook : Gateway → (now : ℕ) → Delivery → SignatureCheck
unfolding check_at
verify_agentphone_webhook g now d =
    if is_empty d.signature || is_empty d.timestamp
    then invalid
    else check_at g now d (g.as_int d.timestamp)

abbrev pub publish_all : ℕ → List Frame → AppDb → AppDb
publish_all workspace_id [] db = db
publish_all workspace_id (f ∷ fs) db =
    publish_all workspace_id fs (publish_frame workspace_id f db).1

-- The answer to what the event came to; a raise leaves the session without a commit.
unfoldable pub answer_event :
    TelephonyEvent → (Result Materialized × AppDb) → Exec WebhookStore WebhookResponse
answer_event event (ok m, db) s = (
  ok (record { status = 200; handled = some event }),
  record s { db = publish_all m.workspace_id m.pending_frames db },
)
answer_event event (err not_found, db) s = (ok (bare 404), s)
answer_event event (err e, db) s = (err e, s)

unfoldable pub process_event : Arrival → Option TelephonyEvent → Exec WebhookStore WebhookResponse
unfolding answer_event materialize_scope_and_call
process_event a none s = (ok (bare 400), s)
process_event a (some event) s = answer_event event (materialize_scope_and_call a event s.db) s

unfoldable pub process_delivery : Gateway → Arrival → Delivery → Exec WebhookStore WebhookResponse
unfolding process_event
process_delivery g a d = process_event a (g.parse_webhook d.raw_body)

unfoldable pub webhook_dedupe_ttl_seconds : ℕ
webhook_dedupe_ttl_seconds = 7 * 24 * 60 * 60

-- Whether the key of an id is there.
unfoldable pub is_seen : (delivery_id : Text) → (now : ℕ) → List (Text × ℕ) → Bool
is_seen delivery_id now [] = false
is_seen delivery_id now ((id, expires) ∷ seen) =
    (text_eq id delivery_id && ltb now expires) || is_seen delivery_id now seen

-- `SET` with `NX` and `EX`
unfoldable pub claim_webhook_id :
    (delivery_id : Text) → (now : ℕ) → List (Text × ℕ) → Bool × List (Text × ℕ)
unfolding is_seen webhook_dedupe_ttl_seconds
claim_webhook_id delivery_id now seen =
    if is_seen delivery_id now seen
    then (false, seen)
    else (true, (delivery_id, now + seconds webhook_dedupe_ttl_seconds) ∷ seen)

-- A delivery without an id is not claimed.
unfoldable pub claim_and_process : Gateway → Arrival → Delivery → Exec WebhookStore WebhookResponse
unfolding process_delivery claim_webhook_id
claim_and_process g a d s =
    if is_empty d.webhook_id
    then process_delivery g a d s
    else (let (claimed, seen) = claim_webhook_id d.webhook_id a.now s.seen in
        if claimed then process_delivery g a d (record s { seen = seen }) else (ok (bare 200), s))

unfoldable pub checked_webhook :
    SignatureCheck → Gateway → Arrival → Delivery → Exec WebhookStore WebhookResponse
unfolding claim_and_process
checked_webhook valid g a d = claim_and_process g a d
checked_webhook invalid g a d = pure (bare 401)
checked_webhook out_of_window g a d = pure (bare 400)

unfoldable pub agentphone_webhook : Gateway → Arrival → Delivery → Exec WebhookStore WebhookResponse
unfolding checked_webhook verify_agentphone_webhook
agentphone_webhook g a d = checked_webhook (verify_agentphone_webhook g a.now d) g a d
