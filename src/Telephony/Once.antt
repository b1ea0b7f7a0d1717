-- ===== src/Telephony/Once.antt =====
-- How often a delivery is processed.
use vof_backend.Db.{AppDb}
use vof_backend.Db.Models.{seconds}
use vof_backend.Errors.{Result, ok}
use vof_backend.Prelude.{
  ltb, if◌then◌else◌, Bool-cases, ℕ, ◌+◌, ◌≤◌, ◌≡◌, refl, ap, ◌∙◌, inl, inr, true, false, Option,
  none, some, List, [], ◌∷◌, arith,
}
use vof_backend.Telephony.Events.{TelephonyEvent}
use vof_backend.Telephony.Materialize.{materialize_scope_and_call}
use vof_backend.Telephony.Voice.{Arrival, Materialized}
use vof_backend.Telephony.Webhook.{
  Delivery, Gateway, WebhookStore, bare, valid, verify_agentphone_webhook, answer_event,
  process_event, process_delivery, webhook_dedupe_ttl_seconds, is_seen, claim_webhook_id,
  claim_and_process, checked_webhook, agentphone_webhook,
}
use vof_backend.Text.{Text, is_empty, text_eq_refl}

answer_event-seen :
    (event : TelephonyEvent) (r : Result Materialized × AppDb) (s : WebhookStore)
    → (answer_event event r s).1.seen ≡ s.seen
unfolding answer_event
answer_event-seen event r s = ground arith

process_event-seen :
    (a : Arrival) (event : Option TelephonyEvent) (s : WebhookStore)
    → (process_event a event s).1.seen ≡ s.seen
unfolding process_event
process_event-seen a none s = refl
process_event-seen a (some event) s =
    answer_event-seen event (materialize_scope_and_call a event s.db) s

process_delivery-seen :
    (g : Gateway) (a : Arrival) (d : Delivery) (s : WebhookStore)
    → (process_delivery g a d s).1.seen ≡ s.seen
unfolding process_delivery
process_delivery-seen g a d s = process_event-seen a (g.parse_webhook d.raw_body) s

-- A key that has expired does not come back.
is_seen-later :
    (id : Text) (now later : ℕ) (seen : List (Text × ℕ))
    → now ≤ later
    → is_seen id now seen ≡ false
    → is_seen id later seen ≡ false
unfolding is_seen
is_seen-later id now later [] h n = refl
is_seen-later id now later ((k, expires) ∷ seen) h n =
    ground (arith, is_seen-later id now later seen)

module _ (g : Gateway) (a : Arrival) (d : Delivery) (s : WebhookStore)
    (named : is_empty d.webhook_id ≡ false)
    (unseen : is_seen d.webhook_id a.now s.seen ≡ false) where
  -- The claims with that of a new delivery
  abbrev with_claim : WebhookStore
  with_claim = record s {
    seen = (d.webhook_id, a.now + seconds webhook_dedupe_ttl_seconds) ∷ s.seen;
  }

  unseen_processed : claim_and_process g a d s ≡ process_delivery g a d with_claim
  unfolding claim_and_process claim_webhook_id
  unseen_processed = rw (named, unseen) refl

  claimed : (claim_and_process g a d s).1.seen ≡ with_claim.seen
  claimed = ap (λ r. r.1.seen) unseen_processed ∙ process_delivery-seen g a d with_claim

  seen_until :
      (now : ℕ)
      → is_seen d.webhook_id now with_claim.seen
        ≡ ltb now (a.now + seconds webhook_dedupe_ttl_seconds)
  unfolding is_seen webhook_dedupe_ttl_seconds
  seen_until now = elim (Bool-cases (ltb now (a.now + seconds webhook_dedupe_ttl_seconds))) [
    | inl e ↦ ground (arith, text_eq_refl d.webhook_id)
    | inr e ↦ ground (arith, text_eq_refl d.webhook_id, is_seen-later d.webhook_id a.now now s.seen)
  ]

seen_again :
    (g : Gateway) (a : Arrival) (d : Delivery) (s : WebhookStore)
    → is_empty d.webhook_id ≡ false
    → is_seen d.webhook_id a.now s.seen ≡ true
    → claim_and_process g a d s ≡ (ok (bare 200), s)
unfolding claim_and_process claim_webhook_id
seen_again g a d s n c = rw (n, c) refl

valid_webhook :
    (g : Gateway) (a : Arrival) (d : Delivery) (s : WebhookStore)
    → verify_agentphone_webhook g a.now d ≡ valid
    → agentphone_webhook g a d s ≡ claim_and_process g a d s
unfolding agentphone_webhook
valid_webhook g a d s v = ap (λ x. checked_webhook x g a d s) v

-- A delivery with a valid signature and an id that is new has been taken in, whatever came of it and also
-- if it raised. Then another with a valid signature and the same id, in the seven days from then, is
-- answered with 200, handed to no handler, and changes nothing; after them it is claimed and processed
-- like a new one.
pub agentphone_webhook-once :
    (g : Gateway) (a a' : Arrival) (d d' : Delivery) (s : WebhookStore)
    → verify_agentphone_webhook g a.now d ≡ valid
    → verify_agentphone_webhook g a'.now d' ≡ valid
    → is_empty d.webhook_id ≡ false
    → is_seen d.webhook_id a.now s.seen ≡ false
    → d'.webhook_id ≡ d.webhook_id
    → let s1 = (agentphone_webhook g a d s).1 in
      agentphone_webhook g a' d' s1 ≡ (
        if ltb a'.now (a.now + seconds webhook_dedupe_ttl_seconds)
        then (ok (bare 200), s1)
        else process_delivery g a' d' (record s1 {
          seen = (d'.webhook_id, a'.now + seconds webhook_dedupe_ttl_seconds) ∷ s1.seen;
        }))
agentphone_webhook-once g a a' d d' s v v' n u i =
    let s1 = (claim_and_process g a d s).1 in
    let named : is_empty d'.webhook_id ≡ false = ap is_empty i ∙ n in
    let seen : is_seen d'.webhook_id a'.now s1.seen
        ≡ ltb a'.now (a.now + seconds webhook_dedupe_ttl_seconds) =
      rw (i, claimed g a d s n u) (seen_until g a d s n u a'.now) in
    rw (valid_webhook g a d s v, valid_webhook g a' d' s1 v')
      (elim (Bool-cases (ltb a'.now (a.now + seconds webhook_dedupe_ttl_seconds))) [
        | inl e ↦ rw e (seen_again g a' d' s1 named (seen ∙ e))
        | inr e ↦ rw e (unseen_processed g a' d' s1 named (seen ∙ e))
      ])
