-- ===== src/Email/Models.antt =====
-- app/db/models/email_message.py and app/email/schemas.py.
use vof_backend.Prelude.{ℕ, Option}
use vof_backend.Text.{Text, codes}

pub data DeliveryRoute : Type 0 where
  agentmail oauth_personal : DeliveryRoute

pub data TriggerKind : Type 0 where
  post_call_summary daily_brief missed_decisions action_item_handler : TriggerKind

pub data RecipientClass : Type 0 where
  manager rep external_customer : RecipientClass

unfoldable pub trigger_text : TriggerKind → Text
trigger_text post_call_summary = codes "post_call_summary"
trigger_text daily_brief = codes "daily_brief"
trigger_text missed_decisions = codes "missed_decisions"
trigger_text action_item_handler = codes "action_item_handler"

unfoldable pub class_text : RecipientClass → Text
class_text manager = codes "manager"
class_text rep = codes "rep"
class_text external_customer = codes "external_customer"

pub record ComposedEmail : Type 0 where
  pub subject : Text
  pub body : Text
  pub html : Option Text

pub record SentMessage : Type 0 where
  pub message_id : Text
  pub thread_id : Text
  pub sent_at : ℕ

pub record EmailMessage : Type 0 where
  pub id : ℕ
  pub workspace_id : ℕ
  pub organization_id : ℕ
  pub provider : DeliveryRoute
  pub provider_message_id : Text
  pub provider_thread_id : Text
  pub trigger_kind : TriggerKind
  pub trigger_ref_id : ℕ
  pub recipient_class : RecipientClass
  pub recipient_addr : Text
  pub sent_at : ℕ
  pub correlation_idempotency_key : Text
