-- ===== src/Telephony/Events.antt =====
-- app/telephony/events.py. Fields that no modelled code reads are left out.
use vof_backend.Prelude.{ℕ, Bool, Option}
use vof_backend.Text.{Text}

pub record WebhookScope : Type 0 where
  pub workspace_id : ℕ
  pub field_employee_id : Option ℕ

pub record InboundVoiceTurn : Type 0 where
  pub scope : Option WebhookScope
  pub ap_call_id : Text
  pub ap_number_id : Text
  pub ap_agent_id : Text
  pub from_number : Text
  pub to_number : Text
  pub transcript : Text
  pub delivery_timestamp : Option ℕ

pub record InboundSms : Type 0 where
  pub scope : Option WebhookScope
  pub from_number : Text
  pub to_number : Text
  pub body : Text
  pub ap_conversation_id : Text
  pub delivery_timestamp : Option ℕ

pub record CallEnded : Type 0 where
  pub scope : Option WebhookScope
  pub ap_call_id : Text
  pub ap_number_id : Text
  pub ap_agent_id : Text
  pub from_number : Text
  pub to_number : Text
  pub provider_summary : Option Text
  pub user_sentiment : Option Text
  pub call_successful : Option Bool
  pub ended_at : Option ℕ

pub record ReactionReceived : Type 0 where
  pub scope : Option WebhookScope
  pub reaction_type : Text

pub data TelephonyEvent : Type 0 where
  voice_event : InboundVoiceTurn → TelephonyEvent
  sms_event : InboundSms → TelephonyEvent
  ended_event : CallEnded → TelephonyEvent
  reaction_event : ReactionReceived → TelephonyEvent
