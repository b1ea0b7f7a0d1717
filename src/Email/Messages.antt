-- ===== src/Email/Messages.antt =====
-- The input, the result and the tables of app/miniagents/email_delivery.py.
use vof_backend.Db.Models.{ManagerWorkspace}
use vof_backend.Email.Models.{
  DeliveryRoute, TriggerKind, RecipientClass, ComposedEmail, SentMessage, EmailMessage,
}
use vof_backend.Prelude.{ℕ, Bool, Option, List}
use vof_backend.Text.{Text}

pub record EmailDeliveryInput : Type 0 where
  pub workspace_id : ℕ
  pub trigger_kind : TriggerKind
  pub trigger_ref_id : ℕ
  pub recipient_class : RecipientClass
  pub recipient_addr : Text
  pub delivery_route : DeliveryRoute
  pub oauth_user_id : Option ℕ
  pub idempotency_key : Option Text
  pub precomposed : Option ComposedEmail

-- The arguments of `provider.send`, with the two headers.
pub record Outbound : Type 0 where
  pub route : DeliveryRoute
  pub inbox_id : Option Text
  pub oauth_user_id : Option ℕ
  pub to : Text
  pub composed : ComposedEmail
  pub reply_to : Option Text
  pub message_id : Text
  pub workspace_header : Option ℕ

-- What `provider.send` does: `NotImplementedError`, or another exception by its class.
pub data SendOutcome : Type 0 where
  accepted : SentMessage → SendOutcome
  not_implemented : SendOutcome
  send_raised : (class : Text) → SendOutcome

pub data SkipReason : Type 0 where
  unknown_workspace inbox_not_provisioned oauth_disconnected already_sent_idempotent : SkipReason
  no_template_or_precomposed artifact_load_failed oauth_connector_unavailable : SkipReason
  send_failed : (class : Text) → SkipReason

pub data EmailDeliveryResult : Type 0 where
  skipped : SkipReason → EmailDeliveryResult
  sent : SentMessage → EmailDeliveryResult

-- The tables, the workspaces with a credential that is not revoked, and what the providers accepted.
pub record EmailWorld : Type 0 where
  pub workspaces : List ManagerWorkspace
  pub emails : List EmailMessage
  pub oauth_connected : ℕ → Bool
  pub outbox : List Outbound
