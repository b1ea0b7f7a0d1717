-- ===== src/Email/Tests.antt =====
-- Emails and replies, and the properties at them.
use vof_backend.Access.Guards.{User}
use vof_backend.Access.Jwt.{Role}
use vof_backend.Db.Models.{ready, ManagerWorkspace}
use vof_backend.Email.Composer.{first_line, composed_of}
use vof_backend.Email.Delivery.{
  ready_to_send, idem_key, compose, route_skip, prepare, after_send, finish, run,
}
use vof_backend.Email.Keys.{Accounted}
use vof_backend.Email.Messages.{EmailDeliveryInput, Outbound, SendOutcome, accepted, EmailWorld}
use vof_backend.Email.Models.{
  manager, agentmail, post_call_summary, RecipientClass, ComposedEmail, SentMessage, EmailMessage,
}
use vof_backend.Email.Once.{deliveries, deliveries-Accounted, finish-finish}
use vof_backend.Email.Replies.{
  open_correction_intake, full_message, route_reply, on_reply, handle_event,
}
use vof_backend.Email.Repo.{exists_by_idem, create_email, find_by_message_ids}
use vof_backend.Email.Routed.{Routed, handle_event-Routed}
use vof_backend.Email.Senders.{
  received, ReceivedMessage, AgentMailEvent, ReplyWorld, get_by_email_inbox_id, get_manager_email,
  find_parent, from_addr, sender_of,
}
use vof_backend.Errors.{integrity, err}
use vof_backend.Prelude.{
  length, find_row, ℕ, ◌+◌, ◌≡◌, refl, false, Option, none, some, [], ◌∷◌, map,
}
use vof_backend.Text.{
  Text, codes, text_eq, contains, is_space, lstrip, rstrip, strip, starts_with, ascii,
}

abbrev workspace : ManagerWorkspace
workspace = record {
  id = 1;
  organization_id = 2;
  manager_user_id = some 5;
  name = codes "Acme";
  primary_number = none;
  agentphone_number_id = none;
  agentphone_agent_id = none;
  provisioning_state = ready;
  email_inbox_id = some (codes "stub_acme");
  email_inbox_addr = some (codes "acme@agentmail.to");
  email_domain = none;
}

abbrev summary : EmailDeliveryInput
summary = record {
  workspace_id = 1;
  trigger_kind = post_call_summary;
  trigger_ref_id = 9;
  recipient_class = manager;
  recipient_addr = codes "Ann@acme.com";
  delivery_route = agentmail;
  oauth_user_id = none;
  idempotency_key = some (codes "k1");
  precomposed = some (record { subject = codes "Call"; body = codes "Done."; html = none });
}

abbrev no_mail : EmailWorld
no_mail = record {
  workspaces = workspace ∷ [];
  emails = [];
  oauth_connected = λ k. false;
  outbox = [];
}

abbrev receipt : SentMessage
receipt = record { message_id = codes "m1"; thread_id = codes "t1"; sent_at = 30 }

abbrev no_artifact : Text → Option ℕ
no_artifact k = none

abbrev no_template : Text → ℕ → ManagerWorkspace → RecipientClass → Option Text
no_template t a w r = none

abbrev same_text : Text → Text
same_text t = t

abbrev sending : Outbound → SendOutcome
sending o = accepted receipt

composed_test :
    composed_of ascii (codes "Acme") (codes "Subject: Your call\n\nIt went well.\n")
    ≡ record { subject = codes "Your call"; body = codes "It went well."; html = none }
unfolding composed_of first_line strip lstrip rstrip is_space starts_with
composed_test = refl

run_test :
    length
      (deliveries ascii same_text no_artifact no_template sending
        ((1, summary) ∷ (2, summary) ∷ [])
        no_mail).outbox
    ≡ 1
unfolding run prepare finish after_send create_email exists_by_idem find_row compose idem_key
    route_skip text_eq
run_test = refl

deliveries-Accounted_example : Accounted (
    deliveries ascii same_text no_artifact no_template sending
      ((1, summary) ∷ (2, summary) ∷ [])
      no_mail)
deliveries-Accounted_example =
    deliveries-Accounted ascii same_text no_artifact no_template sending
      ((1, summary) ∷ (2, summary) ∷ []) no_mail (record { rows = refl; once = tt })

abbrev ann : User
ann = record {
  id = 5;
  organization_id = 2;
  workspace_id = some 1;
  field_employee_id = none;
  email = codes "ann@acme.com";
  password_hash = codes "h";
  role = Role.manager;
}

abbrev parent_row : EmailMessage
parent_row = record {
  id = 1;
  workspace_id = 1;
  organization_id = 2;
  provider = agentmail;
  provider_message_id = codes "m1";
  provider_thread_id = codes "t1";
  trigger_kind = post_call_summary;
  trigger_ref_id = 9;
  recipient_class = manager;
  recipient_addr = codes "ann@acme.com";
  sent_at = 30;
  correlation_idempotency_key = codes "k1";
}

abbrev mailbox : ReplyWorld
mailbox = record {
  workspaces = workspace ∷ [];
  users = ann ∷ [];
  field_employees = [];
  emails = parent_row ∷ [];
  corrections = [];
  items = [];
}

abbrev answer : AgentMailEvent
answer = record {
  event_type = received;
  message = record {
    message_id = codes "m2";
    inbox_id = some (codes "stub_acme");
    from_ = codes " Ann@Acme.com" ∷ [];
    subject = some (codes "Re: Call");
    text = some (codes "The price is wrong.");
    html = none;
    in_reply_to = codes "m1" ∷ [];
    references = [];
    timestamp = 40;
  };
}

abbrev no_fetch : Text → Option ReceivedMessage
no_fetch m = none

handle_event_test :
    map (λ k. k.source_ref_id) (handle_event ascii no_fetch 8 41 answer mailbox).1.corrections
    ≡ 9 ∷ []
unfolding handle_event get_by_email_inbox_id full_message on_reply find_parent sender_of from_addr
    route_reply open_correction_intake get_manager_email find_row text_eq contains
    find_by_message_ids strip lstrip rstrip is_space
handle_event_test = refl

handle_event-Routed_example :
    Routed ascii no_fetch 8 41 answer mailbox (handle_event ascii no_fetch 8 41 answer mailbox).1
handle_event-Routed_example = handle_event-Routed ascii no_fetch 8 41 answer mailbox

abbrev mail_text : ComposedEmail
mail_text = record { subject = codes "Call"; body = codes "Done."; html = none }

finish-finish_example :
    let first =
      (finish ascii same_text no_artifact no_template sending 1 summary
        (ready_to_send workspace (codes "k1") mail_text)
        no_mail).1 in
    let second =
      finish ascii same_text no_artifact no_template sending 2 summary
        (ready_to_send workspace (codes "k1") mail_text)
        first in
    (second.0 ≡ err integrity) × (length second.1.outbox ≡ length no_mail.outbox + 2)
unfolding prepare exists_by_idem find_row compose idem_key route_skip text_eq
finish-finish_example =
    finish-finish ascii same_text no_artifact no_template sending 1 2 summary no_mail workspace
      (codes "k1") mail_text receipt refl refl
