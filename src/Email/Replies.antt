-- ===== src/Email/Replies.antt =====
-- `handle_event` of app/miniagents/email_reply_handler.py and app/services/correction_intake.py.
use vof_backend.Access.Guards.{User}
use vof_backend.Db.Models.{FieldEmployee, ManagerWorkspace}
use vof_backend.Email.Models.{EmailMessage}
use vof_backend.Email.Senders.{
  ReceivedMessage, AgentMailEvent, CorrectionIntake, ReplyWorld, is_received, has_number,
  get_by_email_inbox_id, find_parent, Sender, manager_sender, unknown_sender, rep_sender, from_addr,
  sender_of,
}
use vof_backend.Errors.{ok, err}
use vof_backend.Exec.{Exec}
use vof_backend.Intake.Models.{
  rep_email_followup, ongoing_update, via_email_reply, IntakeBufferItem,
}
use vof_backend.Intake.Repo.{new_intake_item}
use vof_backend.Prelude.{
  find_first, if◌then◌else◌, is_some, or_else, get_or_else, ℕ, ◌||◌, Option, none, some, List, [],
  ◌∷◌, ◌++◌,
}
use vof_backend.Text.{Text, CaseMap}

module _ (c : CaseMap) where
  unfoldable pub open_correction_intake :
      (id : ℕ)
      → ManagerWorkspace
      → (target_user_id : ℕ) → ReceivedMessage
      → EmailMessage
      → CorrectionIntake
  unfolding from_addr
  open_correction_intake id w target_user_id m parent = record {
    id = id;
    workspace_id = w.id;
    organization_id = w.organization_id;
    target_user_id = target_user_id;
    source_ref_id = parent.trigger_ref_id;
    reply_body = get_or_else m.text [];
    from_addr = from_addr c m;
    subject = get_or_else m.subject [];
    parent_email_message_id = parent.id;
    parent_trigger_kind = parent.trigger_kind;
  }

-- The user of the employee, or the Manager
unfoldable pub submitter_of : FieldEmployee → ManagerWorkspace → List User → Option ℕ
submitter_of f w users =
    or_else
      (elim (find_first (λ u. has_number u.field_employee_id f.id) users) [
        | none ↦ none
        | some u ↦ some u.id
      ])
      w.manager_user_id

unfoldable pub followup_item :
    (id now : ℕ)
    → ManagerWorkspace
    → (submitted_by : ℕ) → FieldEmployee
    → ReceivedMessage
    → EmailMessage
    → IntakeBufferItem
unfolding new_intake_item
followup_item id now w submitted_by f m parent =
    let item : IntakeBufferItem = new_intake_item (record {
      id = id;
      workspace_id = w.id;
      organization_id = w.organization_id;
      submitted_by_user_id = submitted_by;
      source = rep_email_followup;
      purpose = ongoing_update;
      content_text = some (get_or_else m.text []);
      content_blob_key = none;
      content_mime = none;
      content_filename = none;
      content_sha256 = none;
      created_at = now;
    }) in
    record item {
      classification = some (via_email_reply parent.trigger_ref_id f.id parent.id m.timestamp);
    }

module _ (c : CaseMap) (fetch_full : Text → Option ReceivedMessage) (new_id now : ℕ) where
  -- A message without a body is fetched again; a failure is logged.
  unfoldable pub full_message : ReceivedMessage → ReceivedMessage
  full_message m =
      if is_some m.text || is_some m.html then m else get_or_else (fetch_full m.message_id) m

  unfoldable pub route_reply :
      ManagerWorkspace → ReceivedMessage → EmailMessage → Sender → Exec ReplyWorld Unit
  unfolding open_correction_intake submitter_of followup_item
  route_reply w m parent unknown_sender v = (ok tt, v)
  route_reply w m parent manager_sender v = elim w.manager_user_id [
    | none ↦ (ok tt, v)
    | some user_id ↦ (
      ok tt,
      record v {
        corrections = v.corrections ++ (open_correction_intake c new_id w user_id m parent ∷ []);
      },
    )
  ]
  route_reply w m parent (rep_sender f) v = elim (submitter_of f w v.users) [
    | none ↦ (ok tt, v)
    | some by ↦
        (ok tt, record v { items = v.items ++ (followup_item new_id now w by f m parent ∷ []) })
  ]

  -- A message to the inbox of a workspace
  unfoldable pub on_reply : ManagerWorkspace → ReceivedMessage → Exec ReplyWorld Unit
  unfolding find_parent sender_of from_addr route_reply
  on_reply w m v = elim (find_parent w m v.emails) [
    | none ↦ (ok tt, v)
    | some parent ↦ elim (sender_of c w (from_addr c m) v) [
      | err e ↦ (err e, v)
      | ok sender ↦ route_reply w m parent sender v
    ]
  ]

  unfoldable pub handle_event : AgentMailEvent → Exec ReplyWorld Unit
  unfolding get_by_email_inbox_id full_message on_reply
  handle_event e v = elim (get_by_email_inbox_id (get_or_else e.message.inbox_id []) v.workspaces) [
    | err x ↦ (err x, v)
    | ok none ↦ (ok tt, v)
    | ok (some w) ↦
        if is_received e.event_type then on_reply w (full_message e.message) v else (ok tt, v)
  ]

  -- app/api/webhooks/agentmail.py: an exception is logged.
  unfoldable pub agentmail_webhook : Option AgentMailEvent → ReplyWorld → ReplyWorld
  unfolding handle_event
  agentmail_webhook none v = v
  agentmail_webhook (some e) v = (handle_event e v).1
