-- ===== src/Email/Routed.antt =====
-- Which replies are acted on.
use vof_backend.Db.Models.{FieldEmployee, ManagerWorkspace}
use vof_backend.Email.Found.{find_parent-workspace, get_by_email-workspace, inbox_of}
use vof_backend.Email.Models.{EmailMessage}
use vof_backend.Email.Replies.{
  open_correction_intake, submitter_of, followup_item, full_message, route_reply, on_reply,
  handle_event,
}
use vof_backend.Email.Senders.{
  is_manager, ReceivedMessage, AgentMailEvent, ReplyWorld, is_received, has_text,
  get_by_email_inbox_id, get_manager_email, get_by_email, find_parent, Sender, manager_sender,
  unknown_sender, rep_sender, from_addr, sender_of,
}
use vof_backend.Errors.{Result, ok, err}
use vof_backend.Prelude.{
  ◌==◌, Bool-cases, Option-cases, get_or_else, ℕ, ◌≡◌, refl, inl, inr, true, Option, none, some, [],
  ◌∷◌, ◌++◌, arith,
}
use vof_backend.Text.{Text, CaseMap}

module _ (c : CaseMap) (fetch_full : Text → Option ReceivedMessage) (new_id now : ℕ)
    (e : AgentMailEvent) (v : ReplyWorld) where
  -- A reply to an email of the workspace of the inbox that it came to.
  pub record Answers (w : ManagerWorkspace) (parent : EmailMessage) : Type 0 where
    pub inbox : has_text w.email_inbox_id (get_or_else e.message.inbox_id []) ≡ true
    pub named :
        find_parent w (full_message c fetch_full new_id now e.message) v.emails ≡ some parent
    pub own : (parent.workspace_id == w.id) ≡ true

  -- What an event comes to: nothing, a correction from the Manager, or an item from an employee.
  pub data Routed (r : ReplyWorld) : Type 0 where
    dropped : r ≡ v → Routed r
    corrected :
        (w : ManagerWorkspace) (parent : EmailMessage) (user_id : ℕ)
        → Answers w parent
        → w.manager_user_id ≡ some user_id
        → is_manager c
            (get_manager_email w v.users)
            (from_addr c (full_message c fetch_full new_id now e.message))
          ≡ true
        → r ≡ record v {
          corrections =
              v.corrections
              ++ (open_correction_intake c new_id w user_id
                    (full_message c fetch_full new_id now e.message)
                    parent
                  ∷ []);
        }
        → Routed r
    followed_up :
        (w : ManagerWorkspace) (parent : EmailMessage) (f : FieldEmployee) (by : ℕ)
        → Answers w parent
        → get_by_email c w.id
            (from_addr c (full_message c fetch_full new_id now e.message))
            v.users
            v.field_employees
          ≡ ok (some f)
        → (f.workspace_id == w.id) ≡ true
        → r ≡ record v {
          items =
              v.items
              ++ (followup_item new_id now w by f
                    (full_message c fetch_full new_id now e.message)
                    parent
                  ∷ []);
        }
        → Routed r

  abbrev full : ReceivedMessage
  full = full_message c fetch_full new_id now e.message

  module _ (w : ManagerWorkspace) (parent : EmailMessage) (answers : Answers w parent) where
    route_manager :
        is_manager c (get_manager_email w v.users) (from_addr c full) ≡ true
        → Routed (route_reply c fetch_full new_id now w full parent manager_sender v).1
    unfolding route_reply
    route_manager h = elim (Option-cases w.manager_user_id) [
      | inl none_there ↦ dropped (rw none_there refl)
      | inr (user_id, there) ↦ corrected w parent user_id answers there h (rw there refl)
    ]

    route_rep :
        (f : FieldEmployee)
        → get_by_email c w.id (from_addr c full) v.users v.field_employees ≡ ok (some f)
        → Routed (route_reply c fetch_full new_id now w full parent (rep_sender f) v).1
    unfolding route_reply
    route_rep f found =
        let own =
          get_by_email-workspace c w.id (from_addr c full) v.users v.field_employees f found in
        elim (Option-cases (submitter_of f w v.users)) [
          | inl none_there ↦ dropped (rw (route_reply, none_there) refl)
          | inr (by, there) ↦
              followed_up w parent f by answers found own (rw (route_reply, there) refl)
        ]

    route_sender :
        (s : Sender)
        → sender_of c w (from_addr c full) v ≡ ok s
        → Routed (route_reply c fetch_full new_id now w full parent s v).1
    unfolding sender_of route_reply
    route_sender unknown_sender h = dropped refl
    route_sender manager_sender h =
        route_manager
          (by_manager (get_by_email c w.id (from_addr c full) v.users v.field_employees) refl)
      where
        by_manager :
            (r : Result (Option FieldEmployee))
            → get_by_email c w.id (from_addr c full) v.users v.field_employees ≡ r
            → is_manager c (get_manager_email w v.users) (from_addr c full) ≡ true
        by_manager (err x) k = ground (arith, h, k)
        by_manager (ok none) k = ground (arith, h, k)
        by_manager (ok (some f)) k = ground (arith, h, k)
    route_sender (rep_sender f) h =
        route_rep f (by_rep (get_by_email c w.id (from_addr c full) v.users v.field_employees) refl)
      where
        by_rep :
            (r : Result (Option FieldEmployee))
            → get_by_email c w.id (from_addr c full) v.users v.field_employees ≡ r
            → get_by_email c w.id (from_addr c full) v.users v.field_employees ≡ ok (some f)
        by_rep (err x) k = ground (arith, h, k)
        by_rep (ok none) k = ground (arith, h, k)
        by_rep (ok (some g)) k = ground (arith, h, k)

  on_reply-Routed :
      (w : ManagerWorkspace)
      → has_text w.email_inbox_id (get_or_else e.message.inbox_id []) ≡ true
      → Routed (on_reply c fetch_full new_id now w full v).1
  unfolding on_reply
  on_reply-Routed w inbox = elim (Option-cases (find_parent w full v.emails)) [
    | inl none_there ↦ dropped (rw (on_reply, none_there) refl)
    | inr (parent, there) ↦
        let answers : Answers w parent = record {
          inbox = inbox;
          named = there;
          own = find_parent-workspace w full v.emails parent there;
        } in
        by_sender parent there answers (sender_of c w (from_addr c full) v) refl
  ]
    where
      by_sender :
          (parent : EmailMessage)
          → find_parent w full v.emails ≡ some parent
          → Answers w parent
          → (s : Result Sender) → sender_of c w (from_addr c full) v ≡ s
          → Routed (on_reply c fetch_full new_id now w full v).1
      by_sender parent there answers (err x) k = dropped (rw (on_reply, there, k) refl)
      by_sender parent there answers (ok s) k =
          rw (on_reply, there, k) (route_sender w parent answers s k)

  -- An event changes nothing, or adds one row. It adds a correction for the Manager of a workspace, or an
  -- item for an employee of it, only where the message came to the inbox of that workspace, answers an email
  -- that the workspace sent, and its sender's address is that of the Manager, or leads to the employee.
  pub handle_event-Routed : Routed (handle_event c fetch_full new_id now e v).1
  unfolding handle_event
  handle_event-Routed =
      by_inbox (get_by_email_inbox_id (get_or_else e.message.inbox_id []) v.workspaces) refl
    where
      by_inbox :
          (r : Result (Option ManagerWorkspace))
          → get_by_email_inbox_id (get_or_else e.message.inbox_id []) v.workspaces ≡ r
          → Routed (handle_event c fetch_full new_id now e v).1
      by_inbox (err x) k = dropped (rw (handle_event, k) refl)
      by_inbox (ok none) k = dropped (rw (handle_event, k) refl)
      by_inbox (ok (some w)) k = elim (Bool-cases (is_received e.event_type)) [
        | inl there ↦
            rw (handle_event, k, there)
              (on_reply-Routed w (inbox_of (get_or_else e.message.inbox_id []) v.workspaces w k))
        | inr other ↦ dropped (rw (handle_event, k, other) refl)
      ]
