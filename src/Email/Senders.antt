-- ===== src/Email/Senders.antt =====
-- Whom a reply by email comes from, and what it answers: the lookups of `handle_event` of
-- app/miniagents/email_reply_handler.py, with `get_by_email` of
-- app/db/repositories/field_employees_repo.py. The second look for the parent, after half a second,
-- finds what is there by then: it is the list of emails of the event.
use vof_backend.Access.Guards.{User, user_key}
use vof_backend.Db.Models.{FieldEmployee, ManagerWorkspace}
use vof_backend.Email.Models.{TriggerKind, EmailMessage}
use vof_backend.Email.Repo.{find_by_message_ids}
use vof_backend.Errors.{Result, ok, err}
use vof_backend.Intake.Models.{IntakeBufferItem}
use vof_backend.Intake.Repo.{one_or_none}
use vof_backend.Prelude.{
  select, find_first, find_row, ◌==◌, if◌then◌else◌, ℕ, Bool, true, false, not, ◌&&◌, ◌||◌, Option,
  none, some, List, [], ◌∷◌, ◌++◌,
}
use vof_backend.Text.{Text, is_empty, text_eq, strip, CaseMap}

pub data EventType : Type 0 where
  received bounced complained rejected_event delivered : EventType

pub record ReceivedMessage : Type 0 where
  pub message_id : Text
  pub inbox_id : Option Text
  pub from_ : List Text
  pub subject : Option Text
  pub text : Option Text
  pub html : Option Text
  pub in_reply_to : List Text
  pub references : List Text
  pub timestamp : ℕ

pub record AgentMailEvent : Type 0 where
  pub event_type : EventType
  pub message : ReceivedMessage

-- A row of `correction_intakes`, which is open.
pub record CorrectionIntake : Type 0 where
  pub id : ℕ
  pub workspace_id : ℕ
  pub organization_id : ℕ
  pub target_user_id : ℕ
  pub source_ref_id : ℕ
  pub reply_body : Text
  pub from_addr : Text
  pub subject : Text
  pub parent_email_message_id : ℕ
  pub parent_trigger_kind : TriggerKind

pub record ReplyWorld : Type 0 where
  pub workspaces : List ManagerWorkspace
  pub users : List User
  pub field_employees : List FieldEmployee
  pub emails : List EmailMessage
  pub corrections : List CorrectionIntake
  pub items : List IntakeBufferItem

abbrev pub is_received : EventType → Bool
is_received received = true
is_received _ = false

abbrev pub has_text : Option Text → Text → Bool
has_text none t = false
has_text (some s) t = text_eq s t

abbrev pub has_number : Option ℕ → ℕ → Bool
has_number none n = false
has_number (some m) n = m == n

unfoldable pub get_by_email_inbox_id :
    Text → List ManagerWorkspace → Result (Option ManagerWorkspace)
get_by_email_inbox_id inbox_id ws =
    if is_empty inbox_id
    then ok none
    else one_or_none (select (λ w. has_text w.email_inbox_id inbox_id) ws)

unfoldable pub get_manager_email : ManagerWorkspace → List User → Option Text
get_manager_email w users = elim w.manager_user_id [
  | none ↦ none
  | some i ↦ elim (find_row user_key i users) [ none ↦ none | some u ↦ some u.email ]
]

-- A user with the address is linked to the employee.
unfoldable pub linked : Text → ℕ → List User → Bool
linked email fe_id [] = false
linked email fe_id (u ∷ us) =
    (text_eq u.email email && has_number u.field_employee_id fe_id) || linked email fe_id us

abbrev pub is_linked : (workspace_id : ℕ) → Text → List User → FieldEmployee → Bool
is_linked workspace_id email users f = f.workspace_id == workspace_id && linked email f.id users

abbrev pub has_profile : (workspace_id : ℕ) → Text → FieldEmployee → Bool
has_profile workspace_id email f = f.workspace_id == workspace_id && has_text f.profile_email email

-- The employee of a user, and else the one whose profile has the address.
abbrev pub or_profile : Option FieldEmployee → List FieldEmployee → Result (Option FieldEmployee)
or_profile (some f) fes = ok (some f)
or_profile none fes = one_or_none fes

unfoldable pub get_by_email :
    CaseMap
    → (workspace_id : ℕ) → Text
    → List User
    → List FieldEmployee
    → Result (Option FieldEmployee)
unfolding linked
get_by_email c workspace_id email users fes =
    let email_n = c.lower (strip email) in
    if is_empty email
    then ok none
    else or_profile (find_first (is_linked workspace_id email_n users) fes)
        (select (has_profile workspace_id email_n) fes)

-- The first email of the workspace that the reply names.
unfoldable pub find_parent :
    ManagerWorkspace → ReceivedMessage → List EmailMessage → Option EmailMessage
unfolding find_by_message_ids
find_parent w m emails =
    find_first (λ e. e.workspace_id == w.id)
      (find_by_message_ids (m.in_reply_to ++ m.references) emails)

abbrev pub first_text : List Text → Text
first_text [] = []
first_text (t ∷ ts) = t

pub data Sender : Type 0 where
  manager_sender unknown_sender : Sender
  rep_sender : FieldEmployee → Sender

module _ (c : CaseMap) where
  unfoldable pub from_addr : ReceivedMessage → Text
  from_addr m = c.lower (strip (first_text m.from_))

  abbrev pub is_manager : Option Text → Text → Bool
  is_manager none from = false
  is_manager (some email) from = not (is_empty email) && text_eq from (c.lower email)

  unfoldable pub sender_of : ManagerWorkspace → Text → ReplyWorld → Result Sender
  unfolding get_manager_email get_by_email
  sender_of w from v =
      if is_manager (get_manager_email w v.users) from
      then ok manager_sender
      else elim (get_by_email c w.id from v.users v.field_employees) [
        | err e ↦ err e
        | ok none ↦ ok unknown_sender
        | ok (some f) ↦ ok (rep_sender f)
      ]
