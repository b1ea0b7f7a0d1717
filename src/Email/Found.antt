-- ===== src/Email/Found.antt =====
-- What the lookups of a reply find belongs to the workspace that they look in.
use vof_backend.Access.Guards.{User}
use vof_backend.Db.Models.{FieldEmployee, ManagerWorkspace}
use vof_backend.Email.Models.{EmailMessage}
use vof_backend.Email.Repo.{find_by_message_ids}
use vof_backend.Email.Senders.{
  ReceivedMessage, has_text, get_by_email_inbox_id, is_linked, has_profile, or_profile,
  get_by_email, find_parent,
}
use vof_backend.Errors.{ok}
use vof_backend.Intake.Repo.{one_or_none}
use vof_backend.Prelude.{
  find_first-test, select, find_first, All, All-kept, ◌==◌, Bool-cases, ℕ, ◌≡◌, refl, subst, inl,
  inr, Bool, true, Option, none, some, List, [], ◌∷◌, ◌++◌, arith,
}
use vof_backend.Text.{Text, is_empty, strip, CaseMap}

-- A list of at most one row that is kept has a row that passes the test.
pub one_or_none-test {ℓ} :
    {A : Type ℓ} (keep : A → Bool) (xs : List A) (a : A)
    → one_or_none (select keep xs) ≡ ok (some a)
    → keep a ≡ true
one_or_none-test {A = A} keep xs a h = only (select keep xs) (All-kept keep xs) h
  where
    only :
        (ys : List A) → All (λ x. keep x ≡ true) ys → one_or_none ys ≡ ok (some a) → keep a ≡ true
    only [] k e = absurd (cc)
    only (y ∷ []) k e = let same : y ≡ a = cc in subst (λ x. keep x ≡ true) same k.0
    only (y ∷ (z ∷ zs)) k e = absurd (cc)

pub find_parent-workspace :
    (w : ManagerWorkspace) (m : ReceivedMessage) (emails : List EmailMessage) (p : EmailMessage)
    → find_parent w m emails ≡ some p
    → (p.workspace_id == w.id) ≡ true
unfolding find_parent
find_parent-workspace w m emails p h =
    find_first-test (λ e. e.workspace_id == w.id)
      (find_by_message_ids (m.in_reply_to ++ m.references) emails) p h

or_profile-workspace :
    (k : ℕ) (email : Text) (users : List User) (fes : List FieldEmployee)
    (found : Option FieldEmployee) (f : FieldEmployee)
    → find_first (is_linked k email users) fes ≡ found
    → or_profile found (select (has_profile k email) fes) ≡ ok (some f)
    → (f.workspace_id == k) ≡ true
or_profile-workspace k email users fes none f e h =
    ground (arith, one_or_none-test (has_profile k email) fes f h)
or_profile-workspace k email users fes (some x) f e h =
    ground (arith, find_first-test (is_linked k email users) fes x e)

pub get_by_email-workspace :
    (c : CaseMap) (k : ℕ) (email : Text) (users : List User) (fes : List FieldEmployee)
    (f : FieldEmployee)
    → get_by_email c k email users fes ≡ ok (some f)
    → (f.workspace_id == k) ≡ true
unfolding get_by_email
get_by_email-workspace c k email users fes f h = elim (Bool-cases (is_empty email)) [
  | inl e ↦ absurd (ground (arith, e))
  | inr e ↦
      or_profile-workspace k (c.lower (strip email)) users fes
        (find_first (is_linked k (c.lower (strip email)) users) fes) f refl (ground (arith, e))
]

pub inbox_of :
    (inbox_id : Text) (ws : List ManagerWorkspace) (w : ManagerWorkspace)
    → get_by_email_inbox_id inbox_id ws ≡ ok (some w)
    → has_text w.email_inbox_id inbox_id ≡ true
unfolding get_by_email_inbox_id
inbox_of inbox_id ws w h = elim (Bool-cases (is_empty inbox_id)) [
  | inl e ↦ absurd (ground (arith, e))
  | inr e ↦ one_or_none-test (λ x. has_text x.email_inbox_id inbox_id) ws w (ground (arith, e))
]
