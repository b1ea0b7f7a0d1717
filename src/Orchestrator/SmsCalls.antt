-- ===== src/Orchestrator/SmsCalls.antt =====
-- The texts of one conversation belong to one call.
use vof_backend.Db.{AppDb}
use vof_backend.Db.Models.{Call, FieldEmployee, ManagerWorkspace}
use vof_backend.Errors.{Result, ok}
use vof_backend.Exec.{Exec, pure, ◌>>=◌, >>=-eq-ok, >>=-ok}
use vof_backend.Orchestrator.SmsScope.{
  SmsEnv, sms_key, some_text, sms_employee, employee_id, sms_call, sms_scope,
}
use vof_backend.Prelude.{
  find_first, ◌==◌, Bool-cases, Option-cases, or_else, get_or_else, ℕ, ◌≡◌, refl, ap, ◌∙◌, subst,
  inl, inr, Bool, true, false, ◌&&◌, Option, none, some, List, [], ◌∷◌, ◌++◌, arith,
}
use vof_backend.Telephony.Calls.{get_by_agentphone_id, create_call, new_call}
use vof_backend.Telephony.Events.{InboundSms}
use vof_backend.Telephony.Roster.{find_by_phone, unprofiled_name, create_unprofiled}
use vof_backend.Text.{Text, is_empty, text_eq, text_eq_refl}

find_first-last {ℓ} :
    {A : Type ℓ} (hit : A → Bool) (xs : List A) (a : A)
    → find_first hit xs ≡ none
    → hit a ≡ true
    → find_first hit (xs ++ (a ∷ [])) ≡ some a
find_first-last hit [] a h k = rw k refl
find_first-last hit (x ∷ xs) a h k = ground (arith, find_first-last hit xs a)

module _ (id w o : ℕ) (phone : Text) (db : AppDb) where
  abbrev made : FieldEmployee
  made = record {
    id = id;
    workspace_id = w;
    organization_id = o;
    name = unprofiled_name none phone;
    phone = phone;
    profiled = false;
    profile_email = none;
  }

  abbrev hired : AppDb
  hired = record db { field_employees = db.field_employees ++ (made ∷ []) }

  create_unprofiled-made :
      find_by_phone w phone db ≡ none
      → (create_unprofiled id w o phone none db ≡ (ok made, hired))
        × (find_by_phone w phone hired ≡ some made)
  unfolding create_unprofiled find_by_phone
  create_unprofiled-made h = (
    rw h refl,
    find_first-last (λ f. f.workspace_id == w && text_eq f.phone phone) db.field_employees made h
        (ground (arith, text_eq_refl phone)),
  )

get_by_agentphone_id-create_call :
    (c c' : Call) (db db1 : AppDb)
    → get_by_agentphone_id c.agentphone_call_id db ≡ none
    → create_call c db ≡ (ok c', db1)
    → (get_by_agentphone_id c.agentphone_call_id db1 ≡ some c')
      × (db1.field_employees ≡ db.field_employees)
unfolding create_call get_by_agentphone_id
get_by_agentphone_id-create_call c c' db db1 h e = ground (
  arith,
  find_first-last {0} (λ (x : Call). text_eq x.agentphone_call_id c.agentphone_call_id) db.calls c h
      (text_eq_refl c.agentphone_call_id),
)

find_by_phone-table :
    (w : ℕ) (phone : Text) (db1 db2 : AppDb)
    → db2.field_employees ≡ db1.field_employees
    → find_by_phone w phone db2 ≡ find_by_phone w phone db1
unfolding find_by_phone
find_by_phone-table w phone db1 db2 t = rw t refl

-- An employee who was found or made is found again by the number, as long as the table stays.
sms_employee-again :
    (env env' : SmsEnv) (e e' : InboundSms) (w : ManagerWorkspace) (fe : Option FieldEmployee)
    (db db1 db2 : AppDb)
    → sms_employee env e w db ≡ (ok fe, db1)
    → e'.from_number ≡ e.from_number
    → db2.field_employees ≡ db1.field_employees
    → sms_employee env' e' w db2 ≡ (ok fe, db2)
unfolding sms_employee
sms_employee-again env env' e e' w fe db db1 db2 h n t =
    elim (Bool-cases (is_empty e.from_number)) [
      | inl x ↦ ground arith
      | inr x ↦ elim (Option-cases (find_by_phone w.id e.from_number db)) [
        | inl y ↦
            let (creates, finds) =
              create_unprofiled-made env.new_employee_id w.id w.organization_id e.from_number db
                y in
            ground (arith, find_by_phone-table w.id e.from_number db1 db2 t)
        | inr (f, y) ↦ ground (arith, find_by_phone-table w.id e.from_number db1 db2 t)
      ]
    ]

sms_call-again :
    (env env' : SmsEnv) (e e' : InboundSms) (w : ManagerWorkspace) (fe fe' : Option FieldEmployee)
    (c : Call) (db db1 : AppDb)
    → sms_call env e w fe db ≡ (ok c, db1)
    → sms_key e' w ≡ sms_key e w
    → (sms_call env' e' w fe' db1 ≡ (ok c, db1)) × (db1.field_employees ≡ db.field_employees)
unfolding sms_call new_call
sms_call-again env env' e e' w fe fe' c db db1 h n =
    elim (Option-cases (get_by_agentphone_id (sms_key e w) db)) [
      | inl y ↦ ground (
        arith,
        get_by_agentphone_id-create_call
            (new_call env.new_call_id w.id w.organization_id (sms_key e w) (some_text e.from_number)
              (or_else (some_text e.to_number) w.primary_number)
              (get_or_else e.delivery_timestamp env.now) (employee_id fe))
            c db db1,
      )
      | inr (b, y) ↦ ground arith
    ]

sms_key-same :
    (e e' : InboundSms) (w : ManagerWorkspace)
    → e'.from_number ≡ e.from_number
    → e'.ap_conversation_id ≡ e.ap_conversation_id
    → sms_key e' w ≡ sms_key e w
unfolding sms_key
sms_key-same e e' w n a = rw (n, a) refl

-- When a text message has found or made its employee and its call, each later one of the same conversation
-- and the same number, in the tables that it left, comes to the same employee and call and makes
-- nothing. A conversation is that of the provider, or else that of the workspace and the number.
pub sms_scope-again :
    (env env' : SmsEnv) (e e' : InboundSms) (w : ManagerWorkspace) (c : Call)
    (fe : Option FieldEmployee) (db db1 : AppDb)
    → sms_scope env e w db ≡ (ok (c, fe), db1)
    → e'.from_number ≡ e.from_number
    → e'.ap_conversation_id ≡ e.ap_conversation_id
    → sms_scope env' e' w db1 ≡ (ok (c, fe), db1)
unfolding sms_scope
sms_scope-again env env' e e' w c fe db db1 h n a =
    let paired : Option FieldEmployee → Call → Exec AppDb (Call × Option FieldEmployee) =
      λ f c. pure (c, f) in
    let next : Option FieldEmployee → Exec AppDb (Call × Option FieldEmployee) =
      λ f. sms_call env e w f >>= paired f in
    let next' : Option FieldEmployee → Exec AppDb (Call × Option FieldEmployee) =
      λ f. sms_call env' e' w f >>= paired f in
    let (f, found, rest) = >>=-eq-ok (sms_employee env e w) next db db1 (c, fe) h in
    let db' = (sms_employee env e w db).1 in
    let (c', called, ends) = >>=-eq-ok (sms_call env e w f) (paired f) db' db1 (c, fe) rest in
    let db2 = (sms_call env e w f db').1 in
    let key = sms_key-same e e' w n a in
    let (again, kept) = sms_call-again env env' e e' w f f c' db' db2 called key in
    let employee = sms_employee-again env env' e e' w f db db' db2 found n kept in
    let same : db2 ≡ db1 = ap (λ (x : Result (Call × Option FieldEmployee) × AppDb). x.1) ends in
    subst (λ d. sms_scope env' e' w d ≡ (ok (c, fe), d)) same
      (>>=-ok (sms_employee env' e' w) next' db2 db2 f employee
        ∙ >>=-ok (sms_call env' e' w f) (paired f) db2 db2 c' again
        ∙ ap (λ (x : Result (Call × Option FieldEmployee) × AppDb). (x.0, db2)) ends)
