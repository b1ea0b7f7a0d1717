-- ===== src/Telephony/Roster.antt =====
-- `find_by_phone` and `create_unprofiled` of app/db/repositories/field_employees_repo.py.
use vof_backend.Db.{AppDb}
use vof_backend.Db.Models.{FieldEmployee}
use vof_backend.Errors.{integrity, ok, err}
use vof_backend.Exec.{Exec}
use vof_backend.Prelude.{
  length, drop, find_first, ◌==◌, if◌then◌else◌, is_some, get_or_else, ℕ, ◌-◌, false, ◌&&◌, Option,
  none, [], ◌∷◌, ◌++◌,
}
use vof_backend.Text.{Text, codes, is_empty, text_eq}

-- Phones are unique in a workspace.
unfoldable pub find_by_phone : ℕ → Text → AppDb → Option FieldEmployee
find_by_phone workspace_id phone db =
    find_first (λ f. f.workspace_id == workspace_id && text_eq f.phone phone) db.field_employees

-- `phone[-4:]`
abbrev last_four : Text → Text
last_four phone = drop (length phone - 4) phone

-- The name of a caller with no number is fixed, also where a provisional name is given.
unfoldable pub unprofiled_name : Option Text → Text → Text
unprofiled_name provisional phone =
    if is_empty phone
    then codes "Unknown caller"
    else let given = get_or_else provisional [] in
      if is_empty given then codes "Unknown caller " ++ last_four phone else given

unfoldable pub create_unprofiled :
    (new_id workspace_id organization_id : ℕ) (phone : Text) (provisional_name : Option Text)
    → Exec AppDb FieldEmployee
unfolding unprofiled_name find_by_phone
create_unprofiled new_id workspace_id organization_id phone provisional db =
    let f : FieldEmployee = record {
      id = new_id;
      workspace_id = workspace_id;
      organization_id = organization_id;
      name = unprofiled_name provisional phone;
      phone = phone;
      profiled = false;
      profile_email = none;
    } in
    if is_some (find_by_phone workspace_id phone db)
    then (err integrity, db)
    else (ok f, record db { field_employees = db.field_employees ++ (f ∷ []) })
