-- ===== src/Access/Guards.antt =====
-- The guards of app/deps.py, and the row of app/db/models/user.py.
use vof_backend.Access.Jwt.{Role, manager, org_admin, rep, access, JwtPayload, decode_token}
use vof_backend.Errors.{forbidden, unauthenticated, key_error, Result, ok, err}
use vof_backend.Prelude.{
  find_row, ◌==◌, if◌then◌else◌, ℕ, Bool, true, false, not, ◌||◌, Option, none, some, List,
}
use vof_backend.Text.{Text, is_empty}

pub record User : Type 0 where
  pub id : ℕ
  pub organization_id : ℕ
  pub workspace_id : Option ℕ
  pub field_employee_id : Option ℕ
  pub email : Text
  pub password_hash : Text
  pub role : Role

abbrev pub user_key : User → ℕ
user_key u = u.id

unfoldable pub get_by_id : ℕ → List User → Option User
get_by_id user_id users = find_row user_key user_id users

unfoldable pub is_manager : Role → Bool
is_manager manager = true
is_manager _ = false

unfoldable pub is_org_admin : Role → Bool
is_org_admin org_admin = true
is_org_admin _ = false

unfoldable pub is_rep : Role → Bool
is_rep rep = true
is_rep _ = false

-- A `sub` that is missing or no UUID raises an exception of Python.
unfoldable pub subject_user : JwtPayload → List User → Result User
unfolding get_by_id
subject_user payload users = elim payload.sub [
  | none ↦ err key_error
  | some user_id ↦ elim (get_by_id user_id users) [ none ↦ err unauthenticated | some u ↦ ok u ]
]

unfoldable pub current_user :
    (jwt_decode : (now : ℕ) → Text → Option JwtPayload) (token : Option Text) (now : ℕ)
    (users : List User)
    → Result User
unfolding decode_token subject_user
current_user jwt_decode none now users = err unauthenticated
current_user jwt_decode (some token) now users =
    if is_empty token
    then err unauthenticated
    else elim (decode_token jwt_decode token (some access) now) [
      | err e ↦ err e
      | ok payload ↦ subject_user payload users
    ]

-- `user.workspace_id is None or str(user.workspace_id) != str(workspace_id)`, negated
unfoldable pub is_in_workspace : Option ℕ → ℕ → Bool
is_in_workspace none workspace_id = false
is_in_workspace (some w) workspace_id = w == workspace_id

unfoldable pub require_workspace_access : (workspace_id : ℕ) → User → Result User
unfolding is_in_workspace is_manager
require_workspace_access workspace_id user =
    if not (is_in_workspace user.workspace_id workspace_id)
    then err forbidden
    else if not (is_manager user.role)
    then err forbidden
    else ok user

unfoldable pub require_org_access : (organization_id : ℕ) → User → Result User
unfolding is_org_admin
require_org_access organization_id user =
    if not (is_org_admin user.role) || not (user.organization_id == organization_id)
    then err forbidden
    else ok user

unfoldable pub require_rep_access : User → Result User
unfolding is_rep
require_rep_access user = if not (is_rep user.role) then err forbidden else ok user
