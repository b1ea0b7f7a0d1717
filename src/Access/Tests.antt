-- ===== src/Access/Tests.antt =====
-- A library of tokens that lists the claims, a table of two users, and the guards on them.
use vof_backend.Access.Guards.{
  User, get_by_id, is_manager, is_org_admin, current_user, is_in_workspace,
  require_workspace_access, require_org_access, require_rep_access,
}
use vof_backend.Access.Issued.{current_user-encode_token}
use vof_backend.Access.Jwt.{
  Role, manager, org_admin, rep, viewer, TokenType, access, refresh, JwtPayload, JwtSettings,
  default_ttl, expires_at, is_type, encode_token, decode_token,
}
use vof_backend.Access.Scoped.{require_workspace_access-only}
use vof_backend.Errors.{forbidden, unauthenticated, ok, err}
use vof_backend.Prelude.{
  ltb, ◌==◌, if◌then◌else◌, ℕ, zero, suc, ◌*◌, ◌≤◌, ◌<◌, ◌≡◌, refl, false, Option, none, some, [],
  ◌∷◌, arith,
}
use vof_backend.Text.{Text, codes}

abbrev option_code : Option ℕ → ℕ
option_code none = 0
option_code (some n) = suc n

abbrev option_of : ℕ → Option ℕ
option_of zero = none
option_of (suc n) = some n

option_of-option_code : (o : Option ℕ) → option_of (option_code o) ≡ o
option_of-option_code none = refl
option_of-option_code (some n) = refl

abbrev role_code : Role → ℕ
role_code manager = 0
role_code org_admin = 1
role_code rep = 2
role_code viewer = 3

abbrev role_of : ℕ → Role
role_of zero = manager
role_of (suc zero) = org_admin
role_of (suc (suc zero)) = rep
role_of _ = viewer

role_of-role_code : (r : Role) → role_of (role_code r) ≡ r
role_of-role_code manager = refl
role_of-role_code org_admin = refl
role_of-role_code rep = refl
role_of-role_code viewer = refl

abbrev type_code : Option TokenType → ℕ
type_code none = 0
type_code (some access) = 1
type_code (some refresh) = 2

abbrev type_of : ℕ → Option TokenType
type_of (suc zero) = some access
type_of (suc (suc zero)) = some refresh
type_of _ = none

type_of-type_code : (k : Option TokenType) → type_of (type_code k) ≡ k
type_of-type_code none = refl
type_of-type_code (some access) = refl
type_of-type_code (some refresh) = refl

abbrev jti_code : Option Text → Text
jti_code none = []
jti_code (some j) = 0 ∷ j

abbrev jti_of : Text → Option Text
jti_of [] = none
jti_of (_ ∷ j) = some j

jti_of-jti_code : (o : Option Text) → jti_of (jti_code o) ≡ o
jti_of-jti_code none = refl
jti_of-jti_code (some j) = refl

abbrev pub listed : JwtPayload → Text
listed p =
    option_code p.sub
    ∷ p.org
    ∷ option_code p.ws
    ∷ role_code p.role
    ∷ p.iat
    ∷ p.exp
    ∷ type_code p.token_type
    ∷ jti_code p.jti

abbrev pub unlisted : (now : ℕ) → Text → Option JwtPayload
unlisted now (s ∷ o ∷ w ∷ r ∷ i ∷ e ∷ k ∷ j) =
    if ltb now (e * 1000000)
    then some (record {
      sub = option_of s;
      org = o;
      ws = option_of w;
      role = role_of r;
      iat = i;
      exp = e;
      jti = jti_of j;
      token_type = type_of k;
    })
    else none
unlisted now _ = none

pub unlisted-listed :
    (p : JwtPayload) (t : ℕ)
    → (p.iat * 1000000 ≤ t)
    → (t < p.exp * 1000000)
    → unlisted t (listed p) ≡ some p
unlisted-listed p t h e =
    rw
      (
        option_of-option_code p.sub,
        option_of-option_code p.ws,
        role_of-role_code p.role,
        type_of-type_code p.token_type,
        jti_of-jti_code p.jti,
      )
      (ground arith)

abbrev pub settings : JwtSettings
settings = record { jwt_access_ttl_seconds = 3600; jwt_refresh_ttl_seconds = 2592000 }

abbrev pub ann : User
ann = record {
  id = 1;
  organization_id = 7;
  workspace_id = some 5;
  email = codes "a";
  field_employee_id = none;
  password_hash = codes "h";
  role = manager;
}

abbrev pub bob : User
bob = record {
  id = 2;
  organization_id = 7;
  workspace_id = none;
  email = codes "b";
  field_employee_id = none;
  password_hash = codes "h";
  role = org_admin;
}

abbrev token_of_ann : TokenType → Text
token_of_ann k =
    (encode_token listed settings 1 7 (some 5) manager k none none (codes "j") 1500000).0

current_user-encode_token_example :
    current_user unlisted (some (token_of_ann access)) 60000000 (bob ∷ ann ∷ []) ≡ ok ann
unfolding get_by_id vof_backend.Prelude.find_row expires_at default_ttl
current_user-encode_token_example =
    current_user-encode_token listed unlisted (λ p. refl) unlisted-listed settings 1 7 (some 5)
      manager access none none (codes "j") 1500000 60000000 (bob ∷ ann ∷ []) (omega arith)
      (omega arith)

require_workspace_access-only_example :
    (ann ≡ ann)
    × (ann.role ≡ manager)
    × (ann.workspace_id ≡ some 5)
    × ((w' : ℕ) → (5 == w') ≡ false → require_workspace_access w' ann ≡ err forbidden)
    × ((o : ℕ) → require_org_access o ann ≡ err forbidden)
    × (require_rep_access ann ≡ err forbidden)
unfolding require_workspace_access is_in_workspace is_manager
require_workspace_access-only_example = require_workspace_access-only 5 ann ann refl

-- A refresh token of the same user, and an access token after its hour, are refused.
refresh_refused :
    current_user unlisted (some (token_of_ann refresh)) 60000000 (bob ∷ ann ∷ [])
    ≡ err unauthenticated
unfolding current_user encode_token decode_token is_type
refresh_refused = refl

access_expired :
    current_user unlisted (some (token_of_ann access)) 3601500000 (bob ∷ ann ∷ [])
    ≡ err unauthenticated
unfolding current_user encode_token decode_token expires_at default_ttl
access_expired = refl

-- The administrator of the organization passes its guard and not that of a workspace.
admin_scope :
    (require_org_access 7 bob ≡ ok bob)
    × (require_org_access 8 bob ≡ err forbidden)
    × (require_workspace_access 5 bob ≡ err forbidden)
unfolding require_org_access require_workspace_access is_org_admin is_in_workspace
admin_scope = (refl, refl, refl)
