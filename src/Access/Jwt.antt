-- ===== src/Access/Jwt.antt =====
-- app/security/jwt.py. PyJWT is the pair of arguments `jwt_encode` and `jwt_decode`, which hold the
-- secret and the algorithm of the settings. Times are numbers of microseconds.
use vof_backend.Errors.{unauthenticated, Result, ok, err}
use vof_backend.Prelude.{
  if◌then◌else◌, get_or_else, ℕ, ◌+◌, ◌*◌, ◌/◌, Bool, true, false, Option, none, some, [],
}
use vof_backend.Text.{Text, is_empty}

-- `UserRole` of app/db/models/user.py
pub data Role : Type 0 where
  manager org_admin rep viewer : Role

pub data TokenType : Type 0 where
  access refresh : TokenType

-- The claims. A decoded payload may lack those that are read: `sub` is none where it is missing or no
-- UUID, `jti` where it is missing, and `token_type` where it is missing or another text.
pub record JwtPayload : Type 0 where
  pub sub : Option ℕ
  pub org : ℕ
  pub ws : Option ℕ
  pub role : Role
  pub iat : ℕ
  pub exp : ℕ
  pub jti : Option Text
  pub token_type : Option TokenType

pub record JwtSettings : Type 0 where
  pub jwt_access_ttl_seconds : ℕ
  pub jwt_refresh_ttl_seconds : ℕ

unfoldable pub default_ttl : JwtSettings → TokenType → ℕ
default_ttl settings access = settings.jwt_access_ttl_seconds
default_ttl settings refresh = settings.jwt_refresh_ttl_seconds

unfoldable pub expires_at : JwtSettings → TokenType → Option ℕ → (now : ℕ) → ℕ
unfolding default_ttl
expires_at settings token_type ttl_seconds now =
    now + get_or_else ttl_seconds (default_ttl settings token_type) * 1000000

-- `payload.get("type") == t`
unfoldable pub is_type : TokenType → Option TokenType → Bool
is_type t none = false
is_type access (some access) = true
is_type access (some refresh) = false
is_type refresh (some access) = false
is_type refresh (some refresh) = true

-- The `jti` that is used is the given one, if it is not empty, or else a new one.
unfoldable pub chosen_jti : Option Text → Text → Text
chosen_jti given fresh = let jti = get_or_else given [] in if is_empty jti then fresh else jti

unfoldable pub encode_token :
    (jwt_encode : JwtPayload → Text) (settings : JwtSettings) (user_id organization_id : ℕ)
    (workspace_id : Option ℕ) (role : Role) (token_type : TokenType) (ttl_seconds : Option ℕ)
    (jti : Option Text) (new_jti : Text) (now : ℕ)
    → Text × Text × ℕ
unfolding expires_at chosen_jti
encode_token jwt_encode settings user organization workspace role token_type ttl jti new_jti now =
    let ends = expires_at settings token_type ttl now in
    let id = chosen_jti jti new_jti in
    let payload : JwtPayload = record {
      sub = some user;
      org = organization;
      ws = workspace;
      role = role;
      iat = now / 1000000;
      exp = ends / 1000000;
      jti = some id;
      token_type = some token_type;
    } in
    (jwt_encode payload, id, ends)

-- `jwt_decode` is none where `jwt.decode` raises, for an expired token or any other reason.
unfoldable pub decode_token :
    (jwt_decode : (now : ℕ) → Text → Option JwtPayload) (token : Text)
    (expected_type : Option TokenType) (now : ℕ)
    → Result JwtPayload
unfolding is_type
decode_token jwt_decode token expected now = elim (jwt_decode now token) [
  | none ↦ err unauthenticated
  | some payload ↦ elim expected [
    | none ↦ ok payload
    | some t ↦ if is_type t payload.token_type then ok payload else err unauthenticated
  ]
]
