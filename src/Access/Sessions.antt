-- ===== src/Access/Sessions.antt =====
-- app/services/auth_service.py and app/db/repositories/refresh_tokens_repo.py. The session of a request
-- has what was committed and what its transaction made of it; what is not committed is rolled back at
-- the end of the request, as app/db/app_session.py leaves it.
use vof_backend.Access.Guards.{User, get_by_id}
use vof_backend.Access.Jwt.{
  TokenType, access, refresh, JwtPayload, JwtSettings, encode_token, decode_token,
}
use vof_backend.Errors.{not_found, forbidden, unauthenticated, integrity, key_error, ok, err}
use vof_backend.Exec.{Exec, pure, ◌>>=◌, ◌>>◌, modify}
use vof_backend.Prelude.{
  find_first, ltb, ◌==◌, if◌then◌else◌, is_some, ℕ, Bool, not, ◌&&◌, Option, none, some, List, [],
  ◌∷◌, ◌++◌,
}
use vof_backend.Text.{Text, text_eq, CaseMap}

-- `revoked_reason`
pub data RevokedReason : Type 0 where
  rotated reuse_detected logged_out : RevokedReason

pub record RefreshToken : Type 0 where
  pub user_id : ℕ
  pub jti : Text
  pub parent_jti : Option Text
  pub expires_at : ℕ
  pub revoked_at : Option ℕ
  pub revoked_reason : Option RevokedReason

pub record AuthTables : Type 0 where
  pub users : List User
  pub refresh_tokens : List RefreshToken

pub record AuthSession : Type 0 where
  pub committed : AuthTables
  pub current : AuthTables

unfoldable pub commit : AuthSession → AuthSession
commit s = record s { committed = s.current }

-- A request: a new session, and the tables that it leaves.
unfoldable pub request : {A : Type 0} → Exec AuthSession A → Exec AuthTables A
request m db = let (r, s) = m (record { committed = db; current = db }) in (r, s.committed)

unfoldable pub get_by_jti : Text → List RefreshToken → Option RefreshToken
get_by_jti jti tokens = find_first (λ t. text_eq t.jti jti) tokens

unfoldable pub revoked_token : (now : ℕ) → RevokedReason → RefreshToken → RefreshToken
revoked_token now reason t = record t { revoked_at = some now; revoked_reason = some reason }

-- `update … where … revoked_at is null`
unfoldable pub revoke_where :
    (RefreshToken → Bool) → (now : ℕ) → RevokedReason → List RefreshToken → List RefreshToken
unfolding revoked_token
revoke_where p now reason [] = []
revoke_where p now reason (t ∷ ts) =
    let rest = revoke_where p now reason ts in
    if p t && not (is_some t.revoked_at) then revoked_token now reason t ∷ rest else t ∷ rest

abbrev set_tokens : List RefreshToken → AuthSession → AuthSession
set_tokens ts s = record s { current = record s.current { refresh_tokens = ts } }

unfoldable pub revoke : Text → RevokedReason → (now : ℕ) → AuthSession → AuthSession
unfolding revoke_where
revoke jti reason now s =
    set_tokens (revoke_where (λ t. text_eq t.jti jti) now reason s.current.refresh_tokens) s

unfoldable pub revoke_user_chain :
    (user_id : ℕ) → RevokedReason → (now : ℕ) → AuthSession → AuthSession
unfolding revoke_where
revoke_user_chain user_id reason now s =
    set_tokens (revoke_where (λ t. t.user_id == user_id) now reason s.current.refresh_tokens) s

-- The column `jti` is unique.
unfoldable pub record_token : RefreshToken → Exec AuthSession Unit
unfolding get_by_jti
record_token t s =
    if is_some (get_by_jti t.jti s.current.refresh_tokens)
    then (err integrity, s)
    else (ok tt, set_tokens (s.current.refresh_tokens ++ (t ∷ [])) s)

pub record IssuedTokens : Type 0 where
  pub access_token : Text
  pub refresh_token : Text
  pub expires_in : ℕ

-- The ids that `uuid.uuid4` gives to the two tokens of a pair.
pub record NewIds : Type 0 where
  pub access_jti : Text
  pub refresh_jti : Text

module _ (jwt_encode : JwtPayload → Text) (jwt_decode : (now : ℕ) → Text → Option JwtPayload)
    (settings : JwtSettings) where
  unfoldable pub token_for : User → TokenType → (new_jti : Text) → (now : ℕ) → Text × Text × ℕ
  unfolding encode_token
  token_for u k new_jti now =
      encode_token jwt_encode settings u.id u.organization_id u.workspace_id u.role k none none
        new_jti now

  unfoldable pub new_pair : User → NewIds → (now : ℕ) → IssuedTokens
  unfolding token_for
  new_pair u ids now = record {
    access_token = (token_for u access ids.access_jti now).0;
    refresh_token = (token_for u refresh ids.refresh_jti now).0;
    expires_in = settings.jwt_access_ttl_seconds;
  }

  unfoldable pub new_row : User → (parent_jti : Option Text) → NewIds → (now : ℕ) → RefreshToken
  unfolding token_for
  new_row u parent ids now =
      let (_, refresh_jti, ends) = token_for u refresh ids.refresh_jti now in
      record {
        user_id = u.id;
        jti = refresh_jti;
        parent_jti = parent;
        expires_at = ends;
        revoked_at = none;
        revoked_reason = none;
      }

  unfoldable pub issue_pair :
      User → (parent_jti : Option Text) → NewIds → (now : ℕ) → Exec AuthSession IssuedTokens
  unfolding new_pair new_row record_token
  issue_pair u parent ids now s =
      (record_token (new_row u parent ids now) >> pure (new_pair u ids now)) s

  -- After the checks of the refresh: the rotation, which commits.
  unfoldable pub rotate : User → (jti : Text) → NewIds → (now : ℕ) → Exec AuthSession IssuedTokens
  unfolding revoke issue_pair commit
  rotate u jti ids now s =
      (issue_pair u (some jti) ids now >>= λ pair. modify commit >> pure pair)
        (revoke jti rotated now s)

  -- The checks of the row of the token.
  unfoldable pub refresh_row :
      RefreshToken → (jti : Text) → NewIds → (now : ℕ) → Exec AuthSession IssuedTokens
  unfolding rotate revoke_user_chain commit get_by_id
  refresh_row row jti ids now s =
      if is_some row.revoked_at
      then (err forbidden, commit (revoke_user_chain row.user_id reuse_detected now s))
      else if ltb row.expires_at now
      then (err unauthenticated, s)
      else elim (get_by_id row.user_id s.current.users) [
        | none ↦ (err not_found, s)
        | some u ↦ rotate u jti ids now s
      ]

  unfoldable pub refresh_claims : JwtPayload → NewIds → (now : ℕ) → Exec AuthSession IssuedTokens
  unfolding refresh_row get_by_jti
  refresh_claims payload ids now s = elim payload.jti [
    | none ↦ (err key_error, s)
    | some jti ↦ elim (get_by_jti jti s.current.refresh_tokens) [
      | none ↦ (err unauthenticated, s)
      | some row ↦ refresh_row row jti ids now s
    ]
  ]

  unfoldable pub refresh_tokens_of :
      (refresh_token : Text) → NewIds → (now : ℕ) → Exec AuthSession IssuedTokens
  refresh_tokens_of token ids now s = elim (decode_token jwt_decode token (some refresh) now) [
    | err e ↦ (err e, s)
    | ok payload ↦ refresh_claims payload ids now s
  ]

  unfoldable pub logout : (refresh_token : Text) → (now : ℕ) → Exec AuthSession Unit
  unfolding revoke commit
  logout token now s = elim (decode_token jwt_decode token (some refresh) now) [
    | err e ↦ (ok tt, s)
    | ok payload ↦ elim payload.jti [
      | none ↦ (err key_error, s)
      | some jti ↦ (ok tt, commit (revoke jti logged_out now s))
    ]
  ]

  -- `verify_password` is of app/security/hashing.py, which calls a library.
  unfoldable pub login :
      (c : CaseMap) (verify_password : Text → Text → Bool) (email password : Text)
      → NewIds
      → (now : ℕ) → Exec AuthSession (User × IssuedTokens)
  unfolding issue_pair
  login c verify_password email password ids now s =
      elim (find_first (λ u. text_eq u.email (c.lower email)) s.current.users) [
        | none ↦ (err forbidden, s)
        | some u ↦
            if not (verify_password password u.password_hash)
            then (err forbidden, s)
            else (issue_pair u none ids now >>= λ pair. pure (u, pair)) s
      ]
