-- ===== src/Access/Issued.antt =====
-- The tokens that the program issues.
use vof_backend.Access.Guards.{User, get_by_id, subject_user, current_user}
use vof_backend.Access.Jwt.{
  Role, TokenType, access, refresh, JwtPayload, JwtSettings, expires_at, is_type, encode_token,
  decode_token,
}
use vof_backend.Errors.{unauthenticated, ok, err}
use vof_backend.Prelude.{ℕ, ◌+◌, ◌*◌, ◌≤◌, ◌<◌, ◌≡◌, refl, false, Option, none, some, List, arith}
use vof_backend.Text.{Text, is_empty}

module _ (jwt_encode : JwtPayload → Text) (jwt_decode : (now : ℕ) → Text → Option JwtPayload)
    (encode_nonempty : (p : JwtPayload) → is_empty (jwt_encode p) ≡ false)
    (decode_encode : (p : JwtPayload) (t : ℕ)
      → (p.iat * 1000000 ≤ t)
      → (t < p.exp * 1000000)
      → jwt_decode t (jwt_encode p) ≡ some p) where
  -- A token that decodes to its payload is taken by the payload's type and subject.
  decoded :
      (p : JwtPayload) (k : TokenType) (user t : ℕ) (users : List User)
      → p.sub ≡ some user
      → p.token_type ≡ some k
      → p.iat * 1000000 ≤ t
      → t < p.exp * 1000000
      → current_user jwt_decode (some (jwt_encode p)) t users ≡ elim k [
        | refresh ↦ err unauthenticated
        | access ↦ elim (get_by_id user users) [ none ↦ err unauthenticated | some u ↦ ok u ]
      ]
  unfolding current_user decode_token is_type subject_user
  decoded p access user t users hs hk h e =
      rw (encode_nonempty p, decode_encode p t h e, hk, hs) refl
  decoded p refresh user t users hs hk h e = rw (encode_nonempty p, decode_encode p t h e, hk) refl

  -- From its making until a second before its end, an access token that names a user of the table is
  -- taken as that user, one that names no user of the table is unauthenticated, and a refresh token is
  -- unauthenticated whomever it names. PyJWT's texts are not empty and are decoded again between the
  -- two times that they carry.
  pub current_user-encode_token :
      (settings : JwtSettings) (user organization : ℕ) (workspace : Option ℕ) (role : Role)
      (k : TokenType) (ttl : Option ℕ) (jti : Option Text) (new_jti : Text) (now t : ℕ)
      (users : List User)
      → now ≤ t
      → t + 1000000 ≤ expires_at settings k ttl now
      → current_user jwt_decode
          (some
            (encode_token jwt_encode settings user organization workspace role k ttl jti new_jti
              now).0)
          t
          users
        ≡ elim k [
          | refresh ↦ err unauthenticated
          | access ↦ elim (get_by_id user users) [ none ↦ err unauthenticated | some u ↦ ok u ]
        ]
  unfolding encode_token
  current_user-encode_token settings user org ws role k ttl jti new_jti now t users h e =
      decoded _ k user t users refl refl (omega arith) (omega arith)
