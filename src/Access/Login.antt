-- ===== src/Access/Login.antt =====
-- The login of app/services/auth_service.py, which commits nothing.
use vof_backend.Access.Guards.{User}
use vof_backend.Access.Jwt.{
  refresh, JwtPayload, JwtSettings, expires_at, is_type, chosen_jti, encode_token, decode_token,
}
use vof_backend.Access.Sessions.{
  RefreshToken, AuthTables, AuthSession, request, get_by_jti, record_token, IssuedTokens, NewIds,
  token_for, new_pair, new_row, issue_pair, refresh_claims, refresh_tokens_of, login,
}
use vof_backend.Errors.{unauthenticated, ok, err}
use vof_backend.Exec.{Exec, pure, ◌>>=◌, ◌>>◌, map_state}
use vof_backend.Prelude.{
  find_first, Bool-cases, Option-cases, is_some, ℕ, ◌+◌, ◌*◌, ◌≤◌, ◌<◌, ◌≡◌, refl, ap, ◌∙◌, subst,
  inl, inr, Bool, true, Option, none, some, arith,
}
use vof_backend.Text.{Text, text_eq, CaseMap}

record_token-committed :
    (t : RefreshToken) (s : AuthSession) → (record_token t s).1.committed ≡ s.committed
unfolding record_token
record_token-committed t s =
    elim (Bool-cases (is_some (get_by_jti t.jti s.current.refresh_tokens))) [
      | inl e ↦ rw e refl
      | inr e ↦ rw e refl
    ]

-- What a success of the end of a login says.
paired :
    {A B : Type 0} (m : Exec AuthSession Unit) (b : B) (a : A) (s : AuthSession) (x : A × B)
    → ((m >> pure b >>= λ y. pure (a, y)) s).0 ≡ ok x
    → x ≡ (a, b)
paired m b a s x h =
    elim (m s).0 as (λ r. (m s).0 ≡ r → x ≡ (a, b)) [
      | ok y ↦ λ e. ground arith
      | err y ↦ λ e. ground arith
    ]
      refl

module _ (jwt_encode : JwtPayload → Text) (jwt_decode : (now : ℕ) → Text → Option JwtPayload)
    (decode_encode : (p : JwtPayload) (t : ℕ)
      → (p.iat * 1000000 ≤ t)
      → (t < p.exp * 1000000)
      → jwt_decode t (jwt_encode p) ≡ some p)
    (settings : JwtSettings) (c : CaseMap) (verify_password : Text → Text → Bool)
    (email password : Text) (ids : NewIds) (now : ℕ) where
  abbrev logged_in : Exec AuthTables (User × IssuedTokens)
  logged_in =
      request (login jwt_encode jwt_decode settings c verify_password email password ids now)

  abbrev issued : User → Exec AuthSession (User × IssuedTokens)
  issued u = issue_pair jwt_encode jwt_decode settings u none ids now >>= λ pair. pure (u, pair)

  issue_pair-committed : (u : User) (s : AuthSession) → (issued u s).1.committed ≡ s.committed
  unfolding issue_pair
  issue_pair-committed u s =
      let m : Exec AuthSession Unit =
        record_token (new_row jwt_encode jwt_decode settings u none ids now) in
      let f : Unit → IssuedTokens = λ _. new_pair jwt_encode jwt_decode settings u ids now in
      let g : IssuedTokens → User × IssuedTokens = λ pair. (u, pair) in
      let pairs : Exec AuthSession IssuedTokens = m >>= λ x. pure (f x) in
      ap (λ x. x.committed) (map_state g pairs s)
      ∙ ap (λ x. x.committed) (map_state f m s)
      ∙ record_token-committed (new_row jwt_encode jwt_decode settings u none ids now) s

  issued_pair :
      (w : User) (s : AuthSession) (u : User) (pair : IssuedTokens)
      → (issued w s).0 ≡ ok (u, pair)
      → pair ≡ new_pair jwt_encode jwt_decode settings u ids now
  unfolding issue_pair
  issued_pair w s u pair h =
      let row = new_row jwt_encode jwt_decode settings w none ids now in
      let q =
        paired (record_token row) (new_pair jwt_encode jwt_decode settings w ids now) w s (u, pair)
          h in
      rw (ap (λ x. x.0) q) (ap (λ x. x.1) q)

  login-committed :
      (s : AuthSession)
      → (login jwt_encode jwt_decode settings c verify_password email password ids now
          s).1.committed
        ≡ s.committed
  unfolding login issue_pair
  login-committed s =
      elim (Option-cases (find_first (λ u. text_eq u.email (c.lower email)) s.current.users)) [
        | inl e ↦ rw (login, e) refl
        | inr (u, e) ↦ elim (Bool-cases (verify_password password u.password_hash)) [
          | inl v ↦ rw (login, e, v) (issue_pair-committed u s)
          | inr v ↦ rw (login, e, v) refl
        ]
      ]

  login_shape :
      (s : AuthSession) (w : User)
      → find_first (λ v. text_eq v.email (c.lower email)) s.current.users ≡ some w
      → verify_password password w.password_hash ≡ true
      → login jwt_encode jwt_decode settings c verify_password email password ids now s ≡ issued w s
  unfolding login
  login_shape s w e v = rw (login, e, v) refl

  login-pair :
      (s : AuthSession) (u : User) (pair : IssuedTokens)
      → (login jwt_encode jwt_decode settings c verify_password email password ids now s).0
        ≡ ok (u, pair)
      → pair ≡ new_pair jwt_encode jwt_decode settings u ids now
  unfolding login issue_pair
  login-pair s u pair h =
      elim (Option-cases (find_first (λ v. text_eq v.email (c.lower email)) s.current.users)) [
        | inl e ↦ absurd (ground arith)
        | inr (w, e) ↦ elim (Bool-cases (verify_password password w.password_hash)) [
          | inl v ↦ issued_pair w s u pair (subst (λ x. x.0 ≡ ok (u, pair)) (login_shape s w e v) h)
          | inr v ↦ absurd (ground arith)
        ]
      ]

  unknown_token :
      (p : JwtPayload) (j token : Text) (new : NewIds) (t : ℕ) (s : AuthSession)
      → jwt_decode t token ≡ some p
      → p.token_type ≡ some refresh
      → p.jti ≡ some j
      → get_by_jti j s.current.refresh_tokens ≡ none
      → refresh_tokens_of jwt_encode jwt_decode settings token new t s ≡ (err unauthenticated, s)
  unfolding refresh_tokens_of refresh_claims decode_token is_type
  unknown_token p j token new t s d k i g =
      rw (refresh_tokens_of, decode_token, d, k, refresh_claims, i, g) refl

  issued_unknown :
      (u : User) (new : NewIds) (t : ℕ) (s : AuthSession)
      → get_by_jti ids.refresh_jti s.current.refresh_tokens ≡ none
      → now ≤ t
      → t + 1000000 ≤ expires_at settings refresh none now
      → refresh_tokens_of jwt_encode jwt_decode settings
          (new_pair jwt_encode jwt_decode settings u ids now).refresh_token
          new
          t
          s
        ≡ (err unauthenticated, s)
  unfolding new_pair token_for encode_token chosen_jti
  issued_unknown u new t s g h e =
      unknown_token _ ids.refresh_jti _ new t s (decode_encode _ t (omega arith) (omega arith)) refl
        refl g

  -- A login that lets the user in leaves the tables as they were. So when its request has ended, a refresh
  -- with the refresh token that it gave is unauthenticated and changes nothing, from the login until a
  -- second before the token's end. This needs that the new
  -- id of the token is not that of another row, and that PyJWT decodes its own texts between the two
  -- times that they carry.
  pub login-refresh :
      (u : User) (pair : IssuedTokens) (new : NewIds) (t : ℕ) (db : AuthTables)
      → (logged_in db).0 ≡ ok (u, pair)
      → get_by_jti ids.refresh_jti db.refresh_tokens ≡ none
      → now ≤ t
      → t + 1000000 ≤ expires_at settings refresh none now
      → ((logged_in db).1 ≡ db)
        × (request
              (refresh_tokens_of jwt_encode jwt_decode settings pair.refresh_token new t)
              (logged_in db).1
            ≡ (err unauthenticated, db))
  unfolding request
  login-refresh u pair new t db h g n e =
      let s : AuthSession = record { committed = db; current = db } in
      let kept = login-committed s in
      let made = login-pair s u pair h in
      (kept, rw (kept, made) (ap (λ x. (x.0, x.1.committed)) (issued_unknown u new t s g n e)))
