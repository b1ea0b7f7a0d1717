-- ===== src/Access/Rotation.antt =====
-- A refresh token that is used, and the one of a login.
use vof_backend.Access.Guards.{User, get_by_id}
use vof_backend.Access.Jwt.{refresh, JwtPayload, JwtSettings, decode_token}
use vof_backend.Access.Sessions.{
  RevokedReason, rotated, reuse_detected, RefreshToken, AuthTables, AuthSession, commit, request,
  get_by_jti, revoked_token, revoke_where, revoke, revoke_user_chain, record_token, IssuedTokens,
  NewIds, new_pair, new_row, issue_pair, rotate, refresh_row, refresh_claims, refresh_tokens_of,
}
use vof_backend.Errors.{forbidden, ok, err}
use vof_backend.Exec.{Exec, pure, ◌>>=◌, ◌>>◌, modify, map_state}
use vof_backend.Prelude.{
  ltb, ◌==◌, Bool-cases, Option-cases, is_some, ℕ, ◌≡◌, refl, sym, ap, subst, inl, inr, true, false,
  Option, some, List, [], ◌∷◌, ◌++◌, arith,
}
use vof_backend.Text.{Text, text_eq}

get_by_jti-revoke_where :
    (j : Text) (now : ℕ) (k : RevokedReason) (ts : List RefreshToken) (r : RefreshToken)
    → get_by_jti j ts ≡ some r
    → is_some r.revoked_at ≡ false
    → get_by_jti j (revoke_where (λ t. text_eq t.jti j) now k ts) ≡ some (revoked_token now k r)
unfolding get_by_jti revoke_where revoked_token
get_by_jti-revoke_where j now k [] r h n = cc
get_by_jti-revoke_where j now k (t ∷ ts) r h n =
    ground (arith, get_by_jti-revoke_where j now k ts r)

get_by_jti-append :
    (j : Text) (ts us : List RefreshToken) (r : RefreshToken)
    → get_by_jti j ts ≡ some r
    → get_by_jti j (ts ++ us) ≡ some r
unfolding get_by_jti
get_by_jti-append j [] us r h = cc
get_by_jti-append j (t ∷ ts) us r h = ground (arith, get_by_jti-append j ts us r)

revoke_where-revoked :
    (u : ℕ) (j : Text) (now : ℕ) (k : RevokedReason) (ts : List RefreshToken) (r : RefreshToken)
    → get_by_jti j (revoke_where (λ t. t.user_id == u) now k ts) ≡ some r
    → (r.user_id == u) ≡ true
    → is_some r.revoked_at ≡ true
unfolding get_by_jti revoke_where revoked_token
revoke_where-revoked u j now k [] r h e = cc
revoke_where-revoked u j now k (t ∷ ts) r h e = ground (arith, revoke_where-revoked u j now k ts r)

-- A row that is added leaves those that are there.
get_by_jti-record_token :
    (t : RefreshToken) (j : Text) (r : RefreshToken) (s : AuthSession)
    → get_by_jti j s.current.refresh_tokens ≡ some r
    → get_by_jti j (record_token t s).1.current.refresh_tokens ≡ some r
unfolding record_token
get_by_jti-record_token t j r s h =
    elim (Bool-cases (is_some (get_by_jti t.jti s.current.refresh_tokens))) [
      | inl e ↦ rw e h
      | inr e ↦ rw e (get_by_jti-append j s.current.refresh_tokens _ r h)
    ]

-- What is committed after an action that returned.
commit_after :
    {A : Type 0} (m : Exec AuthSession A) (s : AuthSession) (a : A)
    → ((m >>= λ x. modify commit >> pure x) s).0 ≡ ok a
    → ((m >>= λ x. modify commit >> pure x) s).1 ≡ commit (m s).1
commit_after m s a h = ground arith

module _ (jwt_encode : JwtPayload → Text) (jwt_decode : (now : ℕ) → Text → Option JwtPayload)
    (settings : JwtSettings) (token : Text) (ids : NewIds) (now : ℕ) where
  abbrev refreshed : NewIds → ℕ → Exec AuthTables IssuedTokens
  refreshed new at = request (refresh_tokens_of jwt_encode jwt_decode settings token new at)

  -- A pair that is issued adds a row at the end.
  get_by_jti-issue_pair :
      (u : User) (parent : Option Text) (j : Text) (r : RefreshToken) (s : AuthSession)
      → get_by_jti j s.current.refresh_tokens ≡ some r
      → get_by_jti j
          (issue_pair jwt_encode jwt_decode settings u parent ids now s).1.current.refresh_tokens
        ≡ some r
  unfolding issue_pair
  get_by_jti-issue_pair u parent j r s h =
      let m : Exec AuthSession Unit =
        record_token (new_row jwt_encode jwt_decode settings u parent ids now) in
      let f : Unit → IssuedTokens = λ _. new_pair jwt_encode jwt_decode settings u ids now in
      rw (map_state f m s) (get_by_jti-record_token _ j r s h)

  rotated_row :
      (u : User) (j : Text) (r : RefreshToken) (s : AuthSession) (pair : IssuedTokens)
      → get_by_jti j s.current.refresh_tokens ≡ some r
      → is_some r.revoked_at ≡ false
      → (rotate jwt_encode jwt_decode settings u j ids now s).0 ≡ ok pair
      → get_by_jti j
          (rotate jwt_encode jwt_decode settings u j ids now s).1.committed.refresh_tokens
        ≡ some (revoked_token now rotated r)
  unfolding rotate commit revoke
  rotated_row u j r s pair h n e =
      let m : Exec AuthSession IssuedTokens =
        issue_pair jwt_encode jwt_decode settings u (some j) ids now in
      rw (commit_after m (revoke j rotated now s) pair e) (
        get_by_jti-issue_pair u (some j) j _ (revoke j rotated now s)
          (get_by_jti-revoke_where j now rotated s.current.refresh_tokens r h n))

  refresh_row-row :
      (j : Text) (r : RefreshToken) (s : AuthSession) (pair : IssuedTokens)
      → get_by_jti j s.current.refresh_tokens ≡ some r
      → (refresh_row jwt_encode jwt_decode settings r j ids now s).0 ≡ ok pair
      → get_by_jti j
          (refresh_row jwt_encode jwt_decode settings r j ids now s).1.committed.refresh_tokens
        ≡ some (revoked_token now rotated r)
  unfolding refresh_row
  refresh_row-row j r s pair h e = elim (Bool-cases (is_some r.revoked_at)) [
    | inl x ↦ absurd (ground arith)
    | inr x ↦ elim (Bool-cases (ltb r.expires_at now)) [
      | inl y ↦ absurd (ground arith)
      | inr y ↦ elim (Option-cases (get_by_id r.user_id s.current.users)) [
        | inl z ↦ absurd (ground arith)
        | inr (u, z) ↦ rw (x, y, z) (rotated_row u j r s pair h x (sym (ground arith)))
      ]
    ]
  ]

  -- The row that a refresh checks.
  checked_row :
      (p : JwtPayload) (j : Text) (r : RefreshToken) (new : NewIds) (at : ℕ) (s : AuthSession)
      → decode_token jwt_decode token (some refresh) at ≡ ok p
      → p.jti ≡ some j
      → get_by_jti j s.current.refresh_tokens ≡ some r
      → refresh_tokens_of jwt_encode jwt_decode settings token new at s
        ≡ refresh_row jwt_encode jwt_decode settings r j new at s
  unfolding refresh_tokens_of refresh_claims
  checked_row p j r new at s d hj hr = rw (refresh_tokens_of, d, refresh_claims, hj, hr) refl

  refreshed-row :
      (p : JwtPayload) (j : Text) (r : RefreshToken) (new : NewIds) (at : ℕ) (db : AuthTables)
      → decode_token jwt_decode token (some refresh) at ≡ ok p
      → p.jti ≡ some j
      → get_by_jti j db.refresh_tokens ≡ some r
      → refreshed new at db ≡ request (refresh_row jwt_encode jwt_decode settings r j new at) db
  unfolding request
  refreshed-row p j r new at db d hj hr =
      ap (λ x. (x.0, x.1.committed))
        (checked_row p j r new at (record { committed = db; current = db }) d hj hr)

  -- A request that checks a revoked row revokes all rows of its user.
  revoked_request :
      (j : Text) (r : RefreshToken) (new : NewIds) (later : ℕ) (db : AuthTables)
      → let reused =
          request
            (refresh_row jwt_encode jwt_decode settings (revoked_token now rotated r) j new later)
            db in
        (reused.0 ≡ err forbidden)
        × ((k : Text) (t : RefreshToken)
            → get_by_jti k reused.1.refresh_tokens ≡ some t
            → (t.user_id == r.user_id) ≡ true
            → is_some t.revoked_at ≡ true)
  unfolding request refresh_row revoked_token revoke_user_chain commit
  revoked_request j r new later db =
      (refl, λ k t. revoke_where-revoked r.user_id k later reuse_detected db.refresh_tokens t)

  -- When a request has refreshed with a token, whose row is that of `j`, a later request with the same
  -- token is forbidden, as long as the token decodes to the same claims, and after it every refresh
  -- token of the user is revoked, also the ones that were issued since.
  pub refresh-twice :
      (p : JwtPayload) (j : Text) (r : RefreshToken) (pair : IssuedTokens) (later : ℕ)
      (new : NewIds) (db : AuthTables)
      → decode_token jwt_decode token (some refresh) now ≡ ok p
      → decode_token jwt_decode token (some refresh) later ≡ ok p
      → p.jti ≡ some j
      → get_by_jti j db.refresh_tokens ≡ some r
      → (refreshed ids now db).0 ≡ ok pair
      → ((refreshed new later (refreshed ids now db).1).0 ≡ err forbidden)
        × ((k : Text) (t : RefreshToken)
            → get_by_jti k (refreshed new later (refreshed ids now db).1).1.refresh_tokens ≡ some t
            → (t.user_id == r.user_id) ≡ true
            → is_some t.revoked_at ≡ true)
  unfolding request
  refresh-twice p j r pair later new db d d' hj hr h =
      let once = refreshed-row p j r ids now db d hj hr in
      let won = subst (λ x. x.0 ≡ ok pair) once h in
      let db1 = (request (refresh_row jwt_encode jwt_decode settings r j ids now) db).1 in
      let found = refresh_row-row j r (record { committed = db; current = db }) pair hr won in
      let again = refreshed-row p j (revoked_token now rotated r) new later db1 d' hj found in
      subst
        (λ x.
          ((refreshed new later x.1).0 ≡ err forbidden)
          × ((k : Text) (t : RefreshToken)
              → get_by_jti k (refreshed new later x.1).1.refresh_tokens ≡ some t
              → (t.user_id == r.user_id) ≡ true
              → is_some t.revoked_at ≡ true))
        (sym once)
        (subst
          (λ x.
            (x.0 ≡ err forbidden)
            × ((k : Text) (t : RefreshToken)
                → get_by_jti k x.1.refresh_tokens ≡ some t
                → (t.user_id == r.user_id) ≡ true
                → is_some t.revoked_at ≡ true))
          (sym again) (revoked_request j r new later db1))
