-- ===== src/Access/SessionTests.antt =====
-- A refresh token that is used twice, and one of a login.
use vof_backend.Access.Guards.{User, get_by_id}
use vof_backend.Access.Jwt.{
  manager, refresh, JwtPayload, default_ttl, expires_at, is_type, decode_token,
}
use vof_backend.Access.Login.{login-refresh}
use vof_backend.Access.Rotation.{refresh-twice}
use vof_backend.Access.Sessions.{
  RefreshToken, AuthTables, request, get_by_jti, revoke_where, revoke, record_token, IssuedTokens,
  NewIds, new_pair, issue_pair, rotate, refresh_row, refresh_claims, refresh_tokens_of, login,
}
use vof_backend.Access.Tests.{listed, unlisted, unlisted-listed, settings, ann, bob}
use vof_backend.Errors.{forbidden, unauthenticated, Result, err}
use vof_backend.Prelude.{◌==◌, is_some, ℕ, ◌≡◌, refl, true, none, some, [], ◌∷◌, arith}
use vof_backend.Text.{Text, codes, text_eq, ascii}

abbrev claims : JwtPayload
claims = record {
  sub = some 1;
  org = 7;
  ws = some 5;
  role = manager;
  iat = 1;
  exp = 1000;
  jti = some (codes "r0");
  token_type = some refresh;
}

abbrev row : RefreshToken
row = record {
  user_id = 1;
  jti = codes "r0";
  parent_jti = none;
  expires_at = 1000000000;
  revoked_at = none;
  revoked_reason = none;
}

abbrev tables : AuthTables
tables = record { users = bob ∷ ann ∷ []; refresh_tokens = row ∷ [] }

abbrev first_ids : NewIds
first_ids = record { access_jti = codes "a1"; refresh_jti = codes "r1" }

abbrev second_ids : NewIds
second_ids = record { access_jti = codes "a2"; refresh_jti = codes "r2" }

abbrev used : ℕ → NewIds → AuthTables → Result IssuedTokens × AuthTables
used at ids = request (refresh_tokens_of listed unlisted settings (listed claims) ids at)

refresh-twice_example :
    ((used 80000000 second_ids (used 70000000 first_ids tables).1).0 ≡ err forbidden)
    × ((k : Text) (t : RefreshToken)
        → get_by_jti k
            (used 80000000 second_ids (used 70000000 first_ids tables).1).1.refresh_tokens
          ≡ some t
        → (t.user_id == 1) ≡ true
        → is_some t.revoked_at ≡ true)
unfolding request refresh_tokens_of refresh_claims refresh_row rotate issue_pair decode_token
    is_type get_by_jti text_eq get_by_id vof_backend.Prelude.find_row revoke revoke_where
refresh-twice_example =
    refresh-twice listed unlisted settings (listed claims) first_ids 70000000 claims (codes "r0")
      row (new_pair listed unlisted settings ann first_ids 70000000) 80000000 second_ids tables refl
      refl refl refl refl

abbrev ann_in : Result (User × IssuedTokens) × AuthTables
ann_in =
    request (login listed unlisted settings ascii text_eq (codes "A") (codes "h") first_ids 1500000)
      tables

login-refresh_example :
    (ann_in.1 ≡ tables)
    × (request
          (refresh_tokens_of listed unlisted settings
            (new_pair listed unlisted settings ann first_ids 1500000).refresh_token
            second_ids
            60000000)
          ann_in.1
        ≡ (err unauthenticated, tables))
unfolding request login issue_pair record_token get_by_jti text_eq expires_at default_ttl
login-refresh_example =
    login-refresh listed unlisted unlisted-listed settings ascii text_eq (codes "A") (codes "h")
      first_ids 1500000 ann (new_pair listed unlisted settings ann first_ids 1500000) second_ids
      60000000 tables refl refl (omega arith) (omega arith)
