-- ===== src/Realtime/SingleUse.antt =====
-- How often a token is claimed.
use vof_backend.Prelude.{◌≡◌, refl, Option, none, some, List, [], ◌∷◌, arith}
use vof_backend.Realtime.WsToken.{
  TokenStore, token_get, token_delete, split_payload, read_token, finish_claim, claim_ws_token,
}
use vof_backend.Text.{Text}

token_get-token_delete : (t : Text) (s : List (Text × Text)) → token_get t (token_delete t s) ≡ none
unfolding token_get token_delete
token_get-token_delete t [] = refl
token_get-token_delete t ((k, v) ∷ s) = ground (arith, token_get-token_delete t s)

claimed_none :
    (t : Text) (r : Option Text) (s : TokenStore)
    → read_token t s ≡ r
    → claim_ws_token t (finish_claim t r s).1 ≡ (none, (finish_claim t r s).1)
unfolding claim_ws_token
claimed_none t none s h = rw h refl
claimed_none t (some p) s h = ground (arith, token_get-token_delete t s.entries)

-- When one claim follows another of the same token, the second gets nothing and changes nothing.
pub claim_ws_token-claim_ws_token :
    (t : Text) (s : TokenStore)
    → claim_ws_token t (claim_ws_token t s).1 ≡ (none, (claim_ws_token t s).1)
unfolding claim_ws_token
claim_ws_token-claim_ws_token t s = claimed_none t (read_token t s) s refl

-- A claim is two commands, and when a second claim reads before the first has deleted, both get what the
-- token stands for: the token of two such claims is not used once.
pub finish_claim-twice :
    (t p : Text) (s : TokenStore)
    → read_token t s ≡ some p
    → let first = finish_claim t (read_token t s) s in
      let second = finish_claim t (read_token t s) first.1 in
      (first.0 ≡ split_payload p) × (second.0 ≡ split_payload p)
unfolding finish_claim
finish_claim-twice t p s h = rw h (refl, refl)
