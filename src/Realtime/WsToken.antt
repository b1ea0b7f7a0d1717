-- ===== src/Realtime/WsToken.antt =====
-- The one-time tokens of app/realtime/redis_client.py. The tokens of the store are those that have not
-- expired; a new one is an argument. A command of Redis is one step.
use vof_backend.Prelude.{take, drop, if◌then◌else◌, ◌+◌, Option, none, some, List, [], ◌∷◌, ◌++◌}
use vof_backend.Text.{Text, codes, is_empty, text_eq, find_char}

-- `SET key value`, `GET key` and `DEL key`
pub record TokenStore : Type 0 where
  pub entries : List (Text × Text)

unfoldable pub token_get : Text → List (Text × Text) → Option Text
token_get t [] = none
token_get t ((k, v) ∷ s) = let rest = token_get t s in if text_eq k t then some v else rest

unfoldable pub token_delete : Text → List (Text × Text) → List (Text × Text)
token_delete t [] = []
token_delete t ((k, v) ∷ s) =
    let rest = token_delete t s in if text_eq k t then rest else (k, v) ∷ rest

unfoldable pub issue_ws_token : (token user_id workspace_id : Text) → TokenStore → TokenStore
unfolding token_delete
issue_ws_token token user_id workspace_id s = record {
  entries = (token, user_id ++ (codes ":" ++ workspace_id)) ∷ token_delete token s.entries;
}

-- `payload.split(":", 1)`, where there is a colon
unfoldable pub split_payload : Text → Option (Text × Text)
split_payload payload = elim (find_char b':' payload) [
  | none ↦ none
  | some i ↦ some (take i payload, drop (i + 1) payload)
]

-- The read, which is the first command of a claim.
unfoldable pub read_token : Text → TokenStore → Option Text
unfolding token_get
read_token token s = if is_empty token then none else token_get token s.entries

-- The rest of the claim after the read: the deletion, and what the claim returns.
unfoldable pub finish_claim : Text → Option Text → TokenStore → Option (Text × Text) × TokenStore
unfolding token_delete split_payload
finish_claim token none s = (none, s)
finish_claim token (some payload) s =
    (split_payload payload, record { entries = token_delete token s.entries })

unfoldable pub claim_ws_token : Text → TokenStore → Option (Text × Text) × TokenStore
unfolding read_token finish_claim
claim_ws_token token s = finish_claim token (read_token token s) s
