-- ===== src/Realtime/Tests.antt =====
-- A token that is issued and claimed, and a connection of two frames.
use vof_backend.Db.{call_ended}
use vof_backend.Prelude.{◌≡◌, refl, some, List, [], ◌∷◌}
use vof_backend.Realtime.Buffered.{offered, Delivers, hub_steps-Delivers}
use vof_backend.Realtime.Hub.{Connection, HubEvent, arrives, beats, sends, hub_steps}
use vof_backend.Realtime.WsToken.{TokenStore, issue_ws_token, split_payload, claim_ws_token}
use vof_backend.Text.{codes, text_eq, find_char}

abbrev tokens : TokenStore
tokens = issue_ws_token (codes "tok") (codes "u7") (codes "w1") (record { entries = [] })

-- The claim gives back the user and the workspace.
token_reads : (claim_ws_token (codes "tok") tokens).0 ≡ some (codes "u7", codes "w1")
unfolding claim_ws_token issue_ws_token text_eq split_payload find_char
token_reads = refl

abbrev idle : Connection
idle = record { send_buffer = []; dropped = 0; sent = [] }

abbrev events : List HubEvent
events = arrives (call_ended 1 5) ∷ beats 6 ∷ sends ∷ []

hub_steps-Delivers_example : Delivers idle (hub_steps events idle) (offered events)
hub_steps-Delivers_example = hub_steps-Delivers events idle
