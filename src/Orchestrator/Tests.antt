-- ===== src/Orchestrator/Tests.antt =====
-- An answer of three tokens, with the thresholds of the code.
use vof_backend.Orchestrator.Streamed.{Speaks, token_stream_to_ndjson-Speaks}
use vof_backend.Orchestrator.Streaming.{token_stream_to_ndjson}
use vof_backend.Prelude.{List, [], ◌∷◌, arith}
use vof_backend.Text.{Text, codes, joined}

abbrev answer_tokens : List Text
answer_tokens = codes "Sure" ∷ codes ", the quote" ∷ codes " is ready" ∷ []

token_stream_to_ndjson-Speaks_example :
    Speaks (joined answer_tokens) (token_stream_to_ndjson 12 1 answer_tokens)
token_stream_to_ndjson-Speaks_example =
    token_stream_to_ndjson-Speaks 12 1 answer_tokens (omega arith) (omega arith)
