-- ===== src/Orchestrator/Streaming.antt =====
-- `token_stream_to_ndjson` of app/orchestrator/streaming.py, on a stream of tokens that ends or
-- raises. A chunk is the object of one line.
use vof_backend.Prelude.{length, leb, ℕ, Bool, true, false, List, [], ◌∷◌, ◌++◌}
use vof_backend.Text.{Text}

pub record Chunk : Type 0 where
  pub text : Text
  pub interim : Bool

-- The loop, from the buffer and the threshold that it keeps.
unfoldable pub stream_from :
    (chunk_chars : ℕ) → List Text → (buffer : Text) (threshold : ℕ) → List Chunk
stream_from chunk_chars [] buffer threshold = record { text = buffer; interim = false } ∷ []
stream_from chunk_chars (token ∷ tokens) buffer threshold =
    elim (leb threshold (length (buffer ++ token))) [
      | true ↦
          record { text = buffer ++ token; interim = true }
          ∷ stream_from chunk_chars tokens [] chunk_chars
      | false ↦ stream_from chunk_chars tokens (buffer ++ token) threshold
    ]

unfoldable pub token_stream_to_ndjson : (chunk_chars first_flush_chars : ℕ) → List Text → List Chunk
unfolding stream_from
token_stream_to_ndjson chunk_chars first_flush_chars tokens =
    stream_from chunk_chars tokens [] first_flush_chars

-- The chunks of the tokens before the stream raises: what is in the buffer then is lost.
unfoldable pub stream_received :
    (chunk_chars : ℕ) → List Text → (buffer : Text) (threshold : ℕ) → List Chunk
stream_received chunk_chars [] buffer threshold = []
stream_received chunk_chars (token ∷ tokens) buffer threshold =
    elim (leb threshold (length (buffer ++ token))) [
      | true ↦
          record { text = buffer ++ token; interim = true }
          ∷ stream_received chunk_chars tokens [] chunk_chars
      | false ↦ stream_received chunk_chars tokens (buffer ++ token) threshold
    ]
