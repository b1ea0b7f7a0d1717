-- ===== src/Orchestrator/Streamed.antt =====
-- What the caller hears of a streamed answer.
use mathlib.Core.List.{append_assoc, append-nil}
use vof_backend.Orchestrator.Streaming.{Chunk, stream_from, token_stream_to_ndjson, stream_received}
use vof_backend.Orchestrator.ToolDispatch.{spoken}
use vof_backend.Prelude.{
  length, All, leb, Bool-cases, ℕ, ◌≤◌, ◌≡◌, refl, sym, ap, ◌∙◌, inl, inr, true, false, List, [],
  ◌∷◌, ◌++◌, map, arith,
}
use vof_backend.Text.{Text, joined}

abbrev pub chunk_text : Chunk → Text
chunk_text c = c.text

-- An interim chunk with text.
abbrev pub IsSpoken : Chunk → Type 0
IsSpoken c = (c.interim ≡ true) × (1 ≤ length c.text)

-- Chunks that say `spoken`: interim ones, each with text, and one final chunk at the end.
pub record Speaks (spoken : Text) (chunks : List Chunk) : Type 0 where
  pub before : List Chunk
  pub last : Chunk
  pub shape : chunks ≡ before ++ (last ∷ [])
  pub interims : All IsSpoken before
  pub final : last.interim ≡ false
  pub said : joined (map chunk_text before) ++ last.text ≡ spoken

Speaks-next :
    (c : Chunk) (spoken : Text) (chunks : List Chunk)
    → IsSpoken c
    → Speaks spoken chunks
    → Speaks (c.text ++ spoken) (c ∷ chunks)
Speaks-next c spoken chunks i s = record {
  before = c ∷ s.before;
  last = s.last;
  shape = ap (λ l. c ∷ l) s.shape;
  interims = (i, s.interims);
  final = s.final;
  said =
      append_assoc c.text (joined (map chunk_text s.before)) s.last.text
      ∙ ap (λ t. c.text ++ t) s.said;
}

module _ (chunk_chars : ℕ) (token : Text) (tokens : List Text) (buffer : Text) (threshold : ℕ) where
  flushed :
      leb threshold (length (buffer ++ token)) ≡ true
      → stream_from chunk_chars (token ∷ tokens) buffer threshold
        ≡ record { text = buffer ++ token; interim = true }
          ∷ stream_from chunk_chars tokens [] chunk_chars
  unfolding stream_from
  flushed h = ground arith

  held :
      leb threshold (length (buffer ++ token)) ≡ false
      → stream_from chunk_chars (token ∷ tokens) buffer threshold
        ≡ stream_from chunk_chars tokens (buffer ++ token) threshold
  unfolding stream_from
  held h = ground arith

stream_from-Speaks :
    (chunk_chars : ℕ) (tokens : List Text) (buffer : Text) (threshold : ℕ)
    → 1 ≤ chunk_chars
    → 1 ≤ threshold
    → Speaks (buffer ++ joined tokens) (stream_from chunk_chars tokens buffer threshold)
stream_from-Speaks chunk_chars [] buffer threshold p q =
    unfold stream_from in
    record {
      before = [];
      last = record { text = buffer; interim = false };
      shape = refl;
      interims = tt;
      final = refl;
      said = sym (append-nil buffer);
    }
stream_from-Speaks chunk_chars (t ∷ tokens) buffer threshold p q =
    elim (Bool-cases (leb threshold (length (buffer ++ t)))) [
      | inl e ↦
          rw
            (
              flushed chunk_chars t tokens buffer threshold e,
              sym (append_assoc buffer t (joined tokens)),
            )
            (Speaks-next (record { text = buffer ++ t; interim = true }) (joined tokens) _
              (refl, ground arith) (stream_from-Speaks chunk_chars tokens [] chunk_chars p p))
      | inr e ↦
          rw
            (
              held chunk_chars t tokens buffer threshold e,
              sym (append_assoc buffer t (joined tokens)),
            )
            (stream_from-Speaks chunk_chars tokens (buffer ++ t) threshold p q)
    ]

-- Chunks of a stream that raised: interim ones, each with text, which say the start of `spoken`.
pub record SpeaksStart (spoken : Text) (chunks : List Chunk) : Type 0 where
  pub lost : Text
  pub interims : All IsSpoken chunks
  pub said : joined (map chunk_text chunks) ++ lost ≡ spoken

module _ (chunk_chars : ℕ) (token : Text) (tokens : List Text) (buffer : Text) (threshold : ℕ) where
  received_flushed :
      leb threshold (length (buffer ++ token)) ≡ true
      → stream_received chunk_chars (token ∷ tokens) buffer threshold
        ≡ record { text = buffer ++ token; interim = true }
          ∷ stream_received chunk_chars tokens [] chunk_chars
  unfolding stream_received
  received_flushed h = ground arith

  received_held :
      leb threshold (length (buffer ++ token)) ≡ false
      → stream_received chunk_chars (token ∷ tokens) buffer threshold
        ≡ stream_received chunk_chars tokens (buffer ++ token) threshold
  unfolding stream_received
  received_held h = ground arith

pub stream_received-SpeaksStart :
    (chunk_chars : ℕ) (tokens : List Text) (buffer : Text) (threshold : ℕ)
    → 1 ≤ chunk_chars
    → 1 ≤ threshold
    → SpeaksStart (buffer ++ joined tokens) (stream_received chunk_chars tokens buffer threshold)
stream_received-SpeaksStart chunk_chars [] buffer threshold p q =
    unfold stream_received in
    record { lost = buffer; interims = tt; said = sym (append-nil buffer) }
stream_received-SpeaksStart chunk_chars (t ∷ tokens) buffer threshold p q =
    elim (Bool-cases (leb threshold (length (buffer ++ t)))) [
      | inl e ↦
          let later = stream_received-SpeaksStart chunk_chars tokens [] chunk_chars p p in
          rw
            (
              received_flushed chunk_chars t tokens buffer threshold e,
              sym (append_assoc buffer t (joined tokens)),
            )
            (record {
              lost = later.lost;
              interims = ((refl, ground arith), later.interims);
              said =
                  append_assoc (buffer ++ t)
                    (joined (map chunk_text (stream_received chunk_chars tokens [] chunk_chars)))
                    later.lost
                  ∙ ap (λ x. (buffer ++ t) ++ x) later.said;
            })
      | inr e ↦
          rw
            (
              received_held chunk_chars t tokens buffer threshold e,
              sym (append_assoc buffer t (joined tokens)),
            )
            (stream_received-SpeaksStart chunk_chars tokens (buffer ++ t) threshold p q)
    ]

-- The chunks of an answer say exactly its tokens, in order: interim chunks, none of them empty, and then
-- exactly one final chunk, which is there also when no token came. The two thresholds are positive.
pub token_stream_to_ndjson-Speaks :
    (chunk_chars first_flush_chars : ℕ) (tokens : List Text)
    → 1 ≤ chunk_chars
    → 1 ≤ first_flush_chars
    → Speaks (joined tokens) (token_stream_to_ndjson chunk_chars first_flush_chars tokens)
unfolding token_stream_to_ndjson
token_stream_to_ndjson-Speaks chunk_chars first_flush_chars tokens p q =
    stream_from-Speaks chunk_chars tokens [] first_flush_chars p q
