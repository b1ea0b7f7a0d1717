-- ===== src/Orchestrator/Transcripts.antt =====
-- `TranscriptsRepo` of app/db/repositories/transcripts_repo.py
use vof_backend.Db.Models.{Speaker, TranscriptFragment}
use vof_backend.Prelude.{select, order_asc, ltb, ◌==◌, if◌then◌else◌, ℕ, ◌+◌, List, [], ◌∷◌, ◌++◌}
use vof_backend.Text.{Text}

-- `coalesce(max(seq), 0)` of the fragments of the call
unfoldable pub max_seq : (call_id : ℕ) → List TranscriptFragment → ℕ
max_seq call_id [] = 0
max_seq call_id (f ∷ fs) =
    let rest = max_seq call_id fs in
    if f.call_id == call_id then (if ltb rest f.seq then f.seq else rest) else rest

unfoldable pub new_fragment :
    (call_id workspace_id : ℕ)
    → Speaker
    → Text
    → (ts : ℕ) → List TranscriptFragment
    → TranscriptFragment
unfolding max_seq
new_fragment call_id workspace_id speaker words ts fragments = record {
  call_id = call_id;
  workspace_id = workspace_id;
  speaker = speaker;
  text = words;
  seq = max_seq call_id fragments + 1;
  ts = ts;
}

unfoldable pub append_fragment :
    (call_id workspace_id : ℕ)
    → Speaker
    → Text
    → (ts : ℕ) → List TranscriptFragment
    → TranscriptFragment × List TranscriptFragment
unfolding new_fragment
append_fragment call_id workspace_id speaker words ts fragments =
    let f = new_fragment call_id workspace_id speaker words ts fragments in
    (f, fragments ++ (f ∷ []))

unfoldable pub list_for_call : (call_id : ℕ) → List TranscriptFragment → List TranscriptFragment
list_for_call call_id fragments =
    order_asc (λ f. f.seq) (select (λ f. f.call_id == call_id) fragments)
