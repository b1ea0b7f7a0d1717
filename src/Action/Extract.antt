-- ===== src/Action/Extract.antt =====
-- The candidates of app/services/action_items/heuristic_extractor.py: their titles, and which of them
-- are kept.
use vof_backend.Action.Repo.{NewItem}
use vof_backend.Db.Models.{Payload, pending_approval, ActionItemHandler}
use vof_backend.Prelude.{
  length, take, leb, if◌then◌else◌, ℕ, ◌-◌, true, false, Option, none, some, List, [], ◌∷◌, ◌++◌,
}
use vof_backend.Text.{Text, codes, is_empty, contains, is_space, strip, join, CaseMap}

-- `text.split()`: the words between runs of white space.
unfoldable pub split_words : Text → Text → List Text
split_words [] word = if is_empty word then [] else word ∷ []
split_words (c ∷ s) word =
    let next = split_words s [] in
    let longer = split_words s (word ++ (c ∷ [])) in
    if is_space c then (if is_empty word then next else word ∷ next) else longer

-- At most `limit` characters, the last of them an ellipsis where the text is longer.
unfoldable pub title_from : Text → (limit : ℕ) → Text
unfolding split_words
title_from text limit =
    let cleaned = join (codes " ") (split_words (strip text) []) in
    if leb (length cleaned) limit then cleaned else take (limit - 1) cleaned ++ (8230 ∷ [])

pub record ActionItemCandidate : Type 0 where
  pub title : Text
  pub description : Option Text
  pub handler : ActionItemHandler
  pub confidence : ℕ  -- in hundredths
  pub payload : Payload
  pub source_turn_idx : Option ℕ
  pub source_blocker_idx : Option ℕ
  pub extracted_by : Text

-- The first 60 characters of the title, in lower case.
unfoldable pub dedupe_key : CaseMap → ActionItemCandidate → Text
dedupe_key c it = strip (c.lower (take 60 it.title))

-- The loop, from the keys that were seen.
unfoldable pub dedupe_from :
    CaseMap → List Text → List ActionItemCandidate → List ActionItemCandidate
unfolding dedupe_key
dedupe_from c seen [] = []
dedupe_from c seen (it ∷ items) = elim (contains (dedupe_key c it) seen) [
  | true ↦ dedupe_from c seen items
  | false ↦ it ∷ dedupe_from c (dedupe_key c it ∷ seen) items
]

unfoldable pub dedupe : CaseMap → List ActionItemCandidate → List ActionItemCandidate
unfolding dedupe_from
dedupe c items = dedupe_from c [] items

-- One call of `save_action_items` for a call of the telephone: the candidate of a row.
unfoldable pub candidate_row :
    (workspace_id organization_id call_id : ℕ) → ActionItemCandidate → NewItem
candidate_row workspace_id organization_id call_id c = record {
  workspace_id = workspace_id;
  organization_id = organization_id;
  call_id = some call_id;
  title = c.title;
  description = c.description;
  due_at = none;
  payload = c.payload;
  status = pending_approval;
  extracted_by = some c.extracted_by;
  confidence = some c.confidence;
  handler = c.handler;
}
