-- ===== src/Intake/Pages.antt =====
-- What the handlers of app/services/intake_handlers.py share: the slug and the title of a page, the
-- provenance row, and an upsert that respects the lock of the Manager. `_slugify` is that of
-- app/miniagents/brain_updater.py. A fresh UUID is a number of the stream `fresh`.
use vof_backend.Brain.Slug.{slugify}
use vof_backend.Brain.Store.{
  TimelineEntry, BrainPage, Brain, PageWrite, upsert_page, append_timeline,
}
use vof_backend.Db.Models.{automated_extraction, Provenance}
use vof_backend.Errors.{manager_conflict, Result, ok, err}
use vof_backend.Exec.{Exec, pure, raise, ◌>>=◌, modify}
use vof_backend.Intake.Extract.{after_last}
use vof_backend.Intake.Models.{ExtractedEntity, Classification}
use vof_backend.Prelude.{
  take, ◌==◌, if◌then◌else◌, get_or_else, ℕ, not, Option, none, some, List, [], ◌∷◌, ◌++◌, map,
}
use vof_backend.Text.{Text, codes, is_empty, text_eq, strip, CaseMap}
use vof_backend.Text.Hex.{hex_text}

-- One item: its classification and its text, with the clock and the fresh UUIDs.
pub record HandlerInput : Type 0 where
  pub workspace_id : ℕ
  pub item_id : ℕ
  pub content_text : Text
  pub classification : Classification
  pub now : ℕ
  pub fresh : ℕ → ℕ

pub record HandlerStore : Type 0 where
  pub brain : Brain
  pub provenance : List Provenance

abbrev pub on_page : Exec Brain BrainPage → Exec HandlerStore BrainPage
on_page m s = let (r, b) = m s.brain in (r, record s { brain = b })

unfoldable pub kind_prefix : Text → Text
kind_prefix kind =
    if text_eq kind (codes "account")
    then codes "accounts"
    else if text_eq kind (codes "person")
    then codes "people"
    else if text_eq kind (codes "product")
    then codes "products"
    else if text_eq kind (codes "playbook")
    then codes "playbooks"
    else if text_eq kind (codes "theme")
    then codes "themes"
    else if text_eq kind (codes "org_positioning")
    then codes "org"
    else kind

-- The name of the first entity.
abbrev pub first_name : List ExtractedEntity → Text
first_name [] = []
first_name (e ∷ es) = e.name

module _ (c : CaseMap) where
  unfoldable pub derive_slug : Classification → (item_id : ℕ) → Text
  unfolding slugify kind_prefix
  derive_slug cl item_id =
      let suggested = strip (get_or_else cl.suggested_slug []) in
      if not (is_empty suggested)
      then c.lower suggested
      else if not (is_empty (first_name cl.extracted_entities))
      then kind_prefix cl.kind ++ (codes "/" ++ slugify c (first_name cl.extracted_entities))
      else kind_prefix cl.kind ++ (codes "/" ++ take 8 (hex_text 32 item_id))

abbrev hyphen_space : ℕ → ℕ
hyphen_space x = if x == 45 then 32 else x

-- `title_case` is `str.title`, which follows the Unicode tables.
unfoldable pub derive_title : (title_case : Text → Text) → Classification → Text → Text
unfolding after_last
derive_title title_case cl slug =
    let name = strip (first_name cl.extracted_entities) in
    if is_empty name then title_case (map hyphen_space (after_last b'/' slug)) else name

unfoldable pub compiled_truth_seed : Text → Text
compiled_truth_seed content = take 600 (strip content)

-- The provenance row of an item, which is committed on its own.
unfoldable pub item_provenance : HandlerInput → Option Text → Provenance
item_provenance i extracted_by = record {
  id = i.fresh 0;
  workspace_id = i.workspace_id;
  source_type = automated_extraction;
  source_id = some i.item_id;
  extracted_by = extracted_by;
  extracted_at = i.now;
  confidence = some i.classification.confidence;
  cites = [];
  rationale = some i.classification.reasoning;
}

abbrev pub keep_provenance : Provenance → Exec HandlerStore Unit
keep_provenance p = modify (λ s. record s { provenance = s.provenance ++ (p ∷ []) })

abbrev pub conflict_tags : List Text
conflict_tags = codes "needs_review" ∷ codes "manager_authoritative_conflict" ∷ []

abbrev pub entry : HandlerInput → Text → List Text → TimelineEntry
entry i t tags = record { ts = i.now; text = t; provenance_id = some (i.fresh 0); tags = tags }

-- What follows an upsert: where the Manager has the page locked, an entry of its timeline.
unfoldable pub after_upsert :
    (now : ℕ)
    → Text
    → (note : TimelineEntry) → Result BrainPage
    → Exec HandlerStore (Option BrainPage)
unfolding append_timeline
after_upsert now slug note (ok p) = pure (some p)
after_upsert now slug note (err manager_conflict) =
    on_page (append_timeline now slug note) >>= λ _. pure none
after_upsert now slug note (err e) = raise e

-- The page of an upsert, or none for a conflict.
unfoldable pub upsert_or_note :
    (new_id prior_id now : ℕ)
    → PageWrite
    → (note : TimelineEntry) → Exec HandlerStore (Option BrainPage)
unfolding upsert_page after_upsert
upsert_or_note new_id prior_id now w note s =
    let (r, s1) = on_page (upsert_page new_id prior_id now w) s in after_upsert now w.slug note r s1
