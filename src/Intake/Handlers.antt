-- ===== src/Intake/Handlers.antt =====
-- The four handlers of app/services/intake_handlers.py, over the brain of the item's workspace and the
-- provenance rows.
use vof_backend.Brain.Slug.{slugify}
use vof_backend.Brain.Store.{TimelineEntry, BrainPage, PageWrite}
use vof_backend.Exec.{Exec, pure, ◌>>=◌, ◌>>◌}
use vof_backend.Intake.Models.{
  HandlerResult, ExtractedEntity, manager_authoritative_conflict, upserted_brain_page,
  queued_caller_profile_update, upserted_workspace_side, fanout_raw_source,
}
use vof_backend.Intake.Pages.{
  HandlerInput, HandlerStore, kind_prefix, derive_slug, derive_title, compiled_truth_seed,
  item_provenance, keep_provenance, conflict_tags, entry, upsert_or_note,
}
use vof_backend.Prelude.{
  length, take, if◌then◌else◌, ℕ, ◌+◌, false, Option, none, some, List, [], ◌∷◌, ◌++◌,
}
use vof_backend.Text.{Text, codes, is_empty, text_eq, CaseMap}
use vof_backend.Text.Hex.{uuid_text}

module _ (c : CaseMap) (title_case : Text → Text) where
  unfoldable pub org_write : HandlerInput → PageWrite
  unfolding derive_slug derive_title compiled_truth_seed
  org_write i =
      let slug = derive_slug c i.classification i.item_id in
      record {
        slug = slug;
        kind = i.classification.kind;
        title = derive_title title_case i.classification slug;
        compiled_truth = compiled_truth_seed i.content_text;
        provenance_id = i.fresh 0;
        manager_authoritative = false;
        tags = [];
        timeline_seed = some (
            entry i (codes "Captured during intake (item " ++ (uuid_text i.item_id ++ codes ")"))
              (codes "intake" ∷ []));
      }

  unfoldable pub org_conflict : HandlerInput → TimelineEntry
  org_conflict i =
      entry i
        (codes "[CONFLICT] auto-extraction wanted to update this page (item "
          ++ (uuid_text i.item_id ++ codes ") but the Manager has it locked. Review needed."))
        conflict_tags

  unfoldable pub org_result : HandlerInput → Option BrainPage → HandlerResult
  unfolding org_write
  org_result i none = manager_authoritative_conflict (org_write i).slug (i.fresh 0)
  org_result i (some p) =
      upserted_brain_page p.slug p.kind p.version i.classification.extracted_entities (i.fresh 0)

  -- `OrgBrainHandler.ingest`
  unfoldable pub org_brain : HandlerInput → Exec HandlerStore HandlerResult
  unfolding org_write org_conflict org_result upsert_or_note item_provenance
  org_brain i = do
    keep_provenance (item_provenance i (some (codes "classifier@unknown")))
    page ← upsert_or_note (i.fresh 1) (i.fresh 2) i.now (org_write i) (org_conflict i)
    pure (org_result i page)

  -- `CallerBrainHandler.ingest`
  unfoldable pub caller_brain : HandlerInput → Exec HandlerStore HandlerResult
  unfolding item_provenance
  caller_brain i = do
    keep_provenance (item_provenance i none)
    pure (
        queued_caller_profile_update i.classification.target_caller_id i.classification.kind
          (i.fresh 0))

  -- `CrossRefHandler.ingest`
  unfoldable pub cross_ref : HandlerInput → Exec HandlerStore HandlerResult
  unfolding org_brain
  cross_ref i = do
    side ← org_brain i
    pure (upserted_workspace_side side i.classification.target_caller_id)

  unfoldable pub raw_slug : ExtractedEntity → Text
  unfolding slugify kind_prefix
  raw_slug e = kind_prefix e.entity_type ++ (codes "/" ++ slugify c e.name)

  unfoldable pub raw_write : HandlerInput → ExtractedEntity → PageWrite
  unfolding raw_slug
  raw_write i e = record {
    slug = raw_slug e;
    kind = e.entity_type;
    title = e.name;
    compiled_truth =
        codes "Extracted from raw source (item " ++ (uuid_text i.item_id ++ codes ").");
    provenance_id = i.fresh 0;
    manager_authoritative = false;
    tags = [];
    timeline_seed = some (
        entry i (codes "Seen in raw source (item " ++ (uuid_text i.item_id ++ codes ")"))
          (codes "raw_source" ∷ []));
  }

  unfoldable pub raw_conflict : HandlerInput → ExtractedEntity → TimelineEntry
  raw_conflict i e =
      entry i
        (codes "[CONFLICT] raw source mentioned "
          ++ (e.name ++ (codes " (item " ++ (uuid_text i.item_id ++ codes ")"))))
        conflict_tags

  abbrev written : Option BrainPage → List Text
  written none = []
  written (some p) = p.slug ∷ []

  -- The loop over the entities; `n` is the next fresh UUID.
  unfoldable pub raw_pages :
      HandlerInput → (n : ℕ) → List ExtractedEntity → Exec HandlerStore (List Text)
  unfolding raw_write raw_conflict upsert_or_note
  raw_pages i n [] = pure []
  raw_pages i n (e ∷ es) =
      let rest = raw_pages i (n + 2) es in
      if is_empty e.name then rest else (do
        page ← upsert_or_note (i.fresh n) (i.fresh (n + 1)) i.now (raw_write i e) (raw_conflict i e)
        slugs ← rest
        pure (written page ++ slugs))

  -- `RawSourceHandler.ingest`
  unfoldable pub raw_source : HandlerInput → Exec HandlerStore HandlerResult
  unfolding raw_pages item_provenance
  raw_source i = do
    keep_provenance (item_provenance i none)
    slugs ← raw_pages i 1 (take 25 i.classification.extracted_entities)
    pure (fanout_raw_source slugs (length i.classification.extracted_entities) (i.fresh 0))

  abbrev pub Handler : Type 0
  Handler = HandlerInput → Exec HandlerStore HandlerResult

  unfoldable pub resolve_handler : (scope : Text) → Option Handler
  unfolding org_brain caller_brain cross_ref raw_source
  resolve_handler scope =
      if text_eq scope (codes "ORG_WIDE")
      then some org_brain
      else if text_eq scope (codes "CALLER_SPECIFIC")
      then some caller_brain
      else if text_eq scope (codes "BOTH")
      then some cross_ref
      else if text_eq scope (codes "RAW_SOURCE")
      then some raw_source
      else none
