-- ===== src/Brain/Updater.antt =====
-- `run_brain_updater` of app/miniagents/brain_updater.py, after the provenance row of the call.
use vof_backend.Brain.Slug.{
  slugify, Entity, resolve_slug, Verdict, dict_get, build_verdict_index, verdict_tag,
}
use vof_backend.Brain.Store.{
  TimelineEntry, BrainPage, Brain, get_page, PageWrite, upsert_page, append_timeline, update_tags,
}
use vof_backend.Errors.{manager_conflict, Result, ok, err}
use vof_backend.Exec.{Exec, pure, ◌>>=◌, ◌>>◌}
use vof_backend.Prelude.{
  take, if◌then◌else◌, or_else, get_or_else, ℕ, false, Option, none, some, List, [], ◌∷◌, ◌++◌,
}
use vof_backend.Text.{Text, codes, is_empty, contains, strip, CaseMap}
use vof_backend.Text.Hex.{uuid_text}

-- What a run takes from outside: the clock, the call, its summary, the provenance row, the UUIDs for
-- the versions of an entity's page, and the order in which a set yields its elements.
pub record UpdateRun : Type 0 where
  pub now : ℕ
  pub call_id : ℕ
  pub discussion : Text
  pub provenance_id : ℕ
  pub version_ids : Entity → ℕ × ℕ
  pub order : List Text → List Text

pub record UpdateResult : Type 0 where
  pub pages_upserted : List Text
  pub timeline_appends : List Text
  pub needs_review : List Text
  pub tags_applied : List (Text × Text)

abbrev pub no_update : UpdateResult
no_update = record {
  pages_upserted = [];
  timeline_appends = [];
  needs_review = [];
  tags_applied = [];
}

unfoldable pub mention_entry : UpdateRun → TimelineEntry
mention_entry u = record {
  ts = u.now;
  text =
      codes "Mentioned in call " ++ (uuid_text u.call_id ++ (codes ": " ++ take 200 u.discussion));
  provenance_id = some u.provenance_id;
  tags = codes "from_call" ∷ [];
}

unfoldable pub stub_write : CaseMap → UpdateRun → Entity → PageWrite
unfolding mention_entry resolve_slug
stub_write c u ent = record {
  slug = resolve_slug c ent;
  kind = get_or_else ent.entity_type (codes "misc");
  title = strip ent.name;
  compiled_truth =
      codes "Stub page seeded from call "
      ++ (uuid_text u.call_id ++ codes ". Auto-extracted; awaiting enrichment.");
  provenance_id = u.provenance_id;
  manager_authoritative = false;
  tags = [];
  timeline_seed = some (mention_entry u);
}

-- Only a manager's page is passed over; another exception ends the run.
abbrev stubbed : Text → UpdateResult → Result BrainPage → Result UpdateResult
stubbed slug acc (ok snap) =
    ok (record acc { pages_upserted = acc.pages_upserted ++ (snap.slug ∷ []) })
stubbed slug acc (err manager_conflict) =
    ok (record acc { needs_review = acc.needs_review ++ (slug ∷ []) })
stubbed slug acc (err e) = err e

-- An exception of the append is logged.
abbrev mentioned : Text → UpdateResult → Result BrainPage → Result UpdateResult
mentioned slug acc (ok snap) =
    ok (record acc { timeline_appends = acc.timeline_appends ++ (slug ∷ []) })
mentioned slug acc (err e) = ok acc

module _ {A B : Type 0} where
  abbrev pub handled : (Result A → Result B) → Exec Brain A → Exec Brain B
  handled f m b = let (r, b') = m b in (f r, b')

unfoldable pub stub_page : CaseMap → UpdateRun → UpdateResult → Entity → Exec Brain UpdateResult
unfolding stub_write
stub_page c u acc ent =
    handled (stubbed (resolve_slug c ent) acc)
      (upsert_page (u.version_ids ent).0 (u.version_ids ent).1 u.now (stub_write c u ent))

unfoldable pub mention_page : CaseMap → UpdateRun → UpdateResult → Entity → Exec Brain UpdateResult
unfolding mention_entry
mention_page c u acc ent =
    handled (mentioned (resolve_slug c ent) acc)
      (append_timeline u.now (resolve_slug c ent) (mention_entry u))

unfoldable pub update_entity : CaseMap → UpdateRun → UpdateResult → Entity → Exec Brain UpdateResult
unfolding stub_page mention_page
update_entity c u acc ent = if is_empty ent.name then pure acc else do
  existing ← get_page (resolve_slug c ent)
  elim existing [ none ↦ stub_page c u acc ent | some p ↦ mention_page c u acc ent ]

unfoldable pub update_entities :
    CaseMap → UpdateRun → UpdateResult → List Entity → Exec Brain UpdateResult
unfolding update_entity
update_entities c u acc [] = pure acc
update_entities c u acc (ent ∷ ents) = do
  acc' ← update_entity c u acc ent
  update_entities c u acc' ents

-- The elements of a list, each once.
unfoldable pub distinct_texts : List Text → List Text
distinct_texts [] = []
distinct_texts (x ∷ xs) = let rest = distinct_texts xs in if contains x xs then rest else x ∷ rest

unfoldable pub first_status : List (Text × Text) → List Text → Option Text
first_status index [] = none
first_status index (k ∷ ks) = or_else (dict_get k index) (first_status index ks)

unfoldable pub fresh_tag : List Text → Option Text → Option Text
fresh_tag tags none = none
fresh_tag tags (some t) = if contains t tags then none else some t

unfoldable pub status_tag : List Text → Option Text → Option Text
unfolding fresh_tag verdict_tag
status_tag tags none = none
status_tag tags (some status) = fresh_tag tags (verdict_tag status tags)

-- The tag that the verdicts give a page, if it has not got it yet.
unfoldable pub new_tag : CaseMap → UpdateRun → List (Text × Text) → Text → BrainPage → Option Text
unfolding status_tag first_status distinct_texts
new_tag c u index slug snap =
    let keys =
      u.order (distinct_texts (c.lower slug ∷ slugify c snap.title ∷ c.lower snap.title ∷ [])) in
    status_tag snap.tags (first_status index keys)

unfoldable pub tag_page :
    CaseMap → UpdateRun → List (Text × Text) → UpdateResult → Text → Exec Brain UpdateResult
unfolding new_tag
tag_page c u index acc slug = do
  found ← get_page slug
  elim found [
    | none ↦ pure acc
    | some snap ↦ elim (new_tag c u index slug snap) [
      | none ↦ pure acc
      | some t ↦ do
        update_tags u.now slug (snap.tags ++ (t ∷ []))
        pure (record acc { tags_applied = acc.tags_applied ++ ((slug, t) ∷ []) })
    ]
  ]

unfoldable pub tag_pages :
    CaseMap → UpdateRun → List (Text × Text) → UpdateResult → List Text → Exec Brain UpdateResult
unfolding tag_page
tag_pages c u index acc [] = pure acc
tag_pages c u index acc (slug ∷ slugs) = do
  acc' ← tag_page c u index acc slug
  tag_pages c u index acc' slugs

abbrev pub touched_slugs : UpdateRun → UpdateResult → List Text
touched_slugs u r = u.order (distinct_texts (r.pages_upserted ++ r.timeline_appends))

unfoldable pub run_brain_updater :
    CaseMap → UpdateRun → List Entity → List Verdict → Exec Brain UpdateResult
unfolding update_entities tag_pages build_verdict_index
run_brain_updater c u entities verdicts = do
  acc ← update_entities c u no_update entities
  tag_pages c u (build_verdict_index c verdicts []) acc (touched_slugs u acc)
