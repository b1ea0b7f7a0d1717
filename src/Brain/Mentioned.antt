-- ===== src/Brain/Mentioned.antt =====
-- A run of the brain updater on a brain that has the pages of its entities.
use mathlib.Core.List.{append-nil}
use vof_backend.Brain.Gained.{Gained, Gained-trans}
use vof_backend.Brain.Mentions.{named_slugs, mentions_in, IsKnown, update_entities-Went}
use vof_backend.Brain.Retags.{tag_pages-Went}
use vof_backend.Brain.Slug.{Entity, Verdict, build_verdict_index}
use vof_backend.Brain.Store.{BrainPage, Brain, find_page}
use vof_backend.Brain.Updater.{
  UpdateRun, UpdateResult, no_update, update_entities, tag_pages, touched_slugs, run_brain_updater,
}
use vof_backend.Errors.{Result, ok}
use vof_backend.Exec.{>>=-ok}
use vof_backend.Prelude.{All, ◌≡◌, ◌∙◌, subst, some, List, []}
use vof_backend.Text.{Text, CaseMap}

-- A run that only mentions
pub record Updated (c : CaseMap) (u : UpdateRun) (ents : List Entity) (b : Brain) (k : Text)
    (p : BrainPage) (r : Result UpdateResult × Brain) : Type 0 where
  pub result : UpdateResult
  pub after : Brain
  pub returned : r ≡ (ok result, after)
  pub gained : Gained k p (mentions_in c u k (named_slugs c u ents)) b after
  pub no_upsert : result.pages_upserted ≡ []
  pub appended_to : result.timeline_appends ≡ named_slugs c u ents

-- A run of the updater on a brain that has a page for each entity with a name returns, whatever the
-- verdicts are: it makes no version row, reports no page that it has written, and reports a mention for
-- each such entity, in their order. Every page keeps its compiled truth and its version, and its timeline has at its end one mention
-- of the call for each of these entities whose page it is, and nothing else.
pub run_brain_updater-Mentioned :
    (c : CaseMap) (u : UpdateRun) (ents : List Entity) (verdicts : List Verdict) (b : Brain)
    (k : Text) (p : BrainPage)
    → All (IsKnown c b) ents
    → find_page k b.pages ≡ some p
    → Updated c u ents b k p (run_brain_updater c u ents verdicts b)
unfolding run_brain_updater
run_brain_updater-Mentioned c u ents verdicts b k p known h =
    let index = build_verdict_index c verdicts [] in
    let first = update_entities-Went c u k no_update ents b p known h in
    let later =
      tag_pages-Went c u k index first.result (touched_slugs u first.result) first.after
        first.gained.page first.gained.found in
    let added = mentions_in c u k (named_slugs c u ents) in
    record {
      result = later.result;
      after = later.after;
      returned =
          >>=-ok (update_entities c u no_update ents)
            (λ a. tag_pages c u index a (touched_slugs u a)) b first.after first.result
            first.returned
          ∙ later.returned;
      gained =
          subst (λ xs. Gained k p xs b later.after) (append-nil added)
            (Gained-trans k p added [] b first.after later.after first.gained later.gained);
      no_upsert = later.no_upsert ∙ first.no_upsert;
      appended_to = later.appended_to ∙ first.appended_to;
    }
