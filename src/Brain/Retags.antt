-- ===== src/Brain/Retags.antt =====
-- The tags that a run of the brain updater sets leave the rest of a page alone.
use mathlib.Core.List.{append-nil}
use vof_backend.Brain.Gained.{Gained, Gained-trans, Gained-refl, AllThere-update}
use vof_backend.Brain.Mentions.{Went}
use vof_backend.Brain.Pages.{change_at, map_page, find_page-update_page}
use vof_backend.Brain.Store.{BrainPage, Brain, find_page, update_page, get_page, update_tags}
use vof_backend.Brain.Updater.{UpdateRun, UpdateResult, new_tag, tag_page, tag_pages}
use vof_backend.Errors.{ok}
use vof_backend.Exec.{>>=-ok}
use vof_backend.Prelude.{
  Bool-cases, Option-cases, ◌≡◌, refl, sym, ◌∙◌, inl, inr, none, some, List, [], ◌∷◌, ◌++◌, arith,
}
use vof_backend.Text.{Text, text_eq, CaseMap}

module _ (c : CaseMap) (u : UpdateRun) where
  module _ (k : Text) where
    module _ (index : List (Text × Text)) (acc : UpdateResult) (slug : Text) (b : Brain) where
      abbrev retagged : BrainPage → Text → BrainPage → BrainPage
      retagged q t r = record r { tags = q.tags ++ (t ∷ []); updated_at = u.now }

      abbrev TagKept : UpdateResult × Brain → Type 0
      TagKept x = tag_page c u index acc slug b ≡ (ok x.0, x.1)

      tag_none : find_page slug b.pages ≡ none → TagKept (acc, b)
      unfolding tag_page get_page
      tag_none f = ground (arith, f)

      tag_old :
          (q : BrainPage)
          → find_page slug b.pages ≡ some q
          → new_tag c u index slug q ≡ none
          → TagKept (acc, b)
      unfolding tag_page get_page
      tag_old q f n = ground (arith, f, n)

      tag_new :
          (q : BrainPage) (t : Text)
          → find_page slug b.pages ≡ some q
          → new_tag c u index slug q ≡ some t
          → TagKept (
            record acc { tags_applied = acc.tags_applied ++ ((slug, t) ∷ []) },
            record b { pages = update_page slug (retagged q t) b.pages },
          )
      unfolding tag_page get_page update_tags
      tag_new q t f n = ground (arith, f, n)

      retagged-Gained :
          (q p : BrainPage) (t : Text)
          → find_page k b.pages ≡ some p
          → Gained k p [] b (record b { pages = update_page slug (retagged q t) b.pages })
      retagged-Gained q p t h =
          let found : find_page k (update_page slug (retagged q t) b.pages)
              ≡ map_page (change_at slug (retagged q t)) (find_page k b.pages) =
            find_page-update_page k slug (retagged q t) b.pages (λ r. refl) in
          elim (Bool-cases (text_eq p.slug slug)) [
            | inl e ↦ record {
              page = retagged q t p;
              found = ground (arith, found, h, e);
              timeline = sym (append-nil p.timeline);
              same_truth = refl;
              same_version = refl;
              same_versions = refl;
            }
            | inr e ↦ record {
              page = p;
              found = ground (arith, found, h, e);
              timeline = sym (append-nil p.timeline);
              same_truth = refl;
              same_version = refl;
              same_versions = refl;
            }
          ]

      tag_page-Went :
          (p : BrainPage)
          → find_page k b.pages ≡ some p
          → Went k p [] b (tag_page c u index acc slug b) acc.pages_upserted acc.timeline_appends
      tag_page-Went p h = elim (Option-cases (find_page slug b.pages)) [
        | inl f ↦ stays (tag_none f)
        | inr (q, f) ↦ elim (Option-cases (new_tag c u index slug q)) [
          | inl n ↦ stays (tag_old q f n)
          | inr (t, n) ↦ record {
            result = record acc { tags_applied = acc.tags_applied ++ ((slug, t) ∷ []) };
            after = record b { pages = update_page slug (retagged q t) b.pages };
            returned = tag_new q t f n;
            gained = retagged-Gained q p t h;
            there = AllThere-update slug (retagged q t) b (λ r. refl);
            no_upsert = refl;
            appended_to = refl;
          }
        ]
      ]
        where
          stays :
              TagKept (acc, b)
              → Went k p [] b
                  (tag_page c u index acc slug b)
                  acc.pages_upserted
                  acc.timeline_appends
          stays e = record {
            result = acc;
            after = b;
            returned = e;
            gained = Gained-refl k p b h;
            there = λ slug x. x;
            no_upsert = refl;
            appended_to = refl;
          }

    pub tag_pages-Went :
        (index : List (Text × Text)) (acc : UpdateResult) (slugs : List Text) (b : Brain)
        (p : BrainPage)
        → find_page k b.pages ≡ some p
        → Went k p [] b (tag_pages c u index acc slugs b) acc.pages_upserted acc.timeline_appends
    unfolding tag_pages
    tag_pages-Went index acc [] b p h = record {
      result = acc;
      after = b;
      returned = refl;
      gained = Gained-refl k p b h;
      there = λ slug x. x;
      no_upsert = refl;
      appended_to = refl;
    }
    tag_pages-Went index acc (slug ∷ slugs) b p h =
        let first = tag_page-Went index acc slug b p h in
        let later =
          tag_pages-Went index first.result slugs first.after first.gained.page
            first.gained.found in
        record {
          result = later.result;
          after = later.after;
          returned =
              >>=-ok (tag_page c u index acc slug) (λ a. tag_pages c u index a slugs) b first.after
                first.result first.returned
              ∙ later.returned;
          gained = Gained-trans k p [] [] b first.after later.after first.gained later.gained;
          there = λ x y. later.there x (first.there x y);
          no_upsert = later.no_upsert ∙ first.no_upsert;
          appended_to = later.appended_to ∙ first.appended_to;
        }
