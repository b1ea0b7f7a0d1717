-- ===== src/Brain/Gained.antt =====
-- What becomes of a page under changes that keep its truth, and of the pages that are there.
use mathlib.Core.List.{append_assoc, append-nil}
use vof_backend.Brain.History.{appended, find_updated}
use vof_backend.Brain.Pages.{KeepsSlug, find_page-slug, find_page-update_page}
use vof_backend.Brain.Store.{TimelineEntry, BrainPage, Brain, find_page, update_page}
use vof_backend.Prelude.{
  if◌then◌else◌, Bool-cases, is_some, ℕ, ◌≡◌, refl, sym, ap, ◌∙◌, subst, inl, inr, true, some, List,
  [], ◌∷◌, ◌++◌, arith,
}
use vof_backend.Text.{Text, text_eq, text_eq_iff}

-- A later page with the same truth and version, whose timeline has got `added`; no version row was made,
-- and the pages that are there are the same.
pub record Gained (k : Text) (p : BrainPage) (added : List TimelineEntry) (b b' : Brain)
    : Type 0 where
  pub page : BrainPage
  pub found : find_page k b'.pages ≡ some page
  pub timeline : page.timeline ≡ p.timeline ++ added
  pub same_truth : page.compiled_truth ≡ p.compiled_truth
  pub same_version : page.version ≡ p.version
  pub same_versions : b'.versions ≡ b.versions

-- The pages that are there in the first are there in the second.
abbrev pub AllThere : Brain → Brain → Type 0
AllThere b b' =
    (slug : Text)
    → is_some (find_page slug b.pages) ≡ true
    → is_some (find_page slug b'.pages) ≡ true

pub Gained-trans :
    (k : Text) (p : BrainPage) (xs ys : List TimelineEntry) (b b1 b2 : Brain)
    (g : Gained k p xs b b1)
    → Gained k g.page ys b1 b2
    → Gained k p (xs ++ ys) b b2
Gained-trans k p xs ys b b1 b2 g h = record {
  page = h.page;
  found = h.found;
  timeline = h.timeline ∙ (ap (λ t. t ++ ys) g.timeline ∙ append_assoc p.timeline xs ys);
  same_truth = h.same_truth ∙ g.same_truth;
  same_version = h.same_version ∙ g.same_version;
  same_versions = h.same_versions ∙ g.same_versions;
}

pub Gained-refl :
    (k : Text) (p : BrainPage) (b : Brain) → find_page k b.pages ≡ some p → Gained k p [] b b
Gained-refl k p b h = record {
  page = p;
  found = h;
  timeline = sym (append-nil p.timeline);
  same_truth = refl;
  same_version = refl;
  same_versions = refl;
}

pub AllThere-update :
    (slug : Text) (f : BrainPage → BrainPage) (b : Brain)
    → KeepsSlug f
    → AllThere b (record b { pages = update_page slug f b.pages })
AllThere-update slug f b keeps k h = ground (arith, h, find_page-update_page k slug f b.pages keeps)

module _ (now : ℕ) (slug : Text) (e : TimelineEntry) (b : Brain) (q : BrainPage)
    (there : find_page slug b.pages ≡ some q) where
  abbrev pub with_entry : BrainPage → BrainPage
  with_entry r = record r { timeline = q.timeline ++ (e ∷ []); updated_at = now }

  pub appended-Gained :
      (k : Text) (p : BrainPage)
      → find_page k b.pages ≡ some p
      → Gained k p (if text_eq slug k then e ∷ [] else []) b (appended now slug e q b)
  appended-Gained k p h = elim (Bool-cases (text_eq slug k)) [
    | inl t ↦
        let same : slug ≡ k = (text_eq_iff slug k).0 t in
        let page : p ≡ q = ground (arith, same, there, h) in
        rw t (record {
          page = with_entry p;
          found =
              subst (λ s. find_page k (update_page s with_entry b.pages) ≡ some (with_entry p))
                (sym same) (find_updated k with_entry b.pages p (λ r. refl) h);
          timeline = ap (λ r. r.timeline ++ (e ∷ [])) (sym page);
          same_truth = refl;
          same_version = refl;
          same_versions = refl;
        })
    | inr t ↦ rw t (record {
      page = p;
      found = ground (
        arith,
        h,
        t,
        find_page-slug k b.pages p h,
        find_page-update_page k slug with_entry b.pages (λ r. refl),
        text_eq_iff slug k,
        text_eq_iff p.slug slug,
      );
      timeline = sym (append-nil p.timeline);
      same_truth = refl;
      same_version = refl;
      same_versions = refl;
    })
  ]
