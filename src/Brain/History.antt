-- ===== src/Brain/History.antt =====
-- Sequences of provider calls, and what they can make of a page.
use mathlib.Core.List.{append_assoc, append-nil}
use vof_backend.Brain.Pages.{KeepsSlug, find_page-slug, find_page-update_page}
use vof_backend.Brain.Store.{
  TimelineEntry, BrainPage, Brain, find_page, update_page, PageWrite, fresh_page, upsert_write,
  upsert_page, append_timeline, soft_delete_page, update_tags,
}
use vof_backend.Errors.{ok}
use vof_backend.Prelude.{
  Bool-cases, ℕ, ◌≡◌, refl, sym, ap, ◌∙◌, inl, inr, true, none, some, List, [], ◌∷◌, ◌++◌, arith,
}
use vof_backend.Text.{Text, text_eq, text_eq_refl}

pub data BrainOp : Type 0 where
  upsert : (new_id prior_id now : ℕ) → PageWrite → BrainOp
  append : (now : ℕ) → Text → TimelineEntry → BrainOp
  delete : (now : ℕ) → Text → BrainOp
  retag : (now : ℕ) → Text → List Text → BrainOp

-- The database after a call, also one that raised.
unfoldable pub step : BrainOp → Brain → Brain
step (upsert new_id prior_id now w) b = (upsert_page new_id prior_id now w b).1
step (append now slug e) b = (append_timeline now slug e b).1
step (delete now slug) b = (soft_delete_page now slug b).1
step (retag now slug tags) b = (update_tags now slug tags b).1

unfoldable pub steps : List BrainOp → Brain → Brain
unfolding step
steps [] b = b
steps (o ∷ os) b = steps os (step o b)

fresh_page-state : (slug : Text) (b : Brain) → (fresh_page slug b).1 ≡ b
unfolding fresh_page
fresh_page-state slug b = ground arith

pub upsert_page-state :
    (new_id prior_id now : ℕ) (w : PageWrite) (b : Brain)
    → (upsert_page new_id prior_id now w b).1 ≡ (upsert_write new_id prior_id now w b).1
unfolding upsert_page
upsert_page-state new_id prior_id now w b = ground arith

abbrev pub appended : (now : ℕ) → Text → TimelineEntry → BrainPage → Brain → Brain
appended now slug e p b = record b {
  pages =
      update_page slug (λ q. record q { timeline = p.timeline ++ (e ∷ []); updated_at = now })
        b.pages;
}

pub append_missing :
    (now : ℕ) (slug : Text) (e : TimelineEntry) (b : Brain)
    → find_page slug b.pages ≡ none
    → (append_timeline now slug e b).1 ≡ b
unfolding append_timeline
append_missing now slug e b h = ground arith

pub append_found :
    (now : ℕ) (slug : Text) (e : TimelineEntry) (b : Brain) (p : BrainPage)
    → find_page slug b.pages ≡ some p
    → (append_timeline now slug e b).1 ≡ appended now slug e p b
unfolding append_timeline
append_found now slug e b p h = ground (arith, fresh_page-state slug (appended now slug e p b))

-- A later state of a page: the facts that an upsert writes are as they were, and the timeline has only
-- grown at its end.
pub record Grows (p q : BrainPage) : Type 0 where
  pub same_slug : q.slug ≡ p.slug
  pub same_kind : q.kind ≡ p.kind
  pub same_title : q.title ≡ p.title
  pub same_truth : q.compiled_truth ≡ p.compiled_truth
  pub same_provenance : q.provenance_id ≡ p.provenance_id
  pub same_authority : q.manager_authoritative ≡ p.manager_authoritative
  pub same_version : q.version ≡ p.version
  pub added : List TimelineEntry
  pub longer : q.timeline ≡ p.timeline ++ added

pub Grows-refl : (p : BrainPage) → Grows p p
Grows-refl p = record {
  same_slug = refl;
  same_kind = refl;
  same_title = refl;
  same_truth = refl;
  same_provenance = refl;
  same_authority = refl;
  same_version = refl;
  added = [];
  longer = sym (append-nil p.timeline);
}

pub Grows-trans : {p q r : BrainPage} → Grows p q → Grows q r → Grows p r
Grows-trans {p} {q} {r} g h = record {
  same_slug = h.same_slug ∙ g.same_slug;
  same_kind = h.same_kind ∙ g.same_kind;
  same_title = h.same_title ∙ g.same_title;
  same_truth = h.same_truth ∙ g.same_truth;
  same_provenance = h.same_provenance ∙ g.same_provenance;
  same_authority = h.same_authority ∙ g.same_authority;
  same_version = h.same_version ∙ g.same_version;
  added = g.added ++ h.added;
  longer = h.longer ∙ (ap (λ t. t ++ h.added) g.longer ∙ append_assoc p.timeline g.added h.added);
}

-- What becomes of the page that a slug finds.
pub record Later (k : Text) (p : BrainPage) (b : Brain) : Type 0 where
  pub page : BrainPage
  pub found : find_page k b.pages ≡ some page
  pub grows : Grows p page

pub Later-refl : (k : Text) (p : BrainPage) (b : Brain) → find_page k b.pages ≡ some p → Later k p b
Later-refl k p b h = record { page = p; found = h; grows = Grows-refl p }

pub Later-update :
    (k slug : Text) (f : BrainPage → BrainPage) (p : BrainPage) (b : Brain)
    → find_page k b.pages ≡ some p
    → KeepsSlug f
    → (text_eq p.slug slug ≡ true → Grows p (f p))
    → Later k p (record b { pages = update_page slug f b.pages })
Later-update k slug f p b h keeps g = elim (Bool-cases (text_eq p.slug slug)) [
  | inl e ↦ record {
    page = f p;
    found = ground (arith, find_page-update_page k slug f b.pages keeps);
    grows = g e;
  }
  | inr e ↦ record {
    page = p;
    found = ground (arith, find_page-update_page k slug f b.pages keeps);
    grows = Grows-refl p;
  }
]

-- An update of the page that its slug finds.
pub find_updated :
    (slug : Text) (f : BrainPage → BrainPage) (ps : List BrainPage) (p : BrainPage)
    → KeepsSlug f
    → find_page slug ps ≡ some p
    → find_page slug (update_page slug f ps) ≡ some (f p)
find_updated slug f ps p keeps h = ground (
  arith,
  find_page-update_page slug slug f ps keeps,
  find_page-slug slug ps p h,
  text_eq_refl slug,
)

pub append_timeline-found :
    (now : ℕ) (slug : Text) (e : TimelineEntry) (b : Brain) (p : BrainPage)
    → find_page slug b.pages ≡ some p
    → append_timeline now slug e b ≡ (
      ok (record p { timeline = p.timeline ++ (e ∷ []); updated_at = now }),
      appended now slug e p b,
    )
unfolding append_timeline fresh_page
append_timeline-found now slug e b p h = ground (
  arith,
  find_updated slug (λ q. record q { timeline = p.timeline ++ (e ∷ []); updated_at = now }) b.pages
      p (λ q. refl) h,
)
