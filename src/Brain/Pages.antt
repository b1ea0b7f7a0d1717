-- ===== src/Brain/Pages.antt =====
-- Lookups after updates of pages.
use vof_backend.Brain.Store.{BrainPage, PageVersion, find_page, update_page, has_version}
use vof_backend.Prelude.{
  All, ◌==◌, if◌then◌else◌, Bool-cases, or_else, ℕ, ◌≡◌, refl, subst, inl, inr, ◌&&◌, ◌||◌, Option,
  none, some, List, [], ◌∷◌, ◌++◌, arith,
}
use vof_backend.Text.{Text, text_eq, text_eq_iff}

-- A change of a page that leaves its slug.
abbrev pub KeepsSlug : (BrainPage → BrainPage) → Type 0
KeepsSlug f = (p : BrainPage) → (f p).slug ≡ p.slug

abbrev pub change_at : Text → (BrainPage → BrainPage) → BrainPage → BrainPage
change_at slug f p = if text_eq p.slug slug then f p else p

abbrev pub map_page : (BrainPage → BrainPage) → Option BrainPage → Option BrainPage
map_page f none = none
map_page f (some p) = some (f p)

pub find_page-slug :
    (slug : Text) (ps : List BrainPage) (p : BrainPage) → find_page slug ps ≡ some p → p.slug ≡ slug
unfolding find_page
find_page-slug slug [] p h = cc
find_page-slug slug (q ∷ ps) p h = ground (arith, find_page-slug slug ps p, text_eq_iff q.slug slug)

pub find_page-update_page :
    (k slug : Text) (f : BrainPage → BrainPage) (ps : List BrainPage)
    → KeepsSlug f
    → find_page k (update_page slug f ps) ≡ map_page (change_at slug f) (find_page k ps)
unfolding find_page update_page
find_page-update_page k slug f [] h = refl
find_page-update_page k slug f (p ∷ ps) h = ground (arith, h p, find_page-update_page k slug f ps h)

pub find_page-append :
    (k : Text) (ps : List BrainPage) (p : BrainPage)
    → find_page k (ps ++ (p ∷ []))
      ≡ or_else (find_page k ps) (if text_eq p.slug k then some p else none)
unfolding find_page
find_page-append k [] p = ground arith
find_page-append k (q ∷ ps) p = ground (arith, find_page-append k ps p)

pub All-update_page {κ} :
    (P : BrainPage → Type κ) (slug : Text) (f : BrainPage → BrainPage) (ps : List BrainPage)
    → ((p : BrainPage) → P p → P (f p))
    → All P ps
    → All P (update_page slug f ps)
unfolding update_page
All-update_page P slug f [] keep h = tt
All-update_page P slug f (p ∷ ps) keep h = elim (Bool-cases (text_eq p.slug slug)) [
  | inl e ↦ rw e (keep p h.0, All-update_page P slug f ps keep h.1)
  | inr e ↦ rw e (h.0, All-update_page P slug f ps keep h.1)
]

pub All-find_page {κ} :
    (P : BrainPage → Type κ) (slug : Text) (ps : List BrainPage) (p : BrainPage)
    → All P ps
    → find_page slug ps ≡ some p
    → P p
unfolding find_page
All-find_page P slug [] p h e = absurd (cc)
All-find_page P slug (q ∷ ps) p h e = elim (Bool-cases (text_eq q.slug slug)) [
  | inl t ↦ (let x : q ≡ p = ground arith in subst P x h.0)
  | inr t ↦ All-find_page P slug ps p h.1 (ground arith)
]

pub has_version-append :
    (slug : Text) (v : ℕ) (rs : List PageVersion) (r : PageVersion)
    → has_version slug v (rs ++ (r ∷ []))
      ≡ (has_version slug v rs || (text_eq r.page_slug slug && r.version == v))
unfolding has_version
has_version-append slug v [] r = ground arith
has_version-append slug v (x ∷ rs) r = ground (arith, has_version-append slug v rs r)
