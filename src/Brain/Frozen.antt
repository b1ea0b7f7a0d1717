-- ===== src/Brain/Frozen.antt =====
-- What every sequence of provider calls leaves of a page.
use mathlib.Core.List.{append-nil}
use vof_backend.Brain.History.{
  BrainOp, upsert, append, delete, retag, step, steps, upsert_page-state, append_missing,
  append_found, Grows, Grows-refl, Grows-trans, Later, Later-refl, Later-update,
}
use vof_backend.Brain.Pages.{find_page-slug, find_page-append}
use vof_backend.Brain.Store.{
  TimelineEntry, BrainPage, Brain, find_page, PageWrite, new_page, upsert_write, upsert_page,
  soft_delete_page, update_tags,
}
use vof_backend.Brain.Upsert.{
  BrainVersioned, write_refused, Written, unwritten, created_page, touched, write-cases,
}
use vof_backend.Brain.Versions.{empty_brain, step-Versioned, steps-Versioned}
use vof_backend.Errors.{manager_conflict, Result, err}
use vof_backend.Prelude.{
  Option-cases, ℕ, ◌≡◌, refl, sym, ◌∙◌, subst, inl, inr, true, false, Option, some, List, [], ◌∷◌,
  ◌++◌, arith,
}
use vof_backend.Text.{Text, text_eq, text_eq_iff}

-- A change of no column that an upsert writes, nor of the timeline.
unmoved :
    (p : BrainPage) (tags : List Text) (deleted : Option ℕ) (now : ℕ)
    → Grows p (record p { tags = tags; deleted_at = deleted; updated_at = now })
unmoved p tags deleted now = record {
  same_slug = refl;
  same_kind = refl;
  same_title = refl;
  same_truth = refl;
  same_provenance = refl;
  same_authority = refl;
  same_version = refl;
  added = [];
  longer = sym (append-nil p.timeline);
}

Written-Later :
    (k : Text) (p : BrainPage) (new_id now : ℕ) (w : PageWrite) (b : Brain)
    (r : Result (Unit {0}) × Brain)
    → find_page k b.pages ≡ some p
    → Written new_id now w b r
    → Later k p r.1
Written-Later k p new_id now w b r h (unwritten e o) = rw o (Later-refl k p b h)
Written-Later k p new_id now w b r h (created_page absent o) = rw o (record {
  page = p;
  found = ground (arith, find_page-append k b.pages (new_page now w));
  grows = Grows-refl p;
})
Written-Later k p new_id now w b r h (touched q found o) = rw o (
    Later-update k w.slug (λ q. record q { updated_at = now }) p b h (λ q. refl)
      (λ e. unmoved p p.tags p.deleted_at now))

added_end :
    (e : TimelineEntry) (p : BrainPage) (t : ℕ)
    → Grows p (record p { timeline = p.timeline ++ (e ∷ []); updated_at = t })
added_end e p t = record {
  same_slug = refl;
  same_kind = refl;
  same_title = refl;
  same_truth = refl;
  same_provenance = refl;
  same_authority = refl;
  same_version = refl;
  added = e ∷ [];
  longer = refl;
}

same_page :
    (k slug : Text) (ps : List BrainPage) (p q : BrainPage)
    → find_page k ps ≡ some p
    → find_page slug ps ≡ some q
    → text_eq p.slug slug ≡ true
    → q ≡ p
same_page k slug ps p q h f t = ground (arith, find_page-slug k ps p h, text_eq_iff p.slug slug)

step-Later :
    (o : BrainOp) (k : Text) (p : BrainPage) (b : Brain)
    → BrainVersioned b
    → find_page k b.pages ≡ some p
    → Later k p (step o b)
unfolding step
step-Later (upsert new_id prior_id now w) k p b v h = rw upsert_page-state (
    Written-Later k p new_id now w b (upsert_write new_id prior_id now w b) h
      (write-cases new_id prior_id now w b v))
step-Later (append now slug e) k p b v h = elim (Option-cases (find_page slug b.pages)) [
  | inl absent ↦ rw (append_missing now slug e b absent) (Later-refl k p b h)
  | inr (q, found) ↦ rw (append_found now slug e b q found) (
      Later-update k slug (λ x. record x { timeline = q.timeline ++ (e ∷ []); updated_at = now }) p
        b h (λ x. refl)
        (λ t.
          subst (λ x. Grows p (record p { timeline = x.timeline ++ (e ∷ []); updated_at = now }))
            (sym (same_page k slug b.pages p q h found t)) (added_end e p now)))
]
step-Later (delete now slug) k p b v h =
    unfold soft_delete_page in
    Later-update k slug (λ x. record x { deleted_at = some now }) p b h (λ x. refl)
      (λ t. unmoved p p.tags (some now) p.updated_at)
step-Later (retag now slug tags) k p b v h =
    unfold update_tags in
    Later-update k slug (λ x. record x { tags = tags; updated_at = now }) p b h (λ x. refl)
      (λ t. unmoved p tags p.deleted_at now)

Later-trans :
    (k : Text) (p : BrainPage) (b : Brain) (l : Later k p b) (c : Brain)
    → Later k l.page c
    → Later k p c
Later-trans k p b l c m = record {
  page = m.page;
  found = m.found;
  grows = Grows-trans l.grows m.grows;
}

steps-Later :
    (os : List BrainOp) (k : Text) (p : BrainPage) (b : Brain)
    → BrainVersioned b
    → find_page k b.pages ≡ some p
    → Later k p (steps os b)
unfolding steps
steps-Later [] k p b v h = Later-refl k p b h
steps-Later (o ∷ os) k p b v h =
    let l = step-Later o k p b v h in
    Later-trans k p (step o b) l (steps os (step o b))
      (steps-Later os k l.page (step o b) (step-Versioned o b v) l.found)

-- Once provider calls from an empty brain have made a page, whatever further calls follow, raising or
-- not, its slug finds a page with the same kind, title, compiled truth, provenance, authority and
-- version, whose timeline is the old one with entries added at its end.
pub steps-Frozen :
    (os later : List BrainOp) (k : Text) (p : BrainPage)
    → find_page k (steps os empty_brain).pages ≡ some p
    → Later k p (steps later (steps os empty_brain))
steps-Frozen os later k p h =
    steps-Later later k p (steps os empty_brain) (steps-Versioned os empty_brain tt) h

-- Once provider calls from an empty brain have made a manager's page, then after any further calls a
-- write that is not the manager's raises the conflict and leaves the brain as it is.
pub steps-guard :
    (os later : List BrainOp) (new_id prior_id now : ℕ) (w : PageWrite) (p : BrainPage)
    → find_page w.slug (steps os empty_brain).pages ≡ some p
    → p.manager_authoritative ≡ true
    → w.manager_authoritative ≡ false
    → upsert_page new_id prior_id now w (steps later (steps os empty_brain))
      ≡ (err manager_conflict, steps later (steps os empty_brain))
unfolding upsert_page
steps-guard os later new_id prior_id now w p h a m =
    let l = steps-Frozen os later w.slug p h in
    ground (
      arith,
      write_refused new_id prior_id now w (steps later (steps os empty_brain)) l.page l.found
          (l.grows.same_authority ∙ a) m,
    )
