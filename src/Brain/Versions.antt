-- ===== src/Brain/Versions.antt =====
-- The version rows of a reachable brain, and what they keep an upsert from doing.
use vof_backend.Brain.History.{
  BrainOp, upsert, append, delete, retag, step, steps, upsert_page-state, append_missing,
  append_found,
}
use vof_backend.Brain.Pages.{All-update_page, has_version-append}
use vof_backend.Brain.Store.{
  TimelineEntry, BrainPage, PageVersion, Brain, find_page, PageWrite, new_page, new_version,
  upsert_write, upsert_page, append_timeline, soft_delete_page, update_tags,
}
use vof_backend.Brain.Upsert.{
  IsVersioned, BrainVersioned, Written, unwritten, created_page, touched, write-cases,
  write_changed,
}
use vof_backend.Errors.{manager_conflict, integrity, Result, err}
use vof_backend.Prelude.{
  All-append, All-weaken, if◌then◌else◌, Option-cases, ℕ, ◌≡◌, inl, inr, false, not, ◌&&◌, some,
  List, [], ◌∷◌, ◌++◌, arith,
}
use vof_backend.Text.{Text, text_eq, text_eq_refl}

-- A brain of a new workspace: the DDL makes two empty tables.
abbrev pub empty_brain : Brain
empty_brain = record { pages = []; versions = [] }

more_versions :
    (vs : List PageVersion) (r : PageVersion) (p : BrainPage)
    → IsVersioned vs p
    → IsVersioned (vs ++ (r ∷ [])) p
more_versions vs r p h = ground (arith, has_version-append p.slug p.version vs r)

new_page-IsVersioned :
    (id now : ℕ) (w : PageWrite) (vs : List PageVersion)
    → IsVersioned (vs ++ (new_version id now 1 w ∷ [])) (new_page now w)
unfolding new_page new_version
new_page-IsVersioned id now w vs =
    rw (has_version-append w.slug 1 vs (new_version id now 1 w), text_eq_refl w.slug) (ground arith)

Written-Versioned :
    (new_id now : ℕ) (w : PageWrite) (b : Brain) (r : Result (Unit {0}) × Brain)
    → BrainVersioned b
    → Written new_id now w b r
    → BrainVersioned r.1
Written-Versioned new_id now w b r v (unwritten e o) = rw o v
Written-Versioned new_id now w b r v (created_page absent o) = rw o (
    All-append (IsVersioned (b.versions ++ (new_version new_id now 1 w ∷ []))) b.pages
      (new_page now w ∷ [])
      (All-weaken (IsVersioned b.versions)
        (IsVersioned (b.versions ++ (new_version new_id now 1 w ∷ []))) b.pages
        (more_versions b.versions (new_version new_id now 1 w)) v)
      (new_page-IsVersioned new_id now w b.versions, tt))
Written-Versioned new_id now w b r v (touched q found o) = rw o (
    All-update_page (IsVersioned b.versions) w.slug (λ q. record q { updated_at = now }) b.pages
      (λ p h. h) v)

append-Versioned :
    (now : ℕ) (slug : Text) (e : TimelineEntry) (b : Brain)
    → BrainVersioned b
    → BrainVersioned (append_timeline now slug e b).1
append-Versioned now slug e b v = elim (Option-cases (find_page slug b.pages)) [
  | inl absent ↦ rw (append_missing now slug e b absent) v
  | inr (q, found) ↦ rw (append_found now slug e b q found) (
      All-update_page (IsVersioned b.versions) slug
        (λ x. record x { timeline = q.timeline ++ (e ∷ []); updated_at = now }) b.pages (λ p h. h)
        v)
]

pub step-Versioned : (o : BrainOp) (b : Brain) → BrainVersioned b → BrainVersioned (step o b)
unfolding step
step-Versioned (upsert new_id prior_id now w) b v = rw upsert_page-state (
    Written-Versioned new_id now w b (upsert_write new_id prior_id now w b) v
      (write-cases new_id prior_id now w b v))
step-Versioned (append now slug e) b v = append-Versioned now slug e b v
step-Versioned (delete now slug) b v =
    unfold soft_delete_page in
    All-update_page (IsVersioned b.versions) slug (λ x. record x { deleted_at = some now }) b.pages
      (λ p h. h) v
step-Versioned (retag now slug tags) b v =
    unfold update_tags in
    All-update_page (IsVersioned b.versions) slug (λ x. record x { tags = tags; updated_at = now })
      b.pages (λ p h. h) v

pub steps-Versioned :
    (os : List BrainOp) (b : Brain) → BrainVersioned b → BrainVersioned (steps os b)
unfolding steps
steps-Versioned [] b v = v
steps-Versioned (o ∷ os) b v = steps-Versioned os (step o b) (step-Versioned o b v)

-- In every brain that provider calls can make from an empty one, an upsert that would change the
-- compiled truth of a page raises, and it leaves the brain as it was: the unique constraint refuses the
-- row of the prior version, unless the guard of a manager's page has refused the write before.
pub steps-upsert_page :
    (os : List BrainOp) (new_id prior_id now : ℕ) (w : PageWrite) (p : BrainPage)
    → find_page w.slug (steps os empty_brain).pages ≡ some p
    → text_eq p.compiled_truth w.compiled_truth ≡ false
    → upsert_page new_id prior_id now w (steps os empty_brain) ≡ (
      err (
          if p.manager_authoritative && not w.manager_authoritative
          then manager_conflict
          else integrity),
      steps os empty_brain,
    )
unfolding upsert_page
steps-upsert_page os new_id prior_id now w p h t = ground (
  arith,
  write_changed new_id prior_id now w (steps os empty_brain) (steps-Versioned os empty_brain tt) p h
      t,
)
