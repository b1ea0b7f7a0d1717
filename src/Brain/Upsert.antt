-- ===== src/Brain/Upsert.antt =====
-- What the writes of an upsert come to, branch by branch.
use vof_backend.Brain.Pages.{find_page-slug, All-find_page}
use vof_backend.Brain.Store.{
  BrainPage, PageVersion, Brain, find_page, update_page, has_version, PageWrite, new_page,
  new_version, upsert_write,
}
use vof_backend.Errors.{Error, manager_conflict, integrity, Result, ok, err}
use vof_backend.Prelude.{
  All, if◌then◌else◌, Bool-cases, Option-cases, ℕ, ◌≡◌, refl, subst, inl, inr, true, false, not,
  ◌&&◌, none, some, List, [], ◌∷◌, ◌++◌, arith,
}
use vof_backend.Text.{text_eq}

-- The page has a row for its current version, so that number is taken.
abbrev pub IsVersioned : List PageVersion → BrainPage → Type 0
IsVersioned vs p = has_version p.slug p.version vs ≡ true

abbrev pub BrainVersioned : Brain → Type 0
BrainVersioned b = All (IsVersioned b.versions) b.pages

module _ (new_id prior_id now : ℕ) (w : PageWrite) (b : Brain) where
  abbrev write : Result (Unit {0}) × Brain
  write = upsert_write new_id prior_id now w b

  write_taken :
      find_page w.slug b.pages ≡ none
      → has_version w.slug 1 b.versions ≡ true
      → write ≡ (err integrity, b)
  unfolding upsert_write
  write_taken h t = ground arith

  write_new :
      find_page w.slug b.pages ≡ none
      → has_version w.slug 1 b.versions ≡ false
      → write ≡ (
        ok tt,
        record b {
          pages = b.pages ++ (new_page now w ∷ []);
          versions = b.versions ++ (new_version new_id now 1 w ∷ []);
        },
      )
  unfolding upsert_write
  write_new h t = ground arith

  module _ (p : BrainPage) (found : find_page w.slug b.pages ≡ some p) where
    pub write_refused :
        p.manager_authoritative ≡ true
        → w.manager_authoritative ≡ false
        → write ≡ (err manager_conflict, b)
    unfolding upsert_write
    write_refused h m = ground arith

    module _ (allowed : (p.manager_authoritative && not w.manager_authoritative) ≡ false) where
      pub write_same :
          text_eq p.compiled_truth w.compiled_truth ≡ true
          → write ≡ (
            ok tt,
            record b { pages = update_page w.slug (λ q. record q { updated_at = now }) b.pages },
          )
      unfolding upsert_write
      write_same h = ground arith

      pub write_stuck :
          text_eq p.compiled_truth w.compiled_truth ≡ false
          → has_version w.slug p.version b.versions ≡ true
          → write ≡ (err integrity, b)
      unfolding upsert_write
      write_stuck h t = ground arith

-- With every page's current version on record, the writes raise and change nothing, or create the page,
-- or only move the time of its update.
pub data Written (new_id now : ℕ) (w : PageWrite) (b : Brain) (r : Result (Unit {0}) × Brain)
    : Type 0 where
  unwritten : (e : Error) → r ≡ (err e, b) → Written new_id now w b r
  created_page :
      find_page w.slug b.pages ≡ none
      → r ≡ (
        ok tt,
        record b {
          pages = b.pages ++ (new_page now w ∷ []);
          versions = b.versions ++ (new_version new_id now 1 w ∷ []);
        },
      )
      → Written new_id now w b r
  touched :
      (p : BrainPage)
      → find_page w.slug b.pages ≡ some p
      → r ≡ (
        ok tt,
        record b { pages = update_page w.slug (λ q. record q { updated_at = now }) b.pages },
      )
      → Written new_id now w b r

module _ (new_id prior_id now : ℕ) (w : PageWrite) (b : Brain) (versioned : BrainVersioned b) where
  found_version :
      (p : BrainPage)
      → find_page w.slug b.pages ≡ some p
      → has_version w.slug p.version b.versions ≡ true
  found_version p h =
      subst (λ s. has_version s p.version b.versions ≡ true) (find_page-slug w.slug b.pages p h)
        (All-find_page (IsVersioned b.versions) w.slug b.pages p versioned h)

  write_found :
      (p : BrainPage)
      → find_page w.slug b.pages ≡ some p
      → Written new_id now w b (upsert_write new_id prior_id now w b)
  write_found p h = elim (Bool-cases (p.manager_authoritative && not w.manager_authoritative)) [
    | inl e ↦
        unwritten manager_conflict
          (write_refused new_id prior_id now w b p h (ground arith) (ground arith))
    | inr e ↦ elim (Bool-cases (text_eq p.compiled_truth w.compiled_truth)) [
      | inl t ↦ touched p h (write_same new_id prior_id now w b p h e t)
      | inr t ↦
          unwritten integrity (write_stuck new_id prior_id now w b p h e t (found_version p h))
    ]
  ]

  pub write-cases : Written new_id now w b (upsert_write new_id prior_id now w b)
  write-cases = elim (Option-cases (find_page w.slug b.pages)) [
    | inr (p, h) ↦ write_found p h
    | inl h ↦ elim (Bool-cases (has_version w.slug 1 b.versions)) [
      | inl t ↦ unwritten integrity (write_taken new_id prior_id now w b h t)
      | inr t ↦ created_page h (write_new new_id prior_id now w b h t)
    ]
  ]

  pub write_changed :
      (p : BrainPage)
      → find_page w.slug b.pages ≡ some p
      → text_eq p.compiled_truth w.compiled_truth ≡ false
      → upsert_write new_id prior_id now w b ≡ (
        err (
            if p.manager_authoritative && not w.manager_authoritative
            then manager_conflict
            else integrity),
        b,
      )
  write_changed p h t = elim (Bool-cases (p.manager_authoritative && not w.manager_authoritative)) [
    | inl e ↦ rw (e, write_refused new_id prior_id now w b p h (ground arith) (ground arith)) refl
    | inr e ↦ rw (e, write_stuck new_id prior_id now w b p h e t (found_version p h)) refl
  ]
