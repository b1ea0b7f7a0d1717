-- ===== src/Brain/Override.antt =====
-- What corrections of a page come to.
use mathlib.Core.List.{append-nil}
use vof_backend.Brain.Correction.{
  TextRepr, CorrectionKind, replace_compiled_truth, delete_kind, append_timeline_entry, kind_value,
  correction_kind, CorrectionStore, enqueue_cascade, CorrectionRequest, correction_provenance,
  correction_write, apply_replace, deletion_entry, apply_delete, apply_note, needs_page, apply_kind,
  apply_known, apply,
}
use vof_backend.Brain.History.{BrainOp, steps, appended, find_updated, append_timeline-found}
use vof_backend.Brain.Store.{BrainPage, Brain, find_page, get_page, upsert_page, soft_delete_page}
use vof_backend.Brain.Versions.{empty_brain, steps-upsert_page}
use vof_backend.Db.Models.{payload_get, Provenance}
use vof_backend.Errors.{Error, validation, integrity, ok, err}
use vof_backend.Prelude.{
  if◌then◌else◌, Bool-cases, Option-cases, is_some, ◌≡◌, refl, inl, inr, false, not, ◌&&◌, Option,
  none, some, List, [], ◌∷◌, ◌++◌, arith,
}
use vof_backend.Text.{Text, codes, is_empty, text_eq, strip}

module _ ⦃R : TextRepr⦄ where
  -- The provenance row that a request leaves, also when it is refused later.
  unfoldable pub recorded :
      Option CorrectionKind → CorrectionRequest → Option BrainPage → List Provenance
  recorded none r page = []
  recorded (some k) r page =
      if needs_page k && not (is_some page) then [] else correction_provenance r page ∷ []

  apply_kind-provenance :
      (k : CorrectionKind) (r : CorrectionRequest) (page : Option BrainPage) (s : CorrectionStore)
      → (apply_kind k r page s).1.provenance ≡ s.provenance
  unfolding apply_kind apply_replace apply_delete apply_note
  apply_kind-provenance replace_compiled_truth r page s = ground arith
  apply_kind-provenance delete_kind r page s = ground arith
  apply_kind-provenance append_timeline_entry r page s = ground arith

  apply-known :
      (k : CorrectionKind) (r : CorrectionRequest) (s : CorrectionStore)
      → correction_kind r.kind ≡ some k
      → apply r s ≡ apply_known k r s
  unfolding apply
  apply-known k r s h = rw h refl

  apply-unsupported :
      (r : CorrectionRequest) (s : CorrectionStore)
      → correction_kind r.kind ≡ none
      → apply r s ≡ (err validation, s)
  unfolding apply
  apply-unsupported r s h = rw h refl

  abbrev with_provenance : CorrectionRequest → Option BrainPage → CorrectionStore → CorrectionStore
  with_provenance r page s = record s {
    provenance = s.provenance ++ (correction_provenance r page ∷ []);
  }

  apply_known-found :
      (k : CorrectionKind) (r : CorrectionRequest) (s : CorrectionStore) (p : BrainPage)
      → find_page r.target_slug s.brain.pages ≡ some p
      → apply_known k r s ≡ apply_kind k r (some p) (with_provenance r (some p) s)
  unfolding apply_known needs_page get_page
  apply_known-found replace_compiled_truth r s p h = rw h refl
  apply_known-found delete_kind r s p h = rw h refl
  apply_known-found append_timeline_entry r s p h = rw h refl

  apply_known-provenance :
      (k : CorrectionKind) (r : CorrectionRequest) (s : CorrectionStore)
      → (apply_known k r s).1.provenance
        ≡ s.provenance ++ recorded (some k) r (find_page r.target_slug s.brain.pages)
  unfolding apply_known recorded get_page
  apply_known-provenance k r s =
      elim (Bool-cases (needs_page k && not (is_some (find_page r.target_slug s.brain.pages)))) [
        | inl e ↦ rw (e, append-nil s.provenance) refl
        | inr e ↦ rw (e, apply_kind-provenance k r (find_page r.target_slug s.brain.pages)) refl
      ]

  -- A request adds exactly one provenance row when its kind is supported and its page is there or is
  -- not needed, and none otherwise. The row stays when the request raises after that.
  pub apply-provenance :
      (r : CorrectionRequest) (s : CorrectionStore)
      → (apply r s).1.provenance
        ≡ s.provenance
          ++ recorded (correction_kind r.kind) r (find_page r.target_slug s.brain.pages)
  unfolding recorded
  apply-provenance r s = elim (Option-cases (correction_kind r.kind)) [
    | inl h ↦ rw (apply-unsupported r s h, h, append-nil s.provenance) refl
    | inr (k, h) ↦ rw (apply-known k r s h, h) (apply_known-provenance k r s)
  ]

  refused_truth :
      (os : List BrainOp) (r : CorrectionRequest) (p : BrainPage) (t : Text) (b : Brain)
      → b ≡ steps os empty_brain
      → find_page r.target_slug b.pages ≡ some p
      → text_eq p.compiled_truth t ≡ false
      → upsert_page r.version_id r.prior_version_id r.now (correction_write r (some p) t) b
        ≡ (err integrity, b)
  unfolding correction_write
  refused_truth os r p t b e h n = ground (
    arith,
    steps-upsert_page os r.version_id r.prior_version_id r.now (correction_write r (some p) t) p,
  )

  apply_replace-raise :
      (r : CorrectionRequest) (page : Option BrainPage) (s : CorrectionStore) (t : Text) (e : Error)
      → strip (payload_get (codes "compiled_truth") r.payload) ≡ t
      → is_empty t ≡ false
      → upsert_page r.version_id r.prior_version_id r.now (correction_write r page t) s.brain
        ≡ (err e, s.brain)
      → apply_replace r page s ≡ (err e, s)
  unfolding apply_replace
  apply_replace-raise r page s t e h n u = rw (h, n) (ground arith)

  -- In a brain that provider calls can make from an empty one, a correction that would change the
  -- compiled truth of a page raises a violation of the unique constraint. The page and the queue stay
  -- as they were, and a provenance row of the correction stays behind.
  pub apply-changed_truth :
      (os : List BrainOp) (r : CorrectionRequest) (p : BrainPage) (s : CorrectionStore)
      → s.brain ≡ steps os empty_brain
      → correction_kind r.kind ≡ some replace_compiled_truth
      → is_empty (strip (payload_get (codes "compiled_truth") r.payload)) ≡ false
      → find_page r.target_slug s.brain.pages ≡ some p
      → text_eq p.compiled_truth (strip (payload_get (codes "compiled_truth") r.payload)) ≡ false
      → apply r s ≡ (
        err integrity,
        record s { provenance = s.provenance ++ (correction_provenance r (some p) ∷ []) },
      )
  unfolding apply_kind
  apply-changed_truth os r p s b k n h t =
      rw
        (apply-known replace_compiled_truth r s k, apply_known-found replace_compiled_truth r s p h)
        (apply_replace-raise r (some p) (with_provenance r (some p) s) _ integrity refl n (
          refused_truth os r p (strip (payload_get (codes "compiled_truth") r.payload)) s.brain b h
            t))

  apply_delete-found :
      (r : CorrectionRequest) (p : BrainPage) (s : CorrectionStore)
      → find_page r.target_slug s.brain.pages ≡ some p
      → apply_delete r s ≡ (
        ok (
            some (record p {
              timeline = p.timeline ++ (deletion_entry r ∷ []);
              updated_at = r.now;
              deleted_at = some r.now;
            })),
        record s {
          brain =
              (soft_delete_page r.now r.target_slug
                (appended r.now r.target_slug (deletion_entry r) p s.brain)).1;
          cascades =
              s.cascades
              ++ (if r.inline_mode
                  then []
                  else record { slug = r.target_slug; kind = codes "soft_delete_page" } ∷ []);
        },
      )
  unfolding apply_delete soft_delete_page get_page enqueue_cascade kind_value
  apply_delete-found r p s h = ground (
    arith,
    append_timeline-found r.now r.target_slug (deletion_entry r) s.brain p h,
    find_updated r.target_slug (λ q. record q { deleted_at = some r.now })
        (appended r.now r.target_slug (deletion_entry r) p s.brain).pages
        (record p { timeline = p.timeline ++ (deletion_entry r ∷ []); updated_at = r.now })
        (λ q. refl)
        (find_updated r.target_slug
          (λ q. record q { timeline = p.timeline ++ (deletion_entry r ∷ []); updated_at = r.now })
          s.brain.pages p (λ q. refl) h),
    append-nil s.cascades,
  )

  -- A deletion of a page that is there gives the page back with its compiled truth and version, a
  -- deletion time, and one audit entry at the end of its timeline, and queues one cascade unless the
  -- inline mode is on.
  pub apply-delete :
      (r : CorrectionRequest) (p : BrainPage) (s : CorrectionStore)
      → correction_kind r.kind ≡ some delete_kind
      → find_page r.target_slug s.brain.pages ≡ some p
      → ((apply r s).0
          ≡ ok (
              some (record p {
                timeline = p.timeline ++ (deletion_entry r ∷ []);
                updated_at = r.now;
                deleted_at = some r.now;
              })))
        × ((apply r s).1.cascades
            ≡ s.cascades
              ++ (if r.inline_mode
                  then []
                  else record { slug = r.target_slug; kind = codes "soft_delete_page" } ∷ []))
  unfolding apply_kind
  apply-delete r p s k h =
      rw (apply-known delete_kind r s k, apply_known-found delete_kind r s p h)
        (rw (apply_delete-found r p (with_provenance r (some p) s) h) (refl, refl))
