-- ===== src/Brain/Correction.antt =====
-- `CorrectionService.apply` of app/services/corrections.py, over the brain, the provenance rows and the
-- queue of cascade jobs. A raise of the queue is logged and passed over, so a job is an attempt.
use vof_backend.Brain.History.{appended}
use vof_backend.Brain.Store.{
  TimelineEntry, BrainPage, Brain, get_page, PageWrite, upsert_page, append_timeline,
  soft_delete_page,
}
use vof_backend.Db.Models.{Payload, payload_get, manager_correction, Provenance}
use vof_backend.Errors.{not_found, validation, ok}
use vof_backend.Exec.{Exec, pure, or_raise, ◌>>=◌, ◌>>◌, modify, raise_if}
use vof_backend.Prelude.{
  take, if◌then◌else◌, is_some, get_or_else, ℕ, Bool, true, false, not, ◌&&◌, Option, none, some,
  List, [], ◌∷◌, ◌++◌,
}
use vof_backend.Text.{Text, codes, is_empty, text_eq, strip}
use vof_backend.Text.Hex.{uuid_text}

-- `repr` of a text: its escapes follow the Unicode tables, which are left open.
pub record TextRepr : Type 0 where
  pub repr : Text → Text

pub data CorrectionKind : Type 0 where
  replace_compiled_truth delete_kind append_timeline_entry : CorrectionKind

unfoldable pub kind_value : CorrectionKind → Text
kind_value replace_compiled_truth = codes "replace_compiled_truth"
kind_value delete_kind = codes "soft_delete_page"
kind_value append_timeline_entry = codes "append_timeline_entry"

-- `CorrectionKind(kind)`
unfoldable pub correction_kind : Text → Option CorrectionKind
unfolding kind_value
correction_kind t =
    if text_eq t (kind_value replace_compiled_truth)
    then some replace_compiled_truth
    else if text_eq t (kind_value delete_kind)
    then some delete_kind
    else if text_eq t (kind_value append_timeline_entry)
    then some append_timeline_entry
    else none

pub record CascadeJob : Type 0 where
  pub slug : Text
  pub kind : Text

pub record CorrectionStore : Type 0 where
  pub brain : Brain
  pub provenance : List Provenance
  pub cascades : List CascadeJob

-- A call of the provider from the service.
module _ {A : Type 0} where
  abbrev pub on_brain : Exec Brain A → Exec CorrectionStore A
  on_brain m s = let (r, b) = m s.brain in (r, record s { brain = b })

-- `_enqueue_cascade`, unless the inline mode of the tests is on
unfoldable pub enqueue_cascade : Bool → Text → Text → Exec CorrectionStore Unit
enqueue_cascade inline_mode slug kind s =
    if inline_mode
    then (ok tt, s)
    else (ok tt, record s { cascades = s.cascades ++ (record { slug = slug; kind = kind } ∷ []) })

-- One request: the fresh UUIDs, the clock, and the arguments of `apply`.
pub record CorrectionRequest : Type 0 where
  pub provenance_id : ℕ
  pub version_id : ℕ
  pub prior_version_id : ℕ
  pub now : ℕ
  pub inline_mode : Bool
  pub workspace_id : ℕ
  pub target_slug : Text
  pub kind : Text
  pub payload : Payload
  pub rationale : Option Text
  pub corrected_by_user_id : ℕ

unfoldable pub correction_cites : Option BrainPage → List ℕ
correction_cites none = []
correction_cites (some p) = elim p.provenance_id [ none ↦ [] | some i ↦ i ∷ [] ]

unfoldable pub correction_provenance : CorrectionRequest → Option BrainPage → Provenance
unfolding correction_cites
correction_provenance r page = record {
  id = r.provenance_id;
  workspace_id = r.workspace_id;
  source_type = manager_correction;
  source_id = none;
  extracted_by = some (uuid_text r.corrected_by_user_id);
  extracted_at = r.now;
  confidence = some 100;
  cites = correction_cites page;
  rationale = r.rationale;
}

-- `value or other`
unfoldable pub text_or : Text → Text → Text
text_or [] other = other
text_or (c ∷ cs) other = c ∷ cs

module _ ⦃R : TextRepr⦄ where
  abbrev previously : Option BrainPage → Text
  previously none = []
  previously (some p) = codes " Previously: " ++ (R.repr (take 200 p.compiled_truth) ++ codes ".")

  abbrev reason : Option Text → Text
  reason none = []
  reason (some []) = []
  reason (some (c ∷ cs)) = codes " Reason: " ++ (R.repr (c ∷ cs) ++ codes ".")

  unfoldable pub audit_text : CorrectionRequest → Option BrainPage → Text
  audit_text r page =
      codes "[CORRECTED by manager]"
      ++ (previously page
          ++ (reason r.rationale
              ++ (codes " See correction provenance " ++ (uuid_text r.provenance_id ++ codes "."))))

  unfoldable pub correction_write : CorrectionRequest → Option BrainPage → Text → PageWrite
  unfolding audit_text text_or
  correction_write r page new_truth = record {
    slug = r.target_slug;
    kind =
        text_or (payload_get (codes "kind") r.payload)
          (elim page [ none ↦ codes "misc" | some p ↦ p.kind ]);
    title =
        text_or (payload_get (codes "title") r.payload)
          (elim page [ none ↦ r.target_slug | some p ↦ p.title ]);
    compiled_truth = new_truth;
    provenance_id = r.provenance_id;
    manager_authoritative = true;
    tags = elim page [ none ↦ [] | some p ↦ p.tags ];
    timeline_seed = some (record {
      ts = r.now;
      text = audit_text r page;
      provenance_id = some r.provenance_id;
      tags = codes "correction" ∷ codes "manager_authoritative" ∷ [];
    });
  }

  unfoldable pub apply_replace :
      CorrectionRequest → Option BrainPage → Exec CorrectionStore (Option BrainPage)
  unfolding correction_write enqueue_cascade kind_value
  apply_replace r page =
      let new_truth = strip (payload_get (codes "compiled_truth") r.payload) in
      do
        raise_if (is_empty new_truth) validation
        snapshot ←
            on_brain (
              upsert_page r.version_id r.prior_version_id r.now (correction_write r page new_truth))
        enqueue_cascade r.inline_mode r.target_slug (kind_value replace_compiled_truth)
        pure (some snapshot)

unfoldable pub deletion_entry : CorrectionRequest → TimelineEntry
unfolding text_or
deletion_entry r = record {
  ts = r.now;
  text =
      codes "[DELETED by manager] Reason: "
      ++ (text_or (get_or_else r.rationale []) (codes "(none)")
          ++ (codes ". Correction provenance " ++ (uuid_text r.provenance_id ++ codes ".")));
  provenance_id = some r.provenance_id;
  tags = codes "correction" ∷ codes "soft_delete" ∷ [];
}

unfoldable pub apply_delete : CorrectionRequest → Exec CorrectionStore (Option BrainPage)
unfolding deletion_entry enqueue_cascade kind_value
apply_delete r = do
  appended ← on_brain (append_timeline r.now r.target_slug (deletion_entry r))
  on_brain (soft_delete_page r.now r.target_slug)
  enqueue_cascade r.inline_mode r.target_slug (kind_value delete_kind)
  on_brain (get_page r.target_slug)

unfoldable pub note_entry : CorrectionRequest → Text → TimelineEntry
note_entry r t = record {
  ts = r.now;
  text = codes "[NOTE by manager] " ++ t;
  provenance_id = some r.provenance_id;
  tags = codes "correction" ∷ codes "note" ∷ [];
}

unfoldable pub apply_note : CorrectionRequest → Exec CorrectionStore (Option BrainPage)
unfolding note_entry
apply_note r =
    let t = strip (payload_get (codes "text") r.payload) in
    do
      raise_if (is_empty t) validation
      snapshot ← on_brain (append_timeline r.now r.target_slug (note_entry r t))
      pure (some snapshot)

-- Only a replacement may name a page that is not there.
unfoldable pub needs_page : CorrectionKind → Bool
needs_page replace_compiled_truth = false
needs_page _ = true

module _ ⦃R : TextRepr⦄ where
  unfoldable pub apply_kind :
      CorrectionKind
      → CorrectionRequest
      → Option BrainPage
      → Exec CorrectionStore (Option BrainPage)
  unfolding apply_replace apply_delete apply_note
  apply_kind replace_compiled_truth r page = apply_replace r page
  apply_kind delete_kind r page = apply_delete r
  apply_kind append_timeline_entry r page = apply_note r

  -- The rest of `apply` once the kind is known. The provenance row is committed on its own.
  unfoldable pub apply_known :
      CorrectionKind → CorrectionRequest → Exec CorrectionStore (Option BrainPage)
  unfolding apply_kind needs_page correction_provenance
  apply_known kind r = do
    page ← on_brain (get_page r.target_slug)
    raise_if (needs_page kind && not (is_some page)) not_found
    modify (λ s. record s { provenance = s.provenance ++ (correction_provenance r page ∷ []) })
    apply_kind kind r page

  unfoldable pub apply : CorrectionRequest → Exec CorrectionStore (Option BrainPage)
  unfolding apply_known correction_kind
  apply r = do kind ← or_raise (correction_kind r.kind) validation; apply_known kind r
