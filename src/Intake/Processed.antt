-- ===== src/Intake/Processed.antt =====
-- Every run of the intake ends in an outcome.
use vof_backend.Db.Models.{ManagerWorkspace}
use vof_backend.Decision.Service.{workspace_key}
use vof_backend.Errors.{Result, ok, err}
use vof_backend.Intake.Extract.{raised, returned, Attempt, unsupported, text_of, extract_content}
use vof_backend.Intake.Handlers.{Handler, resolve_handler}
use vof_backend.Intake.Models.{
  HandlerResult, needs_review, failed, extracting, classified, Classification, classified_as,
  IntakeBufferItem, is_terminal,
}
use vof_backend.Intake.Processing.{
  handled, Pipeline, confidence_threshold, classifier_input, final_status, dispatch_item, gate_item,
  classify_item, keep_extractor, content_item, extracted_item, read_item, run_item,
  process_intake_item,
}
use vof_backend.Intake.Repo.{item_key, get_item, no_update, ItemUpdate}
use vof_backend.Intake.Runs.{
  Tracked, is_outcome, Finished, set-Tracked, set_then, set-Finished, end_with-Finished,
}
use vof_backend.Intake.World.{IntakeWorld}
use vof_backend.Prelude.{
  find_row, find_row-key, ltb, Bool-cases, ℕ, ◌≡◌, refl, sym, subst, inl, inr, true, false, Option,
  none, some, List, arith,
}
use vof_backend.Text.{Text, is_empty, strip}

get_item-id :
    (k : ℕ) (items : List IntakeBufferItem) (i : IntakeBufferItem)
    → get_item k items ≡ some i
    → i.id ≡ k
unfolding get_item
get_item-id k items i h = find_row-key item_key k items i h

module _ (p : Pipeline) (now : ℕ) (fresh : ℕ → ℕ) where
  final_status-outcome : (r : HandlerResult) → is_outcome (final_status p now fresh r) ≡ true
  final_status-outcome r = ground arith

  module _ (i : IntakeBufferItem) {w0 : IntakeWorld} where
    handled-Finished :
        {w : IntakeWorld} (t : Tracked i.id w0 w) (r : Result HandlerResult)
        → Finished i.id w0 (handled p now fresh i r w)
    unfolding handled
    handled-Finished t (err e) = end_with-Finished t failed _ refl
    handled-Finished t (ok r) =
        set-Finished t
          (record no_update { status = some (final_status p now fresh r); handler_result = some r })
          (final_status p now fresh r) (final_status-outcome r) refl

    dispatch_item-Finished :
        {w : IntakeWorld} (t : Tracked i.id w0 w) (content : Text) (cl : Classification)
        → Finished i.id w0 (dispatch_item p now fresh i content cl w)
    unfolding dispatch_item
    dispatch_item-Finished {w} t content cl =
        by_handler (resolve_handler p.casing p.title_case cl.scope) refl
      where
        by_handler :
            (h : Option (Handler p.casing p.title_case))
            → resolve_handler p.casing p.title_case cl.scope ≡ h
            → Finished i.id w0 (dispatch_item p now fresh i content cl w)
        by_handler none e = rw (dispatch_item, e) (end_with-Finished t failed _ refl)
        by_handler (some h) e =
            rw (dispatch_item, e)
              (handled-Finished (record { row = t.row; found = t.found; others = t.others }) _)

    gate_item-Finished :
        {w : IntakeWorld} (t : Tracked i.id w0 w) (content : Text) (cl : Classification)
        → Finished i.id w0 (gate_item p now fresh i content cl w)
    unfolding gate_item
    gate_item-Finished t content cl = elim (Bool-cases (ltb cl.confidence confidence_threshold)) [
      | inl e ↦ rw e (end_with-Finished t needs_review _ refl)
      | inr e ↦ rw e (dispatch_item-Finished t content cl)
    ]

    classify_item-Finished :
        {w : IntakeWorld} (t : Tracked i.id w0 w) (ws : ManagerWorkspace) (content : Text)
        → Finished i.id w0 (classify_item p now fresh i ws content w)
    unfolding classify_item
    classify_item-Finished {w} t ws content =
        by_answer (p.classify (classifier_input i ws content)) refl
      where
        by_answer :
            (a : Attempt Classification)
            → p.classify (classifier_input i ws content) ≡ a
            → Finished i.id w0 (classify_item p now fresh i ws content w)
        by_answer (unsupported m) e = rw (classify_item, e) (end_with-Finished t failed _ refl)
        by_answer (raised m) e = rw (classify_item, e) (end_with-Finished t failed _ refl)
        by_answer (returned cl) e =
            let u : ItemUpdate = record no_update {
              status = some classified;
              classification = some (classified_as cl);
            } in
            rw (classify_item, e, set_then t u (λ _. gate_item p now fresh i content cl))
              (gate_item-Finished (set-Tracked t u) content cl)

    content_item-Finished :
        {w : IntakeWorld} (t : Tracked i.id w0 w) (ws : ManagerWorkspace) (content : Text)
        → Finished i.id w0 (content_item p now fresh i ws content w)
    unfolding content_item
    content_item-Finished t ws content = elim (Bool-cases (is_empty (strip content))) [
      | inl e ↦ rw e (end_with-Finished t needs_review _ refl)
      | inr e ↦ rw e (classify_item-Finished t ws content)
    ]

    extracted_item-Finished :
        {w : IntakeWorld} (t : Tracked i.id w0 w) (ws : ManagerWorkspace)
        (extracted : Text × Option Text)
        → Finished i.id w0 (extracted_item p now fresh i ws extracted w)
    unfolding extracted_item keep_extractor
    extracted_item-Finished t ws (content, extractor) =
        elim (Bool-cases (is_empty (text_of extractor))) [
          | inl e ↦ rw e (content_item-Finished t ws content)
          | inr e ↦
              let u : ItemUpdate = record no_update { extractor_used = extractor } in
              rw (e, set_then t u (λ _. content_item p now fresh i ws content))
                (content_item-Finished (set-Tracked t u) ws content)
        ]

    read_item-Finished :
        {w : IntakeWorld} (t : Tracked i.id w0 w) (ws : ManagerWorkspace)
        → Finished i.id w0 (read_item p now fresh i ws w)
    unfolding read_item
    read_item-Finished {w} t ws = by_content (content_of_item w) refl
      where
        content_of_item : IntakeWorld → Attempt (Text × Option Text)
        content_of_item v = extract_content p.casing ⦃R = p.repr⦄ p.extract p.missing_blob i v.blobs

        by_content :
            (a : Attempt (Text × Option Text))
            → content_of_item w ≡ a
            → Finished i.id w0 (read_item p now fresh i ws w)
        by_content (unsupported m) e = rw (read_item, e) (end_with-Finished t failed _ refl)
        by_content (raised m) e = rw (read_item, e) (end_with-Finished t failed _ refl)
        by_content (returned content) e = rw (read_item, e) (extracted_item-Finished t ws content)

    run_item-Finished :
        {w : IntakeWorld} (t : Tracked i.id w0 w) (ws : ManagerWorkspace)
        → Finished i.id w0 (run_item p now fresh i ws w)
    unfolding run_item
    run_item-Finished t ws =
        let u : ItemUpdate = record no_update { status = some extracting } in
        rw (set_then t u (λ _. read_item p now fresh i ws))
          (read_item-Finished (set-Tracked t u) ws)

  -- A run on an item that is in none of the final statuses, in a workspace that is there, ends: whatever
  -- the readers, the classifier and the brain do, it returns ingested, needs_review or failed, the row of
  -- the item has that status then, and no other row changes.
  pub process_intake_item-Finished :
      (item_id : ℕ) (w : IntakeWorld) (i : IntakeBufferItem) (ws : ManagerWorkspace)
      → get_item item_id w.items ≡ some i
      → is_terminal i.status ≡ false
      → find_row workspace_key i.workspace_id w.workspaces ≡ some ws
      → Finished item_id w (process_intake_item p now fresh item_id w)
  unfolding process_intake_item
  process_intake_item-Finished item_id w i ws h live hw =
      let same : i.id ≡ item_id = get_item-id item_id w.items i h in
      rw (process_intake_item, h, live, hw)
        (subst (λ k. Finished k w (run_item p now fresh i ws w)) same
          (run_item-Finished i {w = w}
            (record {
              row = i;
              found = subst (λ k. get_item k w.items ≡ some i) (sym same) h;
              others = λ k e. refl;
            })
            ws))
