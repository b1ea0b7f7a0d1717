-- ===== src/Intake/Reviewed.antt =====
-- Which conflicts of the intake reach the Manager's review.
use vof_backend.Brain.Store.{BrainPage, find_page}
use vof_backend.Errors.{Result, ok}
use vof_backend.Exec.{pure}
use vof_backend.Intake.Handlers.{org_write, resolve_handler}
use vof_backend.Intake.Locked.{org_brain-locked, cross_ref-locked}
use vof_backend.Intake.Models.{
  HandlerResult, needs_review, ingested, Classification, IntakeBufferItem,
}
use vof_backend.Intake.Pages.{HandlerInput, HandlerStore}
use vof_backend.Intake.Processing.{handled, Pipeline, handler_input, final_status, dispatch_item}
use vof_backend.Intake.Repo.{get_item, no_update}
use vof_backend.Intake.Runs.{Tracked, set_then}
use vof_backend.Intake.World.{IntakeWorld}
use vof_backend.Prelude.{◌==◌, if◌then◌else◌, ℕ, ◌≡◌, refl, ap, true, some}
use vof_backend.Text.{Text, codes, text_eq}

module _ (p : Pipeline) (now : ℕ) (fresh : ℕ → ℕ) (i : IntakeBufferItem) where
  handled_status :
      (r : HandlerResult) (w : IntakeWorld) (row : IntakeBufferItem)
      → get_item i.id w.items ≡ some row
      → (handled p now fresh i (ok r) w).0 ≡ ok (final_status p now fresh r)
  unfolding handled
  handled_status r w row h =
      let t : Tracked i.id w w = record { row = row; found = h; others = λ k e. refl } in
      ap (λ x. x.0)
        (set_then t
          (record no_update { status = some (final_status p now fresh r); handler_result = some r })
          (λ _. pure (final_status p now fresh r)))

  module _ (content : Text) (cl : Classification) (w : IntakeWorld) where
    abbrev input : Text → HandlerInput
    input scope = handler_input p now fresh i content (record cl { scope = scope })

    abbrev store : HandlerStore
    store = record { brain = w.brains i.workspace_id; provenance = w.provenance }

    -- The handler's answer decides the status.
    by_answer :
        (row : IntakeBufferItem)
        → get_item i.id w.items ≡ some row
        → (x : Result HandlerResult × HandlerStore) (r : HandlerResult) (s : HandlerStore)
        → x ≡ (ok r, s)
        → (handled p now fresh i x.0 (record w {
          brains = λ k. if k == i.workspace_id then x.1.brain else w.brains k;
          provenance = x.1.provenance;
        })).0
          ≡ ok (final_status p now fresh r)
    by_answer row h x r s e = rw e (
        handled_status r
          (record w {
            brains = λ k. if k == i.workspace_id then s.brain else w.brains k;
            provenance = s.provenance;
          })
          row h)

    -- An item that would overwrite a page which the Manager has locked needs review when its scope is
    -- ORG_WIDE. The same item with the scope BOTH is marked as ingested.
    pub dispatch_item-locked :
        (row : IntakeBufferItem) (page : BrainPage)
        → get_item i.id w.items ≡ some row
        → find_page
            (org_write p.casing p.title_case (input (codes "BOTH"))).slug
            (w.brains i.workspace_id).pages
          ≡ some page
        → page.manager_authoritative ≡ true
        → ((dispatch_item p now fresh i content (record cl { scope = codes "ORG_WIDE" }) w).0
            ≡ ok needs_review)
          × ((dispatch_item p now fresh i content (record cl { scope = codes "BOTH" }) w).0
              ≡ ok ingested)
    unfolding dispatch_item resolve_handler org_write handler_input text_eq
    dispatch_item-locked row page h found locked = (
      by_answer row h _ _ _ (
          org_brain-locked p.casing p.title_case (input (codes "ORG_WIDE")) store page found
            locked),
      by_answer row h _ _ _
          (cross_ref-locked p.casing p.title_case (input (codes "BOTH")) store page found locked),
    )
