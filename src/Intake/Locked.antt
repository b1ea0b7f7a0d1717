-- ===== src/Intake/Locked.antt =====
-- An item whose page the Manager has locked.
use vof_backend.Brain.History.{appended, append_timeline-found}
use vof_backend.Brain.Store.{
  TimelineEntry, BrainPage, Brain, find_page, PageWrite, fresh_page, upsert_write, upsert_page,
  append_timeline,
}
use vof_backend.Brain.Upsert.{write_refused}
use vof_backend.Errors.{manager_conflict, Result, ok, err}
use vof_backend.Exec.{pure, >>=-ok, >>=-err}
use vof_backend.Intake.Handlers.{org_write, org_conflict, org_result, org_brain, cross_ref}
use vof_backend.Intake.Models.{
  HandlerResult, manager_authoritative_conflict, upserted_workspace_side,
}
use vof_backend.Intake.Pages.{
  HandlerInput, HandlerStore, on_page, item_provenance, after_upsert, upsert_or_note,
}
use vof_backend.Prelude.{ℕ, ◌≡◌, refl, ap, ◌∙◌, true, false, none, some, [], ◌∷◌, ◌++◌}
use vof_backend.Text.{Text, codes, CaseMap}

abbrev noted_page : ℕ → TimelineEntry → BrainPage → BrainPage
noted_page now note p = record p { timeline = p.timeline ++ (note ∷ []); updated_at = now }

module _ (new_id prior_id now : ℕ) (w : PageWrite) (note : TimelineEntry) (s : HandlerStore)
    (page : BrainPage) (found : find_page w.slug s.brain.pages ≡ some page)
    (locked : page.manager_authoritative ≡ true) (automatic : w.manager_authoritative ≡ false) where
  upsert_page-locked : upsert_page new_id prior_id now w s.brain ≡ (err manager_conflict, s.brain)
  unfolding upsert_page
  upsert_page-locked =
      >>=-err (upsert_write new_id prior_id now w) (λ _. fresh_page w.slug) s.brain s.brain
        manager_conflict (write_refused new_id prior_id now w s.brain page found locked automatic)

  pub upsert_or_note-locked :
      upsert_or_note new_id prior_id now w note s
      ≡ (ok none, record s { brain = appended now w.slug note page s.brain })
  unfolding upsert_or_note after_upsert
  upsert_or_note-locked =
      ap
        (λ (x : Result BrainPage × Brain).
          after_upsert now w.slug note x.0 (record s { brain = x.1 }))
        upsert_page-locked
      ∙ >>=-ok (on_page (append_timeline now w.slug note)) (λ _. pure none) s
          (record s { brain = appended now w.slug note page s.brain }) (noted_page now note page)
          (ap (λ (x : Result BrainPage × Brain). (x.0, record s { brain = x.1 }))
            (append_timeline-found now w.slug note s.brain page found))

module _ (c : CaseMap) (title_case : Text → Text) (i : HandlerInput) (s : HandlerStore)
    (page : BrainPage) (found : find_page (org_write c title_case i).slug s.brain.pages ≡ some page)
    (locked : page.manager_authoritative ≡ true) where
  abbrev noted_brain : Brain
  noted_brain =
      appended i.now (org_write c title_case i).slug (org_conflict c title_case i) page s.brain

  abbrev conflict_result : HandlerResult
  conflict_result = manager_authoritative_conflict (org_write c title_case i).slug (i.fresh 0)

  abbrev kept : HandlerStore
  kept = record s {
    provenance = s.provenance ++ (item_provenance i (some (codes "classifier@unknown")) ∷ []);
  }

  pub org_brain-locked :
      org_brain c title_case i s ≡ (ok conflict_result, record kept { brain = noted_brain })
  unfolding org_brain org_write org_result
  org_brain-locked =
      >>=-ok
        (upsert_or_note (i.fresh 1) (i.fresh 2) i.now (org_write c title_case i)
          (org_conflict c title_case i))
        (λ p. pure (org_result c title_case i p)) kept (record kept { brain = noted_brain }) none
        (upsert_or_note-locked (i.fresh 1) (i.fresh 2) i.now (org_write c title_case i)
          (org_conflict c title_case i) kept page found locked refl)

  pub cross_ref-locked : cross_ref c title_case i s ≡ (
    ok (upserted_workspace_side conflict_result i.classification.target_caller_id),
    record kept { brain = noted_brain },
  )
  unfolding cross_ref
  cross_ref-locked =
      >>=-ok (org_brain c title_case i)
        (λ side. pure (upserted_workspace_side side i.classification.target_caller_id)) s
        (record kept { brain = noted_brain }) conflict_result org_brain-locked
