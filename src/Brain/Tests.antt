-- ===== src/Brain/Tests.antt =====
-- A brain of two pages: an account that a call has named, and a policy that the Manager wrote.
use vof_backend.Brain.Correction.{
  TextRepr, kind_value, correction_kind, CorrectionStore, CorrectionRequest, correction_provenance,
  apply,
}
use vof_backend.Brain.Frozen.{steps-Frozen, steps-guard}
use vof_backend.Brain.History.{BrainOp, upsert, append, delete, steps, Later}
use vof_backend.Brain.Mentioned.{Updated, run_brain_updater-Mentioned}
use vof_backend.Brain.Mentions.{IsKnown}
use vof_backend.Brain.Override.{apply-changed_truth}
use vof_backend.Brain.Slug.{slugify, Entity, resolve_slug}
use vof_backend.Brain.Store.{
  TimelineEntry, BrainPage, Brain, find_page, PageWrite, new_page, upsert_write, upsert_page,
}
use vof_backend.Brain.Updater.{UpdateRun, run_brain_updater}
use vof_backend.Brain.Versions.{empty_brain, steps-upsert_page}
use vof_backend.Db.Models.{payload_get}
use vof_backend.Errors.{manager_conflict, integrity, err}
use vof_backend.Prelude.{All, get_or_else, ◌≡◌, refl, true, false, none, some, List, [], ◌∷◌}
use vof_backend.Text.{Text, codes, text_eq, strip, ascii}

abbrev account_write : PageWrite
account_write = record {
  slug = codes "accounts/acme";
  kind = codes "account";
  title = codes "Acme";
  compiled_truth = codes "stub";
  provenance_id = 1;
  manager_authoritative = false;
  tags = [];
  timeline_seed = none;
}

abbrev policy_write : PageWrite
policy_write = record {
  slug = codes "policy";
  kind = codes "misc";
  title = codes "Policy";
  compiled_truth = codes "no refunds";
  provenance_id = 2;
  manager_authoritative = true;
  tags = [];
  timeline_seed = none;
}

abbrev first_ops : List BrainOp
first_ops = upsert 10 11 100 account_write ∷ upsert 12 13 101 policy_write ∷ []

abbrev mention : TimelineEntry
mention = record { ts = 150; text = codes "Mentioned"; provenance_id = some 3; tags = [] }

abbrev later_ops : List BrainOp
later_ops =
    append 150 (codes "accounts/acme") mention
    ∷ upsert 14 15 160 (record account_write { compiled_truth = codes "enriched" })
    ∷ delete 170 (codes "policy")
    ∷ []

-- The page that a slug finds, where there is one.
abbrev the_page : Text → Brain → BrainPage
the_page slug b = get_or_else (find_page slug b.pages) (new_page 0 account_write)

abbrev first_brain : Brain
first_brain = steps first_ops empty_brain

account_found :
    find_page (codes "accounts/acme") first_brain.pages
    ≡ some (the_page (codes "accounts/acme") first_brain)
unfolding steps find_page upsert_page new_page upsert_write text_eq
account_found = refl

policy_found :
    find_page (codes "policy") first_brain.pages ≡ some (the_page (codes "policy") first_brain)
unfolding steps find_page upsert_page new_page upsert_write text_eq
policy_found = refl

steps-Frozen_example :
    Later
      (codes "accounts/acme")
      (the_page (codes "accounts/acme") first_brain)
      (steps later_ops first_brain)
steps-Frozen_example =
    steps-Frozen first_ops later_ops (codes "accounts/acme")
      (the_page (codes "accounts/acme") first_brain) account_found

steps-upsert_page_example :
    upsert_page 14 15 160 (record account_write { compiled_truth = codes "enriched" }) first_brain
    ≡ (err integrity, first_brain)
unfolding steps find_page upsert_page new_page upsert_write text_eq
steps-upsert_page_example =
    steps-upsert_page first_ops 14 15 160
      (record account_write { compiled_truth = codes "enriched" })
      (the_page (codes "accounts/acme") first_brain) account_found refl

steps-guard_example :
    upsert_page 20 21 200
      (record policy_write { compiled_truth = codes "refunds"; manager_authoritative = false })
      (steps later_ops first_brain)
    ≡ (err manager_conflict, steps later_ops first_brain)
unfolding steps find_page upsert_page new_page upsert_write text_eq
steps-guard_example =
    steps-guard first_ops later_ops 20 21 200
      (record policy_write { compiled_truth = codes "refunds"; manager_authoritative = false })
      (the_page (codes "policy") first_brain) policy_found refl refl

abbrev plain_repr : TextRepr
plain_repr = record { repr = λ s. s }

abbrev request : CorrectionRequest
request = record {
  provenance_id = 30;
  version_id = 31;
  prior_version_id = 32;
  now = 300;
  inline_mode = false;
  workspace_id = 1;
  target_slug = codes "accounts/acme";
  kind = codes "replace_compiled_truth";
  payload = (codes "compiled_truth", codes " wholesale ") ∷ [];
  rationale = none;
  corrected_by_user_id = 7;
}

abbrev first_store : CorrectionStore
first_store = record { brain = first_brain; provenance = []; cascades = [] }

apply-changed_truth_example : apply ⦃R = plain_repr⦄ request first_store ≡ (
  err integrity,
  record first_store {
    provenance =
        correction_provenance request (some (the_page (codes "accounts/acme") first_brain)) ∷ [];
  },
)
unfolding correction_kind kind_value strip payload_get steps find_page upsert_page new_page
    upsert_write text_eq
apply-changed_truth_example =
    apply-changed_truth ⦃R = plain_repr⦄ first_ops request
      (the_page (codes "accounts/acme") first_brain) first_store refl refl refl account_found refl

abbrev deletion : CorrectionRequest
deletion = record request { kind = codes "soft_delete_page"; payload = [] }

abbrev update_run : UpdateRun
update_run = record {
  now = 400;
  call_id = 9;
  discussion = codes "Acme wants a quote";
  provenance_id = 50;
  version_ids = λ e. (51, 52);
  order = λ s. s;
}

abbrev acme : Entity
acme = record {
  slug_hint = codes "accounts/acme";
  entity_type = some (codes "account");
  name = codes "Acme";
}

acme_slug : resolve_slug ascii acme ≡ codes "accounts/acme"
unfolding resolve_slug strip text_eq
acme_slug = refl

abbrev known_entities : List Entity
known_entities = acme ∷ record { slug_hint = []; entity_type = none; name = [] } ∷ []

IsKnown-there : All (IsKnown ascii first_brain) known_entities
IsKnown-there = (λ h. rw (acme_slug, account_found) refl, ((λ h. cc), tt))

run_brain_updater-Mentioned_example :
    Updated ascii update_run known_entities first_brain
      (codes "accounts/acme")
      (the_page (codes "accounts/acme") first_brain)
      (run_brain_updater ascii update_run known_entities [] first_brain)
run_brain_updater-Mentioned_example =
    run_brain_updater-Mentioned ascii update_run known_entities [] first_brain
      (codes "accounts/acme") (the_page (codes "accounts/acme") first_brain) IsKnown-there
      account_found

slug_of_name : slugify ascii (codes " Ann  Lee & Co. ") ≡ codes "ann--lee--co"
unfolding slugify strip text_eq
slug_of_name = refl
