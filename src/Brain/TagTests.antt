-- ===== src/Brain/TagTests.antt =====
-- A verdict on a page that no verdict has tagged.
use vof_backend.Brain.Store.{BrainPage, new_page}
use vof_backend.Brain.Updater.{UpdateRun}
use vof_backend.Prelude.{false, none, List, [], ◌∷◌}
use vof_backend.Text.{Text, codes}

abbrev plain_page : BrainPage
plain_page = new_page 100 (record {
  slug = codes "accounts/acme";
  kind = codes "account";
  title = codes "Acme";
  compiled_truth = codes "stub";
  provenance_id = 1;
  manager_authoritative = false;
  tags = codes "vip" ∷ [];
  timeline_seed = none;
})

abbrev tag_run : UpdateRun
tag_run = record {
  now = 400;
  call_id = 9;
  discussion = [];
  provenance_id = 50;
  version_ids = λ e. (51, 52);
  order = λ s. s;
}

abbrev verdicts : List (Text × Text)
verdicts = (codes "acme", codes "unconfirmed") ∷ []
