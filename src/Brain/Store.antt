-- ===== src/Brain/Store.antt =====
-- `PostgresBrainProvider` of app/brain/postgres_brain.py. One brain is the schema of one workspace, and
-- a method is one transaction on its two tables. A UUID is made from outside, as an argument.
use mathlib.Core.List.{reverse}
use vof_backend.Errors.{manager_conflict, integrity, key_error, runtime_error, ok, err}
use vof_backend.Exec.{Exec, raise, gets, or_raise, transact, ◌>>=◌, ◌>>◌, modify}
use vof_backend.Prelude.{
  select, find_first, order_desc, ◌==◌, if◌then◌else◌, ℕ, ◌+◌, Bool, false, not, ◌&&◌, ◌||◌, Option,
  none, some, List, [], ◌∷◌, ◌++◌,
}
use vof_backend.Text.{Text, text_eq}

pub record TimelineEntry : Type 0 where
  pub ts : ℕ
  pub text : Text
  pub provenance_id : Option ℕ
  pub tags : List Text

-- A row of `brain_pages`, which is also the snapshot that the reads return.
pub record BrainPage : Type 0 where
  pub slug : Text
  pub kind : Text
  pub title : Text
  pub compiled_truth : Text
  pub timeline : List TimelineEntry
  pub tags : List Text
  pub provenance_id : Option ℕ
  pub manager_authoritative : Bool
  pub deleted_at : Option ℕ
  pub version : ℕ
  pub created_at : ℕ
  pub updated_at : ℕ

-- A row of `brain_page_versions`.
pub record PageVersion : Type 0 where
  pub id : ℕ
  pub page_slug : Text
  pub version : ℕ
  pub compiled_truth : Text
  pub provenance_id : Option ℕ
  pub superseded_by : Option ℕ
  pub created_at : ℕ

pub record Brain : Type 0 where
  pub pages : List BrainPage
  pub versions : List PageVersion

-- `SELECT … WHERE slug = :slug`; the slug is the primary key.
unfoldable pub find_page : Text → List BrainPage → Option BrainPage
find_page slug ps = find_first (λ p. text_eq p.slug slug) ps

-- `UPDATE … WHERE slug = :slug`
unfoldable pub update_page : Text → (BrainPage → BrainPage) → List BrainPage → List BrainPage
update_page slug f [] = []
update_page slug f (p ∷ ps) =
    let rest = update_page slug f ps in if text_eq p.slug slug then f p ∷ rest else p ∷ rest

-- `UNIQUE (page_slug, version)`
unfoldable pub has_version : Text → ℕ → List PageVersion → Bool
has_version slug v [] = false
has_version slug v (r ∷ rs) = text_eq r.page_slug slug && r.version == v || has_version slug v rs

unfoldable pub insert_version : PageVersion → Exec Brain Unit
unfolding has_version
insert_version r b =
    if has_version r.page_slug r.version b.versions
    then (err integrity, b)
    else (ok tt, record b { versions = b.versions ++ (r ∷ []) })

unfoldable pub get_page : Text → Exec Brain (Option BrainPage)
get_page slug = gets (λ b. find_page slug b.pages)

abbrev version_value : PageVersion → ℕ
version_value r = r.version

-- `ORDER BY version ASC`
unfoldable pub list_versions : Text → Brain → List PageVersion
list_versions slug b =
    reverse (order_desc version_value (select (λ r. text_eq r.page_slug slug) b.versions))

pub record PageWrite : Type 0 where
  pub slug : Text
  pub kind : Text
  pub title : Text
  pub compiled_truth : Text
  pub provenance_id : ℕ
  pub manager_authoritative : Bool
  pub tags : List Text
  pub timeline_seed : Option TimelineEntry

abbrev pub seed_list : Option TimelineEntry → List TimelineEntry
seed_list none = []
seed_list (some e) = e ∷ []

unfoldable pub new_page : ℕ → PageWrite → BrainPage
new_page now w = record {
  slug = w.slug;
  kind = w.kind;
  title = w.title;
  compiled_truth = w.compiled_truth;
  timeline = seed_list w.timeline_seed;
  tags = w.tags;
  provenance_id = some w.provenance_id;
  manager_authoritative = w.manager_authoritative;
  deleted_at = none;
  version = 1;
  created_at = now;
  updated_at = now;
}

unfoldable pub new_version : (id now version : ℕ) → PageWrite → PageVersion
new_version id now v w = record {
  id = id;
  page_slug = w.slug;
  version = v;
  compiled_truth = w.compiled_truth;
  provenance_id = some w.provenance_id;
  superseded_by = none;
  created_at = now;
}

-- The row of the version that is replaced.
unfoldable pub prior_version : (id now superseded_by : ℕ) → Text → BrainPage → PageVersion
prior_version id now sup slug p = record {
  id = id;
  page_slug = slug;
  version = p.version;
  compiled_truth = p.compiled_truth;
  provenance_id = p.provenance_id;
  superseded_by = some sup;
  created_at = now;
}

-- The columns that the update of an existing page sets; the timeline and the tags are not among them.
-- `p` is the row as it was read, under its lock.
unfoldable pub rewritten : (now : ℕ) → PageWrite → BrainPage → BrainPage → BrainPage
rewritten now w p q = record q {
  kind = w.kind;
  title = w.title;
  compiled_truth = w.compiled_truth;
  provenance_id = some w.provenance_id;
  manager_authoritative = w.manager_authoritative || p.manager_authoritative;
  version = p.version + 1;
  updated_at = now;
}

-- The read after the commit, which asserts that the page is there.
unfoldable pub fresh_page : Text → Exec Brain BrainPage
unfolding get_page
fresh_page slug = do found ← get_page slug; or_raise found runtime_error

unfoldable pub insert_page : (v_id now : ℕ) → PageWrite → Exec Brain Unit
unfolding insert_version new_page new_version
insert_page v_id now w = do
  modify (λ b. record b { pages = b.pages ++ (new_page now w ∷ []) })
  insert_version (new_version v_id now 1 w)

unfoldable pub touch_page : (now : ℕ) → PageWrite → Exec Brain Unit
touch_page now w =
    modify
      (λ b. record b { pages = update_page w.slug (λ p. record p { updated_at = now }) b.pages })

unfoldable pub rewrite_page :
    (new_v_id prior_v_id now : ℕ) → PageWrite → BrainPage → Exec Brain Unit
unfolding insert_version prior_version new_version rewritten
rewrite_page new_v_id prior_v_id now w p = do
  insert_version (prior_version prior_v_id now new_v_id w.slug p)
  insert_version (new_version new_v_id now (p.version + 1) w)
  modify (λ b. record b { pages = update_page w.slug (rewritten now w p) b.pages })

unfoldable pub upsert_existing : (new_id prior_id now : ℕ) → PageWrite → BrainPage → Exec Brain Unit
unfolding touch_page rewrite_page
upsert_existing new_id prior_id now w p =
    if p.manager_authoritative && not w.manager_authoritative
    then raise manager_conflict
    else if text_eq p.compiled_truth w.compiled_truth
    then touch_page now w
    else rewrite_page new_id prior_id now w p

-- The writes of an upsert. An exception leaves the session without a commit.
unfoldable pub upsert_write : (new_id prior_id now : ℕ) → PageWrite → Exec Brain Unit
unfolding upsert_existing insert_page get_page
upsert_write new_id prior_id now w = transact (do
  existing ← get_page w.slug
  elim existing [
    | none ↦ insert_page new_id now w
    | some p ↦ upsert_existing new_id prior_id now w p
  ])

unfoldable pub upsert_page : (new_id prior_id now : ℕ) → PageWrite → Exec Brain BrainPage
unfolding fresh_page
upsert_page new_id prior_id now w = do upsert_write new_id prior_id now w; fresh_page w.slug

unfoldable pub append_timeline : (now : ℕ) → Text → TimelineEntry → Exec Brain BrainPage
unfolding get_page
append_timeline now slug entry = do
  existing ← get_page slug
  page ← or_raise existing key_error
  modify (λ b. record b {
    pages =
        update_page slug
          (λ p. record p { timeline = page.timeline ++ (entry ∷ []); updated_at = now }) b.pages;
  })
  fresh_page slug

unfoldable pub soft_delete_page : (now : ℕ) → Text → Exec Brain Unit
soft_delete_page now slug =
    modify
      (λ b. record b { pages = update_page slug (λ p. record p { deleted_at = some now }) b.pages })

unfoldable pub update_tags : (now : ℕ) → Text → List Text → Exec Brain Unit
update_tags now slug tags = modify (λ b. record b {
  pages = update_page slug (λ p. record p { tags = tags; updated_at = now }) b.pages;
})
