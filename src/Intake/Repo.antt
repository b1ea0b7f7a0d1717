-- ===== src/Intake/Repo.antt =====
-- app/db/repositories/intake_repo.py. A row that is not there is the `RuntimeError` of the writes.
use vof_backend.Errors.{runtime_error, Result, ok, err}
use vof_backend.Exec.{Exec}
use vof_backend.Intake.Models.{
  HandlerResult, IntakeSource, IntakePurpose, IntakeStatus, queued, superseded, deleted,
  ItemClassification, IntakeBufferItem, is_purpose, is_deleted,
}
use vof_backend.Prelude.{
  take, drop, select, find_row, save_row, order_desc, ◌==◌, or_else, get_or_else, ℕ, Bool, true,
  false, not, ◌&&◌, Option, none, some, List, [], ◌∷◌,
}
use vof_backend.Text.{Text, text_eq}

abbrev pub item_key : IntakeBufferItem → ℕ
item_key i = i.id

abbrev is_text : Option Text → Text → Bool
is_text none t = false
is_text (some s) t = text_eq s t

-- The rows of `find_by_sha`.
abbrev pub has_sha : ℕ → Text → IntakeBufferItem → Bool
has_sha workspace_id sha i =
    i.workspace_id == workspace_id && (is_text i.content_sha256 sha && not (is_deleted i.status))

-- `scalar_one_or_none`, which raises for two rows
abbrev pub one_or_none {ℓ} : {A : Type ℓ} → List A → Result (Option A)
one_or_none [] = ok none
one_or_none (x ∷ []) = ok (some x)
one_or_none (x ∷ (y ∷ ys)) = err runtime_error

unfoldable pub find_by_sha :
    (workspace_id : ℕ) → Text → List IntakeBufferItem → Result (Option IntakeBufferItem)
find_by_sha workspace_id sha items = one_or_none (select (has_sha workspace_id sha) items)

-- The arguments of `create`, with the fresh id and the clock.
pub record NewItem : Type 0 where
  pub id : ℕ
  pub workspace_id : ℕ
  pub organization_id : ℕ
  pub submitted_by_user_id : ℕ
  pub source : IntakeSource
  pub purpose : IntakePurpose
  pub content_text : Option Text
  pub content_blob_key : Option Text
  pub content_mime : Option Text
  pub content_filename : Option Text
  pub content_sha256 : Option Text
  pub created_at : ℕ

unfoldable pub new_intake_item : NewItem → IntakeBufferItem
new_intake_item n = record {
  id = n.id;
  workspace_id = n.workspace_id;
  organization_id = n.organization_id;
  submitted_by_user_id = n.submitted_by_user_id;
  source = n.source;
  purpose = n.purpose;
  content_text = n.content_text;
  content_blob_key = n.content_blob_key;
  content_mime = n.content_mime;
  content_filename = n.content_filename;
  content_sha256 = n.content_sha256;
  extractor_used = none;
  status = queued;
  classification = none;
  handler_result = none;
  superseded_by_item_id = none;
  error = none;
  created_at = n.created_at;
}

unfoldable pub get_item : ℕ → List IntakeBufferItem → Option IntakeBufferItem
get_item item_id items = find_row item_key item_id items

abbrev created_value : IntakeBufferItem → ℕ
created_value i = i.created_at

-- The status filter is not used by any caller and is left out.
unfoldable pub list_for_workspace :
    (workspace_id : ℕ)
    → Option IntakePurpose
    → (limit offset : ℕ) → List IntakeBufferItem
    → List IntakeBufferItem
list_for_workspace workspace_id purpose limit offset items = take limit (
    drop offset (
      order_desc created_value (
        select
          (λ i.
            i.workspace_id == workspace_id
            && elim purpose [ none ↦ true | some p ↦ is_purpose i.purpose p ])
          items)))

-- The columns that `update_status` sets where they are given.
pub record ItemUpdate : Type 0 where
  pub status : Option IntakeStatus
  pub extractor_used : Option Text
  pub classification : Option ItemClassification
  pub handler_result : Option HandlerResult
  pub error : Option Text

abbrev pub no_update : ItemUpdate
no_update = record {
  status = none;
  extractor_used = none;
  classification = none;
  handler_result = none;
  error = none;
}

unfoldable pub updated : ItemUpdate → IntakeBufferItem → IntakeBufferItem
updated u i = record i {
  status = get_or_else u.status i.status;
  extractor_used = or_else u.extractor_used i.extractor_used;
  classification = or_else u.classification i.classification;
  handler_result = or_else u.handler_result i.handler_result;
  error = or_else u.error i.error;
}

-- A write of a row that is read first.
unfoldable pub change_item :
    (IntakeBufferItem → IntakeBufferItem) → ℕ → Exec (List IntakeBufferItem) Unit
unfolding get_item
change_item f item_id items = elim (get_item item_id items) [
  | none ↦ (err runtime_error, items)
  | some i ↦ (ok tt, save_row item_key (f i) items)
]

unfoldable pub update_status : ℕ → ItemUpdate → Exec (List IntakeBufferItem) Unit
unfolding change_item updated
update_status item_id u = change_item (updated u) item_id

unfoldable pub mark_superseded : (item_id by_item_id : ℕ) → Exec (List IntakeBufferItem) Unit
unfolding change_item
mark_superseded item_id by_item_id =
    change_item (λ i. record i { status = superseded; superseded_by_item_id = some by_item_id })
      item_id

unfoldable pub soft_delete : ℕ → Exec (List IntakeBufferItem) Unit
unfolding change_item
soft_delete item_id =
    change_item (λ i. record i { status = deleted; content_blob_key = none }) item_id
