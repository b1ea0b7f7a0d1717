-- ===== src/Brain/Tags.antt =====
-- The tags that verdicts give a page.
use vof_backend.Brain.Slug.{web_corroborated, unverified_web, contradicts_web_source, verdict_tag}
use vof_backend.Brain.Store.{BrainPage}
use vof_backend.Brain.Updater.{UpdateRun, fresh_tag, status_tag, new_tag}
use vof_backend.Prelude.{Bool-cases, ◌≡◌, ap, ◌∙◌, inl, inr, false, Option, none, some, List, arith}
use vof_backend.Text.{Text, contains, CaseMap}

verdict_tag-unverified :
    (s : Text) (tags : List Text)
    → verdict_tag s tags ≡ some unverified_web
    → (contains web_corroborated tags ≡ false) × (contains contradicts_web_source tags ≡ false)
unfolding verdict_tag
verdict_tag-unverified s tags h = ground arith

fresh_tag-cases :
    (tags : List Text) (x : Option Text) (t : Text)
    → fresh_tag tags x ≡ some t
    → (x ≡ some t) × (contains t tags ≡ false)
unfolding fresh_tag
fresh_tag-cases tags none t h = absurd (cc)
fresh_tag-cases tags (some y) t h = elim (Bool-cases (contains y tags)) [
  | inl e ↦ absurd (ground arith)
  | inr e ↦ (ground arith, ground arith)
]

status_tag-cases :
    (tags : List Text) (x : Option Text) (t : Text)
    → status_tag tags x ≡ some t
    → (contains t tags ≡ false)
      × (t ≡ unverified_web
          → (contains web_corroborated tags ≡ false)
            × (contains contradicts_web_source tags ≡ false))
unfolding status_tag
status_tag-cases tags none t h = absurd (cc)
status_tag-cases tags (some s) t h =
    let (v, f) = fresh_tag-cases tags (verdict_tag s tags) t h in
    (f, λ e. verdict_tag-unverified s tags (v ∙ ap some e))

-- A tag that a run gives a page is new to it, and the page is called unverified only where it carries
-- neither of the other two tags of the verifier.
pub new_tag-fresh :
    (c : CaseMap) (u : UpdateRun) (index : List (Text × Text)) (slug t : Text) (p : BrainPage)
    → new_tag c u index slug p ≡ some t
    → (contains t p.tags ≡ false)
      × (t ≡ unverified_web
          → (contains web_corroborated p.tags ≡ false)
            × (contains contradicts_web_source p.tags ≡ false))
unfolding new_tag
new_tag-fresh c u index slug t p h = status_tag-cases p.tags _ t h
