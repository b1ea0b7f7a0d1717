-- ===== src/Decision/Briefed.antt =====
-- A missed decision is in one brief.
use vof_backend.Db.{AppDb}
use vof_backend.Db.Models.{DecisionRequest}
use vof_backend.Decision.Brief.{
  is_missed, responded, missed_decisions, member, surface_row, mark_decisions_surfaced,
  run_dashboard_rollup,
}
use vof_backend.Decision.Lifecycle.{Reach, here, next, Step-Evolves}
use vof_backend.Decision.Repo.{key}
use vof_backend.Decision.Rows.{Evolves}
use vof_backend.Errors.{Error, ok}
use vof_backend.Prelude.{
  Distinct, select, find_row, insert_desc, order_desc, ◌==◌, Bool-cases, is_some, ℕ, ◌≡◌, refl, sym,
  ap, ◌∙◌, subst, inl, inr, Bool, true, false, ◌&&◌, ◌||◌, Option, none, some, List, [], ◌∷◌, map,
  arith,
}
use vof_backend.Text.{CaseMap}

abbrev ids : List DecisionRequest → List ℕ
ids ds = map key ds

member-insert :
    (f : DecisionRequest → ℕ) (x : ℕ) (a : DecisionRequest) (ds : List DecisionRequest)
    → member x (ids (insert_desc f a ds)) ≡ (x == key a || member x (ids ds))
unfolding member insert_desc
member-insert f x a [] = refl
member-insert f x a (d ∷ ds) = ground (arith, member-insert f x a ds)

member-order :
    (f : DecisionRequest → ℕ) (x : ℕ) (ds : List DecisionRequest)
    → member x (ids (order_desc f ds)) ≡ member x (ids ds)
unfolding member order_desc
member-order f x [] = refl
member-order f x (d ∷ ds) =
    ground (arith, member-order f x ds, member-insert f x d (order_desc f ds))

-- The row that an id finds, stamped
record Stamped (i : ℕ) (ds : List DecisionRequest) : Type 0 where
  row : DecisionRequest
  found : find_row key i ds ≡ some row
  stamped : is_some row.surfaced_in_brief_at ≡ true

surface_row-stamped :
    (shown : List ℕ) (at : ℕ) (d : DecisionRequest)
    → member d.id shown ≡ true
    → is_some (surface_row shown at d).surfaced_in_brief_at ≡ true
unfolding surface_row
surface_row-stamped shown at d h = ground arith

surface_row-id :
    (shown : List ℕ) (at : ℕ) (d : DecisionRequest) → (surface_row shown at d).id ≡ d.id
unfolding surface_row
surface_row-id shown at d = ground arith

surface_row-Stamped :
    (p : DecisionRequest → Bool) (i at : ℕ) (shown : List ℕ) (ds : List DecisionRequest)
    → member i shown ≡ true
    → member i (ids (select p ds)) ≡ true
    → Stamped i (map (surface_row shown at) ds)
unfolding find_row
surface_row-Stamped p i at shown [] m h = absurd (unfold member in cc)
surface_row-Stamped p i at shown (d ∷ ds) m h = elim (Bool-cases (d.id == i)) [
  | inl e ↦ record {
    row = surface_row shown at d;
    found = ground (arith, e, surface_row-id shown at d);
    stamped = surface_row-stamped shown at d (ground (arith, m, e));
  }
  | inr e ↦
      let later = surface_row-Stamped p i at shown ds m (unfold member in ground (arith, h, e)) in
      record {
        row = later.row;
        found = ground (arith, e, surface_row-id shown at d, later.found);
        stamped = later.stamped;
      }
]

Stamped-Evolves :
    (i : ℕ) (ds es : List DecisionRequest) → Evolves ds es → Stamped i ds → Stamped i es
Stamped-Evolves i ds es e s =
    let n = e i s.row s.found in
    record { row = n.row; found = n.found; stamped = ap is_some n.step.same_surfaced ∙ s.stamped }

Stamped-Reach :
    (c : CaseMap) (db db' : AppDb) (i : ℕ)
    → Reach c db db'
    → Stamped i db.decisions
    → Stamped i db'.decisions
Stamped-Reach c db db' i here s = s
Stamped-Reach c db db' i (next {db' = db1} r st) s =
    Stamped-Evolves i db1.decisions db'.decisions (Step-Evolves st) (Stamped-Reach c db db1 i r s)

-- Whether the row that an id finds is timed out, of the workspace, and was in no brief.
abbrev pub is_missed_in : (workspace_id i : ℕ) → AppDb → Bool
is_missed_in workspace_id i db = elim (find_row key i db.decisions) [
  | none ↦ false
  | some d ↦ is_missed workspace_id d
]

member-none :
    (p : DecisionRequest → Bool) (i : ℕ) (ds : List DecisionRequest)
    → find_row key i ds ≡ none
    → member i (ids (select p ds)) ≡ false
unfolding member find_row
member-none p i [] h = refl
member-none p i (d ∷ ds) h = ground (arith, h, member-none p i ds)

-- An id is among the rows with `p` when the row that it finds has it.
member-select :
    (p : DecisionRequest → Bool) (i : ℕ) (ds : List DecisionRequest)
    → Distinct key ds
    → member i (ids (select p ds)) ≡ elim (find_row key i ds) [ none ↦ false | some d ↦ p d ]
unfolding member find_row
member-select p i [] n = refl
member-select p i (d ∷ ds) n = elim (Bool-cases (d.id == i)) [
  | inl e ↦ ground (arith, e, n.0, member-none p d.id ds n.0, member-none p i ds)
  | inr e ↦ ground (arith, e, member-select p i ds n.1)
]

module _ (problem : Option Error) (w now : ℕ) (db : AppDb) (shown : List DecisionRequest)
    (h : (run_dashboard_rollup problem w now db).0 ≡ ok shown) where
  shown-missed : shown ≡ missed_decisions w db
  unfolding run_dashboard_rollup
  shown-missed = ground (arith, h)

  shown-surfaced :
      (run_dashboard_rollup problem w now db).1
      ≡ mark_decisions_surfaced (ids (missed_decisions w db)) now db
  unfolding run_dashboard_rollup
  shown-surfaced = ground (arith, h)

  shown-member : (i : ℕ) → member i (ids shown) ≡ member i (ids (select (is_missed w) db.decisions))
  unfolding missed_decisions
  shown-member i =
      ap (λ ds. member i (ids ds)) shown-missed
      ∙ member-order responded i (select (is_missed w) db.decisions)

  shown-Stamped :
      (i : ℕ)
      → member i (ids shown) ≡ true
      → Stamped i (run_dashboard_rollup problem w now db).1.decisions
  unfolding mark_decisions_surfaced
  shown-Stamped i m =
      subst (λ x. Stamped i x.decisions) (sym shown-surfaced)
        (surface_row-Stamped (is_missed w) i now (ids (missed_decisions w db)) db.decisions
          (ap (λ ds. member i (ids ds)) (sym shown-missed) ∙ m) (sym (shown-member i) ∙ m))

-- A brief of a workspace shows exactly the decisions that are timed out, of the workspace, and were in no
-- brief before. After any responses, messages, timeouts, late resolutions and new decisions, a second
-- brief, of the same or another workspace, shows none of those that the first has shown: each is in one
-- brief. Both runs reach their commit, and an id is the key of one row.
pub run_dashboard_rollup-once :
    (c : CaseMap) (problem problem' : Option Error) (w w' now now' i : ℕ) (db db' : AppDb)
    (shown shown' : List DecisionRequest)
    → Distinct key db.decisions
    → Distinct key db'.decisions
    → (run_dashboard_rollup problem w now db).0 ≡ ok shown
    → Reach c (run_dashboard_rollup problem w now db).1 db'
    → (run_dashboard_rollup problem' w' now' db').0 ≡ ok shown'
    → (member i (ids shown) ≡ is_missed_in w i db)
      × ((member i (ids shown) && member i (ids shown')) ≡ false)
run_dashboard_rollup-once c problem problem' w w' now now' i db db' shown shown' n n' h r h' = (
  shown-member problem w now db shown h i ∙ member-select (is_missed w) i db.decisions n,
  elim (Bool-cases (member i (ids shown))) [
    | inl m ↦
        let s = Stamped-Reach c _ db' i r (shown-Stamped problem w now db shown h i m) in
        let again : member i (ids shown') ≡ false =
          shown-member problem' w' now' db' shown' h' i
          ∙ member-select (is_missed w') i db'.decisions n'
          ∙ rw s.found (ground (arith, s.stamped)) in
        rw (m, again) refl
    | inr m ↦ rw m refl
  ],
)
