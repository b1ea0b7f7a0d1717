-- ===== src/Decision/Rows.antt =====
-- How a step may change a row of the decisions table.
use vof_backend.Db.Models.{
  DecisionStatus, open_status, answered, answered_late, timed_out, cancelled, DecisionRequest,
}
use vof_backend.Decision.Repo.{key}
use vof_backend.Prelude.{
  find_row, save_row, find_row-key, find_row-save_row, find_row-append, ◌==◌, Bool-cases, ℕ, ◌≡◌,
  refl, subst, inl, inr, Bool, true, false, some, List, [], ◌∷◌, ◌++◌, arith,
}

-- The edges of a decision's life, and staying.
unfoldable pub may_move : DecisionStatus → DecisionStatus → Bool
may_move open_status open_status = true
may_move open_status answered = true
may_move open_status timed_out = true
may_move timed_out timed_out = true
may_move timed_out answered_late = true
may_move answered answered = true
may_move answered_late answered_late = true
may_move cancelled cancelled = true
may_move _ _ = false

-- An answered row, in time or late.
abbrev pub is_settled : DecisionStatus → Bool
is_settled answered = true
is_settled answered_late = true
is_settled _ = false

-- The question and the one who is asked stay, the status follows an edge, and an answer is final.
pub record RowStep (d e : DecisionRequest) : Type 0 where
  pub same_id : e.id ≡ d.id
  pub same_target : e.target_user_id ≡ d.target_user_id
  pub same_options : e.options ≡ d.options
  pub same_timeout : e.timeout_at ≡ d.timeout_at
  pub same_surfaced : e.surfaced_in_brief_at ≡ d.surfaced_in_brief_at
  pub edge : may_move d.status e.status ≡ true
  pub final_answer : is_settled d.status ≡ true → e ≡ d

may_move_refl : (s : DecisionStatus) → may_move s s ≡ true
unfolding may_move
may_move_refl open_status = refl
may_move_refl answered = refl
may_move_refl answered_late = refl
may_move_refl timed_out = refl
may_move_refl cancelled = refl

RowStep-refl : (d : DecisionRequest) → RowStep d d
RowStep-refl d = record {
  same_id = refl;
  same_target = refl;
  same_options = refl;
  same_timeout = refl;
  same_surfaced = refl;
  edge = may_move_refl d.status;
  final_answer = λ h. refl;
}

-- What becomes of the row that an id finds.
pub record Successor (es : List DecisionRequest) (i : ℕ) (d : DecisionRequest) : Type 0 where
  pub row : DecisionRequest
  pub found : find_row key i es ≡ some row
  pub step : RowStep d row

abbrev pub Evolves : List DecisionRequest → List DecisionRequest → Type 0
Evolves ds es = (i : ℕ) (d : DecisionRequest) → find_row key i ds ≡ some d → Successor es i d

pub Evolves-refl : (ds : List DecisionRequest) → Evolves ds ds
Evolves-refl ds i d h = record { row = d; found = h; step = RowStep-refl d }

pub Evolves-append : (ds : List DecisionRequest) (e : DecisionRequest) → Evolves ds (ds ++ (e ∷ []))
Evolves-append ds e i d h = record {
  row = d;
  found = ground (arith, find_row-append key i ds e);
  step = RowStep-refl d;
}

pub Evolves-save :
    (ds : List DecisionRequest) (i : ℕ) (d e : DecisionRequest)
    → find_row key i ds ≡ some d
    → RowStep d e
    → Evolves ds (save_row key e ds)
Evolves-save ds i d e h st j x hx = elim (Bool-cases (e.id == j)) [
  | inl same ↦ record {
    row = e;
    found = ground (arith, find_row-save_row key j e ds);
    step =
        (let q : d ≡ x = ground (arith, find_row-key key i ds d h, st.same_id) in
          subst (λ y. RowStep y e) q st);
  }
  | inr other ↦ record {
    row = x;
    found = ground (arith, find_row-save_row key j e ds);
    step = RowStep-refl x;
  }
]
