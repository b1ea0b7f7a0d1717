-- ===== src/Orchestrator/Waiting.antt =====
-- What a session waits for after a turn.
use vof_backend.Db.{AppDb}
use vof_backend.Decision.Repo.{get_decision}
use vof_backend.Errors.{Error, Result, ok, err}
use vof_backend.Exec.{Exec}
use vof_backend.Orchestrator.Pending.{HasDecision, Names, Keeps}
use vof_backend.Orchestrator.Substream.{
  ToolResult, Substream, say, stop, snag_text, tool_done, text_substream,
}
use vof_backend.Orchestrator.ToolDispatch.{
  done, ToolCall, ScanEvent, tool_call, malformed, unterminated,
}
use vof_backend.Orchestrator.Turn.{is_resolved, still_pending, has_id, add_pending}
use vof_backend.Prelude.{
  All, All-append, All-weaken, ◌==◌, if◌then◌else◌, Bool-cases, Option-cases, get_or_else, ℕ, ◌≡◌,
  refl, subst, ◌⊎◌, inl, inr, true, ◌||◌, Option, none, some, List, [], ◌∷◌, ◌++◌, arith,
}
use vof_backend.Text.{Text, is_empty}

abbrev pub NamedIn : AppDb → Option ℕ → Type 0
NamedIn db none = Unit
NamedIn db (some i) = HasDecision db i

abbrev pub PendingIn : List ℕ → Option ℕ → Type 0
PendingIn waiting none = Unit
PendingIn waiting (some i) = has_id i waiting ≡ true

has_id-append : (i j : ℕ) (is : List ℕ) → has_id i (is ++ (j ∷ [])) ≡ (has_id i is || j == i)
unfolding has_id
has_id-append i j [] = ground arith
has_id-append i j (k ∷ is) = ground (arith, has_id-append i j is)

add_pending-old :
    (rs : List (Option ℕ)) (waiting : List ℕ) (i : ℕ)
    → has_id i waiting ≡ true
    → has_id i (add_pending rs waiting) ≡ true
unfolding add_pending
add_pending-old [] waiting i h = h
add_pending-old (none ∷ rs) waiting i h = add_pending-old rs waiting i h
add_pending-old (some j ∷ rs) waiting i h =
    add_pending-old rs (if has_id j waiting then waiting else waiting ++ (j ∷ [])) i
      (ground (arith, has_id-append i j waiting))

-- Every decision that was opened is waited for.
pub add_pending-PendingIn :
    (rs : List (Option ℕ)) (waiting : List ℕ) → All (PendingIn (add_pending rs waiting)) rs
unfolding add_pending
add_pending-PendingIn [] waiting = tt
add_pending-PendingIn (none ∷ rs) waiting = (tt, add_pending-PendingIn rs waiting)
add_pending-PendingIn (some j ∷ rs) waiting =
    let added = if has_id j waiting then waiting else waiting ++ (j ∷ []) in
    (
      add_pending-old rs added j (ground (arith, has_id-append j j waiting)),
      add_pending-PendingIn rs added,
    )

-- The decisions are rows where those before and the new ones are.
pub add_pending-HasDecision :
    (db : AppDb) (rs : List (Option ℕ)) (waiting : List ℕ)
    → All (NamedIn db) rs
    → All (HasDecision db) waiting
    → All (HasDecision db) (add_pending rs waiting)
unfolding add_pending
add_pending-HasDecision db [] waiting n h = h
add_pending-HasDecision db (none ∷ rs) waiting n h = add_pending-HasDecision db rs waiting n.1 h
add_pending-HasDecision db (some j ∷ rs) waiting n h = elim (Bool-cases (has_id j waiting)) [
  | inl e ↦ rw e (add_pending-HasDecision db rs waiting n.1 h)
  | inr e ↦ rw e (
      add_pending-HasDecision db rs (waiting ++ (j ∷ [])) n.1
        (All-append (HasDecision db) waiting (j ∷ []) h (n.0, tt)))
]

pub still_pending-HasDecision :
    (db : AppDb) (is : List ℕ) → All (HasDecision db) (still_pending db is)
unfolding still_pending
still_pending-HasDecision db [] = tt
still_pending-HasDecision db (i ∷ is) = elim (Option-cases (get_decision i db)) [
  | inl h ↦ rw (still_pending, h) (still_pending-HasDecision db is)
  | inr (d, h) ↦ elim (Bool-cases (is_resolved d.status)) [
    | inl e ↦ rw (still_pending, h, e) (still_pending-HasDecision db is)
    | inr e ↦ rw (still_pending, h, e) (rw h refl, still_pending-HasDecision db is)
  ]
]

NamedIn-later :
    (db db' : AppDb)
    → ((i : ℕ) → HasDecision db i → HasDecision db' i)
    → (o : Option ℕ) → NamedIn db o
    → NamedIn db' o
NamedIn-later db db' later none h = tt
NamedIn-later db db' later (some i) h = later i h

-- A result among `rs` names the decision.
abbrev pub OpenedIn : List (Option ℕ) → ℕ → Type 0
OpenedIn [] i = ⊥
OpenedIn (o ∷ rs) i = (o ≡ some i) ⊎ OpenedIn rs i

OpenedIn-before :
    (rs : List (Option ℕ)) (o : Option ℕ) (i : ℕ) → OpenedIn rs i → OpenedIn (rs ++ (o ∷ [])) i
OpenedIn-before [] o i h = elim h [ ]
OpenedIn-before (r ∷ rs) o i (inl e) = inl e
OpenedIn-before (r ∷ rs) o i (inr h) = inr (OpenedIn-before rs o i h)

OpenedIn-last :
    (rs : List (Option ℕ)) (o : Option ℕ) (i : ℕ) → o ≡ some i → OpenedIn (rs ++ (o ∷ [])) i
OpenedIn-last [] o i e = inl e
OpenedIn-last (r ∷ rs) o i e = inr (OpenedIn-last rs o i e)

pub OpenedIn-PendingIn :
    (waiting : List ℕ) (rs : List (Option ℕ)) (i : ℕ)
    → All (PendingIn waiting) rs
    → OpenedIn rs i
    → has_id i waiting ≡ true
OpenedIn-PendingIn waiting [] i h o = elim o [ ]
OpenedIn-PendingIn waiting (r ∷ rs) i h (inl e) = subst (PendingIn waiting) e h.0
OpenedIn-PendingIn waiting (r ∷ rs) i h (inr o) = OpenedIn-PendingIn waiting rs i h.1 o

-- The results so far name rows, the rows from before are still there, and every other row is named.
pub record Answered (before : AppDb) (s : Substream) : Type 0 where
  pub old : (i : ℕ) → HasDecision before i → HasDecision s.db i
  pub named : All (NamedIn s.db) s.tool_results
  pub fresh : (i : ℕ) → HasDecision s.db i → HasDecision before i ⊎ OpenedIn s.tool_results i

module _ {Args : Type 0} (dispatch : ToolCall Args → Exec AppDb ToolResult)
    (error_name : Error → Text)
    (keeps : (t : ToolCall Args) (db : AppDb) → Keeps db (dispatch t db)) (before : AppDb) where
  stop-Answered : (s : Substream) → Answered before s → Answered before (stop s)
  stop-Answered s a = record { old = a.old; named = a.named; fresh = a.fresh }

  say-Answered : (s : Substream) (t : Text) → Answered before s → Answered before (say t s)
  say-Answered s t a = record { old = a.old; named = a.named; fresh = a.fresh }

  tool_done-Answered :
      (s : Substream) (t : ToolCall Args) (r : ToolResult)
      → Answered before s
      → (dispatch t s.db).0 ≡ ok r
      → Answered before (tool_done r (dispatch t s.db).1 s)
  unfolding tool_done
  tool_done-Answered s t r a e = elim (Bool-cases (is_empty (get_or_else r.bridge_text []))) [
    | inl h ↦ rw (tool_done, h) after_Answered
    | inr h ↦ rw (tool_done, h) (say-Answered kept (get_or_else r.bridge_text []) after_Answered)
  ]
    where
      after : AppDb
      after = (dispatch t s.db).1

      kept : Substream
      kept = record s {
        tool_results = s.tool_results ++ (r.decision_id ∷ []);
        hangup_pending = s.hangup_pending || r.hangup;
        db = after;
      }

      result_named : (o : Option ℕ) → r.decision_id ≡ o → NamedIn after o
      result_named none k = tt
      result_named (some i) k = (keeps t s.db).named r i e k

      result_fresh : (i : ℕ) → Names (dispatch t s.db).0 i → OpenedIn kept.tool_results i
      result_fresh i (x, k, n) =
          OpenedIn-last s.tool_results r.decision_id i (ground (arith, e, k, n))

      after_fresh :
          (i : ℕ)
          → HasDecision s.db i ⊎ Names (dispatch t s.db).0 i
          → HasDecision before i ⊎ OpenedIn kept.tool_results i
      after_fresh i (inl h) = elim (a.fresh i h) [
        | inl old ↦ inl old
        | inr o ↦ inr (OpenedIn-before s.tool_results r.decision_id i o)
      ]
      after_fresh i (inr n) = inr (result_fresh i n)

      after_Answered : Answered before kept
      after_Answered = record {
        old = λ i h. (keeps t s.db).old i (a.old i h);
        named =
            All-append (NamedIn after) s.tool_results (r.decision_id ∷ [])
              (All-weaken (NamedIn s.db) (NamedIn after) s.tool_results
                (NamedIn-later s.db after (keeps t s.db).old) a.named)
              (result_named r.decision_id refl, tt);
        fresh = λ i h. after_fresh i ((keeps t s.db).fresh i h);
      }

  err-Answered :
      (s : Substream) (t : ToolCall Args) (x : Error)
      → Answered before s
      → (dispatch t s.db).0 ≡ err x
      → Answered before (record s { db = (dispatch t s.db).1 })
  err-Answered s t x a e = record {
    old = λ i h. (keeps t s.db).old i (a.old i h);
    named =
        All-weaken (NamedIn s.db) (NamedIn (dispatch t s.db).1) s.tool_results
          (NamedIn-later s.db (dispatch t s.db).1 (keeps t s.db).old) a.named;
    fresh = λ i h. elim ((keeps t s.db).fresh i h) [
      | inl old ↦ a.fresh i old
      | inr (r, k, n) ↦ absurd (ground (arith, e, k))
    ];
  }

  pub text_substream-Answered :
      (es : List (ScanEvent Args)) (s : Substream)
      → Answered before s
      → Answered before (text_substream dispatch error_name es s)
  unfolding text_substream
  text_substream-Answered [] s a = a
  text_substream-Answered (ScanEvent.text t ∷ es) s a =
      text_substream-Answered es (say t s) (say-Answered s t a)
  text_substream-Answered (tool_call t ∷ es) s a =
      by_result (λ x k. text_substream-Answered es x k) (dispatch t s.db).0 refl
    where
      by_result :
          ((x : Substream)
            → Answered before x
            → Answered before (text_substream dispatch error_name es x))
          → (r : Result ToolResult) → (dispatch t s.db).0 ≡ r
          → Answered before (text_substream dispatch error_name (tool_call t ∷ es) s)
      by_result later (err x) e =
          let failed : Substream = record s { db = (dispatch t s.db).1 } in
          let words = snag_text (error_name x) in
          rw (text_substream, e)
            (stop-Answered (say words failed) (say-Answered failed words (err-Answered s t x a e)))
      by_result later (ok r) e = elim (Bool-cases r.end_turn) [
        | inl h ↦
            rw (text_substream, e, h)
              (stop-Answered (tool_done r (dispatch t s.db).1 s) (tool_done-Answered s t r a e))
        | inr h ↦
            rw (text_substream, e, h)
              (later (tool_done r (dispatch t s.db).1 s) (tool_done-Answered s t r a e))
      ]
  text_substream-Answered (malformed t ∷ es) s a = text_substream-Answered es s a
  text_substream-Answered (unterminated t ∷ es) s a = text_substream-Answered es s a
  text_substream-Answered (done ∷ es) s a = stop-Answered s a
