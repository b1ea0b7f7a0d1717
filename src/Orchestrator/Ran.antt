-- ===== src/Orchestrator/Ran.antt =====
-- What a turn speaks and which of its tools run, told from the events of its answer on.
use mathlib.Core.List.{append_assoc, append-nil}
use vof_backend.Db.{AppDb}
use vof_backend.Errors.{Error, Result, ok, err}
use vof_backend.Exec.{Exec}
use vof_backend.Orchestrator.Substream.{
  ToolResult, Substream, say, stop, snag_text, tool_done, text_substream,
}
use vof_backend.Orchestrator.ToolDispatch.{
  done, ToolCall, ScanEvent, tool_call, malformed, unterminated,
}
use vof_backend.Prelude.{
  if◌then◌else◌, Bool-cases, get_or_else, ℕ, ◌≡◌, refl, ap, ◌∙◌, inl, inr, Bool, true, false, ◌||◌,
  Option, List, [], ◌∷◌, ◌++◌, map, arith,
}
use vof_backend.Text.{Text, is_empty}

-- The words, the results of the tools that ran, whether the answer has ended, and the database.
pub record Ran : Type 0 where
  pub words : List Text
  pub results : List ToolResult
  pub ended : Bool
  pub db : AppDb

abbrev pub bridge_words : ToolResult → List Text
bridge_words r =
    if is_empty (get_or_else r.bridge_text []) then [] else get_or_else r.bridge_text [] ∷ []

abbrev pub asks_hangup : List ToolResult → Bool
asks_hangup [] = false
asks_hangup (r ∷ rs) = r.hangup || asks_hangup rs

abbrev pub decision_of : ToolResult → Option ℕ
decision_of r = r.decision_id

module _ {Args : Type 0} (dispatch : ToolCall Args → Exec AppDb ToolResult)
    (error_name : Error → Text) where
  -- A tool that raises is told of, and it or one that ends the turn is the last.
  unfoldable pub ran : List (ScanEvent Args) → AppDb → Ran
  ran [] db = record { words = []; results = []; ended = false; db = db }
  ran (ScanEvent.text t ∷ es) db = let r = ran es db in record r { words = t ∷ r.words }
  ran (tool_call c ∷ es) db = elim (dispatch c db).0 [
    | err e ↦ record {
      words = snag_text (error_name e) ∷ [];
      results = [];
      ended = true;
      db = (dispatch c db).1;
    }
    | ok x ↦ elim x.end_turn [
      | true ↦ record {
        words = bridge_words x;
        results = x ∷ [];
        ended = true;
        db = (dispatch c db).1;
      }
      | false ↦
          let r = ran es (dispatch c db).1 in
          record r { words = bridge_words x ++ r.words; results = x ∷ r.results }
    ]
  ]
  ran (malformed t ∷ es) db = ran es db
  ran (unterminated t ∷ es) db = ran es db
  ran (done ∷ es) db = record { words = []; results = []; ended = true; db = db }

-- A substream that goes on from `s` by what ran.
abbrev pub gone_on : Substream → Ran → Substream
gone_on s r = record {
  spoken_parts = s.spoken_parts ++ r.words;
  tool_results = s.tool_results ++ map decision_of r.results;
  hangup_pending = s.hangup_pending || asks_hangup r.results;
  stopped = s.stopped || r.ended;
  db = r.db;
}

or_assoc : (a b c : Bool) → (a || (b || c)) ≡ ((a || b) || c)
or_assoc a b c = ground arith

or_true : (a : Bool) → true ≡ (a || true)
or_true a = ground arith

or_false : (a : Bool) → a ≡ (a || false)
or_false a = ground arith

tool_done-gone_on :
    (x : ToolResult) (db : AppDb) (s : Substream)
    → tool_done x db s
      ≡ gone_on s (record { words = bridge_words x; results = x ∷ []; ended = false; db = db })
unfolding tool_done
tool_done-gone_on x db s = elim (Bool-cases (is_empty (get_or_else x.bridge_text []))) [
  | inl e ↦ rw (e, append-nil, ← or_false s.stopped, ← or_false x.hangup) refl
  | inr e ↦ rw (e, ← or_false s.stopped, ← or_false x.hangup) refl
]

gone_on-nothing :
    (s : Substream) (b : Bool)
    → record s { stopped = s.stopped || b }
      ≡ gone_on s (record { words = []; results = []; ended = b; db = s.db })
gone_on-nothing s b =
    rw (append-nil s.spoken_parts, append-nil s.tool_results, ← or_false s.hangup_pending) refl

stop_or : (s : Substream) → stop s ≡ record s { stopped = s.stopped || true }
stop_or s = rw (← or_true s.stopped) refl

gone_on-word :
    (t : Text) (s : Substream) (r : Ran)
    → gone_on (say t s) r ≡ gone_on s (record r { words = t ∷ r.words })
gone_on-word t s r = rw (append_assoc s.spoken_parts (t ∷ []) r.words) refl

gone_on-result :
    (x : ToolResult) (db : AppDb) (s : Substream) (r : Ran)
    → gone_on
        (gone_on s (record { words = bridge_words x; results = x ∷ []; ended = false; db = db }))
        r
      ≡ gone_on s (record r { words = bridge_words x ++ r.words; results = x ∷ r.results })
gone_on-result x db s r =
    rw
      (
        append_assoc s.spoken_parts (bridge_words x) r.words,
        append_assoc s.tool_results (x.decision_id ∷ []) (map decision_of r.results),
        ← or_false x.hangup,
        ← or_assoc s.hangup_pending x.hangup (asks_hangup r.results),
        ← or_false s.stopped,
      )
      refl

module _ {Args : Type 0} (dispatch : ToolCall Args → Exec AppDb ToolResult)
    (error_name : Error → Text) where
  -- The loop with its accumulators is the reference.
  pub text_substream-ran :
      (es : List (ScanEvent Args)) (s : Substream)
      → text_substream dispatch error_name es s ≡ gone_on s (ran dispatch error_name es s.db)
  unfolding text_substream ran
  text_substream-ran [] s =
      ap (λ (b : Bool). record s { stopped = b }) (or_false s.stopped) ∙ gone_on-nothing s false
  text_substream-ran (ScanEvent.text t ∷ es) s =
      text_substream-ran es (say t s) ∙ gone_on-word t s (ran dispatch error_name es s.db)
  text_substream-ran (tool_call c ∷ es) s =
      by_result (λ x. text_substream-ran es x) (dispatch c s.db).0 refl
    where
      by_result :
          ((x : Substream)
            → text_substream dispatch error_name es x ≡ gone_on x (ran dispatch error_name es x.db))
          → (r : Result ToolResult) → (dispatch c s.db).0 ≡ r
          → text_substream dispatch error_name (tool_call c ∷ es) s
            ≡ gone_on s (ran dispatch error_name (tool_call c ∷ es) s.db)
      by_result later (err x) e =
          rw (text_substream, ran, e)
            (stop_or (say (snag_text (error_name x)) (record s { db = (dispatch c s.db).1 }))
              ∙ rw (append-nil s.tool_results, ← or_false s.hangup_pending) refl)
      by_result later (ok x) e = elim (Bool-cases x.end_turn) [
        | inl h ↦
            rw (text_substream, ran, e, h, tool_done-gone_on x (dispatch c s.db).1 s)
              (rw (← or_true s.stopped) refl)
        | inr h ↦
            rw (text_substream, ran, e, h, tool_done-gone_on x (dispatch c s.db).1 s)
              (later _
                ∙ gone_on-result x (dispatch c s.db).1 s
                    (ran dispatch error_name es (dispatch c s.db).1))
      ]
  text_substream-ran (malformed t ∷ es) s = text_substream-ran es s
  text_substream-ran (unterminated t ∷ es) s = text_substream-ran es s
  text_substream-ran (done ∷ es) s = stop_or s ∙ gone_on-nothing s true
