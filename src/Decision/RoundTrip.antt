-- ===== src/Decision/RoundTrip.antt =====
-- The Manager's reply by text message answers the decision that the message was about.
use mathlib.Core.List.{Memᴰ}
use vof_backend.Db.{AppDb}
use vof_backend.Db.Models.{sms, DecisionRequest, is_open}
use vof_backend.Decision.Outcomes.Respond.{respond_answers}
use vof_backend.Decision.Outcomes.Sms.{sms_answer}
use vof_backend.Decision.Reply.{parse_reply-short_id}
use vof_backend.Decision.Repo.{key, created, answered_row, list_open_for_user}
use vof_backend.Decision.Service.{short_id, respond}
use vof_backend.Decision.Sms.{choose, find_candidate, match_sms_response}
use vof_backend.Errors.{Result, ok}
use vof_backend.Exec.{map_result}
use vof_backend.Prelude.{
  select, All, find_first_only, Memᴰ-select, All-select, find_row, find_row-key, order_desc,
  Memᴰ-order_desc, All-order_desc, Memᴰ-find_row, ◌==◌, Bool-cases, ℕ, ◌≡◌, sym, ap, subst, inl,
  inr, Bool, true, false, ◌&&◌, some, List, [], ◌∷◌, ◌++◌, arith,
}
use vof_backend.Text.{
  Text, codes, is_empty, text_eq, text_eq_iff, text_eq_refl, contains, strip, CaseMap,
}

abbrev same_option : CaseMap → Text → Text → Bool
same_option c rest o = text_eq (c.lower o) (c.lower rest)

-- No other open decision has the id's first six digits.
abbrev pub IsOnlyTag : CaseMap → DecisionRequest → DecisionRequest → Type 0
IsOnlyTag c d e = text_eq (short_id c e.id) (short_id c d.id) ≡ true → e ≡ d

-- No other option is the same up to case.
abbrev pub IsOnlyOption : CaseMap → Text → Text → Type 0
IsOnlyOption c option o = text_eq (c.lower o) (c.lower option) ≡ true → o ≡ option

contains-Memᴰ : (o : Text) (os : List Text) → contains o os ≡ true → Memᴰ o os
unfolding contains
contains-Memᴰ o [] h = absurd (cc)
contains-Memᴰ o (p ∷ os) h = elim (Bool-cases (text_eq o p)) [
  | inl e ↦ Memᴰ.head ((text_eq_iff o p).0 e)
  | inr e ↦ Memᴰ.tail (contains-Memᴰ o os (ground arith))
]

-- When an open decision's Manager texts back the tag of the message and one of the options, as it is
-- offered, the decision is answered with that option by that Manager over SMS. This needs that no other
-- open decision in the table has the same tag, that the option is not empty, has no space at its ends
-- and differs from the others in more than case.
pub match_sms_response-ping :
    (c : CaseMap) (now : ℕ) (db : AppDb) (i : ℕ) (d : DecisionRequest) (option : Text)
    → find_row key i db.decisions ≡ some d
    → is_open d.status ≡ true
    → All (IsOnlyTag c d) db.decisions
    → contains option d.options ≡ true
    → All (IsOnlyOption c option) d.options
    → is_empty option ≡ false
    → strip option ≡ option
    → let body = codes "[DR-" ++ (short_id c d.id ++ (codes "] " ++ option)) in
      (match_sms_response c now body d.target_user_id db).0
      ≡ ok (some (answered_row option d.target_user_id sms now d))
unfolding find_candidate list_open_for_user choose
match_sms_response-ping c now db i d option found live only offered sole full tight =
    rw
      (sms_answer c now (codes "[DR-" ++ (short_id c d.id ++ (codes "] " ++ option)))
        d.target_user_id db (short_id c d.id) option (parse_reply-short_id c d.id option full tight)
        d candidate option chosen)
      (map_result some (respond now d.id d.target_user_id option sms) db
        (answered_row option d.target_user_id sms now d)
        (ap (λ (x : Result DecisionRequest × AppDb). x.0)
          (respond_answers now d.id d.target_user_id option sms db d here' live offered)))
  where
    here' : find_row key d.id db.decisions ≡ some d
    here' =
        subst (λ k. find_row key k db.decisions ≡ some d)
          (sym (find_row-key key i db.decisions d found)) found

    waits : DecisionRequest → Bool
    waits e = e.target_user_id == d.target_user_id && is_open e.status

    listed : Memᴰ d (order_desc created (select waits db.decisions))
    listed =
        Memᴰ-order_desc created d (select waits db.decisions) (
          Memᴰ-select waits db.decisions d (ground arith)
            (Memᴰ-find_row key i db.decisions d found))

    candidate : find_candidate c (short_id c d.id) (list_open_for_user d.target_user_id db) ≡ some d
    candidate =
        find_first_only (λ e. text_eq (short_id c e.id) (short_id c d.id)) _ d
          (text_eq_refl (short_id c d.id)) listed
          (All-order_desc created (IsOnlyTag c d) (select waits db.decisions)
            (All-select (IsOnlyTag c d) waits db.decisions only))

    chosen : choose c option d.options ≡ some option
    chosen =
        find_first_only (same_option c option) d.options option (text_eq_refl (c.lower option))
          (contains-Memᴰ option d.options offered) sole
