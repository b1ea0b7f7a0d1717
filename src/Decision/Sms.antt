-- ===== src/Decision/Sms.antt =====
-- `match_sms_response` of app/services/decisions.py.
use vof_backend.Db.{AppDb}
use vof_backend.Db.Models.{sms, DecisionRequest}
use vof_backend.Decision.Repo.{list_open_for_user}
use vof_backend.Decision.Service.{short_id, respond}
use vof_backend.Errors.{ok}
use vof_backend.Exec.{Exec, pure, ◌>>=◌}
use vof_backend.Prelude.{
  take, drop, find_first, if◌then◌else◌, ℕ, ◌+◌, ◌-◌, ◌||◌, Option, none, some, List,
}
use vof_backend.Text.{Text, codes, is_empty, text_eq, strip, starts_with, find_char, CaseMap}

-- `body[4:close_bracket]` and `body[close_bracket + 1:]`, both stripped.
unfoldable pub reply_parts : CaseMap → Text → ℕ → Option (Text × Text)
reply_parts c body close =
    let short = c.upper (strip (take (close - 4) (drop 4 body))) in
    let rest = strip (drop (close + 1) body) in
    if is_empty short || is_empty rest then none else some (short, rest)

unfoldable pub parse_stripped : CaseMap → Text → Option (Text × Text)
unfolding starts_with
parse_stripped c body =
    if starts_with body (codes "[DR-")
    then elim (find_char b']' body) [ none ↦ none | some close ↦ reply_parts c body close ]
    else none

-- The short id and the answer of `[DR-XXXXXX] <option>`.
unfoldable pub parse_reply : CaseMap → Text → Option (Text × Text)
parse_reply c raw = parse_stripped c (strip raw)

-- The first offered option that is the answer up to case.
unfoldable pub choose : CaseMap → Text → List Text → Option Text
choose c rest options = find_first (λ o. text_eq (c.lower o) (c.lower rest)) options

-- An answer that is none of the options gives the row back as it stands.
unfoldable pub answer :
    CaseMap
    → (now manager_user_id : ℕ) → Text
    → DecisionRequest
    → Exec AppDb (Option DecisionRequest)
unfolding choose
answer c now manager rest d db = elim (choose c rest d.options) [
  | none ↦ (ok (some d), db)
  | some chosen ↦ (do d' ← respond now d.id manager chosen sms; pure (some d')) db
]

unfoldable pub find_candidate : CaseMap → Text → List DecisionRequest → Option DecisionRequest
find_candidate c short ds = find_first (λ d. text_eq (short_id c d.id) short) ds

unfoldable pub match_sms_response :
    CaseMap → (now : ℕ) (body : Text) (manager_user_id : ℕ) → Exec AppDb (Option DecisionRequest)
unfolding parse_reply find_candidate answer
match_sms_response c now body manager db = elim (parse_reply c body) [
  | none ↦ (ok none, db)
  | some (short, rest) ↦ elim (find_candidate c short (list_open_for_user manager db)) [
    | none ↦ (ok none, db)
    | some d ↦ answer c now manager rest d db
  ]
]
