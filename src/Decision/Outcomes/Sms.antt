-- ===== src/Decision/Outcomes/Sms.antt =====
-- A text message answers the open decision that its short id names, or changes nothing.
use vof_backend.Db.{AppDb}
use vof_backend.Db.Models.{sms, DecisionRequest}
use vof_backend.Decision.Repo.{list_open_for_user}
use vof_backend.Decision.Service.{respond}
use vof_backend.Decision.Sms.{parse_reply, choose, find_candidate, match_sms_response}
use vof_backend.Errors.{ok}
use vof_backend.Exec.{pure, ◌>>=◌}
use vof_backend.Prelude.{Option-cases, ℕ, ◌≡◌, ◌⊎◌, inl, inr, Option, none, some, arith}
use vof_backend.Text.{Text, CaseMap}

-- The message is an answer, and `respond` is called with it.
pub record Answers (c : CaseMap) (now : ℕ) (body : Text) (manager : ℕ) (db : AppDb) : Type 0 where
  pub short : Text
  pub rest : Text
  pub row : DecisionRequest
  pub chosen : Text
  pub parsed : parse_reply c body ≡ some (short, rest)
  pub candidate : find_candidate c short (list_open_for_user manager db) ≡ some row
  pub option : choose c rest row.options ≡ some chosen
  pub outcome :
      match_sms_response c now body manager db
      ≡ (respond now row.id manager chosen sms >>= λ d. pure (some d)) db

-- The message is noise, names no open decision, or gives no offered option.
pub record Ignored (c : CaseMap) (now : ℕ) (body : Text) (manager : ℕ) (db : AppDb) : Type 0 where
  pub row : Option DecisionRequest
  pub outcome : match_sms_response c now body manager db ≡ (ok row, db)

module _ (c : CaseMap) (now : ℕ) (body : Text) (manager : ℕ) (db : AppDb) where
  sms_noise : parse_reply c body ≡ none → match_sms_response c now body manager db ≡ (ok none, db)
  unfolding match_sms_response
  sms_noise h = rw (h, match_sms_response)

  module _ (short rest : Text) (parsed : parse_reply c body ≡ some (short, rest)) where
    sms_unknown :
        find_candidate c short (list_open_for_user manager db) ≡ none
        → match_sms_response c now body manager db ≡ (ok none, db)
    unfolding match_sms_response
    sms_unknown h = ground arith

    module _ (d : DecisionRequest)
        (candidate : find_candidate c short (list_open_for_user manager db) ≡ some d) where
      sms_unclear :
          choose c rest d.options ≡ none
          → match_sms_response c now body manager db ≡ (ok (some d), db)
      unfolding match_sms_response
      sms_unclear h = ground arith

      pub sms_answer :
          (chosen : Text)
          → choose c rest d.options ≡ some chosen
          → match_sms_response c now body manager db
            ≡ (respond now d.id manager chosen sms >>= λ e. pure (some e)) db
      unfolding match_sms_response
      sms_answer chosen h = ground arith

      sms_named : Ignored c now body manager db ⊎ Answers c now body manager db
      sms_named = elim (Option-cases (choose c rest d.options)) [
        | inl h ↦ inl (record { row = some d; outcome = sms_unclear h })
        | inr (chosen, h) ↦ inr (record {
          short = short;
          rest = rest;
          row = d;
          chosen = chosen;
          parsed = parsed;
          candidate = candidate;
          option = h;
          outcome = sms_answer chosen h;
        })
      ]

    sms_parsed : Ignored c now body manager db ⊎ Answers c now body manager db
    sms_parsed = elim (Option-cases (find_candidate c short (list_open_for_user manager db))) [
      | inl h ↦ inl (record { row = none; outcome = sms_unknown h })
      | inr (d, h) ↦ sms_named d h
    ]

  pub sms-cases : Ignored c now body manager db ⊎ Answers c now body manager db
  sms-cases = elim (Option-cases (parse_reply c body)) [
    | inl h ↦ inl (record { row = none; outcome = sms_noise h })
    | inr ((short, rest), h) ↦ sms_parsed short rest h
  ]
