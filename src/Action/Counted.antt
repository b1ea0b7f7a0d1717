-- ===== src/Action/Counted.antt =====
-- The number of runs that a row counts, through the changes of one row.
use vof_backend.Action.Approval.{is_undecided, ActionItemPatch, patched}
use vof_backend.Action.Dispatch.{
  HandlerResult, revoked, raised, returned, failure, soft_status, handler_update,
}
use vof_backend.Action.Repo.{status_row, outcome_row}
use vof_backend.Db.Models.{approved, needs_reconnect, rejected, ActionItem, is_approved}
use vof_backend.Prelude.{ℕ, ◌≤◌, ◌<◌, ◌≡◌, true, arith}
use vof_backend.Text.{Text}

-- An undecided item was never run, an approved one fewer than three times, and any at most three times.
pub record IsCounted (i : ActionItem) : Type 0 where
  pub not_run : is_undecided i.status ≡ true → i.handler_attempts ≡ 0
  pub may_run : is_approved i.status ≡ true → i.handler_attempts < 3
  pub bounded : i.handler_attempts ≤ 3

pub approved-IsCounted :
    (i : ActionItem)
    → is_undecided i.status ≡ true
    → IsCounted i
    → IsCounted (status_row approved i)
approved-IsCounted i u c = record {
  not_run = λ e. absurd (cc);
  may_run = λ e. ground (arith, c.not_run u);
  bounded = c.bounded;
}

pub rejected-IsCounted :
    (i : ActionItem)
    → is_undecided i.status ≡ true
    → IsCounted i
    → IsCounted (status_row rejected i)
rejected-IsCounted i u c = record {
  not_run = λ e. absurd (cc);
  may_run = λ e. absurd (cc);
  bounded = c.bounded;
}

pub patched-IsCounted :
    (b : ActionItemPatch) (i : ActionItem)
    → is_undecided i.status ≡ true
    → IsCounted i
    → IsCounted (patched b i)
unfolding patched
patched-IsCounted b i u c = record { not_run = c.not_run; may_run = c.may_run; bounded = c.bounded }

-- A written outcome counts the attempt, and approves again only below the limit.
pub updated-IsCounted :
    (r : HandlerResult) (now : ℕ) (i : ActionItem)
    → is_approved i.status ≡ true
    → IsCounted i
    → IsCounted (outcome_row (handler_update r now i) i)
unfolding outcome_row handler_update soft_status
updated-IsCounted (revoked e) now i a c = record {
  not_run = λ u. absurd (cc);
  may_run = λ u. absurd (cc);
  bounded = ground (arith, c.may_run a);
}
updated-IsCounted (raised t e) now i a c = record {
  not_run = λ u. ground arith;
  may_run = λ u. ground arith;
  bounded = ground (arith, c.may_run a);
}
updated-IsCounted (returned o) now i a c = record {
  not_run = λ u. ground arith;
  may_run = λ u. ground arith;
  bounded = ground (arith, c.may_run a);
}

pub no_credentials-IsCounted :
    (now : ℕ) (error : Text) (i : ActionItem)
    → is_approved i.status ≡ true
    → IsCounted i
    → IsCounted (outcome_row (failure needs_reconnect now error i) i)
unfolding outcome_row
no_credentials-IsCounted now error i a c = record {
  not_run = λ u. absurd (cc);
  may_run = λ u. absurd (cc);
  bounded = ground (arith, c.may_run a);
}
