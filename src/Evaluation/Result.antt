-- ===== src/Evaluation/Result.antt =====
-- evaluation.py: what an evaluation run returns.
use v_cx_credit_guard.Prelude.{ℕ, String, Bool, Option, List, []}
use v_cx_credit_guard.Model.Enums.{LimitStatus}
use v_cx_credit_guard.Model.Limits.{CreditLimit, LimitPeriodState}
use v_cx_credit_guard.Periods.{PeriodWindow}
use v_cx_credit_guard.Enforcement.Apply.{EnforcementOutcome}

-- `float(credits_used) / credit_limit * 100`, kept as its operands: the amount used in
-- ten-thousandths and the limit in credits; `full` is the constant 100 of a limit of zero.
pub data Percent : Type 0 where
  ratio : ℕ → ℕ → Percent
  full : Percent

pub record LimitEvaluation : Type 0 where
  pub limit : CreditLimit
  pub period : PeriodWindow
  pub state : LimitPeriodState
  pub credits_used : ℕ
  pub usage_available : Bool
  pub status : LimitStatus
  pub percent_used : Option Percent
  pub newly_warned : Bool
  pub newly_breached : Bool
  pub enforced : Option EnforcementOutcome
  pub note : Option String

pub record EvaluationResult : Type 0 where
  pub evaluated : ℕ
  pub warned : ℕ
  pub breached : ℕ
  pub enforced : ℕ
  pub monitor_only : ℕ
  pub restored : ℕ
  pub unavailable : ℕ
  pub errors : List String
  pub evaluations : List LimitEvaluation

abbrev pub no_result : EvaluationResult
no_result = record {
  evaluated = 0;
  warned = 0;
  breached = 0;
  enforced = 0;
  monitor_only = 0;
  restored = 0;
  unavailable = 0;
  errors = [];
  evaluations = [];
}
