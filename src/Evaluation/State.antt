-- ===== src/Evaluation/State.antt =====
-- evaluation.py: the period state of a limit, its baseline and its usage.
use v_cx_credit_guard.Prelude.{
  ℕ, ◌+◌, ◌-◌, ◌*◌, pos, ◌*ℤ◌, String, Bool, true, false, Option, none, some, [], ◌∷◌, ◌++◌, ltb,
  leb_ℤ, ◌==◌, str_eq, first_where, modify_where, if◌then◌else◌,
}
use v_cx_credit_guard.Exec.{Exec, ok}
use v_cx_credit_guard.Model.Calendar.{DateTime}
use v_cx_credit_guard.Model.Enums.{PeriodType, monthly, quarterly, custom, lifetime, LimitStatus}
use v_cx_credit_guard.Model.Limits.{CreditLimit, LimitPeriodState, scale}
use v_cx_credit_guard.Model.Database.{Db, World}
use v_cx_credit_guard.Periods.{PeriodWindow}

-- `window.period_type in {LIFETIME, CUSTOM}`
abbrev pub counts_everything : PeriodType → Bool
counts_everything lifetime = true
counts_everything custom = true
counts_everything monthly = false
counts_everything quarterly = false

-- The starting figure that a new period discounts from the reported total.
unfoldable pub baseline_for : CreditLimit → PeriodWindow → ℕ → Bool → ℕ
baseline_for limit window reported_total available =
    if available
    then (if counts_everything window.period_type
        then 0
        else if limit.count_existing_usage
        then 0
        else reported_total)
    else 0

abbrev pub is_state_of : ℕ → String → LimitPeriodState → Bool
is_state_of limit_id key s = if s.limit_id == limit_id then str_eq s.period_key key else false

-- limits_service.py, `current_state`
unfoldable pub current_state : Db → ℕ → String → Option LimitPeriodState
current_state db limit_id key = first_where (is_state_of limit_id key) db.states

unfoldable pub put_state : {T : Type 0} → LimitPeriodState → World T → World T
put_state s w = record w {
  db = record w.db { states = modify_where (λ x. x.id == s.id) (λ _. s) w.states };
}

unfoldable pub get_or_create_state :
    {T : Type 0} → CreditLimit → PeriodWindow → ℕ → Bool → Exec (World T) LimitPeriodState
unfolding current_state baseline_for
get_or_create_state limit window reported_total available w =
    let state : LimitPeriodState = record {
      id = w.next_id;
      limit_id = limit.id;
      period_key = window.key;
      period_start = window.start;
      period_end = window.end;
      credits_used = 0;
      baseline_credits = baseline_for limit window reported_total available;
      reported_total = reported_total;
      usage_available = available;
      status = LimitStatus.ok;
      last_evaluated_at = none;
      warned_at = none;
      breached_at = none;
      restricted_at = none;
      restored_at = none;
    } in
    elim (current_state w.db limit.id window.key) [
      | some found ↦ (ok found, w)
      | none ↦ (
        ok state,
        record w { db = record w.db { next_id = w.next_id + 1; states = w.states ++ state ∷ [] } },
      )
    ]

-- The baseline after the lookback window may have slid, and the usage that follows from it.
unfoldable pub refresh : LimitPeriodState → ℕ → Bool → DateTime → LimitPeriodState
refresh s reported_total available moment =
    let baseline =
      if ltb reported_total s.baseline_credits then reported_total else s.baseline_credits in
    record s {
      baseline_credits = baseline;
      reported_total = reported_total;
      usage_available = available;
      credits_used = if available then reported_total - baseline else 0;
      last_evaluated_at = some moment;
    }

-- `credits_used >= Decimal(credit_limit)`
unfoldable pub reaches_limit : ℕ → CreditLimit → Bool
unfolding ◌*ℤ◌
reaches_limit used limit = leb_ℤ (limit.credit_limit *ℤ pos scale) (pos used)

-- `credits_used >= credit_limit * warning_threshold_pct / 100`, multiplied out.
unfoldable pub reaches_threshold : ℕ → CreditLimit → Bool
unfolding ◌*ℤ◌
reaches_threshold used limit =
    leb_ℤ (limit.credit_limit *ℤ limit.warning_threshold_pct *ℤ pos scale) (pos (used * 100))
