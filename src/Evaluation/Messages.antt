-- ===== src/Evaluation/Messages.antt =====
-- evaluation.py and periods.py: the texts of warnings and breaches. How Python prints a `Decimal`,
-- a rounded percentage and a date, and the day before a date, are parameters: `Printing`.
use v_cx_credit_guard.Prelude.{
  ℕ, String, Bool, Option, none, some, [], ◌∷◌, concat, str, if◌then◌else◌,
}
use v_cx_credit_guard.Exec.{Exec, pure, ◌>>=◌}
use v_cx_credit_guard.Model.Calendar.{DateTime}
use v_cx_credit_guard.Model.Enums.{
  monthly, quarterly, custom, lifetime, Severity, warning, critical, entity_title,
}
use v_cx_credit_guard.Model.Limits.{CreditLimit, LimitPeriodState}
use v_cx_credit_guard.Model.Database.{World}
use v_cx_credit_guard.Periods.{PeriodWindow, quarter_of}
use v_cx_credit_guard.Feed.{
  notify, category_warning, category_enforcement, warning_key, breach_key, monitor_only_key,
}
use v_cx_credit_guard.Enforcement.Messages.{entity_shown, str_ℤ}
use v_cx_credit_guard.Evaluation.Result.{Percent}

pub record Printing : Type 0 where
  pub amount : ℕ → String
  pub percentage : Percent → String
  -- `strftime("%B %Y")` and `strftime("%d %b %Y")`
  pub month_and_year : DateTime → String
  pub long_date : DateTime → String
  -- `t - timedelta(days=1)`
  pub day_before : DateTime → DateTime

abbrev breach_tail : CreditLimit → Bool → String
breach_tail limit exempt =
    if exempt
    then "This entity is on the exemption list, so no action was taken."
    else if limit.enforce
    then "Enforcement is on, so access is being restricted now."
    else "This limit is monitor only, so no action was taken."

abbrev breach_severity : CreditLimit → Bool → Severity
breach_severity limit exempt =
    if exempt then warning else if limit.enforce then critical else warning

abbrev breach_dedupe : CreditLimit → Bool → String → String
breach_dedupe limit exempt key =
    if exempt
    then monitor_only_key limit.id key
    else if limit.enforce
    then breach_key limit.id key
    else monitor_only_key limit.id key

module _ (py : Printing) where
  unfoldable pub describe_range : DateTime → Option DateTime → String
  unfolding concat
  describe_range start none = concat ("from " ∷ py.long_date start ∷ [])
  describe_range start (some end) =
      concat (py.long_date start ∷ " to " ∷ py.long_date (py.day_before end) ∷ [])

  unfoldable pub describe_window : PeriodWindow → String
  unfolding concat str quarter_of describe_range
  describe_window w = elim w.period_type [
    | lifetime ↦ "since the limit was created"
    | monthly ↦ py.month_and_year w.start
    | quarterly ↦ concat ("Q" ∷ str (quarter_of w.start) ∷ " " ∷ str w.start.year ∷ [])
    | custom ↦ describe_range w.start w.end
  ]

  module _ {T : Type 0} where
    unfoldable pub notify_warning :
        CreditLimit → LimitPeriodState → PeriodWindow → Percent → Exec (World T) Unit
    notify_warning limit state window percent = do
      _ ← notify (record {
        category = category_warning;
        severity = warning;
        title = concat (
            entity_title limit.entity_type
            ∷ " "
            ∷ entity_shown limit
            ∷ " reached "
            ∷ py.percentage percent
            ∷ "% of its credit limit"
            ∷ []);
        body = some (
            concat (
              py.amount state.credits_used
              ∷ " of "
              ∷ str_ℤ limit.credit_limit
              ∷ " credits used "
              ∷ describe_window window
              ∷ ". The warning threshold is "
              ∷ str_ℤ limit.warning_threshold_pct
              ∷ "%.\n"
              ∷ (if limit.enforce then "Enforcement is on" else "This limit is monitor only")
              ∷ ", so reaching the limit "
              ∷ (if limit.enforce then "will restrict access" else "will only notify")
              ∷ "."
              ∷ []));
        entity_type = some limit.entity_type;
        entity_id = some limit.entity_id;
        entity_label = limit.entity_label;
        dedupe_key = some (warning_key limit.id window.key);
        enforcement_action_id = none;
      })
      pure tt

    unfoldable pub notify_breach :
        CreditLimit → LimitPeriodState → PeriodWindow → Bool → Exec (World T) Unit
    notify_breach limit state window exempt = do
      _ ← notify (record {
        category = if limit.enforce then category_enforcement else category_warning;
        severity = breach_severity limit exempt;
        title = concat (
            entity_title limit.entity_type
            ∷ " "
            ∷ entity_shown limit
            ∷ " reached its credit limit"
            ∷ []);
        body = some (
            concat (
              py.amount state.credits_used
              ∷ " of "
              ∷ str_ℤ limit.credit_limit
              ∷ " credits used "
              ∷ describe_window window
              ∷ ".\n"
              ∷ breach_tail limit exempt
              ∷ []));
        entity_type = some limit.entity_type;
        entity_id = some limit.entity_id;
        entity_label = limit.entity_label;
        dedupe_key = some (breach_dedupe limit exempt window.key);
        enforcement_action_id = none;
      })
      pure tt
