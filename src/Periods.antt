-- ===== src/Periods.antt =====
-- backend/app/services/periods.py: the budget windows and their keys. `astimezone(UTC)` is the
-- identity on the UTC datetimes of the model.
pub mod Windows
pub mod Keys
use v_cx_credit_guard.Prelude.{
  ℕ, ◌+◌, ◌-◌, ◌*◌, ◌/◌, String, Bool, true, false, not, ◌&&◌, Option, none, some, List, [], ◌∷◌,
  ltb, ◌==◌, concat, str, if◌then◌else◌, or_else, digit,
}
use Prim.Native.Nat.{◌%◌}
use Prim.Native.String
use v_cx_credit_guard.Exec.{Error, period_error, Result, ok, err}
use v_cx_credit_guard.Model.Calendar.{DateTime, earlier}
use v_cx_credit_guard.Model.Enums.{PeriodType, monthly, quarterly, custom, lifetime}
use v_cx_credit_guard.Model.Limits.{CreditLimit}

pub record PeriodWindow : Type 0 where
  pub key : String
  pub start : DateTime
  -- None for lifetime, which never rolls over.
  pub end : Option DateTime
  pub period_type : PeriodType
  pub is_active : Bool

unfoldable pub contains : PeriodWindow → DateTime → Bool
unfolding earlier
contains w moment =
    if earlier moment w.start then false else elim w.end [ none ↦ true | some e ↦ earlier moment e ]

abbrev pub quarter_months : ℕ
quarter_months = 3

unfoldable pub month_start : DateTime → DateTime
month_start moment = record moment { day = 1; micros = 0 }

unfoldable pub next_month_start : DateTime → DateTime
unfolding month_start
next_month_start moment =
    let start = month_start moment in
    if start.month == 12
    then record start { year = start.year + 1; month = 1 }
    else record start { month = start.month + 1 }

unfoldable pub quarter_of : DateTime → ℕ
quarter_of moment = (moment.month - 1) / quarter_months + 1

unfoldable pub quarter_start : DateTime → DateTime
unfolding quarter_of
quarter_start moment =
    let first_month = (quarter_of moment - 1) * quarter_months + 1 in
    record moment { month = first_month; day = 1; micros = 0 }

unfoldable pub next_quarter_start : DateTime → DateTime
unfolding quarter_start
next_quarter_start moment =
    let start = quarter_start moment in
    if ltb 12 (start.month + quarter_months)
    then record start { year = start.year + 1; month = 1 }
    else record start { month = start.month + quarter_months }

-- A field of two digits, as `%m` and `%d` write it.
unfoldable pub two_digits : ℕ → String
unfolding digit
two_digits n = String.◌∷◌ (digit (n / 10)) (String.◌∷◌ (digit (n % 10)) "")

-- `strftime("%Y%m%d")`
unfoldable pub compact_date : DateTime → String
unfolding two_digits concat str
compact_date t = concat (str t.year ∷ two_digits t.month ∷ two_digits t.day ∷ [])

unfoldable pub custom_key : DateTime → Option DateTime → String
unfolding compact_date concat
custom_key start end =
    let tail : String = elim end [ none ↦ "open" | some e ↦ compact_date e ] in
    concat ("custom:" ∷ compact_date start ∷ ":" ∷ tail ∷ [])

-- The check of a custom period, and its window.
unfoldable pub custom_window : Option DateTime → Option DateTime → DateTime → Result PeriodWindow
unfolding custom_key contains earlier
custom_window none end moment = err (
    period_error
      "This limit uses a custom period but has no start date. Set a start and end date, or switch it to monthly.")
custom_window (some start) none moment = ok (record {
  key = custom_key start none;
  start = start;
  end = none;
  period_type = custom;
  is_active = not (earlier moment start);
})
custom_window (some start) (some end) moment =
    if not (earlier start end)
    then err (period_error "The custom period's end date is not after its start date.")
    else ok (record {
      key = custom_key start (some end);
      start = start;
      end = some end;
      period_type = custom;
      is_active = not (earlier moment start) && earlier moment end;
    })

unfoldable pub monthly_key : DateTime → String
unfolding two_digits concat str
monthly_key start = concat (str start.year ∷ "-" ∷ two_digits start.month ∷ [])

unfoldable pub quarterly_key : DateTime → ℕ → String
unfolding concat str
quarterly_key start quarter = concat (str start.year ∷ "-Q" ∷ str quarter ∷ [])

unfoldable pub monthly_window : DateTime → PeriodWindow
unfolding month_start next_month_start monthly_key
monthly_window moment = record {
  key = monthly_key (month_start moment);
  start = month_start moment;
  end = some (next_month_start moment);
  period_type = monthly;
  is_active = true;
}

unfoldable pub quarterly_window : DateTime → PeriodWindow
unfolding quarter_of quarter_start next_quarter_start quarterly_key
quarterly_window moment = record {
  key = quarterly_key (quarter_start moment) (quarter_of moment);
  start = quarter_start moment;
  end = some (next_quarter_start moment);
  period_type = quarterly;
  is_active = true;
}

-- Anchored at the limit's creation.
unfoldable pub lifetime_window : CreditLimit → DateTime → PeriodWindow
lifetime_window limit moment = record {
  key = "lifetime";
  start = or_else limit.created_at moment;
  end = none;
  period_type = lifetime;
  is_active = true;
}

-- `current_window(limit, now)`; the branches are those of the period types.
unfoldable pub window_of : PeriodType → CreditLimit → DateTime → Result PeriodWindow
unfolding monthly_window quarterly_window lifetime_window custom_window
window_of monthly limit moment = ok (monthly_window moment)
window_of quarterly limit moment = ok (quarterly_window moment)
window_of lifetime limit moment = ok (lifetime_window limit moment)
window_of custom limit moment =
    custom_window limit.custom_period_start limit.custom_period_end moment

unfoldable pub current_window : CreditLimit → DateTime → Result PeriodWindow
unfolding window_of
current_window limit moment = window_of limit.period_type limit moment
