-- ===== src/Model/Delta.antt =====
-- `datetime - timedelta` on UTC datetimes, in the proleptic Gregorian calendar. Dates before the
-- year 1, where Python raises, are not reached from the present by the spans that the program takes.
use v_cx_credit_guard.Prelude.{
  ℕ, zero, suc, ◌+◌, ◌-◌, ◌*◌, ◌/◌, ◌%◌, ltb, leb, ◌==◌, [], ◌∷◌, first_where, is_some,
  if◌then◌else◌,
}
use v_cx_credit_guard.Model.Calendar.{DateTime}

-- A February has its 29th day in every fourth year, but of the centuries only in every fourth.
unfoldable pub february_days : ℕ → ℕ
february_days year =
    let century = if (year % 400) == 0 then 29 else 28 in
    if (year % 100) == 0 then century else if (year % 4) == 0 then 29 else 28

-- The last day of the month that `month` follows, for February to December.
unfoldable pub last_day_before : ℕ → ℕ → ℕ
unfolding february_days
last_day_before year month =
    let is_short = is_some (first_where (λ m. m == month) (5 ∷ 7 ∷ 10 ∷ 12 ∷ [])) in
    if month == 3 then february_days year else if is_short then 30 else 31

-- `t - timedelta(days=1)`
unfoldable pub day_before : DateTime → DateTime
unfolding last_day_before
day_before t =
    if ltb 1 t.day
    then record t { day = t.day - 1 }
    else if ltb 1 t.month
    then record t { month = t.month - 1; day = last_day_before t.year t.month }
    else record t { year = t.year - 1; month = 12; day = 31 }

-- `t - timedelta(days=n)`
unfoldable pub days_before : ℕ → DateTime → DateTime
days_before zero t = t
days_before (suc n) t = day_before (days_before n t)

abbrev pub micros_per_minute : ℕ
micros_per_minute = 60_000_000

-- Back by less than a day.
abbrev pub minutes_back : ℕ → DateTime → DateTime
minutes_back n t =
    let span = n * micros_per_minute in
    if leb span t.micros
    then record t { micros = t.micros - span }
    else record (day_before t) { micros = t.micros + 1440 * micros_per_minute - span }

-- `t - timedelta(minutes=n)`
unfoldable pub minutes_before : ℕ → DateTime → DateTime
unfolding days_before day_before
minutes_before n t = minutes_back (n % 1440) (days_before (n / 1440) t)
