-- ===== src/Model/Calendar.antt =====
-- UTC datetimes (db/types.py: every stored datetime is UTC). The time of day is in microseconds.
use v_cx_credit_guard.Prelude.{ℕ, Bool, true, false, ◌≤◌, ltb, if◌then◌else◌}

pub record DateTime : Type 0 where
  pub year : ℕ
  pub month : ℕ
  pub day : ℕ
  pub micros : ℕ

-- `a < b`, field by field.
unfoldable pub earlier : DateTime → DateTime → Bool
earlier a b =
    if ltb a.year b.year
    then true
    else if ltb b.year a.year
    then false
    else if ltb a.month b.month
    then true
    else if ltb b.month a.month
    then false
    else if ltb a.day b.day
    then true
    else if ltb b.day a.day
    then false
    else ltb a.micros b.micros

-- The fields that `datetime` accepts, as far as the window arithmetic needs them.
pub record IsValid (t : DateTime) : Type 0 where
  pub month_low : 1 ≤ t.month
  pub month_high : t.month ≤ 12
  pub day_low : 1 ≤ t.day
