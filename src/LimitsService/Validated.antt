-- ===== src/LimitsService/Validated.antt =====
-- limits_service.py and periods.py: the validation of a limit and its current window.
use v_cx_credit_guard.Prelude.{◌≡◌, refl, true, Option, none, some, arith, Bool-cases, inl, inr}
use v_cx_credit_guard.Exec.{ok}
use v_cx_credit_guard.Model.Calendar.{DateTime, earlier}
use v_cx_credit_guard.Model.Enums.{PeriodType, monthly, quarterly, custom, lifetime}
use v_cx_credit_guard.Model.Limits.{CreditLimit}
use v_cx_credit_guard.Periods.{PeriodWindow, window_of, current_window, custom_window}
use v_cx_credit_guard.LimitsService.Input.{
  LimitInput, validate_range, validate, input_of, is_custom,
}

custom_window-validate :
    (start end : Option DateTime) (m : DateTime)
    → validate_range start end ≡ ok tt
    → (w : PeriodWindow) × (custom_window start end m ≡ ok w)
unfolding custom_window validate_range
custom_window-validate none end m h = ground arith
custom_window-validate (some s) none m h = (_, refl)
custom_window-validate (some s) (some e) m h = elim (Bool-cases (earlier s e)) [
  | inl before ↦ rw before (_, refl)
  | inr not_before ↦ ground arith
]

range_of_valid :
    (d : LimitInput)
    → is_custom d.period_type ≡ true
    → validate d ≡ ok tt
    → validate_range d.custom_period_start d.custom_period_end ≡ ok tt
unfolding validate
range_of_valid d c h = ground arith

window_of-validate :
    (p : PeriodType) (limit : CreditLimit) (m : DateTime)
    → limit.period_type ≡ p
    → validate (input_of limit) ≡ ok tt
    → (w : PeriodWindow) × (window_of p limit m ≡ ok w)
unfolding window_of input_of
window_of-validate monthly limit m e h = (_, refl)
window_of-validate quarterly limit m e h = (_, refl)
window_of-validate lifetime limit m e h = (_, refl)
window_of-validate custom limit m e h =
    custom_window-validate limit.custom_period_start limit.custom_period_end m
      (range_of_valid (input_of limit) (rw e refl) h)

-- A limit whose values pass the validation of creation and update has a window at every moment: its
-- evaluation never ends in a period error.
pub current_window-validate :
    (limit : CreditLimit) (m : DateTime)
    → validate (input_of limit) ≡ ok tt
    → (w : PeriodWindow) × (current_window limit m ≡ ok w)
unfolding current_window
current_window-validate limit m h = window_of-validate limit.period_type limit m refl h
