-- ===== src/Periods/Windows.antt =====
-- services/periods.py: which moments a window holds.
use v_cx_credit_guard.Prelude.{◌≡◌, ◌↔◌, refl, ◌-◌, ◌/◌, true, Option, none, some, arith}
use v_cx_credit_guard.Exec.{ok}
use v_cx_credit_guard.Model.Calendar.{DateTime, IsValid, earlier}
use v_cx_credit_guard.Model.Enums.{monthly, quarterly}
use v_cx_credit_guard.Model.Limits.{CreditLimit}
use v_cx_credit_guard.Periods.{
  PeriodWindow, contains, monthly_window, quarterly_window, custom_window, current_window,
}

monthly_window_holds :
    (t m : DateTime)
    → IsValid t
    → IsValid m
    → (contains (monthly_window m) t ≡ true) ↔ ((t.year ≡ m.year) × (t.month ≡ m.month))
unfolding contains monthly_window
monthly_window_holds t m v w = ground arith

quarterly_window_holds :
    (t m : DateTime)
    → IsValid t
    → IsValid m
    → (contains (quarterly_window m) t ≡ true)
      ↔ ((t.year ≡ m.year) × ((t.month - 1) / 3 ≡ (m.month - 1) / 3))
unfolding contains quarterly_window
quarterly_window_holds t m v w = ground arith

-- For a monthly limit and a moment with a valid month and day, the current window exists, is
-- marked open, and holds a valid moment exactly if that lies in the same calendar month.
pub monthly_window-contains :
    (limit : CreditLimit) (t m : DateTime)
    → limit.period_type ≡ monthly
    → IsValid t
    → IsValid m
    → (w : PeriodWindow) × (current_window limit m ≡ ok w)
      × (w.is_active ≡ true)
      × ((contains w t ≡ true) ↔ ((t.year ≡ m.year) × (t.month ≡ m.month)))
unfolding current_window
monthly_window-contains limit t m e v v' =
    (monthly_window m, rw e, refl, monthly_window_holds t m v v')

-- For a quarterly limit and a moment with a valid month and day, the current window exists, is
-- marked open, and holds a valid moment exactly if that lies in the same year and the same three
-- months of it, counted from January.
pub quarterly_window-contains :
    (limit : CreditLimit) (t m : DateTime)
    → limit.period_type ≡ quarterly
    → IsValid t
    → IsValid m
    → (w : PeriodWindow) × (current_window limit m ≡ ok w)
      × (w.is_active ≡ true)
      × ((contains w t ≡ true) ↔ ((t.year ≡ m.year) × ((t.month - 1) / 3 ≡ (m.month - 1) / 3)))
unfolding current_window
quarterly_window-contains limit t m e v v' =
    (quarterly_window m, rw e, refl, quarterly_window_holds t m v v')

-- A custom period that yields a window has a start, which is the window's; its end, if any, lies
-- after the start; and the window is marked open exactly if it holds the moment.
pub custom_window_lem :
    (start end : Option DateTime) (m : DateTime) (w : PeriodWindow)
    → custom_window start end m ≡ ok w
    → (start ≡ some w.start)
      × (end ≡ w.end)
      × (w.is_active ≡ contains w m)
      × ((e : DateTime) → w.end ≡ some e → earlier w.start e ≡ true)
unfolding custom_window contains
custom_window_lem none end m w h = ground arith
custom_window_lem (some start) none m w h = ground arith
custom_window_lem (some start) (some end) m w h = ground arith
