-- ===== src/Periods/Keys.antt =====
-- services/periods.py: which moments share a period's key.
use Prim.Native.String
use text.Mathlib.TextLemmas.{
  append_inj, length-append, tail-eq_of_cons-eq, head-eq_of_cons-eq, append_cancel_left, append-nil,
  length-cons, length-nil,
}
use v_cx_credit_guard.Prelude.{
  ◌≡◌, ◌↔◌, ℕ, ◌/◌, ◌%◌, ◌<◌, ap, String, [], ◌∷◌, arith, str, str_inj, concat,
}
use v_cx_credit_guard.Model.Calendar.{DateTime, IsValid}
use v_cx_credit_guard.Periods.{two_digits, monthly_key, monthly_window}
use v_cx_credit_guard.Prelude.Text.{code-digit}
use Prim.Native.Char.{code}

two_digits_inj : (a b : ℕ) → a < 100 → b < 100 → two_digits a ≡ two_digits b → a ≡ b
unfolding two_digits
two_digits_inj a b ha hb e =
    let tens = ap code (head-eq_of_cons-eq e) in
    let ones = ap code (head-eq_of_cons-eq (tail-eq_of_cons-eq e)) in
    omega (
      arith,
      tens,
      ones,
      code-digit (a / 10) (omega arith),
      code-digit (a % 10) (omega arith),
      code-digit (b / 10) (omega arith),
      code-digit (b % 10) (omega arith),
    )

-- What follows the year.
abbrev tail_of : ℕ → String
tail_of month = concat ("-" ∷ two_digits month ∷ [])

count-tail_of : (n : ℕ) → String.count (tail_of n) ≡ 3
unfolding two_digits concat
count-tail_of n = simp (length-append, length-cons, length-nil)

tail_of_inj : (a b : ℕ) → tail_of a ≡ tail_of b → two_digits a ≡ two_digits b
unfolding concat
tail_of_inj a b e = simp append-nil at (append_cancel_left "-" _ _ e)

month_key_inj :
    (y z a b : ℕ)
    → a < 100
    → b < 100
    → String.◌++◌ (str y) (tail_of a) ≡ String.◌++◌ (str z) (tail_of b)
    → (y ≡ z) × (a ≡ b)
month_key_inj y z a b ha hb e =
    let lengths : String.count (str y) ≡ String.count (str z) = omega (
      arith,
      ap String.count e,
      length-append (str y) (tail_of a),
      length-append (str z) (tail_of b),
      count-tail_of a,
      count-tail_of b,
    ) in
    let (years, tails) = append_inj e lengths in
    (str_inj y z years, two_digits_inj a b ha hb (tail_of_inj a b tails))

-- The key of a monthly window tells its month: for two valid moments the keys are the same exactly
-- if the moments lie in the same calendar month.
pub monthly_key_iff :
    (t m : DateTime)
    → IsValid t
    → IsValid m
    → ((monthly_window t).key ≡ (monthly_window m).key) ↔ ((t.year ≡ m.year) × (t.month ≡ m.month))
unfolding monthly_window monthly_key concat
monthly_key_iff t m v w = (
  (λ e. month_key_inj t.year m.year t.month m.month (omega arith) (omega arith) e),
  (λ e. rw (e.0, e.1)),
)
