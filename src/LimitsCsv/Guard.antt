-- ===== src/LimitsCsv/Guard.antt =====
-- limits_csv.py: exported texts and their way back.
use v_cx_credit_guard.Prelude.{
  ℕ, suc, ◌≡◌, ◌≢◌, ◌↔◌, refl, ap, inl, inr, String, true, false, arith, Bool-cases,
}
use v_cx_credit_guard.LimitsCsv.{
  is_formula, is_formula_prefix, neutralise, unneutralise, is_guarded,
}

size : String → ℕ
size String.[] = 0
size (String.◌∷◌ c s) = suc (size s)

formula-unguarded : (s : String) → is_formula s ≡ true → is_guarded s ≡ false
unfolding is_formula is_formula_prefix
formula-unguarded String.[] e = ground arith
formula-unguarded (String.◌∷◌ c s) e = ground arith

tail_differs : (s : String) → is_guarded s ≡ true → unneutralise s ≢ s
unfolding unneutralise size
tail_differs String.[] guarded e = cc (guarded)
tail_differs (String.◌∷◌ c s) guarded e =
    let shorter : s ≡ String.◌∷◌ c s = rw guarded at e in omega (arith, ap size shorter)

-- Taking the export's guard off again gives the text itself, exactly if the text does not begin with
-- an apostrophe before one of the characters that start a formula.
pub unneutralise-neutralise_iff :
    (s : String) → (unneutralise (neutralise s) ≡ s) ↔ (is_guarded s ≡ false)
unfolding unneutralise neutralise is_formula is_formula_prefix
unneutralise-neutralise_iff s = elim (Bool-cases (is_formula s)) [
  | inl formula ↦ ((λ _. formula-unguarded s formula), (λ _. rw formula (rw formula refl)))
  | inr harmless ↦ rw harmless (elim (Bool-cases (is_guarded s)) [
    | inl guarded ↦ ((λ e. absurd (tail_differs s guarded e)), (λ e. cc (guarded, e)))
    | inr plain_text ↦ ((λ _. plain_text), (λ _. rw plain_text refl))
  ])
]

-- No cell is left that a spreadsheet takes for a formula.
pub is_formula-neutralise : (s : String) → is_formula (neutralise s) ≡ false
unfolding neutralise is_formula is_formula_prefix
is_formula-neutralise s = elim (Bool-cases (is_formula s)) [
  | inl formula ↦ rw formula refl
  | inr harmless ↦ rw harmless harmless
]
