-- ===== src/Usage/Sums.antt =====
-- ingestion.py, `latest_totals`: the grouped sums of a snapshot's rows.
use v_cx_credit_guard.Prelude.{
  ℕ, ◌+◌, ◌≡◌, refl, String, true, false, Option, none, some, List, [], ◌∷◌, str_eq, eq_iff, ◌==◌,
  arith, Bool-cases, inl, inr, if◌then◌else◌,
}
use v_cx_credit_guard.Model.Usage.{UsageRecord}
use v_cx_credit_guard.Usage.Reading.{Totals, add_total, total_of, sum_rows}
use v_cx_credit_guard.Usage.Index.{total_or_zero}

-- What one row of the snapshot adds to the total of an entity.
abbrev pub share : ℕ → String → UsageRecord → ℕ
share snapshot_id id r =
    if r.snapshot_id == snapshot_id
    then elim r.entity_id [ none ↦ 0 | some j ↦ if str_eq j id then r.credits_used else 0 ]
    else 0

-- The credits of all rows of the snapshot that are resolved to the entity.
abbrev pub spent : ℕ → String → List UsageRecord → ℕ
spent snapshot_id id [] = 0
spent snapshot_id id (r ∷ rows) = share snapshot_id id r + spent snapshot_id id rows

str_eq_apart : (a b c : String) → str_eq a b ≡ true → str_eq c b ≡ false → str_eq a c ≡ false
str_eq_apart a b c same other = ground (arith, eq_iff a b, eq_iff c b, eq_iff a c)

str_eq_other : (a b c : String) → str_eq a b ≡ true → str_eq a c ≡ false → str_eq c b ≡ false
str_eq_other a b c same other = ground (arith, eq_iff a b, eq_iff c b, eq_iff a c)

total-add_total :
    (id j : String) (n : ℕ) (ts : Totals)
    → total_or_zero (add_total j n ts) id ≡ (if str_eq j id then n else 0) + total_or_zero ts id
unfolding add_total total_of
total-add_total id j n [] = ground arith
total-add_total id j n ((k, m) ∷ ts) =
    let ih = total-add_total id j n ts in
    elim (Bool-cases (str_eq k j)) [
      | inl same ↦
          rw (same, (eq_iff k j).0 same)
            (elim (Bool-cases (str_eq j id)) [
              | inl here ↦ rw here (omega arith)
              | inr there ↦ rw there (omega arith)
            ])
      | inr other ↦ rw other (elim (Bool-cases (str_eq k id)) [
        | inl here ↦ rw (here, str_eq_other k id j here other) (omega arith)
        | inr there ↦ rw there ih
      ])
    ]

-- For each entity with an id, its total in the dictionary, or zero where it has none, is the sum of
-- the credits of the snapshot's rows that are resolved to it.
pub sum_rows-total_or_zero :
    (snapshot_id : ℕ) (id : String) (rows : List UsageRecord)
    → str_eq id "" ≡ false
    → total_or_zero (sum_rows snapshot_id rows) id ≡ spent snapshot_id id rows
unfolding sum_rows total_of
sum_rows-total_or_zero snapshot_id id [] e = refl
sum_rows-total_or_zero snapshot_id id (r ∷ rows) e =
    let ih = sum_rows-total_or_zero snapshot_id id rows e in
    elim (Bool-cases (r.snapshot_id == snapshot_id)) [
      | inl here ↦ rw here (omega (arith, with_entity r.entity_id, ih))
      | inr there ↦ rw there (omega (arith, ih))
    ]
  where
    with_entity :
        (entity : Option String)
        → total_or_zero
            (elim entity [
              | none ↦ sum_rows snapshot_id rows
              | some j ↦
                  if str_eq j ""
                  then sum_rows snapshot_id rows
                  else add_total j r.credits_used (sum_rows snapshot_id rows)
            ])
            id
          ≡ elim entity [ none ↦ 0 | some j ↦ if str_eq j id then r.credits_used else 0 ]
            + total_or_zero (sum_rows snapshot_id rows) id
    with_entity none = omega arith
    with_entity (some j) = elim (Bool-cases (str_eq j "")) [
      | inl empty ↦ rw (empty, str_eq_apart j "" id empty e) (omega arith)
      | inr present ↦ rw present (total-add_total id j r.credits_used (sum_rows snapshot_id rows))
    ]
