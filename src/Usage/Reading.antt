-- ===== src/Usage/Reading.antt =====
-- ingestion.py, "reading back": the newest snapshot of a dimension and its totals.
use v_cx_credit_guard.Prelude.{
  ℕ, ◌+◌, String, Bool, true, false, Option, none, some, List, [], ◌∷◌, str_eq, ltb, ◌==◌,
  first_where, if◌then◌else◌,
}
use v_cx_credit_guard.Model.Calendar.{earlier}
use v_cx_credit_guard.Model.Enums.{UsageView, same_view}
use v_cx_credit_guard.Model.Usage.{UsageSnapshot, UsageRecord, DimensionState}
use v_cx_credit_guard.Model.Database.{Db}

-- `ORDER BY collected_at DESC, id DESC`: whether `a` comes before `b`.
unfoldable pub newer : UsageSnapshot → UsageSnapshot → Bool
unfolding earlier
newer a b =
    if earlier b.collected_at a.collected_at
    then true
    else if earlier a.collected_at b.collected_at
    then false
    else ltb b.id a.id

-- The first row of the query, over the rows seen so far.
unfoldable pub newest : UsageView → Option UsageSnapshot → List UsageSnapshot → Option UsageSnapshot
unfolding newer
newest view best [] = best
newest view best (s ∷ rest) =
    newest view
      (if same_view s.view_by view
        then elim best [ none ↦ some s | some b ↦ if newer s b then some s else some b ]
        else best)
      rest

unfoldable pub latest_snapshot : Db → UsageView → Option UsageSnapshot
unfolding newest
latest_snapshot db view = newest view none db.snapshots

-- A dictionary of totals.
abbrev pub Totals : Type 0
Totals = List (String × ℕ)

-- One more row of a group: `SUM(credits_used) … GROUP BY entity_id`.
unfoldable pub add_total : String → ℕ → Totals → Totals
add_total id n [] = (id, n) ∷ []
add_total id n ((j, m) ∷ ts) =
    let rest = add_total id n ts in if str_eq j id then (j, m + n) ∷ ts else (j, m) ∷ rest

-- `totals.get(id)`
unfoldable pub total_of : String → Totals → Option ℕ
total_of id [] = none
total_of id ((j, m) ∷ ts) = let rest = total_of id ts in if str_eq j id then some m else rest

-- The rows of the snapshot that are resolved to an entity; an empty id is left out of the result.
unfoldable pub sum_rows : ℕ → List UsageRecord → Totals
unfolding add_total
sum_rows snapshot_id [] = []
sum_rows snapshot_id (r ∷ rows) =
    let rest = sum_rows snapshot_id rows in
    if r.snapshot_id == snapshot_id
    then elim r.entity_id [
      | none ↦ rest
      | some id ↦ if str_eq id "" then rest else add_total id r.credits_used rest
    ]
    else rest

unfoldable pub latest_totals : Db → UsageView → Totals
unfolding latest_snapshot sum_rows
latest_totals db view = elim (latest_snapshot db view) [
  | none ↦ []
  | some s ↦ sum_rows s.id db.records
]

-- True unless a probe has established that the dimension is absent.
unfoldable pub dimension_supported : Db → UsageView → Bool
dimension_supported db view =
    elim (first_where (λ (d : DimensionState). same_view d.view_by view) db.dimensions) [
      | none ↦ true
      | some d ↦ elim d.supported [ none ↦ true | some b ↦ b ]
    ]
