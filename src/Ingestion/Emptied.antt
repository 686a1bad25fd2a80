-- ===== src/Ingestion/Emptied.antt =====
-- ingestion.py: what is left in the database when the first request of a dimension fails.
use v_cx_credit_guard.Prelude.{
  ℕ, ◌<◌, ◌≡◌, refl, ap, ◌∙◌, inl, inr, String, Bool, true, false, Option, none, some, List, [],
  ◌∷◌, ◌++◌, ltb, ◌==◌, All, arith, Bool-cases, if◌then◌else◌,
}
use v_cx_credit_guard.Exec.{Error, Result, err, gets, modify, pure, ◌>>=◌}
use v_cx_credit_guard.Model.Calendar.{DateTime, earlier}
use v_cx_credit_guard.Model.Enums.{UsageView, same_view}
use v_cx_credit_guard.Model.Usage.{UsageSnapshot, UsageRecord}
use v_cx_credit_guard.Model.Database.{World}
use v_cx_credit_guard.Checkmarx.{remote}
use v_cx_credit_guard.Consumption.{ParsedUsagePage, fetch_usage}
use v_cx_credit_guard.Usage.Reading.{newer, newest, latest_snapshot, latest_totals, sum_rows}
use v_cx_credit_guard.Ingestion.Dimension.{
  Setting, empty_snapshot, open_snapshot, store_pages, ingest_dimension,
}

-- The rows that a run finds: none is numbered or dated ahead.
abbrev pub IsEarlierRow : DateTime → ℕ → UsageSnapshot → Type 0
IsEarlierRow now n s = (earlier now s.collected_at ≡ false) × (s.id < n)

abbrev Beaten : UsageSnapshot → Option UsageSnapshot → Type 0
Beaten s none = Unit
Beaten s (some b) = newer s b ≡ true

newest-append :
    (view : UsageView) (xs ys : List UsageSnapshot) (best : Option UsageSnapshot)
    → newest view best (xs ++ ys) ≡ newest view (newest view best xs) ys
unfolding newest
newest-append view [] ys best = refl
newest-append view (x ∷ xs) ys best = newest-append view xs ys _

newest-Beaten :
    (view : UsageView) (s : UsageSnapshot) (xs : List UsageSnapshot) (best : Option UsageSnapshot)
    → Beaten s best
    → All (λ x. newer s x ≡ true) xs
    → Beaten s (newest view best xs)
unfolding newest
newest-Beaten view s [] best b h = b
newest-Beaten view s (x ∷ xs) best b h =
    newest-Beaten view s xs _ (step (same_view x.view_by view) best b) h.1
  where
    step :
        (v : Bool) (o : Option UsageSnapshot)
        → Beaten s o
        → Beaten s (
            if v
            then elim o [ none ↦ some x | some c ↦ if newer x c then some x else some c ]
            else o)
    step true none c = h.0
    step true (some y) c = elim (Bool-cases (newer x y)) [ inl e ↦ rw e h.0 | inr e ↦ rw e c ]
    step false o c = c

-- A newer row of the view at the end of the table is the newest one.
newest-last :
    (view : UsageView) (s : UsageSnapshot) (xs : List UsageSnapshot)
    → same_view s.view_by view ≡ true
    → All (λ x. newer s x ≡ true) xs
    → newest view none (xs ++ s ∷ []) ≡ some s
unfolding newest
newest-last view s xs v h =
    newest-append view xs (s ∷ []) none
    ∙ step (newest view none xs) (newest-Beaten view s xs none tt h)
  where
    step : (o : Option UsageSnapshot) → Beaten s o → newest view o (s ∷ []) ≡ some s
    step none b = rw v refl
    step (some y) b = rw (v, b) refl

earlier_rows :
    (now : DateTime) (n : ℕ) (s : UsageSnapshot) (xs : List UsageSnapshot)
    → s.collected_at ≡ now
    → s.id ≡ n
    → All (IsEarlierRow now n) xs
    → All (λ x. newer s x ≡ true) xs
unfolding newer
earlier_rows now n s [] t i h = tt
earlier_rows now n s (x ∷ xs) t i h = (
  step (earlier x.collected_at s.collected_at) {older = earlier s.collected_at x.collected_at}
      {higher = ltb x.id s.id} (rw t h.0.0) (ground (arith, i, h.0.1)),
  earlier_rows now n s xs t i h.1,
)
  where
    step :
        (later : Bool) {older higher : Bool}
        → older ≡ false
        → higher ≡ true
        → (if later then true else if older then false else higher) ≡ true
    step true o h = refl
    step false o h = rw (o, h) refl

unread_rows :
    (n : ℕ) (rows : List UsageRecord)
    → All (λ (r : UsageRecord). r.snapshot_id < n) rows
    → sum_rows n rows ≡ []
unfolding sum_rows
unread_rows n [] h = refl
unread_rows n (r ∷ rows) h =
    let other : (r.snapshot_id == n) ≡ false = ground arith in rw other (unread_rows n rows h.1)

same_view_refl : (v : UsageView) → same_view v v ≡ true
same_view_refl UsageView.user = refl
same_view_refl UsageView.action = refl
same_view_refl UsageView.application = refl
same_view_refl UsageView.project = refl
same_view_refl UsageView.group = refl

module _ {T F : Type 0} (setting : Setting T F) where
  open setting use {python, client, period_param, page_size}

  -- When a request of a dimension fails, `_ingest_dimension` raises the failure on, and the empty
  -- snapshot that it had written before the first request is the newest one of the dimension: the
  -- totals that are read back are empty, whatever earlier snapshots reported. No row of the
  -- database is dated after the call or has an id that was not given yet.
  pub ingest_dimension-emptied :
      (view : UsageView) (fingerprint : Option (List String)) (w : World T) (e : Error) (t : T)
      → All (IsEarlierRow w.now w.next_id) w.snapshots
      → All (λ (r : UsageRecord). r.snapshot_id < w.next_id) w.records
      → fetch_usage python client period_param page_size view w.tenant ≡ (err e, t)
      → let result = ingest_dimension setting view fingerprint w in
        (result.0 ≡ err e) × (result.1.records ≡ w.records) × (latest_totals result.1.db view ≡ [])
  unfolding ingest_dimension open_snapshot latest_totals latest_snapshot gets modify pure ◌>>=◌
      remote
  ingest_dimension-emptied view fingerprint w e t rows unread fails =
      let w' = (open_snapshot setting view w).1 in
      let run : ingest_dimension setting view fingerprint w ≡ (err e, record w' { tenant = t }) =
        ap
          (λ (x : Result (List ParsedUsagePage) × T).
            ((λ (v : World T). (x.0, record v { tenant = x.1 }))
                >>= store_pages setting w.next_id view fingerprint)
              w')
          fails in
      let newest_row =
        newest-last view (empty_snapshot setting view w) w.snapshots (same_view_refl view) (
          earlier_rows w.now w.next_id (empty_snapshot setting view w) w.snapshots refl refl
            rows) in
      rw run (refl, refl, rw newest_row (unread_rows w.next_id w.records unread))
