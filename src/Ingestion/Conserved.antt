-- ===== src/Ingestion/Conserved.antt =====
-- ingestion.py: the credits of a response are the credits that are stored.
use v_cx_credit_guard.Prelude.{ℕ, ◌+◌, ◌≡◌, true, All}
use v_cx_credit_guard.Exec.{Exec, Result, err, ok}
use v_cx_credit_guard.Exec.Contracts.{Ensures}
use v_cx_credit_guard.Model.Usage.{UsageSnapshot}
use v_cx_credit_guard.Model.Database.{World}
use v_cx_credit_guard.Ingestion.Attribution.{DimensionResult}
use v_cx_credit_guard.Ingestion.Dimension
use v_cx_credit_guard.Ingestion.Sums.{credits_in, has_snapshot}

module _ {T F : Type 0} (setting : Dimension.Setting T F) (id : ℕ) where
  -- There is a row of the snapshot, its records hold `c` credits, and the result counts `c` credits.
  abbrev Holds : ℕ → World T → Type 0
  Holds c w = (credits_in id w.records ≡ c) × (has_snapshot id w.snapshots ≡ true)

  abbrev Counts : ℕ → DimensionResult → World T → Type 0
  Counts c r w = Holds c w × (r.total_credits ≡ c)

  -- The call returns, with `n` more credits.
  abbrev Adds : ℕ → ℕ → Exec (World T) DimensionResult → Type 0
  Adds c n m = Ensures (Holds c) m (Counts (c + n)) (λ _. ⊥)

  abbrev Stays : ℕ → Exec (World T) (Unit {0}) → Type 0
  Stays c m = Ensures (Holds c) m (λ _. Holds c) (λ _. ⊥)

  -- The run's snapshot is there, with the total `n`.
  abbrev HasTotal : ℕ → World T → Type 0
  HasTotal n w =
      (has_snapshot id w.snapshots ≡ true)
      × All (λ (s : UsageSnapshot). s.id ≡ id → s.total_credits ≡ n) w.snapshots

  -- The credits of the pages are those of the result, of the new records and of the snapshot.
  abbrev IsConserved : ℕ → DimensionResult → World T → Type 0
  IsConserved n r w = (r.total_credits ≡ n) × (credits_in id w.records ≡ n) × HasTotal n w

module _ {T F : Type 0} (setting : Dimension.Setting T F) where
  open setting use {python, client, period_param, page_size}

  -- The call has returned, and has conserved `n` credits in the snapshot `id`.
  abbrev pub Conserves : ℕ → ℕ → Result DimensionResult × World T → Type 0
  Conserves id n (ok r, w) = IsConserved setting id n r w
  Conserves id n (err e, w) = ⊥
