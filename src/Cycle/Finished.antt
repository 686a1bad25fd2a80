-- ===== src/Cycle/Finished.antt =====
-- cycle.py: how a cycle ends, whatever the tenant and the services do.
use v_cx_credit_guard.Prelude.{
  ℕ, ◌≡◌, refl, ◌++◌, exists_where, arith, inl, inr, String, Bool, true, false, ◌&&◌, Option, some,
  List, [], ◌∷◌, ◌==◌, ==_iff, slice_to, modify_where, All, Bool-cases,
}
use v_cx_credit_guard.Exec.{Exec, Result, ok, err}
use v_cx_credit_guard.Model.Calendar.{DateTime}
use v_cx_credit_guard.Model.Enums.{RunStatus, failed}
use v_cx_credit_guard.Model.Usage.{SchedulerRun, SchedulerLock}
use v_cx_credit_guard.Model.Database.{World}
use v_cx_credit_guard.Cycle.Lock.{lock_name, named, is_own, acquire_lock, release_lock}
use v_cx_credit_guard.Cycle.Steps.{Services, CycleResult, new_result, execute_steps}
use v_cx_credit_guard.Cycle.Run.{
  CycleOutcome, locked_out, completed, crashed, Store, session_scope, add_run, started, finish_run,
  conclude_run, run_locked, run_cycle,
}

abbrev pub has_run : ℕ → List SchedulerRun → Bool
has_run id rows = exists_where (λ r. r.id == id) rows

-- There is a row of the run, and it says what the outcome says.
abbrev pub IsRecorded : DateTime → CycleOutcome → List SchedulerRun → Type 0
IsRecorded now (locked_out id) rows = ⊥
IsRecorded now (completed id r) rows =
    (has_run id rows ≡ true)
    × All
        (λ (row : SchedulerRun).
          row.id ≡ id → (row.finished_at ≡ some now) × (row.status ≡ r.status))
        rows
IsRecorded now (crashed id text) rows =
    (has_run id rows ≡ true)
    × All
        (λ (row : SchedulerRun).
          row.id ≡ id
          → (row.finished_at ≡ some now)
            × (row.status ≡ failed)
            × (row.error ≡ some (slice_to 4000 text)))
        rows

finished_rows :
    (id : ℕ) (now : DateTime) (status : RunStatus) (text : Option String) (rows : List SchedulerRun)
    → All
        (λ (row : SchedulerRun).
          row.id ≡ id → (row.finished_at ≡ some now) × (row.status ≡ status) × (row.error ≡ text))
        (modify_where
          (λ (r : SchedulerRun). r.id == id)
          (λ r. record r { finished_at = some now; status = status; error = text })
          rows)
finished_rows id now status text [] = tt
finished_rows id now status text (row ∷ rows) = elim (Bool-cases (row.id == id)) [
  | inl own ↦ rw own ((λ _. (refl, refl, refl)), finished_rows id now status text rows)
  | inr other ↦
      rw other ((λ e. cc (other, (==_iff row.id id).1 e)), finished_rows id now status text rows)
]

All-map :
    {A : Type 0} (P Q : A → Type 0) (rows : List A)
    → ((a : A) → P a → Q a)
    → All P rows
    → All Q rows
All-map P Q [] f h = tt
All-map P Q (a ∷ rows) f h = (f a h.0, All-map P Q rows f h.1)

has_run-finished :
    (id : ℕ) (now : DateTime) (status : RunStatus) (text : Option String) (rows : List SchedulerRun)
    → has_run id rows ≡ true
    → has_run id (
        modify_where
          (λ (r : SchedulerRun). r.id == id)
          (λ r. record r { finished_at = some now; status = status; error = text })
          rows)
      ≡ true
has_run-finished id now status text [] there = there
has_run-finished id now status text (row ∷ rows) there = elim (Bool-cases (row.id == id)) [
  | inl own ↦ ground arith
  | inr other ↦ ground (arith, has_run-finished id now status text rows)
]

has_run-append :
    (id : ℕ) (run : SchedulerRun) (rows : List SchedulerRun)
    → run.id ≡ id
    → has_run id (rows ++ run ∷ []) ≡ true
has_run-append id run [] e = rw ((==_iff run.id id).1 e) refl
has_run-append id run (row ∷ rows) e = ground (arith, has_run-append id run rows e)

-- The row is there where the steps return; where they raise, it is there again.
conclude_run-IsRecorded :
    {T : Type 0} (id : ℕ) (r : Result CycleResult) (w : World T)
    → has_run id w.runs ≡ true
    → let (outcome, after) = conclude_run id r w in IsRecorded after.now outcome after.runs
unfolding conclude_run finish_run
conclude_run-IsRecorded id (ok r) w there = (
  has_run-finished id w.now r.status _ w.runs there,
  All-map _ _ _ (λ row h e. let x = h e in (x.0, x.1)) (finished_rows id w.now r.status _ w.runs),
)
conclude_run-IsRecorded id (err e) w there =
    (has_run-finished id w.now failed _ w.runs there, finished_rows id w.now failed _ w.runs)

session_scope-has_run :
    {T A : Type 0} (id : ℕ) (m : Exec (World T) A) (w : World T)
    → has_run id w.runs ≡ true
    → ((a : A) (w' : World T) → m w ≡ (ok a, w') → has_run id w'.runs ≡ true)
    → has_run id (session_scope m w).1.runs ≡ true
unfolding session_scope
session_scope-has_run {T = T} {A = A} id m w there kept = go (m w) kept
  where
    go :
        (x : Result A × World T)
        → ((a : A) (w' : World T) → x ≡ (ok a, w') → has_run id w'.runs ≡ true)
        → has_run id (session_scope (λ _. x) w).1.runs ≡ true
    go (ok a, w') k = k a w' refl
    go (err e, w') k = there

-- No row of the name is held by the process.
abbrev pub IsReleased : String → List SchedulerLock → Type 0
IsReleased who locks = All (λ l. is_own lock_name who l ≡ false) locks

and_false : (b : Bool) → (b && false) ≡ false
and_false true = refl
and_false false = refl

release_lock-IsReleased :
    (who : String) (locks : List SchedulerLock) → IsReleased who (release_lock lock_name who locks)
unfolding release_lock
release_lock-IsReleased who [] = tt
release_lock-IsReleased who (l ∷ locks) = elim (Bool-cases (is_own lock_name who l)) [
  | inl own ↦ rw own (and_false (named lock_name l), release_lock-IsReleased who locks)
  | inr other ↦ rw other (other, release_lock-IsReleased who locks)
]

module _ {T F : Type 0} (services : Services T F) where
  run_locked-IsRecorded :
      (trigger : String) (force : Bool) (w : World T)
      → ((r : CycleResult) (w' : World T)
          → execute_steps services force new_result (add_run (started trigger w) w) ≡ (ok r, w')
          → has_run w.next_id w'.runs ≡ true)
      → let (outcome, after) = run_locked services trigger force w in
        IsRecorded after.now outcome after.runs
  unfolding run_locked add_run
  run_locked-IsRecorded trigger force w kept =
      let steps = execute_steps services force new_result in
      let begun = add_run (started trigger w) w in
      let x = session_scope steps begun in
      conclude_run-IsRecorded w.next_id x.0 x.1
        (session_scope-has_run w.next_id steps begun (has_run-append w.next_id _ w.runs refl) kept)

  -- When the cycle got the lock, the process does not hold it afterwards, and there is a row with the
  -- id of the run, finished with the status of the outcome, or as failed with the text of the
  -- exception, if the steps do not delete that row where they return. When it did not get the lock,
  -- the tenant is as it was, the lock table is what the attempt left, and the outcome says so.
  pub run_cycle-concludes :
      (holder trigger : String) (force : Bool) (s : Store T)
      → ((r : CycleResult) (w' : World T)
          → execute_steps services force new_result (add_run (started trigger s.world) s.world)
            ≡ (ok r, w')
          → has_run s.world.next_id w'.runs ≡ true)
      → let (got, locks) = acquire_lock lock_name s.world.now holder s.locks in
        let (outcome, after) = run_cycle services holder trigger force s in
        (got ≡ true
          → IsReleased holder after.locks × IsRecorded after.world.now outcome after.world.runs)
        × (got ≡ false
            → (outcome ≡ locked_out s.world.next_id)
              × (after.locks ≡ locks)
              × (after.world.tenant ≡ s.world.tenant))
  unfolding run_cycle add_run
  run_cycle-concludes holder trigger force s kept =
      elim (Bool-cases (acquire_lock lock_name s.world.now holder s.locks).0) [
        | inl yes_got ↦ rw yes_got (
          (λ _. (
            release_lock-IsReleased holder (acquire_lock lock_name s.world.now holder s.locks).1,
            run_locked-IsRecorded trigger force s.world kept,
          )),
          (λ e. cc (e)),
        )
        | inr lost ↦ rw lost ((λ e. cc (e)), (λ _. (refl, refl, refl)))
      ]
