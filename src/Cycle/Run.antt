-- ===== src/Cycle/Run.antt =====
-- cycle.py, `run_cycle`: one session for the lock, one for the row of the run, one for the steps and
-- one for the outcome. The instant of the call stands for every reading of the clock. Of the errors
-- of a run that failed unexpectedly the outcome keeps the last one, which the row records.
use v_cx_credit_guard.Prelude.{
  ℕ, ◌+◌, String, Bool, Option, none, some, List, [], ◌∷◌, ◌++◌, join, slice_to, ◌==◌, modify_where,
  if◌then◌else◌,
}
use v_cx_credit_guard.Exec.{Exec, Result, ok, err, message}
use v_cx_credit_guard.Model.Enums.{RunStatus, running, skipped, failed}
use v_cx_credit_guard.Model.Usage.{SchedulerRun, SchedulerLock}
use v_cx_credit_guard.Model.Database.{World}
use v_cx_credit_guard.Cycle.Lock.{lock_name, acquire_lock, release_lock}
use v_cx_credit_guard.Cycle.Steps.{Services, CycleResult, new_result, execute_steps}

pub data CycleOutcome : Type 0 where
  -- The lock is held; the row that says so.
  locked_out : ℕ → CycleOutcome
  completed : ℕ → CycleResult → CycleOutcome
  crashed : ℕ → String → CycleOutcome

pub record Store (T : Type 0) : Type 0 where
  pub world : World T
  pub locks : List SchedulerLock

-- `"; ".join(errors)[:4000] if errors else None`
unfoldable pub joined_errors : List String → Option String
unfolding join slice_to
joined_errors [] = none
joined_errors (e ∷ errors) = some (slice_to 4000 (join "; " (e ∷ errors)))

module _ {T : Type 0} where
  -- `session_scope`: an exception undoes what the session wrote, and goes on.
  unfoldable pub session_scope : {A : Type 0} → Exec (World T) A → Exec (World T) A
  session_scope m w =
      let (r, w') = m w in elim r [ ok a ↦ (ok a, w') | err e ↦ (err e, record w' { db = w.db }) ]

  unfoldable pub add_run : SchedulerRun → World T → World T
  add_run run w = record w {
    db = record w.db { next_id = w.next_id + 1; runs = w.runs ++ run ∷ [] };
  }

  abbrev pub started : String → World T → SchedulerRun
  started trigger w = record {
    id = w.next_id;
    kind = "cycle";
    trigger = trigger;
    started_at = w.now;
    finished_at = none;
    status = running;
    error = none;
  }

  -- The row of the run is written back, where it still exists.
  unfoldable pub finish_run : ℕ → RunStatus → Option String → World T → World T
  finish_run id status text w = record w {
    db = record w.db {
      runs =
          modify_where (λ (r : SchedulerRun). r.id == id)
            (λ r. record r { finished_at = some w.now; status = status; error = text }) w.runs;
    };
  }

  -- The end of the `try` and its `except Exception`.
  unfoldable pub conclude_run : ℕ → Result CycleResult → World T → CycleOutcome × World T
  unfolding finish_run joined_errors message slice_to
  conclude_run id (ok r) w = (
    completed id (record r { run_id = some id }),
    finish_run id r.status (joined_errors r.errors) w,
  )
  conclude_run id (err e) w =
      (crashed id (message e), finish_run id failed (some (slice_to 4000 (message e))) w)

module _ {T F : Type 0} (services : Services T F) where
  -- What the holder of the lock does.
  unfoldable pub run_locked : String → Bool → World T → CycleOutcome × World T
  unfolding add_run session_scope execute_steps conclude_run
  run_locked trigger force w =
      let id = w.next_id in
      let (r, w') =
        session_scope (execute_steps services force new_result) (add_run (started trigger w) w) in
      conclude_run id r w'

  unfoldable pub run_cycle : String → String → Bool → Store T → CycleOutcome × Store T
  unfolding acquire_lock release_lock add_run run_locked
  run_cycle holder trigger force s =
      let (got, locks) = acquire_lock lock_name s.world.now holder s.locks in
      let (outcome, w) = run_locked trigger force s.world in
      if got
      then (outcome, record { world = w; locks = release_lock lock_name holder locks })
      else (
        locked_out s.world.next_id,
        record {
          world =
              add_run
                (record (started trigger s.world) {
                  finished_at = some s.world.now;
                  status = skipped;
                })
                s.world;
          locks = locks;
        },
      )
