-- ===== src/Tests/Cycles.antt =====
-- The theorems on the cycle at concrete processes.
use v_cx_credit_guard.Prelude.{
  ℕ, ◌≡◌, ◌≢◌, refl, sym, ap, ◌∙◌, Bool, pos, String, true, false, some, [], ◌∷◌, eq_iff,
}
use v_cx_credit_guard.Exec.{Result, ok, err, checkmarx, auth, pure, raise, attempt, ◌>>=◌}
use v_cx_credit_guard.Model.Calendar.{earlier}
use v_cx_credit_guard.Model.Usage.{SchedulerLock}
use v_cx_credit_guard.Cycle.Lock.{acquire_lock, heartbeat, release_lock, stale_before, lock_name}
use v_cx_credit_guard.Cycle.Exclusion.{
  HoldsLock, perform_call, here, call, acquire, acquire_lock-excluded, acquire_lock-reclaims,
}
use v_cx_credit_guard.Cycle.Steps.{Services, CycleResult, new_result, execute_steps}
use v_cx_credit_guard.Cycle.Run.{Store, locked_out, add_run, started, run_cycle}
use v_cx_credit_guard.Cycle.Finished.{IsReleased, IsRecorded, has_run, run_cycle-concludes}
use v_cx_credit_guard.Model.Database.{World}
use v_cx_credit_guard.Tests.Fixtures.{Roles, plain_printing, november, november_first, fresh}
use v_cx_credit_guard.Tests.Collected.{ascii, hundredths}

abbrev held_lock : SchedulerLock
held_lock = record {
  name = "cycle";
  holder = some "one";
  acquired_at = some november_first;
  heartbeat_at = some november_first;
}

in_time : earlier november_first (stale_before november_first) ≡ false
unfolding earlier stale_before
in_time = refl

too_late : earlier november_first (stale_before november) ≡ true
unfolding earlier stale_before
too_late = refl

abbrev one : String
one = "one"

abbrev two : String
two = "two"

others : two ≢ one
others e = cc ((eq_iff two one).1 e)

acquire_lock-excluded_example :
    let after = perform_call "cycle" (acquire november_first "two") (held_lock ∷ []) in
    (after ≡ held_lock ∷ [])
    × (acquire_lock "cycle" november_first "two" after ≡ (false, held_lock ∷ []))
acquire_lock-excluded_example =
    acquire_lock-excluded "cycle" "one" "two" november_first november_first
      (refl, ((λ _. (refl, refl)), tt)) (call (acquire november_first "two") in_time here) in_time

acquire_lock-reclaims_example :
    let (got, after) = acquire_lock "cycle" november "two" (held_lock ∷ []) in
    (got ≡ true)
    × HoldsLock "cycle" "two" november after
    × (release_lock "cycle" "one" after ≡ after)
    × (heartbeat "cycle" november "one" after ≡ after)
acquire_lock-reclaims_example =
    acquire_lock-reclaims "cycle" "one" "two" november_first november november held_lock refl
      (λ _. (refl, refl)) too_late others

-- The tenant refuses the key.
abbrev services : Services Roles ℕ
services = record {
  get_client = raise (checkmarx auth "no");
  sync_org_model = λ client actor. pure [];
  deliver_pending = pure tt;
  usage_period = λ w. "last_year";
  usage_page_size = λ w. 100;
  org_refresh_minutes = λ w. 30;
  retention_days = λ w. pos 365;
  retention_text = λ w. "365";
  python = ascii;
  floats = hundredths;
  printing = plain_printing;
}

refused_steps :
    execute_steps services false new_result (add_run (started "schedule" fresh) fresh)
    ≡ (err (checkmarx auth "no"), add_run (started "schedule" fresh) fresh)
unfolding execute_steps raise attempt ◌>>=◌ add_run
refused_steps = refl

refused_never :
    (r : CycleResult) (w' : World Roles)
    → execute_steps services false new_result (add_run (started "schedule" fresh) fresh)
      ≡ (ok r, w')
    → has_run fresh.next_id w'.runs ≡ true
refused_never r w' returned = let e = sym refused_steps ∙ returned in cc (ap (λ x. is_ok x.0) e)
  where
    is_ok : {A : Type 0} → Result A → Bool
    is_ok (ok a) = true
    is_ok (err e) = false

abbrev idle : Store Roles
idle = record { world = fresh; locks = [] }

run_cycle-concludes_example :
    let (got, locks) = acquire_lock lock_name idle.world.now "one" idle.locks in
    let (outcome, after) = run_cycle services "one" "schedule" false idle in
    (got ≡ true
      → IsReleased "one" after.locks × IsRecorded after.world.now outcome after.world.runs)
    × (got ≡ false
        → (outcome ≡ locked_out idle.world.next_id)
          × (after.locks ≡ locks)
          × (after.world.tenant ≡ idle.world.tenant))
run_cycle-concludes_example = run_cycle-concludes services "one" "schedule" false idle refused_never
