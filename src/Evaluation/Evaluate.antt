-- ===== src/Evaluation/Evaluate.antt =====
-- evaluation.py, `evaluate_all` and `_evaluate_one`: refresh the period state, then warn, enforce or
-- restore. `client` is `none` for an evaluation that cannot write to the tenant.
use v_cx_credit_guard.Prelude.{
  ℕ, ◌+◌, pos, negsuc, String, Bool, true, false, not, ◌||◌, Option, none, some, List, [], ◌∷◌,
  ◌++◌, concat, str, ◌==◌, select, exists_where, or_else, length, if◌then◌else◌,
}
use v_cx_credit_guard.Exec.{
  checkmarx, period_error, limit_error, value_error, fallback_detected, internal, Exec, Result, ok,
  err, pure, raise, gets, modify, ◌>>=◌, ◌>>◌,
}
use v_cx_credit_guard.Model.Calendar.{DateTime}
use v_cx_credit_guard.Model.Enums.{
  LimitStatus, warned, breached, restricted, restored, is_restricted_or_breached, warning,
}
use v_cx_credit_guard.Model.Limits.{CreditLimit, LimitPeriodState}
use v_cx_credit_guard.Model.Log.{AuditActor}
use v_cx_credit_guard.Model.Database.{Db, World}
use v_cx_credit_guard.Periods.{PeriodWindow, current_window}
use v_cx_credit_guard.Checkmarx.{Remote}
use v_cx_credit_guard.Feed.{notify, category_sync_error}
use v_cx_credit_guard.Usage.Index.{UsageIndex, usage_index, reported_total}
use v_cx_credit_guard.Enforcement.Plan.{is_exempt}
use v_cx_credit_guard.Enforcement.Messages.{entity_shown}
use v_cx_credit_guard.Enforcement.Apply.{EnforcementOutcome, apply_enforcement}
use v_cx_credit_guard.Enforcement.Restore.{fresh_resolver, restores, restore_for_limit}
use v_cx_credit_guard.Evaluation.Result.{
  Percent, ratio, full, LimitEvaluation, EvaluationResult, no_result,
}
use v_cx_credit_guard.Evaluation.State.{
  put_state, get_or_create_state, refresh, reaches_limit, reaches_threshold,
}
use v_cx_credit_guard.Evaluation.Messages.{Printing, notify_warning, notify_breach}
use v_cx_credit_guard.Evaluation.Rollover.{close_stale_periods}

-- `_has_active_enforcement`
unfoldable pub has_active_enforcement : Db → ℕ → String → Bool
has_active_enforcement db limit_id key = exists_where (restores limit_id (some key)) db.actions

unfoldable pub percent_of : ℕ → CreditLimit → Percent
percent_of used limit = elim limit.credit_limit [
  | pos n ↦ if n == 0 then full else ratio used n
  | negsuc n ↦ full
]

-- What the branches of `_evaluate_one` hand back: the limit's evaluation and the run's counters.
abbrev pub Verdict : Type 0
Verdict = LimitEvaluation × EvaluationResult

-- `limit ↦ …` of an evaluation that stops before the budget is looked at.
abbrev pub skipped_with :
    CreditLimit → PeriodWindow → LimitPeriodState → ℕ → Bool → String → LimitEvaluation
skipped_with limit window s used available note = record {
  limit = limit;
  period = window;
  state = s;
  credits_used = used;
  usage_available = available;
  status = s.status;
  percent_used = none;
  newly_warned = false;
  newly_breached = false;
  enforced = none;
  note = some note;
}

abbrev pub open_evaluation : CreditLimit → PeriodWindow → LimitPeriodState → LimitEvaluation
open_evaluation limit window s = record {
  limit = limit;
  period = window;
  state = s;
  credits_used = s.credits_used;
  usage_available = true;
  status = s.status;
  percent_used = some (percent_of s.credits_used limit);
  newly_warned = false;
  newly_breached = false;
  enforced = none;
  note = none;
}

-- A branch ends by writing the state and by copying its status.
unfoldable pub finish :
    {T : Type 0} → LimitPeriodState → LimitEvaluation → EvaluationResult → Exec (World T) Verdict
finish s e result = do
  modify (put_state s)
  pure (record e { state = s; status = s.status }, result)

-- After `apply_enforcement`: restricted if anything was applied in this run.
abbrev pub after_enforcement :
    LimitPeriodState
    → DateTime
    → EnforcementOutcome
    → EvaluationResult
    → LimitPeriodState × EvaluationResult
after_enforcement s moment o result = elim o.applied [
  | [] ↦ (s, result)
  | a ∷ rest ↦ (
    record s { status = restricted; restricted_at = some (or_else s.restricted_at moment) },
    record result { enforced = result.enforced + length o.applied },
  )
]

module _ {T : Type 0} (py : Printing) (client : Option (Remote T)) (limit : CreditLimit)
    (window : PeriodWindow) (actor : AuditActor) where
  -- The breach is announced once in a period: where `breached_at` is not set yet.
  unfoldable pub mark_breached :
      Option DateTime
      → LimitPeriodState
      → Bool
      → DateTime
      → EvaluationResult
      → Exec (World T) (LimitPeriodState × Bool × EvaluationResult)
  mark_breached (some t) s exempt moment result =
      pure (record s { status = breached }, false, result)
  mark_breached none s exempt moment result = do
    let s' : LimitPeriodState = record s { status = breached; breached_at = some moment }
    notify_breach py limit s' window exempt
    pure (s', true, record result { breached = result.breached + 1 })

  unfoldable pub enforce_breach :
      LimitPeriodState
      → LimitEvaluation
      → Bool
      → DateTime
      → EvaluationResult
      → Exec (World T) Verdict
  enforce_breach s e exempt moment result =
      if exempt
      then finish s (record e { note = some "Exempt from enforcement." }) result
      else if not limit.enforce
      then finish s (record e { note = some "Monitor only, no action taken." })
          (record result { monitor_only = result.monitor_only + 1 })
      else elim client [
        | none ↦
            finish s
              (record e { note = some "No Checkmarx connection available, enforcement deferred." })
              result
        | some api ↦ do
          o ← apply_enforcement api limit window.key actor
          let (s', result') = after_enforcement s moment o result
          finish s' (record e { enforced = some o }) result'
      ]

  -- `credits_used >= credit_limit`
  unfoldable pub over_budget :
      LimitPeriodState → Bool → DateTime → EvaluationResult → Exec (World T) Verdict
  over_budget s exempt moment result = do
    (s', newly, result') ← mark_breached s.breached_at s exempt moment result
    enforce_breach s' (record (open_evaluation limit window s) { newly_breached = newly }) exempt
        moment result'

  -- The warning is announced once in a period: where `warned_at` is not set yet.
  unfoldable pub mark_warned :
      Option DateTime
      → LimitPeriodState
      → LimitEvaluation
      → DateTime
      → EvaluationResult
      → Exec (World T) Verdict
  mark_warned (some t) s e moment result = finish (record s { status = warned }) e result
  mark_warned none s e moment result = do
    let s' : LimitPeriodState = record s { status = warned; warned_at = some moment }
    notify_warning py limit s' window (percent_of s.credits_used limit)
    finish s' (record e { newly_warned = true }) (record result { warned = result.warned + 1 })

  -- Below the limit, with nothing restored: warned above the threshold, else in order.
  unfoldable pub settle :
      LimitPeriodState → LimitEvaluation → DateTime → EvaluationResult → Exec (World T) Verdict
  settle s e moment result =
      if reaches_threshold s.credits_used limit
      then mark_warned s.warned_at s e moment result
      else finish (record s { status = LimitStatus.ok }) e result

  -- A state that says `restored` already is left alone.
  unfoldable pub settle_unless_restored :
      LimitStatus
      → LimitPeriodState
      → LimitEvaluation
      → DateTime
      → EvaluationResult
      → Exec (World T) Verdict
  settle_unless_restored restored s e moment result = finish s e result
  settle_unless_restored LimitStatus.ok s e moment result = settle s e moment result
  settle_unless_restored warned s e moment result = settle s e moment result
  settle_unless_restored breached s e moment result = settle s e moment result
  settle_unless_restored restricted s e moment result = settle s e moment result

  -- Below the limit: what an earlier breach of this period restricted is restored.
  unfoldable pub within_budget :
      LimitPeriodState → DateTime → EvaluationResult → Exec (World T) Verdict
  within_budget s moment result = do
    let e = open_evaluation limit window s
    active ← gets (λ w. has_active_enforcement w.db limit.id window.key)
    if is_restricted_or_breached s.status || active
        then elim client [
          | none ↦
              settle_unless_restored s.status s
                (record e {
                  note = some "No Checkmarx connection available, restoration deferred.";
                })
                moment result
          | some api ↦ do
            count ← restore_for_limit api actor "credit_increased" limit.id (some window.key)
            if count == 0
                then settle_unless_restored s.status s e moment result
                else finish (record s { restored_at = some moment; status = restored }) e
                    (record result { restored = result.restored + count })
        ]
        else settle_unless_restored s.status s e moment result

  -- From the refreshed state on.
  unfoldable pub evaluate_state :
      LimitPeriodState → Bool → DateTime → EvaluationResult → Exec (World T) Verdict
  evaluate_state s available moment result =
      if not available
      then (let s' : LimitPeriodState = record s { status = LimitStatus.ok } in
          finish s'
            (skipped_with limit window s' 0 false
              "Checkmarx does not report consumption for this entity level on this tenant, so the limit is not evaluated.")
            (record result { unavailable = result.unavailable + 1 }))
      else if not window.is_active
      then (let s' : LimitPeriodState = record s { status = LimitStatus.ok } in
          finish s'
            (skipped_with limit window s' s.credits_used true
              "The custom period for this limit is not currently open.")
            result)
      else do
        exempt ← gets (λ w. is_exempt w.db limit.entity_type limit.entity_id)
        if reaches_limit s.credits_used limit
            then over_budget s exempt moment result
            else within_budget s moment result

  -- `_evaluate_one`, in the window of the moment.
  unfoldable pub evaluate_in_window :
      ℕ → Bool → DateTime → EvaluationResult → Exec (World T) Verdict
  evaluate_in_window total available moment result = do
    result' ← close_stale_periods client limit actor window.key result
    s ← get_or_create_state limit window total available
    let s' = refresh s total available moment
    modify (put_state s')
    evaluate_state s' available moment result'

abbrev pub count_evaluation : Verdict → EvaluationResult
count_evaluation (e, result) = record result {
  evaluated = result.evaluated + 1;
  evaluations = result.evaluations ++ e ∷ [];
}

module _ {T : Type 0} (py : Printing) (client : Option (Remote T)) (actor : AuditActor) where
  unfoldable pub evaluate_within :
      UsageIndex
      → DateTime
      → CreditLimit
      → EvaluationResult
      → Result PeriodWindow
      → Exec (World T) Verdict
  evaluate_within index moment limit result (err e) = raise e
  evaluate_within index moment limit result (ok window) =
      let (total, available) = reported_total index limit in
      evaluate_in_window py client limit window actor total available moment result

  -- `_evaluate_one`
  unfoldable pub evaluate_one :
      UsageIndex → DateTime → CreditLimit → EvaluationResult → Exec (World T) Verdict
  evaluate_one index moment limit result =
      evaluate_within index moment limit result (current_window limit moment)

  -- `except PeriodError`: the limit is reported as misconfigured.
  unfoldable pub report_misconfigured :
      CreditLimit → String → EvaluationResult → Exec (World T) EvaluationResult
  report_misconfigured limit text result = do
    _ ← notify (record {
      category = category_sync_error;
      severity = warning;
      title = concat ("Limit on " ∷ entity_shown limit ∷ " is misconfigured" ∷ []);
      body = some text;
      entity_type = some limit.entity_type;
      entity_id = some limit.entity_id;
      entity_label = limit.entity_label;
      dedupe_key = some (concat ("badperiod:" ∷ str limit.id ∷ []));
      enforcement_action_id = none;
    })
    pure (record result {
      errors = result.errors ++ concat ("limit " ∷ str limit.id ∷ ": " ∷ text ∷ []) ∷ [];
    })

  -- How the `try` of the loop's body goes on: only `PeriodError` is handled.
  unfoldable pub conclude :
      CreditLimit → EvaluationResult → Result Verdict → Exec (World T) EvaluationResult
  conclude limit result (ok v) = pure (count_evaluation v)
  conclude limit result (err (period_error text)) = report_misconfigured limit text result
  conclude limit result (err (checkmarx k text)) = raise (checkmarx k text)
  conclude limit result (err (limit_error text)) = raise (limit_error text)
  conclude limit result (err (value_error text)) = raise (value_error text)
  conclude limit result (err (fallback_detected text)) = raise (fallback_detected text)
  conclude limit result (err (internal text)) = raise (internal text)

  -- The body of the loop of `evaluate_all`.
  unfoldable pub evaluate_limit :
      UsageIndex → DateTime → CreditLimit → EvaluationResult → Exec (World T) EvaluationResult
  evaluate_limit index moment limit result w =
      let (r, w') = evaluate_one index moment limit result w in conclude limit result r w'

  unfoldable pub evaluate_each :
      UsageIndex → DateTime → List CreditLimit → EvaluationResult → Exec (World T) EvaluationResult
  evaluate_each index moment [] result = pure result
  evaluate_each index moment (l ∷ limits) result =
      evaluate_limit index moment l result >>= evaluate_each index moment limits

  unfoldable pub evaluate_all : DateTime → Exec (World T) EvaluationResult
  evaluate_all moment w =
      let index = usage_index w.db in
      let limits = select (λ (l : CreditLimit). l.is_active) w.limits in
      fresh_resolver (evaluate_each index moment limits no_result) w
