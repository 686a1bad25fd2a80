-- ===== src/Evaluation/Soundness.antt =====
-- evaluation.py: the enforcement_action table through an evaluation run.
use v_cx_credit_guard.Prelude.{
  ℕ, ◌||◌, not, String, Bool, Option, none, some, List, [], ◌∷◌, ◌==◌, select, arith,
}
use v_cx_credit_guard.Exec.{
  checkmarx, period_error, limit_error, value_error, fallback_detected, internal, Exec, Result, ok,
  err, modify,
}
use v_cx_credit_guard.Exec.Contracts.{
  Keeps, Keeps-bind, Keeps-pure, Keeps-raise, Keeps-gets, Keeps-if,
}
use v_cx_credit_guard.Model.Calendar.{DateTime}
use v_cx_credit_guard.Model.Enums.{LimitStatus, restored, is_restricted, is_restricted_or_breached}
use v_cx_credit_guard.Model.Limits.{CreditLimit, LimitPeriodState}
use v_cx_credit_guard.Model.Log.{AuditActor}
use v_cx_credit_guard.Model.Database.{World}
use v_cx_credit_guard.Periods.{PeriodWindow, current_window}
use v_cx_credit_guard.Checkmarx.{Remote}
use v_cx_credit_guard.Usage.Index.{UsageIndex, usage_index}
use v_cx_credit_guard.Enforcement.Restore.{fresh_resolver}
use v_cx_credit_guard.Enforcement.Soundness.{
  HasSoundActions, Keeps-HasSoundActions, notify-HasSoundActions, apply_enforcement-HasSoundActions,
}
use v_cx_credit_guard.Enforcement.RestoreSoundness.{restore_for_limit-HasSoundActions}
use v_cx_credit_guard.Evaluation.Result.{LimitEvaluation, EvaluationResult, no_result}
use v_cx_credit_guard.Evaluation.State.{
  put_state, get_or_create_state, reaches_limit, reaches_threshold,
}
use v_cx_credit_guard.Evaluation.Messages.{Printing, notify_warning, notify_breach}
use v_cx_credit_guard.Evaluation.Rollover.{
  after_rollover, restore_stale, close_state, close_one, close_each, close_stale_periods,
}
use v_cx_credit_guard.Evaluation.Evaluate.{
  Verdict, finish, mark_breached, enforce_breach, over_budget, mark_warned, settle,
  settle_unless_restored, within_budget, evaluate_state, evaluate_in_window, evaluate_within,
  evaluate_one, report_misconfigured, conclude, evaluate_limit, evaluate_each, evaluate_all,
}

module _ {T : Type 0} where
  abbrev Sound : {A : Type 0} → Exec (World T) A → Type 0
  Sound m = Keeps HasSoundActions m

  put_state-HasSoundActions : (s : LimitPeriodState) → Sound (modify (put_state s))
  unfolding put_state modify
  put_state-HasSoundActions s = record { at = λ w h. h }

  get_or_create_state-HasSoundActions :
      (l : CreditLimit) (p : PeriodWindow) (total : ℕ) (available : Bool)
      → Sound (get_or_create_state l p total available)
  unfolding get_or_create_state
  get_or_create_state-HasSoundActions l p total available =
      Keeps-HasSoundActions λ rows n. record { at = λ w h. ground arith }

  finish-HasSoundActions :
      (s : LimitPeriodState) (e : LimitEvaluation) (r : EvaluationResult) → Sound (finish s e r)
  unfolding finish
  finish-HasSoundActions s e r = Keeps-bind (put_state-HasSoundActions s) λ _. Keeps-pure _

module _ {T : Type 0} (client : Option (Remote T)) (limit : CreditLimit) (actor : AuditActor) where
  after_rollover-HasSoundActions :
      (s : LimitPeriodState) (r : EvaluationResult) (x : Result ℕ)
      → Sound (after_rollover client limit actor s r x)
  unfolding after_rollover
  after_rollover-HasSoundActions s r (ok count) =
      Keeps-bind (Keeps-gets _) λ now. Keeps-bind (put_state-HasSoundActions _) λ _. Keeps-pure _
  after_rollover-HasSoundActions s r (err e) = Keeps-pure _

  restore_stale-HasSoundActions :
      (api : Remote T) (s : LimitPeriodState) (r : EvaluationResult)
      → Sound (restore_stale client limit actor api s r)
  unfolding restore_stale
  restore_stale-HasSoundActions api s r = record {
    at = λ w h. (after_rollover-HasSoundActions s r _).at _ (
        (restore_for_limit-HasSoundActions api actor "period_rollover" limit.id
            (some s.period_key)).at
          w h);
  }

  close_state-HasSoundActions :
      (s : LimitPeriodState) (r : EvaluationResult) → Sound (close_state client limit actor s r)
  unfolding close_state
  close_state-HasSoundActions s r = Keeps-bind (put_state-HasSoundActions _) λ _. Keeps-pure r

close_one-HasSoundActions :
    {T : Type 0} (client : Option (Remote T)) (limit : CreditLimit) (actor : AuditActor)
    (s : LimitPeriodState) (r : EvaluationResult)
    → Sound (close_one client limit actor s r)
unfolding close_one
close_one-HasSoundActions none limit actor s r =
    Keeps-if (is_restricted s.status)
      (Keeps-if limit.hold_until_released (Keeps-pure r)
        (close_state-HasSoundActions none limit actor s r))
      (close_state-HasSoundActions none limit actor s r)
close_one-HasSoundActions (some api) limit actor s r =
    Keeps-if (is_restricted s.status)
      (Keeps-if limit.hold_until_released (Keeps-pure r)
        (restore_stale-HasSoundActions (some api) limit actor api s r))
      (close_state-HasSoundActions (some api) limit actor s r)

module _ {T : Type 0} (client : Option (Remote T)) (limit : CreditLimit) (actor : AuditActor) where
  close_each-HasSoundActions :
      (states : List LimitPeriodState) (r : EvaluationResult)
      → Sound (close_each client limit actor states r)
  unfolding close_each
  close_each-HasSoundActions [] r = Keeps-pure r
  close_each-HasSoundActions (s ∷ states) r =
      Keeps-bind (close_one-HasSoundActions client limit actor s r)
        λ r'. close_each-HasSoundActions states r'

  close_stale_periods-HasSoundActions :
      (key : String) (r : EvaluationResult) → Sound (close_stale_periods client limit actor key r)
  unfolding close_stale_periods
  close_stale_periods-HasSoundActions key r =
      Keeps-bind (Keeps-gets _) λ stale. close_each-HasSoundActions stale r

module _ {T : Type 0} (py : Printing) (client : Option (Remote T)) (limit : CreditLimit)
    (window : PeriodWindow) (actor : AuditActor) where
  mark_breached-HasSoundActions :
      (b : Option DateTime) (s : LimitPeriodState) (x : Bool) (t : DateTime) (r : EvaluationResult)
      → Sound (mark_breached py client limit window actor b s x t r)
  unfolding mark_breached notify_breach
  mark_breached-HasSoundActions (some b) s x t r = Keeps-pure _
  mark_breached-HasSoundActions none s x t r =
      Keeps-bind (Keeps-bind (notify-HasSoundActions _) λ _. Keeps-pure tt) λ _. Keeps-pure _

  mark_warned-HasSoundActions :
      (b : Option DateTime) (s : LimitPeriodState) (e : LimitEvaluation) (t : DateTime)
      (r : EvaluationResult)
      → Sound (mark_warned py client limit window actor b s e t r)
  unfolding mark_warned notify_warning
  mark_warned-HasSoundActions (some b) s e t r = finish-HasSoundActions _ e r
  mark_warned-HasSoundActions none s e t r =
      Keeps-bind (Keeps-bind (notify-HasSoundActions _) λ _. Keeps-pure tt)
        λ _. finish-HasSoundActions _ _ _

  settle-HasSoundActions :
      (s : LimitPeriodState) (e : LimitEvaluation) (t : DateTime) (r : EvaluationResult)
      → Sound (settle py client limit window actor s e t r)
  unfolding settle
  settle-HasSoundActions s e t r =
      Keeps-if (reaches_threshold s.credits_used limit)
        (mark_warned-HasSoundActions s.warned_at s e t r) (finish-HasSoundActions _ e r)

  settle_unless_restored-HasSoundActions :
      (st : LimitStatus) (s : LimitPeriodState) (e : LimitEvaluation) (t : DateTime)
      (r : EvaluationResult)
      → Sound (settle_unless_restored py client limit window actor st s e t r)
  unfolding settle_unless_restored
  settle_unless_restored-HasSoundActions restored s e t r = finish-HasSoundActions s e r
  settle_unless_restored-HasSoundActions _ s e t r = settle-HasSoundActions s e t r

module _ {T : Type 0} (py : Printing) (limit : CreditLimit) (window : PeriodWindow)
    (actor : AuditActor) where
  enforce_breach-HasSoundActions :
      (client : Option (Remote T)) (s : LimitPeriodState) (e : LimitEvaluation) (x : Bool)
      (t : DateTime) (r : EvaluationResult)
      → Sound (enforce_breach py client limit window actor s e x t r)
  unfolding enforce_breach
  enforce_breach-HasSoundActions none s e x t r =
      Keeps-if x (finish-HasSoundActions s _ r)
        (Keeps-if (not limit.enforce) (finish-HasSoundActions s _ _) (finish-HasSoundActions s _ r))
  enforce_breach-HasSoundActions (some api) s e x t r = Keeps-if x (finish-HasSoundActions s _ r) (
      Keeps-if (not limit.enforce) (finish-HasSoundActions s _ _) (
        Keeps-bind (apply_enforcement-HasSoundActions api limit window.key actor)
          λ o. finish-HasSoundActions _ _ _))

  over_budget-HasSoundActions :
      (client : Option (Remote T)) (s : LimitPeriodState) (x : Bool) (t : DateTime)
      (r : EvaluationResult)
      → Sound (over_budget py client limit window actor s x t r)
  unfolding over_budget
  over_budget-HasSoundActions client s x t r =
      Keeps-bind (mark_breached-HasSoundActions py client limit window actor s.breached_at s x t r)
        λ (s', newly, r'). enforce_breach-HasSoundActions client s' _ x t r'

  within_budget-HasSoundActions :
      (client : Option (Remote T)) (s : LimitPeriodState) (t : DateTime) (r : EvaluationResult)
      → Sound (within_budget py client limit window actor s t r)
  unfolding within_budget
  within_budget-HasSoundActions none s t r = Keeps-bind (Keeps-gets _) λ active.
      Keeps-if (is_restricted_or_breached s.status || active)
        (settle_unless_restored-HasSoundActions py none limit window actor s.status s _ t r)
        (settle_unless_restored-HasSoundActions py none limit window actor s.status s _ t r)
  within_budget-HasSoundActions (some api) s t r = Keeps-bind (Keeps-gets _) λ active.
      Keeps-if (is_restricted_or_breached s.status || active)
        (Keeps-bind
          (restore_for_limit-HasSoundActions api actor "credit_increased" limit.id
            (some window.key))
          λ count.
            Keeps-if (count == 0)
              (settle_unless_restored-HasSoundActions py (some api) limit window actor s.status s _
                t r)
              (finish-HasSoundActions _ _ _))
        (settle_unless_restored-HasSoundActions py (some api) limit window actor s.status s _ t r)

  module _ (client : Option (Remote T)) where
    evaluate_state-HasSoundActions :
        (s : LimitPeriodState) (available : Bool) (t : DateTime) (r : EvaluationResult)
        → Sound (evaluate_state py client limit window actor s available t r)
    unfolding evaluate_state
    evaluate_state-HasSoundActions s available t r =
        Keeps-if (not available) (finish-HasSoundActions _ _ _) (
          Keeps-if (not window.is_active) (finish-HasSoundActions _ _ r) (
            Keeps-bind (Keeps-gets _) λ exempt.
              Keeps-if (reaches_limit s.credits_used limit)
                (over_budget-HasSoundActions client s exempt t r)
                (within_budget-HasSoundActions client s t r)))

    evaluate_in_window-HasSoundActions :
        (total : ℕ) (available : Bool) (t : DateTime) (r : EvaluationResult)
        → Sound (evaluate_in_window py client limit window actor total available t r)
    unfolding evaluate_in_window
    evaluate_in_window-HasSoundActions total available t r =
        Keeps-bind (close_stale_periods-HasSoundActions client limit actor window.key r) λ r'.
          Keeps-bind (get_or_create_state-HasSoundActions limit window total available) λ s.
            Keeps-bind (put_state-HasSoundActions _)
              λ _. evaluate_state-HasSoundActions _ available t r'

module _ {T : Type 0} (py : Printing) (client : Option (Remote T)) (actor : AuditActor) where
  evaluate_within-HasSoundActions :
      (i : UsageIndex) (t : DateTime) (l : CreditLimit) (r : EvaluationResult)
      (window : Result PeriodWindow)
      → Sound (evaluate_within py client actor i t l r window)
  unfolding evaluate_within
  evaluate_within-HasSoundActions i t l r (err e) = Keeps-raise e
  evaluate_within-HasSoundActions i t l r (ok window) =
      evaluate_in_window-HasSoundActions py l window actor client _ _ t r

  conclude-HasSoundActions :
      (l : CreditLimit) (r : EvaluationResult) (x : Result Verdict)
      → Sound (conclude py client actor l r x)
  unfolding conclude report_misconfigured
  conclude-HasSoundActions l r (ok v) = Keeps-pure _
  conclude-HasSoundActions l r (err (period_error text)) =
      Keeps-bind (notify-HasSoundActions _) λ _. Keeps-pure _
  conclude-HasSoundActions l r (err (checkmarx k text)) = Keeps-raise _
  conclude-HasSoundActions l r (err (limit_error text)) = Keeps-raise _
  conclude-HasSoundActions l r (err (value_error text)) = Keeps-raise _
  conclude-HasSoundActions l r (err (fallback_detected text)) = Keeps-raise _
  conclude-HasSoundActions l r (err (internal text)) = Keeps-raise _

  evaluate_limit-HasSoundActions :
      (i : UsageIndex) (t : DateTime) (l : CreditLimit) (r : EvaluationResult)
      → Sound (evaluate_limit py client actor i t l r)
  unfolding evaluate_limit evaluate_one
  evaluate_limit-HasSoundActions i t l r = record {
    at = λ w h.
        (conclude-HasSoundActions l r _).at _
          ((evaluate_within-HasSoundActions i t l r (current_window l t)).at w h);
  }

  evaluate_each-HasSoundActions :
      (i : UsageIndex) (t : DateTime) (limits : List CreditLimit) (r : EvaluationResult)
      → Sound (evaluate_each py client actor i t limits r)
  unfolding evaluate_each
  evaluate_each-HasSoundActions i t [] r = Keeps-pure r
  evaluate_each-HasSoundActions i t (l ∷ limits) r =
      Keeps-bind (evaluate_limit-HasSoundActions i t l r)
        λ r'. evaluate_each-HasSoundActions i t limits r'

  -- A run of `evaluate_all` over every active limit, whatever the tenant answers, leaves ids and
  -- idempotency keys unique, and every applied action with a snapshot that holds each value that
  -- undoing the kind of change named by its key reads.
  pub evaluate_all-HasSoundActions :
      (t : DateTime) (w : World T)
      → HasSoundActions w
      → HasSoundActions (evaluate_all py client actor t w).1
  unfolding evaluate_all fresh_resolver
  evaluate_all-HasSoundActions t w h =
      (evaluate_each-HasSoundActions (usage_index w.db) t
          (select (λ (l : CreditLimit). l.is_active) w.limits) no_result).at
        (record w { resolver_uuid = none }) h
