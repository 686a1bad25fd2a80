-- ===== src/Tests/Runs.antt =====
-- Runs of the model at fixed inputs.
use v_cx_credit_guard.Prelude.{◌≡◌, refl, true, some, [], ◌∷◌, map}
use v_cx_credit_guard.Model.Enums.{is_applied, is_restricted}
use v_cx_credit_guard.Model.Limits.{EnforcementAction, LimitPeriodState}
use v_cx_credit_guard.Tests.Fixtures.{api, plain_printing, november, robot, fresh}
use v_cx_credit_guard.Exec.{◌>>=◌, attempt}
use v_cx_credit_guard.Periods.{current_window}
use v_cx_credit_guard.Usage.Index.{reported_total, usage_index}
use v_cx_credit_guard.Evaluation.State.{get_or_create_state, reaches_limit, refresh, put_state}
use v_cx_credit_guard.Evaluation.Rollover.{close_stale_periods, close_each}
use v_cx_credit_guard.Evaluation.Messages.{notify_breach, describe_window}
use v_cx_credit_guard.Evaluation.Evaluate.{
  evaluate_all, evaluate_each, evaluate_limit, conclude, evaluate_one, evaluate_within,
  evaluate_in_window, evaluate_state, over_budget, mark_breached, enforce_breach, finish,
}
use v_cx_credit_guard.Enforcement.Restore.{fresh_resolver}
use v_cx_credit_guard.Enforcement.Plan.{is_exempt, plan_targets, idempotency_key, display_name}
use v_cx_credit_guard.Enforcement.Perform.{perform}
use v_cx_credit_guard.Enforcement.Messages.{enforcement_title, enforcement_body, entity_shown}
use v_cx_credit_guard.Feed.{record_audit, notify, breach_key, enforcement_key}
use v_cx_credit_guard.Enforcement.Apply.{
  apply_enforcement, enforce_plan, enforce_targets, enforce_target, key_of, restrict, begin_attempt,
  add_action, put_action, record_outcome, record_success,
}

-- Ann has used five credits of three: her role is taken away, and the action and the state say so.
run-restricts :
    ((evaluate_all plain_printing (some api) robot november fresh).1.tenant ≡ [])
    × (map
          (λ (a : EnforcementAction). is_applied a.status)
          (evaluate_all plain_printing (some api) robot november fresh).1.actions
        ≡ true ∷ [])
    × (map
          (λ (s : LimitPeriodState). is_restricted s.status)
          (evaluate_all plain_printing (some api) robot november fresh).1.states
        ≡ true ∷ [])
unfolding ◌>>=◌ attempt current_window reported_total usage_index get_or_create_state reaches_limit
    refresh put_state close_stale_periods close_each notify_breach describe_window evaluate_all
    evaluate_each evaluate_limit conclude evaluate_one evaluate_within evaluate_in_window
    evaluate_state over_budget mark_breached enforce_breach finish fresh_resolver is_exempt
    plan_targets idempotency_key display_name perform enforcement_title enforcement_body
    entity_shown record_audit notify breach_key enforcement_key apply_enforcement enforce_plan
    enforce_targets enforce_target key_of restrict begin_attempt add_action put_action
    record_outcome record_success
run-restricts = (refl, refl, refl)
