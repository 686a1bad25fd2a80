-- ===== src/Tests/Witnesses.antt =====
-- The theorems at concrete inputs.
use v_cx_credit_guard.Prelude.{
  ◌-◌, ◌/◌, ◌≡◌, ◌↔◌, inl, inr, refl, true, false, none, some, [], ◌∷◌, length, select, arith, All,
  pos, ◌+◌, ◌≤◌, ◌⊎◌,
}
use v_cx_credit_guard.Tests.Fixtures.{
  Roles, api, plain_printing, november, november_first, robot, ann_limit, november_window,
  restricted_state, fresh, locked,
}
use v_cx_credit_guard.Exec.{ok, attempt, ◌>>=◌}
use v_cx_credit_guard.Enforcement.Perform.{reconcile}
use v_cx_credit_guard.Exec.Contracts.{Post, Keeps}
use v_cx_credit_guard.Evaluation.Evaluate.{evaluate_all}
use v_cx_credit_guard.Enforcement.Soundness.{HasSoundActions, apply_enforcement-HasSoundActions}
use v_cx_credit_guard.Evaluation.Soundness.{evaluate_all-HasSoundActions}
use v_cx_credit_guard.Model.Calendar.{DateTime, IsValid, earlier}
use v_cx_credit_guard.Model.Enums.{EntityType, LimitStatus, monthly, quarterly, custom}
use v_cx_credit_guard.Model.Limits.{CreditLimit}
use v_cx_credit_guard.Model.Database.{World}
use v_cx_credit_guard.Periods.{
  PeriodWindow, contains, custom_window, current_window, monthly_window, compact_date,
}
use v_cx_credit_guard.Periods.Windows.{
  monthly_window-contains, quarterly_window-contains, custom_window_lem,
}
use v_cx_credit_guard.Periods.Keys.{monthly_key_iff}
use v_cx_credit_guard.Enforcement.Plan.{plan_targets, is_exempt, idempotency_key, display_name}
use v_cx_credit_guard.Enforcement.Allowed.{IsAllowed, plan_targets-IsAllowed}
use v_cx_credit_guard.Enforcement.Apply.{
  EnforcementOutcome, apply_enforcement, enforce_plan, enforce_targets, enforce_target, key_of,
  restrict_found, verify, record_verified, on_target,
}
use v_cx_credit_guard.Enforcement.Restore.{restores, restore_for_limit}
use v_cx_credit_guard.Enforcement.RestoreSoundness.{restore_for_limit-HasSoundActions}
use v_cx_credit_guard.Enforcement.Released.{restore_for_limit-releases}
use v_cx_credit_guard.Evaluation.Result.{no_result}
use v_cx_credit_guard.Evaluation.State.{refresh, reaches_limit}
use v_cx_credit_guard.Evaluation.Rollover.{close_one}
use v_cx_credit_guard.Evaluation.Evaluate.{over_budget, evaluate_state}
use v_cx_credit_guard.Evaluation.Usage.{IsUnrestricted, evaluate_state-IsUnrestricted, refresh_lem}
use v_cx_credit_guard.Evaluation.Carryover.{close_one-IsUnrestricted, over_budget-carries}
use v_cx_credit_guard.LimitsService.Input.{LimitInput}
use v_cx_credit_guard.LimitsService.Service.{create_limit}
use v_cx_credit_guard.LimitsService.Unique.{HasOneLimitEach, create_limit-HasOneLimitEach}
use v_cx_credit_guard.Prelude.{◌+◌}
use v_cx_credit_guard.LimitsService.Input.{validate, input_of}
use v_cx_credit_guard.LimitsService.Validated.{current_window-validate}
use v_cx_credit_guard.Usage.Reading.{sum_rows}
use v_cx_credit_guard.Usage.Index.{total_or_zero}
use v_cx_credit_guard.Usage.Sums.{spent, sum_rows-total_or_zero}
use v_cx_credit_guard.Feed.{Notice, notify, unread_count, mark_read}
use v_cx_credit_guard.Feed.Keys.{AreDistinct, notify-AreDistinct}
use v_cx_credit_guard.Feed.Marking.{mark_read-unread_count}
use v_cx_credit_guard.Model.Enums.{warning}

evaluate_all-HasSoundActions_example :
    HasSoundActions (evaluate_all plain_printing (some api) robot november fresh).1
evaluate_all-HasSoundActions_example =
    evaluate_all-HasSoundActions plain_printing (some api) robot november fresh tt

restore_for_limit-releases_example :
    Post
      (λ n w'.
        (n ≡ length (select (restores 1 (some "2025-11")) locked.actions))
        × (select (restores 1 (some "2025-11")) w'.actions ≡ []))
      (λ _. Unit)
      (restore_for_limit api robot "admin" 1 (some "2025-11") locked)
restore_for_limit-releases_example =
    restore_for_limit-releases api robot "admin" 1 (some "2025-11") locked

apply_enforcement-HasSoundActions_example :
    Keeps HasSoundActions (apply_enforcement api ann_limit "2025-11" robot)
apply_enforcement-HasSoundActions_example =
    apply_enforcement-HasSoundActions api ann_limit "2025-11" robot

plan_targets-IsAllowed_example :
    All (IsAllowed fresh.db EntityType.user "u1") (plan_targets fresh.db EntityType.user "u1")
plan_targets-IsAllowed_example = plan_targets-IsAllowed fresh.db EntityType.user "u1"

ann_reached : reaches_limit 50_000 ann_limit ≡ true
unfolding reaches_limit
ann_reached = refl

-- Ann's limit, without a connection.
evaluate_state-IsUnrestricted_example :
    IsUnrestricted fresh
      (evaluate_state plain_printing none ann_limit november_window robot restricted_state true
        november no_result fresh).1
evaluate_state-IsUnrestricted_example =
    evaluate_state-IsUnrestricted plain_printing none ann_limit november_window robot fresh
      restricted_state true november no_result (inr (inr (ann_reached, inr (inr refl))))

-- The second evaluation of the month in which Ann was restricted.
abbrev verified : EnforcementOutcome
verified = record {
  applied = [];
  skipped = "remove_user_roles on ann already applied and verified in Checkmarx" ∷ [];
  failed = [];
  reconciled = [];
}

still_applied : apply_enforcement api ann_limit "2025-11" robot locked ≡ (ok verified, locked)
unfolding apply_enforcement is_exempt enforce_plan plan_targets enforce_targets ◌>>=◌ enforce_target
    key_of idempotency_key restrict_found verify attempt reconcile record_verified on_target
    display_name
still_applied = refl

over_budget-carries_example :
    Post
      (λ v w''.
        (v.0.state.status ≡ LimitStatus.breached)
        × (v.0.state.restricted_at ≡ some november)
        × IsUnrestricted locked (close_one (some api) ann_limit robot v.0.state no_result w'').1)
      (λ _. ⊥)
      (over_budget plain_printing
        (some api)
        ann_limit
        november_window
        robot
        restricted_state
        false
        november
        no_result
        locked)
over_budget-carries_example =
    over_budget-carries plain_printing api ann_limit november_window robot restricted_state november
      november no_result no_result verified locked locked refl refl still_applied refl

close_one-IsUnrestricted_example :
    IsUnrestricted locked
      (close_one
        (some api)
        (record ann_limit { hold_until_released = true })
        robot
        restricted_state
        no_result
        locked).1
close_one-IsUnrestricted_example =
    close_one-IsUnrestricted (record ann_limit { hold_until_released = true }) robot locked
      (some api) restricted_state no_result (inr (inl refl))

restore_for_limit-HasSoundActions_example :
    Keeps (HasSoundActions {T = Roles}) (restore_for_limit api robot "admin" 1 none)
restore_for_limit-HasSoundActions_example =
    restore_for_limit-HasSoundActions api robot "admin" 1 none

-- Ann's reported total fell below the baseline.
refresh_lem_example :
    let s' = refresh (record restricted_state { baseline_credits = 60_000 }) 50_000 true november in
    (true ≡ true → s'.credits_used + s'.baseline_credits ≡ 50_000)
    × (true ≡ false → s'.credits_used ≡ 0)
    × (s'.baseline_credits ≤ 60_000)
    × (s'.baseline_credits ≤ 50_000)
    × ((s'.baseline_credits ≡ 60_000) ⊎ (s'.baseline_credits ≡ 50_000))
refresh_lem_example =
    refresh_lem (record restricted_state { baseline_credits = 60_000 }) 50_000 true november

abbrev second_limit : LimitInput
second_limit = record {
  entity_type = EntityType.user;
  entity_id = "u1";
  credit_limit = pos 10;
  period_type = monthly;
  warning_threshold_pct = pos 80;
  enforce = false;
  include_member_usage = false;
  hold_until_released = false;
  count_existing_usage = false;
  custom_period_start = none;
  custom_period_end = none;
  notes = none;
}

create_limit-HasOneLimitEach_example :
    Keeps (HasOneLimitEach {T = Roles}) (create_limit robot second_limit)
create_limit-HasOneLimitEach_example = create_limit-HasOneLimitEach robot second_limit

november_first-IsValid : IsValid november_first
november_first-IsValid = record {
  month_low = omega arith;
  month_high = omega arith;
  day_low = omega arith;
}

november-IsValid : IsValid november
november-IsValid = record {
  month_low = omega arith;
  month_high = omega arith;
  day_low = omega arith;
}

monthly_window-contains_example :
    (w : PeriodWindow) × (current_window ann_limit november ≡ ok w)
    × (w.is_active ≡ true)
    × ((contains w november_first ≡ true)
        ↔ ((november_first.year ≡ november.year) × (november_first.month ≡ november.month)))
monthly_window-contains_example =
    monthly_window-contains ann_limit november_first november refl november_first-IsValid
      november-IsValid

abbrev quarterly_limit : CreditLimit
quarterly_limit = record ann_limit { period_type = quarterly }

quarterly_window-contains_example :
    (w : PeriodWindow) × (current_window quarterly_limit november ≡ ok w)
    × (w.is_active ≡ true)
    × ((contains w november_first ≡ true) ↔ (
        (november_first.year ≡ november.year)
        × ((november_first.month - 1) / 3 ≡ (november.month - 1) / 3)))
quarterly_window-contains_example =
    quarterly_window-contains quarterly_limit november_first november refl november_first-IsValid
      november-IsValid

abbrev open_window : PeriodWindow
open_window = record {
  key = "custom:20251101:open";
  start = november_first;
  end = none;
  period_type = custom;
  is_active = true;
}

opens : custom_window (some november_first) none november ≡ ok open_window
unfolding custom_window compact_date
opens = refl

custom_window_lem_example :
    (some november_first ≡ some november_first)
    × (open_window.end ≡ none)
    × (true ≡ contains open_window november)
    × ((e : DateTime) → open_window.end ≡ some e → earlier november_first e ≡ true)
custom_window_lem_example = custom_window_lem (some november_first) none november open_window opens

monthly_key_iff_example :
    ((monthly_window november_first).key ≡ (monthly_window november).key)
    ↔ ((november_first.year ≡ november.year) × (november_first.month ≡ november.month))
monthly_key_iff_example =
    monthly_key_iff november_first november november_first-IsValid november-IsValid

ann_limit_valid : validate (input_of ann_limit) ≡ ok tt
unfolding validate input_of
ann_limit_valid = refl

current_window-validate_example : (w : PeriodWindow) × (current_window ann_limit november ≡ ok w)
current_window-validate_example = current_window-validate ann_limit november ann_limit_valid

sum_rows-total_or_zero_example :
    total_or_zero (sum_rows 1 fresh.records) "u1" ≡ spent 1 "u1" fresh.records
sum_rows-total_or_zero_example = sum_rows-total_or_zero 1 "u1" fresh.records refl

abbrev raised : Notice
raised = record {
  category = "warning";
  severity = warning;
  title = "t";
  body = none;
  entity_type = none;
  entity_id = none;
  entity_label = none;
  dedupe_key = some "warn:1:2025-11";
  enforcement_action_id = none;
}

notify-AreDistinct_example :
    Keeps (λ (w : World Roles). AreDistinct w.notifications) (notify raised)
notify-AreDistinct_example = notify-AreDistinct raised

-- One unread notification.
abbrev noted : World Roles
noted = record fresh {
  db = record fresh.db {
    notifications =
        record {
          id = 1;
          created_at = november;
          severity = warning;
          category = "warning";
          entity_type = none;
          entity_id = none;
          entity_label = none;
          title = "t";
          body = none;
          dedupe_key = some "warn:1:2025-11";
          enforcement_action_id = none;
          read_at = none;
        }
        ∷ [];
  };
}

mark_read-unread_count_example :
    Post (λ n w'. unread_count noted ≡ n + unread_count w') (λ _. ⊥) (mark_read (1 ∷ []) noted)
mark_read-unread_count_example = mark_read-unread_count (1 ∷ []) noted
