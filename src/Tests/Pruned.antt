-- ===== src/Tests/Pruned.antt =====
-- The theorems on retention at concrete tables.
use v_cx_credit_guard.Prelude.{◌≡◌, refl, pos, none, some, true, [], ◌∷◌, inl, select, arith}
use v_cx_credit_guard.Model.Calendar.{earlier}
use v_cx_credit_guard.Model.Delta.{days_before, day_before}
use v_cx_credit_guard.Model.Enums.{is_applied}
use v_cx_credit_guard.Model.Limits.{EnforcementAction}
use v_cx_credit_guard.Model.Database.{World}
use v_cx_credit_guard.Enforcement.Plan.{idempotency_key}
use v_cx_credit_guard.Enforcement.Apply.{
  action_by_key, key_of, no_outcome, enforce_target, restrict,
}
use v_cx_credit_guard.Retention.{prune, live_action_ids, is_linked, effective_days}
use v_cx_credit_guard.Retention.Kept.{prune-keeps_restrictions}
use v_cx_credit_guard.Retention.Counted.{IsCounted, prune-IsCounted}
use v_cx_credit_guard.Retention.Forgotten.{enforce_target-after_prune}
use v_cx_credit_guard.Tests.Fixtures.{Roles, api, november_first, robot, ann_limit, fresh, locked}
use v_cx_credit_guard.Tests.Reversed.{lifted_action, ann_target}

prune-keeps_restrictions_example :
    (select
        (λ (a : EnforcementAction). is_applied a.status)
        (prune (pos 30) "30" none locked).1.actions
      ≡ select (λ (a : EnforcementAction). is_applied a.status) locked.actions)
    × (select
          (is_linked (live_action_ids locked.actions))
          (prune (pos 30) "30" none locked).1.notifications
        ≡ select (is_linked (live_action_ids locked.actions)) locked.notifications)
prune-keeps_restrictions_example = prune-keeps_restrictions (pos 30) "30" none locked (inl refl, tt)

prune-IsCounted_example : IsCounted locked.db (prune (pos 3) "3" none locked)
prune-IsCounted_example = prune-IsCounted (pos 3) "3" none locked

-- Reversed by an administrator on the first of November.
abbrev old_action : EnforcementAction
old_action = record lifted_action { created_at = november_first }

abbrev forgiven : World Roles
forgiven = record fresh { db = record fresh.db { actions = old_action ∷ [] } }

forgiven_found :
    action_by_key forgiven.db (key_of api ann_limit "2025-11" robot ann_target) ≡ some old_action
unfolding key_of idempotency_key
forgiven_found = refl

long_ago : earlier old_action.created_at (days_before (effective_days (pos 7)) forgiven.now) ≡ true
unfolding earlier days_before effective_days day_before
long_ago = refl

enforce_target-after_prune_example :
    let after = (prune (pos 7) "7" none forgiven).1 in
    (action_by_key after.db (key_of api ann_limit "2025-11" robot ann_target) ≡ none)
    × (enforce_target api ann_limit "2025-11" robot ann_target no_outcome after
        ≡ restrict api ann_limit "2025-11" robot ann_target none no_outcome after)
enforce_target-after_prune_example =
    enforce_target-after_prune api ann_limit "2025-11" robot ann_target no_outcome (pos 7) "7" none
      forgiven 4 old_action (omega arith, (λ e. ground arith), tt, tt) forgiven_found refl long_ago
