-- ===== src/Tests/Reversed.antt =====
-- A restriction that an administrator lifted.
use v_cx_credit_guard.Prelude.{some}
use v_cx_credit_guard.Model.Enums.{EnforcementKind, EnforcementStatus}
use v_cx_credit_guard.Model.Limits.{EnforcementAction}
use v_cx_credit_guard.Enforcement.Plan.{Target}
use v_cx_credit_guard.Tests.Fixtures.{november, removal}

abbrev pub lifted_action : EnforcementAction
lifted_action = record removal {
  status = EnforcementStatus.reversed;
  reversed_at = some november;
  reversal_reason = some "admin";
}

abbrev pub ann_target : Target
ann_target = record {
  kind = EnforcementKind.remove_user_roles;
  target_type = "cx_user";
  target_id = "u1";
  target_label = some "ann";
}
