-- ===== src/Tests/Fixtures.antt =====
-- A tenant, a database and a limit to run the model on.
use v_cx_credit_guard.Prelude.{pos, true, false, not, none, some, List, [], ◌∷◌, ◌++◌, select, map}
use v_cx_credit_guard.Exec.{ok, pure}
use v_cx_credit_guard.Model.Calendar.{DateTime}
use v_cx_credit_guard.Model.Enums.{
  EntityType, EnforcementKind, EnforcementStatus, LimitStatus, monthly, system, UsageView,
}
use v_cx_credit_guard.Model.Org.{CxUser}
use v_cx_credit_guard.Model.Limits.{
  CreditLimit, LimitPeriodState, RoleRef, EnforcementAction, no_snapshot,
}
use v_cx_credit_guard.Model.Log.{AuditActor}
use v_cx_credit_guard.Model.Database.{Db, World}
use v_cx_credit_guard.Periods.{PeriodWindow}
use v_cx_credit_guard.Checkmarx.{Remote, is_in}
use v_cx_credit_guard.Evaluation.Messages.{Printing}

-- The tenant is the list of the roles that its one user holds.
abbrev pub Roles : Type 0
Roles = List RoleRef

abbrev pub viewer : RoleRef
viewer = record { id = "r1"; name = "view-scans" }

abbrev pub api : Remote Roles
unfolding pure
api = record {
  get_clients = λ t. (ok (record { client_id = some "ast-app"; id = some "c1" } ∷ []), t);
  get_role_mappings = λ u c t. (ok t, t);
  delete_role_mappings = λ u c roles t.
      (ok tt, select (λ (r : RoleRef). not (is_in r.name (map (λ (x : RoleRef). x.name) roles))) t);
  post_role_mappings = λ u c roles t. (ok tt, t ++ roles);
  get_configuration = λ p t. (ok (record { enabled = some false; config = [] }), t);
  put_configuration = λ p e c t. (ok tt, t);
  get_repo = λ r p t. (ok (some []), t);
  patch_repo = λ r p s t. (ok tt, t);
}

abbrev pub plain_printing : Printing
plain_printing = record {
  amount = λ n. "n";
  percentage = λ p. "p";
  month_and_year = λ t. "m";
  long_date = λ t. "d";
  day_before = λ t. t;
}

abbrev pub november : DateTime
november = record { year = 2025; month = 11; day = 20; micros = 5 }

abbrev pub november_first : DateTime
november_first = record { year = 2025; month = 11; day = 1; micros = 0 }

abbrev pub robot : AuditActor
robot = record {
  actor_type = system;
  actor_id = none;
  actor_name = some "evaluator";
  ip_address = none;
  user_agent = none;
}

abbrev pub ann : CxUser
ann = record {
  id = "u1";
  username = some "ann";
  email = none;
  first_name = none;
  last_name = none;
  is_deleted = false;
}

-- Three credits a month for Ann, enforced.
abbrev pub ann_limit : CreditLimit
ann_limit = record {
  id = 1;
  entity_type = EntityType.user;
  entity_id = "u1";
  entity_label = some "ann";
  credit_limit = pos 3;
  period_type = monthly;
  custom_period_start = none;
  custom_period_end = none;
  warning_threshold_pct = pos 80;
  enforce = true;
  is_active = true;
  include_member_usage = false;
  count_existing_usage = true;
  hold_until_released = false;
  notes = none;
  created_by_id = none;
  created_at = none;
}

abbrev pub november_window : PeriodWindow
november_window = record {
  key = "2025-11";
  start = november_first;
  end = some (record november_first { month = 12 });
  period_type = monthly;
  is_active = true;
}

-- Ann's state after the evaluation that restricted her.
abbrev pub restricted_state : LimitPeriodState
restricted_state = record {
  id = 2;
  limit_id = 1;
  period_key = "2025-11";
  period_start = november_first;
  period_end = some (record november_first { month = 12 });
  credits_used = 50_000;
  baseline_credits = 0;
  reported_total = 50_000;
  usage_available = true;
  status = LimitStatus.restricted;
  last_evaluated_at = some november;
  warned_at = none;
  breached_at = some november;
  restricted_at = some november;
  restored_at = none;
}

-- The action that took her role away.
abbrev pub removal : EnforcementAction
removal = record {
  id = 3;
  idempotency_key = "1|2025-11|remove_user_roles|u1";
  kind = EnforcementKind.remove_user_roles;
  status = EnforcementStatus.applied;
  entity_type = EntityType.user;
  entity_id = "u1";
  entity_label = some "ann";
  target_type = "cx_user";
  target_id = "u1";
  target_label = some "ann";
  limit_id = some 1;
  period_key = some "2025-11";
  undo_snapshot = some (record no_snapshot {
    client_uuid = some "c1";
    removed_roles = some (viewer ∷ []);
    roles_before = some ("view-scans" ∷ []);
  });
  attempts = 1;
  error = none;
  created_at = november;
  applied_at = some november;
  reversed_at = none;
  reversed_by_id = none;
  reversal_reason = none;
}

abbrev pub empty_db : Db
empty_db = record {
  next_id = 4;
  users = ann ∷ [];
  groups = [];
  applications = [];
  projects = [];
  memberships = [];
  project_groups = [];
  application_projects = [];
  limits = ann_limit ∷ [];
  exemptions = [];
  states = [];
  actions = [];
  notifications = [];
  audit_log = [];
  snapshots =
      record {
        id = 1;
        collected_at = november;
        view_by = UsageView.user;
        period_param = "last_year";
        total_items = some 1;
        pages_fetched = 1;
        total_credits = 50_000;
      }
      ∷ [];
  records =
      record {
        snapshot_id = 1;
        subject_key = "ann";
        view_by = UsageView.user;
        subject_name = some "ann";
        subject_email = none;
        transactions = none;
        actions = none;
        entity_type = some EntityType.user;
        entity_id = some "u1";
        credits_used = 50_000;
      }
      ∷ [];
  dimensions = [];
  unresolved = [];
  balances = [];
  runs = [];
  sessions = [];
  login_attempts = [];
}

-- Before the first evaluation: Ann has used five credits and holds her role.
abbrev pub fresh : World Roles
fresh = record { db = empty_db; tenant = viewer ∷ []; now = november; resolver_uuid = none }

-- After it: her role is gone.
abbrev pub locked : World Roles
locked = record fresh {
  db = record empty_db { states = restricted_state ∷ []; actions = removal ∷ [] };
  tenant = [];
}
