-- ===== src/Model/Limits.antt =====
-- backend/app/models/limits.py: limits, exemptions, period states and enforcement actions. An
-- amount of credits is a number of ten-thousandths, the scale of the `Numeric(18, 4)` columns.
use v_cx_credit_guard.Prelude.{ℕ, ℤ, String, Bool, Option, none, List}
use v_cx_credit_guard.Model.Calendar.{DateTime}
use v_cx_credit_guard.Model.Enums.{
  EntityType, PeriodType, LimitStatus, EnforcementKind, EnforcementStatus,
}
use v_cx_credit_guard.Model.Org.{Config}

-- Ten-thousandths in one credit.
abbrev pub scale : ℕ
scale = 10_000

pub record CreditLimit : Type 0 where
  pub id : ℕ
  pub entity_type : EntityType
  pub entity_id : String
  pub entity_label : Option String
  pub credit_limit : ℤ
  pub period_type : PeriodType
  pub custom_period_start : Option DateTime
  pub custom_period_end : Option DateTime
  pub warning_threshold_pct : ℤ
  pub enforce : Bool
  pub is_active : Bool
  pub include_member_usage : Bool
  pub count_existing_usage : Bool
  pub hold_until_released : Bool
  pub notes : Option String
  pub created_by_id : Option ℕ
  pub created_at : Option DateTime

pub record Exemption : Type 0 where
  pub id : ℕ
  pub entity_type : EntityType
  pub entity_id : String
  pub entity_label : Option String
  pub reason : Option String
  pub created_by_id : Option ℕ

pub record LimitPeriodState : Type 0 where
  pub id : ℕ
  pub limit_id : ℕ
  pub period_key : String
  pub period_start : DateTime
  pub period_end : Option DateTime
  pub credits_used : ℕ
  pub baseline_credits : ℕ
  pub reported_total : ℕ
  pub usage_available : Bool
  pub status : LimitStatus
  pub last_evaluated_at : Option DateTime
  pub warned_at : Option DateTime
  pub breached_at : Option DateTime
  pub restricted_at : Option DateTime
  pub restored_at : Option DateTime

pub record RoleRef : Type 0 where
  pub id : String
  pub name : String

-- The `undo_snapshot` dictionary: each key that some kind of action stores.
pub record UndoSnapshot : Type 0 where
  pub client_uuid : Option String
  pub removed_roles : Option (List RoleRef)
  pub roles_before : Option (List String)
  pub enabled_before : Option Bool
  pub config_before : Option Config
  pub repo_id : Option String
  pub severities_before : Option (List String)

-- `{}`
abbrev pub no_snapshot : UndoSnapshot
no_snapshot = record {
  client_uuid = none;
  removed_roles = none;
  roles_before = none;
  enabled_before = none;
  config_before = none;
  repo_id = none;
  severities_before = none;
}

pub record EnforcementAction : Type 0 where
  pub id : ℕ
  pub idempotency_key : String
  pub kind : EnforcementKind
  pub status : EnforcementStatus
  pub entity_type : EntityType
  pub entity_id : String
  pub entity_label : Option String
  pub target_type : String
  pub target_id : String
  pub target_label : Option String
  pub limit_id : Option ℕ
  pub period_key : Option String
  pub undo_snapshot : Option UndoSnapshot
  pub attempts : ℕ
  pub error : Option String
  pub created_at : DateTime
  pub applied_at : Option DateTime
  pub reversed_at : Option DateTime
  pub reversed_by_id : Option ℕ
  pub reversal_reason : Option String
