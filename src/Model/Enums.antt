-- ===== src/Model/Enums.antt =====
-- backend/app/models/enums.py. The columns hold the string values; every value of a column is one
-- of the enumeration's, as the API schemas and the CSV import check.
use v_cx_credit_guard.Prelude.{String, Bool, true, false, ◌≡◌, ◌↔◌, arith}

pub data EntityType : Type 0 where
  user group project application : EntityType

pub data PeriodType : Type 0 where
  monthly quarterly custom lifetime : PeriodType

pub data UsageView : Type 0 where
  user action application project group : UsageView

pub data LimitStatus : Type 0 where
  ok warned breached restricted restored : LimitStatus

pub data EnforcementKind : Type 0 where
  remove_user_roles disable_auto_triage disable_pr_remediation : EnforcementKind

pub data EnforcementStatus : Type 0 where
  pending applied failed reversed : EnforcementStatus

pub data Severity : Type 0 where
  info warning critical error : Severity

pub data RunStatus : Type 0 where
  running success partial failed skipped : RunStatus

-- services/subject_matching.py: how a subject was attributed.
pub data MatchMethod : Type 0 where
  pinned exact fuzzy_auto disputed unmatched : MatchMethod

pub data ActorType : Type 0 where
  admin system : ActorType

-- `str(kind)`
unfoldable pub kind_text : EnforcementKind → String
kind_text EnforcementKind.remove_user_roles = "remove_user_roles"
kind_text EnforcementKind.disable_auto_triage = "disable_auto_triage"
kind_text EnforcementKind.disable_pr_remediation = "disable_pr_remediation"

unfoldable pub entity_text : EntityType → String
entity_text EntityType.user = "user"
entity_text EntityType.group = "group"
entity_text EntityType.project = "project"
entity_text EntityType.application = "application"

-- `entity_type.capitalize()`
unfoldable pub entity_title : EntityType → String
entity_title EntityType.user = "User"
entity_title EntityType.group = "Group"
entity_title EntityType.project = "Project"
entity_title EntityType.application = "Application"

-- `==` of the columns.
abbrev pub same_entity : EntityType → EntityType → Bool
same_entity EntityType.user EntityType.user = true
same_entity EntityType.group EntityType.group = true
same_entity EntityType.project EntityType.project = true
same_entity EntityType.application EntityType.application = true
same_entity _ _ = false

abbrev pub same_view : UsageView → UsageView → Bool
same_view UsageView.user UsageView.user = true
same_view UsageView.action UsageView.action = true
same_view UsageView.application UsageView.application = true
same_view UsageView.project UsageView.project = true
same_view UsageView.group UsageView.group = true
same_view _ _ = false

abbrev pub is_applied : EnforcementStatus → Bool
is_applied EnforcementStatus.applied = true
is_applied _ = false

abbrev pub is_reversed : EnforcementStatus → Bool
is_reversed EnforcementStatus.reversed = true
is_reversed _ = false

abbrev pub is_failed : EnforcementStatus → Bool
is_failed EnforcementStatus.failed = true
is_failed _ = false

abbrev pub is_restricted : LimitStatus → Bool
is_restricted LimitStatus.restricted = true
is_restricted _ = false

-- `status in {RESTRICTED, BREACHED}`
abbrev pub is_restricted_or_breached : LimitStatus → Bool
is_restricted_or_breached LimitStatus.restricted = true
is_restricted_or_breached LimitStatus.breached = true
is_restricted_or_breached _ = false

pub same_entity_iff : (a b : EntityType) → (same_entity a b ≡ true) ↔ (a ≡ b)
same_entity_iff EntityType.user b = ground arith
same_entity_iff EntityType.group b = ground arith
same_entity_iff EntityType.project b = ground arith
same_entity_iff EntityType.application b = ground arith
