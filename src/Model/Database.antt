-- ===== src/Model/Database.antt =====
-- The database as one session sees it, and the world of a call: the session, the Checkmarx tenant
-- of type `T`, the instant of the call, and the client UUID that the run's `RoleResolver` has
-- cached (services/enforcement.py). One counter numbers the rows of every table.
use v_cx_credit_guard.Prelude.{ℕ, String, Option, List}
use v_cx_credit_guard.Model.Calendar.{DateTime}
use v_cx_credit_guard.Model.Org.{
  CxUser, CxGroup, CxApplication, CxProject, CxGroupMembership, CxProjectGroup,
  CxApplicationProject,
}
use v_cx_credit_guard.Model.Limits.{CreditLimit, Exemption, LimitPeriodState, EnforcementAction}
use v_cx_credit_guard.Model.Log.{AuditLogEntry, Notification}
use v_cx_credit_guard.Model.Usage.{
  UsageSnapshot, UsageRecord, DimensionState, UnresolvedSubject, CreditBalanceSnapshot,
  SchedulerRun,
}
use v_cx_credit_guard.Model.Auth.{UtilitySession, LoginAttempt}

pub record Db : Type 0 where
  pub next_id : ℕ
  pub users : List CxUser
  pub groups : List CxGroup
  pub applications : List CxApplication
  pub projects : List CxProject
  pub memberships : List CxGroupMembership
  pub project_groups : List CxProjectGroup
  pub application_projects : List CxApplicationProject
  pub limits : List CreditLimit
  pub exemptions : List Exemption
  pub states : List LimitPeriodState
  pub actions : List EnforcementAction
  pub notifications : List Notification
  pub audit_log : List AuditLogEntry
  pub snapshots : List UsageSnapshot
  pub records : List UsageRecord
  pub dimensions : List DimensionState
  pub unresolved : List UnresolvedSubject
  pub balances : List CreditBalanceSnapshot
  pub runs : List SchedulerRun
  pub sessions : List UtilitySession
  pub login_attempts : List LoginAttempt

pub record World (T : Type 0) : Type 0 where
  pub db : Db
  pub open db use *
  pub tenant : T
  pub now : DateTime
  pub resolver_uuid : Option String
