-- ===== src/Model/Usage.antt =====
-- backend/app/models/usage.py: snapshots of reported consumption, their records, the subjects under
-- review, the credit pool, which dimensions the tenant supports, and the runs of the scheduler. Raw
-- response bodies, percentages, scores and the counters of a run's steps are left out.
use v_cx_credit_guard.Prelude.{ℕ, String, Bool, Option, List}
use v_cx_credit_guard.Model.Calendar.{DateTime}
use v_cx_credit_guard.Model.Enums.{UsageView, EntityType, MatchMethod, RunStatus}

-- A breakdown by action: `{"triage": 3, "remediation": 1}`.
abbrev pub Actions : Type 0
Actions = List (String × ℕ)

pub record UsageSnapshot : Type 0 where
  pub id : ℕ
  pub collected_at : DateTime
  pub view_by : UsageView
  pub period_param : String
  pub total_items : Option ℕ
  pub total_credits : ℕ
  pub pages_fetched : ℕ

pub record UsageRecord : Type 0 where
  pub snapshot_id : ℕ
  pub view_by : UsageView
  pub subject_key : String
  pub subject_name : Option String
  pub subject_email : Option String
  pub entity_type : Option EntityType
  pub entity_id : Option String
  pub credits_used : ℕ
  pub transactions : Option ℕ
  pub actions : Option Actions

pub record UnresolvedSubject : Type 0 where
  pub subject_key : String
  pub subject_name : Option String
  pub subject_email : Option String
  pub view_by : UsageView
  pub credits_used : ℕ
  pub first_seen_at : DateTime
  pub last_seen_at : DateTime
  pub times_seen : ℕ
  pub mapped_user_id : Option String
  pub status : MatchMethod
  pub is_bot : Bool
  pub suggested_user_id : Option String

pub record CreditBalanceSnapshot : Type 0 where
  pub id : ℕ
  pub collected_at : DateTime
  pub total_credits : Option ℕ
  pub used_credits : Option ℕ
  pub available_credits : Option ℕ

pub record DimensionState : Type 0 where
  pub view_by : UsageView
  pub supported : Option Bool
  pub last_checked_at : Option DateTime
  pub last_error : Option String

pub record SchedulerRun : Type 0 where
  pub id : ℕ
  pub kind : String
  pub trigger : String
  pub started_at : DateTime
  pub finished_at : Option DateTime
  pub status : RunStatus
  pub error : Option String

pub record SchedulerLock : Type 0 where
  pub name : String
  pub holder : Option String
  pub acquired_at : Option DateTime
  pub heartbeat_at : Option DateTime
