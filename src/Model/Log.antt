-- ===== src/Model/Log.antt =====
-- backend/app/models/audit.py and the actor of services/audit.py: the audit log and the
-- notification feed.
use v_cx_credit_guard.Prelude.{ℕ, String, Option}
use v_cx_credit_guard.Model.Calendar.{DateTime}
use v_cx_credit_guard.Model.Enums.{ActorType, EntityType, EnforcementKind, Severity}
use v_cx_credit_guard.Model.Limits.{CreditLimit, UndoSnapshot}

pub record AuditActor : Type 0 where
  pub actor_type : ActorType
  pub actor_id : Option ℕ
  pub actor_name : Option String
  pub ip_address : Option String
  pub user_agent : Option String

-- What the `before` and `after` dictionaries hold, one case for each shape that the code writes.
pub data AuditValue : Type 0 where
  undo : UndoSnapshot → AuditValue
  restriction : EnforcementKind → AuditValue
  limit_values : CreditLimit → AuditValue
  exemption_values : EntityType → String → Option String → AuditValue
  import_counts : ℕ → ℕ → AuditValue
  retention_stats : ℕ → AuditValue
  suggested_user : String → AuditValue

pub record AuditLogEntry : Type 0 where
  pub occurred_at : DateTime
  pub actor_type : ActorType
  pub actor_id : Option ℕ
  pub actor_name : Option String
  pub action : String
  pub target_type : Option String
  pub target_id : Option String
  pub target_label : Option String
  pub before : Option AuditValue
  pub after : Option AuditValue
  pub detail : Option String
  pub ip_address : Option String
  pub user_agent : Option String

pub record Notification : Type 0 where
  pub id : ℕ
  pub created_at : DateTime
  pub severity : Severity
  pub category : String
  pub entity_type : Option EntityType
  pub entity_id : Option String
  pub entity_label : Option String
  pub title : String
  pub body : Option String
  pub dedupe_key : Option String
  pub enforcement_action_id : Option ℕ
  pub read_at : Option DateTime
