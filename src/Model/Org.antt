-- ===== src/Model/Org.antt =====
-- backend/app/models/org.py: the synced organisation model. Columns that no modelled code reads
-- (raw payloads, sync times, role and group names) are left out.
use v_cx_credit_guard.Prelude.{String, Bool, Option, List}
use v_cx_credit_guard.Model.Calendar.{DateTime}

-- A feature's configuration dictionary: each key with the JSON text of its value.
abbrev pub Config : Type 0
Config = List (String × String)

pub record CxUser : Type 0 where
  pub id : String
  pub username : Option String
  pub email : Option String
  pub first_name : Option String
  pub last_name : Option String
  pub is_deleted : Bool

pub record CxGroup : Type 0 where
  pub id : String
  pub name : String
  pub is_deleted : Bool

pub record CxApplication : Type 0 where
  pub id : String
  pub name : String
  pub is_deleted : Bool

pub record CxProject : Type 0 where
  pub id : String
  pub name : String
  pub is_deleted : Bool
  pub repo_id : Option String
  pub auto_triage_enabled : Option Bool
  pub auto_triage_config : Option Config
  pub pr_remediation_severities : Option (List String)
  pub ai_state_checked_at : Option DateTime

-- Link rows.
pub record CxGroupMembership : Type 0 where
  pub group_id : String
  pub user_id : String

pub record CxProjectGroup : Type 0 where
  pub project_id : String
  pub group_id : String

pub record CxApplicationProject : Type 0 where
  pub application_id : String
  pub project_id : String
