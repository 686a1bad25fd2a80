-- ===== src/Checkmarx.antt =====
-- backend/app/checkmarx: the calls that change and read restrictions (iam.py, platform.py), over
-- the endpoints of the tenant. The endpoints, with the decoding of their JSON bodies and the
-- retries of the HTTP client, are the interface `Remote`; a call may raise and may change the tenant.
use v_cx_credit_guard.Prelude.{
  String, Bool, true, false, not, Option, none, some, List, [], ◌∷◌, str_eq, select, if◌then◌else◌,
}
use v_cx_credit_guard.Exec.{
  Exec, checkmarx, plain, not_found, returned, failed, attempt, pure, raise, ◌>>=◌,
}
use v_cx_credit_guard.Model.Org.{Config}
use v_cx_credit_guard.Model.Limits.{RoleRef}
use v_cx_credit_guard.Model.Database.{World}

-- platform.py: the auto_triage entry of a project's configuration.
pub record AutoTriageState : Type 0 where
  pub enabled : Option Bool
  pub config : Config

-- An OAuth client entry, with what it carries of `clientId` and `id`.
pub record ClientEntry : Type 0 where
  pub client_id : Option String
  pub id : Option String

pub record Remote (T : Type 0) : Type 0 where
  -- GET clients
  pub get_clients : Exec T (List ClientEntry)
  -- GET, DELETE and POST users/…/role-mappings/clients/…
  pub get_role_mappings : String → String → Exec T (List RoleRef)
  pub delete_role_mappings : String → String → List RoleRef → Exec T Unit
  pub post_role_mappings : String → String → List RoleRef → Exec T Unit
  -- GET and PUT /ai-agents-coordinator/projects/…/configuration
  pub get_configuration : String → Exec T AutoTriageState
  pub put_configuration : String → Bool → Config → Exec T Unit
  -- GET and PATCH /repos-manager/repo/…; `none` where the body has no list of severities
  pub get_repo : String → String → Exec T (Option (List String))
  pub patch_repo : String → String → List String → Exec T Unit

-- AI_ROLE_NAMES
abbrev pub ai_role_names : List String
ai_role_names =
    "view-risk-management" ∷ "view-risk-management-dashboard" ∷ "view-risk-management-tab"
    ∷ "view-scans" ∷ []

abbrev pub platform_client_id : String
platform_client_id = "ast-app"

abbrev pub fallback_auto_triage_config : Config
fallback_auto_triage_config =
    ("branches", "[\"main\"]")
    ∷ ("scannerTypes", "[\"SAST\", \"SCA\"]")
    ∷ ("severityLevels", "[\"CRITICAL\", \"HIGH\"]")
    ∷ ("riskStatuses", "[\"NEW\"]")
    ∷ []

abbrev pub default_pr_severities : List String
default_pr_severities = "CRITICAL" ∷ "HIGH" ∷ []

-- `name in names`
abbrev pub is_in : String → List String → Bool
is_in name [] = false
is_in name (n ∷ names) = let rest = is_in name names in if str_eq n name then true else rest

-- A non-empty text counts as true.
abbrev pub truthy : Option String → Option String
truthy none = none
truthy (some s) = if str_eq s "" then none else some s

-- The first loop of `resolve_platform_client_uuid`.
unfoldable pub named_client : List ClientEntry → Option String
named_client [] = none
named_client (e ∷ entries) =
    let rest = named_client entries in
    elim e.client_id [
      | none ↦ rest
      | some c ↦
          if str_eq c platform_client_id
          then elim (truthy e.id) [ none ↦ rest | some uuid ↦ some uuid ]
          else rest
    ]

-- Its fallback: the first entry with an id.
unfoldable pub first_client : List ClientEntry → Option String
first_client [] = none
first_client (e ∷ entries) =
    let rest = first_client entries in elim e.id [ none ↦ rest | some u ↦ some u ]

-- A call of the tenant from a service.
unfoldable pub remote : {T A : Type 0} → Exec T A → Exec (World T) A
remote m w = let (r, t) = m w.tenant in (r, record w { tenant = t })

module _ {T : Type 0} (api : Remote T) where
  unfoldable pub resolve_platform_client_uuid : Exec T String
  unfolding named_client first_client
  resolve_platform_client_uuid = do
    entries ← api.get_clients
    elim (named_client entries) [
      | some uuid ↦ pure uuid
      | none ↦ elim (first_client entries) [
        | some uuid ↦ pure uuid
        | none ↦ raise (
            checkmarx not_found
              "No OAuth client named 'ast-app' was found in the realm. Role based enforcement cannot run until this resolves.")
      ]
    ]

  unfoldable pub fetch_user_client_roles : String → String → Exec T (List RoleRef)
  fetch_user_client_roles user_id client_uuid = api.get_role_mappings user_id client_uuid

  -- No call when `roles` is empty.
  unfoldable pub remove_user_client_roles : String → String → List RoleRef → Exec T Unit
  remove_user_client_roles user_id client_uuid [] = pure tt
  remove_user_client_roles user_id client_uuid (r ∷ roles) =
      api.delete_role_mappings user_id client_uuid (r ∷ roles)

  unfoldable pub add_user_client_roles : String → String → List RoleRef → Exec T Unit
  add_user_client_roles user_id client_uuid [] = pure tt
  add_user_client_roles user_id client_uuid (r ∷ roles) =
      api.post_role_mappings user_id client_uuid (r ∷ roles)

  unfoldable pub get_auto_triage : String → Exec T AutoTriageState
  get_auto_triage project_id = api.get_configuration project_id

  -- An empty or missing configuration is replaced by the fallback.
  unfoldable pub set_auto_triage : String → Bool → Config → Exec T Unit
  set_auto_triage project_id enabled [] =
      api.put_configuration project_id enabled fallback_auto_triage_config
  set_auto_triage project_id enabled (c ∷ config) =
      api.put_configuration project_id enabled (c ∷ config)

  unfoldable pub set_pr_remediation_severities : String → String → List String → Exec T Unit
  set_pr_remediation_severities repo_id project_id severities =
      if str_eq repo_id ""
      then raise (
          checkmarx plain
            "No repository id is known for this project, so PR triage and remediation cannot be changed.")
      else api.patch_repo repo_id project_id severities

  -- `none` is "cannot be read"; the empty list says that the feature is off.
  unfoldable pub get_pr_remediation_severities : String → String → Exec T (Option (List String))
  unfolding attempt
  get_pr_remediation_severities repo_id project_id = if str_eq repo_id "" then pure none else do
    read ← attempt (api.get_repo repo_id project_id)
    elim read [
      | failed k text ↦ pure none
      | returned body ↦ elim body [
        | none ↦ pure none
        | some severities ↦ pure (some (select (λ s. not (str_eq s "")) severities))
      ]
    ]
