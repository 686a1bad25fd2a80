-- ===== src/Usage/Index.antt =====
-- evaluation.py, `UsageIndex`: the reported total of each level of entity, and whether it is known.
use v_cx_credit_guard.Prelude.{
  ℕ, ◌+◌, String, Bool, true, false, not, ◌&&◌, ◌||◌, none, some, List, [], ◌∷◌, map, str_eq,
  select, or_else, if◌then◌else◌,
}
use v_cx_credit_guard.Model.Enums.{EntityType, UsageView}
use v_cx_credit_guard.Model.Org.{CxGroupMembership, CxProjectGroup, CxApplicationProject}
use v_cx_credit_guard.Model.Limits.{CreditLimit}
use v_cx_credit_guard.Model.Database.{Db}
use v_cx_credit_guard.Usage.Reading.{Totals, total_of, latest_totals, dimension_supported}

pub record UsageIndex : Type 0 where
  pub session : Db
  pub users : Totals
  pub applications : Totals
  pub projects : Totals
  pub groups : Totals
  pub project_dimension : Bool
  pub group_dimension : Bool
  pub application_dimension : Bool
  pub user_dimension : Bool

unfoldable pub usage_index : Db → UsageIndex
unfolding latest_totals dimension_supported
usage_index db = record {
  session = db;
  users = latest_totals db UsageView.user;
  applications = latest_totals db UsageView.application;
  projects = latest_totals db UsageView.project;
  groups = latest_totals db UsageView.group;
  project_dimension = dimension_supported db UsageView.project;
  group_dimension = dimension_supported db UsageView.group;
  application_dimension = dimension_supported db UsageView.application;
  user_dimension = dimension_supported db UsageView.user;
}

-- `totals.get(id, Decimal("0"))`
abbrev pub total_or_zero : Totals → String → ℕ
total_or_zero totals id = or_else (total_of id totals) 0

-- `sum(totals.get(id, 0) for id in ids)`
unfoldable pub sum_over : Totals → List String → ℕ
unfolding total_of
sum_over totals [] = 0
sum_over totals (id ∷ ids) = total_or_zero totals id + sum_over totals ids

abbrev pub is_empty {ℓ} : {A : Type ℓ} → List A → Bool
is_empty [] = true
is_empty (x ∷ xs) = false

module _ (index : UsageIndex) where
  open index use {
    session, users, applications, projects, groups, project_dimension, group_dimension,
    application_dimension, user_dimension,
  }

  unfoldable pub project_total : String → ℕ × Bool
  unfolding total_of
  project_total project_id =
      if not project_dimension then (0, false) else (total_or_zero projects project_id, true)

  unfoldable pub user_total : String → ℕ × Bool
  unfolding total_of
  user_total user_id =
      if not user_dimension then (0, false) else (total_or_zero users user_id, true)

  unfoldable pub application_projects : String → List String
  application_projects application_id =
      map (λ (l : CxApplicationProject). l.project_id)
        (select (λ (l : CxApplicationProject). str_eq l.application_id application_id)
          session.application_projects)

  -- The sum of the application's projects, where its own figure is missing.
  unfoldable pub application_fallback : String → ℕ × Bool
  unfolding application_projects sum_over
  application_fallback application_id =
      if is_empty (application_projects application_id) || not project_dimension
      then (0, application_dimension)
      else (sum_over projects (application_projects application_id), true)

  unfoldable pub application_total : String → ℕ × Bool
  unfolding total_of application_fallback
  application_total application_id =
      if application_dimension
      then elim (total_of application_id applications) [
        | some total ↦ (total, true)
        | none ↦ application_fallback application_id
      ]
      else application_fallback application_id

  unfoldable pub group_projects : String → List String
  group_projects group_id =
      map (λ (l : CxProjectGroup). l.project_id)
        (select (λ (l : CxProjectGroup). str_eq l.group_id group_id) session.project_groups)

  unfoldable pub group_members : String → List String
  group_members group_id =
      map (λ (l : CxGroupMembership). l.user_id)
        (select (λ (l : CxGroupMembership). str_eq l.group_id group_id) session.memberships)

  -- The sum of the group's projects and, on request, of its members.
  unfoldable pub group_rollup : String → Bool → ℕ × Bool
  unfolding group_projects group_members sum_over
  group_rollup group_id include_members =
      let by_project = not (is_empty (group_projects group_id)) && project_dimension in
      let by_member =
        include_members && (not (is_empty (group_members group_id)) && user_dimension) in
      (
        (if by_project then sum_over projects (group_projects group_id) else 0)
            + (if by_member then sum_over users (group_members group_id) else 0),
        by_project || by_member,
      )

  unfoldable pub group_total : String → Bool → ℕ × Bool
  unfolding total_of group_rollup
  group_total group_id include_members =
      if not include_members && group_dimension
      then elim (total_of group_id groups) [
        | some total ↦ (total, true)
        | none ↦ group_rollup group_id include_members
      ]
      else group_rollup group_id include_members

  -- `reported_total(limit)`: one clause for each level.
  unfoldable pub total_at : EntityType → String → Bool → ℕ × Bool
  unfolding project_total user_total application_total group_total
  total_at EntityType.user id include_members = user_total id
  total_at EntityType.project id include_members = project_total id
  total_at EntityType.application id include_members = application_total id
  total_at EntityType.group id include_members = group_total id include_members

  unfoldable pub reported_total : CreditLimit → ℕ × Bool
  unfolding total_at
  reported_total limit = total_at limit.entity_type limit.entity_id limit.include_member_usage
