-- ===== src/Enforcement/Plan.antt =====
-- enforcement.py, up to the role resolution: exemptions, the projects under an entity, and the
-- concrete changes that a breach implies.
use v_cx_credit_guard.Prelude.{
  ℕ, String, Bool, false, Option, none, some, List, [], ◌∷◌, ◌++◌, map, concat, join, strip, str,
  str_eq, first_where, exists_where, select, if◌then◌else◌,
}
use v_cx_credit_guard.Model.Enums.{
  EntityType, EnforcementKind, remove_user_roles, disable_auto_triage, disable_pr_remediation,
  same_entity, kind_text,
}
use v_cx_credit_guard.Model.Org.{CxUser, CxProject, CxProjectGroup, CxApplicationProject}
use v_cx_credit_guard.Model.Limits.{Exemption}
use v_cx_credit_guard.Model.Database.{Db}
use v_cx_credit_guard.Checkmarx.{truthy, is_in}

abbrev pub target_user : String
target_user = "cx_user"

abbrev pub target_project : String
target_project = "cx_project"

pub record Target : Type 0 where
  pub kind : EnforcementKind
  pub target_type : String
  pub target_id : String
  pub target_label : Option String

unfoldable pub idempotency_key : ℕ → String → EnforcementKind → String → String
unfolding concat str kind_text
idempotency_key limit_id period_key kind target_id =
    concat (str limit_id ∷ "|" ∷ period_key ∷ "|" ∷ kind_text kind ∷ "|" ∷ target_id ∷ [])

abbrev pub exempts : EntityType → String → Exemption → Bool
exempts entity_type entity_id e =
    if same_entity e.entity_type entity_type then str_eq e.entity_id entity_id else false

unfoldable pub is_exempt : Db → EntityType → String → Bool
is_exempt db entity_type entity_id = exists_where (exempts entity_type entity_id) db.exemptions

-- `session.get(CxProject, id)`, `session.get(CxUser, id)`
abbrev pub project_by_id : Db → String → Option CxProject
project_by_id db id = first_where (λ p. str_eq p.id id) db.projects

abbrev pub user_by_id : Db → String → Option CxUser
user_by_id db id = first_where (λ u. str_eq u.id id) db.users

-- `[part for part in parts if part]`
unfoldable pub present : List (Option String) → List String
present [] = []
present (p ∷ parts) = elim (truthy p) [ none ↦ present parts | some t ↦ t ∷ present parts ]

-- `" ".join(part for part in (first, last) if part).strip()`
unfoldable pub full_name : CxUser → String
unfolding join present strip
full_name u = strip (join " " (present (u.first_name ∷ u.last_name ∷ [])))

-- `full or username or email or id`
unfoldable pub display_name : CxUser → String
unfolding full_name
display_name u = elim (truthy (some (full_name u))) [
  | some n ↦ n
  | none ↦ elim (truthy u.username) [
    | some n ↦ n
    | none ↦ elim (truthy u.email) [ some n ↦ n | none ↦ u.id ]
  ]
]

-- Projects affected by a breach of the entity's limit.
unfoldable pub project_ids_for : Db → EntityType → String → List String
project_ids_for db EntityType.project entity_id = entity_id ∷ []
project_ids_for db EntityType.group entity_id =
    map (λ (l : CxProjectGroup). l.project_id)
      (select (λ (l : CxProjectGroup). str_eq l.group_id entity_id) db.project_groups)
project_ids_for db EntityType.application entity_id =
    map (λ (l : CxApplicationProject). l.project_id)
      (select (λ (l : CxApplicationProject). str_eq l.application_id entity_id)
        db.application_projects)
project_ids_for db EntityType.user entity_id = []

-- `dict.fromkeys(ids)`: the first occurrence of each, in order; `seen` are those before.
unfoldable pub from_keys : List String → List String → List String
from_keys seen [] = []
from_keys seen (id ∷ ids) =
    let rest = from_keys (id ∷ seen) ids in
    let skipped = from_keys seen ids in if is_in id seen then skipped else id ∷ rest

abbrev pub project_target : EnforcementKind → String → String → Target
project_target kind id label = record {
  kind = kind;
  target_type = target_project;
  target_id = id;
  target_label = some label;
}

-- The targets of one project, which is not exempt.
unfoldable pub known_project_targets : Option CxProject → String → List Target
known_project_targets none id = project_target disable_auto_triage id id ∷ []
known_project_targets (some p) id =
    if p.is_deleted
    then []
    else project_target disable_auto_triage id p.name ∷ (elim (truthy p.repo_id) [
      | none ↦ []
      | some repo ↦ project_target disable_pr_remediation id p.name ∷ []
    ])

unfoldable pub project_targets : Db → String → List Target
unfolding is_exempt known_project_targets
project_targets db id =
    if is_exempt db EntityType.project id
    then []
    else known_project_targets (project_by_id db id) id

unfoldable pub all_project_targets : Db → List String → List Target
all_project_targets db [] = []
all_project_targets db (id ∷ ids) = project_targets db id ++ all_project_targets db ids

abbrev pub user_target : Db → String → Target
user_target db entity_id = record {
  kind = remove_user_roles;
  target_type = target_user;
  target_id = entity_id;
  target_label =
      some (elim (user_by_id db entity_id) [ some u ↦ display_name u | none ↦ entity_id ]);
}

unfoldable pub user_targets : Db → String → List Target
unfolding is_exempt
user_targets db entity_id =
    if is_exempt db EntityType.user entity_id then [] else user_target db entity_id ∷ []

-- Every concrete change that a breach of this entity's limit implies, exemptions removed.
unfoldable pub plan_targets : Db → EntityType → String → List Target
unfolding user_targets project_ids_for from_keys project_targets all_project_targets
plan_targets db EntityType.user entity_id = user_targets db entity_id
plan_targets db EntityType.group entity_id =
    all_project_targets db (from_keys [] (project_ids_for db EntityType.group entity_id))
plan_targets db EntityType.project entity_id =
    all_project_targets db (from_keys [] (project_ids_for db EntityType.project entity_id))
plan_targets db EntityType.application entity_id =
    all_project_targets db (from_keys [] (project_ids_for db EntityType.application entity_id))
