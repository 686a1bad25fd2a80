-- ===== src/Enforcement/Allowed.antt =====
-- enforcement.py: whom `plan_targets` may touch.
use v_cx_credit_guard.Prelude.{
  ◌≡◌, ◌⊎◌, inl, inr, refl, String, Bool, true, false, Option, none, some, List, [], ◌∷◌, All,
  All-append, is_some, Bool-cases, if◌then◌else◌,
}
use v_cx_credit_guard.Model.Enums.{
  EntityType, remove_user_roles, disable_auto_triage, disable_pr_remediation,
}
use v_cx_credit_guard.Model.Org.{CxProject}
use v_cx_credit_guard.Model.Database.{Db}
use v_cx_credit_guard.Checkmarx.{truthy, is_in}
use v_cx_credit_guard.Enforcement.Plan.{
  Target, is_exempt, project_by_id, project_ids_for, from_keys, project_target, user_target,
  known_project_targets, project_targets, all_project_targets, user_targets, plan_targets,
}

-- A project that is not marked deleted, or is not known.
abbrev pub IsLive : Option CxProject → Type 0
IsLive none = Unit
IsLive (some p) = p.is_deleted ≡ false

-- A project that is known, with a repository id.
abbrev pub HasRepo : Option CxProject → Type 0
HasRepo none = ⊥
HasRepo (some p) = is_some (truthy p.repo_id) ≡ true

-- `id` is among the names.
abbrev pub IsMember : String → List String → Type 0
IsMember id [] = ⊥
IsMember id (n ∷ names) = (n ≡ id) ⊎ IsMember id names

module _ (db : Db) (entity_type : EntityType) (entity_id : String) where
  abbrev IsProjectTarget : Target → Type 0
  IsProjectTarget t =
      (is_exempt db EntityType.project t.target_id ≡ false)
      × IsLive (project_by_id db t.target_id)
      × IsMember t.target_id (project_ids_for db entity_type entity_id)

  -- What a breach of this entity's limit may change: the roles of the user whose limit it is, or a
  -- live project of the entity, neither of them exempt.
  abbrev pub IsAllowed : Target → Type 0
  IsAllowed t = elim t.kind [
    | remove_user_roles ↦
        (entity_type ≡ EntityType.user)
        × (t.target_id ≡ entity_id)
        × (is_exempt db EntityType.user entity_id ≡ false)
    | disable_auto_triage ↦ IsProjectTarget t
    | disable_pr_remediation ↦ IsProjectTarget t × HasRepo (project_by_id db t.target_id)
  ]

  known_project_targets-IsAllowed :
      (id : String)
      → is_exempt db EntityType.project id ≡ false
      → IsMember id (project_ids_for db entity_type entity_id)
      → (p : Option CxProject) → project_by_id db id ≡ p
      → All IsAllowed (known_project_targets p id)
  unfolding known_project_targets
  known_project_targets-IsAllowed id e m none k = ((e, rw k tt, m), tt)
  known_project_targets-IsAllowed id e m (some p) k = elim (Bool-cases p.is_deleted) [
    | inl gone ↦ rw gone tt
    | inr live ↦ rw live ((e, rw k live, m), pull_requests (truthy p.repo_id) refl live)
  ]
    where
      pull_requests :
          (repo : Option String)
          → truthy p.repo_id ≡ repo
          → p.is_deleted ≡ false
          → All IsAllowed (elim repo [
            | none ↦ []
            | some r ↦ project_target disable_pr_remediation id p.name ∷ []
          ])
      pull_requests none h live = tt
      pull_requests (some r) h live = (((e, rw k live, m), rw (k, h) refl), tt)

  project_targets-IsAllowed :
      (id : String)
      → IsMember id (project_ids_for db entity_type entity_id)
      → All IsAllowed (project_targets db id)
  unfolding project_targets
  project_targets-IsAllowed id m = elim (Bool-cases (is_exempt db EntityType.project id)) [
    | inl exempt ↦ rw exempt tt
    | inr other ↦ simp other (known_project_targets-IsAllowed id other m _ refl)
  ]

  all_project_targets-IsAllowed :
      (ids : List String)
      → All (λ id. IsMember id (project_ids_for db entity_type entity_id)) ids
      → All IsAllowed (all_project_targets db ids)
  unfolding all_project_targets
  all_project_targets-IsAllowed [] h = tt
  all_project_targets-IsAllowed (id ∷ ids) h =
      All-append IsAllowed (project_targets db id) (all_project_targets db ids)
        (project_targets-IsAllowed id h.0) (all_project_targets-IsAllowed ids h.1)

  from_keys-IsMember :
      (seen ids : List String)
      → All (λ id. IsMember id (project_ids_for db entity_type entity_id)) ids
      → All (λ id. IsMember id (project_ids_for db entity_type entity_id)) (from_keys seen ids)
  unfolding from_keys
  from_keys-IsMember seen [] h = tt
  from_keys-IsMember seen (id ∷ ids) h = elim (Bool-cases (is_in id seen)) [
    | inl old ↦ rw old (from_keys-IsMember seen ids h.1)
    | inr new ↦ rw new (h.0, from_keys-IsMember (id ∷ seen) ids h.1)
  ]

  project_plan-IsAllowed :
      All IsAllowed
        (all_project_targets db (from_keys [] (project_ids_for db entity_type entity_id)))
  project_plan-IsAllowed =
      all_project_targets-IsAllowed _ (from_keys-IsMember [] _ (IsMember_all _ λ id h. h))
    where
      IsMember_all :
          (ids : List String)
          → ((id : String)
              → IsMember id ids
              → IsMember id (project_ids_for db entity_type entity_id))
          → All (λ id. IsMember id (project_ids_for db entity_type entity_id)) ids
      IsMember_all [] f = tt
      IsMember_all (id ∷ ids) f = (f id (inl refl), IsMember_all ids λ x h. f x (inr h))

user_targets-IsAllowed :
    (db : Db) (entity_id : String)
    → All (IsAllowed db EntityType.user entity_id) (user_targets db entity_id)
unfolding user_targets
user_targets-IsAllowed db entity_id = planned (is_exempt db EntityType.user entity_id) refl
  where
    planned :
        (b : Bool)
        → is_exempt db EntityType.user entity_id ≡ b
        → All
            (IsAllowed db EntityType.user entity_id)
            (if b then [] else user_target db entity_id ∷ [])
    planned false e = ((refl, refl, e), tt)
    planned true e = tt

-- Every change that a breach of an entity's limit plans is allowed: the roles of that very user and
-- only on a limit of a user, or a project of the entity that is not deleted, with a repository id
-- where the change is on pull requests; and never an exempt user or project.
pub plan_targets-IsAllowed :
    (db : Db) (entity_type : EntityType) (entity_id : String)
    → All (IsAllowed db entity_type entity_id) (plan_targets db entity_type entity_id)
unfolding plan_targets
plan_targets-IsAllowed db EntityType.user entity_id = user_targets-IsAllowed db entity_id
plan_targets-IsAllowed db EntityType.group entity_id =
    project_plan-IsAllowed db EntityType.group entity_id
plan_targets-IsAllowed db EntityType.project entity_id =
    project_plan-IsAllowed db EntityType.project entity_id
plan_targets-IsAllowed db EntityType.application entity_id =
    project_plan-IsAllowed db EntityType.application entity_id
