-- ===== src/Enforcement/Perform.antt =====
-- enforcement.py: the change itself (`_perform`), its verification (`_reconcile`) and its undoing
-- (`_undo`), one clause for each kind.
use v_cx_credit_guard.Prelude.{
  String, Bool, true, false, Option, none, some, List, [], ◌∷◌, map, select, str_eq, modify_where,
  or_else, if◌then◌else◌,
}
use text.Mathlib.Text.{is_lt}
use Prim.Native.String.{compare}
use v_cx_credit_guard.Exec.{Exec, checkmarx, plain, pure, raise, gets, modify, ◌>>=◌, ◌>>◌}
use v_cx_credit_guard.Model.Enums.{remove_user_roles, disable_auto_triage, disable_pr_remediation}
use v_cx_credit_guard.Model.Org.{CxProject, Config}
use v_cx_credit_guard.Model.Limits.{RoleRef, UndoSnapshot, no_snapshot, EnforcementAction}
use v_cx_credit_guard.Model.Database.{World}
use v_cx_credit_guard.Checkmarx.{
  Remote, remote, resolve_platform_client_uuid, fetch_user_client_roles, remove_user_client_roles,
  add_user_client_roles, get_auto_triage, set_auto_triage, set_pr_remediation_severities,
  get_pr_remediation_severities, ai_role_names, default_pr_severities, is_in, truthy,
}
use v_cx_credit_guard.Enforcement.Plan.{Target, project_by_id}
use v_cx_credit_guard.Enforcement.Messages.{or_empty}

abbrev pub is_ai_role : RoleRef → Bool
is_ai_role r = is_in r.name ai_role_names

-- `sorted(set(names))`
unfoldable pub insert_sorted : String → List String → List String
insert_sorted n [] = n ∷ []
insert_sorted n (m ∷ ms) =
    let rest = insert_sorted n ms in
    if str_eq n m then m ∷ ms else if is_lt (compare n m) then n ∷ m ∷ ms else m ∷ rest

unfoldable pub sorted_set : List String → List String
unfolding insert_sorted
sorted_set [] = []
sorted_set (n ∷ ns) = insert_sorted n (sorted_set ns)

-- `{…} or None`
abbrev pub non_empty : Config → Option Config
non_empty [] = none
non_empty (c ∷ config) = some (c ∷ config)

module _ {T : Type 0} where
  -- The write to the synced project row, where there is one.
  unfoldable pub on_project : String → (CxProject → CxProject) → World T → World T
  on_project id f w = record w {
    db = record w.db { projects = modify_where (λ p. str_eq p.id id) f w.projects };
  }

-- `project.pr_remediation_severities or DEFAULT_PR_SEVERITIES`
abbrev cached_severities : CxProject → List String
cached_severities p = elim p.pr_remediation_severities [
  | none ↦ default_pr_severities
  | some l ↦ elim l [ [] ↦ default_pr_severities | s ∷ r ↦ s ∷ r ]
]

module _ {T : Type 0} (api : Remote T) where
  -- `resolver.client_uuid`, which asks the tenant once for each run.
  unfoldable pub client_uuid : Exec (World T) String
  unfolding remote resolve_platform_client_uuid
  client_uuid = do
    cached ← gets (λ w. w.resolver_uuid)
    elim cached [
      | some uuid ↦ pure uuid
      | none ↦ do
        uuid ← remote (resolve_platform_client_uuid api)
        modify (λ w. record w { resolver_uuid = some uuid })
        pure uuid
    ]

  -- `snapshot.get("client_uuid") or resolver.client_uuid`
  unfoldable pub snapshot_client_uuid : UndoSnapshot → Exec (World T) String
  unfolding client_uuid
  snapshot_client_uuid s = elim (truthy s.client_uuid) [
    | some uuid ↦ pure uuid
    | none ↦ client_uuid
  ]

  unfoldable pub perform_user : String → Exec (World T) UndoSnapshot
  unfolding client_uuid remote fetch_user_client_roles remove_user_client_roles sorted_set
  perform_user user_id = do
    uuid ← client_uuid
    current ← remote (fetch_user_client_roles api user_id uuid)
    let to_remove = select is_ai_role current
    remote (remove_user_client_roles api user_id uuid to_remove)
    pure (record no_snapshot {
      client_uuid = some uuid;
      removed_roles = some to_remove;
      roles_before = some (sorted_set (map (λ (r : RoleRef). r.name) current));
    })

  unfoldable pub perform_triage : String → Exec (World T) UndoSnapshot
  unfolding remote get_auto_triage set_auto_triage on_project
  perform_triage project_id = do
    state ← remote (get_auto_triage api project_id)
    if or_else state.enabled false
        then remote (set_auto_triage api project_id false state.config)
        else pure tt
    now ← gets (λ w. w.now)
    modify (
        on_project project_id λ p. record p {
          auto_triage_enabled = some false;
          auto_triage_config = non_empty state.config;
          ai_state_checked_at = some now;
        })
    pure (record no_snapshot {
      enabled_before = some (or_else state.enabled false);
      config_before = some state.config;
    })

  unfoldable pub perform_pr : String → Exec (World T) UndoSnapshot
  unfolding remote set_pr_remediation_severities get_pr_remediation_severities on_project
  perform_pr project_id = do
    found ← gets (λ w. project_by_id w.db project_id)
    elim found [
      | none ↦ no_repository
      | some project ↦ elim (truthy project.repo_id) [
        | none ↦ no_repository
        | some repo ↦ do
          read ← remote (get_pr_remediation_severities api repo project_id)
          let before = or_else read (cached_severities project)
          remote (set_pr_remediation_severities api repo project_id [])
          now ← gets (λ w. w.now)
          modify (
              on_project project_id λ p. record p {
                pr_remediation_severities = some [];
                ai_state_checked_at = some now;
              })
          pure (record no_snapshot { repo_id = some repo; severities_before = some before })
      ]
    ]
    where
      no_repository : Exec (World T) UndoSnapshot
      no_repository = raise (
          checkmarx plain
            "No repository id is known for this project, so PR triage and remediation cannot be changed.")

  -- `_perform`: make the change and return the snapshot that undoes it.
  unfoldable pub perform : Target → Exec (World T) UndoSnapshot
  unfolding perform_user perform_triage perform_pr
  perform t = elim t.kind [
    | remove_user_roles ↦ perform_user t.target_id
    | disable_auto_triage ↦ perform_triage t.target_id
    | disable_pr_remediation ↦ perform_pr t.target_id
  ]

-- `snapshot.get("repo_id") or (project.repo_id if project else None)`
unfoldable pub repo_for : UndoSnapshot → Option CxProject → Option String
repo_for s project = elim (truthy s.repo_id) [
  | some repo ↦ some repo
  | none ↦ elim project [ none ↦ none | some p ↦ truthy p.repo_id ]
]

-- Whether severities were found switched on, or could not be read.
abbrev drifted : Option (List String) → Bool
drifted none = true
drifted (some []) = false
drifted (some (s ∷ r)) = true

abbrev pub is_whole : RoleRef → Bool
is_whole r = if str_eq r.id "" then false else if str_eq r.name "" then false else true

module _ {T : Type 0} (api : Remote T) where
  unfoldable pub reconcile_user : UndoSnapshot → String → Exec (World T) Bool
  unfolding snapshot_client_uuid remote fetch_user_client_roles remove_user_client_roles
  reconcile_user s user_id = do
    uuid ← snapshot_client_uuid api s
    current ← remote (fetch_user_client_roles api user_id uuid)
    elim (select is_ai_role current) [
      | [] ↦ pure false
      | r ∷ to_remove ↦ do
        remote (remove_user_client_roles api user_id uuid (r ∷ to_remove))
        pure true
    ]

  unfoldable pub reconcile_triage : UndoSnapshot → String → Exec (World T) Bool
  unfolding remote get_auto_triage set_auto_triage on_project
  reconcile_triage s project_id = do
    state ← remote (get_auto_triage api project_id)
    if or_else state.enabled false
        then (do
          let config = or_else s.config_before []
          remote (set_auto_triage api project_id false config)
          now ← gets (λ w. w.now)
          modify (
              on_project project_id λ p. record p {
                auto_triage_enabled = some false;
                auto_triage_config = non_empty config;
                ai_state_checked_at = some now;
              })
          pure true)
        else pure false

  unfoldable pub reconcile_pr : UndoSnapshot → String → Exec (World T) Bool
  unfolding repo_for remote get_pr_remediation_severities set_pr_remediation_severities on_project
  reconcile_pr s project_id = do
    project ← gets (λ w. project_by_id w.db project_id)
    elim (repo_for s project) [
      | none ↦ pure false
      | some repo ↦ do
        current ← remote (get_pr_remediation_severities api repo project_id)
        if drifted current
            then (do
              remote (set_pr_remediation_severities api repo project_id [])
              now ← gets (λ w. w.now)
              modify (
                  on_project project_id λ p. record p {
                    pr_remediation_severities = some [];
                    ai_state_checked_at = some now;
                  })
              pure true)
            else pure false
    ]

  -- `_reconcile`: whether the restriction had drifted and was asserted again.
  unfoldable pub reconcile : EnforcementAction → Target → Exec (World T) Bool
  unfolding reconcile_user reconcile_triage reconcile_pr
  reconcile a t =
      let s = or_else a.undo_snapshot no_snapshot in
      elim a.kind [
        | remove_user_roles ↦ reconcile_user s t.target_id
        | disable_auto_triage ↦ reconcile_triage s t.target_id
        | disable_pr_remediation ↦ reconcile_pr s t.target_id
      ]

  unfoldable pub undo_user : UndoSnapshot → String → Exec (World T) Unit
  unfolding snapshot_client_uuid remote add_user_client_roles
  undo_user s user_id = elim (select is_whole (or_empty s.removed_roles)) [
    | [] ↦ pure tt
    | r ∷ roles ↦ do
      uuid ← snapshot_client_uuid api s
      remote (add_user_client_roles api user_id uuid (r ∷ roles))
  ]

  unfoldable pub undo_triage : UndoSnapshot → String → Exec (World T) Unit
  unfolding remote set_auto_triage on_project
  undo_triage s project_id =
      if or_else s.enabled_before false
      then (do
        remote (set_auto_triage api project_id true (or_else s.config_before []))
        now ← gets (λ w. w.now)
        modify (
            on_project project_id
              λ p. record p { auto_triage_enabled = some true; ai_state_checked_at = some now }))
      else pure tt

  unfoldable pub undo_pr : UndoSnapshot → String → Exec (World T) Unit
  unfolding repo_for remote set_pr_remediation_severities on_project
  undo_pr s project_id = do
    let severities = or_else s.severities_before default_pr_severities
    project ← gets (λ w. project_by_id w.db project_id)
    elim (repo_for s project) [
      | none ↦ raise (
          checkmarx plain
            "The repository id recorded for this action is missing, so PR triage and remediation cannot be restored automatically.")
      | some repo ↦ do
        remote (set_pr_remediation_severities api repo project_id severities)
        now ← gets (λ w. w.now)
        modify (
            on_project project_id λ p. record p {
              pr_remediation_severities = some severities;
              ai_state_checked_at = some now;
            })
    ]

  -- `_undo`
  unfoldable pub undo : EnforcementAction → UndoSnapshot → Exec (World T) Unit
  unfolding undo_user undo_triage undo_pr
  undo a s = elim a.kind [
    | remove_user_roles ↦ undo_user s a.target_id
    | disable_auto_triage ↦ undo_triage s a.target_id
    | disable_pr_remediation ↦ undo_pr s a.target_id
  ]
