-- ===== src/Enforcement/Snapshots.antt =====
-- enforcement.py: the snapshot that `_perform` returns.
use v_cx_credit_guard.Prelude.{
  ℕ, ◌≡◌, Option-cases, inl, inr, refl, true, Bool, String, ◌&&◌, is_some,
}
use v_cx_credit_guard.Exec.{Exec, Result, ok, err, pure, raise}
use v_cx_credit_guard.Exec.Contracts.{Post, Ensures, Keeps, Ensures-bind}
use v_cx_credit_guard.Model.Enums.{
  EnforcementKind, remove_user_roles, disable_auto_triage, disable_pr_remediation,
}
use v_cx_credit_guard.Model.Limits.{UndoSnapshot}
use v_cx_credit_guard.Model.Database.{World}
use v_cx_credit_guard.Checkmarx.{Remote, truthy}
use v_cx_credit_guard.Enforcement.Plan.{Target, idempotency_key}
use v_cx_credit_guard.Enforcement.Perform

-- The snapshot holds what `_undo` reads for the kind: the client and the roles that were taken away,
-- or the state and the configuration of auto triage, or the repository and its severities.
abbrev pub holds_values : EnforcementKind → UndoSnapshot → Bool
holds_values remove_user_roles s = is_some s.client_uuid && is_some s.removed_roles
holds_values disable_auto_triage s = is_some s.enabled_before && is_some s.config_before
holds_values disable_pr_remediation s = is_some s.repo_id && is_some s.severities_before

-- The key names the kind, between the period and the target.
abbrev pub NamesKind : EnforcementKind → String → Type 0
NamesKind k key =
    (id : ℕ) × (period : String) × (target : String) × (key ≡ idempotency_key id period k target)

module _ {T : Type 0} where
  abbrev pub Anything : World T → Type 0
  Anything w = Unit

  always : {A : Type 0} (m : Exec (World T) A) → Ensures Anything m (λ _. Anything) Anything
  always {A} m = record { at = λ w h. go (m w) }
    where
      go : (x : Result A × World T) → Post {S = World T} (λ (_ : A). Anything) Anything x
      go (ok a, w) = tt
      go (err e, w) = tt

  abbrev Returns : EnforcementKind → Exec (World T) UndoSnapshot → Type 0
  Returns k m = Ensures Anything m (λ s _. holds_values k s ≡ true) Anything

module _ {T : Type 0} (api : Remote T) where
  perform_user-Returns : (id : String) → Returns remove_user_roles (Perform.perform_user api id)
  unfolding Perform.perform_user pure
  perform_user-Returns id =
      Ensures-bind (λ _. Anything) (always _)
        λ uuid.
          Ensures-bind (λ _. Anything) (always _)
            λ current. Ensures-bind (λ _. Anything) (always _) λ _. record { at = λ w h. refl }

  perform_triage-Returns :
      (id : String) → Returns disable_auto_triage (Perform.perform_triage api id)
  unfolding Perform.perform_triage pure
  perform_triage-Returns id =
      Ensures-bind (λ _. Anything) (always _)
        λ state.
          Ensures-bind (λ _. Anything) (always _)
            λ _.
              Ensures-bind (λ _. Anything) (always _)
                λ now. Ensures-bind (λ _. Anything) (always _) λ _. record { at = λ w h. refl }

  perform_pr-Returns : (id : String) → Returns disable_pr_remediation (Perform.perform_pr api id)
  unfolding Perform.perform_pr pure raise
  perform_pr-Returns id =
      Ensures-bind (λ _. Anything) (always _)
        λ found. elim (Option-cases found) [
          | inl unknown ↦ rw unknown (record { at = λ w h. tt })
          | inr (project, known) ↦ rw known (elim (Option-cases (truthy project.repo_id)) [
            | inl missing ↦ rw missing (record { at = λ w h. tt })
            | inr (repo, there) ↦ rw there (
                Ensures-bind (λ _. Anything) (always _)
                  λ read.
                    Ensures-bind (λ _. Anything) (always _)
                      λ _.
                        Ensures-bind (λ _. Anything) (always _)
                          λ now.
                            Ensures-bind (λ _. Anything) (always _)
                              λ _. record { at = λ w h. refl })
          ])
        ]

  -- What `_perform` returns has the values of its target's kind.
  pub perform-Returns : (t : Target) → Returns t.kind (Perform.perform api t)
  unfolding Perform.perform
  perform-Returns t = go t.kind
    where
      go :
          (k : EnforcementKind)
          → Returns k (elim k [
            | remove_user_roles ↦ Perform.perform_user api t.target_id
            | disable_auto_triage ↦ Perform.perform_triage api t.target_id
            | disable_pr_remediation ↦ Perform.perform_pr api t.target_id
          ])
      go remove_user_roles = perform_user-Returns t.target_id
      go disable_auto_triage = perform_triage-Returns t.target_id
      go disable_pr_remediation = perform_pr-Returns t.target_id

-- What a call keeps holds beside what it returns.
pub Keeps-Returns :
    {T A : Type 0} {P : World T → Type 0} {Q : A → Type 0} (m : Exec (World T) A)
    → Keeps P m
    → Ensures Anything m (λ a _. Q a) Anything
    → Ensures P m (λ a w. P w × Q a) P
Keeps-Returns {T} {A} {P} {Q} m k r = record { at = λ w h. go (m w) (k.at w h) (r.at w tt) }
  where
    go :
        (x : Result A × World T)
        → P x.1
        → Post (λ a _. Q a) Anything x
        → Post (λ a w. P w × Q a) P x
    go (ok a, w) h q = (h, q)
    go (err e, w) h q = h
