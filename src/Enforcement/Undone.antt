-- ===== src/Enforcement/Undone.antt =====
-- enforcement.py: `_undo` after `_perform`, on a tenant that reads back what was written to it.
use v_cx_credit_guard.Prelude.{◌≡◌, refl, sym, ap, ◌∙◌, String, Bool, true, false, some, ◌∷◌}
use v_cx_credit_guard.Exec.{Exec, ok, pure, gets, modify}
use v_cx_credit_guard.Exec.Contracts.{then_returns}
use v_cx_credit_guard.Model.Org.{Config}
use v_cx_credit_guard.Model.Limits.{UndoSnapshot, no_snapshot}
use v_cx_credit_guard.Model.Database.{World}
use v_cx_credit_guard.Checkmarx.{Remote, AutoTriageState, remote, get_auto_triage, set_auto_triage}
use v_cx_credit_guard.Enforcement.Perform.{perform_triage, undo_triage, on_project, non_empty}

-- The tenant keeps a configuration for each project: a GET reads it, a PUT replaces it.
pub record KeepsConfiguration {T : Type 0} (api : Remote T) : Type 0 where
  pub read : T → String → AutoTriageState
  pub write : String → Bool → Config → T → T
  pub reads : (p : String) (t : T) → api.get_configuration p t ≡ (ok (read t p), t)
  pub writes :
      (p : String) (e : Bool) (c : Config) (t : T)
      → api.put_configuration p e c t ≡ (ok tt, write p e c t)
  pub read_back :
      (p : String) (e : Bool) (c : Config) (t : T)
      → read (write p e c t) p ≡ record { enabled = some e; config = c }

pub remote_returns :
    {T A : Type 0} (m : Exec T A) (a : A) (w : World T) (t : T)
    → m w.tenant ≡ (ok a, t)
    → remote m w ≡ (ok a, record w { tenant = t })
unfolding remote
remote_returns m a w t e = ap (λ x. (x.0, record w { tenant = x.1 })) e

abbrev pub triage_state : Bool → Config → AutoTriageState
triage_state enabled config = record { enabled = some enabled; config = config }

module _ {T : Type 0} (api : Remote T) (tenant : KeepsConfiguration api) (project_id : String)
    (c : String × String) (config : Config) (w : World T) where
  -- The snapshot of a project whose auto triage was on.
  abbrev was_on : UndoSnapshot
  was_on = record no_snapshot { enabled_before = some true; config_before = some (c ∷ config) }

  abbrev written : Bool → World T
  written enabled = record w { tenant = tenant.write project_id enabled (c ∷ config) w.tenant }

  writes_triage :
      (enabled : Bool)
      → remote (set_auto_triage api project_id enabled (c ∷ config)) w ≡ (ok tt, written enabled)
  unfolding set_auto_triage
  writes_triage enabled =
      remote_returns _ tt w _ (tenant.writes project_id enabled (c ∷ config) w.tenant)

  reads_triage :
      tenant.read w.tenant project_id ≡ triage_state true (c ∷ config)
      → remote (get_auto_triage api project_id) w ≡ (ok (triage_state true (c ∷ config)), w)
  unfolding get_auto_triage
  reads_triage on =
      remote_returns _ _ w w.tenant
        (tenant.reads project_id w.tenant ∙ ap (λ x. (ok x, w.tenant)) on)

  abbrev disabled : World T
  disabled =
      on_project project_id
        (λ p. record p {
          auto_triage_enabled = some false;
          auto_triage_config = non_empty (c ∷ config);
          ai_state_checked_at = some w.now;
        })
        (written false)

  abbrev enabled_again : World T
  enabled_again =
      on_project project_id
        (λ p. record p { auto_triage_enabled = some true; ai_state_checked_at = some w.now })
        (written true)

  performs :
      tenant.read w.tenant project_id ≡ triage_state true (c ∷ config)
      → perform_triage api project_id w ≡ (ok was_on, disabled)
  unfolding perform_triage pure gets modify
  performs on = then_returns _ _ (triage_state true (c ∷ config)) w w _ (reads_triage on) (
      then_returns _ _ tt w (written false) _ (writes_triage false) (
        then_returns _ _ w.now (written false) (written false) _ refl
          (then_returns _ _ tt (written false) disabled _ refl refl)))

  undoes : undo_triage api was_on project_id w ≡ (ok tt, enabled_again)
  unfolding undo_triage pure gets modify
  undoes =
      then_returns _ _ tt w (written true) _ (writes_triage true)
        (then_returns _ _ w.now (written true) (written true) _ refl refl)

module _ {T : Type 0} (api : Remote T) (tenant : KeepsConfiguration api) where
  -- Where auto triage of a project is on with a configuration, disabling it returns and leaves it
  -- off; and undoing that with its snapshot returns, whatever has happened to the tenant and the
  -- database in between, and leaves auto triage on with the configuration that was there before.
  pub undo_triage-perform_triage :
      (project_id : String) (c : String × String) (config : Config) (w later : World T)
      → tenant.read w.tenant project_id ≡ triage_state true (c ∷ config)
      → (s : UndoSnapshot) × (w' w'' : World T) × (perform_triage api project_id w ≡ (ok s, w'))
        × (tenant.read w'.tenant project_id ≡ triage_state false (c ∷ config))
        × (undo_triage api s project_id later ≡ (ok tt, w''))
        × (tenant.read w''.tenant project_id ≡ tenant.read w.tenant project_id)
  unfolding on_project
  undo_triage-perform_triage project_id c config w later on = (
    was_on api tenant project_id c config w,
    disabled api tenant project_id c config w,
    enabled_again api tenant project_id c config later,
    performs api tenant project_id c config w on,
    tenant.read_back project_id false (c ∷ config) w.tenant,
    undoes api tenant project_id c config later,
    tenant.read_back project_id true (c ∷ config) later.tenant ∙ sym on,
  )
