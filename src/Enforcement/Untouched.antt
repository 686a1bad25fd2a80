-- ===== src/Enforcement/Untouched.antt =====
-- enforcement.py: the enforcement_action table through `_perform`, `_reconcile`, `_undo` and the
-- writes to feed and log.
use v_cx_credit_guard.Prelude.{ℕ, ◌≤◌, ◌≡◌, String, List, arith}
use v_cx_credit_guard.Exec.{Exec, ◌>>=◌}
use v_cx_credit_guard.Exec.Contracts.{Keeps}
use v_cx_credit_guard.Model.Limits.{EnforcementAction, UndoSnapshot}
use v_cx_credit_guard.Model.Database.{World}
use v_cx_credit_guard.Checkmarx.{Remote, remote}
use v_cx_credit_guard.Feed.{AuditEvent, record_audit, Notice, notify}
use v_cx_credit_guard.Enforcement.Plan.{Target}
use v_cx_credit_guard.Enforcement.Perform

module _ {T : Type 0} (rows : List EnforcementAction) (n : ℕ) where
  -- The actions are `rows`, and no row was numbered below `n`.
  abbrev pub HasActions : World T → Type 0
  HasActions w = (w.actions ≡ rows) × (n ≤ w.next_id)

  abbrev Leaves : {A : Type 0} → Exec (World T) A → Type 0
  Leaves m = Keeps HasActions m

  pub remote-HasActions : {A : Type 0} (m : Exec T A) → Leaves (remote m)
  unfolding remote
  remote-HasActions m = record { at = λ w h. h }

  pub record_audit-HasActions : (e : AuditEvent) → Leaves (record_audit e)
  unfolding record_audit
  record_audit-HasActions e = record { at = λ w h. h }

  pub notify-HasActions : (e : Notice) → Leaves (notify e)
  unfolding notify
  notify-HasActions e = record { at = λ w h. ground arith }

  module _ (api : Remote T) (id : String) where
    perform_user-HasActions : Leaves (Perform.perform_user api id)
    unfolding Perform.perform_user ◌>>=◌
    perform_user-HasActions = record { at = λ w h. ground arith }

    perform_triage-HasActions : Leaves (Perform.perform_triage api id)
    unfolding Perform.perform_triage ◌>>=◌
    perform_triage-HasActions = record { at = λ w h. ground arith }

    perform_pr-HasActions : Leaves (Perform.perform_pr api id)
    unfolding Perform.perform_pr ◌>>=◌
    perform_pr-HasActions = record { at = λ w h. ground arith }

    module _ (s : UndoSnapshot) where
      reconcile_user-HasActions : Leaves (Perform.reconcile_user api s id)
      unfolding Perform.reconcile_user ◌>>=◌
      reconcile_user-HasActions = record { at = λ w h. ground arith }

      reconcile_triage-HasActions : Leaves (Perform.reconcile_triage api s id)
      unfolding Perform.reconcile_triage ◌>>=◌
      reconcile_triage-HasActions = record { at = λ w h. ground arith }

      reconcile_pr-HasActions : Leaves (Perform.reconcile_pr api s id)
      unfolding Perform.reconcile_pr ◌>>=◌
      reconcile_pr-HasActions = record { at = λ w h. ground arith }

      undo_user-HasActions : Leaves (Perform.undo_user api s id)
      unfolding Perform.undo_user ◌>>=◌
      undo_user-HasActions = record { at = λ w h. ground arith }

      undo_triage-HasActions : Leaves (Perform.undo_triage api s id)
      unfolding Perform.undo_triage ◌>>=◌
      undo_triage-HasActions = record { at = λ w h. ground arith }

      undo_pr-HasActions : Leaves (Perform.undo_pr api s id)
      unfolding Perform.undo_pr ◌>>=◌
      undo_pr-HasActions = record { at = λ w h. ground arith }

  module _ (api : Remote T) where
    pub perform-HasActions : (t : Target) → Leaves (Perform.perform api t)
    unfolding Perform.perform ◌>>=◌
    perform-HasActions t = record { at = λ w h. ground arith }

    pub reconcile-HasActions :
        (a : EnforcementAction) (t : Target) → Leaves (Perform.reconcile api a t)
    unfolding Perform.reconcile ◌>>=◌
    reconcile-HasActions a t = record { at = λ w h. ground arith }

    pub undo-HasActions : (a : EnforcementAction) (s : UndoSnapshot) → Leaves (Perform.undo api a s)
    unfolding Perform.undo ◌>>=◌
    undo-HasActions a s = record { at = λ w h. ground arith }
