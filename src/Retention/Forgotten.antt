-- ===== src/Retention/Forgotten.antt =====
-- retention.py, `_prune_enforcement`, and what enforcement.py then does with the target.
use v_cx_credit_guard.Prelude.{
  ℕ, ℤ, ◌≡◌, inl, inr, refl, ap, ◌∙◌, String, Bool, true, false, Option, none, some, List, [], ◌∷◌,
  ◌==◌, All, first_where, delete_where, arith, Bool-cases, str_eq, eq_iff, or_else,
}
use v_cx_credit_guard.Exec.{Exec, pure, gets, ◌>>=◌}
use v_cx_credit_guard.Model.Calendar.{earlier}
use v_cx_credit_guard.Model.Delta.{days_before}
use v_cx_credit_guard.Model.Enums.{is_reversed}
use v_cx_credit_guard.Model.Limits.{EnforcementAction, CreditLimit}
use v_cx_credit_guard.Model.Log.{AuditActor}
use v_cx_credit_guard.Model.Database.{World}
use v_cx_credit_guard.Feed.{record_audit, system_actor}
use v_cx_credit_guard.Checkmarx.{Remote}
use v_cx_credit_guard.Enforcement.Rows.{IsSound, Differs, by_key}
use v_cx_credit_guard.Enforcement.Plan.{Target}
use v_cx_credit_guard.Enforcement.Apply.{
  EnforcementOutcome, action_by_key, key_of, restrict, restrict_found, enforce_target,
}
use v_cx_credit_guard.Retention

none_left :
    (p : EnforcementAction → Bool) (key : String) (x : EnforcementAction)
    (rows : List EnforcementAction)
    → str_eq x.idempotency_key key ≡ true
    → All (Differs x) rows
    → first_where (by_key key) (delete_where p rows) ≡ none
none_left p key x [] same h = refl
none_left p key x (y ∷ rows) same h =
    let rest = none_left p key x rows same h.1 in
    let other : str_eq y.idempotency_key key ≡ false =
      ground (arith, h.0.1, eq_iff x.idempotency_key key, eq_iff y.idempotency_key key) in
    elim (Bool-cases (p y)) [ inl gone ↦ rw gone rest | inr stays ↦ rw (stays, other) rest ]

first_deleted :
    (p : EnforcementAction → Bool) (n : ℕ) (key : String) (a : EnforcementAction)
    (rows : List EnforcementAction)
    → IsSound n rows
    → first_where (by_key key) rows ≡ some a
    → p a ≡ true
    → first_where (by_key key) (delete_where p rows) ≡ none
first_deleted p n key a [] h e gone = refl
first_deleted p n key a (x ∷ rows) h e gone = elim (Bool-cases (str_eq x.idempotency_key key)) [
  | inl same ↦
      let found : x ≡ a = ground arith in rw (ap p found ∙ gone) (none_left p key x rows same h.2)
  | inr other ↦
      let rest = first_deleted p n key a rows h.3 (ground arith) gone in
      elim (Bool-cases (p x)) [ inl out ↦ rw out rest | inr stays ↦ rw (stays, other) rest ]
]

module _ {T : Type 0} where
  record_prune-actions :
      (days : ℕ) (actor : AuditActor) (r : Retention.RetentionResult) (w : World T)
      → ((Retention.record_prune days actor r >>= λ _. pure r) w).1.actions ≡ w.actions
  unfolding Retention.record_prune ◌>>=◌ record_audit
  record_prune-actions days actor r w = elim (Bool-cases (Retention.total r == 0)) [
    | inl nothing ↦ rw nothing refl
    | inr removed ↦ rw removed refl
  ]

  prune_days-actions :
      (days : ℕ) (skipped : List String) (actor : AuditActor) (w : World T)
      → (Retention.prune_days days skipped actor w).1.actions
        ≡ delete_where (Retention.is_old_action (days_before days w.now)) w.actions
  unfolding Retention.prune_days ◌>>=◌ Retention.prune_snapshots Retention.prune_notifications
      Retention.prune_runs Retention.prune_balances Retention.prune_enforcement
      Retention.purge_expired_sessions Retention.prune_login_attempts Retention.prune_period_states
      Retention.prune_audit
  prune_days-actions days skipped actor w = record_prune-actions days actor _ _

module _ {T : Type 0} where
  -- When the only action for a key is one that was reversed and is older than the effective
  -- retention, `prune` deletes it: no action is found for the key any more, and the next
  -- `apply_enforcement` step for a target with this key takes the access away again, as if the
  -- administrator had not given it back.
  pub enforce_target-after_prune :
      (api : Remote T) (limit : CreditLimit) (period_key : String) (actor : AuditActor) (t : Target)
      (o : EnforcementOutcome) (retention_days : ℤ) (text : String) (pruner : Option AuditActor)
      (w : World T) (n : ℕ) (a : EnforcementAction)
      → IsSound n w.actions
      → action_by_key w.db (key_of api limit period_key actor t) ≡ some a
      → is_reversed a.status ≡ true
      → earlier a.created_at (days_before (Retention.effective_days retention_days) w.now) ≡ true
      → let after = (Retention.prune retention_days text pruner w).1 in
        (action_by_key after.db (key_of api limit period_key actor t) ≡ none)
        × (enforce_target api limit period_key actor t o after
            ≡ restrict api limit period_key actor t none o after)
  unfolding Retention.prune Retention.is_old_action enforce_target gets ◌>>=◌
  enforce_target-after_prune api limit period_key actor t o retention_days text pruner w n a h e r
        old =
      let key = key_of api limit period_key actor t in
      let cutoff = days_before (Retention.effective_days retention_days) w.now in
      let after = (Retention.prune retention_days text pruner w).1 in
      let gone : Retention.is_old_action cutoff a ≡ true = rw (old, r) refl in
      let forgotten : action_by_key after.db key ≡ none =
        ap (first_where (by_key key)) (
          prune_days-actions (Retention.effective_days retention_days)
            (Retention.raised_to_minimum retention_days text)
            (or_else pruner (system_actor "retention")) w)
        ∙ first_deleted (Retention.is_old_action cutoff) n key a w.actions h e gone in
      (
        forgotten,
        ap
            (λ x.
              let step : Exec (World T) EnforcementOutcome = elim x [
                | none ↦ restrict api limit period_key actor t none o
                | some b ↦ restrict_found api limit period_key actor b.status t b o
              ] in
              step after)
            forgotten,
      )
