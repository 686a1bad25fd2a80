-- ===== src/Retention/Counted.antt =====
-- retention.py: what the result of `prune` says was removed.
use v_cx_credit_guard.Prelude.{
  ℕ, ℤ, ◌+◌, ◌≡◌, inl, inr, refl, String, Bool, Option, none, List, [], ◌∷◌, ◌==◌, map, length,
  select, delete_where, modify_where, length-append, arith, Bool-cases, if◌then◌else◌,
}
use v_cx_credit_guard.Exec.{Result, ok, err, pure, ◌>>=◌}
use v_cx_credit_guard.Model.Delta.{days_before}
use v_cx_credit_guard.Model.Limits.{EnforcementAction}
use v_cx_credit_guard.Model.Log.{AuditActor}
use v_cx_credit_guard.Model.Database.{Db, World}
use v_cx_credit_guard.Feed.{record_audit}
use v_cx_credit_guard.Retention

length-delete_where {ℓ} :
    {A : Type ℓ} (p : A → Bool) (xs : List A)
    → length xs ≡ length (delete_where p xs) + length (select p xs)
length-delete_where p [] = refl
length-delete_where p (x ∷ xs) =
    let rest = length-delete_where p xs in
    elim (Bool-cases (p x)) [
      | inl gone ↦ rw gone (omega (arith, rest))
      | inr stays ↦ rw stays (omega (arith, rest))
    ]

length-modify_where {ℓ} :
    {A : Type ℓ} (p : A → Bool) (f : A → A) (xs : List A) → length (modify_where p f xs) ≡ length xs
length-modify_where p f [] = refl
length-modify_where p f (x ∷ xs) = omega (arith, length-modify_where p f xs)

deleted_then_modified {ℓ} :
    {A : Type ℓ} (p q : A → Bool) (f : A → A) (xs : List A)
    → length xs ≡ length (modify_where q f (delete_where p xs)) + length (select p xs)
deleted_then_modified p q f xs =
    omega (arith, length-delete_where p xs, length-modify_where q f (delete_where p xs))

module _ {T : Type 0} where
  -- What went from each table, the log apart, is the count of the result.
  abbrev pub Counts : Db → Retention.RetentionResult → World T → Type 0
  Counts db r w =
      (length db.records ≡ length w.records + r.usage_records)
      × (length db.notifications ≡ length w.notifications + r.notifications)
      × (length db.runs ≡ length w.runs + r.scheduler_runs)
      × (length db.balances ≡ length w.balances + r.credit_balances)
      × (length db.actions ≡ length w.actions + r.enforcement_actions)
      × (length db.sessions ≡ length w.sessions + r.sessions)
      × (length db.login_attempts ≡ length w.login_attempts + r.login_attempts)

  -- The log has one entry more where any of the counts is not zero.
  abbrev pub IsCounted : Db → Result Retention.RetentionResult × World T → Type 0
  IsCounted db (ok r, w) =
      Counts db r w
      × (length db.audit_log + (if Retention.total r == 0 then 0 else 1)
          ≡ length w.audit_log + r.audit_entries)
  IsCounted db (err e, w) = ⊥

  record_prune-IsCounted :
      (db : Db) (days : ℕ) (actor : AuditActor) (r : Retention.RetentionResult) (w : World T)
      → Counts db r w
      → length db.audit_log ≡ length w.audit_log + r.audit_entries
      → IsCounted db ((Retention.record_prune days actor r >>= λ _. pure r) w)
  unfolding Retention.record_prune ◌>>=◌ record_audit
  record_prune-IsCounted db days actor r w h e = elim (Bool-cases (Retention.total r == 0)) [
    | inl nothing ↦ rw nothing (h, rw nothing (omega (arith, e)))
    | inr removed ↦ rw removed (h, rw removed (omega (arith, e, length-append w.audit_log)))
  ]

  -- `prune` returns, on every database, and the counts that it returns are the rows that the
  -- tables of records, notifications, runs, balances, actions, sessions, sign-in attempts and
  -- the audit log have lost. The log then has one entry more, unless all counts of the total are
  -- zero.
  pub prune-IsCounted :
      (retention_days : ℤ) (text : String) (actor : Option AuditActor) (w : World T)
      → IsCounted w.db (Retention.prune retention_days text actor w)
  unfolding Retention.prune Retention.prune_days ◌>>=◌ Retention.prune_snapshots
      Retention.prune_notifications Retention.prune_runs Retention.prune_balances
      Retention.prune_enforcement Retention.purge_expired_sessions Retention.prune_login_attempts
      Retention.prune_period_states Retention.prune_audit
  prune-IsCounted retention_days text actor w =
      let cutoff = days_before (Retention.effective_days retention_days) w.now in
      let gone = select (Retention.is_old_action cutoff) w.actions in
      let linked = Retention.is_linked (map (λ (a : EnforcementAction). a.id) gone) in
      record_prune-IsCounted w.db _ _ _ _
        (
          length-delete_where _ w.records,
          deleted_then_modified _ linked (λ n. record n { enforcement_action_id = none })
              w.notifications,
          length-delete_where _ w.runs,
          length-delete_where _ w.balances,
          length-delete_where _ w.actions,
          length-delete_where _ w.sessions,
          length-delete_where _ w.login_attempts,
        )
        (length-delete_where _ w.audit_log)
