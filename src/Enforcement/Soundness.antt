-- ===== src/Enforcement/Soundness.antt =====
-- enforcement.py: the enforcement_action table through `apply_enforcement`.
use v_cx_credit_guard.Prelude.{
  ℕ, ◌≡◌, inl, inr, refl, String, Bool, true, false, Option, none, some, List, [], ◌∷◌, first_where,
  arith, if◌then◌else◌, Option-cases, Bool-cases,
}
use v_cx_credit_guard.Exec.{Exec, Attempt, returned, failed, attempt, pure, gets, modify}
use v_cx_credit_guard.Exec.Contracts.{
  Ensures, Keeps, Keeps-Ensures, Ensures-Keeps, Ensures-bind, Ensures-gets, Ensures_mono,
  Keeps-bind, Keeps-pure, Keeps-attempt, Ensures-attempt,
}
use v_cx_credit_guard.Model.Enums.{EnforcementStatus, pending, applied, reversed}
use v_cx_credit_guard.Model.Limits.{CreditLimit, UndoSnapshot, EnforcementAction}
use v_cx_credit_guard.Model.Log.{AuditActor}
use v_cx_credit_guard.Model.Database.{World}
use v_cx_credit_guard.Checkmarx.{Remote}
use v_cx_credit_guard.Feed.{AuditEvent, record_audit, Notice, notify}
use v_cx_credit_guard.Enforcement.Plan.{Target, is_exempt, plan_targets}
use v_cx_credit_guard.Enforcement.Perform
use v_cx_credit_guard.Enforcement.Apply.{
  EnforcementOutcome, action_by_key, put_action, add_action, key_of, begin_attempt, record_failure,
  record_success, record_outcome, restrict, note_reconciled, record_verified, verify, was_exempted,
  reopened, restrict_found, add_skipped, on_target, enforce_target, enforce_targets, enforce_plan,
  apply_enforcement,
}
use v_cx_credit_guard.Enforcement.Untouched.{
  HasActions, perform-HasActions, reconcile-HasActions, record_audit-HasActions, notify-HasActions,
}
use v_cx_credit_guard.Enforcement.Snapshots.{holds_values, perform-Returns, Keeps-Returns}
use v_cx_credit_guard.Enforcement.Rows.{
  IsReversible, IsReversible-first_where, IsSound, HasRow, by_key, IsSound-mono, HasRow-first_where,
  put-IsSound, HasRow-put, HasRow-append, append-IsSound,
}

-- The table of a world.
abbrev pub HasSoundActions : {T : Type 0} → World T → Type 0
HasSoundActions w = IsSound w.next_id w.actions

-- The same, with the row of an action in it.
abbrev SoundWith : {T : Type 0} → EnforcementAction → World T → Type 0
SoundWith a w = IsSound w.next_id w.actions × HasRow a.id a.idempotency_key w.actions

module _ {T A : Type 0} {m : Exec (World T) A} where
  -- What leaves the actions alone keeps the table sound.
  pub Keeps-HasSoundActions :
      ((rows : List EnforcementAction) (n : ℕ) → Keeps (HasActions rows n) m)
      → Keeps HasSoundActions m
  Keeps-HasSoundActions k = record {
    at = λ w h.
        let e = (k w.actions w.next_id).at w (refl, omega arith) in
        rw e.0 (IsSound-mono _ _ w.actions e.1 h);
  }

  Keeps-SoundWith :
      (a : EnforcementAction)
      → ((rows : List EnforcementAction) (n : ℕ) → Keeps (HasActions rows n) m)
      → Keeps (SoundWith a) m
  Keeps-SoundWith a k = record {
    at = λ w h.
        let e = (k w.actions w.next_id).at w (refl, omega arith) in
        rw e.0 (IsSound-mono _ _ w.actions e.1 h.0, h.1);
  }

-- A write of an action that is in the table.
put_action-HasSoundActions :
    {T : Type 0} (a b : EnforcementAction)
    → b.id ≡ a.id
    → b.idempotency_key ≡ a.idempotency_key
    → IsReversible b
    → Ensures
        (SoundWith {T = T} a)
        (modify (put_action b))
        (λ _ w. HasSoundActions w)
        HasSoundActions
unfolding put_action modify
put_action-HasSoundActions a b e k v = record {
  at = λ w h. put-IsSound w.next_id b w.actions (rw (e, k) h.1) v h.0;
}

module _ {T : Type 0} where
  pub record_audit-HasSoundActions :
      (e : AuditEvent) → Keeps (HasSoundActions {T = T}) (record_audit e)
  record_audit-HasSoundActions e = Keeps-HasSoundActions λ rows n. record_audit-HasActions rows n e

  pub notify-HasSoundActions : (e : Notice) → Keeps (HasSoundActions {T = T}) (notify e)
  notify-HasSoundActions e = Keeps-HasSoundActions λ rows n. notify-HasActions rows n e

module _ {T : Type 0} (api : Remote T) (limit : CreditLimit) (key : String)
    (actor : AuditActor) where
  -- What the lookup of the row by its key has found.
  abbrev Found : Target → Option EnforcementAction → World T → Type 0
  Found t none w =
      IsSound w.next_id w.actions
      × (first_where (by_key (key_of api limit key actor t)) w.actions ≡ none)
  Found t (some a) w =
      SoundWith a w × IsReversible a × (a.idempotency_key ≡ key_of api limit key actor t)

  begin_attempt-HasSoundActions :
      (t : Target) (found : Option EnforcementAction)
      → Ensures
          (Found t found)
          (begin_attempt api limit key actor t found)
          (λ a w. SoundWith a w × (a.idempotency_key ≡ key_of api limit key actor t))
          HasSoundActions
  unfolding begin_attempt put_action add_action
  begin_attempt-HasSoundActions t none = record {
    at = λ w h. (
      (
        append-IsSound w.next_id _ w.actions refl h.1 (λ p. cc p) h.0,
        HasRow-append _ _ _ w.actions refl refl,
      ),
      refl,
    );
  }
  begin_attempt-HasSoundActions t (some a) = record {
    at = λ w h. (
      (
        put-IsSound w.next_id _ w.actions h.0.1 h.1 h.0.0,
        HasRow-put _ _ _ w.actions h.0.1 refl refl,
      ),
      h.2,
    );
  }

  record_success-HasSoundActions :
      (t : Target) (a : EnforcementAction) (s : UndoSnapshot) (o : EnforcementOutcome)
      → a.idempotency_key ≡ key_of api limit key actor t
      → holds_values t.kind s ≡ true
      → Ensures
          (SoundWith a)
          (record_success api limit key actor t a s o)
          (λ _ w. HasSoundActions w)
          HasSoundActions
  unfolding record_success key_of
  record_success-HasSoundActions t a s o keyed whole =
      Ensures-bind (λ now. SoundWith a) (Ensures-gets (λ w. w.now))
        λ now.
          Ensures-bind (λ _. HasSoundActions)
            (put_action-HasSoundActions a _ refl refl
              (λ _. (t.kind, s, refl, whole, (limit.id, key, t.target_id, keyed))))
            λ _. Keeps-Ensures (
              Keeps-bind (record_audit-HasSoundActions _)
                λ _. Keeps-bind (notify-HasSoundActions _) λ _. Keeps-pure _)

  record_failure-HasSoundActions :
      (t : Target) (a : EnforcementAction) (text : String) (o : EnforcementOutcome)
      → Ensures
          (SoundWith a)
          (record_failure api limit key actor t a text o)
          (λ _ w. HasSoundActions w)
          HasSoundActions
  unfolding record_failure
  record_failure-HasSoundActions t a text o =
      Ensures-bind (λ _. HasSoundActions)
        (put_action-HasSoundActions a _ refl refl (λ (p : false ≡ true). cc p))
        λ _. Keeps-Ensures (
          Keeps-bind (notify-HasSoundActions _)
            λ _. Keeps-bind (record_audit-HasSoundActions _) λ _. Keeps-pure _)

  -- The action of an attempt, and what the attempt has come to.
  abbrev Attempted : Target → EnforcementAction → Attempt UndoSnapshot → World T → Type 0
  Attempted t a outcome w = elim outcome [
    | returned s ↦ SoundWith a w × (holds_values t.kind s ≡ true)
    | failed k text ↦ SoundWith a w
  ]

  perform-Attempted :
      (t : Target) (a : EnforcementAction)
      → Ensures (SoundWith a) (attempt (Perform.perform api t)) (Attempted t a) (SoundWith a)
  perform-Attempted t a = Ensures-attempt (
      Keeps-Returns (Perform.perform api t)
        (Keeps-SoundWith a λ rows n. perform-HasActions rows n api t) (perform-Returns api t))

  record_outcome-HasSoundActions :
      (t : Target) (a : EnforcementAction) (outcome : Attempt UndoSnapshot) (o : EnforcementOutcome)
      → a.idempotency_key ≡ key_of api limit key actor t
      → Ensures
          (Attempted t a outcome)
          (record_outcome api limit key actor t a outcome o)
          (λ _. HasSoundActions)
          HasSoundActions
  unfolding record_outcome
  record_outcome-HasSoundActions t a (returned s) o keyed = record {
    at = λ w h. (record_success-HasSoundActions t a s o keyed h.1).at w h.0;
  }
  record_outcome-HasSoundActions t a (failed k text) o keyed =
      record_failure-HasSoundActions t a text o

  restrict-HasSoundActions :
      (t : Target) (found : Option EnforcementAction) (o : EnforcementOutcome)
      → Ensures
          (Found t found)
          (restrict api limit key actor t found o)
          (λ _. HasSoundActions)
          HasSoundActions
  unfolding restrict
  restrict-HasSoundActions t found o =
      Ensures-bind (λ a w. SoundWith a w × (a.idempotency_key ≡ key_of api limit key actor t))
        (begin_attempt-HasSoundActions t found)
        λ a. record {
          at = λ w h.
              (Ensures-bind (Attempted t a) (Ensures_mono (λ w h. h.0) (perform-Attempted t a))
                  λ outcome. record_outcome-HasSoundActions t a outcome o h.1).at
                w h.0;
        }

  note_reconciled-HasSoundActions :
      (t : Target) (a : EnforcementAction)
      → Keeps HasSoundActions (note_reconciled api limit key actor t a)
  unfolding note_reconciled
  note_reconciled-HasSoundActions t a =
      Keeps-bind (record_audit-HasSoundActions _)
        λ _. Keeps-bind (notify-HasSoundActions _) λ _. Keeps-pure tt

  record_verified-HasSoundActions :
      (t : Target) (a : EnforcementAction) (outcome : Attempt Bool) (o : EnforcementOutcome)
      → Keeps HasSoundActions (record_verified api limit key actor t a outcome o)
  unfolding record_verified
  record_verified-HasSoundActions t a (failed k text) o = Keeps-pure _
  record_verified-HasSoundActions t a (returned true) o =
      Keeps-bind (note_reconciled-HasSoundActions t a) λ _. Keeps-pure _
  record_verified-HasSoundActions t a (returned false) o = Keeps-pure _

  verify-HasSoundActions :
      (t : Target) (a : EnforcementAction) (o : EnforcementOutcome)
      → Keeps HasSoundActions (verify api limit key actor t a o)
  unfolding verify
  verify-HasSoundActions t a o =
      Keeps-bind
        (Keeps-attempt (Keeps-HasSoundActions λ rows n. reconcile-HasActions rows n api a t))
        λ outcome. record_verified-HasSoundActions t a outcome o

  abbrev WithRow : Target → EnforcementAction → World T → Type 0
  WithRow t a w =
      SoundWith a w × IsReversible a × (a.idempotency_key ≡ key_of api limit key actor t)

  restrict_exempted-HasSoundActions :
      (b : Bool) (t : Target) (a : EnforcementAction) (o : EnforcementOutcome)
      → a.status ≡ reversed
      → Ensures
          (WithRow t a)
          (if b
            then restrict api limit key actor t (some (reopened a)) o
            else pure (add_skipped (on_target t " was restored by an admin this period") o))
          (λ _. HasSoundActions)
          HasSoundActions
  restrict_exempted-HasSoundActions true t a o e = record {
    at = λ w h. (restrict-HasSoundActions t (some (reopened a)) o).at w h;
  }
  restrict_exempted-HasSoundActions false t a o e = record {
    at = λ w h. (Keeps-Ensures (Keeps-pure _)).at w h.0.0;
  }

  restrict_found-HasSoundActions :
      (s : EnforcementStatus) (t : Target) (a : EnforcementAction) (o : EnforcementOutcome)
      → a.status ≡ s
      → Ensures
          (WithRow t a)
          (restrict_found api limit key actor s t a o)
          (λ _. HasSoundActions)
          HasSoundActions
  unfolding restrict_found
  restrict_found-HasSoundActions applied t a o e = record {
    at = λ w h. (Keeps-Ensures (verify-HasSoundActions t a o)).at w h.0.0;
  }
  restrict_found-HasSoundActions reversed t a o e =
      restrict_exempted-HasSoundActions (was_exempted a) t a o e
  restrict_found-HasSoundActions pending t a o e = restrict-HasSoundActions t (some a) o
  restrict_found-HasSoundActions EnforcementStatus.failed t a o e =
      restrict-HasSoundActions t (some a) o

  -- The two ways in which the lookup by the key ends.
  enforce_found :
      Target → EnforcementOutcome → Option EnforcementAction → Exec (World T) EnforcementOutcome
  enforce_found t o found = elim found [
    | none ↦ restrict api limit key actor t none o
    | some a ↦ restrict_found api limit key actor a.status t a o
  ]

  enforce_found-HasSoundActions :
      (t : Target) (o : EnforcementOutcome) (found : Option EnforcementAction)
      → Ensures (Found t found) (enforce_found t o found) (λ _. HasSoundActions) HasSoundActions
  unfolding enforce_found
  enforce_found-HasSoundActions t o none = restrict-HasSoundActions t none o
  enforce_found-HasSoundActions t o (some a) = restrict_found-HasSoundActions a.status t a o refl

  enforce_target-HasSoundActions :
      (t : Target) (o : EnforcementOutcome)
      → Keeps HasSoundActions (enforce_target api limit key actor t o)
  unfolding enforce_target enforce_found gets
  enforce_target-HasSoundActions t o = Ensures-Keeps (
      Ensures-bind (λ found. Found t found) (record { at = λ w h. look w h })
        λ found. enforce_found-HasSoundActions t o found)
    where
      look :
          (w : World T)
          → HasSoundActions w
          → Found t (action_by_key w.db (key_of api limit key actor t)) w
      look w h = elim (Option-cases (action_by_key w.db (key_of api limit key actor t))) [
        | inl nothing ↦ rw nothing (h, nothing)
        | inr (a, e) ↦ rw e (
          (h, (HasRow-first_where (key_of api limit key actor t) w.actions a e).0),
          IsReversible-first_where w.next_id _ w.actions a h e,
          (HasRow-first_where (key_of api limit key actor t) w.actions a e).1,
        )
      ]

  pub enforce_targets-HasSoundActions :
      (ts : List Target) (o : EnforcementOutcome)
      → Keeps HasSoundActions (enforce_targets api limit key actor ts o)
  unfolding enforce_targets
  enforce_targets-HasSoundActions [] o = Keeps-pure o
  enforce_targets-HasSoundActions (t ∷ ts) o =
      Keeps-bind (enforce_target-HasSoundActions t o) λ o'. enforce_targets-HasSoundActions ts o'

  enforce_plan-HasSoundActions :
      (ts : List Target) → Keeps HasSoundActions (enforce_plan api limit key actor ts)
  unfolding enforce_plan
  enforce_plan-HasSoundActions [] = Keeps-pure _
  enforce_plan-HasSoundActions (t ∷ ts) = enforce_targets-HasSoundActions (t ∷ ts) _

  -- Enforcing a limit keeps ids and idempotency keys unique, and every applied action has a
  -- snapshot that holds each value that undoing the kind of change named by its key reads, whatever
  -- calls of the tenant fail.
  pub apply_enforcement-HasSoundActions :
      Keeps HasSoundActions (apply_enforcement api limit key actor)
  unfolding apply_enforcement pure
  apply_enforcement-HasSoundActions = record {
    at = λ w h. elim (Bool-cases (is_exempt w.db limit.entity_type limit.entity_id)) [
      | inl exempt ↦ rw exempt h
      | inr open_ ↦ rw open_ (
          (enforce_plan-HasSoundActions (plan_targets w.db limit.entity_type limit.entity_id)).at w
            h)
    ];
  }
