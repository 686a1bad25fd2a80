-- ===== src/Enforcement/RestoreSoundness.antt =====
-- enforcement.py: the enforcement_action table through `restore_for_limit`.
use v_cx_credit_guard.Prelude.{
  ℕ, ◌+◌, ◌≡◌, refl, String, true, false, Option, none, List, [], ◌∷◌, select, arith, if◌then◌else◌,
  or_else, Bool-cases, inl, inr,
}
use v_cx_credit_guard.Exec.{Exec, Attempt, returned, failed, pure, gets, modify, ◌>>=◌}
use v_cx_credit_guard.Exec.Contracts.{
  Ensures, Keeps, Keeps-Ensures, Ensures_after, Ensures-bind, Ensures-gets, Ensures_mono,
  Keeps-bind, Keeps-pure, Keeps-raise, Keeps-attempt,
}
use v_cx_credit_guard.Model.Enums.{is_applied}
use v_cx_credit_guard.Model.Limits.{UndoSnapshot, no_snapshot, EnforcementAction}
use v_cx_credit_guard.Model.Log.{AuditActor}
use v_cx_credit_guard.Model.Database.{World}
use v_cx_credit_guard.Checkmarx.{Remote}
use v_cx_credit_guard.Feed.{AuditEvent, record_audit, Notice, notify}
use v_cx_credit_guard.Enforcement.Apply.{put_action}
use v_cx_credit_guard.Enforcement.Restore.{
  fresh_resolver, record_restore_failure, record_restored, record_undone, undo_and_record,
  restore_with, restore_each, restores, restore_for_limit,
}
use v_cx_credit_guard.Enforcement.Untouched.{
  HasActions, undo-HasActions, record_audit-HasActions, notify-HasActions,
}
use v_cx_credit_guard.Enforcement.Rows.{
  IsReversible, IsSound, AreHeld, AreHeld-select, AreHeld-put, put-IsSound, IsSound-mono,
}
use v_cx_credit_guard.Enforcement.Soundness.{HasSoundActions}

-- The table is sound, and holds the actions that the call still works on.
abbrev pub Holds : {T : Type 0} → List EnforcementAction → World T → Type 0
Holds held w = IsSound w.next_id w.actions × AreHeld w.actions held

module _ {T A : Type 0} {m : Exec (World T) A} where
  Keeps-Holds :
      (held : List EnforcementAction)
      → ((rows : List EnforcementAction) (n : ℕ) → Keeps (HasActions rows n) m)
      → Keeps (Holds held) m
  Keeps-Holds held k = record {
    at = λ w h.
        let e = (k w.actions w.next_id).at w (refl, omega arith) in
        rw e.0 (IsSound-mono _ _ w.actions e.1 h.0, h.1);
  }

  fresh_resolver-Holds :
      (held : List EnforcementAction) → Keeps (Holds held) m → Keeps (Holds held) (fresh_resolver m)
  unfolding fresh_resolver
  fresh_resolver-Holds held k = record { at = λ w h. k.at (record w { resolver_uuid = none }) h }

module _ {T : Type 0} (held : List EnforcementAction) where
  audit-Holds : (e : AuditEvent) → Keeps (Holds {T = T} held) (record_audit e)
  audit-Holds e = Keeps-Holds held λ rows n. record_audit-HasActions rows n e

  notify-Holds : (e : Notice) → Keeps (Holds {T = T} held) (notify e)
  notify-Holds e = Keeps-Holds held λ rows n. notify-HasActions rows n e

  put-Holds :
      (a b : EnforcementAction)
      → b.id ≡ a.id
      → b.idempotency_key ≡ a.idempotency_key
      → (IsReversible a → IsReversible b)
      → Ensures (Holds {T = T} (a ∷ held)) (modify (put_action b)) (λ _. Holds held) (Holds held)
  unfolding put_action modify
  put-Holds a b e k v = record {
    at = λ w h. (
      put-IsSound w.next_id b w.actions (rw (e, k) h.1.0.0) (v h.1.0.1) h.0,
      AreHeld-put w.next_id b w.actions held h.0 (rw (e, k) h.1.0.0) h.1.1,
    );
  }

module _ {T : Type 0} (api : Remote T) (actor : AuditActor) (reason : String) where
  module _ (held : List EnforcementAction) (a : EnforcementAction) (s : UndoSnapshot) where
    record_restore_failure-Holds :
        (text : String)
        → Ensures
            (Holds {T = T} (a ∷ held))
            (record_restore_failure api actor reason a s text)
            (λ _. Holds held)
            (Holds held)
    unfolding record_restore_failure
    record_restore_failure-Holds text =
        Ensures-bind (λ _. Holds held) (put-Holds held a _ refl refl (λ v. v))
          λ _. Keeps-Ensures (Keeps-bind (notify-Holds held _) λ _. audit-Holds held _)

    record_restored-Holds :
        Ensures
          (Holds {T = T} (a ∷ held))
          (record_restored api actor reason a s)
          (λ _. Holds held)
          (Holds held)
    unfolding record_restored
    record_restored-Holds =
        Ensures-bind (λ _. Holds (a ∷ held)) (Ensures-gets _)
          λ now.
            Ensures-bind (λ _. Holds held)
              (put-Holds held a _ refl refl (λ v (p : false ≡ true). cc p))
              λ _. Keeps-Ensures (
                Keeps-bind (audit-Holds held _)
                  λ _. Keeps-bind (notify-Holds held _) λ _. Keeps-pure tt)

    record_undone-Holds :
        (outcome : Attempt Unit)
        → Ensures
            (Holds {T = T} (a ∷ held))
            (record_undone api actor reason a s outcome)
            (λ _. Holds held)
            (Holds held)
    unfolding record_undone
    record_undone-Holds (failed k text) =
        Ensures-bind (λ _. Holds held) (record_restore_failure-Holds text)
          λ _. Keeps-Ensures (Keeps-raise _)
    record_undone-Holds (returned _) =
        Ensures-bind (λ _. Holds held) record_restored-Holds λ _. Keeps-Ensures (Keeps-pure true)

    undo_and_record-Holds :
        Ensures
          (Holds {T = T} (a ∷ held))
          (undo_and_record api actor reason a s)
          (λ _. Holds held)
          (Holds held)
    unfolding undo_and_record
    undo_and_record-Holds =
        Ensures-bind (λ _. Holds (a ∷ held))
          (Ensures_mono (λ w h. (h.0, h.1.1))
            (Keeps-Ensures
              (Keeps-attempt (Keeps-Holds (a ∷ held) λ rows n. undo-HasActions rows n api a s))))
          record_undone-Holds

  restore_with-Holds :
      (held : List EnforcementAction) (a : EnforcementAction)
      → Ensures
          (Holds {T = T} (a ∷ held))
          (restore_with api actor reason a)
          (λ _. Holds held)
          (Holds held)
  unfolding restore_with pure
  restore_with-Holds held a = elim (Bool-cases (is_applied a.status)) [
    | inl is ↦ rw is (undo_and_record-Holds held a (or_else a.undo_snapshot no_snapshot))
    | inr isnt ↦ rw isnt (record { at = λ w h. (h.0, h.1.1) })
  ]

  restore_each-Holds :
      (held : List EnforcementAction) (count : ℕ)
      → Ensures
          (Holds {T = T} held)
          (restore_each api actor reason held count)
          (λ _. HasSoundActions)
          HasSoundActions
  unfolding restore_each
  restore_each-Holds [] count = record { at = λ w h. (Keeps-Ensures (Keeps-pure count)).at w h.0 }
  restore_each-Holds (a ∷ held) count =
      Ensures-bind (λ _. Holds held) (Ensures_mono (λ w h. h.0) (restore_with-Holds held a))
        λ done. restore_each-Holds held (if done then count + 1 else count)

  -- Restoring for a limit, also where an undo fails half way, keeps ids and idempotency keys unique,
  -- and each action that is still applied has a snapshot that holds each value that undoing the kind
  -- of change named by its key reads.
  pub restore_for_limit-HasSoundActions :
      (limit_id : ℕ) (key : Option String)
      → Keeps (HasSoundActions {T = T}) (restore_for_limit api actor reason limit_id key)
  unfolding restore_for_limit fresh_resolver gets ◌>>=◌
  restore_for_limit-HasSoundActions limit_id key = record {
    at = λ w h.
        let held = select (restores limit_id key) w.actions in
        Ensures_after (restore_each-Holds held 0) (record w { resolver_uuid = none })
          (h, AreHeld-select w.next_id _ w.actions h);
  }
