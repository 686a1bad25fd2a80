-- ===== src/Enforcement/Restore.antt =====
-- enforcement.py: `restore_action`, `restore_for_limit` and `active_actions_for`.
use v_cx_credit_guard.Prelude.{
  ℕ, ◌+◌, String, Bool, true, false, Option, none, some, List, [], ◌∷◌, concat, slice_to, str_eq,
  ◌==◌, select, or_else, if◌then◌else◌,
}
use v_cx_credit_guard.Exec.{
  Exec, checkmarx, Attempt, returned, failed, attempt, pure, raise, gets, modify, ◌>>=◌, ◌>>◌,
}
use v_cx_credit_guard.Model.Enums.{EntityType, reversed, Severity, info, same_entity, is_applied}
use v_cx_credit_guard.Model.Limits.{UndoSnapshot, no_snapshot, EnforcementAction}
use v_cx_credit_guard.Model.Log.{AuditActor, undo, restriction}
use v_cx_credit_guard.Model.Database.{Db, World}
use v_cx_credit_guard.Checkmarx.{Remote}
use v_cx_credit_guard.Feed.{record_audit, notify, category_restoration, restoration_key}
use v_cx_credit_guard.Enforcement.Messages.{shown, restoration_title, restoration_body}
use v_cx_credit_guard.Enforcement.Perform
use v_cx_credit_guard.Enforcement.Apply.{put_action}

-- A run with a `RoleResolver` of its own.
unfoldable pub fresh_resolver : {T A : Type 0} → Exec (World T) A → Exec (World T) A
fresh_resolver m w =
    let (r, w') = m (record w { resolver_uuid = none }) in
    (r, record w' { resolver_uuid = w.resolver_uuid })

-- The query of `restore_for_limit`.
abbrev pub restores : ℕ → Option String → EnforcementAction → Bool
restores limit_id period_key a =
    if is_applied a.status
    then (if elim a.limit_id [ none ↦ false | some l ↦ l == limit_id ]
        then elim period_key [
          | none ↦ true
          | some k ↦ elim a.period_key [ none ↦ false | some p ↦ str_eq p k ]
        ]
        else false)
    else false

module _ {T : Type 0} (api : Remote T) (actor : AuditActor) (reason : String) where
  -- `except CheckmarxError` around `_undo`; the exception is raised again.
  unfoldable pub record_restore_failure :
      EnforcementAction → UndoSnapshot → String → Exec (World T) Unit
  record_restore_failure a snapshot text = do
    modify (put_action (record a { error = some (slice_to 2000 text) }))
    _ ← notify (record {
      category = category_restoration;
      severity = Severity.error;
      title = concat ("Could not restore " ∷ shown a.target_label ∷ []);
      body = some (
          concat (
            text
            ∷ "\n\nRestore it directly in Checkmarx One, then mark this action reversed. The snapshot of the previous state is on the audit entry."
            ∷ []));
      entity_type = some a.entity_type;
      entity_id = some a.entity_id;
      entity_label = a.entity_label;
      dedupe_key = none;
      enforcement_action_id = some a.id;
    })
    record_audit (record {
      action = "enforcement.restore_failed";
      actor = actor;
      target_type = some a.target_type;
      target_id = some a.target_id;
      target_label = a.target_label;
      before = some (undo snapshot);
      after = none;
      detail = some text;
    })

  unfoldable pub record_restored : EnforcementAction → UndoSnapshot → Exec (World T) Unit
  record_restored a snapshot = do
    now ← gets (λ w. w.now)
    modify (
        put_action (record a {
          status = reversed;
          reversed_at = some now;
          reversed_by_id = actor.actor_id;
          reversal_reason = some reason;
        }))
    record_audit (record {
      action = "enforcement.reversed";
      actor = actor;
      target_type = some a.target_type;
      target_id = some a.target_id;
      target_label = a.target_label;
      before = some (restriction a.kind);
      after = some (undo snapshot);
      detail = some (concat ("Access restored (" ∷ reason ∷ ")." ∷ []));
    })
    _ ← notify (record {
      category = category_restoration;
      severity = info;
      title = restoration_title a;
      body = some (restoration_body a snapshot reason);
      entity_type = some a.entity_type;
      entity_id = some a.entity_id;
      entity_label = a.entity_label;
      dedupe_key = some (restoration_key a.id);
      enforcement_action_id = some a.id;
    })
    pure tt

  -- How the `try` of `_undo` goes on.
  unfoldable pub record_undone :
      EnforcementAction → UndoSnapshot → Attempt Unit → Exec (World T) Bool
  record_undone a snapshot (failed k text) = do
    record_restore_failure a snapshot text
    raise (checkmarx k text)
  record_undone a snapshot (returned _) = do record_restored a snapshot; pure true

  unfoldable pub undo_and_record : EnforcementAction → UndoSnapshot → Exec (World T) Bool
  undo_and_record a snapshot = do
    outcome ← attempt (Perform.undo api a snapshot)
    record_undone a snapshot outcome

  -- `restore_action` with the resolver of the run. False if the action is not applied.
  unfoldable pub restore_with : EnforcementAction → Exec (World T) Bool
  restore_with a =
      if is_applied a.status
      then undo_and_record a (or_else a.undo_snapshot no_snapshot)
      else pure false

  unfoldable pub restore_action : EnforcementAction → Exec (World T) Bool
  restore_action a = fresh_resolver (restore_with a)

  unfoldable pub restore_each : List EnforcementAction → ℕ → Exec (World T) ℕ
  restore_each [] restored = pure restored
  restore_each (a ∷ rest) restored = do
    done ← restore_with a
    restore_each rest (if done then restored + 1 else restored)

  unfoldable pub restore_for_limit : ℕ → Option String → Exec (World T) ℕ
  restore_for_limit limit_id period_key = do
    chosen ← gets (λ w. select (restores limit_id period_key) w.actions)
    fresh_resolver (restore_each chosen 0)

unfoldable pub active_actions_for : Db → EntityType → String → List EnforcementAction
active_actions_for db entity_type entity_id =
    select
      (λ a.
        if is_applied a.status
        then (if same_entity a.entity_type entity_type then str_eq a.entity_id entity_id else false)
        else false)
      db.actions
