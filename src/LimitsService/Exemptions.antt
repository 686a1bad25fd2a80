-- ===== src/LimitsService/Exemptions.antt =====
-- limits_service.py: `add_exemption` and `remove_exemption`.
use v_cx_credit_guard.Prelude.{
  ℕ, ◌+◌, String, Option, none, some, List, [], ◌∷◌, ◌++◌, concat, str, ◌==◌, first_where,
  delete_where, or_else, if◌then◌else◌,
}
use v_cx_credit_guard.Exec.{Exec, ok, pure, gets, modify, ◌>>=◌, ◌>>◌}
use v_cx_credit_guard.Model.Enums.{EntityType}
use v_cx_credit_guard.Model.Limits.{Exemption, EnforcementAction}
use v_cx_credit_guard.Model.Log.{AuditActor, exemption_values}
use v_cx_credit_guard.Model.Database.{World}
use v_cx_credit_guard.Checkmarx.{Remote, truthy}
use v_cx_credit_guard.Feed.{record_audit}
use v_cx_credit_guard.Enforcement.Plan.{exempts}
use v_cx_credit_guard.Enforcement.Messages.{exempted_reason}
use v_cx_credit_guard.Enforcement.Restore.{restore_action, active_actions_for}
use v_cx_credit_guard.LimitsService.Service.{resolve_entity_label}

module _ {T : Type 0} (actor : AuditActor) where
  unfoldable pub insert_exemption : EntityType → String → Option String → Exec (World T) Exemption
  insert_exemption entity_type entity_id reason w =
      let exemption : Exemption = record {
        id = w.next_id;
        entity_type = entity_type;
        entity_id = entity_id;
        entity_label = resolve_entity_label w.db entity_type entity_id;
        reason = reason;
        created_by_id = actor.actor_id;
      } in
      (
        ok exemption,
        record w {
          db = record w.db { next_id = w.next_id + 1; exemptions = w.exemptions ++ exemption ∷ [] };
        },
      )

  -- Each action with a resolver of its own, as `restore_action` is called without one.
  unfoldable pub lift_each : Remote T → List EnforcementAction → ℕ → Exec (World T) ℕ
  lift_each api [] lifted = pure lifted
  lift_each api (a ∷ rest) lifted = do
    done ← restore_action api actor exempted_reason a
    lift_each api rest (if done then lifted + 1 else lifted)

  -- The restrictions that a new exemption lifts.
  unfoldable pub lift_restrictions : Option (Remote T) → EntityType → String → Exec (World T) ℕ
  lift_restrictions none entity_type entity_id = pure 0
  lift_restrictions (some api) entity_type entity_id = do
    active ← gets (λ w. active_actions_for w.db entity_type entity_id)
    lift_each api active 0

  -- How `add_exemption` goes on from the lookup of an existing exemption.
  unfoldable pub exempt_unless :
      Option (Remote T)
      → EntityType
      → String
      → Option String
      → Option Exemption
      → Exec (World T) Exemption
  exempt_unless client entity_type entity_id reason (some e) = pure e
  exempt_unless client entity_type entity_id reason none = do
    exemption ← insert_exemption entity_type entity_id reason
    lifted ← lift_restrictions client entity_type entity_id
    record_audit (record {
      action = "exemption.created";
      actor = actor;
      target_type = some "exemption";
      target_id = some (str exemption.id);
      target_label = some (or_else (truthy exemption.entity_label) entity_id);
      before = none;
      after = some (exemption_values entity_type entity_id reason);
      detail =
          if lifted == 0
          then none
          else some (concat (str lifted ∷ " active restriction(s) lifted." ∷ []));
    })
    pure exemption

  unfoldable pub add_exemption :
      Option (Remote T) → EntityType → String → Option String → Exec (World T) Exemption
  add_exemption client entity_type entity_id reason = do
    existing ← gets (λ w. first_where (exempts entity_type entity_id) w.exemptions)
    exempt_unless client entity_type entity_id reason existing

  unfoldable pub remove_exemption : Exemption → Exec (World T) Unit
  remove_exemption e = do
    record_audit (record {
      action = "exemption.deleted";
      actor = actor;
      target_type = some "exemption";
      target_id = some (str e.id);
      target_label = some (or_else (truthy e.entity_label) e.entity_id);
      before = some (exemption_values e.entity_type e.entity_id e.reason);
      after = none;
      detail = none;
    })
    modify (λ w. record w {
      db = record w.db { exemptions = delete_where (λ (x : Exemption). x.id == e.id) w.exemptions };
    })
