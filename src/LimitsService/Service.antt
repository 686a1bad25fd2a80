-- ===== src/LimitsService/Service.antt =====
-- limits_service.py: `create_limit`, `update_limit` and `delete_limit`; evaluation.py:
-- `restore_on_limit_change`.
use v_cx_credit_guard.Prelude.{
  ℕ, ◌+◌, pos, ◌*ℤ◌, String, Bool, true, false, not, ◌&&◌, ◌||◌, Option, none, some, List, [], ◌∷◌,
  ◌++◌, concat, str, str_eq, ◌==◌, first_where, exists_where, modify_where, delete_where, ltb_ℤ,
  if◌then◌else◌,
}
use v_cx_credit_guard.Exec.{limit_error, Exec, Result, ok, pure, raise, gets, modify, ◌>>=◌, ◌>>◌}
use v_cx_credit_guard.Model.Enums.{
  EntityType, restored, same_entity, entity_text, is_restricted_or_breached,
}
use v_cx_credit_guard.Model.Org.{CxGroup, CxApplication}
use v_cx_credit_guard.Model.Limits.{CreditLimit, LimitPeriodState, EnforcementAction, scale}
use v_cx_credit_guard.Model.Log.{AuditActor, limit_values}
use v_cx_credit_guard.Model.Database.{Db, World}
use v_cx_credit_guard.Checkmarx.{Remote}
use v_cx_credit_guard.Feed.{record_audit}
use v_cx_credit_guard.Enforcement.Plan.{project_by_id, user_by_id, display_name}
use v_cx_credit_guard.Enforcement.Messages.{entity_shown}
use v_cx_credit_guard.Enforcement.Restore.{restore_for_limit}
use v_cx_credit_guard.LimitsService.Input.{LimitInput, validate, Change, set_field, input_of}

-- The name of a synced entity, or `none`.
unfoldable pub resolve_entity_label : Db → EntityType → String → Option String
resolve_entity_label db EntityType.user id = elim (user_by_id db id) [
  | none ↦ none
  | some u ↦ some (display_name u)
]
resolve_entity_label db EntityType.group id =
    elim (first_where (λ (g : CxGroup). str_eq g.id id) db.groups) [
      | none ↦ none
      | some g ↦ some g.name
    ]
resolve_entity_label db EntityType.project id = elim (project_by_id db id) [
  | none ↦ none
  | some p ↦ some p.name
]
resolve_entity_label db EntityType.application id =
    elim (first_where (λ (a : CxApplication). str_eq a.id id) db.applications) [
      | none ↦ none
      | some a ↦ some a.name
    ]

abbrev pub is_limit_on : EntityType → String → CreditLimit → Bool
is_limit_on entity_type entity_id l =
    if same_entity l.entity_type entity_type then str_eq l.entity_id entity_id else false

unfoldable pub limit_for : Db → EntityType → String → Option CreditLimit
limit_for db entity_type entity_id = first_where (is_limit_on entity_type entity_id) db.limits

unfoldable pub put_limit : {T : Type 0} → CreditLimit → World T → World T
put_limit l w = record w {
  db = record w.db { limits = modify_where (λ x. x.id == l.id) (λ _. l) w.limits };
}

unfoldable pub lift_result : {S A : Type 0} → Result A → Exec S A
lift_result r s = (r, s)

-- The states of the limit that a restoration marks.
abbrev pub is_locked_state : ℕ → LimitPeriodState → Bool
is_locked_state limit_id s =
    if s.limit_id == limit_id then is_restricted_or_breached s.status else false

abbrev pub became_harmless : CreditLimit → CreditLimit → Bool
became_harmless before after =
    (before.enforce && not after.enforce) || (before.is_active && not after.is_active)

abbrev pub credit_increased : CreditLimit → CreditLimit → Bool
credit_increased before after = ltb_ℤ before.credit_limit after.credit_limit

-- `any(st.credits_used < limit.credit_limit for st in states)`
abbrev pub frees_a_state : CreditLimit → List LimitPeriodState → Bool
frees_a_state l states =
    exists_where
      (λ (s : LimitPeriodState).
        if is_locked_state l.id s
        then ltb_ℤ (pos s.credits_used) (l.credit_limit *ℤ pos scale)
        else false)
      states

abbrev pub update_detail : CreditLimit → CreditLimit → ℕ → Option String
update_detail before after count =
    if count == 0
    then none
    else if became_harmless before after
    then some
        (concat (str count ∷ " restriction(s) lifted because this limit no longer enforces." ∷ []))
    else if credit_increased before after
    then some
        (concat (str count ∷ " restriction(s) lifted because credit limit was increased." ∷ []))
    else none

module _ {T : Type 0} (actor : AuditActor) where
  -- `session.add(limit)`; a new limit is active.
  unfoldable pub insert_limit : LimitInput → Exec (World T) CreditLimit
  insert_limit d w =
      let limit : CreditLimit = record {
        id = w.next_id;
        entity_type = d.entity_type;
        entity_id = d.entity_id;
        entity_label = resolve_entity_label w.db d.entity_type d.entity_id;
        credit_limit = d.credit_limit;
        period_type = d.period_type;
        custom_period_start = d.custom_period_start;
        custom_period_end = d.custom_period_end;
        warning_threshold_pct = d.warning_threshold_pct;
        enforce = d.enforce;
        is_active = true;
        include_member_usage = d.include_member_usage;
        count_existing_usage = d.count_existing_usage;
        hold_until_released = d.hold_until_released;
        notes = d.notes;
        created_by_id = actor.actor_id;
        created_at = some w.now;
      } in
      (
        ok limit,
        record w { db = record w.db { next_id = w.next_id + 1; limits = w.limits ++ limit ∷ [] } },
      )

  -- How `create_limit` goes on from the lookup of an existing limit.
  unfoldable pub create_unless : LimitInput → Option CreditLimit → Exec (World T) CreditLimit
  create_unless d (some l) = raise (
      limit_error (
        concat (
          "A limit already exists for this "
          ∷ entity_text d.entity_type
          ∷ ". Edit that limit instead."
          ∷ [])))
  create_unless d none = do
    limit ← insert_limit d
    record_audit (record {
      action = "limit.created";
      actor = actor;
      target_type = some "credit_limit";
      target_id = some (str limit.id);
      target_label = some (entity_shown limit);
      before = none;
      after = some (limit_values limit);
      detail = some (
          if limit.enforce
          then "Created in enforce mode."
          else "Created in monitor only mode, no restrictions will be applied.");
    })
    pure limit

  unfoldable pub create_limit : LimitInput → Exec (World T) CreditLimit
  create_limit d = do
    lift_result (validate d)
    existing ← gets (λ w. limit_for w.db d.entity_type d.entity_id)
    create_unless d existing

  -- evaluation.py, `restore_on_limit_change`
  unfoldable pub restore_on_limit_change :
      Option (Remote T) → CreditLimit → String → Exec (World T) ℕ
  restore_on_limit_change none limit reason = pure 0
  restore_on_limit_change (some api) limit reason = do
    count ← restore_for_limit api actor reason limit.id none
    if count == 0 then pure 0 else (do
      now ← gets (λ w. w.now)
      modify (λ w. record w {
        db = record w.db {
          states =
              modify_where (is_locked_state limit.id)
                (λ s. record s { status = restored; restored_at = some now }) w.states;
        };
      })
      record_audit (record {
        action = "enforcement.reversed_bulk";
        actor = actor;
        target_type = some "credit_limit";
        target_id = some (str limit.id);
        target_label = limit.entity_label;
        before = none;
        after = none;
        detail = some (
            concat (
              str count
              ∷ " restriction(s) lifted because the limit changed ("
              ∷ reason
              ∷ ")."
              ∷ []));
      })
      pure count)

  -- The loop over `changes`. The row is the session's object: each change is in it at once.
  unfoldable pub apply_changes : List Change → CreditLimit → Exec (World T) CreditLimit
  apply_changes [] limit = pure limit
  apply_changes (c ∷ changes) limit = do
    limit' ← lift_result (set_field c limit)
    modify (put_limit limit')
    apply_changes changes limit'

  -- What an update lifts.
  unfoldable pub release : Option (Remote T) → CreditLimit → CreditLimit → Exec (World T) ℕ
  release client before after =
      if became_harmless before after
      then restore_on_limit_change client after "limit_removed"
      else if credit_increased before after
      then elim client [
        | none ↦ pure 0
        | some api ↦ do
          states ← gets (λ w. w.states)
          if frees_a_state after states
              then restore_on_limit_change (some api) after "credit_increased"
              else pure 0
      ]
      else pure 0

  unfoldable pub update_limit :
      Option (Remote T) → CreditLimit → List Change → Exec (World T) CreditLimit
  update_limit client before changes = do
    limit ← apply_changes changes before
    lift_result (validate (input_of limit))
    count ← release client before limit
    record_audit (record {
      action = "limit.updated";
      actor = actor;
      target_type = some "credit_limit";
      target_id = some (str limit.id);
      target_label = some (entity_shown limit);
      before = some (limit_values before);
      after = some (limit_values limit);
      detail = update_detail before limit count;
    })
    pure limit

  -- `session.delete(limit)`: its period states go with it, and its actions keep no limit.
  unfoldable pub drop_limit : CreditLimit → World T → World T
  drop_limit limit w = record w {
    db = record w.db {
      limits = delete_where (λ (l : CreditLimit). l.id == limit.id) w.limits;
      states = delete_where (λ (s : LimitPeriodState). s.limit_id == limit.id) w.states;
      actions =
          modify_where
            (λ (a : EnforcementAction). elim a.limit_id [ none ↦ false | some i ↦ i == limit.id ])
            (λ a. record a { limit_id = none }) w.actions;
    };
  }

  unfoldable pub delete_limit : Option (Remote T) → CreditLimit → Exec (World T) ℕ
  delete_limit client limit = do
    count ← restore_on_limit_change client limit "limit_removed"
    record_audit (record {
      action = "limit.deleted";
      actor = actor;
      target_type = some "credit_limit";
      target_id = some (str limit.id);
      target_label = some (entity_shown limit);
      before = some (limit_values limit);
      after = none;
      detail =
          if count == 0 then none else some (concat (str count ∷ " restriction(s) lifted." ∷ []));
    })
    modify (drop_limit limit)
    pure count
