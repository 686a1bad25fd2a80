-- ===== src/Enforcement/Apply.antt =====
-- enforcement.py: `apply_enforcement`, one step for each target of the plan.
use v_cx_credit_guard.Prelude.{
  ◌+◌, String, Bool, true, false, Option, none, some, List, [], ◌∷◌, ◌++◌, concat, slice_to, str_eq,
  ◌==◌, first_where, modify_where, if◌then◌else◌,
}
use v_cx_credit_guard.Exec.{
  Exec, ok, Attempt, returned, failed, attempt, pure, gets, modify, ◌>>=◌, ◌>>◌,
}
use v_cx_credit_guard.Model.Enums.{
  EnforcementStatus, pending, applied, reversed, Severity, warning, critical, kind_text,
  entity_text,
}
use v_cx_credit_guard.Model.Limits.{CreditLimit, UndoSnapshot, EnforcementAction}
use v_cx_credit_guard.Model.Log.{AuditActor, undo, restriction}
use v_cx_credit_guard.Model.Database.{Db, World}
use v_cx_credit_guard.Checkmarx.{Remote}
use v_cx_credit_guard.Feed.{
  record_audit, notify, category_enforcement, enforcement_key, reconcile_key,
}
use v_cx_credit_guard.Enforcement.Plan.{Target, idempotency_key, is_exempt, plan_targets}
use v_cx_credit_guard.Enforcement.Messages.{
  shown, exempted_reason, entity_shown, enforcement_title, enforcement_body, reconciled_title,
  reconciled_body,
}
use v_cx_credit_guard.Enforcement.Perform.{perform, reconcile}

pub record EnforcementOutcome : Type 0 where
  pub applied : List EnforcementAction
  pub skipped : List String
  pub failed : List String
  pub reconciled : List EnforcementAction

abbrev pub no_outcome : EnforcementOutcome
no_outcome = record { applied = []; skipped = []; failed = []; reconciled = [] }

abbrev pub add_skipped : String → EnforcementOutcome → EnforcementOutcome
add_skipped text o = record o { skipped = o.skipped ++ text ∷ [] }

-- `select(EnforcementAction).where(idempotency_key == key)`
abbrev pub action_by_key : Db → String → Option EnforcementAction
action_by_key db key = first_where (λ a. str_eq a.idempotency_key key) db.actions

-- The row as the session writes it back.
unfoldable pub put_action : {T : Type 0} → EnforcementAction → World T → World T
put_action a w = record w {
  db = record w.db { actions = modify_where (λ x. x.id == a.id) (λ _. a) w.actions };
}

unfoldable pub add_action : {T : Type 0} → EnforcementAction → World T → World T
add_action a w = record w {
  db = record w.db { next_id = w.next_id + 1; actions = w.actions ++ a ∷ [] };
}

-- `f"{target.kind} on {target.target_label}" + tail`
unfoldable pub on_target : Target → String → String
on_target t tail = concat (kind_text t.kind ∷ " on " ∷ shown t.target_label ∷ tail ∷ [])

-- `action.reversal_reason == EXEMPTED_REASON`
abbrev pub was_exempted : EnforcementAction → Bool
was_exempted a = elim a.reversal_reason [ none ↦ false | some r ↦ str_eq r exempted_reason ]

-- The row with its reversal taken back.
abbrev pub reopened : EnforcementAction → EnforcementAction
reopened a = record a {
  error = none;
  reversed_at = none;
  reversed_by_id = none;
  reversal_reason = none;
}

module _ {T : Type 0} (api : Remote T) (limit : CreditLimit) (period_key : String)
    (actor : AuditActor) where
  unfoldable pub key_of : Target → String
  key_of t = idempotency_key limit.id period_key t.kind t.target_id

  -- The row is looked up, or added, and its attempt is counted, before anything is changed.
  unfoldable pub begin_attempt :
      Target → Option EnforcementAction → Exec (World T) EnforcementAction
  begin_attempt t (some a) w =
      let a' : EnforcementAction = record a { attempts = a.attempts + 1 } in
      (ok a', put_action a' w)
  begin_attempt t none w =
      let a : EnforcementAction = record {
        id = w.next_id;
        idempotency_key = key_of t;
        kind = t.kind;
        status = pending;
        entity_type = limit.entity_type;
        entity_id = limit.entity_id;
        entity_label = limit.entity_label;
        target_type = t.target_type;
        target_id = t.target_id;
        target_label = t.target_label;
        limit_id = some limit.id;
        period_key = some period_key;
        undo_snapshot = none;
        attempts = 1;
        error = none;
        created_at = w.now;
        applied_at = none;
        reversed_at = none;
        reversed_by_id = none;
        reversal_reason = none;
      } in
      (ok a, add_action a w)

  -- `except CheckmarxError` around `_perform`.
  unfoldable pub record_failure :
      Target → EnforcementAction → String → EnforcementOutcome → Exec (World T) EnforcementOutcome
  record_failure t a text o = do
    modify (
        put_action
          (record a { status = EnforcementStatus.failed; error = some (slice_to 2000 text) }))
    _ ← notify (record {
      category = category_enforcement;
      severity = Severity.error;
      title = concat ("Could not restrict " ∷ shown t.target_label ∷ []);
      body = some text;
      entity_type = some limit.entity_type;
      entity_id = some limit.entity_id;
      entity_label = limit.entity_label;
      dedupe_key = none;
      enforcement_action_id = some a.id;
    })
    record_audit (record {
      action = "enforcement.failed";
      actor = actor;
      target_type = some t.target_type;
      target_id = some t.target_id;
      target_label = t.target_label;
      before = none;
      after = none;
      detail = some (concat (kind_text t.kind ∷ " failed: " ∷ text ∷ []));
    })
    pure (record o { failed = o.failed ++ on_target t (concat (": " ∷ text ∷ [])) ∷ [] })

  unfoldable pub record_success :
      Target
      → EnforcementAction
      → UndoSnapshot
      → EnforcementOutcome
      → Exec (World T) EnforcementOutcome
  record_success t a snapshot o = do
    now ← gets (λ w. w.now)
    let done : EnforcementAction = record a {
      undo_snapshot = some snapshot;
      status = applied;
      applied_at = some now;
      error = none;
    }
    modify (put_action done)
    record_audit (record {
      action = "enforcement.applied";
      actor = actor;
      target_type = some t.target_type;
      target_id = some t.target_id;
      target_label = t.target_label;
      before = some (undo snapshot);
      after = some (restriction t.kind);
      detail = some (
          concat (
            "Limit on "
            ∷ entity_text limit.entity_type
            ∷ " "
            ∷ entity_shown limit
            ∷ " was breached in "
            ∷ period_key
            ∷ "."
            ∷ []));
    })
    _ ← notify (record {
      category = category_enforcement;
      severity = critical;
      title = enforcement_title t;
      body = some (enforcement_body limit t period_key snapshot);
      entity_type = some limit.entity_type;
      entity_id = some limit.entity_id;
      entity_label = limit.entity_label;
      dedupe_key = some (enforcement_key a.id);
      enforcement_action_id = some a.id;
    })
    pure (record o { applied = o.applied ++ done ∷ [] })

  -- How the `try` of `_perform` goes on.
  unfoldable pub record_outcome :
      Target
      → EnforcementAction
      → Attempt UndoSnapshot
      → EnforcementOutcome
      → Exec (World T) EnforcementOutcome
  record_outcome t a (returned snapshot) o = record_success t a snapshot o
  record_outcome t a (failed k text) o = record_failure t a text o

  -- From the lookup of the row to the end of the loop's body.
  unfoldable pub restrict :
      Target → Option EnforcementAction → EnforcementOutcome → Exec (World T) EnforcementOutcome
  restrict t found o = do
    a ← begin_attempt t found
    outcome ← attempt (perform api t)
    record_outcome t a outcome o

  unfoldable pub note_reconciled : Target → EnforcementAction → Exec (World T) Unit
  note_reconciled t a = do
    record_audit (record {
      action = "enforcement.reconciled";
      actor = actor;
      target_type = some t.target_type;
      target_id = some t.target_id;
      target_label = t.target_label;
      before = none;
      after = some (restriction t.kind);
      detail = some (
          concat (
            "A previously applied restriction on "
            ∷ shown t.target_label
            ∷ " drifted back on in Checkmarx One and was re-asserted."
            ∷ []));
    })
    _ ← notify (record {
      category = category_enforcement;
      severity = warning;
      title = reconciled_title a;
      body = some (reconciled_body a);
      entity_type = some limit.entity_type;
      entity_id = some limit.entity_id;
      entity_label = limit.entity_label;
      dedupe_key = some (reconcile_key a.id period_key);
      enforcement_action_id = some a.id;
    })
    pure tt

  -- What the verification of a restriction that is applied already leads to.
  unfoldable pub record_verified :
      Target
      → EnforcementAction
      → Attempt Bool
      → EnforcementOutcome
      → Exec (World T) EnforcementOutcome
  record_verified t a (failed k text) o =
      pure
        (add_skipped (on_target t (concat (" could not be verified this cycle: " ∷ text ∷ []))) o)
  record_verified t a (returned true) o = do
    note_reconciled t a
    pure (record o { reconciled = o.reconciled ++ a ∷ [] })
  record_verified t a (returned false) o =
      pure (add_skipped (on_target t " already applied and verified in Checkmarx") o)

  -- The branch of a restriction that is applied already.
  unfoldable pub verify :
      Target → EnforcementAction → EnforcementOutcome → Exec (World T) EnforcementOutcome
  verify t a o = do outcome ← attempt (reconcile api a t); record_verified t a outcome o

  unfoldable pub restrict_found :
      EnforcementStatus
      → Target
      → EnforcementAction
      → EnforcementOutcome
      → Exec (World T) EnforcementOutcome
  restrict_found applied t a o = verify t a o
  restrict_found reversed t a o =
      if was_exempted a
      then restrict t (some (reopened a)) o
      else pure (add_skipped (on_target t " was restored by an admin this period") o)
  restrict_found pending t a o = restrict t (some a) o
  restrict_found EnforcementStatus.failed t a o = restrict t (some a) o

  unfoldable pub enforce_target : Target → EnforcementOutcome → Exec (World T) EnforcementOutcome
  enforce_target t o = do
    found ← gets (λ w. action_by_key w.db (key_of t))
    elim found [ none ↦ restrict t none o | some a ↦ restrict_found a.status t a o ]

  unfoldable pub enforce_targets :
      List Target → EnforcementOutcome → Exec (World T) EnforcementOutcome
  enforce_targets [] o = pure o
  enforce_targets (t ∷ ts) o = enforce_target t o >>= enforce_targets ts

  unfoldable pub enforce_plan : List Target → Exec (World T) EnforcementOutcome
  enforce_plan [] =
      pure (add_skipped "no targets to restrict (all exempt, or no projects linked)" no_outcome)
  enforce_plan (t ∷ ts) = enforce_targets (t ∷ ts) no_outcome

  -- `apply_enforcement`, with the resolver of the run.
  unfoldable pub apply_enforcement : Exec (World T) EnforcementOutcome
  apply_enforcement w =
      if is_exempt w.db limit.entity_type limit.entity_id
      then pure
          (add_skipped
            (concat (entity_text limit.entity_type ∷ " " ∷ limit.entity_id ∷ " is exempt" ∷ []))
            no_outcome)
          w
      else enforce_plan (plan_targets w.db limit.entity_type limit.entity_id) w
