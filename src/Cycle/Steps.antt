-- ===== src/Cycle/Steps.antt =====
-- cycle.py, `_execute_steps` and its helpers. The statistics of the steps are left out. What the
-- cycle calls in modules that are not modelled is the interface `Services`.
use v_cx_credit_guard.Prelude.{
  ℕ, ℤ, String, Bool, true, false, ◌&&◌, ◌||◌, Option, none, some, List, [], ◌∷◌, ◌++◌, concat, str,
  join, str_eq, or_else, if◌then◌else◌, is_some,
}
use v_cx_credit_guard.Exec.{
  Exec, attempt, returned, failed, not_configured, raise, checkmarx, rescue, rescue_checkmarx, pure,
  gets, ◌>>=◌, ◌>>◌,
}
use v_cx_credit_guard.Model.Calendar.{DateTime, earlier}
use v_cx_credit_guard.Model.Delta.{minutes_before}
use v_cx_credit_guard.Model.Enums.{RunStatus, success, partial, skipped, Severity}
use v_cx_credit_guard.Model.Log.{AuditActor, AuditLogEntry}
use v_cx_credit_guard.Model.Usage.{UnresolvedSubject, SchedulerRun}
use v_cx_credit_guard.Model.Database.{World}
use v_cx_credit_guard.Feed.{notify, category_sync_error, system_actor}
use v_cx_credit_guard.Periods.{two_digits}
use v_cx_credit_guard.Checkmarx.{Remote, truthy}
use v_cx_credit_guard.Consumption.{Python, Consumption}
use v_cx_credit_guard.Matching.{Scores}
use v_cx_credit_guard.Ingestion.Run.{ingest_usage}
use v_cx_credit_guard.Credits.{Pool, store_balance}
use v_cx_credit_guard.Evaluation.Messages.{Printing}
use v_cx_credit_guard.Evaluation.Evaluate.{evaluate_all}
use v_cx_credit_guard.Retention.{prune}

-- The endpoints of the tenant that a configured client reaches.
pub record Client (T : Type 0) : Type 0 where
  pub remote_api : Remote T
  pub consumption : Consumption T
  pub pool : Pool T

pub record Services (T F : Type 0) : Type 0 where
  -- connection.py, org_sync.py (its warnings) and delivery.py
  pub get_client : Exec (World T) (Client T)
  pub sync_org_model : Client T → AuditActor → Exec (World T) (List String)
  pub deliver_pending : Exec (World T) Unit
  -- settings_store.py
  pub usage_period : World T → String
  pub usage_page_size : World T → ℕ
  pub org_refresh_minutes : World T → ℕ
  pub retention_days : World T → ℤ
  pub retention_text : World T → String
  -- Python and the printing of amounts and dates
  pub python : Python
  pub floats : Scores F
  pub printing : Printing

pub record CycleResult : Type 0 where
  pub run_id : Option ℕ
  pub status : RunStatus
  pub errors : List String
  pub skipped_reason : Option String

abbrev pub new_result : CycleResult
new_result = record { run_id = none; status = success; errors = []; skipped_reason = none }

-- `result.errors.append(…); result.status = PARTIAL`
abbrev add_error : String → String → CycleResult → CycleResult
add_error step text r = record r {
  status = partial;
  errors = r.errors ++ concat (step ∷ text ∷ []) ∷ [];
}

-- The latest instant of the rows, as `ORDER BY … DESC LIMIT 1` reads it.
unfoldable pub latest : Option DateTime → List DateTime → Option DateTime
unfolding earlier
latest best [] = best
latest best (t ∷ rest) =
    latest (elim best [ none ↦ some t | some b ↦ if earlier b t then some t else some b ]) rest

unfoldable pub audited_at : String → List AuditLogEntry → List DateTime
audited_at action [] = []
audited_at action (e ∷ entries) =
    let rest = audited_at action entries in
    if str_eq e.action action then e.occurred_at ∷ rest else rest

abbrev is_completed : RunStatus → Bool
is_completed success = true
is_completed partial = true
is_completed _ = false

unfoldable pub completed_at : List SchedulerRun → List DateTime
completed_at [] = []
completed_at (r ∷ runs) =
    let rest = completed_at runs in
    if str_eq r.kind "cycle" && is_completed r.status then r.started_at ∷ rest else rest

-- `last is None or last < cutoff`
abbrev is_due : Option DateTime → DateTime → Bool
is_due none cutoff = true
is_due (some last) cutoff = earlier last cutoff

-- `strftime("%Y-%m-%d")` of a year with four digits
unfoldable pub day_text : DateTime → String
unfolding concat str two_digits
day_text t = concat (str t.year ∷ "-" ∷ two_digits t.month ∷ "-" ∷ two_digits t.day ∷ [])

module _ {T F : Type 0} (services : Services T F) where
  unfoldable pub org_sync_due : World T → Bool
  unfolding latest completed_at audited_at minutes_before earlier
  org_sync_due w =
      let cutoff = minutes_before (services.org_refresh_minutes w) w.now in
      if is_some (latest none (completed_at w.runs))
      then is_due (latest none (audited_at "org.synced" w.audit_log)) cutoff
      else true

  -- Once every 24 hours, by the last prune's own audit entry.
  unfoldable pub retention_due : World T → Bool
  unfolding latest audited_at minutes_before earlier
  retention_due w =
      is_due (latest none (audited_at "retention.pruned" w.audit_log)) (minutes_before 1440 w.now)

  -- `_warn`
  unfoldable pub warn : String → String → Exec (World T) Unit
  unfolding day_text notify concat
  warn step text = do
    now ← gets (λ w. w.now)
    row ← notify (record {
      category = category_sync_error;
      severity = Severity.error;
      title = concat ("Cycle step " ∷ step ∷ " reported a problem" ∷ []);
      body = some text;
      entity_type = none;
      entity_id = none;
      entity_label = none;
      dedupe_key = some (concat ("sync:" ∷ step ∷ ":" ∷ day_text now ∷ []));
      enforcement_action_id = none;
    })
    pure tt

  unfoldable pub warn_each : String → List String → Exec (World T) Unit
  unfolding warn
  warn_each step [] = pure tt
  warn_each step (text ∷ texts) = warn step text >> warn_each step texts

  -- `row.subject_name or row.subject_key`
  unfoldable pub subject_shown : UnresolvedSubject → String
  subject_shown row = or_else (truthy row.subject_name) row.subject_key

  -- `_notify_unresolved`, for each subject that nobody mapped; the amount is printed by the interface.
  unfoldable pub notify_unresolved : List UnresolvedSubject → Exec (World T) Unit
  unfolding subject_shown notify concat
  notify_unresolved [] = pure tt
  notify_unresolved (row ∷ rows) = if is_some row.mapped_user_id then notify_unresolved rows else do
    sent ← notify (record {
      category = "attribution";
      severity = Severity.warning;
      title = concat ("Credit usage could not be matched to a user: " ∷ subject_shown row ∷ []);
      body = some (
          concat (
            services.printing.amount row.credits_used
            ∷ " credits are reported against "
            ∷ subject_shown row
            ∷ elim (truthy row.subject_email) [ none ↦ "" | some e ↦ concat (" (" ∷ e ∷ ")" ∷ []) ]
            ∷ ", which does not match any synced Checkmarx user. That usage is not counted towards any user limit. Map it to a user, or check that the user's IAM email matches the address their AI actions are reported under."
            ∷ []));
      entity_type = none;
      entity_id = none;
      entity_label = none;
      dedupe_key = some (concat ("unresolved:" ∷ row.subject_key ∷ []));
      enforcement_action_id = none;
    })
    notify_unresolved rows

  abbrev pub scheduler : AuditActor
  scheduler = system_actor "scheduler"

  -- Step 1.
  unfoldable pub sync_step : Client T → Bool → CycleResult → Exec (World T) CycleResult
  unfolding org_sync_due warn rescue_checkmarx join
  sync_step client force r = do
    due ← gets org_sync_due
    if force || due
        then rescue_checkmarx
            (do
              warnings ← services.sync_org_model client scheduler
              elim warnings [
                | [] ↦ pure r
                | t ∷ ts ↦ do
                  warn "org_sync" (join "; " (t ∷ ts))
                  pure (record r { status = partial })
              ])
            (λ text. warn "org_sync" text >> pure (add_error "org_sync: " text r))
        else pure r

  -- Step 2.
  unfoldable pub ingest_step : Client T → CycleResult → Exec (World T) CycleResult
  unfolding ingest_usage warn warn_each notify_unresolved rescue_checkmarx
  ingest_step client r =
      rescue_checkmarx
        (do
          period ← gets services.usage_period
          size ← gets services.usage_page_size
          result ← ingest_usage services.python services.floats client.consumption period size
          warn_each "ingest" result.warnings
          rows ← gets (λ w. w.unresolved)
          notify_unresolved rows
          pure (elim result.warnings [ [] ↦ r | t ∷ ts ↦ record r { status = partial } ]))
        (λ text. warn "ingest" text >> pure (add_error "ingest: " text r))

  -- Step 3.
  unfoldable pub evaluate_step : Client T → CycleResult → Exec (World T) CycleResult
  unfolding evaluate_all warn rescue
  evaluate_step client r =
      rescue
        (do
          now ← gets (λ w. w.now)
          result ← evaluate_all services.printing (some client.remote_api) scheduler now
          pure (elim result.errors [
            | [] ↦ r
            | t ∷ ts ↦ record r { status = partial; errors = r.errors ++ t ∷ ts }
          ]))
        (λ text. warn "evaluate" text >> pure (add_error "evaluate: " text r))

  -- Steps 4 and 5; their failures do not count.
  unfoldable pub deliver_step : Exec (World T) Unit
  unfolding rescue
  deliver_step = rescue services.deliver_pending (λ _. pure tt)

  unfoldable pub retention_step : Exec (World T) Unit
  unfolding retention_due prune rescue
  retention_step =
      rescue
        (do
          due ← gets retention_due
          days ← gets services.retention_days
          text ← gets services.retention_text
          if due then (do removed ← prune days text (some scheduler); pure tt) else pure tt)
        (λ _. pure tt)

  unfoldable pub execute_with : Client T → Bool → CycleResult → Exec (World T) CycleResult
  unfolding sync_step ingest_step store_balance evaluate_step deliver_step retention_step
  execute_with client force r = do
    synced ← sync_step client force r
    ingested ← ingest_step client synced
    store_balance services.python client.pool
    evaluated ← evaluate_step client ingested
    deliver_step
    retention_step
    pure evaluated

  -- `_execute_steps`. Only `NotConfiguredError` is handled where the client is looked up.
  unfoldable pub execute_steps : Bool → CycleResult → Exec (World T) CycleResult
  unfolding execute_with attempt
  execute_steps force r = do
    found ← attempt services.get_client
    elim found [
      | returned client ↦ execute_with client force r
      | failed k text ↦ elim k [
        | not_configured ↦ pure (record r { status = skipped; skipped_reason = some text })
        | other ↦ raise (checkmarx other text)
      ]
    ]
