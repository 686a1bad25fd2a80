-- ===== src/Retention.antt =====
-- backend/app/services/retention.py: what is deleted when, and `purge_expired_sessions` of auth.py.
pub mod Kept
pub mod Forgotten
pub mod Counted
use v_cx_credit_guard.Prelude.{
  ℕ, zero, suc, ◌+◌, ℤ, pos, negsuc, String, Bool, true, false, not, Option, none, some, List, [],
  ◌∷◌, ◌++◌, map, concat, str, ltb, leb, ◌==◌, select, delete_where, modify_where, length, is_some,
  or_else, if◌then◌else◌,
}
use v_cx_credit_guard.Exec.{Exec, pure, gets, modify, ◌>>=◌, ◌>>◌}
use v_cx_credit_guard.Model.Calendar.{DateTime, earlier}
use v_cx_credit_guard.Model.Delta.{days_before}
use v_cx_credit_guard.Model.Enums.{
  UsageView, same_view, is_applied, is_reversed, is_failed, ActorType, system,
}
use v_cx_credit_guard.Model.Limits.{EnforcementAction, LimitPeriodState}
use v_cx_credit_guard.Model.Log.{AuditActor, AuditLogEntry, Notification, retention_stats}
use v_cx_credit_guard.Model.Usage.{UsageSnapshot, UsageRecord, CreditBalanceSnapshot, SchedulerRun}
use v_cx_credit_guard.Model.Auth.{UtilitySession, LoginAttempt}
use v_cx_credit_guard.Model.Database.{Db, World}
use v_cx_credit_guard.Feed.{record_audit, id_in, system_actor}

abbrev pub minimum_retention_days : ℕ
minimum_retention_days = 7

abbrev pub keep_recent_snapshots : ℕ
keep_recent_snapshots = 200

pub record RetentionResult : Type 0 where
  pub usage_snapshots : ℕ
  pub usage_records : ℕ
  pub notifications : ℕ
  pub audit_entries : ℕ
  pub scheduler_runs : ℕ
  pub credit_balances : ℕ
  pub sessions : ℕ
  pub login_attempts : ℕ
  pub enforcement_actions : ℕ
  pub skipped : List String

-- `RetentionResult.total`; the records of the snapshots are not counted.
unfoldable pub total : RetentionResult → ℕ
total r =
    r.usage_snapshots + r.notifications + r.audit_entries + r.scheduler_runs + r.credit_balances
    + r.sessions + r.login_attempts + r.enforcement_actions

-- `max(retention_days, MINIMUM_RETENTION_DAYS)`
unfoldable pub effective_days : ℤ → ℕ
effective_days (pos n) = if ltb n minimum_retention_days then minimum_retention_days else n
effective_days (negsuc n) = minimum_retention_days

-- The message for a setting below the minimum.
unfoldable pub raised_to_minimum : ℤ → String → List String
unfolding concat str
raised_to_minimum (pos n) text =
    if ltb n minimum_retention_days
    then concat (
        "retention of "
        ∷ text
        ∷ " days raised to the "
        ∷ str minimum_retention_days
        ∷ " day minimum"
        ∷ [])
      ∷ []
    else []
raised_to_minimum (negsuc n) text =
    concat (
      "retention of "
      ∷ text
      ∷ " days raised to the "
      ∷ str minimum_retention_days
      ∷ " day minimum"
      ∷ [])
    ∷ []

-- `ORDER BY collected_at DESC`; rows of the same instant in the order of the table.
unfoldable pub insert_recent : UsageSnapshot → List UsageSnapshot → List UsageSnapshot
unfolding earlier
insert_recent s [] = s ∷ []
insert_recent s (x ∷ xs) =
    let rest = insert_recent s xs in
    if earlier s.collected_at x.collected_at then x ∷ rest else s ∷ x ∷ xs

unfoldable pub by_recency : List UsageSnapshot → List UsageSnapshot
unfolding insert_recent
by_recency [] = []
by_recency (s ∷ rows) = insert_recent s (by_recency rows)

-- `LIMIT n`
abbrev pub take {ℓ} : {A : Type ℓ} → ℕ → List A → List A
take zero xs = []
take (suc n) [] = []
take (suc n) (x ∷ xs) = x ∷ take n xs

-- The ids of the recent tail of one dimension.
unfoldable pub recent_ids : List UsageSnapshot → UsageView → List ℕ
unfolding by_recency
recent_ids rows view =
    map (λ (s : UsageSnapshot). s.id)
      (take keep_recent_snapshots
        (by_recency (select (λ (s : UsageSnapshot). same_view s.view_by view) rows)))

-- `keep_ids`: a dimension without snapshots adds nothing.
unfoldable pub keep_ids : List UsageSnapshot → List ℕ
unfolding recent_ids
keep_ids rows =
    recent_ids rows UsageView.user
    ++ recent_ids rows UsageView.action
    ++ recent_ids rows UsageView.application
    ++ recent_ids rows UsageView.project
    ++ recent_ids rows UsageView.group

unfoldable pub is_doomed : DateTime → List ℕ → UsageSnapshot → Bool
unfolding earlier
is_doomed cutoff kept s = if earlier s.collected_at cutoff then not (id_in s.id kept) else false

abbrev pub doomed_ids : DateTime → Db → List ℕ
doomed_ids cutoff db =
    map (λ (s : UsageSnapshot). s.id)
      (select (is_doomed cutoff (keep_ids db.snapshots)) db.snapshots)

-- `live_action_ids`
abbrev pub live_action_ids : List EnforcementAction → List ℕ
live_action_ids actions =
    map (λ (a : EnforcementAction). a.id)
      (select (λ (a : EnforcementAction). is_applied a.status) actions)

-- The row is linked to one of these actions.
unfoldable pub is_linked : List ℕ → Notification → Bool
is_linked ids n = elim n.enforcement_action_id [ none ↦ false | some i ↦ id_in i ids ]

unfoldable pub is_old_notification : DateTime → List ℕ → Notification → Bool
unfolding earlier is_linked
is_old_notification cutoff live n =
    if earlier n.created_at cutoff then not (is_linked live n) else false

unfoldable pub is_old_action : DateTime → EnforcementAction → Bool
unfolding earlier
is_old_action cutoff a =
    if earlier a.created_at cutoff
    then (if is_reversed a.status then true else is_failed a.status)
    else false

unfoldable pub is_closed_state : DateTime → LimitPeriodState → Bool
unfolding earlier
is_closed_state cutoff s = elim s.period_end [ none ↦ false | some e ↦ earlier e cutoff ]

-- `ORDER BY collected_at DESC, id DESC`, the first row.
unfoldable pub latest_balance :
    Option CreditBalanceSnapshot → List CreditBalanceSnapshot → Option CreditBalanceSnapshot
unfolding earlier
latest_balance best [] = best
latest_balance best (b ∷ rest) =
    latest_balance
      (elim best [
        | none ↦ some b
        | some x ↦
            if earlier x.collected_at b.collected_at
            then some b
            else if earlier b.collected_at x.collected_at
            then some x
            else if ltb x.id b.id
            then some b
            else some x
      ])
      rest

unfoldable pub is_old_balance :
    DateTime → Option CreditBalanceSnapshot → CreditBalanceSnapshot → Bool
unfolding earlier
is_old_balance cutoff latest b =
    if earlier b.collected_at cutoff
    then elim latest [ none ↦ true | some x ↦ not (b.id == x.id) ]
    else false

module _ {T : Type 0} where
  -- `_prune_snapshots`
  unfoldable pub prune_snapshots : DateTime → Exec (World T) (ℕ × ℕ)
  prune_snapshots cutoff = do
    doomed ← gets (λ w. doomed_ids cutoff w.db)
    records ←
        gets (λ w. length (select (λ (r : UsageRecord). id_in r.snapshot_id doomed) w.records))
    modify (λ w. record w {
      db = record w.db {
        records = delete_where (λ (r : UsageRecord). id_in r.snapshot_id doomed) w.records;
        snapshots = delete_where (λ (s : UsageSnapshot). id_in s.id doomed) w.snapshots;
      };
    })
    pure (length doomed, records)

  -- `_prune_notifications`
  unfoldable pub prune_notifications : DateTime → Exec (World T) ℕ
  prune_notifications cutoff = do
    old ← gets (λ w. is_old_notification cutoff (live_action_ids w.actions))
    count ← gets (λ w. length (select old w.notifications))
    modify (λ w. record w { db = record w.db { notifications = delete_where old w.notifications } })
    pure count

  unfoldable pub prune_runs : DateTime → Exec (World T) ℕ
  prune_runs cutoff = do
    let old : SchedulerRun → Bool = λ r. earlier r.started_at cutoff
    count ← gets (λ w. length (select old w.runs))
    modify (λ w. record w { db = record w.db { runs = delete_where old w.runs } })
    pure count

  -- `_prune_credit_balances`
  unfoldable pub prune_balances : DateTime → Exec (World T) ℕ
  prune_balances cutoff = do
    old ← gets (λ w. is_old_balance cutoff (latest_balance none w.balances))
    count ← gets (λ w. length (select old w.balances))
    modify (λ w. record w { db = record w.db { balances = delete_where old w.balances } })
    pure count

  -- `_prune_enforcement`. The foreign key of a notification to a deleted action is set to NULL.
  unfoldable pub prune_enforcement : DateTime → Exec (World T) ℕ
  prune_enforcement cutoff = do
    old ← gets (λ w. select (is_old_action cutoff) w.actions)
    modify (λ w. record w {
      db = record w.db {
        actions = delete_where (is_old_action cutoff) w.actions;
        notifications =
            modify_where (is_linked (map (λ (a : EnforcementAction). a.id) old))
              (λ n. record n { enforcement_action_id = none }) w.notifications;
      };
    })
    pure (length old)

  -- auth.py, `purge_expired_sessions`
  unfoldable pub purge_expired_sessions : Exec (World T) ℕ
  purge_expired_sessions = do
    now ← gets (λ w. w.now)
    let old : UtilitySession → Bool = λ s. earlier s.absolute_expires_at (days_before 7 now)
    count ← gets (λ w. length (select old w.sessions))
    modify (λ w. record w { db = record w.db { sessions = delete_where old w.sessions } })
    pure count

  -- `_prune_login_attempts`
  unfoldable pub prune_login_attempts : Exec (World T) ℕ
  prune_login_attempts = do
    now ← gets (λ w. w.now)
    let old : LoginAttempt → Bool = λ a. earlier a.last_attempt_at (days_before 1 now)
    count ← gets (λ w. length (select old w.login_attempts))
    modify
        (λ w. record w { db = record w.db { login_attempts = delete_where old w.login_attempts } })
    pure count

  -- `_prune_period_states`; its count is not reported.
  unfoldable pub prune_period_states : DateTime → Exec (World T) Unit
  prune_period_states cutoff = modify (λ w. record w {
    db = record w.db { states = delete_where (is_closed_state cutoff) w.states };
  })

  -- `_prune_audit`
  unfoldable pub prune_audit : DateTime → Exec (World T) ℕ
  prune_audit cutoff = do
    let old : AuditLogEntry → Bool = λ e. earlier e.occurred_at cutoff
    count ← gets (λ w. length (select old w.audit_log))
    modify (λ w. record w { db = record w.db { audit_log = delete_where old w.audit_log } })
    pure count

  -- The audit entry of a run that removed something.
  unfoldable pub record_prune : ℕ → AuditActor → RetentionResult → Exec (World T) Unit
  record_prune days actor result =
      if total result == 0
      then pure tt
      else record_audit (record {
        action = "retention.pruned";
        actor = actor;
        target_type = some "retention";
        target_id = none;
        target_label = none;
        before = none;
        after = some (retention_stats (total result));
        detail = some (
            concat (
              "Removed data older than "
              ∷ str days
              ∷ " days. "
              ∷ str result.audit_entries
              ∷ " audit entries were included in the prune."
              ∷ []));
      })

  -- `prune`, from the effective number of days on; `text` is `str(retention_days)`.
  unfoldable pub prune_days : ℕ → List String → AuditActor → Exec (World T) RetentionResult
  prune_days days skipped actor = do
    now ← gets (λ w. w.now)
    let cutoff = days_before days now
    (snapshots, records) ← prune_snapshots cutoff
    notified ← prune_notifications cutoff
    ran ← prune_runs cutoff
    balanced ← prune_balances cutoff
    acted ← prune_enforcement cutoff
    signed_in ← purge_expired_sessions
    tried ← prune_login_attempts
    prune_period_states cutoff
    audited ← prune_audit cutoff
    let result : RetentionResult = record {
      usage_snapshots = snapshots;
      usage_records = records;
      notifications = notified;
      audit_entries = audited;
      scheduler_runs = ran;
      credit_balances = balanced;
      sessions = signed_in;
      login_attempts = tried;
      enforcement_actions = acted;
      skipped = skipped;
    }
    record_prune days actor result
    pure result

  unfoldable pub prune : ℤ → String → Option AuditActor → Exec (World T) RetentionResult
  prune retention_days text actor =
      prune_days (effective_days retention_days) (raised_to_minimum retention_days text)
        (or_else actor (system_actor "retention"))
