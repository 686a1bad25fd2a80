-- ===== src/Feed.antt =====
-- backend/app/services/audit.py and notifications.py: the append-only audit log and the
-- Notification Center feed with its dedupe keys. One writer is modelled, so the database's own
-- uniqueness check on a dedupe key, which decides a race of two writers, never fires.
pub mod Marking
pub mod Keys
use v_cx_credit_guard.Prelude.{
  ℕ, ◌+◌, String, Bool, true, false, Option, none, some, List, [], ◌∷◌, ◌++◌, concat, str, slice_to,
  str_eq, ◌==◌, first_where, modify_where, select, length, if◌then◌else◌,
}
use v_cx_credit_guard.Exec.{Exec, ok}
use v_cx_credit_guard.Model.Enums.{EntityType, Severity, ActorType}
use v_cx_credit_guard.Model.Log.{AuditActor, AuditValue, AuditLogEntry, Notification}
use v_cx_credit_guard.Model.Database.{World}

-- `AuditActor.system(name)`
abbrev pub system_actor : String → AuditActor
system_actor name = record {
  actor_type = ActorType.system;
  actor_id = none;
  actor_name = some name;
  ip_address = none;
  user_agent = none;
}

-- The arguments of `record_audit`.
pub record AuditEvent : Type 0 where
  pub action : String
  pub actor : AuditActor
  pub target_type : Option String
  pub target_id : Option String
  pub target_label : Option String
  pub before : Option AuditValue
  pub after : Option AuditValue
  pub detail : Option String

-- `value[:n] if value else None`
unfoldable pub clipped : ℕ → Option String → Option String
unfolding slice_to
clipped n none = none
clipped n (some s) = if str_eq s "" then none else some (slice_to n s)

module _ {T : Type 0} where
  unfoldable pub record_audit : AuditEvent → Exec (World T) Unit
  unfolding clipped
  record_audit e w =
      let entry : AuditLogEntry = record {
        occurred_at = w.now;
        actor_type = e.actor.actor_type;
        actor_id = e.actor.actor_id;
        actor_name = e.actor.actor_name;
        action = e.action;
        target_type = e.target_type;
        target_id = e.target_id;
        target_label = e.target_label;
        before = e.before;
        after = e.after;
        detail = e.detail;
        ip_address = e.actor.ip_address;
        user_agent = clipped 256 e.actor.user_agent;
      } in
      (ok tt, record w { db = record w.db { audit_log = w.audit_log ++ entry ∷ [] } })

-- The arguments of `notify`.
pub record Notice : Type 0 where
  pub category : String
  pub severity : Severity
  pub title : String
  pub body : Option String
  pub entity_type : Option EntityType
  pub entity_id : Option String
  pub entity_label : Option String
  pub dedupe_key : Option String
  pub enforcement_action_id : Option ℕ

-- `dedupe_key == key` of the query: a row without a key never matches.
abbrev pub has_key : String → Notification → Bool
has_key key n = elim n.dedupe_key [ none ↦ false | some k ↦ str_eq k key ]

-- Whether the notice was raised before, by the feed.
unfoldable pub already_raised : Option String → List Notification → Bool
already_raised none feed = false
already_raised (some key) feed = elim (first_where (has_key key) feed) [
  | none ↦ false
  | some n ↦ true
]

module _ {T : Type 0} where
  -- The notification that was appended, or `none` where it had been raised already.
  unfoldable pub notify : Notice → Exec (World T) (Option Notification)
  unfolding already_raised slice_to
  notify n w =
      let row : Notification = record {
        id = w.next_id;
        created_at = w.now;
        severity = n.severity;
        category = n.category;
        entity_type = n.entity_type;
        entity_id = n.entity_id;
        entity_label = n.entity_label;
        title = slice_to 256 n.title;
        body = n.body;
        dedupe_key = n.dedupe_key;
        enforcement_action_id = n.enforcement_action_id;
        read_at = none;
      } in
      if already_raised n.dedupe_key w.notifications then (ok none, w) else (
        ok (some row),
        record w {
          db = record w.db { next_id = w.next_id + 1; notifications = w.notifications ++ row ∷ [] };
        },
      )

abbrev pub is_unread : Notification → Bool
is_unread n = elim n.read_at [ none ↦ true | some t ↦ false ]

module _ {T : Type 0} where
  unfoldable pub unread_count : World T → ℕ
  unread_count w = length (select is_unread w.notifications)

-- `id in ids`
abbrev pub id_in : ℕ → List ℕ → Bool
id_in i [] = false
id_in i (j ∷ ids) = let rest = id_in i ids in if j == i then true else rest

-- The rows that `mark_read` takes: an empty list of ids stands for all of them, as `None` does.
unfoldable pub to_mark : List ℕ → Notification → Bool
to_mark [] n = is_unread n
to_mark (i ∷ ids) n = if is_unread n then id_in n.id (i ∷ ids) else false

module _ {T : Type 0} where
  unfoldable pub mark_read : List ℕ → Exec (World T) ℕ
  unfolding to_mark
  mark_read ids w = (
    ok (length (select (to_mark ids) w.notifications)),
    record w {
      db = record w.db {
        notifications =
            modify_where (to_mark ids) (λ n. record n { read_at = some w.now }) w.notifications;
      };
    },
  )

abbrev pub category_warning : String
category_warning = "warning"

abbrev pub category_enforcement : String
category_enforcement = "enforcement"

abbrev pub category_restoration : String
category_restoration = "restoration"

abbrev pub category_sync_error : String
category_sync_error = "sync_error"

unfoldable pub warning_key : ℕ → String → String
unfolding concat str
warning_key limit_id period_key = concat ("warn:" ∷ str limit_id ∷ ":" ∷ period_key ∷ [])

unfoldable pub breach_key : ℕ → String → String
unfolding concat str
breach_key limit_id period_key = concat ("breach:" ∷ str limit_id ∷ ":" ∷ period_key ∷ [])

unfoldable pub monitor_only_key : ℕ → String → String
unfolding concat str
monitor_only_key limit_id period_key = concat ("monitor:" ∷ str limit_id ∷ ":" ∷ period_key ∷ [])

unfoldable pub enforcement_key : ℕ → String
unfolding concat str
enforcement_key action_id = concat ("enforced:" ∷ str action_id ∷ [])

unfoldable pub reconcile_key : ℕ → String → String
unfolding concat str
reconcile_key action_id period_key = concat ("reconciled:" ∷ str action_id ∷ ":" ∷ period_key ∷ [])

unfoldable pub restoration_key : ℕ → String
unfolding concat str
restoration_key action_id = concat ("restored:" ∷ str action_id ∷ [])
