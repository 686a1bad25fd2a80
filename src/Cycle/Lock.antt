-- ===== src/Cycle/Lock.antt =====
-- cycle.py, "locking", on the scheduler_lock table, whose primary key is the name. The instant and
-- the identity of the caller are arguments.
use v_cx_credit_guard.Prelude.{
  String, Bool, true, false, ◌&&◌, Option, none, some, List, [], ◌∷◌, ◌++◌, str_eq, exists_where,
  modify_where, if◌then◌else◌,
}
use v_cx_credit_guard.Model.Calendar.{DateTime, earlier}
use v_cx_credit_guard.Model.Delta.{minutes_before}
use v_cx_credit_guard.Model.Usage.{SchedulerLock}

abbrev pub lock_name : String
lock_name = "cycle"

-- LOCK_STALE_AFTER
unfoldable pub stale_before : DateTime → DateTime
unfolding minutes_before
stale_before now = minutes_before 30 now

abbrev pub named : String → SchedulerLock → Bool
named name l = str_eq l.name name

-- `insert(SchedulerLock).values(name=name)`, undone where the row exists.
unfoldable pub ensure_row : String → List SchedulerLock → List SchedulerLock
ensure_row name locks =
    if exists_where (named name) locks
    then locks
    else locks
      ++ record { name = name; holder = none; acquired_at = none; heartbeat_at = none } ∷ []

-- The holder is nobody, or went quiet before the instant.
unfoldable pub is_free : DateTime → SchedulerLock → Bool
unfolding earlier
is_free quiet l = elim l.holder [
  | none ↦ true
  | some who ↦ elim l.heartbeat_at [ none ↦ true | some t ↦ earlier t quiet ]
]

abbrev pub is_takeable : DateTime → String → SchedulerLock → Bool
is_takeable now name l = named name l && is_free (stale_before now) l

abbrev pub taken : DateTime → String → SchedulerLock → SchedulerLock
taken now who l = record l { holder = some who; acquired_at = some now; heartbeat_at = some now }

-- Whether the lock was taken, and the table.
unfoldable pub acquire_lock :
    String → DateTime → String → List SchedulerLock → Bool × List SchedulerLock
unfolding ensure_row is_free stale_before
acquire_lock name now who locks =
    let rows = ensure_row name locks in
    (
      exists_where (is_takeable now name) rows,
      modify_where (is_takeable now name) (taken now who) rows,
    )

-- `holder == who` of a query; NULL is nobody.
abbrev pub is_held_by : String → Option String → Bool
is_held_by who none = false
is_held_by who (some h) = str_eq h who

abbrev pub is_own : String → String → SchedulerLock → Bool
is_own name who l = named name l && is_held_by who l.holder

unfoldable pub heartbeat : String → DateTime → String → List SchedulerLock → List SchedulerLock
heartbeat name now who locks =
    modify_where (is_own name who) (λ l. record l { heartbeat_at = some now }) locks

unfoldable pub release_lock : String → String → List SchedulerLock → List SchedulerLock
release_lock name who locks =
    modify_where (is_own name who)
      (λ l. record l { holder = none; acquired_at = none; heartbeat_at = none }) locks
