-- ===== src/Cycle/Exclusion.antt =====
-- cycle.py: who holds the lock after a sequence of calls from several processes.
use v_cx_credit_guard.Prelude.{
  ◌≡◌, ◌≢◌, inl, inr, refl, sym, ap, ◌∙◌, String, Bool, true, false, ◌&&◌, Option, none, some, List,
  [], ◌∷◌, str_eq, eq_iff, exists_where, modify_where, Bool-cases, All,
}
use v_cx_credit_guard.Model.Calendar.{DateTime, earlier}
use v_cx_credit_guard.Model.Usage.{SchedulerLock}
use v_cx_credit_guard.Cycle.Lock.{
  named, stale_before, ensure_row, is_free, is_takeable, taken, acquire_lock, is_own, is_held_by,
  heartbeat, release_lock,
}

-- The lock of this name has this holder, since this heartbeat.
abbrev pub IsHeld : String → String → DateTime → SchedulerLock → Type 0
IsHeld name who since l =
    named name l ≡ true → (l.holder ≡ some who) × (l.heartbeat_at ≡ some since)

-- There is such a lock, and every row of the name is held.
abbrev pub HoldsLock : String → String → DateTime → List SchedulerLock → Type 0
HoldsLock name who since locks =
    (exists_where (named name) locks ≡ true) × All (IsHeld name who since) locks

-- One call by a process; the instant of the caller's clock is with it.
pub data Call : Type 0 where
  acquire : DateTime → String → Call
  release : String → Call

unfoldable pub perform_call : String → Call → List SchedulerLock → List SchedulerLock
unfolding acquire_lock release_lock
perform_call name (acquire now who) locks = (acquire_lock name now who locks).1
perform_call name (release who) locks = release_lock name who locks

-- A call that comes in time, or from somebody else.
abbrev pub IsOthers : String → DateTime → Call → Type 0
IsOthers who since (acquire now other) = earlier since (stale_before now) ≡ false
IsOthers who since (release other) = other ≢ who

-- The tables that such calls lead to.
pub data Later (name who : String) (since : DateTime)
    : List SchedulerLock → List SchedulerLock → Type 0 where
  here : {locks : List SchedulerLock} → Later name who since locks locks
  call :
      {before after : List SchedulerLock} (c : Call)
      → IsOthers who since c
      → Later name who since before after
      → Later name who since before (perform_call name c after)

held_free :
    (name who : String) (since quiet : DateTime) (l : SchedulerLock)
    → IsHeld name who since l
    → earlier since quiet ≡ false
    → (named name l && is_free quiet l) ≡ false
unfolding is_free
held_free name who since quiet l h fresh = elim (Bool-cases (named name l)) [
  | inl same ↦ let (holder, beat) = h same in rw same (go l.holder l.heartbeat_at holder beat)
  | inr other ↦ rw other refl
]
  where
    go :
        (h : Option String) (b : Option DateTime)
        → h ≡ some who
        → b ≡ some since
        → (elim h [ none ↦ true | some x ↦ elim b [ none ↦ true | some t ↦ earlier t quiet ] ])
          ≡ false
    go none b eh eb = cc (eh)
    go (some x) none eh eb = cc (eb)
    go (some x) (some t) eh eb =
        let same : t ≡ since = cc (eb) in ap (λ u. earlier u quiet) same ∙ fresh

untouched :
    (p : SchedulerLock → Bool) (f : SchedulerLock → SchedulerLock) (locks : List SchedulerLock)
    → All (λ l. p l ≡ false) locks
    → (exists_where p locks ≡ false) × (modify_where p f locks ≡ locks)
untouched p f [] h = (refl, refl)
untouched p f (l ∷ locks) h =
    let (none_there, same) = untouched p f locks h.1 in rw (h.0, same) (none_there, refl)

is_takeable-held :
    (name who : String) (since now : DateTime) (locks : List SchedulerLock)
    → All (IsHeld name who since) locks
    → earlier since (stale_before now) ≡ false
    → All (λ l. is_takeable now name l ≡ false) locks
is_takeable-held name who since now [] h fresh = tt
is_takeable-held name who since now (l ∷ locks) h fresh = (
  held_free name who since (stale_before now) l h.0 fresh,
  is_takeable-held name who since now locks h.1 fresh,
)

-- A process that comes in time does not get a held lock, and changes nothing.
acquire_lock-held :
    (name who other : String) (since now : DateTime) (locks : List SchedulerLock)
    → HoldsLock name who since locks
    → earlier since (stale_before now) ≡ false
    → acquire_lock name now other locks ≡ (false, locks)
unfolding acquire_lock ensure_row
acquire_lock-held name who other since now locks (there, h) fresh =
    let (none_free, same) =
      untouched (is_takeable now name) (taken now other) locks
        (is_takeable-held name who since now locks h fresh) in
    rw (there, none_free, same) refl

others_text : (who other : String) → other ≢ who → str_eq who other ≡ false
others_text who other differs = elim (Bool-cases (str_eq who other)) [
  | inl same ↦ absurd (differs (sym ((eq_iff who other).0 same)))
  | inr no_match ↦ no_match
]

is_own-others :
    (name who other : String) (since : DateTime) (locks : List SchedulerLock)
    → All (IsHeld name who since) locks
    → other ≢ who
    → All (λ l. is_own name other l ≡ false) locks
is_own-others name who other since [] h differs = tt
is_own-others name who other since (l ∷ locks) h differs = (
  elim (Bool-cases (named name l)) [
    | inl same ↦
        let (holder, beat) = h.0 same in
        rw same (ap (is_held_by other) holder ∙ others_text who other differs)
    | inr another ↦ rw another refl
  ],
  is_own-others name who other since locks h.1 differs,
)

release_lock-others :
    (name who other : String) (since : DateTime) (locks : List SchedulerLock)
    → HoldsLock name who since locks
    → other ≢ who
    → release_lock name other locks ≡ locks
unfolding release_lock
release_lock-others name who other since locks (there, h) differs =
    (untouched (is_own name other) _ locks (is_own-others name who other since locks h differs)).1

perform_call-unchanged :
    (name who : String) (since : DateTime) {before after : List SchedulerLock}
    → HoldsLock name who since before
    → Later name who since before after
    → after ≡ before
unfolding perform_call
perform_call-unchanged name who since held here = refl
perform_call-unchanged name who since {before} held
      (call {after = after} (acquire now other) fresh later) =
    let same = perform_call-unchanged name who since held later in
    ap (λ rows. (acquire_lock name now other rows).1) same
    ∙ ap (λ (x : Bool × List SchedulerLock). x.1)
        (acquire_lock-held name who other since now before held fresh)
perform_call-unchanged name who since {before} held
      (call {after = after} (release other) differs later) =
    let same = perform_call-unchanged name who since held later in
    ap (release_lock name other) same ∙ release_lock-others name who other since before held differs

-- While a process holds the lock and its last heartbeat is not stale, however the other processes
-- call `acquire_lock` and `release_lock`, the table stays as it is and no call acquires the lock.
pub acquire_lock-excluded :
    (name who other : String) (since now : DateTime) {before after : List SchedulerLock}
    → HoldsLock name who since before
    → Later name who since before after
    → earlier since (stale_before now) ≡ false
    → (after ≡ before) × (acquire_lock name now other after ≡ (false, before))
acquire_lock-excluded name who other since now {before} held later fresh =
    let same = perform_call-unchanged name who since held later in
    (
      same,
      ap (acquire_lock name now other) same
          ∙ acquire_lock-held name who other since now before held fresh,
    )

stale_free :
    (since quiet : DateTime) (l : SchedulerLock)
    → l.heartbeat_at ≡ some since
    → earlier since quiet ≡ true
    → is_free quiet l ≡ true
unfolding is_free
stale_free since quiet l beat stale = go l.holder l.heartbeat_at beat
  where
    go :
        (h : Option String) (b : Option DateTime)
        → b ≡ some since
        → (elim h [ none ↦ true | some x ↦ elim b [ none ↦ true | some t ↦ earlier t quiet ] ])
          ≡ true
    go none b eb = refl
    go (some x) none eb = refl
    go (some x) (some t) eb =
        let same : t ≡ since = cc (eb) in ap (λ u. earlier u quiet) same ∙ stale

acquire_lock-free :
    (name who : String) (now : DateTime) (l : SchedulerLock)
    → named name l ≡ true
    → is_free (stale_before now) l ≡ true
    → acquire_lock name now who (l ∷ []) ≡ (true, taken now who l ∷ [])
unfolding acquire_lock ensure_row
acquire_lock-free name who now l own free = rw (own, free, own) refl

-- The lock whose last heartbeat is stale goes to the next caller, who holds it from then on; the
-- former holder's `release_lock` and `heartbeat` have no effect any more.
pub acquire_lock-reclaims :
    (name who other : String) (since now later : DateTime) (l : SchedulerLock)
    → named name l ≡ true
    → IsHeld name who since l
    → earlier since (stale_before now) ≡ true
    → other ≢ who
    → let (got, after) = acquire_lock name now other (l ∷ []) in
      (got ≡ true)
      × HoldsLock name other now after
      × (release_lock name who after ≡ after)
      × (heartbeat name later who after ≡ after)
unfolding release_lock heartbeat
acquire_lock-reclaims name who other since now later l own held stale differs =
    let (holder, beat) = held own in
    let free = stale_free since (stale_before now) l beat stale in
    let stranger = others_text other who (λ e. differs (sym e)) in
    let next = taken now other l in
    let mine : is_own name who next ≡ false = rw (own, stranger) refl in
    rw (acquire_lock-free name other now l own free)
      (refl, (rw own refl, ((λ _. (refl, refl)), tt)), rw mine refl, rw mine refl)
