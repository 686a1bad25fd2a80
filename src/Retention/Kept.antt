-- ===== src/Retention/Kept.antt =====
-- retention.py: what `prune` never deletes.
use v_cx_credit_guard.Prelude.{
  ℕ, ℤ, ◌≡◌, ◌⊎◌, inl, inr, refl, ap, ◌∙◌, String, Bool, true, false, not, Option, none, some, List,
  [], ◌∷◌, map, ◌==◌, ==_iff, All, select, delete_where, modify_where, arith, Bool-cases,
  if◌then◌else◌,
}
use v_cx_credit_guard.Exec.{Exec, pure, modify, ◌>>=◌}
use v_cx_credit_guard.Exec.Contracts.{Keeps, Keeps-bind, Keeps-gets, Keeps-pure, Keeps-if}
use v_cx_credit_guard.Model.Calendar.{DateTime, earlier}
use v_cx_credit_guard.Model.Enums.{
  EnforcementStatus, pending, applied, failed, reversed, is_applied, is_reversed, is_failed,
}
use v_cx_credit_guard.Model.Limits.{EnforcementAction}
use v_cx_credit_guard.Model.Log.{AuditActor, Notification}
use v_cx_credit_guard.Model.Database.{World}
use v_cx_credit_guard.Feed.{id_in, record_audit}
use v_cx_credit_guard.Retention

module _ {ℓ} {A : Type ℓ} where
  pub select-delete_where :
      (q p : A → Bool)
      → ((a : A) → q a ≡ true → p a ≡ false)
      → (xs : List A) → select q (delete_where p xs) ≡ select q xs
  select-delete_where q p apart [] = refl
  select-delete_where q p apart (x ∷ xs) =
      let rest = select-delete_where q p apart xs in
      elim (Bool-cases (p x)) [
        | inl gone ↦ elim (Bool-cases (q x)) [
          | inl taken ↦ cc (gone, apart x taken)
          | inr left ↦ rw (gone, left) rest
        ]
        | inr stays ↦ rw (stays, rest) refl
      ]

  pub select-modify_where :
      (q p : A → Bool) (f : A → A)
      → ((a : A) → p a ≡ true → (q a ≡ false) × (q (f a) ≡ false))
      → (xs : List A) → select q (modify_where p f xs) ≡ select q xs
  select-modify_where q p f apart [] = refl
  select-modify_where q p f apart (x ∷ xs) =
      let rest = select-modify_where q p f apart xs in
      elim (Bool-cases (p x)) [
        | inl hit ↦ let (before, after) = apart x hit in rw (hit, before, after) rest
        | inr miss ↦ rw (miss, rest) refl
      ]

-- A row that is not applied has an id of its own.
abbrev pub HasOwnIds : List ℕ → List EnforcementAction → Type 0
HasOwnIds live rows =
    All (λ (a : EnforcementAction). (is_applied a.status ≡ true) ⊎ (id_in a.id live ≡ false)) rows

delete_where-HasOwnIds :
    (live : List ℕ) (p : EnforcementAction → Bool) (rows : List EnforcementAction)
    → HasOwnIds live rows
    → HasOwnIds live (delete_where p rows)
delete_where-HasOwnIds live p [] h = tt
delete_where-HasOwnIds live p (a ∷ rows) h =
    let rest = delete_where-HasOwnIds live p rows h.1 in
    elim (Bool-cases (p a)) [ inl gone ↦ rw gone rest | inr stays ↦ rw stays (h.0, rest) ]

is_old_action-applied :
    (cutoff : DateTime) (a : EnforcementAction)
    → is_applied a.status ≡ true
    → Retention.is_old_action cutoff a ≡ false
unfolding Retention.is_old_action
is_old_action-applied cutoff a h = go a.status h (earlier a.created_at cutoff)
  where
    go :
        (s : EnforcementStatus)
        → is_applied s ≡ true
        → (b : Bool) → (if b then (if is_reversed s then true else is_failed s) else false) ≡ false
    go applied e true = refl
    go applied e false = refl
    go pending e b = ground arith
    go failed e b = ground arith
    go reversed e b = ground arith

-- The ids of deleted actions and those of applied ones have nothing in common.
deleted-apart :
    (live : List ℕ) (cutoff : DateTime) (i : ℕ) (rows : List EnforcementAction)
    → HasOwnIds live rows
    → id_in i (map (λ (a : EnforcementAction). a.id) (select (Retention.is_old_action cutoff) rows))
      ≡ true
    → id_in i live ≡ false
deleted-apart live cutoff i [] h e = ground arith
deleted-apart live cutoff i (a ∷ rows) h e = elim (Bool-cases (Retention.is_old_action cutoff a)) [
  | inl old ↦ elim (Bool-cases (a.id == i)) [
    | inl same ↦ elim h.0 [
      | inl live_row ↦ cc (old, is_old_action-applied cutoff a live_row)
      | inr own ↦ cc (own, ((==_iff a.id i).0) same)
    ]
    | inr other ↦ deleted-apart live cutoff i rows h.1 (ground arith)
  ]
  | inr young ↦ deleted-apart live cutoff i rows h.1 (ground arith)
]

young-or_kept : (b : Bool) {kept : Bool} → kept ≡ true → (if b then not kept else false) ≡ false
young-or_kept true e = ap not e
young-or_kept false e = refl

abbrev ids_of : List EnforcementAction → List ℕ
ids_of rows = map (λ (a : EnforcementAction). a.id) rows

links-apart :
    (live : List ℕ) (cutoff : DateTime) (rows : List EnforcementAction)
    → HasOwnIds live rows
    → (n : Notification)
    → Retention.is_linked (ids_of (select (Retention.is_old_action cutoff) rows)) n ≡ true
    → Retention.is_linked live n ≡ false
unfolding Retention.is_linked
links-apart live cutoff rows h n hit = go n.enforcement_action_id hit
  where
    go :
        (link : Option ℕ)
        → (elim link [
          | none ↦ false
          | some i ↦ id_in i (ids_of (select (Retention.is_old_action cutoff) rows))
        ])
          ≡ true
        → (elim link [ none ↦ false | some i ↦ id_in i live ]) ≡ false
    go none e = refl
    go (some i) e = deleted-apart live cutoff i rows h e

module _ {T : Type 0} (restrictions : List EnforcementAction) (links : List Notification) where
  -- The applied actions, and the notifications linked to them.
  abbrev HasRestrictions : World T → Type 0
  HasRestrictions w =
      (select (λ (a : EnforcementAction). is_applied a.status) w.actions ≡ restrictions)
      × (select (Retention.is_linked (ids_of restrictions)) w.notifications ≡ links)
      × HasOwnIds (ids_of restrictions) w.actions

  abbrev Spares : {A : Type 0} → Exec (World T) A → Type 0
  Spares m = Keeps HasRestrictions m

  snapshots-spare : (cutoff : DateTime) → Spares (Retention.prune_snapshots cutoff)
  unfolding Retention.prune_snapshots ◌>>=◌
  snapshots-spare cutoff = record { at = λ w h. h }

  runs-spare : (cutoff : DateTime) → Spares (Retention.prune_runs cutoff)
  unfolding Retention.prune_runs ◌>>=◌
  runs-spare cutoff = record { at = λ w h. h }

  balances-spare : (cutoff : DateTime) → Spares (Retention.prune_balances cutoff)
  unfolding Retention.prune_balances ◌>>=◌
  balances-spare cutoff = record { at = λ w h. h }

  sessions-spare : Spares Retention.purge_expired_sessions
  unfolding Retention.purge_expired_sessions ◌>>=◌
  sessions-spare = record { at = λ w h. h }

  attempts-spare : Spares Retention.prune_login_attempts
  unfolding Retention.prune_login_attempts ◌>>=◌
  attempts-spare = record { at = λ w h. h }

  states-spare : (cutoff : DateTime) → Spares (Retention.prune_period_states cutoff)
  unfolding Retention.prune_period_states modify
  states-spare cutoff = record { at = λ w h. h }

  audit-spare : (cutoff : DateTime) → Spares (Retention.prune_audit cutoff)
  unfolding Retention.prune_audit ◌>>=◌
  audit-spare cutoff = record { at = λ w h. h }

  notifications-spare : (cutoff : DateTime) → Spares (Retention.prune_notifications cutoff)
  unfolding Retention.prune_notifications ◌>>=◌ Retention.is_old_notification
  notifications-spare cutoff = record {
    at = λ w h.
        let apart : (n : Notification)
            → Retention.is_linked (ids_of restrictions) n ≡ true
            → Retention.is_old_notification cutoff (Retention.live_action_ids w.actions) n ≡ false =
          λ n linked.
            young-or_kept (earlier n.created_at cutoff)
              (ap (λ ids. Retention.is_linked ids n) (ap ids_of h.0) ∙ linked) in
        (
          h.0,
          select-delete_where (Retention.is_linked (ids_of restrictions))
                (Retention.is_old_notification cutoff (Retention.live_action_ids w.actions)) apart
                w.notifications
              ∙ h.1,
          h.2,
        );
  }

  enforcement-spare : (cutoff : DateTime) → Spares (Retention.prune_enforcement cutoff)
  unfolding Retention.prune_enforcement ◌>>=◌ Retention.is_linked
  enforcement-spare cutoff = record {
    at = λ w h.
        let old = select (Retention.is_old_action cutoff) w.actions in
        let ids = map (λ (a : EnforcementAction). a.id) old in
        (
          select-delete_where (λ (a : EnforcementAction). is_applied a.status)
                (Retention.is_old_action cutoff) (is_old_action-applied cutoff) w.actions
              ∙ h.0,
          select-modify_where (Retention.is_linked (ids_of restrictions)) (Retention.is_linked ids)
                (λ n. record n { enforcement_action_id = none })
                (λ n hit. (links-apart (ids_of restrictions) cutoff w.actions h.2 n hit, refl))
                w.notifications
              ∙ h.1,
          delete_where-HasOwnIds (ids_of restrictions) (Retention.is_old_action cutoff) w.actions
              h.2,
        );
  }

  record_prune-spare :
      (days : ℕ) (actor : AuditActor) (r : Retention.RetentionResult)
      → Spares (Retention.record_prune days actor r)
  unfolding Retention.record_prune pure record_audit
  record_prune-spare days actor r =
      Keeps-if (Retention.total r == 0) (record { at = λ w h. h }) (record { at = λ w h. h })

  prune_days-spare :
      (days : ℕ) (skipped : List String) (actor : AuditActor)
      → Spares (Retention.prune_days days skipped actor)
  unfolding Retention.prune_days
  prune_days-spare days skipped actor = Keeps-bind (Keeps-gets (λ w. w.now)) λ now.
      Keeps-bind (snapshots-spare _) λ _. Keeps-bind (notifications-spare _) λ _.
        Keeps-bind (runs-spare _) λ _. Keeps-bind (balances-spare _) λ _.
          Keeps-bind (enforcement-spare _) λ _. Keeps-bind sessions-spare λ _.
            Keeps-bind attempts-spare λ _. Keeps-bind (states-spare _) λ _.
              Keeps-bind (audit-spare _)
                λ _. Keeps-bind (record_prune-spare days actor _) λ _. Keeps-pure _

-- `prune` keeps, whatever the retention setting, every applied enforcement action as it is, with the
-- snapshot, and every notification that is linked to one, on every table where
-- the id of an action that is not applied differs from the ids of the applied ones.
pub prune-keeps_restrictions :
    {T : Type 0} (retention_days : ℤ) (text : String) (actor : Option AuditActor) (w : World T)
    → HasOwnIds (Retention.live_action_ids w.actions) w.actions
    → (select
          (λ (a : EnforcementAction). is_applied a.status)
          (Retention.prune retention_days text actor w).1.actions
        ≡ select (λ (a : EnforcementAction). is_applied a.status) w.actions)
      × (select
            (Retention.is_linked (Retention.live_action_ids w.actions))
            (Retention.prune retention_days text actor w).1.notifications
          ≡ select (Retention.is_linked (Retention.live_action_ids w.actions)) w.notifications)
unfolding Retention.prune
prune-keeps_restrictions retention_days text actor w own =
    let kept =
      (prune_days-spare (select (λ (a : EnforcementAction). is_applied a.status) w.actions)
          (select (Retention.is_linked (Retention.live_action_ids w.actions)) w.notifications)
          (Retention.effective_days retention_days)
          (Retention.raised_to_minimum retention_days text) _).at
        w (refl, refl, own) in
    (kept.0, kept.1)
