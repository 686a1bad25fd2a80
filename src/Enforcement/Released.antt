-- ===== src/Enforcement/Released.antt =====
-- enforcement.py: the actions of a limit through `restore_for_limit`.
use v_cx_credit_guard.Prelude.{
  ℕ, ◌+◌, ◌≡◌, ◌⊎◌, inl, inr, refl, sym, String, Bool, true, false, Option, none, List, [], ◌∷◌,
  ◌==◌, ==_iff, select, All, length, arith, if◌then◌else◌, or_else, Bool-cases,
}
use v_cx_credit_guard.Exec.{
  Exec, Result, ok, err, Attempt, returned, failed, pure, raise, gets, modify, ◌>>=◌,
}
use v_cx_credit_guard.Exec.Contracts.{
  Post, Ensures, Keeps, Keeps-Ensures, Ensures-bind, Ensures-gets, Ensures_mono, Keeps-bind,
  Keeps-pure, Keeps-attempt,
}
use v_cx_credit_guard.Model.Enums.{is_applied}
use v_cx_credit_guard.Model.Limits.{UndoSnapshot, no_snapshot, EnforcementAction}
use v_cx_credit_guard.Model.Log.{AuditActor}
use v_cx_credit_guard.Model.Database.{World}
use v_cx_credit_guard.Checkmarx.{Remote}
use v_cx_credit_guard.Enforcement.Apply.{put_action}
use v_cx_credit_guard.Enforcement.Restore.{
  fresh_resolver, record_restored, record_undone, undo_and_record, restore_with, restore_each,
  restores, restore_for_limit,
}
use v_cx_credit_guard.Enforcement.Untouched.{
  HasActions, undo-HasActions, record_audit-HasActions, notify-HasActions,
}
use v_cx_credit_guard.Enforcement.Rows.{put}

-- One of the rows has this id.
abbrev pub HasId : ℕ → List EnforcementAction → Type 0
HasId id [] = ⊥
HasId id (a ∷ rows) = (a.id ≡ id) ⊎ HasId id rows

module _ (limit_id : ℕ) (key : Option String) where
  abbrev AreChosen : List EnforcementAction → Type 0
  AreChosen held = All (λ a. is_applied a.status ≡ true) held

  -- Each row that the limit still restricts is one of these.
  abbrev AreAmong : List EnforcementAction → List EnforcementAction → Type 0
  AreAmong held rows = All (λ x. restores limit_id key x ≡ true → HasId x.id held) rows

  applied_of_restores :
      (a : EnforcementAction) → restores limit_id key a ≡ true → is_applied a.status ≡ true
  applied_of_restores a h = elim (Bool-cases (is_applied a.status)) [
    | inl is ↦ is
    | inr isnt ↦ let no : restores limit_id key a ≡ false = rw isnt refl in cc (no, h)
  ]

  HasId-other :
      (a : EnforcementAction) (held : List EnforcementAction) (id : ℕ)
      → (id == a.id) ≡ false
      → HasId id (a ∷ held)
      → HasId id held
  HasId-other a held id other (inl e) = cc (other, (==_iff id a.id).1 (sym e))
  HasId-other a held id other (inr h) = h

  AreAmong-put :
      (a b : EnforcementAction) (held rows : List EnforcementAction)
      → b.id ≡ a.id
      → is_applied b.status ≡ false
      → AreAmong (a ∷ held) rows
      → AreAmong held (put b rows)
  AreAmong-put a b held [] e n h = tt
  AreAmong-put a b held (x ∷ rows) e n h =
      (head (x.id == b.id) refl, AreAmong-put a b held rows e n h.1)
    where
      head :
          (c : Bool)
          → (x.id == b.id) ≡ c
          → restores limit_id key (if c then b else x) ≡ true
          → HasId (if c then b else x).id held
      head true same p = cc (applied_of_restores b p, n)
      head false other p = HasId-other a held x.id (rw⁻¹ e other) (h.0 p)

  AreAmong-none :
      (rows : List EnforcementAction) → AreAmong [] rows → select (restores limit_id key) rows ≡ []
  AreAmong-none [] h = refl
  AreAmong-none (x ∷ rows) h = elim (Bool-cases (restores limit_id key x)) [
    | inl is ↦ absurd (h.0 is)
    | inr isnt ↦ rw isnt (AreAmong-none rows h.1)
  ]

  AreAmong-select :
      (held rows : List EnforcementAction)
      → ((id : ℕ) → HasId id (select (restores limit_id key) rows) → HasId id held)
      → AreAmong held rows
  AreAmong-select held [] f = tt
  AreAmong-select held (x ∷ rows) f = elim (Bool-cases (restores limit_id key x)) [
    | inl is ↦
        ((λ p. f x.id (rw is (inl refl))), AreAmong-select held rows λ id h. f id (rw is (inr h)))
    | inr isnt ↦ ((λ p. cc (p, isnt)), AreAmong-select held rows λ id h. f id (rw isnt h))
  ]

  AreChosen-select :
      (rows : List EnforcementAction) → AreChosen (select (restores limit_id key) rows)
  AreChosen-select [] = tt
  AreChosen-select (x ∷ rows) = elim (Bool-cases (restores limit_id key x)) [
    | inl is ↦ rw is (applied_of_restores x is, AreChosen-select rows)
    | inr isnt ↦ rw isnt (AreChosen-select rows)
  ]

  -- Each action that the limit still restricts is one of these.
  abbrev Remains : {T : Type 0} → List EnforcementAction → World T → Type 0
  Remains held w = AreAmong held w.actions

module _ {T : Type 0} (limit_id : ℕ) (key : Option String) (held : List EnforcementAction) where
  Keeps-Remains :
      {A : Type 0}
      → {m : Exec (World T) A}
      → ((rows : List EnforcementAction) (n : ℕ) → Keeps (HasActions rows n) m)
      → Keeps (Remains limit_id key held) m
  Keeps-Remains k = record { at = λ w h. rw ((k w.actions w.next_id).at w (refl, omega arith)).0 h }

  put-Remains :
      (a b : EnforcementAction)
      → b.id ≡ a.id
      → is_applied b.status ≡ false
      → Ensures
          (Remains limit_id key {T = T} (a ∷ held))
          (modify (put_action b))
          (λ _. Remains limit_id key held)
          (λ _. Unit)
  unfolding put_action modify
  put-Remains a b e n = record { at = λ w h. AreAmong-put limit_id key a b held w.actions e n h }

  -- A call that keeps the rows, whatever follows when it raises.
  Remains-Ensures :
      {A : Type 0}
      → {m : Exec (World T) A} → Keeps (Remains limit_id key held) m
      → Ensures (Remains limit_id key held) m (λ _. Remains limit_id key held) (λ _. Unit)
  Remains-Ensures k = Ensures_mono (λ w h. tt) (Keeps-Ensures k)

-- From more before the call, less after its return.
Ensures_weaken :
    {S A : Type 0} {P P' E : S → Type 0} {Q Q' : A → S → Type 0} {m : Exec S A}
    → ((s : S) → P' s → P s)
    → ((a : A) (s : S) → Q a s → Q' a s)
    → Ensures P m Q E
    → Ensures P' m Q' E
Ensures_weaken {S} {A} {E = E} {Q = Q} {Q' = Q'} {m = m} f g k = record {
  at = λ s p. split (m s) (k.at s (f s p));
}
  where
    split : (x : Result A × S) → Post Q E x → Post Q' E x
    split (ok a, s) h = g a s h
    split (err e, s) h = h

-- Nothing is asked of how a call ends.
Ensures_any : {S A : Type 0} {P : S → Type 0} (m : Exec S A) → Ensures P m (λ _ _. Unit) (λ _. Unit)
Ensures_any {S} {A} m = record { at = λ s p. split (m s) }
  where
    split : (x : Result A × S) → Post (λ _ _. Unit) (λ _. Unit) x
    split (ok a, s) = tt
    split (err e, s) = tt

module _ {T : Type 0} (api : Remote T) (actor : AuditActor) (reason : String) (limit_id : ℕ)
    (key : Option String) where
  module _ (held : List EnforcementAction) (a : EnforcementAction) (s : UndoSnapshot) where
    record_restored-Remains :
        Ensures
          (Remains limit_id key (a ∷ held))
          (record_restored api actor reason a s)
          (λ _. Remains limit_id key held)
          (λ _. Unit)
    unfolding record_restored
    record_restored-Remains =
        Ensures-bind (λ _. Remains limit_id key (a ∷ held)) (Ensures-gets _)
          λ now.
            Ensures-bind (λ _. Remains limit_id key held)
              (put-Remains limit_id key held a _ refl refl)
              λ _. Remains-Ensures limit_id key held (
                Keeps-bind
                  (Keeps-Remains limit_id key held λ rows n. record_audit-HasActions rows n _)
                  λ _.
                    Keeps-bind
                      (Keeps-Remains limit_id key held λ rows n. notify-HasActions rows n _)
                      λ _. Keeps-pure tt)

    record_undone-Remains :
        (outcome : Attempt Unit)
        → Ensures
            (Remains limit_id key (a ∷ held))
            (record_undone api actor reason a s outcome)
            (λ done w. (done ≡ true) × Remains limit_id key held w)
            (λ _. Unit)
    unfolding record_undone pure raise
    record_undone-Remains (failed k text) =
        Ensures-bind (λ _ _. Unit) (Ensures_any _) λ _. record { at = λ w h. tt }
    record_undone-Remains (returned _) =
        Ensures-bind (λ _. Remains limit_id key held) record_restored-Remains
          λ _. record { at = λ w h. (refl, h) }

    undo_and_record-Remains :
        Ensures
          (Remains limit_id key (a ∷ held))
          (undo_and_record api actor reason a s)
          (λ done w. (done ≡ true) × Remains limit_id key held w)
          (λ _. Unit)
    unfolding undo_and_record
    undo_and_record-Remains =
        Ensures-bind (λ _. Remains limit_id key (a ∷ held))
          (Remains-Ensures limit_id key (a ∷ held) (
            Keeps-attempt
              (Keeps-Remains limit_id key (a ∷ held) λ rows n. undo-HasActions rows n api a s)))
          record_undone-Remains

  restore_each-Remains :
      (held : List EnforcementAction) (count : ℕ)
      → AreChosen limit_id key held
      → Ensures
          (Remains limit_id key held)
          (restore_each api actor reason held count)
          (λ n w. (n ≡ count + length held) × Remains limit_id key [] w)
          (λ _. Unit)
  unfolding restore_each restore_with pure
  restore_each-Remains [] count c = record { at = λ w h. (omega arith, h) }
  restore_each-Remains (a ∷ held) count c = rw c.0 (
      Ensures-bind (λ done w. (done ≡ true) × Remains limit_id key held w)
        (undo_and_record-Remains held a (or_else a.undo_snapshot no_snapshot))
        λ done. step done (restore_each-Remains held (count + 1) c.1))
    where
      step :
          (done : Bool)
          → Ensures
              (Remains limit_id key held)
              (restore_each api actor reason held (count + 1))
              (λ n w. (n ≡ count + 1 + length held) × Remains limit_id key [] w)
              (λ _. Unit)
          → Ensures
              (λ w. (done ≡ true) × Remains limit_id key held w)
              (restore_each api actor reason held (if done then count + 1 else count))
              (λ n w. (n ≡ count + length (a ∷ held)) × Remains limit_id key [] w)
              (λ _. Unit)
      step false k = record { at = λ w h. cc (h.0) }
      step true k = Ensures_weaken (λ w h. h.1) (λ n w h. (omega (arith, h.0), h.1)) k

  -- When a restoration for a limit returns, in all its periods or in one, the number that it
  -- returns is the number of the actions that the limit had applied there, and no such action is
  -- left applied.
  pub restore_for_limit-releases :
      (w : World T)
      → Post
          (λ n w'.
            (n ≡ length (select (restores limit_id key) w.actions))
            × (select (restores limit_id key) w'.actions ≡ []))
          (λ _. Unit)
          (restore_for_limit api actor reason limit_id key w)
  unfolding restore_for_limit fresh_resolver gets ◌>>=◌
  restore_for_limit-releases w =
      let chosen = select (restores limit_id key) w.actions in
      ended (restore_each api actor reason chosen 0 (record w { resolver_uuid = none })) (
        (restore_each-Remains chosen 0 (AreChosen-select limit_id key w.actions)).at
          (record w { resolver_uuid = none })
          (AreAmong-select limit_id key chosen w.actions λ id h. h))
    where
      ended :
          (x : Result ℕ × World T)
          → Post
              (λ n w'.
                (n ≡ 0 + length (select (restores limit_id key) w.actions))
                × Remains limit_id key [] w')
              (λ _. Unit)
              x
          → Post
              (λ n w'.
                (n ≡ length (select (restores limit_id key) w.actions))
                × (select (restores limit_id key) w'.actions ≡ []))
              (λ _. Unit)
              (fresh_resolver (λ _. x) w)
      ended (ok n, w') h = (omega (arith, h.0), AreAmong-none limit_id key w'.actions h.1)
      ended (err e, w') h = tt
