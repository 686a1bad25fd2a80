-- ===== src/Enforcement/Rows.antt =====
-- enforcement.py: the enforcement_action table as a list of rows, and when it is sound.
use v_cx_credit_guard.Prelude.{
  ℕ, ◌+◌, ◌≤◌, ◌<◌, ◌≡◌, ◌≢◌, ◌⊎◌, inl, inr, refl, sym, ◌∙◌, ap, String, Bool, true, none, some,
  List, [], ◌∷◌, ◌++◌, All, str_eq, eq_iff, ◌==◌, ==_iff, first_where, modify_where, select, arith,
  Bool-cases,
}
use mathlib.Core.Path.{subst}
use v_cx_credit_guard.Model.Enums.{EnforcementKind, is_applied}
use v_cx_credit_guard.Model.Limits.{UndoSnapshot, EnforcementAction}
use v_cx_credit_guard.Enforcement.Snapshots.{holds_values, NamesKind}

-- Applied, it has a snapshot with the values that give the access back, for the kind that its key
-- names.
abbrev pub IsReversible : EnforcementAction → Type 0
IsReversible a =
    is_applied a.status ≡ true
    → (k : EnforcementKind) × (s : UndoSnapshot) × (a.undo_snapshot ≡ some s)
      × (holds_values k s ≡ true)
      × NamesKind k a.idempotency_key

abbrev pub Differs : EnforcementAction → EnforcementAction → Type 0
Differs a b = (a.id ≢ b.id) × (a.idempotency_key ≢ b.idempotency_key)

-- Every row numbered below `n`.
abbrev pub IsSound : ℕ → List EnforcementAction → Type 0
IsSound n [] = Unit
IsSound n (a ∷ rows) = (a.id < n) × IsReversible a × All (Differs a) rows × IsSound n rows

-- A row with this id and this key is in the table.
abbrev pub HasRow : ℕ → String → List EnforcementAction → Type 0
HasRow id key [] = ⊥
HasRow id key (a ∷ rows) = ((a.id ≡ id) × (a.idempotency_key ≡ key)) ⊎ HasRow id key rows

abbrev pub put : EnforcementAction → List EnforcementAction → List EnforcementAction
put a rows = modify_where (λ x. x.id == a.id) (λ _. a) rows

abbrev pub by_key : String → EnforcementAction → Bool
by_key key a = str_eq a.idempotency_key key

pub IsSound-mono :
    (n m : ℕ) (rows : List EnforcementAction) → n ≤ m → IsSound n rows → IsSound m rows
IsSound-mono n m [] le h = tt
IsSound-mono n m (a ∷ rows) le h = (omega arith, h.1, h.2, IsSound-mono n m rows le h.3)

pub HasRow-first_where :
    (key : String) (rows : List EnforcementAction) (a : EnforcementAction)
    → first_where (by_key key) rows ≡ some a
    → HasRow a.id a.idempotency_key rows × (a.idempotency_key ≡ key)
HasRow-first_where key [] a e = ground arith
HasRow-first_where key (x ∷ rows) a e = elim (Bool-cases (str_eq x.idempotency_key key)) [
  | inl same ↦ ground (arith, eq_iff x.idempotency_key key)
  | inr other ↦ let (row, k) = HasRow-first_where key rows a (ground arith) in (inr row, k)
]

pub HasRow-lt :
    (n id : ℕ) (key : String) (rows : List EnforcementAction)
    → IsSound n rows
    → HasRow id key rows
    → id < n
HasRow-lt n id key [] h r = absurd r
HasRow-lt n id key (x ∷ rows) h (inl e) = omega (arith, h.0, e.0)
HasRow-lt n id key (x ∷ rows) h (inr r) = HasRow-lt n id key rows h.3 r

Differs-put :
    (x a : EnforcementAction) (rows : List EnforcementAction)
    → Differs x a
    → All (Differs x) rows
    → All (Differs x) (put a rows)
Differs-put x a [] d h = tt
Differs-put x a (y ∷ rows) d h = elim (Bool-cases (y.id == a.id)) [
  | inl same ↦ rw same (d, Differs-put x a rows d h.1)
  | inr other ↦ rw other (h.0, Differs-put x a rows d h.1)
]

Differs-of_row :
    (x : EnforcementAction) (id : ℕ) (key : String) (rows : List EnforcementAction)
    → All (Differs x) rows
    → HasRow id key rows
    → (x.id ≢ id) × (x.idempotency_key ≢ key)
Differs-of_row x id key [] h r = absurd r
Differs-of_row x id key (y ∷ rows) h (inl e) =
    ((λ p. h.0.0 (p ∙ sym e.0)), (λ p. h.0.1 (p ∙ sym e.1)))
Differs-of_row x id key (y ∷ rows) h (inr r) = Differs-of_row x id key rows h.1 r

put_none :
    (a x : EnforcementAction) (rows : List EnforcementAction)
    → x.id ≡ a.id
    → All (Differs x) rows
    → put a rows ≡ rows
put_none a x [] e h = refl
put_none a x (y ∷ rows) e h = elim (Bool-cases (y.id == a.id)) [
  | inl same ↦ absurd (h.0.0 (ground arith))
  | inr other ↦ rw other (ap (λ r. y ∷ r) (put_none a x rows e h.1))
]

Differs-of_same :
    (a x : EnforcementAction) (rows : List EnforcementAction)
    → x.id ≡ a.id
    → x.idempotency_key ≡ a.idempotency_key
    → All (Differs x) rows
    → All (Differs a) rows
Differs-of_same a x [] e k h = tt
Differs-of_same a x (y ∷ rows) e k h =
    (((λ p. h.0.0 (e ∙ p)), (λ p. h.0.1 (k ∙ p))), Differs-of_same a x rows e k h.1)

-- A write to a row of the table, under its own id and key, keeps the table sound.
pub put-IsSound :
    (n : ℕ) (a : EnforcementAction) (rows : List EnforcementAction)
    → HasRow a.id a.idempotency_key rows
    → IsReversible a
    → IsSound n rows
    → IsSound n (put a rows)
put-IsSound n a [] r v h = absurd r
put-IsSound n a (x ∷ rows) (inl e) v h =
    rw ((==_iff x.id a.id).1 e.0, put_none a x rows e.0 h.2)
      (omega arith, v, Differs-of_same a x rows e.0 e.1 h.2, h.3)
put-IsSound n a (x ∷ rows) (inr r) v h =
    let d = Differs-of_row x a.id a.idempotency_key rows h.2 r in
    elim (Bool-cases (x.id == a.id)) [
      | inl same ↦ absurd (d.0 ((==_iff x.id a.id).0 same))
      | inr other ↦ rw other (h.0, h.1, Differs-put x a rows d h.2, put-IsSound n a rows r v h.3)
    ]

pub HasRow-put :
    (id : ℕ) (key : String) (a : EnforcementAction) (rows : List EnforcementAction)
    → HasRow id key rows
    → a.id ≡ id
    → a.idempotency_key ≡ key
    → HasRow id key (put a rows)
HasRow-put id key a [] r e k = r
HasRow-put id key a (x ∷ rows) (inl h) e k = rw ((==_iff x.id a.id).1 (h.0 ∙ sym e)) (inl (e, k))
HasRow-put id key a (x ∷ rows) (inr r) e k = inr (HasRow-put id key a rows r e k)

pub HasRow-append :
    (id : ℕ) (key : String) (a : EnforcementAction) (rows : List EnforcementAction)
    → a.id ≡ id
    → a.idempotency_key ≡ key
    → HasRow id key (rows ++ a ∷ [])
HasRow-append id key a [] e k = inl (e, k)
HasRow-append id key a (x ∷ rows) e k = inr (HasRow-append id key a rows e k)

Differs-append :
    (x a : EnforcementAction) (rows : List EnforcementAction)
    → Differs x a
    → All (Differs x) rows
    → All (Differs x) (rows ++ a ∷ [])
Differs-append x a [] d h = (d, tt)
Differs-append x a (y ∷ rows) d h = (h.0, Differs-append x a rows d h.1)

-- A row with a new id and a new key may be added.
pub append-IsSound :
    (n : ℕ) (a : EnforcementAction) (rows : List EnforcementAction)
    → a.id ≡ n
    → first_where (by_key a.idempotency_key) rows ≡ none
    → IsReversible a
    → IsSound n rows
    → IsSound (n + 1) (rows ++ a ∷ [])
append-IsSound n a [] e f v h = (omega arith, v, tt, tt)
append-IsSound n a (x ∷ rows) e f v h =
    elim (Bool-cases (str_eq x.idempotency_key a.idempotency_key)) [
      | inl same ↦ ground arith
      | inr other ↦ (
        omega arith,
        h.1,
        Differs-append x a rows
            (omega arith, (λ p. cc (other, (eq_iff x.idempotency_key a.idempotency_key).1 p))) h.2,
        append-IsSound n a rows e (ground arith) v h.3,
      )
    ]

pub IsReversible-first_where :
    (n : ℕ) (p : EnforcementAction → Bool) (rows : List EnforcementAction) (a : EnforcementAction)
    → IsSound n rows
    → first_where p rows ≡ some a
    → IsReversible a
IsReversible-first_where n p [] a h e = ground arith
IsReversible-first_where n p (x ∷ rows) a h e = elim (Bool-cases (p x)) [
  | inl t ↦ let same : x ≡ a = ground arith in subst IsReversible same h.1
  | inr f ↦ IsReversible-first_where n p rows a h.3 (ground arith)
]

-- Rows that a call holds while it works on the table.
abbrev pub AreHeld : List EnforcementAction → List EnforcementAction → Type 0
AreHeld rows held = All (λ a. HasRow a.id a.idempotency_key rows × IsReversible a) held

AreHeld-cons :
    (x : EnforcementAction) (rows held : List EnforcementAction)
    → AreHeld rows held
    → AreHeld (x ∷ rows) held
AreHeld-cons x rows [] h = tt
AreHeld-cons x rows (a ∷ held) h = ((inr h.0.0, h.0.1), AreHeld-cons x rows held h.1)

-- The rows of a query are held.
pub AreHeld-select :
    (n : ℕ) (p : EnforcementAction → Bool) (rows : List EnforcementAction)
    → IsSound n rows
    → AreHeld rows (select p rows)
AreHeld-select n p [] h = tt
AreHeld-select n p (x ∷ rows) h =
    let rest = AreHeld-cons x rows (select p rows) (AreHeld-select n p rows h.3) in
    elim (Bool-cases (p x)) [ inl t ↦ rw t ((inl (refl, refl), h.1), rest) | inr f ↦ rw f rest ]

key_of_row :
    (n : ℕ) (b : EnforcementAction) (x : EnforcementAction) (rows : List EnforcementAction)
    → IsSound n (x ∷ rows)
    → HasRow b.id b.idempotency_key (x ∷ rows)
    → x.id ≡ b.id
    → b.idempotency_key ≡ x.idempotency_key
key_of_row n b x rows h (inl e) same = sym e.1
key_of_row n b x rows h (inr r) same =
    absurd ((Differs-of_row x b.id b.idempotency_key rows h.2 r).0 same)

-- A write to one row keeps the others.
HasRow-put_any :
    (n id : ℕ) (key : String) (b : EnforcementAction) (rows : List EnforcementAction)
    → IsSound n rows
    → HasRow b.id b.idempotency_key rows
    → HasRow id key rows
    → HasRow id key (put b rows)
HasRow-put_any n id key b [] h rb r = r
HasRow-put_any n id key b (x ∷ rows) h rb (inl e) = elim (Bool-cases (x.id == b.id)) [
  | inl same ↦
      let k = key_of_row n b x rows h rb ((==_iff x.id b.id).0 same) in
      rw same (inl (sym ((==_iff x.id b.id).0 same) ∙ e.0, k ∙ e.1))
  | inr other ↦ rw other (inl e)
]
HasRow-put_any n id key b (x ∷ rows) h (inl eb) (inr r) =
    inr (subst (HasRow id key) (sym (put_none b x rows eb.0 h.2)) r)
HasRow-put_any n id key b (x ∷ rows) h (inr rb) (inr r) =
    inr (HasRow-put_any n id key b rows h.3 rb r)

pub AreHeld-put :
    (n : ℕ) (b : EnforcementAction) (rows held : List EnforcementAction)
    → IsSound n rows
    → HasRow b.id b.idempotency_key rows
    → AreHeld rows held
    → AreHeld (put b rows) held
AreHeld-put n b rows [] h r k = tt
AreHeld-put n b rows (a ∷ held) h r k = (
  (HasRow-put_any n a.id a.idempotency_key b rows h r k.0.0, k.0.1),
  AreHeld-put n b rows held h r k.1,
)
