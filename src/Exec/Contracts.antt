-- ===== src/Exec/Contracts.antt =====
-- What a call establishes, by how it ends, and the calls that keep a property of the state.
use v_cx_credit_guard.Prelude.{◌≡◌, ◌∙◌, ap, Bool, true, false, if◌then◌else◌}
use v_cx_credit_guard.Exec.{
  Error, checkmarx, period_error, limit_error, value_error, fallback_detected, internal, Result, ok,
  err, Exec, pure, raise, gets, returned, failed, attempt, ◌>>=◌,
}

module _ {S A : Type 0} where
  -- `Q` of the value and the state after a return, `E` of the state after a raise.
  abbrev pub Post : (A → S → Type 0) → (S → Type 0) → Result A × S → Type 0
  Post Q E (ok a, s) = Q a s
  Post Q E (err e, s) = E s

  pub record Ensures (P : S → Type 0) (m : Exec S A) (Q : A → S → Type 0) (E : S → Type 0)
      : Type 0 where
    pub at : (s : S) → P s → Post Q E (m s)

  pub record Keeps (P : S → Type 0) (m : Exec S A) : Type 0 where
    pub at : (s : S) → P s → P (m s).1

module _ {S A : Type 0} {P : S → Type 0} where
  pub Keeps-Ensures : {m : Exec S A} → Keeps P m → Ensures P m (λ _ s. P s) P
  Keeps-Ensures {m} k = record { at = λ s p. split (m s) (k.at s p) }
    where
      split : (x : Result A × S) → P x.1 → Post (λ _ s. P s) P x
      split (ok a, s) h = h
      split (err e, s) h = h

  pub Ensures-Keeps : {m : Exec S A} → Ensures P m (λ _ s. P s) P → Keeps P m
  Ensures-Keeps {m} k = record { at = λ s p. split (m s) (k.at s p) }
    where
      split : (x : Result A × S) → Post (λ _ s. P s) P x → P x.1
      split (ok a, s) h = h
      split (err e, s) h = h

  -- A call that only reads the state.
  Keeps-reads : (f : S → Result A) → Keeps P (λ s. (f s, s))
  Keeps-reads f = record { at = λ _ kept. kept }

  pub Keeps-gets : (read : S → A) → Keeps P (gets read)
  unfolding gets
  Keeps-gets read = Keeps-reads (λ s. ok (read s))

  pub Keeps-raise : (failure : Error) → Keeps P (raise {A = A} failure)
  unfolding raise
  Keeps-raise failure = Keeps-reads (λ _. err failure)

  pub Keeps-pure : (a : A) → Keeps P (pure a)
  unfolding pure
  Keeps-pure a = Keeps-reads (λ _. ok a)

  pub Keeps-if : (b : Bool) {m n : Exec S A} → Keeps P m → Keeps P n → Keeps P (if b then m else n)
  Keeps-if true km kn = km
  Keeps-if false km kn = kn

  pub Keeps-attempt : {m : Exec S A} → Keeps P m → Keeps P (attempt m)
  unfolding attempt
  Keeps-attempt {m} k = record { at = λ s p. split (m s) (k.at s p) }
    where
      split : (x : Result A × S) → P x.1 → P (attempt (λ _. x) x.1).1
      split (ok a, s) h = h
      split (err (checkmarx c t), s) h = h
      split (err (period_error t), s) h = h
      split (err (limit_error t), s) h = h
      split (err (value_error t), s) h = h
      split (err (fallback_detected t), s) h = h
      split (err (internal t), s) h = h

module _ {S A : Type 0} {P E : S → Type 0} where
  pub Ensures-gets : (f : S → A) → Ensures P (gets f) (λ _ s. P s) E
  unfolding gets
  Ensures-gets f = record { at = λ s h. h }

  -- A handler takes over the states in which `m` raised `CheckmarxError`.
  pub Ensures-attempt :
      {m : Exec S A} {Q : A → S → Type 0}
      → Ensures P m Q E
      → Ensures P (attempt m) (λ r s. elim r [ returned a ↦ Q a s | failed c t ↦ E s ]) E
  unfolding attempt
  Ensures-attempt {m} {Q} k = record { at = λ s p. split (m s) (k.at s p) }
    where
      split :
          (x : Result A × S)
          → Post Q E x
          → Post (λ r s. elim r [ returned a ↦ Q a s | failed c t ↦ E s ]) E (attempt (λ _. x) x.1)
      split (ok a, s) h = h
      split (err (checkmarx c t), s) h = h
      split (err (period_error t), s) h = h
      split (err (limit_error t), s) h = h
      split (err (value_error t), s) h = h
      split (err (fallback_detected t), s) h = h
      split (err (internal t), s) h = h

-- What holds after a return and after a raise holds after the call.
pub Ensures_after :
    {S A : Type 0} {P Q : S → Type 0} {m : Exec S A}
    → Ensures P m (λ _. Q) Q
    → (s : S) → P s
    → Q (m s).1
Ensures_after {S} {A} {P} {Q} {m} k s p = split (m s) (k.at s p)
  where
    split : (x : Result A × S) → Post (λ _. Q) Q x → Q x.1
    split (ok a, s) h = h
    split (err e, s) h = h

-- A weaker claim about the states in which `m` raises.
pub Ensures_mono :
    {S A : Type 0} {P E E' : S → Type 0} {Q : A → S → Type 0} {m : Exec S A}
    → ((s : S) → E s → E' s)
    → Ensures P m Q E
    → Ensures P m Q E'
Ensures_mono {S = S} {A = A} {E = E} {E' = E'} {Q = Q} {m = m} f k = record {
  at = λ s p. split (m s) (k.at s p);
}
  where
    split : (x : Result A × S) → Post Q E x → Post Q E' x
    split (ok a, s) h = h
    split (err e, s) h = f s h

module _ {S A B : Type 0} {P : S → Type 0} where
  pub Ensures-bind :
      {m : Exec S A} {f : A → Exec S B} {E : S → Type 0} {R : B → S → Type 0} (Q : A → S → Type 0)
      → Ensures P m Q E
      → ((a : A) → Ensures (Q a) (f a) R E)
      → Ensures P (m >>= f) R E
  unfolding ◌>>=◌
  Ensures-bind {m} {f} {E} {R} Q km kf = record { at = λ s p. split (m s) (km.at s p) }
    where
      split : (x : Result A × S) → Post Q E x → Post R E (((λ _. x) >>= f) x.1)
      split (ok a, s) h = (kf a).at s h
      split (err e, s) h = h

  pub Keeps-bind :
      {m : Exec S A} {f : A → Exec S B} → Keeps P m → ((a : A) → Keeps P (f a)) → Keeps P (m >>= f)
  unfolding ◌>>=◌
  Keeps-bind {m} {f} km kf = record { at = λ s p. split (m s) (km.at s p) }
    where
      split : (x : Result A × S) → P x.1 → P (((λ _. x) >>= f) x.1).1
      split (ok a, s) h = (kf a).at s h
      split (err e, s) h = h

-- A bind goes on from where its call has returned.
pub bind_ok :
    {S A B : Type 0}
    → (m : Exec S A) → (s : S) → {a : A} → {s' : S} → m s ≡ (ok a, s')
    → (f : A → Exec S B) → (m >>= f) s ≡ f a s'
unfolding ◌>>=◌
bind_ok m s e f = ap (λ x. ((λ _. x) >>= f) s) e

pub ruleset keeps_rules = (Keeps-pure, Keeps-raise, Keeps-gets, Keeps-if, Keeps-attempt, Keeps-bind)

-- A call that returns, and what comes after it.
pub then_returns :
    {S A B : Type 0} (m : Exec S A) (k : A → Exec S B) (a : A) (s s' : S) (r : Result B × S)
    → m s ≡ (ok a, s')
    → k a s' ≡ r
    → (m >>= k) s ≡ r
unfolding ◌>>=◌
then_returns m k a s s' r returns rest =
    ap (λ p. elim p.0 [ ok a ↦ k a p.1 | err e ↦ (err e, p.1) ]) returns ∙ rest
