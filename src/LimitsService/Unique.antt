-- ===== src/LimitsService/Unique.antt =====
-- limits_service.py: the unique constraint of the credit_limit table, one limit for each entity.
use v_cx_credit_guard.Prelude.{
  ◌≡◌, inl, inr, refl, false, Option, none, some, List, [], ◌∷◌, ◌++◌, All, Bool-cases, eq_iff,
  first_where,
}
use v_cx_credit_guard.Prelude.{arith}
use v_cx_credit_guard.Exec.{gets, ◌>>=◌}
use v_cx_credit_guard.Exec.Contracts.{Ensures, Keeps, Ensures-Keeps, Keeps-Ensures, Ensures-bind}
use v_cx_credit_guard.Model.Enums.{same_entity_iff}
use v_cx_credit_guard.Model.Limits.{CreditLimit}
use v_cx_credit_guard.Model.Log.{AuditActor}
use v_cx_credit_guard.Model.Database.{World}
use v_cx_credit_guard.Feed.{record_audit}
use v_cx_credit_guard.LimitsService.Input.{LimitInput}
use v_cx_credit_guard.LimitsService.Service.{
  is_limit_on, limit_for, lift_result, insert_limit, create_unless, create_limit,
}

abbrev pub HasOther : CreditLimit → CreditLimit → Type 0
HasOther a b = is_limit_on a.entity_type a.entity_id b ≡ false

-- No two limits are on the same entity.
abbrev pub AreUnique : List CreditLimit → Type 0
AreUnique [] = Unit
AreUnique (l ∷ limits) = All (HasOther l) limits × AreUnique limits

abbrev pub HasOneLimitEach : {T : Type 0} → World T → Type 0
HasOneLimitEach w = AreUnique w.limits

HasOther-swap : (a b : CreditLimit) → HasOther a b → HasOther b a
HasOther-swap a b h = ground (
  arith,
  same_entity_iff a.entity_type b.entity_type,
  same_entity_iff b.entity_type a.entity_type,
  eq_iff a.entity_id b.entity_id,
  eq_iff b.entity_id a.entity_id,
)

HasOther-append :
    (x l : CreditLimit) (limits : List CreditLimit)
    → HasOther x l
    → All (HasOther x) limits
    → All (HasOther x) (limits ++ l ∷ [])
HasOther-append x l [] h a = (h, tt)
HasOther-append x l (y ∷ limits) h a = (a.0, HasOther-append x l limits h a.1)

AreUnique-append :
    (l : CreditLimit) (limits : List CreditLimit)
    → first_where (is_limit_on l.entity_type l.entity_id) limits ≡ none
    → AreUnique limits
    → AreUnique (limits ++ l ∷ [])
AreUnique-append l [] f u = (tt, tt)
AreUnique-append l (x ∷ limits) f u = elim (Bool-cases (is_limit_on l.entity_type l.entity_id x)) [
  | inl same ↦ ground arith
  | inr other ↦ (
    HasOther-append x l limits (HasOther-swap l x other) u.0,
    AreUnique-append l limits (ground arith) u.1,
  )
]

module _ {T : Type 0} (actor : AuditActor) (d : LimitInput) where
  create_unless-HasOneLimitEach :
      (existing : Option CreditLimit)
      → Ensures
          (λ w. HasOneLimitEach w × (limit_for w.db d.entity_type d.entity_id ≡ existing))
          (create_unless {T = T} actor d existing)
          (λ _. HasOneLimitEach)
          HasOneLimitEach
  unfolding create_unless insert_limit limit_for record_audit ◌>>=◌
  create_unless-HasOneLimitEach (some l) = record { at = λ w h. h.0 }
  create_unless-HasOneLimitEach none = record { at = λ w h. AreUnique-append _ w.limits h.1 h.0 }

  -- Creating a limit, whatever becomes of it, leaves at most one limit on each entity.
  pub create_limit-HasOneLimitEach : Keeps (HasOneLimitEach {T = T}) (create_limit actor d)
  unfolding create_limit lift_result gets
  create_limit-HasOneLimitEach = Ensures-Keeps (
      Ensures-bind (λ _. HasOneLimitEach) (Keeps-Ensures (record { at = λ w h. h }))
        λ _.
          Ensures-bind
            (λ existing w.
              HasOneLimitEach w × (limit_for w.db d.entity_type d.entity_id ≡ existing))
            (record { at = λ w h. (h, refl) }) create_unless-HasOneLimitEach)
