-- ===== src/Evaluation/Usage.antt =====
-- evaluation.py: the usage of a period, and when an evaluation may restrict anyone.
use v_cx_credit_guard.Prelude.{
  ℕ, ◌+◌, ◌≤◌, ◌≡◌, ◌⊎◌, inl, inr, not, refl, Bool, true, false, Option, none, some, arith, is_some,
  Bool-cases,
}
use v_cx_credit_guard.Exec.{Exec, gets, ◌>>=◌}
use v_cx_credit_guard.Exec.Contracts.{Keeps, Keeps-bind, Keeps-pure, Keeps-if}
use v_cx_credit_guard.Model.Calendar.{DateTime}
use v_cx_credit_guard.Model.Limits.{CreditLimit, LimitPeriodState}
use v_cx_credit_guard.Model.Log.{AuditActor}
use v_cx_credit_guard.Model.Database.{World}
use v_cx_credit_guard.Periods.{PeriodWindow}
use v_cx_credit_guard.Checkmarx.{Remote}
use v_cx_credit_guard.Feed.{Notice, notify}
use v_cx_credit_guard.Enforcement.Plan.{is_exempt}
use v_cx_credit_guard.Evaluation.Result.{LimitEvaluation, EvaluationResult}
use v_cx_credit_guard.Evaluation.State.{refresh, put_state, reaches_limit}
use v_cx_credit_guard.Evaluation.Messages.{Printing, notify_breach}
use v_cx_credit_guard.Evaluation.Evaluate.{
  Verdict, finish, mark_breached, enforce_breach, over_budget, evaluate_state,
}

-- After a refresh the used credits are the reported total less the baseline, exactly, where the
-- usage is available, and zero where it is not; and the baseline is the old one or, if less was
-- reported, the reported total.
pub refresh_lem :
    (s : LimitPeriodState) (total : ℕ) (available : Bool) (t : DateTime)
    → let s' = refresh s total available t in
      (available ≡ true → s'.credits_used + s'.baseline_credits ≡ total)
      × (available ≡ false → s'.credits_used ≡ 0)
      × (s'.baseline_credits ≤ s.baseline_credits)
      × (s'.baseline_credits ≤ total)
      × ((s'.baseline_credits ≡ s.baseline_credits) ⊎ (s'.baseline_credits ≡ total))
unfolding refresh
refresh_lem s total available t = ground arith

-- The state gives no cause to restrict, nor to lift restrictions: the usage is unknown, the custom period is not open, or
-- the limit is reached but the entity is exempt, the limit is monitor only, or there is no client.
abbrev pub HasNoCause :
    {T : Type 0}
    → Option (Remote T)
    → CreditLimit
    → PeriodWindow
    → LimitPeriodState
    → Bool
    → World T
    → Type 0
HasNoCause client limit window s available w =
    (available ≡ false)
    ⊎ (window.is_active ≡ false)
    ⊎ ((reaches_limit s.credits_used limit ≡ true)
        × ((is_exempt w.db limit.entity_type limit.entity_id ≡ true)
            ⊎ (limit.enforce ≡ false)
            ⊎ (is_some client ≡ false)))

module _ {T : Type 0} (before : World T) where
  -- The actions and the tenant are as they were.
  abbrev pub IsUnrestricted : World T → Type 0
  IsUnrestricted w = (w.actions ≡ before.actions) × (w.tenant ≡ before.tenant)

  notify-IsUnrestricted : (n : Notice) → Keeps IsUnrestricted (notify n)
  unfolding notify
  notify-IsUnrestricted n = record { at = λ w h. ground arith }

  finish-IsUnrestricted :
      (s : LimitPeriodState) (e : LimitEvaluation) (r : EvaluationResult)
      → Keeps IsUnrestricted (finish s e r)
  unfolding finish put_state ◌>>=◌
  finish-IsUnrestricted s e r = record { at = λ w h. h }

  -- What follows where the client is looked for and there is none.
  offline-IsUnrestricted :
      (client : Option (Remote T))
      → is_some client ≡ false
      → (m : Exec (World T) Verdict) → (k : Remote T → Exec (World T) Verdict)
      → Keeps IsUnrestricted m
      → Keeps IsUnrestricted (elim client [ none ↦ m | some api ↦ k api ])
  offline-IsUnrestricted none offline m k h = h
  offline-IsUnrestricted (some api) offline m k h = cc (offline)

module _ {T : Type 0} (py : Printing) (client : Option (Remote T)) (limit : CreditLimit)
    (window : PeriodWindow) (actor : AuditActor) (before : World T) where
  mark_breached-IsUnrestricted :
      (b : Option DateTime) (s : LimitPeriodState) (x : Bool) (t : DateTime) (r : EvaluationResult)
      → Keeps (IsUnrestricted before) (mark_breached py client limit window actor b s x t r)
  unfolding mark_breached notify_breach
  mark_breached-IsUnrestricted (some b) s x t r = Keeps-pure _
  mark_breached-IsUnrestricted none s x t r =
      Keeps-bind (Keeps-bind (notify-IsUnrestricted before _) λ _. Keeps-pure tt) λ _. Keeps-pure _

  enforce_breach-IsUnrestricted :
      (s : LimitPeriodState) (e : LimitEvaluation) (x : Bool) (t : DateTime) (r : EvaluationResult)
      → (x ≡ true) ⊎ (limit.enforce ≡ false) ⊎ (is_some client ≡ false)
      → Keeps (IsUnrestricted before) (enforce_breach py client limit window actor s e x t r)
  unfolding enforce_breach
  enforce_breach-IsUnrestricted s e x t r (inl exempt) =
      rw exempt (finish-IsUnrestricted before _ _ _)
  enforce_breach-IsUnrestricted s e x t r (inr (inl monitor)) =
      rw monitor
        (Keeps-if x (finish-IsUnrestricted before _ _ _) (finish-IsUnrestricted before _ _ _))
  enforce_breach-IsUnrestricted s e x t r (inr (inr offline)) =
      Keeps-if x (finish-IsUnrestricted before _ _ _) (
        Keeps-if (not limit.enforce) (finish-IsUnrestricted before _ _ _)
          (offline-IsUnrestricted before client offline _ _ (finish-IsUnrestricted before _ _ _)))

  over_budget-IsUnrestricted :
      (s : LimitPeriodState) (x : Bool) (t : DateTime) (r : EvaluationResult)
      → (x ≡ true) ⊎ (limit.enforce ≡ false) ⊎ (is_some client ≡ false)
      → Keeps (IsUnrestricted before) (over_budget py client limit window actor s x t r)
  unfolding over_budget
  over_budget-IsUnrestricted s x t r h =
      Keeps-bind (mark_breached-IsUnrestricted s.breached_at s x t r)
        λ (s', newly, r'). enforce_breach-IsUnrestricted s' _ x t r' h

  -- Once the stale periods are closed and the state is refreshed, the rest of the evaluation changes
  -- neither the tenant nor any enforcement action where the usage is unavailable, the window is
  -- closed, or the limit is reached while the entity is exempt, the limit is monitor only or there is
  -- no client.
  pub evaluate_state-IsUnrestricted :
      (s : LimitPeriodState) (available : Bool) (t : DateTime) (r : EvaluationResult)
      → HasNoCause client limit window s available before
      → IsUnrestricted before (evaluate_state py client limit window actor s available t r before).1
  unfolding evaluate_state gets ◌>>=◌
  evaluate_state-IsUnrestricted s available t r (inl unknown) =
      rw unknown ((finish-IsUnrestricted before _ _ _).at before (refl, refl))
  evaluate_state-IsUnrestricted s true t r (inr (inl closed)) =
      rw closed ((finish-IsUnrestricted before _ _ _).at before (refl, refl))
  evaluate_state-IsUnrestricted s false t r (inr (inl closed)) =
      (finish-IsUnrestricted before _ _ _).at before (refl, refl)
  evaluate_state-IsUnrestricted s available t r (inr (inr (reached, why))) =
      elim (Bool-cases available) [
        | inr unknown ↦ rw unknown ((finish-IsUnrestricted before _ _ _).at before (refl, refl))
        | inl known ↦ elim (Bool-cases window.is_active) [
          | inr closed ↦
              rw (known, closed) ((finish-IsUnrestricted before _ _ _).at before (refl, refl))
          | inl open_now ↦
              simp (known, open_now, reached)
                ((over_budget-IsUnrestricted s _ t r why).at before (refl, refl))
        ]
      ]
