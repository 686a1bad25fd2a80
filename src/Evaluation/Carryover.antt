-- ===== src/Evaluation/Carryover.antt =====
-- evaluation.py: what the rollover of a period leaves in place.
use v_cx_credit_guard.Prelude.{
  ◌≡◌, ◌⊎◌, inl, inr, refl, ap, ◌∙◌, true, false, Option, none, some, [], is_some,
}
use v_cx_credit_guard.Exec.{ok, ◌>>=◌}
use v_cx_credit_guard.Exec.Contracts.{Post, bind_ok, Keeps, Keeps-pure, Keeps-if}
use v_cx_credit_guard.Model.Calendar.{DateTime}
use v_cx_credit_guard.Model.Enums.{breached, is_restricted}
use v_cx_credit_guard.Model.Limits.{CreditLimit, LimitPeriodState}
use v_cx_credit_guard.Model.Log.{AuditActor}
use v_cx_credit_guard.Model.Database.{World}
use v_cx_credit_guard.Periods.{PeriodWindow}
use v_cx_credit_guard.Checkmarx.{Remote}
use v_cx_credit_guard.Enforcement.Apply.{EnforcementOutcome, apply_enforcement}
use v_cx_credit_guard.Evaluation.Result.{EvaluationResult}
use v_cx_credit_guard.Evaluation.State.{put_state}
use v_cx_credit_guard.Evaluation.Messages.{Printing}
use v_cx_credit_guard.Evaluation.Rollover.{close_one, close_state}
use v_cx_credit_guard.Evaluation.Evaluate.{over_budget, mark_breached, enforce_breach, finish}
use v_cx_credit_guard.Evaluation.Usage.{IsUnrestricted}

module _ {T : Type 0} (limit : CreditLimit) (actor : AuditActor) (before : World T) where
  close_state-IsUnrestricted :
      (client : Option (Remote T)) (s : LimitPeriodState) (r : EvaluationResult)
      → Keeps (IsUnrestricted before) (close_state client limit actor s r)
  unfolding close_state put_state ◌>>=◌
  close_state-IsUnrestricted client s r = record { at = λ w h. h }

  -- At a rollover only the restrictions of a state that says `restricted` are lifted: where it says
  -- anything else, or the limit is held until released, or there is no client, neither the tenant
  -- nor any enforcement action changes.
  pub close_one-IsUnrestricted :
      (client : Option (Remote T)) (s : LimitPeriodState) (r : EvaluationResult)
      → (is_restricted s.status ≡ false)
        ⊎ (limit.hold_until_released ≡ true)
        ⊎ (is_some client ≡ false)
      → IsUnrestricted before (close_one client limit actor s r before).1
  unfolding close_one close_state
  close_one-IsUnrestricted client s r (inl other) =
      rw other ((close_state-IsUnrestricted client s r).at before (refl, refl))
  close_one-IsUnrestricted client s r (inr (inl held)) = rw held (
      (Keeps-if (is_restricted s.status) (Keeps-pure r) (close_state-IsUnrestricted client s r)).at
        before (refl, refl))
  close_one-IsUnrestricted none s r (inr (inr offline)) =
      (Keeps-if (is_restricted s.status)
          (Keeps-if limit.hold_until_released (Keeps-pure r) (close_state-IsUnrestricted none s r))
          (close_state-IsUnrestricted none s r)).at
        before (refl, refl)
  close_one-IsUnrestricted (some api) s r (inr (inr offline)) = cc (offline)

module _ {T : Type 0} (py : Printing) (api : Remote T) (limit : CreditLimit) (window : PeriodWindow)
    (actor : AuditActor) where
  -- Where an enforced limit of an entity that is not exempt was breached before in the period, is
  -- reached again, and its enforcement returns without having restricted anything new, the
  -- state goes back to `breached`, even if the period's restrictions are all still in place; when
  -- it is closed, neither the tenant nor any enforcement action changes, so that what this period
  -- restricted stays restricted.
  pub over_budget-carries :
      (s : LimitPeriodState) (t moment : DateTime) (r r' : EvaluationResult)
      (o : EnforcementOutcome) (w w' : World T)
      → s.breached_at ≡ some t
      → limit.enforce ≡ true
      → apply_enforcement api limit window.key actor w ≡ (ok o, w')
      → o.applied ≡ []
      → Post
          (λ v w''.
            (v.0.state.status ≡ breached)
            × (v.0.state.restricted_at ≡ s.restricted_at)
            × IsUnrestricted w' (close_one (some api) limit actor v.0.state r' w'').1)
          (λ _. ⊥)
          (over_budget py (some api) limit window actor s false moment r w)
  unfolding over_budget mark_breached enforce_breach finish put_state ◌>>=◌
  over_budget-carries s t moment r r' o w w' b e a n =
      let returned = a ∙ ap (λ x. (ok (record o { applied = x }), w')) n in
      simp (b, e, bind_ok (apply_enforcement api limit window.key actor) w returned)
        (refl, refl, close_one-IsUnrestricted limit actor _ (some api) _ r' (inl refl))
