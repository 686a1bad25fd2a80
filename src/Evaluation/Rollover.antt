-- ===== src/Evaluation/Rollover.antt =====
-- evaluation.py, `_close_stale_periods`: at a rollover, what a state of an expired period becomes.
use v_cx_credit_guard.Prelude.{
  ℕ, ◌+◌, String, Bool, true, false, Option, none, some, List, [], ◌∷◌, ◌++◌, concat, str, str_eq,
  ◌==◌, select, is_some, if◌then◌else◌,
}
use v_cx_credit_guard.Exec.{Exec, Result, ok, err, message, pure, gets, modify, ◌>>=◌, ◌>>◌}
use v_cx_credit_guard.Model.Enums.{
  LimitStatus, warned, breached, restricted, restored, is_restricted,
}
use v_cx_credit_guard.Model.Limits.{CreditLimit, LimitPeriodState}
use v_cx_credit_guard.Model.Log.{AuditActor}
use v_cx_credit_guard.Model.Database.{World}
use v_cx_credit_guard.Checkmarx.{Remote}
use v_cx_credit_guard.Enforcement.Restore.{restore_for_limit}
use v_cx_credit_guard.Evaluation.Result.{EvaluationResult}
use v_cx_credit_guard.Evaluation.State.{put_state}

-- `status in (RESTRICTED, BREACHED, WARNED)`
abbrev pub is_marked : LimitStatus → Bool
is_marked restricted = true
is_marked breached = true
is_marked warned = true
is_marked _ = false

abbrev pub is_stale : ℕ → String → LimitPeriodState → Bool
is_stale limit_id key s =
    if s.limit_id == limit_id
    then (if str_eq s.period_key key then false else is_marked s.status)
    else false

-- `RESTORED if state.restricted_at else OK`
abbrev pub closed : LimitPeriodState → LimitPeriodState
closed s = record s { status = if is_some s.restricted_at then restored else LimitStatus.ok }

module _ {T : Type 0} (client : Option (Remote T)) (limit : CreditLimit) (actor : AuditActor) where
  -- How the `try` around the restoration goes on, in the state that it left.
  unfoldable pub after_rollover :
      LimitPeriodState → EvaluationResult → Result ℕ → Exec (World T) EvaluationResult
  after_rollover s result (ok count) = do
    now ← gets (λ w. w.now)
    modify (put_state (closed (record s { restored_at = some now })))
    pure (record result { restored = result.restored + count })
  after_rollover s result (err e) = pure (record result {
    errors =
        result.errors
        ++ concat
            ("limit " ∷ str limit.id ∷ ": could not restore after rollover: " ∷ message e ∷ [])
          ∷ [];
  })

  -- The `try` of a restricted state: its restrictions of that period are lifted.
  unfoldable pub restore_stale :
      Remote T → LimitPeriodState → EvaluationResult → Exec (World T) EvaluationResult
  restore_stale api s result w =
      let (r, w') = restore_for_limit api actor "period_rollover" limit.id (some s.period_key) w in
      after_rollover s result r w'

  -- The end of the loop's body.
  unfoldable pub close_state : LimitPeriodState → EvaluationResult → Exec (World T) EvaluationResult
  close_state s result = do modify (put_state (closed s)); pure result

  unfoldable pub close_one : LimitPeriodState → EvaluationResult → Exec (World T) EvaluationResult
  close_one s result =
      if is_restricted s.status
      then (if limit.hold_until_released
          then pure result
          else elim client [ some api ↦ restore_stale api s result | none ↦ close_state s result ])
      else close_state s result

  unfoldable pub close_each :
      List LimitPeriodState → EvaluationResult → Exec (World T) EvaluationResult
  close_each [] result = pure result
  close_each (s ∷ states) result = close_one s result >>= close_each states

  unfoldable pub close_stale_periods : String → EvaluationResult → Exec (World T) EvaluationResult
  close_stale_periods current_key result = do
    stale ← gets (λ w. select (is_stale limit.id current_key) w.states)
    close_each stale result
