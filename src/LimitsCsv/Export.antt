-- ===== src/LimitsCsv/Export.antt =====
-- limits_csv.py, `export_limits`. How Python writes integers, decimals and dates, `csv.writer`, and the
-- database's order of the rows are the interface `Writer`.
use v_cx_credit_guard.Prelude.{
  ℕ, ℤ, String, Bool, true, false, Option, none, some, List, [], ◌∷◌, ◌++◌, map, or_else,
}
use v_cx_credit_guard.Exec.{ok, err}
use v_cx_credit_guard.Model.Calendar.{DateTime}
use v_cx_credit_guard.Model.Enums.{
  LimitStatus, PeriodType, monthly, quarterly, custom, lifetime, entity_text,
}
use v_cx_credit_guard.Model.Limits.{CreditLimit}
use v_cx_credit_guard.Model.Database.{Db}
use v_cx_credit_guard.Periods.{current_window}
use v_cx_credit_guard.Evaluation.State.{current_state}
use v_cx_credit_guard.LimitsCsv.{neutralise}

pub record Writer : Type 0 where
  pub int_text : ℤ → String
  pub amount : ℕ → String
  pub isoformat : DateTime → String
  pub file : List (List String) → String
  -- `order_by(CreditLimit.entity_type, CreditLimit.entity_label)`
  pub ordered : List CreditLimit → List CreditLimit

abbrev pub columns : List String
columns =
    "entity_type" ∷ "entity_id" ∷ "entity_label" ∷ "credit_limit" ∷ "period_type"
    ∷ "warning_threshold_pct" ∷ "enforce" ∷ "is_active" ∷ "include_member_usage"
    ∷ "hold_until_released" ∷ "count_existing_usage" ∷ "custom_period_start" ∷ "custom_period_end"
    ∷ "notes" ∷ []

abbrev pub export_only_columns : List String
export_only_columns = "credits_used" ∷ "period_key" ∷ "status" ∷ []

unfoldable pub period_text : PeriodType → String
period_text monthly = "monthly"
period_text quarterly = "quarterly"
period_text custom = "custom"
period_text lifetime = "lifetime"

unfoldable pub status_text : LimitStatus → String
status_text LimitStatus.ok = "ok"
status_text LimitStatus.warned = "warned"
status_text LimitStatus.breached = "breached"
status_text LimitStatus.restricted = "restricted"
status_text LimitStatus.restored = "restored"

-- `str(flag).lower()`
unfoldable pub flag_text : Bool → String
flag_text true = "true"
flag_text false = "false"

module _ (writer : Writer) where
  unfoldable pub date_text : Option DateTime → String
  date_text none = ""
  date_text (some t) = writer.isoformat t

  -- The cells on the current period, before the guard.
  unfoldable pub usage_cells : Db → DateTime → CreditLimit → List String
  unfolding current_window current_state status_text
  usage_cells db now limit = elim (current_window limit now) [
    | err e ↦ "" ∷ "" ∷ "" ∷ []
    | ok window ↦ elim (current_state db limit.id window.key) [
      | none ↦ "" ∷ window.key ∷ "" ∷ []
      | some state ↦ writer.amount state.credits_used ∷ window.key ∷ status_text state.status ∷ []
    ]
  ]

  -- The cells of the limit itself; the guard leaves the two numbers alone.
  unfoldable pub limit_cells : CreditLimit → List String
  unfolding neutralise entity_text period_text flag_text date_text
  limit_cells limit =
      neutralise (entity_text limit.entity_type)
      ∷ neutralise limit.entity_id
      ∷ neutralise (or_else limit.entity_label "")
      ∷ writer.int_text limit.credit_limit
      ∷ neutralise (period_text limit.period_type)
      ∷ writer.int_text limit.warning_threshold_pct
      ∷ neutralise (flag_text limit.enforce)
      ∷ neutralise (flag_text limit.is_active)
      ∷ neutralise (flag_text limit.include_member_usage)
      ∷ neutralise (flag_text limit.hold_until_released)
      ∷ neutralise (flag_text limit.count_existing_usage)
      ∷ neutralise (date_text limit.custom_period_start)
      ∷ neutralise (date_text limit.custom_period_end)
      ∷ neutralise (or_else limit.notes "")
      ∷ []

  unfoldable pub export_limits : Db → DateTime → String
  unfolding limit_cells usage_cells
  export_limits db now = writer.file (
      (columns ++ export_only_columns)
      ∷ map (λ limit. limit_cells limit ++ map neutralise (usage_cells db now limit))
          (writer.ordered db.limits))
