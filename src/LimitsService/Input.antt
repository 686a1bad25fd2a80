-- ===== src/LimitsService/Input.antt =====
-- limits_service.py: the input of a limit, its validation, and the changes of an update.
use v_cx_credit_guard.Prelude.{
  ℤ, pos, String, Bool, true, false, not, ◌&&◌, Option, none, some, [], ◌∷◌, concat, leb_ℤ, ltb_ℤ,
  if◌then◌else◌,
}
use v_cx_credit_guard.Exec.{limit_error, Result, ok, err}
use v_cx_credit_guard.Model.Calendar.{DateTime, earlier}
use v_cx_credit_guard.Model.Enums.{EntityType, PeriodType, custom, same_entity}
use v_cx_credit_guard.Model.Limits.{CreditLimit}

pub record LimitInput : Type 0 where
  pub entity_type : EntityType
  pub entity_id : String
  pub credit_limit : ℤ
  pub period_type : PeriodType
  pub warning_threshold_pct : ℤ
  pub enforce : Bool
  pub include_member_usage : Bool
  pub hold_until_released : Bool
  pub count_existing_usage : Bool
  pub custom_period_start : Option DateTime
  pub custom_period_end : Option DateTime
  pub notes : Option String

abbrev pub is_custom : PeriodType → Bool
is_custom custom = true
is_custom _ = false

-- The part of `_validate` for a custom period.
unfoldable pub validate_range : Option DateTime → Option DateTime → Result Unit
unfolding earlier
validate_range none end = err (limit_error "A custom period needs a start date.")
validate_range (some start) none = ok tt
validate_range (some start) (some end) =
    if earlier start end
    then ok tt
    else err (limit_error "The custom period's end date must be after its start date.")

unfoldable pub validate_members : LimitInput → Result Unit
validate_members d =
    if d.include_member_usage
    then (if same_entity d.entity_type EntityType.group
        then ok tt
        else err (limit_error "Member usage can only be counted for group limits."))
    else ok tt

-- `_validate`. That an entity is not synced yet is only logged.
unfoldable pub validate : LimitInput → Result Unit
unfolding validate_range validate_members
validate d =
    if ltb_ℤ d.credit_limit (pos 0)
    then err (limit_error "A credit limit cannot be negative.")
    else if not (leb_ℤ (pos 1) d.warning_threshold_pct && leb_ℤ d.warning_threshold_pct (pos 100))
    then err (limit_error "The warning threshold must be between 1 and 100 percent.")
    else if is_custom d.period_type
    then elim (validate_range d.custom_period_start d.custom_period_end) [
      | ok _ ↦ validate_members d
      | err e ↦ err e
    ]
    else validate_members d

-- One entry of the `changes` dictionary: a field of AUDITED_FIELDS with its value, or another name.
pub data Change : Type 0 where
  credit_limit warning_threshold_pct : ℤ → Change
  period_type : PeriodType → Change
  custom_period_start custom_period_end : Option DateTime → Change
  enforce is_active include_member_usage hold_until_released count_existing_usage : Bool → Change
  notes : Option String → Change
  other : String → Change

-- `setattr(limit, field, value)`
unfoldable pub set_field : Change → CreditLimit → Result CreditLimit
unfolding concat
set_field (credit_limit v) l = ok (record l { credit_limit = v })
set_field (warning_threshold_pct v) l = ok (record l { warning_threshold_pct = v })
set_field (period_type v) l = ok (record l { period_type = v })
set_field (custom_period_start v) l = ok (record l { custom_period_start = v })
set_field (custom_period_end v) l = ok (record l { custom_period_end = v })
set_field (enforce v) l = ok (record l { enforce = v })
set_field (is_active v) l = ok (record l { is_active = v })
set_field (include_member_usage v) l = ok (record l { include_member_usage = v })
set_field (hold_until_released v) l = ok (record l { hold_until_released = v })
set_field (count_existing_usage v) l = ok (record l { count_existing_usage = v })
set_field (notes v) l = ok (record l { notes = v })
set_field (other name) l = err (limit_error (concat (name ∷ " cannot be changed." ∷ [])))

-- The input that `update_limit` validates: the row as changed, without its hold flag and its notes.
unfoldable pub input_of : CreditLimit → LimitInput
input_of l = record {
  entity_type = l.entity_type;
  entity_id = l.entity_id;
  credit_limit = l.credit_limit;
  period_type = l.period_type;
  warning_threshold_pct = l.warning_threshold_pct;
  enforce = l.enforce;
  include_member_usage = l.include_member_usage;
  hold_until_released = false;
  count_existing_usage = l.count_existing_usage;
  custom_period_start = l.custom_period_start;
  custom_period_end = l.custom_period_end;
  notes = none;
}
