-- ===== src/LimitsCsv.antt =====
-- backend/app/services/limits_csv.py: the import of limits, and the guard of exported texts. The csv
-- module's reader, `int`, `datetime.fromisoformat` (with UTC for a text without an offset) and `repr`
-- are the interface `Csv`; the reader's surplus cells of a row are one text.
pub mod Guard
pub mod Apply
pub mod Unchanged
pub mod Export
pub mod Reread
use Prim.Native.Char.{Char, code}
use Prim.Native.String
use v_cx_credit_guard.Prelude.{
  ℕ, suc, ◌+◌, ℤ, pos, leb_ℤ, ltb_ℤ, String, Bool, true, false, not, ◌&&◌, ◌||◌, Option, none, some,
  List, [], ◌∷◌, ◌++◌, map, concat, join, str, strip, str_eq, ltb, ◌==◌, is_some, or_else,
  if◌then◌else◌,
}
use v_cx_credit_guard.Exec.{Exec, Result, value_error, pure, raise, ◌>>=◌, ◌>>◌}
use v_cx_credit_guard.Model.Calendar.{DateTime, earlier}
use v_cx_credit_guard.Model.Enums.{
  EntityType, PeriodType, monthly, quarterly, custom, lifetime, same_entity,
}
use v_cx_credit_guard.Checkmarx.{is_in, truthy}
use v_cx_credit_guard.Consumption.{Dict, lookup}
use v_cx_credit_guard.LimitsService.Input.{LimitInput, is_custom}

pub record Csv : Type 0 where
  -- `csv.DictReader`: the header, and the cells of each row by column. A `csv.Error` has its text: of
  -- the header, or after the rows that could be read.
  pub fieldnames : String → Result (Option (List String))
  pub rows : String → List (List (Option String × Option String)) × Option String
  pub parse_int : String → Option ℤ
  -- `str(exc)` of `int(text)` where it raises
  pub int_error : String → String
  pub fromisoformat : String → Option DateTime
  pub repr : String → String
  pub lower : String → String

abbrev pub max_rows : ℕ
max_rows = 5000

abbrev pub true_texts : List String
true_texts = "true" ∷ "1" ∷ "yes" ∷ "y" ∷ "on" ∷ []

abbrev pub false_texts : List String
false_texts = "false" ∷ "0" ∷ "no" ∷ "n" ∷ "off" ∷ "" ∷ []

-- _FORMULA_PREFIXES
unfoldable pub is_formula_prefix : Char → Bool
is_formula_prefix c =
    (code c == 61)
    || (code c == 43)
    || (code c == 45)
    || (code c == 64)
    || (code c == 9)
    || (code c == 13)

-- `value.startswith(_FORMULA_PREFIXES)`
unfoldable pub is_formula : String → Bool
unfolding is_formula_prefix
is_formula String.[] = false
is_formula (String.◌∷◌ c s) = is_formula_prefix c

-- `_neutralise` of a text
unfoldable pub neutralise : String → String
unfolding is_formula
neutralise s = if is_formula s then String.◌∷◌ "'" s else s

-- An apostrophe before a formula.
abbrev pub is_guarded : String → Bool
is_guarded String.[] = false
is_guarded (String.◌∷◌ c s) = (code c == 39) && is_formula s

abbrev after_first : String → String
after_first String.[] = ""
after_first (String.◌∷◌ c s) = s

-- `_unneutralise`
unfoldable pub unneutralise : String → String
unfolding is_formula
unneutralise s = if is_guarded s then after_first s else s

unfoldable pub entity_of : String → Option EntityType
entity_of s =
    if str_eq s "user"
    then some EntityType.user
    else if str_eq s "group"
    then some EntityType.group
    else if str_eq s "project"
    then some EntityType.project
    else if str_eq s "application"
    then some EntityType.application
    else none

unfoldable pub period_of : String → Option PeriodType
period_of s =
    if str_eq s "monthly"
    then some monthly
    else if str_eq s "quarterly"
    then some quarterly
    else if str_eq s "custom"
    then some custom
    else if str_eq s "lifetime"
    then some lifetime
    else none

-- `text.replace("Z", "+00:00")`
unfoldable pub with_offset : String → String
unfolding concat
with_offset String.[] = ""
with_offset (String.◌∷◌ c s) =
    let rest = with_offset s in
    if code c == 90 then concat ("+00:00" ∷ rest ∷ []) else String.◌∷◌ c rest

-- `row.get(key)` where a missing column and an empty cell are alike.
abbrev pub cell : String → Dict → String
cell key row = or_else (lookup key row) ""

-- `end <= start` for dates that are both present.
abbrev pub ends_early : Option DateTime → Option DateTime → Bool
ends_early none end = false
ends_early (some start) none = false
ends_early (some start) (some end) = not (earlier start end)

module _ {S : Type 0} (csv : Csv) where
  abbrev refuse : {A : Type 0} → List String → Exec S A
  refuse parts = raise (value_error (concat parts))

  -- `_parse_bool` with the default False: an empty cell is False as well.
  unfoldable pub parse_bool : Option String → Exec S Bool
  unfolding strip concat
  parse_bool none = pure false
  parse_bool (some value) =
      let text = csv.lower (strip value) in
      if is_in text true_texts
      then pure true
      else if is_in text false_texts
      then pure false
      else refuse (csv.repr value ∷ " is not a true or false value" ∷ [])

  unfoldable pub parse_int : Option String → String → Exec S ℤ
  unfolding strip concat
  parse_int none name = refuse (name ∷ " is required" ∷ [])
  parse_int (some value) name =
      if str_eq (strip value) ""
      then refuse (name ∷ " is required" ∷ [])
      else elim (csv.parse_int (strip value)) [
        | some n ↦ pure n
        | none ↦ refuse (name ∷ " must be a whole number, got " ∷ csv.repr value ∷ [])
      ]

  unfoldable pub parse_datetime : Option String → String → Exec S (Option DateTime)
  unfolding strip concat with_offset
  parse_datetime none name = pure none
  parse_datetime (some value) name =
      if str_eq (strip value) ""
      then pure none
      else elim (csv.fromisoformat (with_offset (strip value))) [
        | some t ↦ pure (some t)
        | none ↦ refuse (name ∷ " must be an ISO 8601 date, got " ∷ csv.repr value ∷ [])
      ]

  unfoldable pub parse_threshold : String → Exec S ℤ
  parse_threshold text = if str_eq text "" then pure (pos 80) else elim (csv.parse_int text) [
    | some n ↦ pure n
    | none ↦ raise (value_error (csv.int_error text))
  ]

  abbrev require : Bool → List String → Exec S Unit
  require condition parts = if condition then pure tt else refuse parts

  unfoldable pub find_entity : Dict → Exec S EntityType
  unfolding strip entity_of lookup concat
  find_entity row =
      let raw = csv.lower (strip (cell "entity_type" row)) in
      elim (entity_of raw) [
        | some t ↦ pure t
        | none ↦ refuse (
            "entity_type must be one of user, group, project, application, got "
            ∷ csv.repr raw
            ∷ [])
      ]

  unfoldable pub find_period : Dict → Exec S PeriodType
  unfolding strip period_of lookup concat
  find_period row =
      let raw = csv.lower (strip (or_else (truthy (lookup "period_type" row)) "monthly")) in
      elim (period_of raw) [
        | some t ↦ pure t
        | none ↦ refuse (
            "period_type must be one of monthly, quarterly, custom, lifetime, got "
            ∷ csv.repr raw
            ∷ [])
      ]

  -- `_row_to_input`, its checks in their order
  unfoldable pub row_to_input : Dict → Exec S LimitInput
  unfolding find_entity find_period parse_int parse_bool parse_datetime parse_threshold unneutralise
      strip lookup concat earlier
  row_to_input row = do
    entity_type ← find_entity row
    let entity_id = unneutralise (strip (cell "entity_id" row))
    require (not (str_eq entity_id "")) ("entity_id is required" ∷ [])
    credit_limit ← parse_int (lookup "credit_limit" row) "credit_limit"
    require (not (ltb_ℤ credit_limit (pos 0))) ("credit_limit cannot be negative" ∷ [])
    period_type ← find_period row
    threshold ← parse_threshold (strip (cell "warning_threshold_pct" row))
    require (leb_ℤ (pos 1) threshold && leb_ℤ threshold (pos 100))
        ("warning_threshold_pct must be between 1 and 100" ∷ [])
    members ← parse_bool (lookup "include_member_usage" row)
    require (not members || same_entity entity_type EntityType.group)
        ("include_member_usage is only valid for group limits" ∷ [])
    start ← parse_datetime (lookup "custom_period_start" row) "custom_period_start"
    end ← parse_datetime (lookup "custom_period_end" row) "custom_period_end"
    require (not (is_custom period_type) || is_some start)
        ("custom_period_start is required when period_type is custom" ∷ [])
    require (not (ends_early start end))
        ("custom_period_end must be after custom_period_start" ∷ [])
    enforce ← parse_bool (lookup "enforce" row)
    hold ← parse_bool (lookup "hold_until_released" row)
    count ← parse_bool (lookup "count_existing_usage" row)
    pure (record {
      entity_type = entity_type;
      entity_id = entity_id;
      credit_limit = credit_limit;
      period_type = period_type;
      warning_threshold_pct = threshold;
      enforce = enforce;
      include_member_usage = members;
      hold_until_released = hold;
      count_existing_usage = count;
      custom_period_start = start;
      custom_period_end = end;
      notes = truthy (some (unneutralise (strip (cell "notes" row))));
    })
