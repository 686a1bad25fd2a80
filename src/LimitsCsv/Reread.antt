-- ===== src/LimitsCsv/Reread.antt =====
-- limits_csv.py: a row of the export, read by the import.
use v_cx_credit_guard.Prelude.{
  ◌≡◌, refl, ℤ, pos, ltb_ℤ, leb_ℤ, String, Bool, true, false, not, ◌&&◌, ◌||◌, Option, none, some,
  List, [], ◌∷◌, strip, str_eq, is_some, or_else,
}
use v_cx_credit_guard.Exec.{ok, pure}
use v_cx_credit_guard.Exec.Contracts.{then_returns}
use v_cx_credit_guard.Model.Calendar.{DateTime}
use v_cx_credit_guard.Model.Enums.{
  EntityType, PeriodType, monthly, quarterly, custom, lifetime, same_entity, entity_text,
}
use v_cx_credit_guard.Model.Limits.{CreditLimit}
use v_cx_credit_guard.Checkmarx.{truthy}
use v_cx_credit_guard.Consumption.{Dict, lookup}
use v_cx_credit_guard.LimitsService.Input.{is_custom, input_of}
use v_cx_credit_guard.LimitsCsv.{
  Csv, is_formula, neutralise, unneutralise, is_guarded, entity_of, period_of, with_offset,
  ends_early, parse_bool, parse_int, parse_datetime, parse_threshold, find_entity, find_period,
  row_to_input,
}
use v_cx_credit_guard.LimitsCsv.Guard.{unneutralise-neutralise_iff}
use v_cx_credit_guard.LimitsCsv.Export.{
  Writer, columns, period_text, flag_text, date_text, limit_cells,
}

-- The cells under the header's names.
abbrev pub zip_cells : List String → List String → Dict
zip_cells [] cells = []
zip_cells (c ∷ names) [] = []
zip_cells (c ∷ names) (x ∷ cells) = (c, x) ∷ zip_cells names cells

-- A text that stands in a cell as it is: it is not empty, and has no space at its ends.
abbrev pub IsCell : String → Type 0
IsCell s = (strip s ≡ s) × (str_eq s "" ≡ false)

-- Words in small letters stay as they are.
abbrev pub KeepsWords : Csv → Type 0
KeepsWords csv =
    ((t : EntityType) → csv.lower (entity_text t) ≡ entity_text t)
    × ((p : PeriodType) → csv.lower (period_text p) ≡ period_text p)
    × ((b : Bool) → csv.lower (flag_text b) ≡ flag_text b)

-- What the writer writes for an integer, and for a date, the parser reads.
abbrev pub ReadsInt : Csv → Writer → ℤ → Type 0
ReadsInt csv writer n = IsCell (writer.int_text n) × (csv.parse_int (writer.int_text n) ≡ some n)

abbrev pub ReadsDate : Csv → Writer → Option DateTime → Type 0
ReadsDate csv writer none = Unit
ReadsDate csv writer (some t) =
    IsCell (writer.isoformat t)
    × (is_formula (writer.isoformat t) ≡ false)
    × (csv.fromisoformat (with_offset (writer.isoformat t)) ≡ some t)

pub record ReadsBack (csv : Csv) (writer : Writer) (limit : CreditLimit) : Type 0 where
  pub words : KeepsWords csv
  pub credit : ReadsInt csv writer limit.credit_limit
  pub threshold : ReadsInt csv writer limit.warning_threshold_pct
  pub start : ReadsDate csv writer limit.custom_period_start
  pub end : ReadsDate csv writer limit.custom_period_end

abbrev pub exported : Writer → CreditLimit → Dict
exported writer limit = zip_cells columns (limit_cells writer limit)

-- A text that the cell, its guard and the reader leave as it is.
abbrev IsKept : String → Type 0
IsKept s = (strip (neutralise s) ≡ neutralise s) × (is_guarded s ≡ false)

-- The values pass the checks of a row, and the texts keep through a cell.
pub record IsExportable (limit : CreditLimit) : Type 0 where
  pub id_kept : IsKept limit.entity_id
  pub id_filled : str_eq limit.entity_id "" ≡ false
  pub notes_kept : IsKept (or_else limit.notes "")
  pub notes_filled : truthy limit.notes ≡ limit.notes
  pub credit_ok : ltb_ℤ limit.credit_limit (pos 0) ≡ false
  pub threshold_ok :
      (leb_ℤ (pos 1) limit.warning_threshold_pct && leb_ℤ limit.warning_threshold_pct (pos 100))
      ≡ true
  pub members_ok :
      (not limit.include_member_usage || same_entity limit.entity_type EntityType.group) ≡ true
  pub start_ok : (not (is_custom limit.period_type) || is_some limit.custom_period_start) ≡ true
  pub dates_ok : ends_early limit.custom_period_start limit.custom_period_end ≡ false

unneutralise-strip : (s : String) → IsKept s → unneutralise (strip (neutralise s)) ≡ s
unneutralise-strip s (stripped, plain_text) =
    rw stripped ((unneutralise-neutralise_iff s).1 plain_text)

notes_kept :
    (limit : CreditLimit)
    → IsExportable limit
    → truthy (some (unneutralise (strip (neutralise (or_else limit.notes ""))))) ≡ limit.notes
notes_kept limit fits =
    rw (unneutralise-strip (or_else limit.notes "") fits.notes_kept)
      (filled limit.notes fits.notes_filled)
  where
    filled : (n : Option String) → truthy n ≡ n → truthy (some (or_else n "")) ≡ n
    filled none _ = refl
    filled (some n) e = e

module _ (csv : Csv) (words : KeepsWords csv) where
  entity_of-entity_text :
      (t : EntityType) → entity_of (csv.lower (strip (neutralise (entity_text t)))) ≡ some t
  unfolding neutralise entity_text strip is_formula entity_of
  entity_of-entity_text EntityType.user = rw (words.0 EntityType.user) refl
  entity_of-entity_text EntityType.group = rw (words.0 EntityType.group) refl
  entity_of-entity_text EntityType.project = rw (words.0 EntityType.project) refl
  entity_of-entity_text EntityType.application = rw (words.0 EntityType.application) refl

  period_of-period_text :
      (p : PeriodType)
      → period_of
          (csv.lower (strip (or_else (truthy (some (neutralise (period_text p)))) "monthly")))
        ≡ some p
  unfolding neutralise period_text strip is_formula period_of
  period_of-period_text monthly = rw (words.1 monthly) refl
  period_of-period_text quarterly = rw (words.1 quarterly) refl
  period_of-period_text custom = rw (words.1 custom) refl
  period_of-period_text lifetime = rw (words.1 lifetime) refl

module _ {S : Type 0} (csv : Csv) (words : KeepsWords csv) (writer : Writer) where
  parse_bool-flag_text :
      (b : Bool) (s : S) → parse_bool csv (some (neutralise (flag_text b))) s ≡ (ok b, s)
  unfolding parse_bool flag_text neutralise strip is_formula pure
  parse_bool-flag_text true s = rw (words.2 true) refl
  parse_bool-flag_text false s = rw (words.2 false) refl

  parse_int-int_text :
      (n : ℤ) (name : String) (s : S)
      → ReadsInt csv writer n
      → parse_int csv (some (writer.int_text n)) name s ≡ (ok n, s)
  unfolding parse_int pure
  parse_int-int_text n name s (cell, read) = rw (cell.0, cell.1, read) refl

  parse_threshold-int_text :
      (n : ℤ) (s : S)
      → ReadsInt csv writer n
      → parse_threshold csv (strip (writer.int_text n)) s ≡ (ok n, s)
  unfolding parse_threshold pure
  parse_threshold-int_text n s (cell, read) = rw (cell.0, cell.1, read) refl

  parse_datetime-date_text :
      (t : Option DateTime) (name : String) (s : S)
      → ReadsDate csv writer t
      → parse_datetime csv (some (neutralise (date_text writer t))) name s ≡ (ok t, s)
  unfolding parse_datetime date_text neutralise pure strip is_formula
  parse_datetime-date_text none name s _ = refl
  parse_datetime-date_text (some t) name s (cell, harmless, read) =
      rw (harmless, cell.0, cell.1, read) refl

  find_entity-exported :
      (limit : CreditLimit) (s : S)
      → find_entity csv (exported writer limit) s ≡ (ok limit.entity_type, s)
  unfolding find_entity limit_cells lookup pure
  find_entity-exported limit s =
      rw (entity_of-entity_text csv words limit.entity_type, find_entity) refl

  find_period-exported :
      (limit : CreditLimit) (s : S)
      → find_period csv (exported writer limit) s ≡ (ok limit.period_type, s)
  unfolding find_period limit_cells lookup pure
  find_period-exported limit s =
      rw (period_of-period_text csv words limit.period_type, find_period) refl

-- If the parsers read what the writer wrote for the limit's numbers and dates, the values pass the
-- checks of a row, and id and notes have no space at the ends of their cells and no apostrophe before
-- a formula, then the import reads from the exported row the values of the limit.
pub row_to_input-limit_cells :
    {S : Type 0} (csv : Csv) (writer : Writer) (limit : CreditLimit) (s : S)
    → ReadsBack csv writer limit
    → IsExportable limit
    → row_to_input csv (exported writer limit) s ≡ (
      ok (record (input_of limit) {
        hold_until_released = limit.hold_until_released;
        notes = limit.notes;
      }),
      s,
    )
unfolding row_to_input limit_cells lookup pure input_of
row_to_input-limit_cells csv writer limit s reads fits =
    let flag : (b : Bool) → parse_bool csv (some (neutralise (flag_text b))) s ≡ (ok b, s) =
      λ b. parse_bool-flag_text csv reads.words writer b s in
    then_returns _ _ limit.entity_type s s _ (find_entity-exported csv reads.words writer limit s) (
      then_returns _ _ tt s s _
        (rw (unneutralise-strip limit.entity_id fits.id_kept, fits.id_filled) refl)
        (then_returns _ _ limit.credit_limit s s _
          (parse_int-int_text csv reads.words writer limit.credit_limit "credit_limit" s
            reads.credit)
          (then_returns _ _ tt s s _ (rw fits.credit_ok refl) (
            then_returns _ _ limit.period_type s s _
              (find_period-exported csv reads.words writer limit s)
              (then_returns _ _ limit.warning_threshold_pct s s _
                (parse_threshold-int_text csv reads.words writer limit.warning_threshold_pct s
                  reads.threshold)
                (then_returns _ _ tt s s _ (rw fits.threshold_ok refl) (
                  then_returns _ _ limit.include_member_usage s s _
                    (flag limit.include_member_usage)
                    (then_returns _ _ tt s s _ (rw fits.members_ok refl) (
                      then_returns _ _ limit.custom_period_start s s _
                        (parse_datetime-date_text csv reads.words writer limit.custom_period_start
                          "custom_period_start" s reads.start)
                        (then_returns _ _ limit.custom_period_end s s _
                          (parse_datetime-date_text csv reads.words writer limit.custom_period_end
                            "custom_period_end" s reads.end)
                          (then_returns _ _ tt s s _ (rw fits.start_ok refl) (
                            then_returns _ _ tt s s _ (rw fits.dates_ok refl) (
                              then_returns _ _ limit.enforce s s _ (flag limit.enforce) (
                                then_returns _ _ limit.hold_until_released s s _
                                  (flag limit.hold_until_released)
                                  (then_returns _ _ limit.count_existing_usage s s _
                                    (flag limit.count_existing_usage)
                                    (rw
                                      (
                                        unneutralise-strip limit.entity_id fits.id_kept,
                                        notes_kept limit fits,
                                      )
                                      refl))))))))))))))))
