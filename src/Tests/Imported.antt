-- ===== src/Tests/Imported.antt =====
-- The theorems on the import of limits at small files.
use v_cx_credit_guard.Prelude.{
  ◌≡◌, ◌↔◌, refl, false, none, some, [], ◌∷◌, pos, str_eq, strip, leb_ℤ, if◌then◌else◌,
}
use v_cx_credit_guard.Model.Enums.{custom}
use v_cx_credit_guard.Model.Limits.{CreditLimit}
use v_cx_credit_guard.LimitsService.Input.{input_of}
use v_cx_credit_guard.LimitsCsv.{
  Csv, neutralise, unneutralise, is_guarded, is_formula, with_offset, row_to_input,
}
use v_cx_credit_guard.LimitsCsv.Export.{Writer}
use v_cx_credit_guard.LimitsCsv.Reread.{ReadsBack, IsExportable, exported, row_to_input-limit_cells}
use v_cx_credit_guard.LimitsCsv.Guard.{unneutralise-neutralise_iff}
use v_cx_credit_guard.Exec.{ok, ◌>>=◌}
use v_cx_credit_guard.LimitsCsv.Apply.{rejected, import_limits}
use v_cx_credit_guard.LimitsCsv.Unchanged.{Previews, import_limits-Previews}
use v_cx_credit_guard.Tests.Fixtures.{november, november_first, fresh, robot, ann_limit}

unneutralise-neutralise_iff_example :
    (unneutralise (neutralise "=1+1") ≡ "=1+1") ↔ (is_guarded "=1+1" ≡ false)
unneutralise-neutralise_iff_example = unneutralise-neutralise_iff "=1+1"

-- A file with one row, of which the limit is a number or not.
abbrev one_row : Csv
one_row = record {
  fieldnames = λ content. ok (some ("entity_type" ∷ "entity_id" ∷ "credit_limit" ∷ []));
  rows = λ content. (
    ((some "entity_type", some "user")
          ∷ (some "entity_id", some "ann")
          ∷ (some "credit_limit", some content)
          ∷ [])
        ∷ [],
    none,
  );
  parse_int = λ t. if str_eq t "5" then some (pos 5) else none;
  int_error = λ t. t;
  fromisoformat = λ t. some november;
  repr = λ t. t;
  lower = λ t. t;
}

refused_number :
    import_limits one_row robot none false "many" fresh
    ≡ (ok (rejected ("Row 2: credit_limit must be a whole number, got many" ∷ []) 0), fresh)
unfolding import_limits ◌>>=◌
refused_number = refl

import_limits-Previews_example :
    Previews one_row robot none (λ dry_run. import_limits one_row robot none dry_run "many") fresh
import_limits-Previews_example = import_limits-Previews one_row robot none "many" fresh

-- Reading and writing of the numbers three and eighty, and of one date.
abbrev small_csv : Csv
small_csv = record one_row {
  parse_int = λ t. if str_eq t "3" then some (pos 3) else some (pos 80);
  fromisoformat = λ t. some november_first;
}

abbrev small_writer : Writer
small_writer = record {
  int_text = λ n. if leb_ℤ n (pos 3) then "3" else "80";
  amount = λ n. "0";
  isoformat = λ t. "2025-11-01";
  file = λ rows. "";
  ordered = λ limits. limits;
}

abbrev noted_limit : CreditLimit
noted_limit = record ann_limit {
  period_type = custom;
  custom_period_start = some november_first;
  notes = some "=1+1";
}

small_ReadsBack : ReadsBack small_csv small_writer noted_limit
unfolding strip is_formula with_offset
small_ReadsBack = record {
  words = ((λ t. refl), (λ p. refl), (λ b. refl));
  credit = ((refl, refl), refl);
  threshold = ((refl, refl), refl);
  start = ((refl, refl), refl, refl);
  end = tt;
}

noted_IsExportable : IsExportable noted_limit
unfolding strip neutralise
noted_IsExportable = record {
  id_kept = (refl, refl);
  id_filled = refl;
  notes_kept = (refl, refl);
  notes_filled = refl;
  credit_ok = refl;
  threshold_ok = refl;
  members_ok = refl;
  start_ok = refl;
  dates_ok = refl;
}

row_to_input-limit_cells_example :
    row_to_input small_csv (exported small_writer noted_limit) fresh ≡ (
      ok (record (input_of noted_limit) { hold_until_released = false; notes = some "=1+1" }),
      fresh,
    )
row_to_input-limit_cells_example =
    row_to_input-limit_cells small_csv small_writer noted_limit fresh small_ReadsBack
      noted_IsExportable
