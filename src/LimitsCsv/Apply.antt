-- ===== src/LimitsCsv/Apply.antt =====
-- limits_csv.py, `import_limits`: every row is checked before any is applied.
use v_cx_credit_guard.Prelude.{
  ℕ, suc, ◌+◌, String, Bool, false, not, ◌&&◌, ◌||◌, Option, none, some, List, [], ◌∷◌, ◌++◌,
  concat, join, str, strip, str_eq, ltb, length, is_some, or_else, if◌then◌else◌,
}
use v_cx_credit_guard.Exec.{
  Exec, Result, ok, err, message, internal, raise, pure, gets, ◌>>=◌, ◌>>◌,
}
use v_cx_credit_guard.Model.Enums.{EntityType, same_entity, entity_text}
use v_cx_credit_guard.Model.Limits.{CreditLimit}
use v_cx_credit_guard.Model.Log.{AuditActor, import_counts}
use v_cx_credit_guard.Model.Database.{Db, World}
use v_cx_credit_guard.Checkmarx.{Remote, is_in}
use v_cx_credit_guard.Feed.{record_audit}
use v_cx_credit_guard.Consumption.{Dict}
use v_cx_credit_guard.Ingestion.Users.{assign}
use v_cx_credit_guard.LimitsService.Input.{
  LimitInput, Change, credit_limit, period_type, warning_threshold_pct, enforce,
  include_member_usage, hold_until_released, custom_period_start, custom_period_end, notes,
}
use v_cx_credit_guard.LimitsService.Service.{
  resolve_entity_label, limit_for, create_limit, update_limit,
}
use v_cx_credit_guard.LimitsCsv.{Csv, max_rows, row_to_input}

-- The outcomes of single rows are left out.
pub record ImportResult : Type 0 where
  pub created : ℕ
  pub updated : ℕ
  pub skipped : ℕ
  pub errors : List String

abbrev pub rejected : List String → ℕ → ImportResult
rejected errors skipped = record { created = 0; updated = 0; skipped = skipped; errors = errors }

-- What the rows read so far have come to.
pub record Checked : Type 0 where
  pub errors : List String
  pub seen : List (EntityType × String)
  pub parsed : List LimitInput

abbrev add_problem : ℕ → String → Checked → Checked
add_problem index text c = record c {
  errors = c.errors ++ concat ("Row " ∷ str index ∷ ": " ∷ text ∷ []) ∷ [];
}

unfoldable pub has_seen : EntityType → String → List (EntityType × String) → Bool
has_seen t id [] = false
has_seen t id ((u, i) ∷ seen) = (same_entity t u && str_eq i id) || has_seen t id seen

-- The header's names and a row's cells, as the code normalises them; the last of equal names counts.
unfoldable pub headers : Csv → List String → List String
unfolding strip
headers csv [] = []
headers csv (n ∷ names) =
    let rest = headers csv names in if str_eq n "" then rest else csv.lower (strip n) ∷ rest

unfoldable pub row_dict : Csv → List (Option String × Option String) → Dict → Dict
unfolding strip assign
row_dict csv [] d = d
row_dict csv ((k, v) ∷ cells) d =
    row_dict csv cells (assign (csv.lower (strip (or_else k ""))) (or_else v "") d)

-- `any(row.values())`
unfoldable pub is_filled : Dict → Bool
is_filled [] = false
is_filled ((k, v) ∷ rest) = not (str_eq v "") || is_filled rest

abbrev pub needed : List String
needed = "credit_limit" ∷ "entity_id" ∷ "entity_type" ∷ []

unfoldable pub missing_columns : List String → List String → List String
missing_columns [] names = []
missing_columns (c ∷ columns) names =
    let rest = missing_columns columns names in if is_in c names then rest else c ∷ rest

-- The row's outcome, after it has been read.
unfoldable pub check_input : Db → ℕ → Checked → Result LimitInput → Checked
unfolding has_seen resolve_entity_label message concat str entity_text
check_input db index c (err e) = add_problem index (message e) c
check_input db index c (ok d) =
    let known : Checked = record c { seen = (d.entity_type, d.entity_id) ∷ c.seen } in
    if has_seen d.entity_type d.entity_id c.seen
    then add_problem index
        (concat ("duplicate row for " ∷ entity_text d.entity_type ∷ " " ∷ d.entity_id ∷ [])) c
    else if is_some (resolve_entity_label db d.entity_type d.entity_id)
    then record known { parsed = c.parsed ++ d ∷ [] }
    else add_problem index
        (concat (
          entity_text d.entity_type
          ∷ " "
          ∷ d.entity_id
          ∷ " is not in the synced organisation model. Run a sync, or check the id."
          ∷ []))
        known

-- How the loop over the rows ends.
pub data Reading : Type 0 where
  at_end too_many : Reading
  broken : String → Reading

-- The loop over the rows; more than `max_rows` rows end it with an error and no row, and so does a
-- `csv.Error` after the last row that could be read, with its text.
unfoldable pub check_rows :
    Csv
    → Db
    → ℕ
    → List (List (Option String × Option String))
    → Option String
    → Checked
    → Checked × Reading
unfolding row_dict is_filled row_to_input check_input
check_rows csv db index [] none c = (c, at_end)
check_rows csv db index [] (some text) c = (c, broken text)
check_rows csv db index (cells ∷ rows) failure c =
    let row = row_dict csv cells [] in
    let checked = check_input db index c (row_to_input csv row tt).0 in
    let next = check_rows csv db (suc index) rows failure (if is_filled row then checked else c) in
    if ltb (suc max_rows) index then (c, too_many) else next

module _ {T : Type 0} (csv : Csv) (actor : AuditActor) (client : Option (Remote T)) where
  -- The `changes` of an update.
  unfoldable pub changes_of : LimitInput → List Change
  changes_of d =
      credit_limit d.credit_limit
      ∷ period_type d.period_type
      ∷ warning_threshold_pct d.warning_threshold_pct
      ∷ enforce d.enforce
      ∷ include_member_usage d.include_member_usage
      ∷ hold_until_released d.hold_until_released
      ∷ custom_period_start d.custom_period_start
      ∷ custom_period_end d.custom_period_end
      ∷ notes d.notes
      ∷ []

  abbrev pub count_row : Option CreditLimit → ImportResult → ImportResult
  count_row none r = record r { created = r.created + 1 }
  count_row (some l) r = record r { updated = r.updated + 1 }

  unfoldable pub write_row : LimitInput → Option CreditLimit → Exec (World T) CreditLimit
  unfolding create_limit update_limit changes_of
  write_row d none = create_limit actor d
  write_row d (some l) = update_limit actor client l (changes_of d)

  unfoldable pub apply_rows : Bool → List LimitInput → ImportResult → Exec (World T) ImportResult
  unfolding limit_for write_row
  apply_rows dry_run [] r = pure r
  apply_rows dry_run (d ∷ rows) r = do
    existing ← gets (λ w. limit_for w.db d.entity_type d.entity_id)
    let rest : Exec (World T) ImportResult = apply_rows dry_run rows (count_row existing r)
    if dry_run then rest else (write_row d existing >>= λ _. rest)

  unfoldable pub audit_import : Bool → ImportResult → Exec (World T) Unit
  unfolding record_audit concat str
  audit_import dry_run r =
      if dry_run
      then pure tt
      else record_audit (record {
        action = "limit.imported";
        actor = actor;
        target_type = some "credit_limit";
        target_id = none;
        target_label = none;
        before = none;
        after = some (import_counts r.created r.updated);
        detail =
            some (concat ("CSV import applied " ∷ str (r.created + r.updated) ∷ " limit(s)." ∷ []));
      })

  -- The rows that passed, once there is no error.
  unfoldable pub import_checked : Bool → Checked × Reading → Exec (World T) ImportResult
  unfolding apply_rows audit_import concat str
  import_checked dry_run (c, broken text) = raise (internal text)
  import_checked dry_run (c, too_many) = pure (
      rejected
        (c.errors ++ concat ("Refusing to import more than " ∷ str max_rows ∷ " rows." ∷ []) ∷ [])
        0)
  import_checked dry_run (c, at_end) = elim c.errors [
    | e ∷ errors ↦ pure (rejected (e ∷ errors) (length c.parsed))
    | [] ↦ do r ← apply_rows dry_run c.parsed (rejected [] 0); audit_import dry_run r; pure r
  ]

  unfoldable pub import_limits : Bool → String → Exec (World T) ImportResult
  unfolding import_checked check_rows headers missing_columns concat join
  import_limits dry_run content = elim (csv.fieldnames content) [
    | err e ↦ raise e
    | ok none ↦ pure (rejected ("The file has no header row." ∷ []) 0)
    | ok (some names) ↦ elim (missing_columns needed (headers csv names)) [
      | m ∷ missing ↦ pure (
          rejected
            (concat (
                "Missing required column(s): "
                ∷ join ", " (m ∷ missing)
                ∷ ". Expected header: "
                ∷ expected
                ∷ [])
              ∷ [])
            0)
      | [] ↦ do
        checked ← gets (λ w.
            let (rows, failure) = csv.rows content in
            check_rows csv w.db 2 rows failure (record { errors = []; seen = []; parsed = [] }))
        import_checked dry_run checked
    ]
  ]
    where
      expected : String
      expected =
          "entity_type, entity_id, entity_label, credit_limit, period_type, warning_threshold_pct, enforce, is_active, include_member_usage, hold_until_released, count_existing_usage, custom_period_start, custom_period_end, notes"
