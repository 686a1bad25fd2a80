-- ===== src/LimitsCsv/Unchanged.antt =====
-- limits_csv.py: a dry run, and an import with errors.
use v_cx_credit_guard.Prelude.{
  ◌≡◌, ◌⊎◌, inl, inr, refl, ap, ◌∙◌, String, Bool, true, false, Option, none, some, List, [], ◌∷◌,
}
use v_cx_credit_guard.Exec.{Exec, Error, Result, ok, err, raise, pure, gets, ◌>>=◌, ◌>>◌}
use v_cx_credit_guard.Model.Limits.{CreditLimit}
use v_cx_credit_guard.Model.Log.{AuditActor}
use v_cx_credit_guard.Model.Database.{World}
use v_cx_credit_guard.Checkmarx.{Remote}
use v_cx_credit_guard.LimitsService.Input.{LimitInput}
use v_cx_credit_guard.LimitsService.Service.{limit_for}
use v_cx_credit_guard.LimitsCsv.{Csv}
use v_cx_credit_guard.LimitsCsv.Apply.{
  ImportResult, Checked, Reading, at_end, too_many, broken, rejected, count_row, apply_rows,
  audit_import, import_checked, import_limits, needed, check_rows, headers, missing_columns,
}

List-cases : {A : Type 0} (xs : List A) → (xs ≡ []) ⊎ ((x : A) × (ys : List A) × (xs ≡ x ∷ ys))
List-cases [] = inl refl
List-cases (x ∷ xs) = inr (x, xs, refl)

Header-cases :
    (h : Result (Option (List String)))
    → ((e : Error) × (h ≡ err e)) ⊎ (h ≡ ok none) ⊎ ((names : List String) × (h ≡ ok (some names)))
Header-cases (err e) = inl (e, refl)
Header-cases (ok none) = inr (inl refl)
Header-cases (ok (some names)) = inr (inr (names, refl))

bind-pure :
    {S A : Type 0} (m : Exec S A) (a : A) (s s' : S)
    → m s ≡ (ok a, s')
    → (m >>= λ a. pure tt >> pure a) s ≡ (ok a, s')
unfolding pure ◌>>=◌
bind-pure m a s s' runs = ap (λ p. elim p.0 [ ok a ↦ (ok a, p.1) | err e ↦ (err e, p.1) ]) runs

module _ {T : Type 0} (csv : Csv) (actor : AuditActor) (client : Option (Remote T)) where
  errors-count_row :
      (existing : Option CreditLimit) (r : ImportResult)
      → (count_row csv actor client existing r).errors ≡ r.errors
  errors-count_row none r = refl
  errors-count_row (some l) r = refl

  apply_rows-pretends :
      (rows : List LimitInput) (r : ImportResult) (w : World T)
      → (r' : ImportResult) × (apply_rows csv actor client true rows r w ≡ (ok r', w))
        × (r'.errors ≡ r.errors)
  unfolding apply_rows pure gets ◌>>=◌
  apply_rows-pretends [] r w = (r, refl, refl)
  apply_rows-pretends (d ∷ rows) r w =
      let existing = limit_for w.db d.entity_type d.entity_id in
      let (r', runs, same) = apply_rows-pretends rows (count_row csv actor client existing r) w in
      (r', runs, same ∙ errors-count_row existing r)

  -- No error is reported or raised.
  abbrev pub IsAccepted : Result ImportResult → Type 0
  IsAccepted (ok r) = r.errors ≡ []
  IsAccepted (err e) = ⊥

  -- What a call with and without `dry_run` have in common.
  abbrev pub Previews : (Bool → Exec (World T) ImportResult) → World T → Type 0
  Previews call w =
      (r : Result ImportResult) × (call true w ≡ (r, w)) × (IsAccepted r ⊎ (call false w ≡ (r, w)))

  import_checked-Previews :
      (checked : Checked × Reading) (w : World T)
      → Previews (λ dry_run. import_checked csv actor client dry_run checked) w
  unfolding import_checked audit_import pure raise ◌>>=◌
  import_checked-Previews (c, broken text) w = (_, refl, inr refl)
  import_checked-Previews (c, too_many) w = (_, refl, inr refl)
  import_checked-Previews (c, at_end) w = elim (List-cases c.errors) [
    | inl none_left ↦
        let (r, runs, same) = apply_rows-pretends c.parsed (rejected [] 0) w in
        rw none_left (
          ok r,
          bind-pure (apply_rows csv actor client true c.parsed (rejected [] 0)) r w w runs,
          inl same,
        )
    | inr (e, errors, some_left) ↦ rw some_left (_, refl, inr refl)
  ]

  -- A dry run leaves the world as it is. If it raises or reports an error, the import itself raises
  -- or reports the same and leaves the world as it is, so that nothing is applied unless every row is.
  pub import_limits-Previews :
      (content : String) (w : World T)
      → Previews (λ dry_run. import_limits csv actor client dry_run content) w
  unfolding import_limits pure raise gets ◌>>=◌
  import_limits-Previews content w = elim (Header-cases (csv.fieldnames content)) [
    | inl (e, no_file) ↦ rw (no_file, import_limits) (_, refl, inr refl)
    | inr (inl no_header) ↦ rw (no_header, import_limits) (_, refl, inr refl)
    | inr (inr (names, header)) ↦
        rw (header, import_limits)
          (elim (List-cases (missing_columns needed (headers csv names))) [
            | inl complete ↦
                rw (complete, import_limits)
                  (import_checked-Previews
                    (check_rows csv w.db 2 (csv.rows content).0 (csv.rows content).1
                      (record { errors = []; seen = []; parsed = [] }))
                    w)
            | inr (m, missing, incomplete) ↦ rw (incomplete, import_limits) (_, refl, inr refl)
          ])
  ]
