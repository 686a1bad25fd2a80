-- ===== src/Ingestion/Rejected.antt =====
-- ingestion.py: an answer that is the fallback to the user dimension.
use v_cx_credit_guard.Prelude.{
  ℕ, ◌<◌, ◌≡◌, refl, ap, String, true, false, Option, List, [], ◌∷◌, ◌++◌, map, concat, ◌==◌, All,
  delete_where, arith,
}
use v_cx_credit_guard.Exec.{Result, ok, err, fallback_detected, raise, gets, modify, pure, ◌>>=◌}
use v_cx_credit_guard.Model.Enums.{UsageView}
use v_cx_credit_guard.Model.Usage.{UsageSnapshot}
use v_cx_credit_guard.Model.Database.{World}
use v_cx_credit_guard.Checkmarx.{remote}
use v_cx_credit_guard.Consumption.{ParsedUsageItem, ParsedUsagePage, fetch_usage, view_text}
use v_cx_credit_guard.Ingestion.Attribution.{merge_pages}
use v_cx_credit_guard.Ingestion.Dimension

-- The row that was added last goes again.
delete_last :
    (n : ℕ) (s : UsageSnapshot) (rows : List UsageSnapshot)
    → s.id ≡ n
    → All (λ (r : UsageSnapshot). r.id < n) rows
    → delete_where (λ (r : UsageSnapshot). r.id == n) (rows ++ s ∷ []) ≡ rows
delete_last n s [] e h = let own : (s.id == n) ≡ true = ground arith in rw own refl
delete_last n s (r ∷ rows) e h =
    let other : (r.id == n) ≡ false = ground (arith, h.0) in
    rw (other, delete_last n s rows e h.1) refl

module _ {T F : Type 0} (setting : Dimension.Setting T F) where
  open setting use {python, client, period_param, page_size}

  -- When all requests succeed and the subjects are those of the probe, neither set empty,
  -- `_ingest_dimension` raises `FallbackDetected`, and snapshots, records, subjects under review and
  -- audit log are what they were: nothing of the answer is stored. No snapshot has an id that was not
  -- given yet.
  pub ingest_dimension-rejects :
      (view : UsageView) (fingerprint : Option (List String)) (w : World T)
      (pages : List ParsedUsagePage) (t : T)
      → All (λ (s : UsageSnapshot). s.id < w.next_id) w.snapshots
      → fetch_usage python client period_param page_size view w.tenant ≡ (ok pages, t)
      → Dimension.is_fallback fingerprint
          (map (λ (i : ParsedUsageItem). i.subject_key) (merge_pages [] pages))
        ≡ true
      → let (result, after) = Dimension.ingest_dimension setting view fingerprint w in
        (result
          ≡ err (
              fallback_detected (
                concat (
                  "viewBy="
                  ∷ view_text view
                  ∷ " returned the same subjects as an unrecognised viewBy value, so the endpoint silently fell back to the user dimension."
                  ∷ []))))
        × (after.snapshots ≡ w.snapshots)
        × (after.records ≡ w.records)
        × (after.unresolved ≡ w.unresolved)
        × (after.audit_log ≡ w.audit_log)
  unfolding Dimension.ingest_dimension Dimension.open_snapshot Dimension.store_pages
      Dimension.delete_snapshot gets modify pure raise ◌>>=◌ remote
  ingest_dimension-rejects view fingerprint w pages t rows fetched same =
      let w' = (Dimension.open_snapshot setting view w).1 in
      let run : Dimension.ingest_dimension setting view fingerprint w
          ≡ Dimension.store_pages setting w.next_id view fingerprint pages
              (record w' { tenant = t }) =
        ap
          (λ (x : Result (List ParsedUsagePage) × T).
            ((λ (v : World T). (x.0, record v { tenant = x.1 }))
                >>= Dimension.store_pages setting w.next_id view fingerprint)
              w')
          fetched in
      rw (run, same)
        (
          refl,
          delete_last w.next_id (Dimension.empty_snapshot setting view w) w.snapshots refl rows,
          refl,
          refl,
          refl,
        )
