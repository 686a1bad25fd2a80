-- ===== src/Ingestion/Dimension.antt =====
-- ingestion.py, `_apply_user_outcome`, `_ingest_dimension` and `_record_dimension`.
use v_cx_credit_guard.Prelude.{
  ℕ, ◌+◌, String, Bool, true, false, not, ◌&&◌, Option, none, some, List, [], ◌∷◌, ◌++◌, map,
  concat, slice_to, ◌==◌, first_where, modify_where, delete_where, length, is_some, if◌then◌else◌,
}
use v_cx_credit_guard.Exec.{Exec, fallback_detected, pure, raise, gets, modify, ◌>>=◌, ◌>>◌}
use v_cx_credit_guard.Model.Calendar.{DateTime}
use v_cx_credit_guard.Model.Enums.{
  EntityType, UsageView, same_view, pinned, exact, fuzzy_auto, disputed, unmatched,
}
use v_cx_credit_guard.Model.Log.{suggested_user}
use v_cx_credit_guard.Model.Usage.{UsageSnapshot, UsageRecord, UnresolvedSubject, DimensionState}
use v_cx_credit_guard.Model.Database.{World}
use v_cx_credit_guard.Checkmarx.{remote, is_in}
use v_cx_credit_guard.Feed.{record_audit, clipped, system_actor}
use v_cx_credit_guard.Consumption.{
  Python, Consumption, ParsedUsageItem, ParsedUsagePage, view_text, fetch_usage,
}
use v_cx_credit_guard.Matching.{Scores, Candidate, MatchOutcome, counted_user_id}
use v_cx_credit_guard.Ingestion.Users.{UserIndex, resolve_detailed}
use v_cx_credit_guard.Ingestion.Attribution.{
  is_synthetic_subject, DimensionResult, unsupported, merge_pages, last_total, NamedIndexes,
  attribute, by_subject, count_outcome, top_candidate, is_newly_auto, new_subject, seen_again,
}

-- What every call of a run is given.
pub record Setting (T F : Type 0) : Type 0 where
  pub python : Python
  pub floats : Scores F
  pub client : Consumption T
  pub period_param : String
  pub page_size : ℕ
  pub user_index : UserIndex
  pub named : NamedIndexes

-- A set of texts is in the other one.
unfoldable pub all_in : List String → List String → Bool
all_in [] names = true
all_in (k ∷ keys) names = let rest = all_in keys names in if is_in k names then rest else false

-- Whether the response has the subjects of the probe's, both not empty.
unfoldable pub is_fallback : Option (List String) → List String → Bool
unfolding all_in
is_fallback none keys = false
is_fallback (some []) keys = false
is_fallback (some (f ∷ fs)) [] = false
is_fallback (some (f ∷ fs)) (k ∷ keys) = all_in (f ∷ fs) (k ∷ keys) && all_in (k ∷ keys) (f ∷ fs)

module _ {T F : Type 0} (setting : Setting T F) where
  open setting use {python, floats, client, period_param, page_size, user_index, named}

  -- The audit entry of a new automatic match.
  unfoldable pub audit_match : ParsedUsageItem → Candidate F → Exec (World T) Unit
  unfolding record_audit concat slice_to
  audit_match i top = record_audit (record {
    action = "usage.subject_auto_matched";
    actor = system_actor "matcher";
    target_type = some "unresolved_subject";
    target_id = some (slice_to 64 i.subject_key);
    target_label = some i.subject_key;
    before = none;
    after = some (suggested_user top.user_id);
    detail = some (
        concat (
          "Credit usage reported as "
          ∷ i.subject_key
          ∷ " was automatically matched to "
          ∷ top.label
          ∷ " at "
          ∷ floats.percent top.score
          ∷ "% confidence. Override it on the Settings page if this is wrong."
          ∷ []));
  })

  unfoldable pub log_match :
      ParsedUsageItem → MatchOutcome F → Option UnresolvedSubject → Exec (World T) Unit
  unfolding audit_match is_newly_auto top_candidate
  log_match i o row = elim (top_candidate o) [
    | none ↦ pure tt
    | some top ↦ if is_newly_auto o row then audit_match i top else pure tt
  ]

  -- The row is added, or brought up to date.
  unfoldable pub write_review :
      DateTime → ParsedUsageItem → MatchOutcome F → Option UnresolvedSubject → Exec (World T) Unit
  unfolding new_subject seen_again
  write_review now i o none =
      modify (λ w. record w {
        db = record w.db { unresolved = w.unresolved ++ new_subject now i o ∷ [] };
      })
  write_review now i o (some old) = modify (λ w. record w {
    db = record w.db {
      unresolved = modify_where (by_subject old.subject_key) (seen_again now i o) w.unresolved;
    };
  })

  -- `_apply_user_outcome` on a subject that is not resolved for sure.
  unfoldable pub review :
      ParsedUsageItem
      → MatchOutcome F
      → Option UnresolvedSubject
      → DimensionResult
      → Exec (World T) DimensionResult
  unfolding write_review log_match count_outcome
  review i o row r = do
    now ← gets (λ w. w.now)
    write_review now i o row
    log_match i o row
    pure (count_outcome o.method o.is_bot r)

  -- A stale row that no admin has pinned goes when its subject is resolved.
  unfoldable pub drop_review : String → Exec (World T) Unit
  drop_review key = modify (λ w. record w {
    db = record w.db {
      unresolved =
          delete_where (λ row. by_subject key row && not (is_some row.mapped_user_id)) w.unresolved;
    };
  })

  unfoldable pub apply_user_outcome :
      ParsedUsageItem → MatchOutcome F → DimensionResult → Exec (World T) DimensionResult
  unfolding review drop_review
  apply_user_outcome i o r = do
    row ← gets (λ w. first_where (by_subject i.subject_key) w.unresolved)
    elim o.method [
      | pinned ↦ do drop_review i.subject_key; pure r
      | exact ↦ do drop_review i.subject_key; pure r
      | fuzzy_auto ↦ review i o row r
      | disputed ↦ review i o row r
      | unmatched ↦ review i o row r
    ]

  unfoldable pub add_record :
      ℕ → UsageView → ParsedUsageItem → Option EntityType → Option String → Exec (World T) Unit
  unfolding slice_to
  add_record snapshot_id view i entity_type entity_id =
      let row : UsageRecord = record {
        snapshot_id = snapshot_id;
        view_by = view;
        subject_key = slice_to 320 i.subject_key;
        subject_name = i.subject_name;
        subject_email = i.subject_email;
        entity_type = entity_type;
        entity_id = entity_id;
        credits_used = i.credits_used;
        transactions = i.transactions;
        actions = elim i.actions [ [] ↦ none | a ∷ rest ↦ some (a ∷ rest) ];
      } in
      modify (λ w. record w { db = record w.db { records = w.records ++ row ∷ [] } })

  abbrev pub count_record : ParsedUsageItem → DimensionResult → DimensionResult
  count_record i r = record r {
    records = r.records + 1;
    total_credits = r.total_credits + i.credits_used;
  }

  -- One merged row of the user dimension.
  unfoldable pub ingest_user_item :
      ℕ → ParsedUsageItem → DimensionResult → Exec (World T) DimensionResult
  unfolding resolve_detailed counted_user_id add_record apply_user_outcome is_synthetic_subject
  ingest_user_item snapshot_id i r = do
    let o = resolve_detailed python floats user_index i.subject_key i.subject_name i.subject_email
    add_record snapshot_id UsageView.user i (some EntityType.user) (counted_user_id o)
    if is_synthetic_subject python i.subject_key
        then pure (record (count_record i r) { automated = r.automated + 1 })
        else apply_user_outcome i o (count_record i r)

  -- One merged row of another dimension.
  unfoldable pub ingest_named_item :
      ℕ → UsageView → ParsedUsageItem → DimensionResult → Exec (World T) DimensionResult
  unfolding attribute add_record
  ingest_named_item snapshot_id view i r = do
    let (entity_type, entity_id) = attribute python named view i
    add_record snapshot_id view i entity_type entity_id
    pure (count_record i r)

  unfoldable pub ingest_item :
      ℕ → UsageView → ParsedUsageItem → DimensionResult → Exec (World T) DimensionResult
  unfolding ingest_user_item ingest_named_item
  ingest_item snapshot_id view i r =
      if same_view view UsageView.user
      then ingest_user_item snapshot_id i r
      else ingest_named_item snapshot_id view i r

  unfoldable pub ingest_items :
      ℕ → UsageView → List ParsedUsageItem → DimensionResult → Exec (World T) DimensionResult
  unfolding ingest_item
  ingest_items snapshot_id view [] r = pure r
  ingest_items snapshot_id view (i ∷ items) r = do
    r' ← ingest_item snapshot_id view i r
    ingest_items snapshot_id view items r'

  abbrev pub empty_snapshot : UsageView → World T → UsageSnapshot
  empty_snapshot view w = record {
    id = w.next_id;
    collected_at = w.now;
    view_by = view;
    period_param = period_param;
    total_items = none;
    total_credits = 0;
    pages_fetched = 0;
  }

  -- The snapshot's row is written before anything is fetched.
  unfoldable pub open_snapshot : UsageView → Exec (World T) ℕ
  open_snapshot view = do
    id ← gets (λ w. w.next_id)
    modify (λ w. record w {
      db = record w.db {
        next_id = w.next_id + 1;
        snapshots = w.snapshots ++ empty_snapshot view w ∷ [];
      };
    })
    pure id

  unfoldable pub on_snapshot : ℕ → (UsageSnapshot → UsageSnapshot) → Exec (World T) Unit
  on_snapshot id f = modify (λ w. record w {
    db = record w.db { snapshots = modify_where (λ s. s.id == id) f w.snapshots };
  })

  unfoldable pub delete_snapshot : ℕ → Exec (World T) Unit
  delete_snapshot id = modify (λ w. record w {
    db = record w.db { snapshots = delete_where (λ (s : UsageSnapshot). s.id == id) w.snapshots };
  })

  -- The rest of `_ingest_dimension`, on the pages.
  unfoldable pub store_pages :
      ℕ → UsageView → Option (List String) → List ParsedUsagePage → Exec (World T) DimensionResult
  unfolding merge_pages last_total is_fallback delete_snapshot on_snapshot ingest_items concat
      view_text
  store_pages id view fingerprint pages =
      let merged = merge_pages [] pages in
      if is_fallback fingerprint (map (λ (i : ParsedUsageItem). i.subject_key) merged)
      then (do
        delete_snapshot id
        raise (
            fallback_detected (
              concat (
                "viewBy="
                ∷ view_text view
                ∷ " returned the same subjects as an unrecognised viewBy value, so the endpoint silently fell back to the user dimension."
                ∷ []))))
      else (do
        on_snapshot id
            (λ s. record s { total_items = last_total none pages; pages_fetched = length pages })
        r ← ingest_items id view merged (record (unsupported none) { supported = true })
        on_snapshot id (λ s. record s { total_credits = r.total_credits })
        pure r)

  unfoldable pub ingest_dimension :
      UsageView → Option (List String) → Exec (World T) DimensionResult
  unfolding open_snapshot remote fetch_usage store_pages
  ingest_dimension view fingerprint = do
    id ← open_snapshot view
    pages ← remote (fetch_usage python client period_param page_size view)
    store_pages id view fingerprint pages

module _ {T : Type 0} where
  -- `_record_dimension`
  unfoldable pub record_dimension : UsageView → Option Bool → Option String → Exec (World T) Unit
  unfolding clipped
  record_dimension view supported error = do
    now ← gets (λ w. w.now)
    let of_view : DimensionState → Bool = λ d. same_view d.view_by view
    let row : DimensionState = record {
      view_by = view;
      supported = supported;
      last_checked_at = some now;
      last_error = clipped 2000 error;
    }
    modify (λ w. record w {
      db = record w.db {
        dimensions = elim (first_where of_view w.dimensions) [
          | none ↦ w.dimensions ++ row ∷ []
          | some d ↦ modify_where of_view (λ _. row) w.dimensions
        ];
      };
    })
