-- ===== src/Ingestion/Pinned.antt =====
-- ingestion.py: what a run leaves alone, whatever the tenant answers.
use v_cx_credit_guard.Prelude.{
  ℕ, ◌≡◌, refl, ap, ◌∙◌, inl, inr, String, Bool, true, false, not, ◌&&◌, Option, none, some, List,
  [], ◌∷◌, ◌++◌, modify_where, delete_where, is_some, Bool-cases, Option-cases, if◌then◌else◌,
}
use v_cx_credit_guard.Exec.{
  Exec, Failure, plain, api_key, auth, permission, not_found, rate_limit, unavailable, response,
  not_configured, Result, ok, err, checkmarx, period_error, limit_error, value_error,
  fallback_detected, internal, pure, gets, modify, ◌>>=◌,
}
use v_cx_credit_guard.Exec.Contracts.{
  Keeps, Keeps-bind, Keeps-gets, Keeps-pure, Keeps-raise, Keeps-if,
}
use v_cx_credit_guard.Model.Calendar.{DateTime}
use v_cx_credit_guard.Model.Enums.{
  EntityType, UsageView, MatchMethod, pinned, exact, fuzzy_auto, disputed, unmatched, same_view,
}
use v_cx_credit_guard.Model.Usage.{UnresolvedSubject, UsageSnapshot, DimensionState}
use v_cx_credit_guard.Model.Database.{Db, World}
use v_cx_credit_guard.Checkmarx.{remote}
use v_cx_credit_guard.Feed.{record_audit}
use v_cx_credit_guard.Consumption.{Python, Consumption, ParsedUsageItem, ParsedUsagePage}
use v_cx_credit_guard.Matching.{Scores, Candidate, MatchOutcome}
use v_cx_credit_guard.Ingestion.Users.{resolve_detailed}
use v_cx_credit_guard.Ingestion.Attribution.{
  DimensionResult, by_subject, top_candidate, is_newly_auto, new_subject, seen_again,
}
use v_cx_credit_guard.Ingestion.Dimension
use v_cx_credit_guard.Ingestion.Run

abbrev pub attach : String → Option String → List (String × String) → List (String × String)
attach key none rest = rest
attach key (some u) rest = (key, u) ∷ rest

-- The subjects that an administrator has mapped, with their users.
abbrev pub mappings : List UnresolvedSubject → List (String × String)
mappings [] = []
mappings (row ∷ rows) = attach row.subject_key row.mapped_user_id (mappings rows)

mappings-new :
    (row : UnresolvedSubject) (rows : List UnresolvedSubject)
    → row.mapped_user_id ≡ none
    → mappings (rows ++ row ∷ []) ≡ mappings rows
mappings-new row [] e = ap (λ u. attach row.subject_key u []) e
mappings-new row (x ∷ rows) e = ap (attach x.subject_key x.mapped_user_id) (mappings-new row rows e)

mappings-update :
    (p : UnresolvedSubject → Bool) (f : UnresolvedSubject → UnresolvedSubject)
    → ((row : UnresolvedSubject) → (f row).subject_key ≡ row.subject_key)
    → ((row : UnresolvedSubject) → (f row).mapped_user_id ≡ row.mapped_user_id)
    → (rows : List UnresolvedSubject) → mappings (modify_where p f rows) ≡ mappings rows
mappings-update p f key user [] = refl
mappings-update p f key user (x ∷ rows) =
    let rest = mappings-update p f key user rows in step (p x) rest
  where
    step :
        (b : Bool)
        → mappings (modify_where p f rows) ≡ mappings rows
        → mappings ((if b then f x else x) ∷ modify_where p f rows) ≡ mappings (x ∷ rows)
    step true rest =
        ap (λ k. attach k (f x).mapped_user_id (mappings (modify_where p f rows))) (key x)
        ∙ ap (λ u. attach x.subject_key u (mappings (modify_where p f rows))) (user x)
        ∙ ap (attach x.subject_key x.mapped_user_id) rest
    step false rest = ap (attach x.subject_key x.mapped_user_id) rest

mappings-drop :
    (p : UnresolvedSubject → Bool) (rows : List UnresolvedSubject)
    → mappings (delete_where (λ row. p row && not (is_some row.mapped_user_id)) rows)
      ≡ mappings rows
mappings-drop p [] = refl
mappings-drop p (x ∷ rows) =
    let rest = mappings-drop p rows in
    elim (Option-cases x.mapped_user_id) [
      | inl free ↦ elim (Bool-cases (p x)) [
        | inl hit ↦ simp (free, hit) rest
        | inr miss ↦ simp (free, miss) rest
      ]
      | inr (u, kept) ↦ elim (Bool-cases (p x)) [
        | inl hit ↦ simp (kept, hit, rest) refl
        | inr miss ↦ simp (kept, miss, rest) refl
      ]
    ]

module _ {T : Type 0} (db : Db) where
  -- What the limits and their enforcement rest on, and what an administrator has mapped.
  abbrev pub HasSameRules : World T → Type 0
  HasSameRules w =
      (mappings w.unresolved ≡ mappings db.unresolved)
      × (w.limits ≡ db.limits)
      × (w.states ≡ db.states)
      × (w.actions ≡ db.actions)

  abbrev Leaves : {A : Type 0} → Exec (World T) A → Type 0
  Leaves m = Keeps HasSameRules m

  remote-Leaves : {A : Type 0} (m : Exec T A) → Leaves (remote m)
  unfolding remote
  remote-Leaves m = record { at = λ w h. h }

  record_dimension-Leaves :
      (view : UsageView) (b : Option Bool) (e : Option String)
      → Leaves (Dimension.record_dimension view b e)
  unfolding Dimension.record_dimension modify gets ◌>>=◌
  record_dimension-Leaves view b e = record { at = λ w h. h }

  handle_failure-Leaves :
      (view : UsageView) (p : Run.Progress) (k : Failure) (text : String)
      → Leaves (Run.handle_failure view p k text)
  unfolding Run.handle_failure
  handle_failure-Leaves view p not_found text =
      Keeps-bind (record_dimension-Leaves view _ (some text)) λ _. Keeps-pure _
  handle_failure-Leaves view p response text =
      Keeps-bind (record_dimension-Leaves view _ (some text)) λ _. Keeps-pure _
  handle_failure-Leaves view p permission text =
      Keeps-bind (record_dimension-Leaves view _ (some text)) λ _. Keeps-pure _
  handle_failure-Leaves view p plain text = Keeps-raise _
  handle_failure-Leaves view p api_key text = Keeps-raise _
  handle_failure-Leaves view p auth text = Keeps-raise _
  handle_failure-Leaves view p rate_limit text = Keeps-raise _
  handle_failure-Leaves view p unavailable text = Keeps-raise _
  handle_failure-Leaves view p not_configured text = Keeps-raise _

  conclude-Leaves :
      (view : UsageView) (p : Run.Progress) (r : Result DimensionResult)
      → Leaves (Run.conclude_dimension view p r)
  unfolding Run.conclude_dimension
  conclude-Leaves view p (ok d) = Keeps-bind (record_dimension-Leaves view _ none) λ _. Keeps-pure _
  conclude-Leaves view p (err (fallback_detected text)) =
      Keeps-bind (record_dimension-Leaves view _ (some text)) λ _. Keeps-pure _
  conclude-Leaves view p (err (checkmarx k text)) = handle_failure-Leaves view p k text
  conclude-Leaves view p (err (period_error text)) = Keeps-raise _
  conclude-Leaves view p (err (limit_error text)) = Keeps-raise _
  conclude-Leaves view p (err (value_error text)) = Keeps-raise _
  conclude-Leaves view p (err (internal text)) = Keeps-raise _

  module _ {F : Type 0} (setting : Dimension.Setting T F) where
    on_snapshot-Leaves :
        (id : ℕ) (f : UsageSnapshot → UsageSnapshot) → Leaves (Dimension.on_snapshot setting id f)
    unfolding Dimension.on_snapshot modify
    on_snapshot-Leaves id f = record { at = λ w h. h }

    delete_snapshot-Leaves : (id : ℕ) → Leaves (Dimension.delete_snapshot setting id)
    unfolding Dimension.delete_snapshot modify
    delete_snapshot-Leaves id = record { at = λ w h. h }

    open_snapshot-Leaves : (view : UsageView) → Leaves (Dimension.open_snapshot setting view)
    unfolding Dimension.open_snapshot modify gets pure ◌>>=◌
    open_snapshot-Leaves view = record { at = λ w h. h }

    add_record-Leaves :
        (id : ℕ) (view : UsageView) (i : ParsedUsageItem) (t : Option EntityType)
        (e : Option String)
        → Leaves (Dimension.add_record setting id view i t e)
    unfolding Dimension.add_record modify
    add_record-Leaves id view i t e = record { at = λ w h. h }

    log_match-Leaves :
        (i : ParsedUsageItem) (o : MatchOutcome F) (row : Option UnresolvedSubject)
        → Leaves (Dimension.log_match setting i o row)
    unfolding Dimension.log_match Dimension.audit_match record_audit
    log_match-Leaves i o row = go (top_candidate o)
      where
        go :
            (top : Option (Candidate F))
            → Leaves (elim top [
              | none ↦ pure tt
              | some t ↦ if is_newly_auto o row then Dimension.audit_match setting i t else pure tt
            ])
        go none = Keeps-pure _
        go (some t) = Keeps-if (is_newly_auto o row) (record { at = λ w h. h }) (Keeps-pure _)

    write-Leaves :
        (now : DateTime) (i : ParsedUsageItem) (o : MatchOutcome F) (row : Option UnresolvedSubject)
        → Leaves (Dimension.write_review setting now i o row)
    unfolding Dimension.write_review modify new_subject seen_again
    write-Leaves now i o none = record {
      at = λ w h. (mappings-new (new_subject now i o) w.unresolved refl ∙ h.0, h.1, h.2, h.3);
    }
    write-Leaves now i o (some old) = record {
      at = λ w h. (
        mappings-update (by_subject old.subject_key) (seen_again now i o) (λ _. refl) (λ _. refl)
              w.unresolved
            ∙ h.0,
        h.1,
        h.2,
        h.3,
      );
    }

    review-Leaves :
        (i : ParsedUsageItem) (o : MatchOutcome F) (row : Option UnresolvedSubject)
        (r : DimensionResult)
        → Leaves (Dimension.review setting i o row r)
    unfolding Dimension.review
    review-Leaves i o row r = Keeps-bind (Keeps-gets _) λ now.
        Keeps-bind (write-Leaves now i o row)
          λ _. Keeps-bind (log_match-Leaves i o row) λ _. Keeps-pure _

    drop_review-Leaves : (key : String) → Leaves (Dimension.drop_review setting key)
    unfolding Dimension.drop_review modify
    drop_review-Leaves key = record {
      at = λ w h. (mappings-drop (by_subject key) w.unresolved ∙ h.0, h.1, h.2, h.3);
    }

    outcome-Leaves :
        (i : ParsedUsageItem) (o : MatchOutcome F) (r : DimensionResult)
        → Leaves (Dimension.apply_user_outcome setting i o r)
    unfolding Dimension.apply_user_outcome
    outcome-Leaves i o r = Keeps-bind (Keeps-gets _) λ row. go row o.method
      where
        go :
            (row : Option UnresolvedSubject) (m : MatchMethod)
            → Leaves (elim m [
              | pinned ↦ Dimension.drop_review setting i.subject_key >>= λ _. pure r
              | exact ↦ Dimension.drop_review setting i.subject_key >>= λ _. pure r
              | fuzzy_auto ↦ Dimension.review setting i o row r
              | disputed ↦ Dimension.review setting i o row r
              | unmatched ↦ Dimension.review setting i o row r
            ])
        go row pinned = Keeps-bind (drop_review-Leaves i.subject_key) λ _. Keeps-pure r
        go row exact = Keeps-bind (drop_review-Leaves i.subject_key) λ _. Keeps-pure r
        go row fuzzy_auto = review-Leaves i o row r
        go row disputed = review-Leaves i o row r
        go row unmatched = review-Leaves i o row r

    item-Leaves :
        (id : ℕ) (view : UsageView) (i : ParsedUsageItem) (r : DimensionResult)
        → Leaves (Dimension.ingest_item setting id view i r)
    unfolding Dimension.ingest_item Dimension.ingest_user_item Dimension.ingest_named_item
    item-Leaves id view i r =
        Keeps-if (same_view view UsageView.user)
          (Keeps-bind (add_record-Leaves id UsageView.user i _ _) λ _. Keeps-if _ (Keeps-pure _) (
            outcome-Leaves i
              (resolve_detailed setting.python setting.floats setting.user_index i.subject_key
                i.subject_name i.subject_email)
              _))
          (Keeps-bind (add_record-Leaves id view i _ _) λ _. Keeps-pure _)

    items-Leaves :
        (id : ℕ) (view : UsageView) (items : List ParsedUsageItem) (r : DimensionResult)
        → Leaves (Dimension.ingest_items setting id view items r)
    unfolding Dimension.ingest_items
    items-Leaves id view [] r = Keeps-pure r
    items-Leaves id view (i ∷ items) r =
        Keeps-bind (item-Leaves id view i r) λ r'. items-Leaves id view items r'

    store_pages-Leaves :
        (id : ℕ) (view : UsageView) (f : Option (List String)) (pages : List ParsedUsagePage)
        → Leaves (Dimension.store_pages setting id view f pages)
    unfolding Dimension.store_pages
    store_pages-Leaves id view f pages =
        Keeps-if _ (Keeps-bind (delete_snapshot-Leaves id) λ _. Keeps-raise _) (
          Keeps-bind (on_snapshot-Leaves id _) λ _.
            Keeps-bind (items-Leaves id view _ _)
              λ _. Keeps-bind (on_snapshot-Leaves id _) λ _. Keeps-pure _)

    dimension-Leaves :
        (view : UsageView) (f : Option (List String))
        → Leaves (Dimension.ingest_dimension setting view f)
    unfolding Dimension.ingest_dimension
    dimension-Leaves view f =
        Keeps-bind (open_snapshot-Leaves view)
          λ id. Keeps-bind (remote-Leaves _) λ pages. store_pages-Leaves id view f pages

    probe-Leaves :
        (view : UsageView) (state : Option DimensionState) (p : Run.Progress)
        → Leaves (Run.probe setting view state p)
    unfolding Run.probe
    probe-Leaves view (some d) p = Keeps-pure p
    probe-Leaves view none p =
        Keeps-if _ (Keeps-pure p)
          (Keeps-if _ (Keeps-pure p) (Keeps-bind (remote-Leaves _) λ _. Keeps-pure _))

    view-Leaves : (view : UsageView) (p : Run.Progress) → Leaves (Run.ingest_view setting view p)
    unfolding Run.ingest_view
    view-Leaves view p = Keeps-bind (Keeps-gets _) λ state. Keeps-if _ (Keeps-pure _) (
        Keeps-bind (probe-Leaves view state p) λ q. record {
          at = λ w h. (conclude-Leaves view q _).at _ ((dimension-Leaves view _).at w h);
        })

    views-Leaves :
        (views : List UsageView) (p : Run.Progress) → Leaves (Run.ingest_views setting views p)
    unfolding Run.ingest_views
    views-Leaves [] p = Keeps-pure p
    views-Leaves (view ∷ views) p = Keeps-bind (view-Leaves view p) λ q. views-Leaves views q

-- A run of `ingest_usage`, however the tenant answers and however the run ends, leaves the subjects
-- that an administrator has mapped, in their order, with the users they are mapped to, and leaves
-- the limits, the states of their periods and the enforcement actions.
pub ingest_usage-HasSameRules :
    {T F : Type 0} (python : Python) (floats : Scores F) (client : Consumption T) (period : String)
    (page_size : ℕ) (w : World T)
    → HasSameRules w.db (Run.ingest_usage python floats client period page_size w).1
unfolding Run.ingest_usage
ingest_usage-HasSameRules python floats client period page_size w =
    (Keeps-bind (Keeps-gets _) λ setting.
        Keeps-bind (views-Leaves w.db setting Run.default_views Run.no_progress)
          λ _. Keeps-pure _).at
      w (refl, refl, refl, refl)
