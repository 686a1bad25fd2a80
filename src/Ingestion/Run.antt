-- ===== src/Ingestion/Run.antt =====
-- ingestion.py, `ingest_usage`: the dimensions in turn, with what each failure means.
use v_cx_credit_guard.Prelude.{
  ℕ, String, Bool, true, false, Option, none, some, List, [], ◌∷◌, ◌++◌, concat, first_where,
  if◌then◌else◌,
}
use v_cx_credit_guard.Exec.{
  Exec, Failure, Result, ok, err, checkmarx, period_error, limit_error, value_error,
  fallback_detected, internal, plain, api_key, auth, permission, not_found, rate_limit, unavailable,
  response, not_configured, pure, raise, gets, ◌>>=◌, ◌>>◌,
}
use v_cx_credit_guard.Model.Enums.{UsageView, same_view}
use v_cx_credit_guard.Model.Usage.{DimensionState}
use v_cx_credit_guard.Model.Database.{Db, World}
use v_cx_credit_guard.Checkmarx.{remote}
use v_cx_credit_guard.Consumption.{Python, Consumption, view_text, fetch_fallback_fingerprint}
use v_cx_credit_guard.Matching.{Scores}
use v_cx_credit_guard.Ingestion.Users.{
  NamedIndex, build_user_index, index_projects, index_applications, index_groups,
}
use v_cx_credit_guard.Ingestion.Attribution.{DimensionResult, unsupported}
use v_cx_credit_guard.Ingestion.Dimension.{Setting, ingest_dimension, record_dimension}

-- DEFAULT_VIEWS
abbrev pub default_views : List UsageView
default_views =
    UsageView.user ∷ UsageView.action ∷ UsageView.application ∷ UsageView.project ∷ UsageView.group
    ∷ []

pub record IngestResult : Type 0 where
  pub dimensions : List (UsageView × DimensionResult)
  pub warnings : List String

-- The result so far, and the probe of the fallback, which is made at most once.
pub record Progress : Type 0 where
  pub result : IngestResult
  pub fallback_fingerprint : Option (List String)
  pub fallback_probed : Bool

abbrev pub no_progress : Progress
no_progress = record {
  result = record { dimensions = []; warnings = [] };
  fallback_fingerprint = none;
  fallback_probed = false;
}

abbrev add_dimension : UsageView → DimensionResult → List String → Progress → Progress
add_dimension view d texts p = record p {
  result = record {
    dimensions = p.result.dimensions ++ (view, d) ∷ [];
    warnings = p.result.warnings ++ texts;
  };
}

-- `session.get(DimensionState, str(view))`
abbrev pub dimension_state : Db → UsageView → Option DimensionState
dimension_state db view = first_where (λ d. same_view d.view_by view) db.dimensions

-- `state is not None and state.supported is False`
abbrev pub is_ruled_out : Option DimensionState → Bool
is_ruled_out none = false
is_ruled_out (some d) = elim d.supported [ none ↦ false | some b ↦ if b then false else true ]

unfoldable pub fallback_warning : UsageView → String
unfolding concat view_text
fallback_warning view = concat (
    "Checkmarx does not report consumption by "
    ∷ view_text view
    ∷ " on this tenant. It answered successfully but returned the user view instead, so that dimension is ignored. Limits at that level are not evaluated."
    ∷ [])

module _ {T : Type 0} where
  -- How the `try` around `_ingest_dimension` goes on.
  unfoldable pub handle_failure : UsageView → Progress → Failure → String → Exec (World T) Progress
  unfolding record_dimension concat view_text
  handle_failure view p k text = elim k [
    | not_found ↦ missing
    | response ↦ missing
    | permission ↦ do
      record_dimension view none (some text)
      pure (
          add_dimension view (unsupported (some text))
            (concat (
                "The API key is not permitted to read consumption by "
                ∷ view_text view
                ∷ ". "
                ∷ text
                ∷ [])
              ∷ [])
            p)
    | plain ↦ raise (checkmarx plain text)
    | api_key ↦ raise (checkmarx api_key text)
    | auth ↦ raise (checkmarx auth text)
    | rate_limit ↦ raise (checkmarx rate_limit text)
    | unavailable ↦ raise (checkmarx unavailable text)
    | not_configured ↦ raise (checkmarx not_configured text)
  ]
    where
      missing : Exec (World T) Progress
      missing = do
        record_dimension view (some false) (some text)
        pure (
            add_dimension view (unsupported (some text))
              (concat (
                  "Checkmarx does not report consumption by "
                  ∷ view_text view
                  ∷ ": "
                  ∷ text
                  ∷ " Limits at that level cannot be evaluated."
                  ∷ [])
                ∷ [])
              p)

  unfoldable pub conclude_dimension :
      UsageView → Progress → Result DimensionResult → Exec (World T) Progress
  unfolding handle_failure record_dimension fallback_warning
  conclude_dimension view p (ok d) = do
    record_dimension view (some true) none
    pure (add_dimension view d [] p)
  conclude_dimension view p (err (fallback_detected text)) = do
    record_dimension view (some false) (some text)
    pure (add_dimension view (unsupported (some text)) (fallback_warning view ∷ []) p)
  conclude_dimension view p (err (checkmarx k text)) = handle_failure view p k text
  conclude_dimension view p (err (period_error text)) = raise (period_error text)
  conclude_dimension view p (err (limit_error text)) = raise (limit_error text)
  conclude_dimension view p (err (value_error text)) = raise (value_error text)
  conclude_dimension view p (err (internal text)) = raise (internal text)

module _ {T F : Type 0} (setting : Setting T F) where
  open setting use {python, client, period_param, page_size}

  -- The probe, where the support of a dimension other than the user's is unknown.
  unfoldable pub probe : UsageView → Option DimensionState → Progress → Exec (World T) Progress
  unfolding remote fetch_fallback_fingerprint
  probe view (some d) p = pure p
  probe view none p =
      if same_view view UsageView.user then pure p else if p.fallback_probed then pure p else do
        fingerprint ← remote (fetch_fallback_fingerprint python client period_param page_size)
        pure (record p { fallback_fingerprint = fingerprint; fallback_probed = true })

  -- The body of the loop.
  unfoldable pub ingest_view : UsageView → Progress → Exec (World T) Progress
  unfolding probe ingest_dimension conclude_dimension
  ingest_view view p = do
    state ← gets (λ w. dimension_state w.db view)
    if is_ruled_out state
        then pure (
            add_dimension view (unsupported (elim state [ none ↦ none | some d ↦ d.last_error ])) []
              p)
        else (do
          q ← probe view state p
          let fingerprint = elim state as (λ _. Option (List String)) [
            | none ↦ q.fallback_fingerprint
            | some d ↦ none
          ]
          let body : Exec (World T) Progress = λ w.
              let (r, w') = ingest_dimension setting view fingerprint w in
              conclude_dimension view q r w'
          body)

  unfoldable pub ingest_views : List UsageView → Progress → Exec (World T) Progress
  unfolding ingest_view
  ingest_views [] p = pure p
  ingest_views (view ∷ views) p = do q ← ingest_view view p; ingest_views views q

module _ {T F : Type 0} (python : Python) (floats : Scores F) (client : Consumption T)
    (period_param : String) (page_size : ℕ) where
  abbrev empty_named : NamedIndex
  empty_named = record { by_id = []; by_name = [] }

  -- The indexes are built once, before the first request.
  unfoldable pub setting_of : Db → Setting T F
  unfolding build_user_index index_projects index_applications index_groups
  setting_of db = record {
    python = python;
    floats = floats;
    client = client;
    period_param = period_param;
    page_size = page_size;
    user_index = build_user_index python db;
    named = record {
      projects = index_projects python db.projects empty_named;
      applications = index_applications python db.applications empty_named;
      groups = index_groups python db.groups empty_named;
    };
  }

  unfoldable pub ingest_usage : Exec (World T) IngestResult
  unfolding setting_of ingest_views
  ingest_usage = do
    setting ← gets (λ w. setting_of w.db)
    p ← ingest_views setting default_views no_progress
    pure p.result
