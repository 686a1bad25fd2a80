-- ===== src/Tests/Collected.antt =====
-- The theorems on the collection of usage at concrete answers.
use v_cx_credit_guard.Prelude.{
  ℕ, ◌≡◌, ◌*◌, ◌/◌, ◌+◌, ◌-◌, refl, true, false, none, some, [], ◌∷◌, ltb, arith, map, concat,
}
use v_cx_credit_guard.Exec.{ok, err, checkmarx, unavailable, fallback_detected, pure, raise, ◌>>=◌}
use v_cx_credit_guard.Exec.Contracts.{Post}
use v_cx_credit_guard.Model.Calendar.{earlier}
use v_cx_credit_guard.Model.Enums.{UsageView}
use v_cx_credit_guard.Usage.Reading.{latest_totals}
use v_cx_credit_guard.Consumption.{
  Python, Consumption, Json, integer, text, array, object, element, empty_array, member,
  empty_object, fetch_pages, ParsedUsageItem, ParsedUsagePage, fetch_usage, view_text,
  read_performed, credits_of,
}
use v_cx_credit_guard.Consumption.Pages.{IsPaged, fetch_pages-IsPaged}
use v_cx_credit_guard.Matching.{
  Scores, UserProfile, tokenize, is_bot_subject, counted_user_id, classify,
}
use v_cx_credit_guard.Matching.Confident.{IsOrder, IsBestMatch, classify-IsBestMatch}
use v_cx_credit_guard.Ingestion.Users.{no_index}
use v_cx_credit_guard.Ingestion.Attribution.{merge_pages}
use v_cx_credit_guard.Ingestion.Dimension.{Setting, ingest_dimension, is_fallback}
use v_cx_credit_guard.Ingestion.Run.{ingest_usage}
use v_cx_credit_guard.Ingestion.Emptied.{ingest_dimension-emptied}
use v_cx_credit_guard.Ingestion.Rejected.{ingest_dimension-rejects}
use v_cx_credit_guard.Ingestion.Pinned.{HasSameRules, ingest_usage-HasSameRules}
use v_cx_credit_guard.Tests.Fixtures.{Roles, november, fresh}

abbrev pub ascii : Python
ascii = record {
  lower = λ s. s;
  is_alnum = λ c. true;
  decimal = λ v. elim v [ integer n ↦ some n | _ ↦ none ];
}

-- Scores in hundredths.
abbrev pub hundredths : Scores ℕ
hundredths = record {
  divide = λ m n. m * 100 / n;
  add = λ a b. a + b;
  subtract = λ a b. a - b;
  multiply = λ a b. a * b / 100;
  less = ltb;
  sequence_ratio = λ a b. 0;
  percent = λ a. "p";
}

-- Ann used five and seven credits, in two rows.
abbrev ann_row : ℕ → Json
ann_row n = object (member "email" (text "ann") (member "creditsUsed" (integer n) empty_object))

abbrev pub answering : Consumption Roles
unfolding pure
answering = record {
  get_json =
      λ view period page size. pure (array (element (ann_row 5) (element (ann_row 7) empty_array)));
}

abbrev down : Consumption Roles
unfolding raise
down = record { get_json = λ view period page size. raise (checkmarx unavailable "down") }

abbrev setting_with : Consumption Roles → Setting Roles ℕ
setting_with client = record {
  python = ascii;
  floats = hundredths;
  client = client;
  period_param = "last_year";
  page_size = 100;
  user_index = no_index;
  named = record {
    projects = record { by_id = []; by_name = [] };
    applications = record { by_id = []; by_name = [] };
    groups = record { by_id = []; by_name = [] };
  };
}

abbrev ann_item : ℕ → ParsedUsageItem
ann_item n = record {
  subject_key = "ann";
  subject_name = none;
  subject_email = some "ann";
  credits_used = n;
  transactions = none;
  actions = [];
  reported_id = none;
}

abbrev ann_page : ParsedUsagePage
ann_page = record { items = ann_item 5 ∷ ann_item 7 ∷ []; total_items = none; total_pages = none }

fetched :
    fetch_usage ascii answering "last_year" 100 UsageView.user fresh.tenant
    ≡ (ok (ann_page ∷ []), fresh.tenant)
unfolding fetch_usage ◌>>=◌ read_performed credits_of
fetched = refl

refused :
    fetch_usage ascii down "last_year" 100 UsageView.user fresh.tenant
    ≡ (err (checkmarx unavailable "down"), fresh.tenant)
unfolding fetch_usage ◌>>=◌
refused = refl

now_again : earlier november november ≡ false
unfolding earlier
now_again = refl

-- Ann's five credits of the earlier snapshot are not read any more.
ingest_dimension-emptied_example :
    let result = ingest_dimension (setting_with down) UsageView.user none fresh in
    (result.0 ≡ err (checkmarx unavailable "down"))
    × (result.1.records ≡ fresh.records)
    × (latest_totals result.1.db UsageView.user ≡ [])
ingest_dimension-emptied_example =
    ingest_dimension-emptied (setting_with down) UsageView.user none fresh
      (checkmarx unavailable "down") fresh.tenant ((now_again, omega arith), tt) (omega arith, tt)
      refused

ingest_usage-HasSameRules_example :
    HasSameRules fresh.db (ingest_usage ascii hundredths answering "last_year" 100 fresh).1
ingest_usage-HasSameRules_example =
    ingest_usage-HasSameRules ascii hundredths answering "last_year" 100 fresh

is_probe :
    is_fallback
      (some ("ann" ∷ []))
      (map (λ (i : ParsedUsageItem). i.subject_key) (merge_pages [] (ann_page ∷ [])))
    ≡ true
unfolding is_fallback merge_pages
is_probe = refl

ingest_dimension-rejects_example :
    let (result, after) =
      ingest_dimension (setting_with answering) UsageView.user (some ("ann" ∷ [])) fresh in
    (result
      ≡ err (
          fallback_detected (
            concat (
              "viewBy="
              ∷ view_text UsageView.user
              ∷ " returned the same subjects as an unrecognised viewBy value, so the endpoint silently fell back to the user dimension."
              ∷ []))))
    × (after.snapshots ≡ fresh.snapshots)
    × (after.records ≡ fresh.records)
    × (after.unresolved ≡ fresh.unresolved)
    × (after.audit_log ≡ fresh.audit_log)
ingest_dimension-rejects_example =
    ingest_dimension-rejects (setting_with answering) UsageView.user (some ("ann" ∷ [])) fresh
      (ann_page ∷ []) fresh.tenant (omega arith, tt) fetched is_probe

abbrev ann_profile : UserProfile
ann_profile = record { user_id = "u1"; label = "ann"; tokens = "ann" ∷ [] }

hundredths-IsOrder : IsOrder hundredths
hundredths-IsOrder = record {
  asymmetric = λ a b e. ground arith;
  transitive = λ a b c e f. ground arith;
  thresholds = refl;
}

matched : counted_user_id (classify hundredths ascii "ann" none none (ann_profile ∷ [])) ≡ some "u1"
unfolding counted_user_id classify
matched = refl

classify-IsBestMatch_example :
    (is_bot_subject ascii (some "ann" ∷ none ∷ none ∷ []) ≡ false)
    × IsBestMatch hundredths
        (tokenize ascii (some "ann" ∷ none ∷ none ∷ []))
        (ann_profile ∷ [])
        "u1"
classify-IsBestMatch_example =
    classify-IsBestMatch hundredths hundredths-IsOrder ascii "ann" none none (ann_profile ∷ []) "u1"
      matched

fetch_pages-IsPaged_example :
    Post {S = Roles}
      (λ pages _. IsPaged ascii answering "last_year" 100 500 pages)
      (λ _. Unit)
      (fetch_pages ascii answering "last_year" 100 UsageView.user 600 1 fresh.tenant)
fetch_pages-IsPaged_example =
    fetch_pages-IsPaged ascii answering "last_year" 100 UsageView.user 600 fresh.tenant
      (omega arith)
