-- ===== src/Ingestion/Attribution.antt =====
-- ingestion.py: merging the rows of a response, attributing them, and the rows under review.
use v_cx_credit_guard.Prelude.{
  ℕ, ◌+◌, String, Bool, true, false, not, ◌||◌, Option, none, some, List, [], ◌∷◌, slice_to, str_eq,
  or_else, if◌then◌else◌,
}
use v_cx_credit_guard.Model.Calendar.{DateTime}
use v_cx_credit_guard.Model.Enums.{
  EntityType, UsageView, MatchMethod, pinned, exact, fuzzy_auto, disputed, unmatched,
}
use v_cx_credit_guard.Model.Usage.{Actions, UnresolvedSubject}
use v_cx_credit_guard.Checkmarx.{is_in, truthy}
use v_cx_credit_guard.Consumption.{Python, ParsedUsageItem, ParsedUsagePage, lookup, count_action}
use v_cx_credit_guard.Matching.{Candidate, MatchOutcome}
use v_cx_credit_guard.Ingestion.Users.{NamedIndex, normalised}

-- SYNTHETIC_SUBJECTS
abbrev pub synthetic_subjects : List String
synthetic_subjects =
    "auto-triage" ∷ "auto triage" ∷ "autotriage" ∷ "auto_triage" ∷ "auto-remediation"
    ∷ "auto remediation" ∷ "system" ∷ []

unfoldable pub is_synthetic_subject : Python → String → Bool
unfolding normalised
is_synthetic_subject python key = is_in (normalised python key) synthetic_subjects

-- The result of one dimension; the snapshot's id is read by no other code.
pub record DimensionResult : Type 0 where
  pub supported : Bool
  pub records : ℕ
  pub total_credits : ℕ
  pub unresolved : ℕ
  pub auto_matched : ℕ
  pub disputed : ℕ
  pub automated : ℕ
  pub error : Option String

abbrev pub unsupported : Option String → DimensionResult
unsupported text = record {
  supported = false;
  records = 0;
  total_credits = 0;
  unresolved = 0;
  auto_matched = 0;
  disputed = 0;
  automated = 0;
  error = text;
}

-- `actions[action] = actions.get(action, 0) + count` for each action of the second row.
unfoldable pub add_actions : Actions → Actions → Actions
unfolding count_action
add_actions actions [] = actions
add_actions actions ((a, n) ∷ rest) = add_actions (count_action a n actions) rest

unfoldable pub combine : ParsedUsageItem → ParsedUsageItem → ParsedUsageItem
unfolding add_actions
combine a b = record a {
  credits_used = a.credits_used + b.credits_used;
  transactions = some (or_else a.transactions 0 + or_else b.transactions 0);
  actions = add_actions a.actions b.actions;
}

-- One row into `merged`, a dictionary by subject in the order of first occurrence.
unfoldable pub merge_item : ParsedUsageItem → List ParsedUsageItem → List ParsedUsageItem
unfolding combine
merge_item new [] = new ∷ []
merge_item new (old ∷ rest) =
    let more = merge_item new rest in
    if str_eq old.subject_key new.subject_key then combine old new ∷ rest else old ∷ more

unfoldable pub merge_items : List ParsedUsageItem → List ParsedUsageItem → List ParsedUsageItem
unfolding merge_item
merge_items merged [] = merged
merge_items merged (i ∷ items) = merge_items (merge_item i merged) items

unfoldable pub merge_pages : List ParsedUsageItem → List ParsedUsagePage → List ParsedUsageItem
unfolding merge_items
merge_pages merged [] = merged
merge_pages merged (p ∷ pages) = merge_pages (merge_items merged p.items) pages

-- The last page that reports a total.
unfoldable pub last_total : Option ℕ → List ParsedUsagePage → Option ℕ
last_total total [] = total
last_total total (p ∷ pages) =
    last_total (elim p.total_items [ none ↦ total | some n ↦ some n ]) pages

unfoldable pub match_named : Python → NamedIndex → ParsedUsageItem → Option String
unfolding lookup normalised
match_named python index i = elim (truthy i.reported_id) [
  | some id ↦ if is_in id index.by_id then some id else by_name
  | none ↦ by_name
]
  where
    by_name : Option String
    by_name = elim (truthy i.subject_name) [
      | none ↦ none
      | some name ↦ lookup (normalised python name) index.by_name
    ]

-- The lookup dictionaries of the dimensions other than the user's.
pub record NamedIndexes : Type 0 where
  pub projects : NamedIndex
  pub applications : NamedIndex
  pub groups : NamedIndex

-- `_attribute`; the user dimension is resolved by its caller.
unfoldable pub attribute :
    Python → NamedIndexes → UsageView → ParsedUsageItem → Option EntityType × Option String
unfolding match_named
attribute python named UsageView.application i =
    (some EntityType.application, match_named python named.applications i)
attribute python named UsageView.project i =
    (some EntityType.project, match_named python named.projects i)
attribute python named UsageView.group i =
    (some EntityType.group, match_named python named.groups i)
attribute python named UsageView.action i = (none, none)
attribute python named UsageView.user i = (none, none)

abbrev pub by_subject : String → UnresolvedSubject → Bool
by_subject key row = str_eq row.subject_key key

-- The counters of `_apply_user_outcome`.
unfoldable pub count_outcome : MatchMethod → Bool → DimensionResult → DimensionResult
count_outcome fuzzy_auto is_bot r = record r { auto_matched = r.auto_matched + 1 }
count_outcome disputed is_bot r = record r {
  disputed = r.disputed + 1;
  unresolved = r.unresolved + 1;
}
count_outcome unmatched true r = r
count_outcome unmatched false r = record r { unresolved = r.unresolved + 1 }
count_outcome pinned is_bot r = r
count_outcome exact is_bot r = r

abbrev is_auto : MatchMethod → Bool
is_auto fuzzy_auto = true
is_auto _ = false

module _ {F : Type 0} where
  unfoldable pub top_candidate : MatchOutcome F → Option (Candidate F)
  top_candidate o = elim o.candidates [ [] ↦ none | c ∷ rest ↦ some c ]

  -- `top.user_id if top else None`
  abbrev pub suggested : MatchOutcome F → Option String
  suggested o = elim (top_candidate o) [ none ↦ none | some c ↦ some c.user_id ]

  -- An automatic match that is new, or has another target than before.
  unfoldable pub is_newly_auto : MatchOutcome F → Option UnresolvedSubject → Bool
  unfolding top_candidate
  is_newly_auto o row =
      if is_auto o.method
      then elim (top_candidate o) [
        | none ↦ false
        | some top ↦ elim row [
          | none ↦ true
          | some r ↦
              not (is_auto r.status)
              || elim r.suggested_user_id [ none ↦ true | some u ↦ not (str_eq u top.user_id) ]
        ]
      ]
      else false

  -- The new row under review.
  unfoldable pub new_subject : DateTime → ParsedUsageItem → MatchOutcome F → UnresolvedSubject
  unfolding slice_to top_candidate
  new_subject now i o = record {
    subject_key = slice_to 320 i.subject_key;
    subject_name = i.subject_name;
    subject_email = i.subject_email;
    view_by = UsageView.user;
    credits_used = i.credits_used;
    first_seen_at = now;
    last_seen_at = now;
    times_seen = 1;
    mapped_user_id = none;
    status = o.method;
    is_bot = o.is_bot;
    suggested_user_id = suggested o;
  }

  -- The row as it is seen again.
  unfoldable pub seen_again :
      DateTime → ParsedUsageItem → MatchOutcome F → UnresolvedSubject → UnresolvedSubject
  unfolding top_candidate
  seen_again now i o row = record row {
    last_seen_at = now;
    times_seen = row.times_seen + 1;
    credits_used = i.credits_used;
    subject_email = elim (truthy row.subject_email) [
      | some e ↦ row.subject_email
      | none ↦ elim (truthy i.subject_email) [ some e ↦ some e | none ↦ row.subject_email ]
    ];
    status = o.method;
    is_bot = o.is_bot;
    suggested_user_id = suggested o;
  }
