-- ===== src/Consumption.antt =====
-- backend/app/checkmarx/usage.py: reading and parsing GET /api/credits/consumption. The endpoint
-- itself, with the decoding of JSON, and what the code uses of Python's text methods and of
-- `Decimal` are the interfaces `Consumption` and `Python`. Numbers of the body are not negative;
-- amounts are in ten-thousandths of a credit, as everywhere.
pub mod Pages
use Prim.Native.Char.{Char, code}
use Prim.Native.String
use v_cx_credit_guard.Prelude.{
  ℕ, zero, suc, ◌+◌, String, Bool, true, false, not, ◌&&◌, ◌||◌, Option, none, some, List, [], ◌∷◌,
  map, strip, str_eq, ltb, leb, ◌==◌, length, is_some, or_else, if◌then◌else◌,
}
use v_cx_credit_guard.Exec.{
  Exec, Result, ok, err, checkmarx, period_error, limit_error, value_error, fallback_detected,
  internal, pure, raise, ◌>>=◌,
}
use v_cx_credit_guard.Model.Enums.{UsageView}
use v_cx_credit_guard.Model.Usage.{Actions}
use v_cx_credit_guard.Checkmarx.{truthy}

-- A decoded JSON value.
mutual
  pub data Json : Type 0 where
    null : Json
    boolean : Bool → Json
    integer : ℕ → Json
    float : String → Json
    text : String → Json
    array : Items → Json
    object : Fields → Json

  pub data Items : Type 0 where
    empty_array : Items
    element : Json → Items → Items

  pub data Fields : Type 0 where
    empty_object : Fields
    member : String → Json → Fields → Fields

pub record Python : Type 0 where
  -- `str.lower` and `str.isalnum`
  pub lower : String → String
  pub is_alnum : Char → Bool
  -- `Decimal(str(value))`, or `none` where it raises
  pub decimal : Json → Option ℕ

-- GET /credits/consumption, by viewBy, period, page and size.
pub record Consumption (T : Type 0) : Type 0 where
  pub get_json : String → String → ℕ → ℕ → Exec T Json

abbrev pub max_pages : ℕ
max_pages = 500

abbrev pub fallback_probe_view : String
fallback_probe_view = "__cxcg_unsupported_probe__"

-- `str(view)`
unfoldable pub view_text : UsageView → String
view_text UsageView.user = "user"
view_text UsageView.action = "action"
view_text UsageView.application = "application"
view_text UsageView.project = "project"
view_text UsageView.group = "group"

-- `value.count(c)`
unfoldable pub count_char : ℕ → String → ℕ
count_char c String.[] = 0
count_char c (String.◌∷◌ d s) = let rest = count_char c s in if code d == c then suc rest else rest

-- `item.get(key)`; a decoded object has each key once.
unfoldable pub get : String → Fields → Option Json
get key empty_object = none
get key (member k v rest) = let found = get key rest in if str_eq k key then some v else found

-- `s.replace(old, "_")` for one character.
unfoldable pub underscored : ℕ → String → String
underscored old String.[] = ""
underscored old (String.◌∷◌ c s) =
    let rest = underscored old s in if code c == old then String.◌∷◌ "_" rest else String.◌∷◌ c rest

-- `s.replace("_", "")`
unfoldable pub without_underscores : String → String
without_underscores String.[] = ""
without_underscores (String.◌∷◌ c s) =
    let rest = without_underscores s in if code c == 95 then rest else String.◌∷◌ c rest

-- A dictionary of texts.
abbrev pub Dict : Type 0
Dict = List (String × String)

unfoldable pub lookup : String → Dict → Option String
lookup key [] = none
lookup key ((k, v) ∷ rest) = let found = lookup key rest in if str_eq k key then some v else found

-- _ACTION_ALIASES
abbrev pub action_aliases : Dict
action_aliases =
    ("triage", "triage")
    ∷ ("ai_triage", "triage")
    ∷ ("aitriage", "triage")
    ∷ ("auto_triage", "auto_triage")
    ∷ ("autotriage", "auto_triage")
    ∷ ("remediation", "remediation")
    ∷ ("ai_remediation", "remediation")
    ∷ ("airemediation", "remediation")
    ∷ ("dast_correlation", "dast_correlation")
    ∷ ("dastcorrelation", "dast_correlation")
    ∷ ("fusion", "fusion")
    ∷ ("fusion_scan", "fusion")
    ∷ ("fusionscan", "fusion")
    ∷ []

unfoldable pub looks_like_email : Option String → Bool
unfolding strip count_char
looks_like_email none = false
looks_like_email (some s) = (count_char 64 (strip s) == 1) && (count_char 32 (strip s) == 0)

-- One entity's consumption as reported.
pub record ParsedUsageItem : Type 0 where
  pub subject_key : String
  pub subject_name : Option String
  pub subject_email : Option String
  pub credits_used : ℕ
  pub transactions : Option ℕ
  pub actions : Actions
  pub reported_id : Option String

-- `raw` and `current_page` are read by no other code.
pub record ParsedUsagePage : Type 0 where
  pub items : List ParsedUsageItem
  pub total_items : Option ℕ
  pub total_pages : Option ℕ

abbrev pub no_page : ParsedUsagePage
no_page = record { items = []; total_items = none; total_pages = none }

-- The first key with a text that is not blank.
unfoldable pub first_string : Fields → List String → Option String
unfolding get strip
first_string fields [] = none
first_string fields (key ∷ keys) =
    let rest = first_string fields keys in
    elim (get key fields) [
      | none ↦ rest
      | some v ↦ elim v [ text s ↦ if str_eq (strip s) "" then rest else some (strip s) | _ ↦ rest ]
    ]

-- `value if isinstance(value, int)`; `True` and `False` are integers.
abbrev pub int_of : Option Json → Option ℕ
int_of (some (integer n)) = some n
int_of (some (boolean true)) = some 1
int_of (some (boolean false)) = some 0
int_of _ = none

-- `actions[action] = actions.get(action, 0) + count`
unfoldable pub count_action : String → ℕ → Actions → Actions
count_action action n [] = (action, n) ∷ []
count_action action n ((a, m) ∷ rest) =
    let more = count_action action n rest in
    if str_eq a action then (a, m + n) ∷ rest else (a, m) ∷ more

unfoldable pub looks_like_action_row : Fields → Bool
unfolding get
looks_like_action_row fields =
    is_some (get "actionType" fields) || is_some (get "transactionCount" fields)

module _ (python : Python) where
  unfoldable pub normalise_action_type : String → String
  unfolding strip underscored without_underscores lookup
  normalise_action_type raw =
      if str_eq raw ""
      then "unknown"
      else let key = underscored 32 (underscored 45 (python.lower (strip raw))) in
        or_else (lookup key action_aliases)
          (or_else (lookup (without_underscores key) action_aliases) key)

  -- `_to_decimal(item.get("creditsUsed", item.get("credits")))`
  unfoldable pub credits_of : Fields → ℕ
  unfolding get
  credits_of fields = elim (get "creditsUsed" fields) [
    | some v ↦ to_decimal v
    | none ↦ elim (get "credits" fields) [ some v ↦ to_decimal v | none ↦ 0 ]
  ]
    where
      to_decimal : Json → ℕ
      to_decimal null = 0
      to_decimal v = or_else (python.decimal v) 0

module _ {T : Type 0} (python : Python) where
  -- The argument of a nested entry: a value that is not a text has no `strip`, unless it is falsy.
  unfoldable pub action_type_of : Option Json → Exec T String
  unfolding normalise_action_type
  action_type_of (some (text s)) = pure (normalise_action_type python s)
  action_type_of none = pure "unknown"
  action_type_of (some null) = pure "unknown"
  action_type_of (some (boolean false)) = pure "unknown"
  action_type_of (some (integer zero)) = pure "unknown"
  action_type_of (some (array empty_array)) = pure "unknown"
  action_type_of (some (object empty_object)) = pure "unknown"
  action_type_of (some _) = raise (internal "the value has no attribute 'strip'")

  -- The loop over `performed["actions"]`; an entry that is no object is passed over.
  unfoldable pub read_actions : Items → Actions → Exec T Actions
  unfolding count_action
  read_actions empty_array actions = pure actions
  read_actions (element (object fields) entries) actions = do
    action ← action_type_of (get "actionType" fields)
    read_actions entries
        (count_action action (or_else (int_of (get "transactionCount" fields)) 0) actions)
  read_actions (element _ entries) actions = read_actions entries actions

  -- `actions` and `transactions` of a row.
  unfoldable pub read_performed : Fields → Exec T (Option ℕ × Actions)
  unfolding get looks_like_action_row first_string
  read_performed fields = elim (get "actionsPerformed" fields) [
    | none ↦ flat
    | some v ↦ elim v [
      | object performed ↦ do
        actions ← elim (get "actions" performed) [
          | none ↦ pure []
          | some list ↦ elim list [ array entries ↦ read_actions entries [] | _ ↦ pure [] ]
        ]
        pure (int_of (get "total" performed), actions)
      | _ ↦ flat
    ]
  ]
    where
      flat : Exec T (Option ℕ × Actions)
      flat =
          if looks_like_action_row fields
          then pure (
            none,
            (
              or_else
                  (elim (first_string fields ("actionType" ∷ "action" ∷ "name" ∷ [])) [
                    | none ↦ none
                    | some s ↦ some (normalise_action_type python s)
                  ])
                  "unknown",
              or_else (int_of (get "transactionCount" fields)) 0,
            )
                ∷ [],
          )
          else pure (none, [])

  -- `none` for a row with no identity.
  unfoldable pub parse_usage_item : Fields → Exec T (Option ParsedUsageItem)
  unfolding first_string looks_like_email strip
  parse_usage_item fields =
      let name = first_string fields ("name" ∷ "displayName" ∷ "userName" ∷ "username" ∷ []) in
      let found = first_string fields ("userEmail" ∷ "email" ∷ "userPrincipalName" ∷ []) in
      let reported_id =
        first_string fields ("id" ∷ "userId" ∷ "applicationId" ∷ "projectId" ∷ []) in
      let email : Option String = elim found [
        | some e ↦ some e
        | none ↦ if looks_like_email name then name else none
      ] in
      let subject_key = python.lower (
        strip (or_else (truthy email) (or_else (truthy name) (or_else (truthy reported_id) "")))) in
      if str_eq subject_key "" then pure none else do
        (transactions, actions) ← read_performed fields
        pure (
            some (record {
              subject_key = subject_key;
              subject_name = name;
              subject_email = email;
              credits_used = credits_of python fields;
              transactions = transactions;
              actions = actions;
              reported_id = reported_id;
            }))

  unfoldable pub parse_items : Items → Exec T (List ParsedUsageItem)
  unfolding parse_usage_item
  parse_items empty_array = pure []
  parse_items (element (object fields) entries) = do
    parsed ← parse_usage_item fields
    rest ← parse_items entries
    pure (elim parsed [ some i ↦ i ∷ rest | none ↦ rest ])
  parse_items (element _ entries) = parse_items entries

  unfoldable pub parse_usage_page : Json → Exec T ParsedUsagePage
  unfolding parse_items get
  parse_usage_page (array entries) = do
    items ← parse_items entries
    pure (record no_page { items = items })
  parse_usage_page (object fields) = do
    items ← elim (get "items" fields) [
      | none ↦ pure []
      | some v ↦ elim v [ array entries ↦ parse_items entries | _ ↦ pure [] ]
    ]
    pure (record {
      items = items;
      total_items = int_of (get "totalItems" fields);
      total_pages = int_of (get "totalPages" fields);
    })
  parse_usage_page _ = pure no_page

-- `fingerprint_page`: the subjects, as a set is compared below.
unfoldable pub fingerprint_page : ParsedUsagePage → List String
fingerprint_page page = map (λ (i : ParsedUsageItem). i.subject_key) page.items

-- One test of the loop for each page, and the one that ends it.
abbrev pub enough : ℕ
enough = suc max_pages

abbrev pub add_page :
    ParsedUsagePage → Option (List ParsedUsagePage) → Option (List ParsedUsagePage)
add_page page none = none
add_page page (some pages) = some (page ∷ pages)

module _ {T : Type 0} (python : Python) (client : Consumption T) (period : String)
    (page_size : ℕ) where
  -- Every exception of the request itself is inconclusive.
  unfoldable pub fetch_fallback_fingerprint : Exec T (Option (List String))
  unfolding parse_usage_page fingerprint_page
  fetch_fallback_fingerprint t =
      let (r, t') = client.get_json fallback_probe_view period 1 page_size t in
      elim r [ err e ↦ (ok none, t') | ok payload ↦ go payload t' ]
    where
      go : Json → Exec T (Option (List String))
      go payload = do page ← parse_usage_page python payload; pure (some (fingerprint_page page))

  -- Whether the page is the last one.
  unfoldable pub is_last : ParsedUsagePage → ℕ → Bool
  is_last page page_number = elim page.items [
    | [] ↦ true
    | _ ∷ _ ↦ elim page.total_pages [
      | some n ↦ leb n page_number
      | none ↦ ltb (length page.items) page_size
    ]
  ]

  -- The loop of `fetch_usage`, from `page_number` on; `none` where the fuel has run out.
  unfoldable pub fetch_pages : UsageView → ℕ → ℕ → Exec T (Option (List ParsedUsagePage))
  unfolding parse_usage_page view_text is_last
  fetch_pages view zero page_number = pure none
  fetch_pages view (suc fuel) page_number =
      let more = fetch_pages view fuel (suc page_number) in
      if leb page_number max_pages
      then (do
        payload ← client.get_json (view_text view) period page_number page_size
        page ← parse_usage_page python payload
        if is_last page page_number
            then pure (some (page ∷ []))
            else (do pages ← more; pure (add_page page pages)))
      else pure (some [])

  unfoldable pub fetch_usage : UsageView → Exec T (List ParsedUsagePage)
  unfolding fetch_pages
  fetch_usage view = do
    pages ← fetch_pages view enough 1
    elim pages [ some ps ↦ pure ps | none ↦ raise (internal "The fuel of the loop has run out.") ]
