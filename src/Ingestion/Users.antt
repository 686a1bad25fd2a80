-- ===== src/Ingestion/Users.antt =====
-- ingestion.py, `UserIndex` and `build_user_index`: the identifiers of the synced users, and the
-- ladder of matches over them.
use v_cx_credit_guard.Prelude.{
  String, Bool, false, not, Option, none, some, List, [], ◌∷◌, ◌++◌, strip, str_eq, select, is_some,
  if◌then◌else◌,
}
use v_cx_credit_guard.Model.Enums.{pinned, exact}
use v_cx_credit_guard.Model.Org.{CxUser, CxGroup, CxApplication, CxProject}
use v_cx_credit_guard.Model.Usage.{UnresolvedSubject}
use v_cx_credit_guard.Model.Database.{Db}
use v_cx_credit_guard.Checkmarx.{is_in, truthy}
use v_cx_credit_guard.Enforcement.Plan.{full_name, display_name}
use v_cx_credit_guard.Consumption.{Python, Dict, lookup, looks_like_email}
use v_cx_credit_guard.Matching.{Scores, UserProfile, MatchOutcome, tokenize, classify}

-- `d[key] = value`
unfoldable pub assign : String → String → Dict → Dict
assign key v [] = (key, v) ∷ []
assign key v ((k, x) ∷ rest) =
    let more = assign key v rest in if str_eq k key then (k, v) ∷ rest else (k, x) ∷ more

-- `d.setdefault(key, value)`
unfoldable pub set_default : String → String → Dict → Dict
unfolding lookup
set_default key v d = if is_some (lookup key d) then d else d ++ (key, v) ∷ []

-- `d.pop(key, None)`
unfoldable pub pop : String → Dict → Dict
pop key [] = []
pop key ((k, v) ∷ rest) = let more = pop key rest in if str_eq k key then more else (k, v) ∷ more

abbrev pub pop_all : List String → Dict → Dict
pop_all [] d = d
pop_all (key ∷ keys) d = pop_all keys (pop key d)

pub record UserIndex : Type 0 where
  pub by_email : Dict
  pub by_username : Dict
  pub by_full_name : Dict
  pub ambiguous_full_names : List String
  pub pinned : Dict
  pub profiles : List UserProfile

abbrev pub no_index : UserIndex
no_index = record {
  by_email = [];
  by_username = [];
  by_full_name = [];
  ambiguous_full_names = [];
  pinned = [];
  profiles = [];
}

-- `if row.mapped_user_id`, over the rows where it is not NULL.
unfoldable pub pins : List UnresolvedSubject → Dict → Dict
unfolding assign
pins [] d = d
pins (row ∷ rows) d =
    pins rows (elim (truthy row.mapped_user_id) [ none ↦ d | some u ↦ assign row.subject_key u d ])

module _ (python : Python) where
  -- `value.strip().lower()`
  unfoldable pub normalised : String → String
  unfolding strip
  normalised s = python.lower (strip s)

  unfoldable pub index_email : CxUser → UserIndex → UserIndex
  unfolding assign normalised
  index_email u index = elim (truthy u.email) [
    | none ↦ index
    | some email ↦ record index { by_email = assign (normalised email) u.id index.by_email }
  ]

  unfoldable pub index_username : CxUser → UserIndex → UserIndex
  unfolding assign set_default normalised looks_like_email
  index_username u index = elim (truthy u.username) [
    | none ↦ index
    | some username ↦ record index {
      by_username = assign (normalised username) u.id index.by_username;
      by_email =
          if looks_like_email (some username)
          then set_default (normalised username) u.id index.by_email
          else index.by_email;
    }
  ]

  -- `key in by_full_name and by_full_name[key] != user.id`
  unfoldable pub belongs_to_other : String → String → Dict → Bool
  unfolding lookup
  belongs_to_other key id d = elim (lookup key d) [
    | none ↦ false
    | some other ↦ not (str_eq other id)
  ]

  unfoldable pub index_full_name : CxUser → UserIndex → UserIndex
  unfolding assign full_name belongs_to_other
  index_full_name u index =
      let key = python.lower (full_name u) in
      if str_eq (full_name u) "" then index else record index {
        ambiguous_full_names =
            if belongs_to_other key u.id index.by_full_name
            then key ∷ index.ambiguous_full_names
            else index.ambiguous_full_names;
        by_full_name = assign key u.id index.by_full_name;
      }

  unfoldable pub index_profile : CxUser → UserIndex → UserIndex
  unfolding full_name tokenize display_name
  index_profile u index =
      elim (tokenize python
        (some (full_name u) ∷ u.email ∷ u.username ∷ u.first_name ∷ u.last_name ∷ [])) [
          | [] ↦ index
          | t ∷ ts ↦ record index {
            profiles =
                index.profiles
                ++ record { user_id = u.id; label = display_name u; tokens = t ∷ ts } ∷ [];
          }
        ]

  unfoldable pub index_users : List CxUser → UserIndex → UserIndex
  unfolding index_email index_username index_full_name index_profile
  index_users [] index = index
  index_users (u ∷ users) index =
      index_users users
        (index_profile u (index_full_name u (index_username u (index_email u index))))

  unfoldable pub build_user_index : Db → UserIndex
  unfolding index_users pop pins
  build_user_index db =
      let index = index_users (select (λ (u : CxUser). not u.is_deleted) db.users) no_index in
      record index {
        by_full_name = pop_all index.ambiguous_full_names index.by_full_name;
        pinned = pins db.unresolved [];
      }

  -- The first candidate address that a user is known by.
  unfoldable pub by_address : Dict → List (Option String) → Option String
  unfolding lookup normalised looks_like_email
  by_address d [] = none
  by_address d (c ∷ candidates) =
      let rest = by_address d candidates in
      elim (truthy c) [
        | none ↦ rest
        | some value ↦
            if looks_like_email (some value)
            then elim (truthy (lookup (normalised value) d)) [ some u ↦ some u | none ↦ rest ]
            else rest
      ]

  -- `_resolve_exact`: email, then username, then unambiguous name.
  unfoldable pub resolve_exact : UserIndex → Option String → Option String → Option String
  unfolding by_address lookup normalised
  resolve_exact index name email = elim (by_address index.by_email (email ∷ name ∷ [])) [
    | some u ↦ some u
    | none ↦ elim (truthy name) [
      | none ↦ none
      | some n ↦ elim (truthy (lookup (normalised n) index.by_username)) [
        | some u ↦ some u
        | none ↦
            if is_in (normalised n) index.ambiguous_full_names
            then none
            else truthy (lookup (normalised n) index.by_full_name)
      ]
    ]
  ]

  -- Pin, then exact ladder, then fuzzy triage.
  unfoldable pub resolve_detailed :
      {F : Type 0} → Scores F → UserIndex → String → Option String → Option String → MatchOutcome F
  unfolding resolve_exact lookup classify
  resolve_detailed floats index subject_key name email =
      elim (truthy (lookup subject_key index.pinned)) [
        | some u ↦ record { method = pinned; user_id = some u; candidates = []; is_bot = false }
        | none ↦ elim (resolve_exact index name email) [
          | some u ↦ record { method = exact; user_id = some u; candidates = []; is_bot = false }
          | none ↦ classify floats python subject_key name email index.profiles
        ]
      ]

-- `_named_index`: by id, and by lowercased name.
pub record NamedIndex : Type 0 where
  pub by_id : List String
  pub by_name : Dict

module _ (python : Python) where
  -- One row of the loop.
  abbrev pub index_row : String → String → NamedIndex → NamedIndex
  index_row id name index = record {
    by_id = id ∷ index.by_id;
    by_name =
        if str_eq name ""
        then index.by_name
        else set_default (normalised python name) id index.by_name;
  }

  unfoldable pub index_projects : List CxProject → NamedIndex → NamedIndex
  unfolding set_default normalised
  index_projects [] index = index
  index_projects (p ∷ rows) index =
      index_projects rows (if p.is_deleted then index else index_row p.id p.name index)

  unfoldable pub index_applications : List CxApplication → NamedIndex → NamedIndex
  unfolding set_default normalised
  index_applications [] index = index
  index_applications (a ∷ rows) index =
      index_applications rows (if a.is_deleted then index else index_row a.id a.name index)

  unfoldable pub index_groups : List CxGroup → NamedIndex → NamedIndex
  unfolding set_default normalised
  index_groups [] index = index
  index_groups (g ∷ rows) index =
      index_groups rows (if g.is_deleted then index else index_row g.id g.name index)
