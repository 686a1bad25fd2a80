-- ===== src/Matching.antt =====
-- backend/app/services/subject_matching.py: the fuzzy attribution of a reported subject to a user. A
-- frozenset of texts is its sorted list without repetitions. Floating point numbers, with
-- `SequenceMatcher(...).ratio()`, are the interface `Scores`.
pub mod Confident
use Prim.Native.Char.{Char, code}
use Prim.Native.String
use Prim.Native.String.{compare}
use text.Mathlib.Text.{is_lt}
use v_cx_credit_guard.Prelude.{
  ℕ, zero, suc, ◌+◌, ◌-◌, String, Bool, true, false, not, ◌&&◌, ◌||◌, Option, none, some, List, [],
  ◌∷◌, ◌++◌, concat, join, strip, str_eq, ltb, ◌==◌, select, length, if◌then◌else◌,
}
use v_cx_credit_guard.Model.Enums.{MatchMethod, pinned, exact, fuzzy_auto, disputed, unmatched}
use v_cx_credit_guard.Checkmarx.{is_in, truthy}
use v_cx_credit_guard.Consumption.{Python, count_char}
use v_cx_credit_guard.Enforcement.Perform.{sorted_set}

-- Python's floats, as far as the scores use them.
pub record Scores (F : Type 0) : Type 0 where
  -- `m / n` on integers; 0.85 is `divide 85 100`
  pub divide : ℕ → ℕ → F
  pub add : F → F → F
  pub subtract : F → F → F
  pub multiply : F → F → F
  pub less : F → F → Bool
  -- `SequenceMatcher(None, a, b).ratio()`
  pub sequence_ratio : String → String → F
  -- `str(round(score * 100))`
  pub percent : F → String

-- _PREFIX_TOKENS
abbrev pub prefix_tokens : List String
prefix_tokens = "cx" ∷ "svc" ∷ "srv" ∷ []

-- _BOT_NAMES
abbrev pub bot_names : List String
bot_names =
    "dependabot" ∷ "dependabot[bot]" ∷ "renovate" ∷ "renovate[bot]" ∷ "github-actions"
    ∷ "github-actions[bot]" ∷ "snyk-bot" ∷ "codecov" ∷ "codecov[bot]" ∷ "mergify" ∷ "mergify[bot]"
    ∷ "greenkeeper" ∷ []

abbrev pub max_suggestions : ℕ
max_suggestions = 5

pub record Candidate (F : Type 0) : Type 0 where
  pub user_id : String
  pub label : String
  pub score : F

pub record UserProfile : Type 0 where
  pub user_id : String
  pub label : String
  pub tokens : List String

pub record MatchOutcome (F : Type 0) : Type 0 where
  pub method : MatchMethod
  pub user_id : Option String
  pub candidates : List (Candidate F)
  pub is_bot : Bool

abbrev pub is_counted : MatchMethod → Bool
is_counted pinned = true
is_counted exact = true
is_counted fuzzy_auto = true
is_counted disputed = false
is_counted unmatched = false

-- The user this subject's credits count towards, if any.
unfoldable pub counted_user_id : {F : Type 0} → MatchOutcome F → Option String
counted_user_id o = if is_counted o.method then o.user_id else none

-- `text.split("@", 1)[0]`
unfoldable pub local_part : String → String
local_part String.[] = ""
local_part (String.◌∷◌ c s) =
    let rest = local_part s in if code c == 64 then "" else String.◌∷◌ c rest

unfoldable pub starts_with : String → String → Bool
starts_with String.[] s = true
starts_with (String.◌∷◌ c p) String.[] = false
starts_with (String.◌∷◌ c p) (String.◌∷◌ d s) =
    let rest = starts_with p s in if code c == code d then rest else false

-- `part in s`
unfoldable pub includes : String → String → Bool
unfolding starts_with
includes part String.[] = str_eq part ""
includes part (String.◌∷◌ c s) =
    let rest = includes part s in if starts_with part (String.◌∷◌ c s) then true else rest

-- A run that ends: `elif token: tokens.append(token)`.
abbrev pub close_run : String → List String → List String
close_run run tokens = if str_eq run "" then tokens else run ∷ tokens

-- Equality of two frozensets.
unfoldable pub same_tokens : List String → List String → Bool
same_tokens [] [] = true
same_tokens [] (y ∷ ys) = false
same_tokens (x ∷ xs) [] = false
same_tokens (x ∷ xs) (y ∷ ys) = let rest = same_tokens xs ys in if str_eq x y then rest else false

abbrev pub without_prefix : List String → List String
without_prefix [] = []
without_prefix (p ∷ parts) = if is_in p prefix_tokens then parts else p ∷ parts

-- `len(s) >= 2`
abbrev pub is_long : String → Bool
is_long String.[] = false
is_long (String.◌∷◌ c String.[]) = false
is_long (String.◌∷◌ c (String.◌∷◌ d s)) = true

module _ (python : Python) where
  -- The leading run of a text and the tokens after it.
  unfoldable pub runs : String → String × List String
  runs String.[] = ("", [])
  runs (String.◌∷◌ c s) =
      let (run, tokens) = runs s in
      if python.is_alnum c then (String.◌∷◌ c run, tokens) else ("", close_run run tokens)

  unfoldable pub split_tokens : String → List String
  unfolding runs strip count_char local_part
  split_tokens value =
      let lowered = python.lower (strip value) in
      let text =
        if (count_char 64 lowered == 1) && (count_char 32 lowered == 0)
        then local_part lowered
        else lowered in
      let (run, tokens) = runs text in close_run run tokens

  -- The tokens of every value that is not empty, before they become a set.
  unfoldable pub collect_tokens : List (Option String) → List String
  unfolding split_tokens
  collect_tokens [] = []
  collect_tokens (v ∷ values) =
      let rest = collect_tokens values in
      elim (truthy v) [
        | none ↦ rest
        | some value ↦ select is_long (without_prefix (split_tokens value)) ++ rest
      ]

  unfoldable pub tokenize : List (Option String) → List String
  unfolding collect_tokens sorted_set
  tokenize values = sorted_set (collect_tokens values)

  unfoldable pub is_bot_subject : List (Option String) → Bool
  unfolding strip includes local_part
  is_bot_subject [] = false
  is_bot_subject (v ∷ values) =
      let rest = is_bot_subject values in
      elim (truthy v) [
        | none ↦ rest
        | some value ↦
            let low = python.lower (strip value) in
            if includes "[bot]" low || is_in low bot_names || is_in (local_part low) bot_names
            then true
            else rest
      ]

module _ {F : Type 0} (floats : Scores F) where
  -- AUTO_MATCH_THRESHOLD, DISPUTE_THRESHOLD and AMBIGUITY_MARGIN
  abbrev pub auto_match_threshold : F
  auto_match_threshold = floats.divide 85 100

  abbrev pub dispute_threshold : F
  dispute_threshold = floats.divide 60 100

  abbrev pub ambiguity_margin : F
  ambiguity_margin = floats.divide 5 100

  -- `0.6 * overlap + 0.4 * jaccard`, or 0.0 for disjoint sets.
  unfoldable pub token_score : List String → List String → F
  token_score a b =
      let inter = length (select (λ t. is_in t b) a) in
      let smaller = if ltb (length b) (length a) then length b else length a in
      if inter == 0
      then floats.divide 0 1
      else floats.add (floats.multiply (floats.divide 6 10) (floats.divide inter smaller))
          (floats.multiply (floats.divide 4 10) (floats.divide inter (length a + length b - inter)))

  unfoldable pub similarity : List String → List String → F
  unfolding token_score same_tokens join
  similarity [] b = floats.divide 0 1
  similarity (x ∷ xs) [] = floats.divide 0 1
  similarity (x ∷ xs) (y ∷ ys) =
      if same_tokens (x ∷ xs) (y ∷ ys)
      then floats.divide 1 1
      else let score = token_score (x ∷ xs) (y ∷ ys) in
        let ratio = floats.sequence_ratio (join " " (x ∷ xs)) (join " " (y ∷ ys)) in
        if floats.less score ratio then ratio else score

  unfoldable pub scored : List String → UserProfile → Candidate F
  unfolding similarity
  scored tokens p = record {
    user_id = p.user_id;
    label = p.label;
    score = similarity tokens p.tokens;
  }

  unfoldable pub plausible : List String → List UserProfile → List (Candidate F)
  unfolding scored
  plausible tokens [] = []
  plausible tokens (p ∷ profiles) =
      let rest = plausible tokens profiles in
      let c = scored tokens p in if floats.less c.score dispute_threshold then rest else c ∷ rest

  -- The key `(-score, label)` of `c` is below that of `d`.
  unfoldable pub before : Candidate F → Candidate F → Bool
  before c d =
      if floats.less d.score c.score
      then true
      else if floats.less c.score d.score
      then false
      else is_lt (compare c.label d.label)

  unfoldable pub insert_candidate : Candidate F → List (Candidate F) → List (Candidate F)
  unfolding before
  insert_candidate c [] = c ∷ []
  insert_candidate c (d ∷ ds) =
      let rest = insert_candidate c ds in if before d c then d ∷ rest else c ∷ d ∷ ds

  -- A stable sort, as Python's.
  unfoldable pub sort_candidates : List (Candidate F) → List (Candidate F)
  unfolding insert_candidate
  sort_candidates [] = []
  sort_candidates (c ∷ cs) = insert_candidate c (sort_candidates cs)

  abbrev first : {A : Type 0} → ℕ → List A → List A
  first zero xs = []
  first (suc n) [] = []
  first (suc n) (x ∷ xs) = x ∷ first n xs

  unfoldable pub rank_candidates : List String → List UserProfile → List (Candidate F)
  unfolding plausible sort_candidates
  rank_candidates tokens profiles =
      first max_suggestions (sort_candidates (plausible tokens profiles))

  abbrev pub unattributed : Bool → MatchOutcome F
  unattributed is_bot = record {
    method = unmatched;
    user_id = none;
    candidates = [];
    is_bot = is_bot;
  }

  abbrev dispute : List (Candidate F) → MatchOutcome F
  dispute candidates = record {
    method = disputed;
    user_id = none;
    candidates = candidates;
    is_bot = false;
  }

  -- `len(candidates) > 1 and top.score - candidates[1].score < AMBIGUITY_MARGIN`
  abbrev is_tie : Candidate F → List (Candidate F) → Bool
  is_tie top [] = false
  is_tie top (second ∷ rest) = floats.less (floats.subtract top.score second.score) ambiguity_margin

  -- The end of `classify`, on the ranked candidates.
  unfoldable pub decide : List (Candidate F) → MatchOutcome F
  decide [] = unattributed false
  decide (top ∷ rest) =
      if floats.less top.score auto_match_threshold
      then dispute (top ∷ rest)
      else if is_tie top rest
      then dispute (top ∷ rest)
      else record {
        method = fuzzy_auto;
        user_id = some top.user_id;
        candidates = top ∷ rest;
        is_bot = false;
      }

  unfoldable pub classify :
      Python → String → Option String → Option String → List UserProfile → MatchOutcome F
  unfolding is_bot_subject tokenize rank_candidates decide
  classify python subject_key name email profiles =
      let values = some subject_key ∷ name ∷ email ∷ [] in
      let tokens = tokenize python values in
      if is_bot_subject python values then unattributed true else elim tokens [
        | [] ↦ unattributed false
        | t ∷ ts ↦ decide (rank_candidates (t ∷ ts) profiles)
      ]
