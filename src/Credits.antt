-- ===== src/Credits.antt =====
-- backend/app/checkmarx/credits.py: the tenant's pool of credits, from GET /api/credits/info, and
-- the step of services/cycle.py that stores it. The request is a field of `Pool`.
use v_cx_credit_guard.Prelude.{
  ℕ, ◌+◌, ◌-◌, String, Bool, true, false, ◌&&◌, ◌||◌, Option, none, some, List, [], ◌∷◌, ◌++◌, ◌==◌,
  is_some, if◌then◌else◌,
}
use v_cx_credit_guard.Exec.{Exec, ok, err, pure, gets, modify, ◌>>=◌}
use v_cx_credit_guard.Model.Usage.{CreditBalanceSnapshot}
use v_cx_credit_guard.Model.Database.{World}
use v_cx_credit_guard.Checkmarx.{remote}
use v_cx_credit_guard.Consumption.{Json, null, boolean, object, Fields, Python, get}
use v_cx_credit_guard.Retention.{latest_balance}

-- GET /credits/info
pub record Pool (T : Type 0) : Type 0 where
  pub get_info : Exec T Json

-- `raw` is left out.
pub record CreditBalance : Type 0 where
  pub total : Option ℕ
  pub used : Option ℕ
  pub available : Option ℕ

abbrev total_keys : List String
total_keys = "totalCredits" ∷ "total" ∷ "granted" ∷ "grantedCredits" ∷ "limit" ∷ "quota" ∷ []

abbrev used_keys : List String
used_keys = "usedCredits" ∷ "used" ∷ "consumed" ∷ "consumedCredits" ∷ "spent" ∷ []

abbrev available_keys : List String
available_keys =
    "availableCredits" ∷ "available" ∷ "remaining" ∷ "remainingCredits" ∷ "balance" ∷ []

unfoldable pub has_values : CreditBalance → Bool
has_values b = is_some b.total || is_some b.used || is_some b.available

-- `any(key in payload for key in keys)`
unfoldable pub has_any : List String → Fields → Bool
unfolding get
has_any [] fields = false
has_any (key ∷ keys) fields = is_some (get key fields) || has_any keys fields

-- `Decimal("0")` where the difference is negative.
abbrev less_used : ℕ → ℕ → ℕ
less_used total used = total - used

module _ (python : Python) where
  -- `_coerce`: a figure that cannot be read is unknown, never zero.
  unfoldable pub coerce : Json → Option ℕ
  coerce null = none
  coerce (boolean b) = none
  coerce value = python.decimal value

  -- `_first`
  unfoldable pub first_figure : Fields → List String → Option ℕ
  unfolding coerce get
  first_figure payload [] = none
  first_figure payload (key ∷ keys) =
      let rest = first_figure payload keys in
      elim (get key payload) [
        | none ↦ rest
        | some v ↦ elim (coerce v) [ none ↦ rest | some n ↦ some n ]
      ]

  -- The object that carries the figures: the body, or the first envelope with a known key.
  unfoldable pub source_of : Fields → List String → Fields
  unfolding has_any get
  source_of payload [] = payload
  source_of payload (key ∷ envelopes) =
      let rest = source_of payload envelopes in
      elim (get key payload) [
        | none ↦ rest
        | some v ↦ elim v [
          | object inner ↦
              if has_any (total_keys ++ used_keys ++ available_keys) inner then inner else rest
          | _ ↦ rest
        ]
      ]

  -- The third figure from the other two.
  unfoldable pub complete : CreditBalance → CreditBalance
  complete b = elim b.total [
    | none ↦ b
    | some t ↦ elim b.available [
      | none ↦ elim b.used [ none ↦ b | some u ↦ record b { available = some (less_used t u) } ]
      | some a ↦ elim b.used [ none ↦ record b { used = some (less_used t a) } | some u ↦ b ]
    ]
  ]

  unfoldable pub parse_credit_balance : Json → Option CreditBalance
  unfolding has_any source_of first_figure complete
  parse_credit_balance (object payload) =
      let source =
        if has_any (total_keys ++ used_keys ++ available_keys) payload
        then payload
        else source_of payload ("credits" ∷ "data" ∷ "result" ∷ []) in
      some (
        complete (record {
          total = first_figure source total_keys;
          used = first_figure source used_keys;
          available = first_figure source available_keys;
        }))
  parse_credit_balance _ = none

module _ {T : Type 0} (python : Python) (pool : Pool T) where
  -- `none` where the call or the parse fails.
  unfoldable pub fetch_credit_balance : Exec T (Option CreditBalance)
  unfolding parse_credit_balance
  fetch_credit_balance t =
      let (r, t') = pool.get_info t in
      elim r [ ok payload ↦ (ok (parse_credit_balance python payload), t') | err e ↦ (ok none, t') ]

  abbrev same_figure : Option ℕ → Option ℕ → Bool
  same_figure none none = true
  same_figure none (some n) = false
  same_figure (some m) none = false
  same_figure (some m) (some n) = m == n

  -- `unchanged`
  unfoldable pub is_unchanged : Option CreditBalanceSnapshot → CreditBalance → Bool
  is_unchanged none b = false
  is_unchanged (some latest) b =
      same_figure latest.total_credits b.total
      && same_figure latest.used_credits b.used
      && same_figure latest.available_credits b.available

  unfoldable pub add_balance : CreditBalance → World T → World T
  add_balance b w = record w {
    db = record w.db {
      next_id = w.next_id + 1;
      balances =
          w.balances
          ++ record {
            id = w.next_id;
            collected_at = w.now;
            total_credits = b.total;
            used_credits = b.used;
            available_credits = b.available;
          }
            ∷ [];
    };
  }

  -- Step 2b of the cycle: a row is added only when the balance changed.
  unfoldable pub store_balance : Exec (World T) Unit
  unfolding fetch_credit_balance has_values is_unchanged add_balance latest_balance remote
  store_balance = do
    balance ← remote fetch_credit_balance
    latest ← gets (λ w. latest_balance none w.balances)
    elim balance [
      | none ↦ pure tt
      | some b ↦
          if has_values b
          then (if is_unchanged latest b then pure tt else modify (add_balance b))
          else pure tt
    ]
