-- ===== src/Consumption/Pages.antt =====
-- usage.py, `fetch_usage`: the pagination ends.
use v_cx_credit_guard.Prelude.{
  ℕ, zero, suc, ◌+◌, Option, ◌≤◌, ◌≡◌, leb, ltb, inl, inr, Bool, true, false, none, some, List, [],
  ◌∷◌, length, String, arith, Bool-cases,
}
use v_cx_credit_guard.Exec.{Exec, Result, ok, err, pure}
use v_cx_credit_guard.Exec.Contracts.{Post, Ensures, Ensures-bind}
use v_cx_credit_guard.Model.Enums.{UsageView}
use v_cx_credit_guard.Consumption

-- Every page before the last one has rows.
abbrev pub HasFullPages : List Consumption.ParsedUsagePage → Type 0
HasFullPages [] = Unit
HasFullPages (p ∷ []) = Unit
HasFullPages (p ∷ q ∷ pages) = (1 ≤ length p.items) × HasFullPages (q ∷ pages)

module _ {T : Type 0} (python : Consumption.Python) (client : Consumption.Consumption T)
    (period : String) (page_size : ℕ) where
  -- The loop has ended by itself, with at most `left` pages.
  abbrev pub IsPaged : ℕ → Option (List Consumption.ParsedUsagePage) → Type 0
  IsPaged left none = ⊥
  IsPaged left (some pages) = (length pages ≤ left) × HasFullPages pages

  abbrev Anything : T → Type 0
  Anything t = Unit

  always : {A : Type 0} (m : Exec T A) → Ensures Anything m (λ _. Anything) Anything
  always {A} m = record { at = λ s h. go (m s) }
    where
      go : (x : Result A × T) → Post {S = T} (λ (_ : A). Anything) Anything x
      go (ok a, s) = tt
      go (err e, s) = tt

  not_last-length :
      (p : Consumption.ParsedUsagePage) (n : ℕ)
      → Consumption.is_last python client period page_size p n ≡ false
      → 1 ≤ length p.items
  unfolding Consumption.is_last
  not_last-length p n e =
      go p.items (elim p.total_pages [ some m ↦ leb m n | none ↦ ltb (length p.items) page_size ]) e
    where
      go :
          (items : List Consumption.ParsedUsageItem) (b : Bool)
          → (elim items [ [] ↦ true | x ∷ xs ↦ b ]) ≡ false
          → 1 ≤ length items
      go [] b h = ground arith
      go (x ∷ xs) b h = omega arith

  full-∷ :
      (p : Consumption.ParsedUsagePage) (pages : List Consumption.ParsedUsagePage)
      → 1 ≤ length p.items
      → HasFullPages pages
      → HasFullPages (p ∷ pages)
  full-∷ p [] h hs = tt
  full-∷ p (q ∷ pages) h hs = (h, hs)

  pages-IsPaged :
      (view : UsageView) (fuel n left : ℕ)
      → suc Consumption.max_pages ≤ n + left
      → suc left ≤ fuel
      → Ensures Anything
          (Consumption.fetch_pages python client period page_size view fuel n)
          (λ pages _. IsPaged left pages)
          Anything
  unfolding Consumption.fetch_pages pure
  pages-IsPaged view zero n left last enough = ground arith
  pages-IsPaged view (suc fuel) n zero last enough =
      let over : leb n Consumption.max_pages ≡ false = ground arith in
      rw over (record { at = λ s h. (omega arith, tt) })
  pages-IsPaged view (suc fuel) n (suc left) last enough =
      let rest = pages-IsPaged view fuel (suc n) left (omega arith) (omega arith) in
      elim (Bool-cases (leb n Consumption.max_pages)) [
        | inr over ↦ rw over (record { at = λ s h. (omega arith, tt) })
        | inl within ↦ rw within (
            Ensures-bind (λ _. Anything) (always _)
              λ payload.
                Ensures-bind (λ _. Anything) (always _)
                  λ page.
                    elim (Bool-cases (Consumption.is_last python client period page_size page n)) [
                      | inl over ↦ rw over (record { at = λ s h. (omega arith, tt) })
                      | inr more ↦ rw more (
                          Ensures-bind (λ pages _. IsPaged left pages) rest
                            λ pages. record { at = λ s h. longer page left n pages more h })
                    ])
      ]
    where
      longer :
          (page : Consumption.ParsedUsagePage) (left n : ℕ)
          (pages : Option (List Consumption.ParsedUsagePage))
          → Consumption.is_last python client period page_size page n ≡ false
          → IsPaged left pages
          → IsPaged (suc left) (Consumption.add_page page pages)
      longer page left n none more h = h
      longer page left n (some ps) more h =
          (omega (arith, h.0), full-∷ page ps (not_last-length page n more) h.1)

  -- However the endpoint answers, the loop of `fetch_usage` ends by itself within the tests that the
  -- model gives it, and within any greater number of them: it raises, or it has read at most 500
  -- pages, of which all but the last one have rows.
  pub fetch_pages-IsPaged :
      (view : UsageView) (fuel : ℕ) (t : T)
      → Consumption.enough ≤ fuel
      → Post {S = T}
          (λ pages _. IsPaged Consumption.max_pages pages)
          (λ _. Unit)
          (Consumption.fetch_pages python client period page_size view fuel 1 t)
  fetch_pages-IsPaged view fuel t enough =
      (pages-IsPaged view fuel 1 Consumption.max_pages (omega arith) enough).at t tt
