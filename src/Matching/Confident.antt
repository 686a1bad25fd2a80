-- ===== src/Matching/Confident.antt =====
-- subject_matching.py: whom the credits of a fuzzy match count towards.
use v_cx_credit_guard.Prelude.{
  ◌≡◌, ◌⊎◌, inl, inr, refl, sym, ap, ◌∙◌, String, true, false, Option, some, List, [], ◌∷◌, All,
  Bool-cases,
}
use mathlib.Core.Path.{subst}
use v_cx_credit_guard.Consumption.{Python}
use v_cx_credit_guard.Matching.{
  Scores, Candidate, UserProfile, counted_user_id, tokenize, is_bot_subject, similarity, scored,
  plausible, before, insert_candidate, sort_candidates, first, rank_candidates, decide, classify,
  is_tie, auto_match_threshold, dispute_threshold, max_suggestions, unattributed,
}

abbrev pub Among : UserProfile → List UserProfile → Type 0
Among p [] = ⊥
Among p (q ∷ profiles) = (q ≡ p) ⊎ Among p profiles

-- What `<` of floats that are numbers does, and `0.6 < 0.85`.
pub record IsOrder {F : Type 0} (floats : Scores F) : Type 0 where
  pub asymmetric : (a b : F) → floats.less a b ≡ true → floats.less b a ≡ false
  pub transitive :
      (a b c : F) → floats.less a b ≡ false → floats.less b c ≡ false → floats.less a c ≡ false
  pub thresholds : floats.less (auto_match_threshold floats) (dispute_threshold floats) ≡ false

module _ {F : Type 0} (floats : Scores F) (tokens : List String) where
  abbrev pub score_of : UserProfile → F
  score_of p = similarity floats tokens p.tokens

  -- The matched user: one of the profiles, with a confident score that no other profile beats.
  abbrev pub IsBestMatch : List UserProfile → String → Type 0
  IsBestMatch profiles u =
      (p : UserProfile) × Among p profiles
      × (p.user_id ≡ u)
      × (floats.less (score_of p) (auto_match_threshold floats) ≡ false)
      × All (λ q. floats.less (score_of p) (score_of q) ≡ false) profiles

module _ {F : Type 0} (floats : Scores F) (order : IsOrder floats) (tokens : List String) where
  All-insert :
      (P : Candidate F → Type 0) (c : Candidate F) (cs : List (Candidate F))
      → P c
      → All P cs
      → All P (insert_candidate floats c cs)
  unfolding insert_candidate
  All-insert P c [] p h = (p, tt)
  All-insert P c (d ∷ ds) p h = elim (Bool-cases (before floats d c)) [
    | inl later ↦ rw later (h.0, All-insert P c ds p h.1)
    | inr now ↦ rw now (p, h)
  ]

  insert-All :
      (P : Candidate F → Type 0) (c : Candidate F) (cs : List (Candidate F))
      → All P (insert_candidate floats c cs)
      → P c × All P cs
  unfolding insert_candidate
  insert-All P c [] h = h
  insert-All P c (d ∷ ds) h = elim (Bool-cases (before floats d c)) [
    | inl later ↦
        let g = rw later at h in let (own, rest) = insert-All P c ds g.1 in (own, (g.0, rest))
    | inr now ↦ rw now at h
  ]

  All-sort :
      (P : Candidate F → Type 0) (cs : List (Candidate F))
      → All P cs
      → All P (sort_candidates floats cs)
  unfolding sort_candidates
  All-sort P [] h = tt
  All-sort P (c ∷ cs) h = All-insert P c (sort_candidates floats cs) h.0 (All-sort P cs h.1)

  sort-All :
      (P : Candidate F → Type 0) (cs : List (Candidate F))
      → All P (sort_candidates floats cs)
      → All P cs
  unfolding sort_candidates
  sort-All P [] h = tt
  sort-All P (c ∷ cs) h =
      let (own, rest) = insert-All P c (sort_candidates floats cs) h in (own, sort-All P cs rest)

  irreflexive : (a : F) → floats.less a a ≡ false
  irreflexive a = elim (Bool-cases (floats.less a a)) [
    | inl less_self ↦ order.asymmetric a a less_self
    | inr level ↦ level
  ]

  -- No candidate of the list has a higher score than `c`.
  abbrev IsBound : Candidate F → List (Candidate F) → Type 0
  IsBound c cs = All (λ (d : Candidate F). floats.less c.score d.score ≡ false) cs

  abbrev HasBestFirst : List (Candidate F) → Type 0
  HasBestFirst [] = Unit
  HasBestFirst (c ∷ cs) = IsBound c cs

  before-less : (d c : Candidate F) → before floats d c ≡ true → floats.less d.score c.score ≡ false
  unfolding before
  before-less d c e = elim (Bool-cases (floats.less c.score d.score)) [
    | inl worse ↦ order.asymmetric c.score d.score worse
    | inr other ↦ elim (Bool-cases (floats.less d.score c.score)) [
      | inl better ↦ cc (rw (other, better) at e)
      | inr level ↦ level
    ]
  ]

  not_before-less :
      (d c : Candidate F) → before floats d c ≡ false → floats.less c.score d.score ≡ false
  unfolding before
  not_before-less d c e = elim (Bool-cases (floats.less c.score d.score)) [
    | inl worse ↦ cc (rw worse at e)
    | inr level ↦ level
  ]

  IsBound-through :
      (c d : Candidate F) (ds : List (Candidate F))
      → floats.less c.score d.score ≡ false
      → IsBound d ds
      → IsBound c ds
  IsBound-through c d [] e h = tt
  IsBound-through c d (x ∷ ds) e h =
      (order.transitive c.score d.score x.score e h.0, IsBound-through c d ds e h.1)

  insert-HasBestFirst :
      (c : Candidate F) (cs : List (Candidate F))
      → HasBestFirst cs
      → HasBestFirst (insert_candidate floats c cs)
  unfolding insert_candidate
  insert-HasBestFirst c [] h = tt
  insert-HasBestFirst c (d ∷ ds) h = elim (Bool-cases (before floats d c)) [
    | inl later ↦ rw later (All-insert _ c ds (before-less d c later) h)
    | inr now ↦ rw now (not_before-less d c now, IsBound-through c d ds (not_before-less d c now) h)
  ]

  sort-HasBestFirst : (cs : List (Candidate F)) → HasBestFirst (sort_candidates floats cs)
  unfolding sort_candidates
  sort-HasBestFirst [] = tt
  sort-HasBestFirst (c ∷ cs) =
      insert-HasBestFirst c (sort_candidates floats cs) (sort-HasBestFirst cs)

  -- The score of one of these profiles.
  abbrev IsScored : List UserProfile → Candidate F → Type 0
  IsScored profiles c = (p : UserProfile) × Among p profiles × (c ≡ scored floats tokens p)

  plausible-IsScored :
      (all profiles : List UserProfile)
      → ((p : UserProfile) → Among p profiles → Among p all)
      → All (IsScored all) (plausible floats tokens profiles)
  unfolding plausible
  plausible-IsScored all [] f = tt
  plausible-IsScored all (p ∷ profiles) f =
      let rest = plausible-IsScored all profiles (λ q m. f q (inr m)) in
      elim (Bool-cases (floats.less (scored floats tokens p).score (dispute_threshold floats))) [
        | inl low ↦ rw low rest
        | inr high ↦ rw high ((p, f p (inl refl), refl), rest)
      ]

  bound_every :
      (x : F) (profiles : List UserProfile)
      → floats.less x (dispute_threshold floats) ≡ false
      → All (λ (d : Candidate F). floats.less x d.score ≡ false) (plausible floats tokens profiles)
      → All (λ q. floats.less x (score_of floats tokens q) ≡ false) profiles
  unfolding plausible scored
  bound_every x [] low h = tt
  bound_every x (p ∷ profiles) low h =
      elim (Bool-cases (floats.less (score_of floats tokens p) (dispute_threshold floats))) [
        | inl poor ↦
            let rest = rw poor at h in
            (
              order.transitive x (dispute_threshold floats) (score_of floats tokens p) low
                  (order.asymmetric (score_of floats tokens p) (dispute_threshold floats) poor),
              bound_every x profiles low rest,
            )
        | inr fair ↦ let both = rw fair at h in (both.0, bound_every x profiles low both.1)
      ]

  decide-top :
      (top : Candidate F) (rest : List (Candidate F)) (u : String)
      → counted_user_id (decide floats (top ∷ rest)) ≡ some u
      → (top.user_id ≡ u) × (floats.less top.score (auto_match_threshold floats) ≡ false)
  unfolding decide counted_user_id
  decide-top top rest u e =
      elim (Bool-cases (floats.less top.score (auto_match_threshold floats))) [
        | inl low ↦ cc (rw low at e)
        | inr high ↦ elim (Bool-cases (is_tie floats top rest)) [
          | inl tie ↦ cc (rw (high, tie) at e)
          | inr clear ↦ let e' = rw (high, clear) at e in (cc (e'), high)
        ]
      ]

  ranked-IsBestMatch :
      (profiles : List UserProfile) (ranked : List (Candidate F)) (u : String)
      → HasBestFirst ranked
      → All (IsScored profiles) ranked
      → ((c : Candidate F)
          → IsBound c ranked
          → All
              (λ (d : Candidate F). floats.less c.score d.score ≡ false)
              (plausible floats tokens profiles))
      → counted_user_id (decide floats (first floats max_suggestions ranked)) ≡ some u
      → IsBestMatch floats tokens profiles u
  unfolding decide counted_user_id scored
  ranked-IsBestMatch profiles [] u best are back e = cc (e)
  ranked-IsBestMatch profiles (c ∷ cs) u best are back e =
      let (own, high) = decide-top c (first floats 4 cs) u e in
      let (p, here, is) = are.0 in
      let same : c.score ≡ score_of floats tokens p = ap (λ (d : Candidate F). d.score) is in
      let low =
        order.transitive c.score (auto_match_threshold floats) (dispute_threshold floats) high
          order.thresholds in
      let bound = bound_every c.score profiles low (back c (irreflexive c.score, best)) in
      (
        p,
        here,
        sym (ap (λ (d : Candidate F). d.user_id) is) ∙ own,
        rw (sym same) high,
        subst (λ x. All (λ q. floats.less x (score_of floats tokens q) ≡ false) profiles) same
            bound,
      )

module _ {F : Type 0} (floats : Scores F) (order : IsOrder floats) where
  tokens-IsBestMatch :
      (tokens : List String) (profiles : List UserProfile) (u : String)
      → counted_user_id (elim tokens [
        | [] ↦ unattributed floats false
        | t ∷ ts ↦ decide floats (rank_candidates floats (t ∷ ts) profiles)
      ])
        ≡ some u
      → IsBestMatch floats tokens profiles u
  unfolding rank_candidates counted_user_id
  tokens-IsBestMatch [] profiles u e = cc (e)
  tokens-IsBestMatch (t ∷ ts) profiles u e =
      let found = plausible floats (t ∷ ts) profiles in
      ranked-IsBestMatch floats order (t ∷ ts) profiles (sort_candidates floats found) u
        (sort-HasBestFirst floats order (t ∷ ts) found)
        (All-sort floats order (t ∷ ts) _ found
          (plausible-IsScored floats order (t ∷ ts) profiles profiles (λ p here. here)))
        (λ c bound. sort-All floats order (t ∷ ts) _ found bound) e

  -- `classify` counts the credits towards a user only for a subject that is no automation account,
  -- and the user is that of a profile whose similarity to the subject is not below the threshold of
  -- an automatic match, and not below that of any other profile. Comparing floats is a strict weak
  -- order.
  pub classify-IsBestMatch :
      (python : Python) (subject_key : String) (name email : Option String)
      (profiles : List UserProfile) (u : String)
      → counted_user_id (classify floats python subject_key name email profiles) ≡ some u
      → (is_bot_subject python (some subject_key ∷ name ∷ email ∷ []) ≡ false)
        × IsBestMatch floats (tokenize python (some subject_key ∷ name ∷ email ∷ [])) profiles u
  unfolding classify counted_user_id
  classify-IsBestMatch python subject_key name email profiles u e =
      let values = some subject_key ∷ name ∷ email ∷ [] in
      elim (Bool-cases (is_bot_subject python values)) [
        | inl robot ↦ cc (rw robot at e)
        | inr person ↦
            (person, tokens-IsBestMatch (tokenize python values) profiles u (rw person at e))
      ]
