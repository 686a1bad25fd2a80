-- ===== src/Feed/Keys.antt =====
-- notifications.py: the dedupe keys of the feed.
use v_cx_credit_guard.Prelude.{
  ◌≡◌, refl, String, false, Option, none, some, List, [], ◌∷◌, ◌++◌, All, arith, Bool-cases, inl,
  inr, str_eq, eq_iff,
}
use v_cx_credit_guard.Exec.Contracts.{Keeps}
use v_cx_credit_guard.Model.Log.{Notification}
use v_cx_credit_guard.Model.Database.{World}
use v_cx_credit_guard.Feed.{Notice, has_key, already_raised, notify}

-- Two keys that are not the same text.
abbrev pub Apart : Option String → Option String → Type 0
Apart none b = Unit
Apart (some key) none = Unit
Apart (some key) (some other) = str_eq other key ≡ false

abbrev pub Distinct : Notification → Notification → Type 0
Distinct a b = Apart a.dedupe_key b.dedupe_key

Apart-none : (a : Option String) → Apart a none
Apart-none none = tt
Apart-none (some key) = tt

Apart-some :
    (key : String) (a : Option String)
    → elim a [ none ↦ false | some k ↦ str_eq k key ] ≡ false
    → Apart a (some key)
Apart-some key none h = tt
Apart-some key (some k) h = ground (arith, eq_iff k key, eq_iff key k)

Apart-of_new :
    (key : Option String) (n : Notification) (rows : List Notification)
    → already_raised key (n ∷ rows) ≡ false
    → Apart n.dedupe_key key × (already_raised key rows ≡ false)
unfolding already_raised
Apart-of_new none n rows new = (Apart-none n.dedupe_key, refl)
Apart-of_new (some key) n rows new = elim (Bool-cases (has_key key n)) [
  | inl same ↦ ground arith
  | inr other ↦ (Apart-some key n.dedupe_key other, ground arith)
]

Distinct-append :
    (n row : Notification) (rows : List Notification)
    → Distinct n row
    → All (Distinct n) rows
    → All (Distinct n) (rows ++ row ∷ [])
Distinct-append n row [] d h = (d, tt)
Distinct-append n row (x ∷ rows) d h = (h.0, Distinct-append n row rows d h.1)

abbrev pub AreDistinct : List Notification → Type 0
AreDistinct [] = Unit
AreDistinct (n ∷ rows) = All (Distinct n) rows × AreDistinct rows

AreDistinct-append :
    (row : Notification) (rows : List Notification)
    → already_raised row.dedupe_key rows ≡ false
    → AreDistinct rows
    → AreDistinct (rows ++ row ∷ [])
unfolding already_raised
AreDistinct-append row [] new h = (tt, tt)
AreDistinct-append row (n ∷ rows) new h =
    let (apart, unseen) = Apart-of_new row.dedupe_key n rows new in
    (Distinct-append n row rows apart h.0, AreDistinct-append row rows unseen h.1)

-- A notice, raised or not, leaves at most one notification of each dedupe key.
pub notify-AreDistinct :
    {T : Type 0} (n : Notice) → Keeps (λ (w : World T). AreDistinct w.notifications) (notify n)
unfolding notify
notify-AreDistinct n = record {
  at = λ w h. elim (Bool-cases (already_raised n.dedupe_key w.notifications)) [
    | inl old ↦ rw old h
    | inr new ↦ simp new (AreDistinct-append _ w.notifications new h)
  ];
}
