-- ===== src/Ingestion/Sums.antt =====
-- ingestion.py: the credits of rows and of a snapshot's records.
use v_cx_credit_guard.Prelude.{
  ℕ, ◌+◌, ◌<◌, ◌≡◌, refl, inl, inr, Bool, true, false, List, [], ◌∷◌, ◌++◌, modify_where,
  exists_where, ◌==◌, All, ==_iff, str_eq, arith, Bool-cases, if◌then◌else◌,
}
use v_cx_credit_guard.Model.Usage.{UsageSnapshot, UsageRecord}
use v_cx_credit_guard.Consumption.{ParsedUsageItem, ParsedUsagePage}
use v_cx_credit_guard.Ingestion.Attribution.{combine, merge_item, merge_items, merge_pages}

abbrev pub item_credits : List ParsedUsageItem → ℕ
item_credits [] = 0
item_credits (i ∷ items) = i.credits_used + item_credits items

abbrev pub page_credits : List ParsedUsagePage → ℕ
page_credits [] = 0
page_credits (p ∷ pages) = item_credits p.items + page_credits pages

-- `SUM(credits_used) … WHERE snapshot_id = id`
abbrev pub credits_in : ℕ → List UsageRecord → ℕ
credits_in id [] = 0
credits_in id (r ∷ rows) =
    let rest = credits_in id rows in if r.snapshot_id == id then r.credits_used + rest else rest

merge_item-credits :
    (new : ParsedUsageItem) (merged : List ParsedUsageItem)
    → item_credits (merge_item new merged) ≡ new.credits_used + item_credits merged
unfolding merge_item combine
merge_item-credits new [] = refl
merge_item-credits new (old ∷ rest) = elim (Bool-cases (str_eq old.subject_key new.subject_key)) [
  | inl same ↦ rw same (omega arith)
  | inr other ↦ rw other (omega (arith, merge_item-credits new rest))
]

merge_items-credits :
    (items merged : List ParsedUsageItem)
    → item_credits (merge_items merged items) ≡ item_credits merged + item_credits items
unfolding merge_items
merge_items-credits [] merged = omega arith
merge_items-credits (i ∷ items) merged =
    omega (arith, merge_items-credits items (merge_item i merged), merge_item-credits i merged)

-- Merging the rows of all pages by subject keeps the sum of their credits.
pub merge_pages-credits :
    (pages : List ParsedUsagePage) (merged : List ParsedUsageItem)
    → item_credits (merge_pages merged pages) ≡ item_credits merged + page_credits pages
unfolding merge_pages
merge_pages-credits [] merged = omega arith
merge_pages-credits (p ∷ pages) merged = omega (
  arith,
  merge_pages-credits pages (merge_items merged p.items),
  merge_items-credits p.items merged,
)

pub credits_in-append :
    (id : ℕ) (rows : List UsageRecord) (r : UsageRecord)
    → r.snapshot_id ≡ id
    → credits_in id (rows ++ r ∷ []) ≡ credits_in id rows + r.credits_used
credits_in-append id [] r e = rw ((==_iff r.snapshot_id id).1 e) (omega arith)
credits_in-append id (x ∷ rows) r e = elim (Bool-cases (x.snapshot_id == id)) [
  | inl same ↦ rw same (omega (arith, credits_in-append id rows r e))
  | inr other ↦ rw other (credits_in-append id rows r e)
]

pub credits_in-unread :
    (n : ℕ) (rows : List UsageRecord)
    → All (λ (r : UsageRecord). r.snapshot_id < n) rows
    → credits_in n rows ≡ 0
credits_in-unread n [] h = refl
credits_in-unread n (r ∷ rows) h =
    let other : (r.snapshot_id == n) ≡ false = ground arith in
    rw other (credits_in-unread n rows h.1)

abbrev pub has_snapshot : ℕ → List UsageSnapshot → Bool
has_snapshot id rows = exists_where (λ s. s.id == id) rows

pub has_snapshot-append :
    (id : ℕ) (s : UsageSnapshot) (rows : List UsageSnapshot)
    → s.id ≡ id
    → has_snapshot id (rows ++ s ∷ []) ≡ true
has_snapshot-append id s [] e = rw ((==_iff s.id id).1 e) refl
has_snapshot-append id s (x ∷ rows) e = ground (arith, has_snapshot-append id s rows e)

pub has_snapshot-modify_where :
    (id : ℕ) (f : UsageSnapshot → UsageSnapshot) (rows : List UsageSnapshot)
    → ((s : UsageSnapshot) → (f s).id ≡ s.id)
    → has_snapshot id rows ≡ true
    → has_snapshot id (modify_where (λ s. s.id == id) f rows) ≡ true
has_snapshot-modify_where id f [] same there = there
has_snapshot-modify_where id f (s ∷ rows) same there = elim (Bool-cases (s.id == id)) [
  | inl own ↦ rw (own, same s, own) refl
  | inr other ↦ rw (other, other) (has_snapshot-modify_where id f rows same (ground arith))
]
