-- ===== src/Feed/Marking.antt =====
-- notifications.py: what marking as read does to the unread count.
use v_cx_credit_guard.Prelude.{
  ℕ, ◌+◌, ◌≡◌, true, some, List, [], ◌∷◌, length, select, modify_where, arith, Bool-cases, inl, inr,
}
use v_cx_credit_guard.Exec.Contracts.{Post}
use v_cx_credit_guard.Model.Calendar.{DateTime}
use v_cx_credit_guard.Model.Log.{Notification}
use v_cx_credit_guard.Model.Database.{World}
use v_cx_credit_guard.Feed.{is_unread, unread_count, to_mark, mark_read}

unread_of_marked : (ids : List ℕ) (n : Notification) → to_mark ids n ≡ true → is_unread n ≡ true
unfolding to_mark
unread_of_marked [] n h = h
unread_of_marked (i ∷ ids) n h = ground arith

count_marked :
    (ids : List ℕ) (t : DateTime) (rows : List Notification)
    → length (select is_unread rows)
      ≡ length (select (to_mark ids) rows)
        + length (
            select is_unread (
              modify_where
                (to_mark ids)
                (λ (n : Notification). record n { read_at = some t })
                rows))
count_marked ids t [] = omega arith
count_marked ids t (n ∷ rows) = elim (Bool-cases (to_mark ids n)) [
  | inl marked ↦ rw (marked, unread_of_marked ids n marked) (omega (arith, count_marked ids t rows))
  | inr left ↦ rw left (elim (Bool-cases (is_unread n)) [
    | inl unread ↦ rw unread (omega (arith, count_marked ids t rows))
    | inr seen ↦ rw seen (count_marked ids t rows)
  ])
]

-- Marking notifications as read, by their ids or all of them, returns the number by which the
-- unread count falls.
pub mark_read-unread_count :
    {T : Type 0}
    → (ids : List ℕ) → (w : World T)
    → Post (λ n w'. unread_count w ≡ n + unread_count w') (λ _. ⊥) (mark_read ids w)
unfolding mark_read unread_count
mark_read-unread_count ids w = count_marked ids w.now w.notifications
