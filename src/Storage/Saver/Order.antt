-- ===== src/Storage/Saver/Order.antt =====
-- storage/sqlite_saver.py: the order of the queries.
use dev_harness.Common.{
  ◌≡◌, inl, inr, true, false, List, [], ◌∷◌, arith, nat_eq, string_eq, Bool-cases,
}
use dev_harness.Storage.Saver.{Row, newer, insert_row, newest_first}
use dev_harness.Sorted.Order.{str_leb_total}

-- Each row is at least as new as the one after it: `created_at DESC, checkpoint_id DESC`.
abbrev pub IsNewestFirst : List Row → Type 0
IsNewestFirst [] = Unit
IsNewestFirst (r ∷ []) = Unit
IsNewestFirst (r ∷ q ∷ rs) = (newer r q ≡ true) × IsNewestFirst (q ∷ rs)

newer_total : (r q : Row) → newer r q ≡ false → newer q r ≡ true
newer_total r q h = ground (arith, str_leb_total q.checkpoint_id r.checkpoint_id)

-- The row comes before the list.
abbrev Leads : Row → List Row → Type 0
Leads q [] = Unit
Leads q (r ∷ rs) = newer q r ≡ true

insert_row-Leads :
    (q r : Row) (rs : List Row) → newer q r ≡ true → Leads q rs → Leads q (insert_row r rs)
unfolding insert_row
insert_row-Leads q r [] h leads = h
insert_row-Leads q r (x ∷ xs) h leads = elim (Bool-cases (newer r x)) [
  | inl first ↦ rw first h
  | inr later ↦ rw later leads
]

cons-IsNewestFirst :
    (q : Row) (rs : List Row) → Leads q rs → IsNewestFirst rs → IsNewestFirst (q ∷ rs)
cons-IsNewestFirst q [] leads h = tt
cons-IsNewestFirst q (r ∷ rs) leads h = (leads, h)

head-Leads : (q : Row) (rs : List Row) → IsNewestFirst (q ∷ rs) → Leads q rs × IsNewestFirst rs
head-Leads q [] h = (tt, tt)
head-Leads q (r ∷ rs) h = (h.0, h.1)

insert_row-IsNewestFirst :
    (r : Row) (rs : List Row) → IsNewestFirst rs → IsNewestFirst (insert_row r rs)
unfolding insert_row
insert_row-IsNewestFirst r [] h = tt
insert_row-IsNewestFirst r (q ∷ rs) h = elim (Bool-cases (newer r q)) [
  | inl first ↦ rw first (first, h)
  | inr later ↦
      let (leads, rest) = head-Leads q rs h in
      rw later (
        cons-IsNewestFirst q (insert_row r rs)
          (insert_row-Leads q r rs (newer_total r q later) leads)
          (insert_row-IsNewestFirst r rs rest))
]

pub newest_first-IsNewestFirst : (rs : List Row) → IsNewestFirst (newest_first rs)
unfolding newest_first
newest_first-IsNewestFirst [] = tt
newest_first-IsNewestFirst (r ∷ rs) =
    insert_row-IsNewestFirst r (newest_first rs) (newest_first-IsNewestFirst rs)
