-- ===== src/Orders/Query/Comparison.antt =====
-- The order of the list, and where a cursor stands in it.
use cafe_pos.Prelude.Sorted.{AreComparable, All-map}
use cafe_pos.Orders.Query.{
  total_minor_desc, total_minor_asc, created_at_asc, created_at_desc, OrderSort, StoredOrder,
  comes_before, Cursor, is_by_total, sort_value_of, typed_value, column_of, is_past_cursor,
}
use cafe_pos.Prelude.{
  [], ◌∷◌, true, false, List, ◌==◌, All, if◌then◌else◌, ◌≡◌, arith, ◌||◌, ◌⊎◌, ◌*◌, ◌%◌, inl, inr,
  refl,
}

pub comes_before_trans :
    (by : OrderSort) (o p q : StoredOrder)
    → comes_before by o p ≡ true
    → comes_before by p q ≡ true
    → comes_before by o q ≡ true
comes_before_trans by o p q h k = ground arith

pub comes_before_asym :
    (by : OrderSort) (o p : StoredOrder) → comes_before by o p ≡ true → comes_before by p o ≡ false
comes_before_asym by o p h = ground arith

pub comes_before_irrefl : (by : OrderSort) (o : StoredOrder) → comes_before by o o ≡ false
comes_before_irrefl by o = ground arith

-- The id breaks every tie.
pub comes_before_total :
    (by : OrderSort) (o p : StoredOrder)
    → (o.row.id == p.row.id) ≡ false
    → (comes_before by o p || comes_before by p o) ≡ true
comes_before_total by o p h = ground arith

-- A cursor of a row resumes right after it, if it carries the row's value in full.
pub past-comes_before :
    (by : OrderSort) (c : Cursor) (o p : StoredOrder)
    → c.id ≡ o.row.id
    → typed_value by c ≡ column_of by o
    → is_past_cursor by c p ≡ comes_before by o p
past-comes_before by c o p same exact = rw (same, exact) refl

-- Ids are unique, and the value of a cursor is the value of the column in full: a total, or a time
-- on a whole millisecond.
abbrev pub HaveDistinctIds : List StoredOrder → Type 0
HaveDistinctIds [] = Unit
HaveDistinctIds (o ∷ os) = All (λ p. (o.row.id == p.row.id) ≡ false) os × HaveDistinctIds os

abbrev pub IsExact : OrderSort → StoredOrder → Type 0
IsExact by o = (is_by_total by ≡ true) ⊎ (o.created_at_us % 1000 ≡ 0)

pub distinct-AreComparable :
    (by : OrderSort) (os : List StoredOrder)
    → HaveDistinctIds os
    → AreComparable (comes_before by) os
distinct-AreComparable by [] h = tt
distinct-AreComparable by (o ∷ os) (h, hs) =
    (All-map _ _ os (λ p. comes_before_total by o p) h, distinct-AreComparable by os hs)

pub exact-typed_value :
    (by : OrderSort) (o : StoredOrder)
    → IsExact by o
    → (if is_by_total by then sort_value_of by o else sort_value_of by o * 1000) ≡ column_of by o
exact-typed_value by o (inl e) = rw e refl
exact-typed_value created_at_asc o (inr e) = omega arith
exact-typed_value created_at_desc o (inr e) = omega arith
exact-typed_value total_minor_asc o (inr e) = refl
exact-typed_value total_minor_desc o (inr e) = refl
