-- ===== src/Tests/Lists.antt =====
-- The order list.
use cafe_pos.Prelude.Sorted.{sort}
use cafe_pos.Tests.Orders.{waiting}
use cafe_pos.Orders.Query.Pages.{pages, pages_in_order}
use cafe_pos.Orders.Query.{
  OrdersQuery, passes_filters, created_at_asc, StoredOrder, created_at_desc, comes_before, Cursor,
}
use cafe_pos.Schema.Rows.{Label}
use cafe_pos.Prelude.{[], ◌∷◌, false, none, List, ℕ, map, ◌≡◌, Bool, arith, refl, select, inr}

abbrev stored : Label → ℕ → ℕ → StoredOrder
stored id total at = record {
  row = record waiting { id = id; total_minor = total };
  created_at_us = at;
}

abbrev shelf : List StoredOrder
shelf = stored 1 300 5000 ∷ stored 2 100 7000 ∷ stored 3 200 7000 ∷ stored 4 100 9000 ∷ []

abbrev newest_first : OrdersQuery
newest_first = record {
  status = none;
  channel = none;
  method = none;
  from = none;
  to = none;
  business_day = none;
  q = none;
  by = created_at_desc;
  limit = 2;
  cursor = none;
}

abbrev never_like : Label → List ℕ → Bool
never_like name pattern = false

pages_shown : map (λ o. o.row.id) (pages never_like [] newest_first shelf 9) ≡ 4 ∷ 3 ∷ 2 ∷ 1 ∷ []
unfolding pages passes_filters
pages_shown = refl

pages_in_order_example :
    pages never_like [] newest_first shelf 9
    ≡ sort (comes_before created_at_desc) (select (passes_filters never_like [] newest_first) shelf)
unfolding passes_filters
pages_in_order_example =
    pages_in_order never_like [] newest_first shelf
      ((refl, (refl, (refl, tt))), ((refl, (refl, tt)), ((refl, tt), (tt, tt))))
      (inr refl, (inr refl, (inr refl, (inr refl, tt)))) 9 refl (omega arith) (omega arith)

abbrev boundary : Cursor
boundary = record { sort_spec = created_at_asc; value = 7; id = 2 }
