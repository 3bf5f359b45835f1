-- ===== src/Reporting/Books.antt =====
-- The row of a day against the tables it is computed from.
use cafe_pos.Reporting.Totals.{
  in_group-count, sum-select, sum-join, count-select, add_buckets-total_of, group_items-revenue,
  group_items-quantity,
}
use cafe_pos.Reporting.Aggregate.{
  revenue_of_day, item_rows_of_day, aggregate_day, is_of_day, status_counts_of_day, is_succeeded,
  is_settled_order, same_method, of_day, group_items, paid_rows,
}
use cafe_pos.Reporting.Row.{build_rollup_row, ranks_before}
use cafe_pos.Reporting.Groups.{
  sum_of, total_of, in_group, group_sum-total_of, join, stable_sort-sum_of,
}
use cafe_pos.Schema.Store.{Db}
use cafe_pos.Schema.Rows.{OrderItem, Label, Order, Payment}
use cafe_pos.Schema.Enums.{OrderStatus, order_status_eq}
use cafe_pos.Prelude.{
  [], ◌∷◌, List, ℕ, Bool, sum_where, count_if, if◌then◌else◌, ◌==◌, ◌≡◌, ◌&&◌, arith, refl, ◌∙◌, ap,
}

-- What an order has been paid, and what its lines come to.
abbrev pub paid_for : List Payment → Order → ℕ
paid_for ps o = sum_where (λ p. p.order_id == o.id && is_succeeded p) (λ p. p.amount_minor) ps

abbrev pub lines_of : (OrderItem → ℕ) → List OrderItem → Order → ℕ
lines_of value is o = sum_where (λ i. i.order_id == o.id) value is

abbrev pub status_count : Label → OrderStatus → List Order → ℕ
status_count day s os = count_if (λ o. o.business_day == day && order_status_eq o.status s) os

sum_where-sum_of :
    (p : Order → Bool) (f : Order → ℕ) (os : List Order)
    → sum_of (λ o. if p o then f o else 0) os ≡ sum_where p f os
sum_where-sum_of p f [] = refl
sum_where-sum_of p f (o ∷ os) = omega (arith, sum_where-sum_of p f os)

module _ (day : Label) (db : Db) where
  paid_weight : Payment → Order → ℕ
  paid_weight p o =
      if p.order_id == o.id
      then (if is_of_day day db o && is_succeeded p then p.amount_minor else 0)
      else 0

  paid_by_order :
      (o : Order) (ps : List Payment)
      → sum_of (λ p. paid_weight p o) ps ≡ (if is_of_day day db o then paid_for ps o else 0)
  unfolding paid_weight
  paid_by_order o [] = ground arith
  paid_by_order o (p ∷ ps) = ground (arith, paid_by_order o ps)

  lines_by_order :
      (value : OrderItem → ℕ) (o : Order) (is : List OrderItem)
      → sum_of
          (λ i.
            if i.order_id == o.id
            then (if is_of_day day db o && is_settled_order day db o then value i else 0)
            else 0)
          is
        ≡ (if is_of_day day db o && is_settled_order day db o then lines_of value is o else 0)
  lines_by_order value o [] = ground arith
  lines_by_order value o (i ∷ is) = ground (arith, lines_by_order value o is)

  revenue-books :
      total_of (revenue_of_day day db)
      ≡ sum_where (is_of_day day db) (paid_for db.payments) db.orders
  unfolding paid_weight
  revenue-books =
      group_sum-total_of same_method (λ r. r.0.method) (λ r. r.0.amount_minor) (paid_rows day db)
      ∙ (sum-select (λ r. is_of_day day db r.1 && is_succeeded r.0) (λ r. r.0.amount_minor)
            (join (λ p o. p.order_id == o.id) db.payments db.orders)
          ∙ (sum-join (λ p o. p.order_id == o.id)
                (λ r. if is_of_day day db r.1 && is_succeeded r.0 then r.0.amount_minor else 0)
                db.payments db.orders
              ∙ (ap (λ f. sum_of f db.orders) (λ i o. paid_by_order o db.payments i)
                  ∙ sum_where-sum_of (is_of_day day db) (paid_for db.payments) db.orders)))

  items-books :
      (value : OrderItem → ℕ)
      → sum_of (λ r. value r.0) (item_rows_of_day day db)
        ≡ sum_where
            (λ o. is_of_day day db o && is_settled_order day db o)
            (lines_of value db.order_items)
            db.orders
  items-books value =
      sum-select (λ r. is_of_day day db r.1 && is_settled_order day db r.1) (λ r. value r.0)
        (join (λ i o. i.order_id == o.id) db.order_items db.orders)
      ∙ (sum-join (λ i o. i.order_id == o.id)
            (λ r. if is_of_day day db r.1 && is_settled_order day db r.1 then value r.0 else 0)
            db.order_items db.orders
          ∙ (ap (λ f. sum_of f db.orders) (λ i o. lines_by_order value o db.order_items i)
              ∙ sum_where-sum_of (λ o. is_of_day day db o && is_settled_order day db o)
                  (lines_of value db.order_items) db.orders))

  counts-books :
      (s : OrderStatus)
      → in_group order_status_eq s (status_counts_of_day day db) ≡ status_count day s db.orders
  counts-books s =
      in_group-count s (of_day day db)
      ∙ count-select (is_of_day day db) (λ o. order_status_eq o.status s) db.orders

  -- The row of a day: its revenue is the sum of its buckets and is what succeeded payments brought in
  -- for the orders of the day; the item list, however it is sorted, has the revenue and the quantity of
  -- the lines of the orders that took money; the four counts are the orders of the day in each status.
  pub rollup_row_books :
      (locale_less : Label → Label → Bool)
      → let row = build_rollup_row locale_less day (aggregate_day day db) in
        let settled = λ (o : Order). is_of_day day db o && is_settled_order day db o in
        (row.revenue_minor ≡ total_of row.revenue_by_method)
        × (row.revenue_minor ≡ sum_where (is_of_day day db) (paid_for db.payments) db.orders)
        × (sum_of (λ g. g.revenue_minor) row.top_items
            ≡ sum_where settled (lines_of (λ i. i.line_total_minor) db.order_items) db.orders)
        × (sum_of (λ g. g.quantity) row.top_items
            ≡ sum_where settled (lines_of (λ i. i.quantity) db.order_items) db.orders)
        × (row.orders_completed ≡ status_count day OrderStatus.completed db.orders)
        × (row.orders_refunded ≡ status_count day OrderStatus.refunded db.orders)
        × (row.orders_cancelled ≡ status_count day OrderStatus.cancelled db.orders)
        × (row.orders_expired ≡ status_count day OrderStatus.expired db.orders)
  unfolding build_rollup_row aggregate_day
  rollup_row_books locale_less =
      let rows = item_rows_of_day day db in
      let groups = group_items rows in
      let lt = ranks_before locale_less in
      (
        refl,
        add_buckets-total_of (revenue_of_day day db) [] ∙ (omega arith ∙ revenue-books),
        stable_sort-sum_of lt (λ g. g.revenue_minor) groups
            ∙ (group_items-revenue rows ∙ items-books (λ i. i.line_total_minor)),
        stable_sort-sum_of lt (λ g. g.quantity) groups
            ∙ (group_items-quantity rows ∙ items-books (λ i. i.quantity)),
        counts-books OrderStatus.completed,
        counts-books OrderStatus.refunded,
        counts-books OrderStatus.cancelled,
        counts-books OrderStatus.expired,
      )
