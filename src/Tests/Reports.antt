-- ===== src/Tests/Reports.antt =====
-- The rollup of a day, the nightly run and the leaderboard.
use cafe_pos.Tests.Identity.{first_token, rotated_token}
use cafe_pos.Retention.{
  delete_stale_refresh_tokens, has_old_name, clear_customer_names, has_old_payload,
  trim_event_payloads, is_stale, is_expired_key, delete_expired_idempotency_keys,
}
use cafe_pos.Retention.Drained.{IsCleared, retention_jobs_clear}
use cafe_pos.Reporting.Nightly.{roll_up_yesterday_decides}
use cafe_pos.Reporting.Books.{paid_for, lines_of, status_count, rollup_row_books}
use cafe_pos.Reporting.Groups.{total_of, sum_of}
use cafe_pos.Tests.Orders.{waiting}
use cafe_pos.System.Safety.{empty_store}
use cafe_pos.Reporting.Leaderboard.{AreMerged, sold_on, merge_top_items_adds}
use cafe_pos.Reporting.Shape.{merge_top_items, DayItems}
use cafe_pos.Reporting.Aggregate.{RollupItem, aggregate_day, is_of_day, is_settled_order}
use cafe_pos.Orders.BusinessDay.{minus_days, business_day_of, previous_day}
use cafe_pos.Reporting.Rollup.{find_rollup, roll_up_yesterday, fresh_row, DailySalesRollup}
use cafe_pos.Reporting.Row.{build_rollup_row}
use cafe_pos.Schema.Store.{Db}
use cafe_pos.Schema.Rows.{Label, Payment, OrderItem, Order}
use cafe_pos.Schema.Enums.{
  PaymentStatus, OrderStatus, PaymentMethod, PaymentProviderName, order_status_eq,
  payment_status_eq,
}
use cafe_pos.Prelude.{
  [], ◌∷◌, some, none, List, Option, ℕ, ltb, map, ◌≡◌, ◌*◌, All, if◌then◌else◌, refl, ◌&&◌, ◌==◌,
  ◌||◌, any, sum_where, leb, not, is_some,
}

abbrev pub paid_payment : Label → Label → Option PaymentMethod → ℕ → Payment
paid_payment id order_id method amount = record {
  id = id;
  order_id = order_id;
  provider = PaymentProviderName.stripe;
  provider_intent_id = none;
  method = method;
  status = PaymentStatus.succeeded;
  amount_minor = amount;
  currency = 764;
  idempotency_key = none;
  cash_tendered_minor = none;
}

abbrev latte_line : Label → Label → ℕ → ℕ → OrderItem
latte_line id order_id quantity total = record {
  id = id;
  order_id = order_id;
  menu_item_id = 70;
  name_snapshot = 71;
  unit_price_minor_snapshot = 100;
  quantity = quantity;
  line_total_minor = total;
  notes = none;
}

-- Two settled orders of one day and a cancelled one.
abbrev traded : Db
traded = record empty_store {
  orders =
      record waiting { id = 1; status = OrderStatus.completed }
      ∷ record waiting { id = 2; status = OrderStatus.refunded }
      ∷ record waiting { id = 3; status = OrderStatus.cancelled }
      ∷ [];
  payments =
      paid_payment 11 1 (some PaymentMethod.card) 235
      ∷ record (paid_payment 12 2 none 100) { status = PaymentStatus.failed }
      ∷ paid_payment 13 2 none 100
      ∷ [];
  order_items = latte_line 21 1 2 235 ∷ latte_line 22 2 1 100 ∷ latte_line 23 3 5 500 ∷ [];
}

rolled_up :
    let row = build_rollup_row ltb 20260105 (aggregate_day 20260105 traded) in
    (row.revenue_minor ≡ 335)
    × (map (λ g. g.quantity) row.top_items ≡ 3 ∷ [])
    × (row.orders_settled ≡ 2)
    × (row.orders_cancelled ≡ 1)
unfolding build_rollup_row aggregate_day order_status_eq payment_status_eq
rolled_up = (refl, refl, refl, refl)

rollup_row_books_example :
    let row = build_rollup_row ltb 20260105 (aggregate_day 20260105 traded) in
    let settled =
      λ (o : Order). is_of_day 20260105 traded o && is_settled_order 20260105 traded o in
    (row.revenue_minor ≡ total_of row.revenue_by_method)
    × (row.revenue_minor
        ≡ sum_where (is_of_day 20260105 traded) (paid_for traded.payments) traded.orders)
    × (sum_of (λ g. g.revenue_minor) row.top_items
        ≡ sum_where settled (lines_of (λ i. i.line_total_minor) traded.order_items) traded.orders)
    × (sum_of (λ g. g.quantity) row.top_items
        ≡ sum_where settled (lines_of (λ i. i.quantity) traded.order_items) traded.orders)
    × (row.orders_completed ≡ status_count 20260105 OrderStatus.completed traded.orders)
    × (row.orders_refunded ≡ status_count 20260105 OrderStatus.refunded traded.orders)
    × (row.orders_cancelled ≡ status_count 20260105 OrderStatus.cancelled traded.orders)
    × (row.orders_expired ≡ status_count 20260105 OrderStatus.expired traded.orders)
rollup_row_books_example = rollup_row_books 20260105 traded ltb

roll_up_yesterday_decides_example :
    find_rollup 20260105 (roll_up_yesterday ltb 20260108 5 traded 20260107 []).1 ≡ (
      if (20260107 == 20260105
          || (any (λ o. o.business_day == 20260105) traded.orders
              && (leb (minus_days 20260107 30) 20260105
                  && (ltb 20260105 20260107
                      && (leb (minus_days 20260107 3) 20260105
                          || not (
                              any
                                (λ (r : DailySalesRollup).
                                  r.row.business_day == 20260105 && is_some r.finalized_at)
                                []))))))
        && ltb 20260105 20260108
      then some (record { row = fresh_row ltb 20260108 5 traded 20260105; finalized_at = some 5 })
      else find_rollup 20260105 [])
roll_up_yesterday_decides_example =
    roll_up_yesterday_decides ltb 20260108 5 traded 20260107 20260105 []

over_the_new_year : minus_days 20260101 3 ≡ 20251229
unfolding minus_days previous_day
over_the_new_year = refl

after_midnight : business_day_of (record { year = 2024; month = 3; day = 1; hour = 1 }) 5 ≡ 20240229
unfolding business_day_of previous_day
after_midnight = refl

abbrev latte : Label → ℕ → RollupItem
latte name quantity = record {
  menu_item_id = 70;
  name = name;
  quantity = quantity;
  revenue_minor = 100 * quantity;
}

abbrev mocha : RollupItem
mocha = record { menu_item_id = 80; name = 81; quantity = 4; revenue_minor = 480 }

-- An item that was renamed on the second day.
abbrev week : List DayItems
week =
    record { business_day = 20260104; top_items = mocha ∷ latte 71 2 ∷ [] }
    ∷ record { business_day = 20260105; top_items = latte 71 1 ∷ latte 72 3 ∷ [] }
    ∷ []

board : map (λ g. g.quantity) (merge_top_items ltb week 5) ≡ 6 ∷ 4 ∷ []
unfolding merge_top_items
board = refl

newest_name : map (λ g. g.name) (merge_top_items ltb week 1) ≡ 72 ∷ []
unfolding merge_top_items
newest_name = refl

merge_top_items_adds_example :
    AreMerged (merge_top_items ltb week 1)
    × All
        (λ g. g.quantity ≡ sold_on (λ i. i.quantity) g.menu_item_id week)
        (merge_top_items ltb week 1)
    × All
        (λ g. g.revenue_minor ≡ sold_on (λ i. i.revenue_minor) g.menu_item_id week)
        (merge_top_items ltb week 1)
merge_top_items_adds_example = merge_top_items_adds ltb week 1

abbrev old_order : Order
old_order = record waiting { customer_name = some 5; created_at = 10 }

retention_jobs_clear_example :
    IsCleared
      (has_old_name 50)
      (old_order ∷ waiting ∷ [])
      (clear_customer_names 50 (old_order ∷ waiting ∷ []))
    × IsCleared (has_old_payload 50) [] (trim_event_payloads (λ p. p) 60 50 [])
    × IsCleared
        (is_stale 50)
        (first_token ∷ rotated_token ∷ [])
        (delete_stale_refresh_tokens 50 (first_token ∷ rotated_token ∷ []))
    × IsCleared (is_expired_key 50) [] (delete_expired_idempotency_keys 50 [])
retention_jobs_clear_example =
    retention_jobs_clear 50 60 (λ p. p) (old_order ∷ waiting ∷ []) []
      (first_token ∷ rotated_token ∷ []) []

one_cleared : (delete_stale_refresh_tokens 50 (first_token ∷ rotated_token ∷ [])).0 ≡ 1
unfolding delete_stale_refresh_tokens
one_cleared = refl
