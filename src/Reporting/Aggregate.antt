-- ===== src/Reporting/Aggregate.antt =====
-- src/reporting/rollup/aggregate-day.ts: the five queries of a business day, on one snapshot of the
-- store.
use cafe_pos.Reporting.Groups.{group_sum, sum_of, join}
use cafe_pos.Schema.Store.{Db}
use cafe_pos.Schema.Rows.{Label, Payment, OrderItem, Order, Refund}
use cafe_pos.Schema.Enums.{
  OrderStatus, PaymentStatus, RefundStatus, PaymentMethod, payment_status_eq, order_status_eq,
}
use cafe_pos.Prelude.{
  [], ◌∷◌, true, false, some, none, List, ℕ, Option, Bool, ◌==◌, if◌then◌else◌, ◌&&◌, any, select,
  ◌+◌, length,
}

pub record RollupItem : Type 0 where
  pub menu_item_id : Label
  pub name : Label
  pub quantity : ℕ
  pub revenue_minor : ℕ

pub record RollupParts : Type 0 where
  pub status_counts : List (OrderStatus × ℕ)
  pub revenue_by_method : List (Option PaymentMethod × ℕ)
  pub refunds_minor : ℕ
  pub vat_minor : ℕ
  pub orders_settled : ℕ
  pub items : List RollupItem

abbrev pub is_succeeded : Payment → Bool
is_succeeded p = payment_status_eq p.status PaymentStatus.succeeded

-- The tuple of the methods, for the equality of two.
abbrev method_place : PaymentMethod → ℕ
method_place PaymentMethod.card = 1
method_place PaymentMethod.promptpay = 2
method_place PaymentMethod.cash = 3

abbrev method_or_null : Option PaymentMethod → ℕ
method_or_null none = 0
method_or_null (some m) = method_place m

-- GROUP BY takes two nulls for one group.
abbrev pub same_method : Option PaymentMethod → Option PaymentMethod → Bool
same_method a b = method_or_null a == method_or_null b

abbrev pub is_refund_done : RefundStatus → Bool
is_refund_done RefundStatus.pending = false
is_refund_done RefundStatus.succeeded = true
is_refund_done RefundStatus.failed = false

abbrev pub add_item : OrderItem → List RollupItem → List RollupItem
add_item i [] =
    record {
      menu_item_id = i.menu_item_id;
      name = i.name_snapshot;
      quantity = i.quantity;
      revenue_minor = i.line_total_minor;
    }
    ∷ []
add_item i (g ∷ gs) =
    let rest = add_item i gs in
    if g.menu_item_id == i.menu_item_id && g.name == i.name_snapshot
    then record g {
      quantity = g.quantity + i.quantity;
      revenue_minor = g.revenue_minor + i.line_total_minor;
    }
      ∷ gs
    else g ∷ rest

-- `GROUP BY menu_item_id, name_snapshot`.
abbrev pub group_items : List (OrderItem × Order) → List RollupItem
group_items [] = []
group_items ((i, o) ∷ rows) = add_item i (group_items rows)

module _ (day : Label) (db : Db) where
  abbrev pub is_of_day : Order → Bool
  is_of_day o = o.business_day == day

  -- "This order took money": an EXISTS over its payments.
  abbrev pub is_settled_order : Order → Bool
  is_settled_order o = any (λ p. p.order_id == o.id && is_succeeded p) db.payments

  abbrev pub of_day : List Order
  of_day = select is_of_day db.orders

  abbrev pub settled_of_day : List Order
  settled_of_day = select (λ o. is_of_day o && is_settled_order o) db.orders

  abbrev pub status_counts_of_day : List (OrderStatus × ℕ)
  status_counts_of_day = group_sum order_status_eq (λ o. o.status) (λ o. 1) of_day

  abbrev pub paid_rows : List (Payment × Order)
  paid_rows =
      select (λ r. is_of_day r.1 && is_succeeded r.0)
        (join (λ p o. p.order_id == o.id) db.payments db.orders)

  abbrev pub revenue_of_day : List (Option PaymentMethod × ℕ)
  revenue_of_day = group_sum same_method (λ r. r.0.method) (λ r. r.0.amount_minor) paid_rows

  abbrev pub refund_rows : List ((Refund × Payment) × Order)
  refund_rows =
      select (λ r. is_of_day r.1 && is_refund_done r.0.0.status)
        (join (λ r o. r.1.order_id == o.id)
          (join (λ r p. r.payment_id == p.id) db.refunds db.payments) db.orders)

  abbrev pub item_rows_of_day : List (OrderItem × Order)
  item_rows_of_day =
      select (λ r. is_of_day r.1 && is_settled_order r.1)
        (join (λ i o. i.order_id == o.id) db.order_items db.orders)

  unfoldable pub aggregate_day : RollupParts
  aggregate_day = record {
    status_counts = status_counts_of_day;
    revenue_by_method = revenue_of_day;
    refunds_minor = sum_of (λ r. r.0.0.amount_minor) refund_rows;
    vat_minor = sum_of (λ o. o.vat_minor) settled_of_day;
    orders_settled = length settled_of_day;
    items = group_items item_rows_of_day;
  }
