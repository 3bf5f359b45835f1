-- ===== src/Schema/Store.antt =====
-- The store: one list of rows for each table of src/database/schema that the order pipeline
-- writes. New rows stand first.
use cafe_pos.Prelude.{Bool, true, false, ◌&&◌, Option, none, some, List, [], find?, ◌==◌}
use cafe_pos.Schema.Enums.{OrderStatus, PaymentStatus, includes_payment_status}
use cafe_pos.Schema.Views.{IdempotencyKey}
use cafe_pos.Schema.Rows.{
  Label, Order, OrderItem, OrderStatusHistory, OrderNumberCounter, Payment, Refund, PaymentEvent,
  OrderItemOption,
}
use mathlib.Core.List.{◌∷◌}

pub record Db : Type 0 where
  pub orders : List Order
  pub order_items : List OrderItem
  pub history : List OrderStatusHistory
  pub counters : List OrderNumberCounter
  pub payments : List Payment
  pub refunds : List Refund
  pub events : List PaymentEvent
  pub keys : List IdempotencyKey
  pub option_rows : List OrderItemOption

abbrev pub find_order : Label → Db → Option Order
find_order i db = find? (λ o. o.id == i) db.orders

abbrev pub find_payment : Label → Db → Option Payment
find_payment i db = find? (λ p. p.id == i) db.payments

-- `SELECT status FROM orders WHERE id = i`.
abbrev pub status_in : Label → List Order → Option OrderStatus
status_in i [] = none
status_in i (o ∷ os) = elim (o.id == i) [ true ↦ some o.status | false ↦ status_in i os ]

-- The statuses that the partial unique index `one_live_payment` names.
abbrev live_statuses : List PaymentStatus
live_statuses = PaymentStatus.pending ∷ PaymentStatus.processing ∷ []

abbrev pub is_live : PaymentStatus → Bool
is_live s = includes_payment_status live_statuses s

-- The live payment of an order: what `inArray(payments.status, LIVE)` selects.
abbrev pub find_live : Label → Db → Option Payment
find_live i db = find? (λ p. p.order_id == i && is_live p.status) db.payments
