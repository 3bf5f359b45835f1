-- ===== src/Orders/Summary.antt =====
-- `OrderSummary` and `toOrderSummary` of src/orders/query/orders-read.service.ts.
use cafe_pos.Prelude.{ℕ, Option, List}
use cafe_pos.Schema.Enums.{OrderStatus, OrderChannel}
use cafe_pos.Schema.Rows.{Label, Order}

pub record OrderSummary : Type 0 where
  pub id : Label
  pub order_number : Option (List ℕ)
  pub status : OrderStatus
  pub channel : OrderChannel
  pub business_day : Label
  pub customer_name : Option Label
  pub subtotal_minor : ℕ
  pub vat_minor : ℕ
  pub total_minor : ℕ
  pub currency : Label
  pub created_at : ℕ
  pub expires_at : Option ℕ

abbrev pub to_order_summary : Order → OrderSummary
to_order_summary row = record {
  id = row.id;
  order_number = row.order_number;
  status = row.status;
  channel = row.channel;
  business_day = row.business_day;
  customer_name = row.customer_name;
  subtotal_minor = row.subtotal_minor;
  vat_minor = row.vat_minor;
  total_minor = row.total_minor;
  currency = row.currency;
  created_at = row.created_at;
  expires_at = row.expires_at;
}
