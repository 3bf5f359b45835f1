-- ===== src/Schema/Views.antt =====
-- What the API answers and the idempotency store keeps: `OrderView` of
-- src/orders/orders.service.ts, `PaymentView` of src/payments/create/create-payment.service.ts,
-- and the row of `idempotency_keys` in src/database/schema/payments.ts.
use cafe_pos.Prelude.{ℕ, Option, List}
use cafe_pos.Prelude.Int.{ℤ}
use cafe_pos.Schema.Enums.{
  OrderChannel, OrderStatus, PaymentProviderName, PaymentMethod, PaymentStatus,
}
use cafe_pos.Schema.Rows.{Label}

pub record OrderViewOption : Type 0 where
  pub group : Label
  pub name : Label
  pub price_delta_minor : ℤ

pub record OrderViewItem : Type 0 where
  pub name_snapshot : Label
  pub unit_price_minor : ℕ
  pub quantity : ℕ
  pub line_total_minor : ℕ
  pub notes : Option Label
  pub options : List OrderViewOption

pub record OrderView : Type 0 where
  pub id : Label
  pub order_number : Option (List ℕ)
  pub status : OrderStatus
  pub channel : OrderChannel
  pub business_day : Label
  pub customer_name : Option Label
  pub expires_at : Option ℕ
  pub items : List OrderViewItem
  pub subtotal_minor : ℕ
  pub vat_minor : ℕ
  pub total_minor : ℕ
  pub currency : Label

-- `client_secret` is `clientAction`: the secret, or null.
pub record PaymentView : Type 0 where
  pub id : Label
  pub status : PaymentStatus
  pub method : Option PaymentMethod
  pub amount_minor : ℕ
  pub currency : Label
  pub provider : PaymentProviderName
  pub client_secret : Option Label

-- A response body as it is stored: which of the two views the request answered with.
pub data ResponseBody : Type 0 where
  order_body : OrderView → ResponseBody
  payment_body : PaymentView → ResponseBody

pub record IdempotencyKey : Type 0 where
  pub key : Label
  pub request_hash : Label
  pub response_status : Option ℕ
  pub response_body : Option ResponseBody
  pub expires_at : ℕ
