-- ===== src/Schema/Rows.antt =====
-- The rows of src/database/schema/orders.ts and payments.ts. Ids, keys, names, notes, currency
-- codes and payloads are only compared or copied by the code modelled here, so each is a number
-- that stands for the text; a business day `YYYY-MM-DD` is the number yyyymmdd. A queue number is
-- the list of its characters' codes. Times are milliseconds. `updated_at` is left out.
use cafe_pos.Prelude.{ℕ, Option, List}
use cafe_pos.Prelude.Int.{ℤ}
use cafe_pos.Schema.Enums.{
  OrderChannel, OrderStatus, ActorType, PaymentProviderName, PaymentMethod, PaymentStatus,
  RefundStatus,
}

-- A text that is only compared.
abbrev pub Label : Type 0
Label = ℕ

pub record Order : Type 0 where
  pub id : Label
  pub order_number : Option (List ℕ)
  pub business_day : Label
  pub channel : OrderChannel
  pub status : OrderStatus
  pub kiosk_device_id : Option Label
  pub created_by_user_id : Option Label
  pub customer_name : Option Label
  pub subtotal_minor : ℕ
  pub vat_minor : ℕ
  pub total_minor : ℕ
  pub currency : Label
  pub expires_at : Option ℕ
  pub created_at : ℕ

pub record OrderItem : Type 0 where
  pub id : Label
  pub order_id : Label
  pub menu_item_id : Label
  pub name_snapshot : Label
  pub unit_price_minor_snapshot : ℕ
  pub quantity : ℕ
  pub line_total_minor : ℕ
  pub notes : Option Label

pub record OrderItemOption : Type 0 where
  pub order_item_id : Label
  pub option_id : Label
  pub group_name_snapshot : Label
  pub option_name_snapshot : Label
  pub price_delta_minor_snapshot : ℤ

pub record OrderStatusHistory : Type 0 where
  pub order_id : Label
  pub from_status : Option OrderStatus
  pub to_status : OrderStatus
  pub actor_type : ActorType
  pub actor_id : Option Label
  pub reason : Option Label

pub record OrderNumberCounter : Type 0 where
  pub business_day : Label
  pub last_value : ℕ

pub record Payment : Type 0 where
  pub id : Label
  pub order_id : Label
  pub provider : PaymentProviderName
  pub provider_intent_id : Option Label
  pub method : Option PaymentMethod
  pub status : PaymentStatus
  pub amount_minor : ℕ
  pub currency : Label
  pub idempotency_key : Option Label
  pub cash_tendered_minor : Option ℕ

pub record Refund : Type 0 where
  pub id : Label
  pub payment_id : Label
  pub amount_minor : ℕ
  pub reason : Label
  pub status : RefundStatus
  pub initiated_by_user_id : Label

pub record PaymentEvent : Type 0 where
  pub id : Label
  pub provider_event_id : Label
  pub event_type : Label
  pub payment_id : Option Label
  pub payload : Label
  pub processed_at : Option ℕ
