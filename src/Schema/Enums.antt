-- ===== src/Schema/Enums.antt =====
-- The enum tuples of src/database/schema/enums.ts, with the equality that `===` gives them.
use cafe_pos.Prelude.{ℕ, ◌≡◌, ◌↔◌, Bool, true, List, arith, ◌==◌, any}

pub data UserRole : Type 0 where
  admin manager cashier barista : UserRole

pub data DeviceStatus : Type 0 where
  pending active paused revoked : DeviceStatus

pub data OrderChannel : Type 0 where
  kiosk counter : OrderChannel

pub data OrderStatus : Type 0 where
  draft pending_payment paid in_preparation ready completed cancelled expired refunded : OrderStatus

pub data ActorType : Type 0 where
  user device system : ActorType

pub data PaymentProviderName : Type 0 where
  stripe cash : PaymentProviderName

pub data PaymentMethod : Type 0 where
  card promptpay cash : PaymentMethod

pub data PaymentStatus : Type 0 where
  pending processing succeeded failed cancelled expired : PaymentStatus

pub data RefundStatus : Type 0 where
  pending succeeded failed : RefundStatus

-- Places in the tuples, by which two values are compared.
abbrev OrderStatus_index : OrderStatus → ℕ
OrderStatus_index OrderStatus.draft = 0
OrderStatus_index OrderStatus.pending_payment = 1
OrderStatus_index OrderStatus.paid = 2
OrderStatus_index OrderStatus.in_preparation = 3
OrderStatus_index OrderStatus.ready = 4
OrderStatus_index OrderStatus.completed = 5
OrderStatus_index OrderStatus.cancelled = 6
OrderStatus_index OrderStatus.expired = 7
OrderStatus_index OrderStatus.refunded = 8

unfoldable pub order_status_eq : OrderStatus → OrderStatus → Bool
order_status_eq a b = OrderStatus_index a == OrderStatus_index b

abbrev PaymentStatus_index : PaymentStatus → ℕ
PaymentStatus_index PaymentStatus.pending = 0
PaymentStatus_index PaymentStatus.processing = 1
PaymentStatus_index PaymentStatus.succeeded = 2
PaymentStatus_index PaymentStatus.failed = 3
PaymentStatus_index PaymentStatus.cancelled = 4
PaymentStatus_index PaymentStatus.expired = 5

unfoldable pub payment_status_eq : PaymentStatus → PaymentStatus → Bool
payment_status_eq a b = PaymentStatus_index a == PaymentStatus_index b

abbrev OrderChannel_index : OrderChannel → ℕ
OrderChannel_index OrderChannel.kiosk = 0
OrderChannel_index OrderChannel.counter = 1

unfoldable pub order_channel_eq : OrderChannel → OrderChannel → Bool
order_channel_eq a b = OrderChannel_index a == OrderChannel_index b

-- `list.includes(status)`.
abbrev pub includes_order_status : List OrderStatus → OrderStatus → Bool
includes_order_status xs s = any (λ x. order_status_eq x s) xs

abbrev pub includes_payment_status : List PaymentStatus → PaymentStatus → Bool
includes_payment_status xs s = any (λ x. payment_status_eq x s) xs

pub order_status_eq_iff : (a b : OrderStatus) → (order_status_eq a b ≡ true) ↔ (a ≡ b)
unfolding order_status_eq
order_status_eq_iff a b = ground arith

pub payment_status_eq_iff : (a b : PaymentStatus) → (payment_status_eq a b ≡ true) ↔ (a ≡ b)
unfolding payment_status_eq
payment_status_eq_iff a b = ground arith
