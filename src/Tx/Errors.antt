-- ===== src/Tx/Errors.antt =====
-- The refusals of src/orders/errors, src/payments/errors and src/common/errors that the modelled
-- code throws, with the values that the client is shown.
use cafe_pos.Prelude.Int.{ℤ}
use cafe_pos.Prelude.{ℕ, List}
use cafe_pos.Schema.Enums.{OrderChannel, OrderStatus}
use cafe_pos.Schema.Rows.{Label}

-- `OptionSelectionViolation` of src/orders/errors/orders.errors.ts, by its `rule`.
pub data OptionSelectionViolation : Type 0 where
  duplicate_option unknown_option : ℕ → List Label → OptionSelectionViolation
  -- item index, group id and name, how many were selected, the allowed bounds
  min_select max_select : ℕ → Label → Label → ℕ → ℕ → ℕ → OptionSelectionViolation

pub data Resource : Type 0 where
  order payment : Resource

pub data AppError : Type 0 where
  resource_not_found : Resource → Label → AppError
  order_invalid_transition : OrderStatus → OrderStatus → AppError
  order_channel_mismatch : OrderChannel → OrderChannel → AppError
  order_draft_not_allowed device_paused : AppError
  order_item_unavailable : List Label → List Label → AppError
  option_selection_invalid : List OptionSelectionViolation → AppError
  idempotency_conflict : AppError
  price_mismatch : ℕ → ℕ → AppError
  payment_already_active : Label → AppError
  order_not_payable : OrderStatus → AppError
  order_expired order_already_paid cash_payment_not_allowed : AppError
  cash_tender_insufficient : ℕ → ℕ → AppError
  refund_exceeds_remaining : ℕ → ℤ → AppError
  payment_not_refundable : AppError
  dependency_unavailable : AppError
  -- the private signal of src/orders/idempotency/idempotency.store.ts
  key_already_reserved : AppError
  -- a fault that no code above recognises: a TypeError, a failure of the database
  internal : AppError
