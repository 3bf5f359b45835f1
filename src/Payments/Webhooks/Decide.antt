-- ===== src/Payments/Webhooks/Decide.antt =====
-- src/payments/webhooks/decide-payment-outcome.ts: what one gateway event means for our rows.
use cafe_pos.Prelude.{ℕ, Bool, Option, none, some, List, [], ◌∷◌, ◌==◌, if◌then◌else◌}
use cafe_pos.Schema.Enums.{
  OrderStatus, PaymentStatus, order_status_eq, payment_status_eq, includes_payment_status,
}
use cafe_pos.Schema.Rows.{Label, Order, Payment}
use cafe_pos.Payments.Provider.{GatewayOutcome, ignored}

-- The texts `why`, each by the test that gives it.
pub data Why : Type 0 where
  not_acted_on no_payment_row : Why
  already_in_status : PaymentStatus → Why
  contradicts_settled : PaymentStatus → Why
  amount_differs : ℕ → ℕ → Why
  currency_differs : Label → Label → Why
  no_such_order : Label → Why
  already_paid : Why
  order_is : OrderStatus → Why

pub data PaymentDecision : Type 0 where
  -- the payment and the order
  mark_paid : Label → Label → PaymentDecision
  mark_payment : Label → PaymentStatus → PaymentDecision
  skip refuse : Why → PaymentDecision

abbrev pub settled : List PaymentStatus
settled = PaymentStatus.succeeded ∷ []

abbrev pub is_settled : PaymentStatus → Bool
is_settled s = includes_payment_status settled s

unfoldable decide_success : ℕ → Label → Payment → Option Order → PaymentDecision
unfolding order_status_eq
decide_success amount currency payment order =
    if payment.amount_minor == amount
    then (if payment.currency == currency
        then (elim order [
          | none ↦ refuse (no_such_order payment.order_id)
          | some o ↦
              if order_status_eq o.status OrderStatus.paid
              then skip already_paid
              else (if order_status_eq o.status OrderStatus.pending_payment
                  then mark_paid payment.id o.id
                  else refuse (order_is o.status))
        ])
        else refuse (currency_differs currency payment.currency))
    else refuse (amount_differs amount payment.amount_minor)

-- A failure or a cancellation, as the status that it would give the payment.
unfoldable pub decide_unsuccessful : PaymentStatus → Payment → PaymentDecision
unfolding payment_status_eq
decide_unsuccessful status payment =
    if payment_status_eq payment.status status
    then skip (already_in_status status)
    else (if is_settled payment.status
        then refuse (contradicts_settled payment.status)
        else mark_payment payment.id status)

unfoldable pub decide_payment_outcome :
    GatewayOutcome → Option Payment → Option Order → PaymentDecision
unfolding decide_success decide_unsuccessful
decide_payment_outcome ignored payment order = skip not_acted_on
decide_payment_outcome (GatewayOutcome.succeeded intent amount currency) none order =
    refuse no_payment_row
decide_payment_outcome (GatewayOutcome.succeeded intent amount currency) (some p) order =
    decide_success amount currency p order
decide_payment_outcome (GatewayOutcome.failed intent reason) none order = refuse no_payment_row
decide_payment_outcome (GatewayOutcome.failed intent reason) (some p) order =
    decide_unsuccessful PaymentStatus.failed p
decide_payment_outcome (GatewayOutcome.cancelled intent) none order = refuse no_payment_row
decide_payment_outcome (GatewayOutcome.cancelled intent) (some p) order =
    decide_unsuccessful PaymentStatus.cancelled p
