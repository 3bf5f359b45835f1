-- ===== src/Payments/Webhooks/Judgement.antt =====
-- What the judgement of an event promises about money.
use cafe_pos.Prelude.{◌≡◌, ◌≢◌, ◌↔◌, ◌⊎◌, Option, some, arith}
use cafe_pos.Schema.Enums.{OrderStatus, PaymentStatus}
use cafe_pos.Schema.Rows.{Label, Order, Payment}
use cafe_pos.Payments.Provider.{GatewayOutcome}
use cafe_pos.Payments.Webhooks.Decide.{mark_paid, mark_payment, decide_payment_outcome}

-- An event marks an order paid exactly when it is a success whose amount and currency are the
-- payment's and whose order waits for payment.
pub marks_paid_iff :
    (outcome : GatewayOutcome) (p : Payment) (o : Order)
    → (decide_payment_outcome outcome (some p) (some o) ≡ mark_paid p.id o.id) ↔ (
        (intent : Label) × (outcome ≡ GatewayOutcome.succeeded intent p.amount_minor p.currency)
        × (o.status ≡ OrderStatus.pending_payment))
unfolding decide_payment_outcome
marks_paid_iff (GatewayOutcome.succeeded i a c) p o =
    (λ h. (i, ground arith, ground arith), λ (j, e, st). ground arith)
marks_paid_iff (GatewayOutcome.failed i r) p o = (λ h. ground arith, λ (j, e, st). cc)
marks_paid_iff (GatewayOutcome.cancelled i) p o = (λ h. ground arith, λ (j, e, st). cc)
marks_paid_iff GatewayOutcome.ignored p o = (λ h. cc, λ (j, e, st). cc)

-- A decision to write a payment's status is never about a payment that has succeeded, writes
-- `FAILED` or `CANCELLED`, and changes the status that was read.
pub marks_payment_unsettled :
    (outcome : GatewayOutcome) (p : Payment) (o : Option Order) (i : Label) (status : PaymentStatus)
    → decide_payment_outcome outcome (some p) o ≡ mark_payment i status
    → (i ≡ p.id)
      × (p.status ≢ PaymentStatus.succeeded)
      × (p.status ≢ status)
      × ((status ≡ PaymentStatus.failed) ⊎ (status ≡ PaymentStatus.cancelled))
unfolding decide_payment_outcome
marks_payment_unsettled (GatewayOutcome.succeeded j a c) p o i status h = ground arith
marks_payment_unsettled (GatewayOutcome.failed j r) p o i status h = ground arith
marks_payment_unsettled (GatewayOutcome.cancelled j) p o i status h = ground arith
marks_payment_unsettled GatewayOutcome.ignored p o i status h = cc
