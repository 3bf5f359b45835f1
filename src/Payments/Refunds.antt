-- ===== src/Payments/Refunds.antt =====
-- src/payments/refunds/create-refund.service.ts: `POST /payments/:id/refunds`. The payment and its
-- order are read before the transaction (`read`). Locking the payment's row makes the transactions
-- on one payment follow one another, as all transactions do here.
pub mod Books
use cafe_pos.Prelude.{
  ℕ, ◌+◌, Bool, true, false, Option, none, some, List, ◌∷◌, ◌==◌, ltb, if◌then◌else◌, sum_where,
}
use cafe_pos.Prelude.Int.{sub_ℕ}
use cafe_pos.Schema.Enums.{OrderStatus, PaymentStatus, RefundStatus, ActorType, payment_status_eq}
use cafe_pos.Schema.Rows.{Label, Order, Payment, Refund}
use cafe_pos.Schema.Store.{Db, find_order, find_payment}
use cafe_pos.Tx.{
  Tx, ◌>>=◌, ◌>>◌, pure, throw_if, query, execute, emit, err, Outcome, run, DomainEvent,
  order_updated, resource_not_found, order, payment, payment_not_refundable,
  refund_exceeds_remaining, internal,
}
use cafe_pos.Orders.Transition.{TransitionRequest, transition_order}
use cafe_pos.Orders.Cancel.{refused}

pub record CreateRefundInput : Type 0 where
  pub amount_minor : ℕ
  pub reason : Label

pub record RefundView : Type 0 where
  pub id : Label
  pub payment_id : Label
  pub amount_minor : ℕ
  pub reason : Label
  pub status : RefundStatus
  pub fully_refunded : Bool

-- `sum(refunds.amountMinor) WHERE payment_id = i`.
abbrev pub refunded_so_far : Label → List Refund → ℕ
refunded_so_far i rs = sum_where (λ r. r.payment_id == i) (λ r. r.amount_minor) rs

abbrev pub refund_request : Label → CreateRefundInput → Order → TransitionRequest
refund_request user_id input o = record {
  order_id = o.id;
  from = o.status;
  to = OrderStatus.refunded;
  actor = record { actor_type = ActorType.user; actor_id = some user_id };
  reason = some input.reason;
}

abbrev pub refund_row : Label → Label → Label → CreateRefundInput → Refund
refund_row refund_id user_id payment_id input = record {
  id = refund_id;
  payment_id = payment_id;
  amount_minor = input.amount_minor;
  reason = input.reason;
  status = RefundStatus.succeeded;
  initiated_by_user_id = user_id;
}

-- Only the refund that takes the last of the captured amount moves the order.
abbrev pub move_if_full : Bool → Label → CreateRefundInput → Order → Tx (Unit {0})
move_if_full false user_id input o = pure tt
move_if_full true user_id input o = do
  updated ← transition_order (refund_request user_id input o)
  emit (order_updated o.id updated.kiosk_device_id)

-- `refund_id` is the id that the new row gets. `refunds_amount_check` refuses an amount of 0.
unfoldable pub refund_tx : Label → Label → CreateRefundInput → Payment → Order → Tx RefundView
refund_tx refund_id user_id input p o = do
  already ← query (λ db. refunded_so_far p.id db.refunds)
  throw_if (ltb p.amount_minor (already + input.amount_minor))
      (refund_exceeds_remaining input.amount_minor (sub_ℕ p.amount_minor already))
  throw_if (input.amount_minor == 0) internal
  execute (λ db. record db { refunds = refund_row refund_id user_id p.id input ∷ db.refunds })
  move_if_full (already + input.amount_minor == p.amount_minor) user_id input o
  pure (record {
    id = refund_id;
    payment_id = p.id;
    amount_minor = input.amount_minor;
    reason = input.reason;
    status = RefundStatus.succeeded;
    fully_refunded = already + input.amount_minor == p.amount_minor;
  })

module _ (delivers : List DomainEvent → Bool) (today : Label) (refund_id user_id : Label) where
  abbrev pub refund_order : CreateRefundInput → Payment → Option Order → Db → Outcome RefundView
  refund_order input p none db = refused (err (resource_not_found order p.order_id)) db
  refund_order input p (some o) db =
      if o.business_day == today
      then run delivers (refund_tx refund_id user_id input p o) db
      else refused (err payment_not_refundable) db

  abbrev pub refund_payment :
      Label → CreateRefundInput → Option Payment → Db → Db → Outcome RefundView
  refund_payment payment_id input none read db =
      refused (err (resource_not_found payment payment_id)) db
  refund_payment payment_id input (some p) read db =
      if payment_status_eq p.status PaymentStatus.succeeded
      then refund_order input p (find_order p.order_id read) db
      else refused (err payment_not_refundable) db

  unfoldable pub refund : Label → CreateRefundInput → Db → Db → Outcome RefundView
  refund payment_id input read db =
      refund_payment payment_id input (find_payment payment_id read) read db
