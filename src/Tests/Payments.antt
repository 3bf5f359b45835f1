-- ===== src/Tests/Payments.antt =====
-- Payments and the inbox.
use cafe_pos.Identity.Principal.{Principal}
use cafe_pos.Payments.Webhooks.Success.{mark_paid_tx-settles}
use cafe_pos.Payments.Refunds.Books.{refund_tx-books}
use cafe_pos.Payments.Create.Payable.{load_payable_order_iff}
use cafe_pos.Payments.Create.Unpayable.{zero_total_unpayable}
use cafe_pos.Payments.Create.{load_payable_order, create_payment, Keyed, CreatePaymentInput}
use cafe_pos.Payments.Refunds.{
  CreateRefundInput, RefundView, refund_tx, refunded_so_far, refund_row,
}
use cafe_pos.Orders.State.{is_staff_transition}
use cafe_pos.Orders.Status.{change_status}
use cafe_pos.Orders.Summary.{OrderSummary}
use cafe_pos.Payments.Webhooks.Judgement.{marks_payment_unsettled, marks_paid_iff}
use cafe_pos.Payments.Webhooks.Settled.{process_event-HasSucceeded}
use cafe_pos.Tests.{takes_all, gateway, cashier}
use cafe_pos.Tests.Orders.{waiting, one_order}
use cafe_pos.Payments.Webhooks.Processor.{process_event, mark_paid_tx, is_unprocessed}
use cafe_pos.System.Safety.{empty_store}
use cafe_pos.Tx.{
  run, Tx, AppError, finish, order_invalid_transition, err, Session, ok, order_paid,
  payment_succeeded,
}
use cafe_pos.Payments.Webhooks.Decide.{
  decide_payment_outcome, decide_unsuccessful, mark_paid, mark_payment,
}
use cafe_pos.Payments.Tables.{HasSucceeded}
use cafe_pos.Schema.Store.{Db, find_order, status_in}
use cafe_pos.Payments.Webhooks.Inbox.{
  GatewayEvent, record_event, is_recorded, AreDeduplicated, record_event_once,
}
use cafe_pos.Schema.Rows.{Payment, Label, Order}
use cafe_pos.Prelude.{
  [], ◌∷◌, true, some, none, ◌≡◌, ◌≢◌, ◌⊎◌, ◌↔◌, refl, false, ◌+◌, Option, ◌≤◌, any, ◌++◌, All,
}
use cafe_pos.Schema.Enums.{
  RefundStatus, PaymentMethod, PaymentStatus, OrderStatus, PaymentProviderName, payment_status_eq,
  order_status_eq,
}
use cafe_pos.Payments.Provider.{GatewayOutcome}

abbrev captured : Payment
captured = record {
  id = 30;
  order_id = 1;
  provider = PaymentProviderName.stripe;
  provider_intent_id = some 50;
  method = none;
  status = PaymentStatus.succeeded;
  amount_minor = 235;
  currency = 764;
  idempotency_key = none;
  cash_tendered_minor = none;
}

abbrev late_failure : GatewayEvent
late_failure = record { event_id = 34; event_type = 35; created_at = 2400; payload = 61 }

-- The payment was still pending when the failure was judged.
abbrev before : Db
before = record empty_store {
  payments = record captured { status = PaymentStatus.pending } ∷ [];
  events =
      record {
        id = 33;
        provider_event_id = 34;
        event_type = 35;
        payment_id = none;
        payload = 61;
        processed_at = none;
      }
      ∷ [];
}

abbrev settled_store : Db
settled_store = record before { payments = captured ∷ [] }

process_event-HasSucceeded_example :
    HasSucceeded 30 (process_event gateway takes_all 3000 33 before settled_store).db.payments
process_event-HasSucceeded_example =
    process_event-HasSucceeded gateway takes_all 3000 33 30 before settled_store refl

marks_paid_iff_example :
    (decide_payment_outcome (GatewayOutcome.succeeded 50 235 764) (some captured) (some waiting)
      ≡ mark_paid captured.id waiting.id)
    ↔ ((intent : Label) × (GatewayOutcome.succeeded 50 235 764
          ≡ GatewayOutcome.succeeded intent captured.amount_minor captured.currency)
        × (waiting.status ≡ OrderStatus.pending_payment))
marks_paid_iff_example = marks_paid_iff (GatewayOutcome.succeeded 50 235 764) captured waiting

abbrev pending_payment_row : Payment
pending_payment_row = record captured { status = PaymentStatus.pending }

failure_marks :
    decide_payment_outcome (GatewayOutcome.failed 50 none) (some pending_payment_row) none
    ≡ mark_payment 30 PaymentStatus.failed
unfolding decide_payment_outcome decide_unsuccessful payment_status_eq
failure_marks = refl

marks_payment_unsettled_example :
    (30 ≡ pending_payment_row.id)
    × (pending_payment_row.status ≢ PaymentStatus.succeeded)
    × (pending_payment_row.status ≢ PaymentStatus.failed)
    × ((PaymentStatus.failed ≡ PaymentStatus.failed)
        ⊎ (PaymentStatus.failed ≡ PaymentStatus.cancelled))
marks_payment_unsettled_example =
    marks_payment_unsettled (GatewayOutcome.failed 50 none) pending_payment_row none 30
      PaymentStatus.failed failure_marks

record_event_once_example :
    let (_, db') = record_event 33 late_failure empty_store in
    (is_recorded late_failure.event_id db'.events ≡ true)
    × AreDeduplicated db'.events
    × (record_event 36 late_failure db' ≡ (none, db'))
record_event_once_example = record_event_once 33 36 late_failure empty_store tt

abbrev too_early : Tx OrderSummary
too_early = change_status cashier 1 OrderStatus.ready

abbrev not_paid : AppError
not_paid = order_invalid_transition OrderStatus.pending_payment OrderStatus.ready

refused_run : (run takes_all too_early one_order.db).result ≡ err not_paid
unfolding run finish change_status is_staff_transition order_status_eq
refused_run = refl

-- A partial refund.
abbrev some_back : CreateRefundInput
some_back = record { amount_minor = 100; reason = 90 }

abbrev books : Session
books = record { db = record settled_store { orders = waiting ∷ [] }; pending = [] }

abbrev books_after : Session
books_after = record books { db = record books.db { refunds = refund_row 40 7 30 some_back ∷ [] } }

abbrev partial : RefundView
partial = record {
  id = 40;
  payment_id = 30;
  amount_minor = 100;
  reason = 90;
  status = RefundStatus.succeeded;
  fully_refunded = false;
}

partly_refunded : refund_tx 40 7 some_back captured waiting books ≡ ok (partial, books_after)
unfolding refund_tx
partly_refunded = refl

refund_tx-books_example :
    (refunded_so_far captured.id books_after.db.refunds
      ≡ refunded_so_far captured.id books.db.refunds + some_back.amount_minor)
    × (refunded_so_far captured.id books_after.db.refunds ≤ captured.amount_minor)
    × ((partial.fully_refunded ≡ true)
        ↔ (refunded_so_far captured.id books_after.db.refunds ≡ captured.amount_minor))
    × (partial.fully_refunded ≡ true
        → status_in waiting.id books_after.db.orders ≡ some OrderStatus.refunded)
    × (partial.fully_refunded ≡ false → books_after.db.orders ≡ books.db.orders)
refund_tx-books_example =
    refund_tx-books 40 7 some_back captured waiting books books_after partial (refl, tt)
      partly_refunded

load_payable_order_iff_example : (load_payable_order cashier 1 one_order.db ≡ ok waiting) ↔ (
    (find_order 1 one_order.db ≡ some waiting)
    × ((d : Label) → cashier ≡ Principal.device d → waiting.kiosk_device_id ≡ some d)
    × (waiting.status ≡ OrderStatus.pending_payment)
    × All
        (λ p.
          p.order_id ≡ 1
          → (p.status ≢ PaymentStatus.pending) × (p.status ≢ PaymentStatus.processing))
        one_order.db.payments)
load_payable_order_iff_example = load_payable_order_iff cashier 1 one_order.db waiting

abbrev free_order : Order
free_order = record waiting { total_minor = 0 }

abbrev free_store : Db
free_store = record empty_store { orders = free_order ∷ [] }

abbrev no_cash : CreatePaymentInput
no_cash = record { method = PaymentMethod.cash; cash_tendered_minor = some 0 }

abbrev bare : Keyed
bare = none

zero_total_unpayable_example :
    ((create_payment gateway takes_all 5 30 cashier 1 no_cash bare free_store free_store).db
      ≡ free_store)
    × (bare ≡ none
        → (e : AppError) × ((create_payment gateway takes_all 5 30 cashier 1 no_cash bare free_store
              free_store).result
            ≡ err e))
zero_total_unpayable_example =
    zero_total_unpayable gateway takes_all 5 30 cashier 1 no_cash bare free_store free_store
      free_order refl refl

-- The order waits, the gateway has captured.
abbrev captured_unrecorded : Session
captured_unrecorded = record { db = record before { orders = waiting ∷ [] }; pending = [] }

mark_paid_tx-settles_example :
    (t : Session) × (device : Option Label) × (mark_paid_tx 33 30 1
        (some PaymentMethod.promptpay)
        3000
        captured_unrecorded
      ≡ ok (tt, t))
    × (status_in 1 t.db.orders ≡ some OrderStatus.paid)
    × HasSucceeded 30 t.db.payments
    × (any (is_unprocessed 33) t.db.events ≡ false)
    × (t.pending
        ≡ captured_unrecorded.pending ++ (order_paid 1 device ∷ payment_succeeded 1 device 30 ∷ []))
mark_paid_tx-settles_example =
    mark_paid_tx-settles 33 30 1 (some PaymentMethod.promptpay) 3000 captured_unrecorded refl
      (λ e. cc)
