-- ===== src/Payments/Webhooks/Success.antt =====
-- What `markPaid` of src/payments/webhooks/payment-event-processor.service.ts does in one
-- transaction.
use cafe_pos.Tx.Ensures.{bind_ok}
use cafe_pos.Orders.Transition.{move_order, transition_order}
use cafe_pos.Orders.Transition.Guard.{transition_accepts, move_order-Moved}
use cafe_pos.Payments.Tables.{payment_status_in, HasSucceeded}
use cafe_pos.Schema.Store.{status_in}
use cafe_pos.Tx.{Session, ok, order_paid, payment_succeeded}
use cafe_pos.Schema.Enums.{PaymentMethod, OrderStatus}
use cafe_pos.Payments.Webhooks.Processor.{
  mark_paid_tx, mark_processed, is_unprocessed, settle_payment, paid_request, stamp,
}
use cafe_pos.Schema.Rows.{Label, Payment, PaymentEvent}
use cafe_pos.Prelude.{
  [], ◌∷◌, false, some, none, Option, ℕ, List, any, ◌≡◌, ◌≢◌, update_where, ◌==◌, ◌++◌, arith, refl,
  append_assoc,
}

settle_self :
    (m : Option PaymentMethod) (j : Label) (ps : List Payment)
    → payment_status_in j ps ≢ none
    → HasSucceeded j (update_where (λ p. p.id == j) (settle_payment m) ps)
settle_self m j [] there = absurd (there refl)
settle_self none j (p ∷ ps) there = ground (arith, settle_self none j ps, there)
settle_self (some x) j (p ∷ ps) there = ground (arith, settle_self (some x) j ps, there)

stamped_once :
    (event_id payment_id : Label) (now : ℕ) (es : List PaymentEvent)
    → any
        (is_unprocessed event_id)
        (update_where (is_unprocessed event_id) (stamp (some payment_id) now) es)
      ≡ false
stamped_once event_id payment_id now [] = refl
stamped_once event_id payment_id now (e ∷ es) =
    ground (arith, stamped_once event_id payment_id now es)

-- A success whose order waits for payment is settled as one: the order is PAID, the payment
-- SUCCEEDED, the event is processed, and the kitchen and the kiosk are told, in this order.
pub mark_paid_tx-settles :
    (event_id j o : Label) (m : Option PaymentMethod) (now : ℕ) (s : Session)
    → status_in o s.db.orders ≡ some OrderStatus.pending_payment
    → payment_status_in j s.db.payments ≢ none
    → (t : Session) × (device : Option Label) × (mark_paid_tx event_id j o m now s ≡ ok (tt, t))
      × (status_in o t.db.orders ≡ some OrderStatus.paid)
      × HasSucceeded j t.db.payments
      × (any (is_unprocessed event_id) t.db.events ≡ false)
      × (t.pending ≡ s.pending ++ (order_paid o device ∷ payment_succeeded o device j ∷ []))
unfolding mark_paid_tx mark_processed
mark_paid_tx-settles event_id j o m now s waits there =
    let rq = paid_request o in
    let (x, moved, _) = transition_accepts rq s waits in
    let d = x.kiosk_device_id in
    let t : Session = record {
      db = record (move_order rq s.db) {
        payments = update_where (λ p. p.id == j) (settle_payment m) s.db.payments;
        events = update_where (is_unprocessed event_id) (stamp (some j) now) s.db.events;
      };
      pending = (s.pending ++ (order_paid o d ∷ [])) ++ (payment_succeeded o d j ∷ []);
    } in
    (
      t,
      d,
      bind_ok (transition_order rq) _ s x (record s { db = move_order rq s.db }) moved,
      (move_order-Moved rq s.db waits).is,
      settle_self m j s.db.payments there,
      stamped_once event_id j now s.db.events,
      append_assoc s.pending (order_paid o d ∷ []) (payment_succeeded o d j ∷ []),
    )
