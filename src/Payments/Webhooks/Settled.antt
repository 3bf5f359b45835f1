-- ===== src/Payments/Webhooks/Settled.antt =====
-- What the processor of the inbox never undoes, and what it does once.
use cafe_pos.Payments.Webhooks.Decide.{
  PaymentDecision, refuse, decide_payment_outcome, skip, mark_payment, mark_paid,
}
use cafe_pos.Orders.Transition.{transition_order}
use cafe_pos.Payments.Tables.{HasSucceeded, guarded_write-HasSucceeded, settle-HasSucceeded}
use cafe_pos.Payments.Provider.{PaymentProvider}
use cafe_pos.Tx.{run, DomainEvent}
use cafe_pos.Schema.Enums.{PaymentStatus, PaymentMethod}
use cafe_pos.Payments.Webhooks.Processor.{
  mark_payment_tx, mark_processed, mark_paid_tx, apply_decision, process_event, is_unprocessed,
  load, resolve_method, apply,
}
use cafe_pos.Prelude.{ℕ, Option, none, some, List, arith, Bool, find?}
use cafe_pos.Schema.Rows.{Label, Payment, PaymentEvent}
use cafe_pos.Schema.Store.{Db}

mark_payment-HasSucceeded :
    (delivers : List DomainEvent → Bool) (event_id j i : Label) (status : PaymentStatus) (now : ℕ)
    (db : Db)
    → HasSucceeded i db.payments
    → HasSucceeded i (run delivers (mark_payment_tx event_id j status now) db).db.payments
unfolding run mark_payment_tx mark_processed
mark_payment-HasSucceeded delivers event_id j i status now db h =
    guarded_write-HasSucceeded i j status db.payments h

mark_paid-HasSucceeded :
    (delivers : List DomainEvent → Bool) (event_id j order_id i : Label)
    (method : Option PaymentMethod) (now : ℕ) (db : Db)
    → HasSucceeded i db.payments
    → HasSucceeded i (run delivers (mark_paid_tx event_id j order_id method now) db).db.payments
unfolding run mark_paid_tx mark_processed transition_order
mark_paid-HasSucceeded delivers event_id j order_id i method now db h =
    ground (arith, settle-HasSucceeded i j method db.payments h)

module _ (provider : PaymentProvider) (delivers : List DomainEvent → Bool) (now : ℕ) where
  apply_decision-HasSucceeded :
      (event_id i : Label) (payment : Option Payment) (d : PaymentDecision) (read db : Db)
      → HasSucceeded i db.payments
      → HasSucceeded i (apply_decision provider delivers now event_id payment d read db).db.payments
  unfolding apply_decision mark_processed
  apply_decision-HasSucceeded event_id i payment (refuse why) read db h = h
  apply_decision-HasSucceeded event_id i payment (skip why) read db h = h
  apply_decision-HasSucceeded event_id i payment (mark_payment j status) read db h =
      mark_payment-HasSucceeded delivers event_id j i status now db h
  apply_decision-HasSucceeded event_id i payment (mark_paid j order_id) read db h =
      mark_paid-HasSucceeded delivers event_id j order_id i (resolve_method provider j read) now db
        h

  apply-HasSucceeded :
      (event_id i : Label) (event : Option PaymentEvent) (read db : Db)
      → HasSucceeded i db.payments
      → HasSucceeded i (apply provider delivers now event_id event read db).db.payments
  unfolding apply
  apply-HasSucceeded event_id i none read db h = h
  apply-HasSucceeded event_id i (some event) read db h =
      let outcome = provider.interpret event.payload in
      let (payment, order) = load outcome read in
      apply_decision-HasSucceeded event_id i payment (decide_payment_outcome outcome payment order)
        read db h

  -- A payment that has succeeded stays succeeded under the processing of any event, judged on any
  -- read of the store, earlier or not: a late failure cannot overwrite a success.
  pub process_event-HasSucceeded :
      (event_id i : Label) (read db : Db)
      → HasSucceeded i db.payments
      → HasSucceeded i (process_event provider delivers now event_id read db).db.payments
  unfolding process_event
  process_event-HasSucceeded event_id i read db h =
      apply-HasSucceeded event_id i (find? (is_unprocessed event_id) read.events) read db h
