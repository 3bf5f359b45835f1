-- ===== src/Orders/Cancel.antt =====
-- src/orders/cancel/cancel-order.service.ts: `POST /orders/:id/cancel`. The order and its live
-- payment are read, and the gateway is asked, before the transaction (`read`); the transaction
-- runs on the store as it is by then (`db`). Logs and metrics are left out.
use cafe_pos.Prelude.{
  Bool, true, ◌&&◌, Option, none, some, List, [], ◌∷◌, ◌==◌, find?, update_where, option_eq,
  if◌then◌else◌,
}
use cafe_pos.Schema.Enums.{OrderStatus, PaymentStatus, includes_order_status}
use cafe_pos.Schema.Rows.{Label, Order, Payment}
use cafe_pos.Schema.Store.{Db, find_live}
use cafe_pos.Identity.Principal.{Principal, staff, device}
use cafe_pos.Tx.{
  Tx, ◌>>=◌, ◌>>◌, pure, execute, emit, Result, ok, err, Outcome, run, DomainEvent, order_updated,
  resource_not_found, order, order_invalid_transition, order_already_paid, dependency_unavailable,
}
use cafe_pos.Orders.Transition.{TransitionRequest, transition_order}
use cafe_pos.Orders.Summary.{OrderSummary, to_order_summary}
use cafe_pos.Orders.Status.{actor_of}
use cafe_pos.Payments.Provider.{
  PaymentProvider, CancelIntentOutcome, intent_cancelled, already_succeeded, unreachable,
}
use cafe_pos.Payments.Webhooks.Processor.{is_unsettled, with_status}

abbrev pub cancellable : List OrderStatus
cancellable = OrderStatus.draft ∷ OrderStatus.pending_payment ∷ []

-- The lookup's filter: a device sees its own orders.
abbrev pub is_visible_to : Principal → Order → Bool
is_visible_to (device d) o = option_eq o.kiosk_device_id (some d)
is_visible_to (staff _ _ _) o = true

abbrev answer_cancel : CancelIntentOutcome → Result (Unit {0})
answer_cancel intent_cancelled = ok tt
answer_cancel already_succeeded = err order_already_paid
answer_cancel unreachable = err dependency_unavailable

-- The question to the gateway, if the order has a live intent.
unfoldable pub cancel_live_intent : PaymentProvider → Option Payment → Result (Unit {0})
cancel_live_intent provider none = ok tt
cancel_live_intent provider (some p) = elim p.provider_intent_id [
  | none ↦ ok tt
  | some i ↦ answer_cancel (provider.cancel_intent i)
]

abbrev pub cancel_request : Principal → Label → Option Label → OrderStatus → TransitionRequest
cancel_request principal order_id reason from = record {
  order_id = order_id;
  from = from;
  to = OrderStatus.cancelled;
  actor = actor_of principal;
  reason = reason;
}

abbrev pub cancel_payment : Option Payment → Db → Db
cancel_payment none db = db
cancel_payment (some p) db = record db {
  payments = update_where (is_unsettled p.id) (with_status PaymentStatus.cancelled) db.payments;
}

unfoldable pub cancel_tx :
    Principal → Label → Option Label → OrderStatus → Option Payment → Tx OrderSummary
cancel_tx principal order_id reason current live = do
  updated ← transition_order (cancel_request principal order_id reason current)
  execute (cancel_payment live)
  emit (order_updated order_id updated.kiosk_device_id)
  pure (to_order_summary updated)

abbrev pub refused : {A : Type 0} → Result A → Db → Outcome A
refused r db = record { result = r; db = db; announced = [] }

module _ (provider : PaymentProvider) (delivers : List DomainEvent → Bool) where
  abbrev pub cancel_answered :
      Principal
      → Label
      → Option Label
      → OrderStatus
      → Option Payment
      → Result (Unit {0})
      → Db
      → Outcome OrderSummary
  cancel_answered principal order_id reason current live (err e) db = refused (err e) db
  cancel_answered principal order_id reason current live (ok _) db =
      run delivers (cancel_tx principal order_id reason current live) db

  abbrev pub cancel_found :
      Principal → Label → Option Label → Option Order → Db → Db → Outcome OrderSummary
  cancel_found principal order_id reason none read db =
      refused (err (resource_not_found order order_id)) db
  cancel_found principal order_id reason (some current) read db =
      if includes_order_status cancellable current.status
      then cancel_answered principal order_id reason current.status (find_live order_id read)
          (cancel_live_intent provider (find_live order_id read)) db
      else refused (err (order_invalid_transition current.status OrderStatus.cancelled)) db

  unfoldable pub cancel : Principal → Label → Option Label → Db → Db → Outcome OrderSummary
  cancel principal order_id reason read db =
      cancel_found principal order_id reason
        (find? (λ o. o.id == order_id && is_visible_to principal o) read.orders) read db
