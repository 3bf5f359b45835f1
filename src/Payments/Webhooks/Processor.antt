-- ===== src/Payments/Webhooks/Processor.antt =====
-- src/payments/webhooks/payment-event-processor.service.ts: the inbox, drained. An event is judged
-- on what was read (`read`) and its consequence is written to the store as it is by then (`db`):
-- other transactions may have run in between. Logs and metrics are left out.
use cafe_pos.Prelude.{
  ℕ, suc, Bool, true, false, not, ◌&&◌, Option, none, some, List, [], ◌∷◌, map, ◌==◌, if◌then◌else◌,
  find?, any, select, take, update_where, is_some, option_eq,
}
use cafe_pos.Schema.Enums.{OrderStatus, PaymentStatus, PaymentMethod, ActorType, payment_status_eq}
use cafe_pos.Schema.Rows.{Label, Order, Payment, PaymentEvent}
use cafe_pos.Schema.Store.{Db, find_order, find_payment}
use cafe_pos.Tx.{
  Tx, ◌>>=◌, ◌>>◌, pure, query, execute, emit, ok, err, Outcome, run, DomainEvent, order_paid,
  payment_succeeded, payment_failed, emit_all,
}
use cafe_pos.Orders.Transition.{TransitionRequest, transition_order}
use cafe_pos.Payments.Provider.{GatewayOutcome, ignored, PaymentProvider}
use cafe_pos.Payments.Webhooks.Decide.{
  PaymentDecision, mark_paid, mark_payment, skip, refuse, is_settled, decide_payment_outcome,
}

abbrev pub max_per_tick : ℕ
max_per_tick = 100

abbrev pub is_unprocessed : Label → PaymentEvent → Bool
is_unprocessed event_id e = e.id == event_id && not (is_some e.processed_at)

-- The row with its time of processing, and the payment if there is one.
abbrev pub stamp : Option Label → ℕ → PaymentEvent → PaymentEvent
stamp none now e = record e { processed_at = some now }
stamp (some payment_id) now e = record e { processed_at = some now; payment_id = some payment_id }

-- `markProcessed`: whether it stamped the row, and the store.
unfoldable pub mark_processed : Label → Option Label → ℕ → Db → Bool × Db
mark_processed event_id payment_id now db = (
  any (is_unprocessed event_id) db.events,
  record db { events = update_where (is_unprocessed event_id) (stamp payment_id now) db.events },
)

abbrev mark_processed_tx : Label → Option Label → ℕ → Tx Bool
mark_processed_tx event_id payment_id now s =
    let (stamped, db') = mark_processed event_id payment_id now s.db in
    ok (stamped, record s { db = db' })

abbrev pub intent_of : GatewayOutcome → Option Label
intent_of (GatewayOutcome.succeeded i _ _) = some i
intent_of (GatewayOutcome.failed i _) = some i
intent_of (GatewayOutcome.cancelled i) = some i
intent_of ignored = none

-- `load`: the payment that the event names, and its order.
unfoldable pub load : GatewayOutcome → Db → Option Payment × Option Order
load outcome db = elim (intent_of outcome) [
  | none ↦ (none, none)
  | some i ↦ elim (find? (λ p. option_eq p.provider_intent_id (some i)) db.payments) [
    | none ↦ (none, none)
    | some p ↦ (some p, find_order p.order_id db)
  ]
]

-- `WHERE id = :id AND status NOT IN (SETTLED)`.
abbrev pub is_unsettled : Label → Payment → Bool
is_unsettled payment_id p = p.id == payment_id && not (is_settled p.status)

abbrev pub with_status : PaymentStatus → Payment → Payment
with_status status p = record p { status = status }

-- The event that a declined payment raises for its kiosk, if its write landed.
unfoldable pub failure_events : PaymentStatus → Option Payment → Db → List DomainEvent
failure_events status none db = []
failure_events status (some p) db =
    if payment_status_eq status PaymentStatus.failed
    then (elim (find_order p.order_id db) [
      | none ↦ []
      | some o ↦ payment_failed o.id o.kiosk_device_id p.id ∷ []
    ])
    else []

-- The transaction of `MARK_PAYMENT`: whether the write landed and stamped the event.
unfoldable pub mark_payment_tx : Label → Label → PaymentStatus → ℕ → Tx Bool
mark_payment_tx event_id payment_id status now = do
  hit ← query (λ db. find? (is_unsettled payment_id) db.payments)
  execute (λ db. record db {
    payments = update_where (is_unsettled payment_id) (with_status status) db.payments;
  })
  stamped ← mark_processed_tx event_id (some payment_id) now
  emit_all (← query (failure_events status hit))
  pure (is_some hit && stamped)

abbrev pub paid_request : Label → TransitionRequest
paid_request order_id = record {
  order_id = order_id;
  from = OrderStatus.pending_payment;
  to = OrderStatus.paid;
  actor = record { actor_type = ActorType.system; actor_id = none };
  reason = none;
}

abbrev pub settle_payment : Option PaymentMethod → Payment → Payment
settle_payment none p = record p { status = PaymentStatus.succeeded }
settle_payment (some m) p = record p { status = PaymentStatus.succeeded; method = some m }

-- The transaction of `MARK_PAID`. `method` is what `resolveMethod` answered before it opened.
unfoldable pub mark_paid_tx : Label → Label → Label → Option PaymentMethod → ℕ → Tx (Unit {0})
mark_paid_tx event_id payment_id order_id method now = do
  updated ← transition_order (paid_request order_id)
  execute (λ db. record db {
    payments = update_where (λ p. p.id == payment_id) (settle_payment method) db.payments;
  })
  mark_processed_tx event_id (some payment_id) now
  emit (order_paid order_id updated.kiosk_device_id)
  emit (payment_succeeded order_id updated.kiosk_device_id payment_id)

unfoldable pub resolve_method : PaymentProvider → Label → Db → Option PaymentMethod
resolve_method provider payment_id db = elim (find_payment payment_id db) [
  | none ↦ none
  | some p ↦ elim p.provider_intent_id [ none ↦ none | some i ↦ provider.resolve_method i ]
]

-- What `processEvent` answers for a transaction: a throw is logged and answered with `false`.
abbrev swallow : {A : Type 0} → Outcome A → Outcome Bool
swallow o = record {
  result = elim o.result [ ok _ ↦ ok true | err _ ↦ ok false ];
  db = o.db;
  announced = o.announced;
}

abbrev unchanged : Bool → Db → Outcome Bool
unchanged b db = record { result = ok b; db = db; announced = [] }

abbrev payment_id_of : Option Payment → Option Label
payment_id_of none = none
payment_id_of (some p) = some p.id

module _ (provider : PaymentProvider) (delivers : List DomainEvent → Bool) (now : ℕ) where
  unfoldable pub apply_decision : Label → Option Payment → PaymentDecision → Db → Db → Outcome Bool
  apply_decision event_id payment (refuse why) read db = unchanged false db
  apply_decision event_id payment (skip why) read db =
      unchanged false (mark_processed event_id (payment_id_of payment) now db).1
  apply_decision event_id payment (mark_payment payment_id status) read db =
      swallow (run delivers (mark_payment_tx event_id payment_id status now) db)
  apply_decision event_id payment (mark_paid payment_id order_id) read db = swallow (
      run delivers
        (mark_paid_tx event_id payment_id order_id (resolve_method provider payment_id read) now)
        db)

  -- `apply`, on the row that was found unprocessed, if one was.
  unfoldable pub apply : Label → Option PaymentEvent → Db → Db → Outcome Bool
  apply event_id none read db = unchanged false db
  apply event_id (some event) read db =
      let outcome = provider.interpret event.payload in
      let (payment, order) = load outcome read in
      apply_decision event_id payment (decide_payment_outcome outcome payment order) read db

  -- `processEvent`.
  unfoldable pub process_event : Label → Db → Db → Outcome Bool
  process_event event_id read db =
      apply event_id (find? (is_unprocessed event_id) read.events) read db

  -- `drainInbox`, from the ids that it selected on: how many events changed something.
  unfoldable pub drain_events : List Label → Db → ℕ × Db
  drain_events [] db = (0, db)
  drain_events (i ∷ is) db =
      let o = process_event i db db in
      let (applied, db') = drain_events is o.db in
      (elim o.result [ ok true ↦ suc applied | ok false ↦ applied | err _ ↦ applied ], db')

  unfoldable pub drain_inbox : Db → ℕ × Db
  unfolding drain_events
  drain_inbox db =
      drain_events
        (map (λ e. e.id) (take max_per_tick (select (λ e. not (is_some e.processed_at)) db.events)))
        db
