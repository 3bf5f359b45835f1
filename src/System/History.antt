-- ===== src/System/History.antt =====
-- The whole pipeline as a history of requests. Each transaction runs on the newest store; what a
-- request reads outside its transaction (an order, a live payment, an unprocessed event) may come
-- from any store before it, since other requests run in between.
use cafe_pos.System.Doors.Webhook.{process_event-Step, drain_inbox-Step}
use cafe_pos.System.Doors.Refund.{refund-Step}
use cafe_pos.System.Doors.Desk.{create_payment-Step}
use cafe_pos.Payments.Webhooks.Processor.{process_event, drain_inbox}
use cafe_pos.System.Doors.Release.{cancel-Step, expire_overdue-Step, expire_one-Step}
use cafe_pos.System.Doors.Kitchen.{change_status-Ensures, checkout-Ensures}
use cafe_pos.Orders.Expiry.{expire_overdue, expire_one}
use cafe_pos.Orders.Cancel.{cancel}
use cafe_pos.Tx.Ensures.{run_keeps, transaction_keeps}
use cafe_pos.Orders.Checkout.{checkout}
use cafe_pos.Payments.Refunds.{CreateRefundInput, refund}
use cafe_pos.System.Doors.Create.{create-Step}
use cafe_pos.Orders.Status.{change_status}
use cafe_pos.Payments.Create.{CreatePaymentInput, Keyed, create_payment}
use cafe_pos.System.Step.{Grows, Step, Step-refl}
use cafe_pos.Schema.Enums.{OrderStatus}
use cafe_pos.System.Invariant.{Inv}
use cafe_pos.Payments.Webhooks.Inbox.{record_event, GatewayEvent, is_recorded}
use cafe_pos.Schema.Rows.{Label}
use cafe_pos.Tx.{DomainEvent, run, transaction}
use cafe_pos.Identity.Principal.{Principal}
use cafe_pos.Payments.Provider.{PaymentProvider}
use cafe_pos.Schema.Store.{Db}
use cafe_pos.Orders.Create.{OrderEnv, CreateOrderInput, create}
use cafe_pos.Prelude.{length, [], zero, suc, ◌∷◌, List, ℕ, Option, Bool, Bool-cases, inl, inr}

pub data Request : Type 0 where
  create_order : OrderEnv → Principal → CreateOrderInput → Option (Label × Label) → Request
  -- the order and the status it should reach
  set_status : Principal → Label → OrderStatus → Request
  -- the clock, the payment window in seconds, the order
  park_to_queue : ℕ → ℕ → Principal → Label → Request
  -- the order and the reason
  cancel_order : Principal → Label → Option Label → Request
  -- the sweep at a time, as a whole and for one order
  sweep : ℕ → Request
  expire_order : Label → Request
  -- the clock, the id of the new row, the order
  pay : ℕ → Label → Principal → Label → CreatePaymentInput → Keyed → Request
  -- the business day, the id of the new row, the user, the payment
  give_back : Label → Label → Label → Label → CreateRefundInput → Request
  -- the id of the new row
  webhook : Label → GatewayEvent → Request
  -- one event of the inbox, and the whole of it
  process : ℕ → Label → Request
  drain : ℕ → Request

abbrev pub newest : Db → List Db → Db
newest db [] = db
newest db (x ∷ past) = x

-- The store that stood a number of steps back, or the first one.
abbrev pub snapshot : Db → ℕ → List Db → Db
snapshot db back [] = db
snapshot db zero (x ∷ past) = x
snapshot db (suc back) (x ∷ past) = snapshot db back past

module _ (provider : PaymentProvider) (delivers : List DomainEvent → Bool) where
  -- The store after a request that read `read` and whose transactions start on `db`.
  unfoldable pub serve : Request → Db → Db → Db
  serve (create_order env principal input keyed) read db = (create env principal input keyed db).1
  serve (set_status principal order_id to) read db =
      (run delivers (change_status principal order_id to) db).db
  serve (park_to_queue now seconds principal order_id) read db =
      (transaction (checkout now seconds principal order_id) db).1
  serve (cancel_order principal order_id reason) read db =
      (cancel provider delivers principal order_id reason read db).db
  serve (sweep now) read db = (expire_overdue provider now db).1
  serve (expire_order order_id) read db = (expire_one provider order_id read db).1
  serve (pay now payment_id principal order_id input keyed) read db =
      (create_payment provider delivers now payment_id principal order_id input keyed read db).db
  serve (give_back today refund_id user_id payment_id input) read db =
      (refund delivers today refund_id user_id payment_id input read db).db
  serve (webhook row_id event) read db = (record_event row_id event db).1
  serve (process now event_id) read db = (process_event provider delivers now event_id read db).db
  serve (drain now) read db = (drain_inbox provider delivers now db).1

  record_event-Step :
      (row_id : Label) (event : GatewayEvent) (db : Db)
      → Inv db
      → Step db (record_event row_id event db).1
  unfolding record_event
  record_event-Step row_id event db h = elim (Bool-cases (is_recorded event.event_id db.events)) [
    | inl old ↦ rw old (Step-refl db h)
    | inr new ↦ rw new (Step-refl db h)
  ]

  pub serve-Step :
      (request : Request) (read db : Db)
      → Inv read
      → Grows read.payments db.payments
      → Inv db
      → Step db (serve request read db)
  unfolding serve
  serve-Step (create_order env principal input keyed) read db old grows h =
      create-Step env principal input keyed db h
  serve-Step (set_status principal order_id to) read db old grows h =
      run_keeps (Step db) delivers (change_status principal order_id to) db (Step-refl db h)
        (change_status-Ensures principal order_id to (record { db = db; pending = [] }) h)
  serve-Step (park_to_queue now seconds principal order_id) read db old grows h =
      transaction_keeps (Step db) (checkout now seconds principal order_id) db (Step-refl db h)
        (checkout-Ensures now seconds principal order_id (record { db = db; pending = [] }) h)
  serve-Step (cancel_order principal order_id reason) read db old grows h =
      cancel-Step provider delivers principal order_id reason read db h
  serve-Step (sweep now) read db old grows h = expire_overdue-Step provider now db h
  serve-Step (expire_order order_id) read db old grows h =
      expire_one-Step provider order_id read db h
  serve-Step (pay now payment_id principal order_id input keyed) read db old grows h =
      create_payment-Step provider delivers now payment_id principal order_id input keyed read db h
  serve-Step (give_back today refund_id user_id payment_id input) read db old grows h =
      refund-Step delivers today refund_id user_id payment_id input read db old grows h
  serve-Step (webhook row_id event) read db old grows h = record_event-Step row_id event db h
  serve-Step (process now event_id) read db old grows h =
      process_event-Step provider delivers now event_id read db old grows h
  serve-Step (drain now) read db old grows h = drain_inbox-Step provider delivers now db h

-- The gateway that answers a request is given by the number of requests before it, so an equal call
-- may be answered otherwise by the next request.
module _ (gateways : ℕ → PaymentProvider) (delivers : List DomainEvent → Bool) where
  -- The stores of a history, the newest first: each request read the store that stood a number of
  -- steps back.
  unfoldable pub history_from : Db → List (Request × ℕ) → List Db
  history_from db [] = db ∷ []
  history_from db ((request, back) ∷ earlier) =
      let past = history_from db earlier in
      serve (gateways (length earlier)) delivers request (snapshot db back past) (newest db past)
      ∷ past

  -- The store that the requests lead to. The newest request stands first.
  abbrev pub store_after : Db → List (Request × ℕ) → Db
  store_after db requests = newest db (history_from db requests)
