-- ===== src/Orders/Expiry.antt =====
-- src/orders/expiry/order-expiry.service.ts: the sweep that reclaims unpaid orders. `read` is the
-- store when the live payment was read, `db` the store when the transaction runs. Logs and
-- metrics are left out.
use cafe_pos.Prelude.{
  ℕ, suc, Bool, true, false, ◌&&◌, Option, none, some, List, [], ◌∷◌, map, ◌==◌, ltb, if◌then◌else◌,
  select, take, update_where,
}
use cafe_pos.Schema.Enums.{OrderStatus, PaymentStatus, ActorType, order_status_eq}
use cafe_pos.Schema.Rows.{Label, Order, Payment}
use cafe_pos.Schema.Store.{Db, find_live}
use cafe_pos.Tx.{Tx, ◌>>◌, execute, Result, ok, err, transaction}
use cafe_pos.Orders.Transition.{TransitionRequest, transition_order}
use cafe_pos.Orders.Cancel.{cancel_live_intent}
use cafe_pos.Payments.Provider.{PaymentProvider}
use cafe_pos.Payments.Webhooks.Processor.{with_status}

abbrev pub max_per_tick : ℕ
max_per_tick = 200

abbrev pub expire_request : Label → TransitionRequest
expire_request order_id = record {
  order_id = order_id;
  from = OrderStatus.pending_payment;
  to = OrderStatus.expired;
  actor = record { actor_type = ActorType.system; actor_id = none };
  reason = none;
}

-- The write has no guard on the payment's status.
abbrev pub abandon_payment : Option Payment → Db → Db
abandon_payment none db = db
abandon_payment (some p) db = record db {
  payments = update_where (λ x. x.id == p.id) (with_status PaymentStatus.cancelled) db.payments;
}

unfoldable pub expire_tx : Label → Option Payment → Tx (Unit {0})
expire_tx order_id live = do
  transition_order (expire_request order_id)
  execute (abandon_payment live)

-- Every throw is caught: a lost race and a fault both answer `false`.
abbrev pub expire_committed : Result (Unit {0}) × Db → Bool × Db
expire_committed (ok _, db) = (true, db)
expire_committed (err _, db) = (false, db)

-- A payment that has succeeded already and a gateway that cannot be reached both call it off.
abbrev pub expire_answered : Label → Option Payment → Result (Unit {0}) → Db → Bool × Db
expire_answered order_id live (err _) db = (false, db)
expire_answered order_id live (ok _) db =
    expire_committed (transaction (expire_tx order_id live) db)

unfoldable pub expire_one : PaymentProvider → Label → Db → Db → Bool × Db
expire_one provider order_id read db =
    let live = find_live order_id read in
    expire_answered order_id live (cancel_live_intent provider live) db

-- `expires_at < now`; a null passes no comparison.
abbrev is_past : ℕ → Option ℕ → Bool
is_past now none = false
is_past now (some t) = ltb t now

abbrev pub is_overdue : ℕ → Order → Bool
is_overdue now o = order_status_eq o.status OrderStatus.pending_payment && is_past now o.expires_at

unfoldable pub expire_all : PaymentProvider → List Label → Db → ℕ × Db
expire_all provider [] db = (0, db)
expire_all provider (i ∷ is) db =
    let (done, db') = expire_one provider i db db in
    let (expired, db'') = expire_all provider is db' in
    (if done then suc expired else expired, db'')

-- `expireOverdue`: how many orders expired.
unfoldable pub expire_overdue : PaymentProvider → ℕ → Db → ℕ × Db
unfolding expire_all
expire_overdue provider now db =
    expire_all provider (map (λ o. o.id) (take max_per_tick (select (is_overdue now) db.orders))) db
