-- ===== src/Orders/Transition.antt =====
-- src/orders/state/transition-order.ts: the guarded move that every door shares.
pub mod Tables
pub mod Guard
use cafe_pos.Prelude.{
  Bool, true, false, ◌&&◌, Option, none, some, ◌∷◌, ◌==◌, if◌then◌else◌, find?, update_where,
}
use cafe_pos.Schema.Enums.{OrderStatus, pending_payment, ActorType, order_status_eq}
use cafe_pos.Schema.Rows.{Label, Order, OrderStatusHistory}
use cafe_pos.Schema.Store.{Db, find_order}
use cafe_pos.Tx.{AppError, resource_not_found, order_invalid_transition, order, Tx, ok, err}

pub record TransitionActor : Type 0 where
  pub actor_type : ActorType
  pub actor_id : Option Label

pub record TransitionRequest : Type 0 where
  pub order_id : Label
  -- the status that the caller believes the order is in
  pub from : OrderStatus
  pub to : OrderStatus
  pub actor : TransitionActor
  pub reason : Option Label

-- `WHERE id = :orderId AND status = :from`.
abbrev pub guarded : TransitionRequest → Order → Bool
guarded rq o = o.id == rq.order_id && order_status_eq o.status rq.from

-- The `SET` of the update.
abbrev pub moved : TransitionRequest → Order → Order
moved rq o = record o {
  status = rq.to;
  expires_at = if order_status_eq rq.from pending_payment then none else o.expires_at;
}

abbrev pub history_entry : TransitionRequest → OrderStatusHistory
history_entry rq = record {
  order_id = rq.order_id;
  from_status = some rq.from;
  to_status = rq.to;
  actor_type = rq.actor.actor_type;
  actor_id = rq.actor.actor_id;
  reason = rq.reason;
}

abbrev pub move_order : TransitionRequest → Db → Db
move_order rq db = record db {
  orders = update_where (guarded rq) (moved rq) db.orders;
  history = history_entry rq ∷ db.history;
}

unfoldable explain_failure : Label → OrderStatus → Db → AppError
explain_failure i requested db = elim (find_order i db) [
  | none ↦ resource_not_found order i
  | some o ↦ order_invalid_transition o.status requested
]

unfoldable pub transition_order : TransitionRequest → Tx Order
unfolding explain_failure
transition_order rq s = elim (find? (guarded rq) s.db.orders) [
  | none ↦ err (explain_failure rq.order_id rq.to s.db)
  | some o ↦ ok (moved rq o, record s { db = move_order rq s.db })
]

pub is_lost_race : AppError → Bool
is_lost_race (order_invalid_transition _ _) = true
is_lost_race (resource_not_found _ _) = true
is_lost_race _ = false
