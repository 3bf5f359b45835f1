-- ===== src/System/Doors/Kitchen.antt =====
-- The doors that move an order without touching payments: the KDS route and the checkout.
use cafe_pos.Orders.Transition.{transition_order}
use cafe_pos.System.Doors.Moves.{AfterMove, transition-Ensures, staff_transition-money}
use cafe_pos.Orders.State.{is_staff_transition}
use cafe_pos.System.Orders.{KeepsTaken, KeepsTaken-IsBacked}
use cafe_pos.Orders.Summary.{OrderSummary}
use cafe_pos.System.Step.{Step, Step-trans}
use cafe_pos.Tx.Ensures.{Ensures, Ensures-or_throw, Ensures-throw_if, Ensures-bind}
use cafe_pos.System.Invariant.{Inv}
use cafe_pos.Orders.Transition.Tables.{UniqueIds}
use cafe_pos.Schema.Store.{status_in, Db, find_order}
use cafe_pos.Tx.{Session}
use cafe_pos.Schema.Enums.{OrderStatus, order_status_eq}
use cafe_pos.Orders.Number.{next_order_number}
use cafe_pos.Prelude.{
  [], ◌∷◌, Bool, ◌≡◌, List, ℕ, update_where, ◌==◌, ◌∙◌, sym, not, refl, ◌+◌, arith, ◌*◌,
}
use cafe_pos.Identity.Principal.{Principal}
use cafe_pos.Orders.Checkout.{set_queue, checkout, with_queue, checkout_request, clashes_in_queue}
use cafe_pos.Schema.Rows.{Order, Label}
use cafe_pos.Orders.Status.{change_status, status_request}

pub change_status-Ensures :
    (principal : Principal) (order_id : Label) (to : OrderStatus) (s : Session)
    → Inv s.db
    → Ensures (λ _ t. Step s.db t.db) (change_status principal order_id to s)
unfolding change_status
change_status-Ensures principal order_id to s h =
    let Q = λ (_ : OrderSummary) (t : Session). Step s.db t.db in
    Ensures-or_throw Q (find_order order_id s.db) _ _ s λ current found.
      Ensures-throw_if Q (not (is_staff_transition current.status to)) _ _ s λ staff.
        let rq = status_request principal order_id current.status to in
        Ensures-bind (AfterMove rq s) Q (transition_order rq) _ s
          (transition-Ensures rq s h (staff_transition-money current.status to (ground arith)))
          (λ o t a. a.step)

-- A write that keeps the id and the status of every row keeps what the table says of each order.
module _ (g : Order → Bool) (f : Order → Order) (same_id : (o : Order) → (f o).id ≡ o.id)
    (same_status : (o : Order) → (f o).status ≡ o.status) where
  annotate-status_in :
      (j : Label) (os : List Order) → status_in j (update_where g f os) ≡ status_in j os
  annotate-status_in j [] = refl
  annotate-status_in j (o ∷ os) = ground (arith, annotate-status_in j os, same_id o, same_status o)

  annotate-UniqueIds : (os : List Order) → UniqueIds os → UniqueIds (update_where g f os)
  annotate-UniqueIds [] u = tt
  annotate-UniqueIds (o ∷ os) u = ground (
    arith,
    annotate-UniqueIds os u.1,
    annotate-status_in o.id os,
    annotate-status_in (f o).id os,
    same_id o,
  )

  annotate-Step : (db : Db) → Inv db → Step db (record db { orders = update_where g f db.orders })
  annotate-Step db h =
      let money : KeepsTaken db.orders (update_where g f db.orders) =
        λ j e. rw (annotate-status_in j db.orders) e in
      record {
        inv = record {
          unique_orders = annotate-UniqueIds db.orders h.unique_orders;
          unique_payments = h.unique_payments;
          backed =
              KeepsTaken-IsBacked db.orders (update_where g f db.orders) db.payments money h.backed;
          one_live = h.one_live;
          one_settled = h.one_settled;
          audited = λ i. h.audited i ∙ sym (annotate-status_in i db.orders);
          refunds_known = h.refunds_known;
          refunds_within = h.refunds_within;
        };
        grows = λ j x e. e;
        money = money;
      }

set_queue-Ensures :
    (order_id : Label) (number : List ℕ) (expires_at : ℕ) (s : Session)
    → Inv s.db
    → Ensures (λ _ t. Step s.db t.db) (set_queue order_id number expires_at s)
unfolding set_queue
set_queue-Ensures order_id number expires_at s h =
    let Q = λ (_ : Order) (t : Session). Step s.db t.db in
    Ensures-or_throw Q (find_order order_id s.db) _ _ s λ o found.
      Ensures-throw_if Q (clashes_in_queue order_id (with_queue number expires_at o) s.db) _ _ s
        λ free.
          annotate-Step (λ x. x.id == order_id) (with_queue number expires_at) (λ o. refl)
            (λ o. refl) s.db h

pub checkout-Ensures :
    (now order_expiry_seconds : ℕ) (principal : Principal) (order_id : Label) (s : Session)
    → Inv s.db
    → Ensures (λ _ t. Step s.db t.db) (checkout now order_expiry_seconds principal order_id s)
unfolding checkout next_order_number
checkout-Ensures now order_expiry_seconds principal order_id s h =
    let Q = λ (_ : OrderSummary) (t : Session). Step s.db t.db in
    Ensures-or_throw Q (find_order order_id s.db) _ _ s λ current found.
      Ensures-throw_if Q (not (order_status_eq current.status OrderStatus.draft)) _ _ s λ draft.
        let rq = checkout_request principal order_id in
        Ensures-bind (AfterMove rq s) Q (transition_order rq) _ s
          (transition-Ensures rq s h (λ e. cc))
          (λ o t a.
            let (number, db') = next_order_number current.business_day t.db in
            let t' : Session = record t { db = db' } in
            Ensures-bind (λ _ u. Step t.db u.db) Q
              (set_queue o.id number (now + order_expiry_seconds * 1000)) _ t'
              (set_queue-Ensures o.id number (now + order_expiry_seconds * 1000) t' a.step.inv)
              (λ q u st. Step-trans s.db t.db u.db a.step st))
