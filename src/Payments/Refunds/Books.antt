-- ===== src/Payments/Refunds/Books.antt =====
-- What a refund that goes through leaves in the books.
use cafe_pos.Orders.Transition.Guard.{transition_ok, move_order-Moved}
use cafe_pos.Orders.Transition.{transition_order}
use cafe_pos.Schema.Enums.{OrderStatus}
use cafe_pos.Schema.Store.{status_in}
use cafe_pos.Tx.Ensures.{Ensures, Ensures-bind, Ensures-ok, Ensures-at, Ensures-throw_if}
use cafe_pos.Orders.Transition.Tables.{UniqueIds}
use cafe_pos.Tx.{Session, ok}
use cafe_pos.Schema.Rows.{Label, Order, Payment}
use cafe_pos.Payments.Refunds.{
  refund_tx, CreateRefundInput, RefundView, refunded_so_far, move_if_full, refund_request,
  refund_row,
}
use cafe_pos.Prelude.{
  ◌∷◌, true, false, some, Bool, ◌≡◌, ◌+◌, ◌≤◌, ◌↔◌, ◌==◌, ltb, arith, refl, ==_iff,
}

move_if_full-books :
    (full : Bool) (user_id : Label) (input : CreateRefundInput) (o : Order) (s : Session)
    → UniqueIds s.db.orders
    → Ensures
        (λ _ t.
          (t.db.refunds ≡ s.db.refunds)
          × (full ≡ true → status_in o.id t.db.orders ≡ some OrderStatus.refunded)
          × (full ≡ false → t.db.orders ≡ s.db.orders))
        (move_if_full full user_id input o s)
move_if_full-books false user_id input o s u = (refl, λ e. cc, λ e. refl)
move_if_full-books true user_id input o s u =
    let rq = refund_request user_id input o in
    let Q = λ (_ : Unit {0}) (t : Session).
      (t.db.refunds ≡ s.db.refunds)
      × (true ≡ true → status_in o.id t.db.orders ≡ some OrderStatus.refunded)
      × (true ≡ false → t.db.orders ≡ s.db.orders) in
    Ensures-bind (λ x t. transition_order rq s ≡ ok (x, t)) Q (transition_order rq) _ s
      (Ensures-ok (λ x t. transition_order rq s ≡ ok (x, t)) (transition_order rq s) (λ x t e. e))
      (λ x t e.
        let (was, after, _) = transition_ok rq s t x u e in
        (rw after refl, λ _. rw after (move_order-Moved rq s.db was).is, λ wrong. cc))

-- A refund that goes through is added to what was given back, which stays within the payment; it is
-- reported as full exactly when nothing is left, and then, and only then, the order is moved, to
-- REFUNDED.
pub refund_tx-books :
    (refund_id user_id : Label) (input : CreateRefundInput) (p : Payment) (o : Order)
    (s t : Session) (view : RefundView)
    → UniqueIds s.db.orders
    → refund_tx refund_id user_id input p o s ≡ ok (view, t)
    → (refunded_so_far p.id t.db.refunds ≡ refunded_so_far p.id s.db.refunds + input.amount_minor)
      × (refunded_so_far p.id t.db.refunds ≤ p.amount_minor)
      × ((view.fully_refunded ≡ true) ↔ (refunded_so_far p.id t.db.refunds ≡ p.amount_minor))
      × (view.fully_refunded ≡ true → status_in o.id t.db.orders ≡ some OrderStatus.refunded)
      × (view.fully_refunded ≡ false → t.db.orders ≡ s.db.orders)
unfolding refund_tx
refund_tx-books refund_id user_id input p o s t view u e =
    let already = refunded_so_far p.id s.db.refunds in
    let Q = λ (v : RefundView) (w : Session).
      (refunded_so_far p.id w.db.refunds ≡ already + input.amount_minor)
      × (refunded_so_far p.id w.db.refunds ≤ p.amount_minor)
      × ((v.fully_refunded ≡ true) ↔ (refunded_so_far p.id w.db.refunds ≡ p.amount_minor))
      × (v.fully_refunded ≡ true → status_in o.id w.db.orders ≡ some OrderStatus.refunded)
      × (v.fully_refunded ≡ false → w.db.orders ≡ s.db.orders) in
    let full = already + input.amount_minor == p.amount_minor in
    let row = refund_row refund_id user_id p.id input in
    let s' : Session = record s { db = record s.db { refunds = row ∷ s.db.refunds } } in
    Ensures-at Q (refund_tx refund_id user_id input p o s) view t
      (Ensures-throw_if Q (ltb p.amount_minor (already + input.amount_minor)) _ _ s λ room.
        Ensures-throw_if Q (input.amount_minor == 0) _ _ s λ positive.
          Ensures-bind _ Q (move_if_full full user_id input o) _ s'
            (move_if_full-books full user_id input o s' u)
            (λ _ w (same, moves, stays).
              let sum : refunded_so_far p.id w.db.refunds ≡ already + input.amount_minor =
                rw same (ground (arith, ==_iff p.id p.id)) in
              (
                sum,
                rw sum (ground arith),
                rw sum (==_iff (already + input.amount_minor) p.amount_minor),
                moves,
                stays,
              )))
      e
