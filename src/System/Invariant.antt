-- ===== src/System/Invariant.antt =====
-- What holds of the store between any two transactions.
use cafe_pos.Prelude.{
  ◌≤◌, ◌≡◌, Bool, true, false, ◌&&◌, Option, none, some, List, [], ◌∷◌, ◌==◌, if◌then◌else◌, any,
  All,
}
use cafe_pos.Schema.Enums.{OrderStatus, PaymentStatus}
use cafe_pos.Schema.Rows.{Label, Order, OrderStatusHistory, Payment, Refund}
use cafe_pos.Schema.Store.{Db, status_in, is_live}
use cafe_pos.Orders.State.Lifecycle.{has_taken_money}
use cafe_pos.Orders.Transition.Tables.{UniqueIds}
use cafe_pos.Payments.Tables.{payment_status_in}
use cafe_pos.Payments.Refunds.{refunded_so_far}
use cafe_pos.Payments.Webhooks.Decide.{is_settled}

abbrev pub taken : Option OrderStatus → Bool
taken none = false
taken (some s) = has_taken_money s

-- Whether some payment of the order is in a status that `q` names.
abbrev pub has_with : (PaymentStatus → Bool) → Label → List Payment → Bool
has_with q order_id ps = any (λ p. p.order_id == order_id && q p.status) ps

-- No order has two payments in such a status.
abbrev pub OnePerOrder : (PaymentStatus → Bool) → List Payment → Type 0
OnePerOrder q [] = Unit
OnePerOrder q (p ∷ ps) = ((q p.status && has_with q p.order_id ps) ≡ false) × OnePerOrder q ps

-- The primary key of `payments`.
abbrev pub UniquePayments : List Payment → Type 0
UniquePayments [] = Unit
UniquePayments (p ∷ ps) = (payment_status_in p.id ps ≡ none) × UniquePayments ps

-- A payment that has succeeded belongs to an order that has taken its money.
abbrev pub IsBacked : List Order → Payment → Type 0
IsBacked os p = is_settled p.status ≡ true → taken (status_in p.order_id os) ≡ true

-- What the newest row of the audit trail says of an order.
abbrev pub audited_status : Label → List OrderStatusHistory → Option OrderStatus
audited_status i [] = none
audited_status i (h ∷ hs) = if h.order_id == i then some h.to_status else audited_status i hs

abbrev pub IsRefundedWithin : List Refund → Payment → Type 0
IsRefundedWithin rs p = refunded_so_far p.id rs ≤ p.amount_minor

abbrev pub is_known : List Payment → Refund → Bool
is_known ps r = any (λ p. p.id == r.payment_id) ps

-- The invariant speaks of four tables: the orders, the payments, the refunds, the audit trail.
pub record IsConsistent (os : List Order) (ps : List Payment) (rs : List Refund)
    (hs : List OrderStatusHistory) : Type 0 where
  pub unique_orders : UniqueIds os
  pub unique_payments : UniquePayments ps
  pub backed : All (IsBacked os) ps
  pub one_live : OnePerOrder is_live ps
  pub one_settled : OnePerOrder is_settled ps
  pub audited : (i : Label) → audited_status i hs ≡ status_in i os
  pub refunds_known : All (λ r. is_known ps r ≡ true) rs
  pub refunds_within : All (IsRefundedWithin rs) ps

abbrev pub Inv : Db → Type 0
Inv db = IsConsistent db.orders db.payments db.refunds db.history
