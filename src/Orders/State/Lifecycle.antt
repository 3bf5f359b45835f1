-- ===== src/Orders/State/Lifecycle.antt =====
-- What every order's life looks like under the table of src/orders/state/order-state.ts.
use cafe_pos.Prelude.{
  ℕ, ◌+◌, ◌≤◌, ◌<◌, ◌≡◌, ◌↔◌, ◌⊎◌, Bool, true, false, List, [], ◌∷◌, arith, length,
}
use cafe_pos.Schema.Enums.{
  OrderStatus, draft, pending_payment, paid, in_preparation, ready, completed, cancelled, expired,
  refunded, includes_order_status, order_status_eq, order_status_eq_iff,
}
use cafe_pos.Orders.State.{
  order_transitions, terminal_statuses, is_legal_transition, is_staff_transition,
}

-- A status is listed as terminal exactly when the table gives it no move.
pub terminal_iff_stuck :
    (s : OrderStatus)
    → (includes_order_status terminal_statuses s ≡ true) ↔ (order_transitions s ≡ [])
unfolding order_transitions order_status_eq
terminal_iff_stuck s = ground arith

-- Every move of the KDS route is a legal move of the machine, and ends in `IN_PREPARATION`,
-- `READY` or `COMPLETED`.
pub staff_transition_is_fulfilment :
    (from to : OrderStatus)
    → is_staff_transition from to ≡ true
    → (is_legal_transition from to ≡ true)
      × (((to ≡ in_preparation) ⊎ (to ≡ ready)) ⊎ (to ≡ completed))
unfolding is_staff_transition is_legal_transition
staff_transition_is_fulfilment from to h = ground arith

-- How far an order has come.
abbrev stage : OrderStatus → ℕ
stage draft = 0
stage pending_payment = 1
stage paid = 2
stage in_preparation = 3
stage ready = 4
stage completed = 5
stage cancelled = 6
stage expired = 6
stage refunded = 6

legal-stage : (from to : OrderStatus) → is_legal_transition from to ≡ true → stage from < stage to
unfolding is_legal_transition
legal-stage from to h = ground arith

-- The statuses that only an order which has taken money can have.
abbrev pub has_taken_money : OrderStatus → Bool
has_taken_money paid = true
has_taken_money in_preparation = true
has_taken_money ready = true
has_taken_money completed = true
has_taken_money refunded = true
has_taken_money _ = false

legal-has_taken_money :
    (from to : OrderStatus)
    → is_legal_transition from to ≡ true
    → has_taken_money to ≡ true
    → (has_taken_money from ≡ true) ⊎ ((from ≡ pending_payment) × (to ≡ paid))
unfolding is_legal_transition
legal-has_taken_money from to h t = ground arith

pub has_taken_money-legal :
    (from to : OrderStatus)
    → is_legal_transition from to ≡ true
    → has_taken_money from ≡ true
    → has_taken_money to ≡ true
unfolding is_legal_transition
has_taken_money-legal from to h t = ground arith

-- A life: the moves from one status to another, each legal, with the statuses that it enters.
pub data Life : OrderStatus → OrderStatus → List OrderStatus → Type 0 where
  rest : {s : OrderStatus} → Life s s []
  move :
      {s u : OrderStatus} {path : List OrderStatus} (t : OrderStatus)
      → is_legal_transition s t ≡ true
      → Life t u path
      → Life s u (t ∷ path)

Life-stage :
    {s u : OrderStatus} {path : List OrderStatus} → Life s u path → stage s + length path ≤ stage u
Life-stage rest = omega arith
Life-stage {s} (move {path = path} t h l) = omega (arith, legal-stage s t h, Life-stage l)

stage_bound : (s : OrderStatus) → stage s ≤ 6
stage_bound s = ground arith

-- The machine has no cycle: from any status an order makes at most six moves.
pub Life-bounded : {s u : OrderStatus} {path : List OrderStatus} → Life s u path → length path ≤ 6
Life-bounded {s} {u} {path} l = omega (arith, Life-stage l, stage_bound u)

Life-money :
    {s u : OrderStatus} {path : List OrderStatus}
    → Life s u path
    → has_taken_money s ≡ false
    → has_taken_money u ≡ true
    → includes_order_status path paid ≡ true
Life-money rest e f = cc
Life-money {s} {u} (move {path = path} t h l) e f =
    ground (arith, Life-money l, legal-has_taken_money s t h, order_status_eq_iff t paid)

-- Every path of the transition table from `DRAFT` or `PENDING_PAYMENT` to the kitchen, the counter or
-- a refund passes `PAID`.
pub money_needs_paid :
    {s u : OrderStatus} {path : List OrderStatus}
    → Life s u path
    → (s ≡ draft) ⊎ (s ≡ pending_payment)
    → has_taken_money u ≡ true
    → includes_order_status path paid ≡ true
money_needs_paid {s} l start f = Life-money l (ground arith) f
