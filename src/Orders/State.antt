-- ===== src/Orders/State.antt =====
-- src/orders/state/order-state.ts: the table of moves, and the narrower table of the KDS route.
pub mod Lifecycle
use cafe_pos.Prelude.{Bool, ◌&&◌, List, [], ◌∷◌, any}
use cafe_pos.Schema.Enums.{
  OrderStatus, draft, pending_payment, paid, in_preparation, ready, completed, cancelled, expired,
  refunded, order_status_eq, includes_order_status,
}

unfoldable pub order_transitions : OrderStatus → List OrderStatus
order_transitions draft = pending_payment ∷ cancelled ∷ []
order_transitions pending_payment = paid ∷ expired ∷ cancelled ∷ []
order_transitions paid = in_preparation ∷ refunded ∷ []
order_transitions in_preparation = ready ∷ refunded ∷ []
order_transitions ready = completed ∷ refunded ∷ []
order_transitions completed = refunded ∷ []
order_transitions cancelled = []
order_transitions expired = []
order_transitions refunded = []

abbrev pub terminal_statuses : List OrderStatus
terminal_statuses = cancelled ∷ expired ∷ refunded ∷ []

unfoldable pub is_legal_transition : OrderStatus → OrderStatus → Bool
unfolding order_transitions order_status_eq
is_legal_transition from to = includes_order_status (order_transitions from) to

abbrev staff_transitions : List (OrderStatus × OrderStatus)
staff_transitions = (paid, in_preparation) ∷ (in_preparation, ready) ∷ (ready, completed) ∷ []

unfoldable pub is_staff_transition : OrderStatus → OrderStatus → Bool
unfolding order_status_eq
is_staff_transition from to =
    any (λ edge. order_status_eq edge.0 from && order_status_eq edge.1 to) staff_transitions
