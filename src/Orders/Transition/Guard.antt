-- ===== src/Orders/Transition/Guard.antt =====
-- What the guarded move of src/orders/state/transition-order.ts promises to its callers.
use cafe_pos.Schema.Enums.{OrderStatus}
use cafe_pos.Prelude.{
  ◌≡◌, refl, ◌≢◌, inl, inr, some, ◌∷◌, arith, Option-cases, find?, true, eq_of_some, sym, ◌∙◌,
}
use cafe_pos.Schema.Rows.{Label, Order}
use cafe_pos.Schema.Store.{Db, status_in}
use cafe_pos.Tx.{Session, ok, err, order_invalid_transition}
use cafe_pos.Orders.Transition.{
  TransitionRequest, guarded, moved, move_order, history_entry, transition_order, is_lost_race,
}
use cafe_pos.Orders.Transition.Tables.{
  UniqueIds, find?-guarded, find?-guarded-none, status_in-update_ne, status_in-update_self,
  status_in-find, update-UniqueIds,
}

-- What one accepted move has done to the store.
pub record Moved (rq : TransitionRequest) (s t : Db) : Type 0 where
  pub was : status_in rq.order_id s.orders ≡ some rq.from
  pub is : status_in rq.order_id t.orders ≡ some rq.to
  pub others : (j : Label) → j ≢ rq.order_id → status_in j t.orders ≡ status_in j s.orders
  pub audited : t.history ≡ history_entry rq ∷ s.history
  pub payments_kept : t.payments ≡ s.payments

transition_found :
    (rq : TransitionRequest) (s : Session)
    → status_in rq.order_id s.db.orders ≡ some rq.from
    → (o : Order) × (find? (guarded rq) s.db.orders ≡ some o)
transition_found rq s h = elim (Option-cases (find? (guarded rq) s.db.orders)) [
  | inl missing ↦ absurd (find?-guarded-none rq s.db.orders missing h)
  | inr found ↦ found
]

-- An order in the expected status is moved, and the move is audited.
pub transition_accepts :
    (rq : TransitionRequest) (s : Session)
    → status_in rq.order_id s.db.orders ≡ some rq.from
    → (o : Order) × (transition_order rq s ≡ ok (o, record s { db = move_order rq s.db }))
      × (o.status ≡ rq.to)
unfolding transition_order
transition_accepts rq s h =
    let (o, e) = transition_found rq s h in (moved rq o, rw (e, transition_order), refl)

pub move_order-Moved :
    (rq : TransitionRequest) (db : Db)
    → status_in rq.order_id db.orders ≡ some rq.from
    → Moved rq db (move_order rq db)
move_order-Moved rq db h = record {
  was = h;
  is = status_in-update_self rq db.orders h;
  others = λ j ne. status_in-update_ne rq db.orders j ne;
  audited = refl;
  payments_kept = refl;
}

-- A move that goes through found the order in the expected status.
pub transition_ok :
    (rq : TransitionRequest) (s t : Session) (o : Order)
    → UniqueIds s.db.orders
    → transition_order rq s ≡ ok (o, t)
    → (status_in rq.order_id s.db.orders ≡ some rq.from)
      × (t ≡ record s { db = move_order rq s.db })
      × (o.id ≡ rq.order_id)
unfolding transition_order
transition_ok rq s t o u e = elim (Option-cases (find? (guarded rq) s.db.orders)) [
  | inl missing ↦ ground arith
  | inr (x, found) ↦ ground (arith, find?-guarded rq s.db.orders x u)
]

-- The guard refuses an order that is in another status, and says in which.
pub transition_refuses :
    (rq : TransitionRequest) (s : Session) (current : OrderStatus)
    → UniqueIds s.db.orders
    → status_in rq.order_id s.db.orders ≡ some current
    → current ≢ rq.from
    → transition_order rq s ≡ err (order_invalid_transition current rq.to)
unfolding transition_order
transition_refuses rq s current u h ne = elim (Option-cases (find? (guarded rq) s.db.orders)) [
  | inl missing ↦
      let (o, found, st, _) = status_in-find rq.order_id s.db.orders current h in ground arith
  | inr (x, found) ↦ absurd (ne (eq_of_some (sym h ∙ (find?-guarded rq s.db.orders x u found).0)))
]

-- Two actors who read the same status and both act on it: once the first has moved the order, the
-- second is refused, is told the status that the order is in now, and its refusal counts as a lost
-- race.
pub double_tap :
    (rq₁ rq₂ : TransitionRequest) (s t : Session) (o : Order)
    → UniqueIds s.db.orders
    → rq₁.order_id ≡ rq₂.order_id
    → rq₁.from ≡ rq₂.from
    → rq₁.to ≢ rq₁.from
    → transition_order rq₁ s ≡ ok (o, t)
    → (transition_order rq₂ t ≡ err (order_invalid_transition rq₁.to rq₂.to))
      × (is_lost_race (order_invalid_transition rq₁.to rq₂.to) ≡ true)
unfolding is_lost_race
double_tap rq₁ rq₂ s t o u same_id same_from moves first =
    let (was, after, _) = transition_ok rq₁ s t o u first in
    let now : status_in rq₂.order_id t.db.orders ≡ some rq₁.to =
      rw (← same_id, after) (move_order-Moved rq₁ s.db was).is in
    let unique : UniqueIds t.db.orders = rw after (update-UniqueIds rq₁ s.db.orders u) in
    (transition_refuses rq₂ t rq₁.to unique now (λ e. moves (e ∙ sym same_from)), refl)
