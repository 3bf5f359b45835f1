-- ===== src/Orders/Transition/Tables.antt =====
-- How the guarded update changes the status that each id has, in a table whose ids are unique.
use cafe_pos.Prelude.{
  inl, inr, Bool-cases, ◌≡◌, ◌≢◌, none, some, List, [], ◌∷◌, arith, find?, update_where, ◌==◌, refl,
}
use cafe_pos.Schema.Enums.{order_status_eq_iff, OrderStatus}
use cafe_pos.Schema.Rows.{Order, Label}
use cafe_pos.Schema.Store.{status_in}
use cafe_pos.Orders.Transition.{TransitionRequest, guarded, moved}

-- The primary key of `orders`.
abbrev pub UniqueIds : List Order → Type 0
UniqueIds [] = Unit
UniqueIds (o ∷ os) = (status_in o.id os ≡ none) × UniqueIds os

-- The row that the guard finds is the order's, in the expected status.
pub find?-guarded :
    (rq : TransitionRequest) (os : List Order) (o : Order)
    → UniqueIds os
    → find? (guarded rq) os ≡ some o
    → (status_in rq.order_id os ≡ some rq.from) × (o.id ≡ rq.order_id) × (o.status ≡ rq.from)
find?-guarded rq [] o u h = cc
find?-guarded rq (x ∷ os) o u h =
    ground (arith, find?-guarded rq os o u.1, order_status_eq_iff x.status rq.from)

-- The guard finds nothing only if the order is gone or in another status.
pub find?-guarded-none :
    (rq : TransitionRequest) (os : List Order)
    → find? (guarded rq) os ≡ none
    → status_in rq.order_id os ≢ some rq.from
find?-guarded-none rq [] h e = cc
find?-guarded-none rq (x ∷ os) h e =
    ground (arith, find?-guarded-none rq os, order_status_eq_iff x.status rq.from)

-- A missing order stays missing.
status_in-update_none :
    (rq : TransitionRequest) (os : List Order) (j : Label)
    → status_in j os ≡ none
    → status_in j (update_where (guarded rq) (moved rq) os) ≡ none
status_in-update_none rq [] j h = refl
status_in-update_none rq (x ∷ os) j h = ground (arith, status_in-update_none rq os j)

-- The update keeps the ids, and so their uniqueness.
pub update-UniqueIds :
    (rq : TransitionRequest) (os : List Order)
    → UniqueIds os
    → UniqueIds (update_where (guarded rq) (moved rq) os)
update-UniqueIds rq [] u = tt
update-UniqueIds rq (x ∷ os) u =
    ground (arith, status_in-update_none rq os x.id u.0, update-UniqueIds rq os u.1)

-- Other orders keep their status.
pub status_in-update_ne :
    (rq : TransitionRequest) (os : List Order) (j : Label)
    → j ≢ rq.order_id
    → status_in j (update_where (guarded rq) (moved rq) os) ≡ status_in j os
status_in-update_ne rq [] j ne = refl
status_in-update_ne rq (x ∷ os) j ne = ground (arith, status_in-update_ne rq os j)

-- The order itself ends in the new status, if it was in the expected one.
pub status_in-update_self :
    (rq : TransitionRequest) (os : List Order)
    → status_in rq.order_id os ≡ some rq.from
    → status_in rq.order_id (update_where (guarded rq) (moved rq) os) ≡ some rq.to
status_in-update_self rq [] h = cc
status_in-update_self rq (x ∷ os) h =
    ground (arith, status_in-update_self rq os, order_status_eq_iff x.status rq.from)

-- A search by the primary key and the status that `status_in` reads agree.
pub status_in-find :
    (i : Label) (os : List Order) (s : OrderStatus)
    → status_in i os ≡ some s
    → (o : Order) × (find? (λ x. x.id == i) os ≡ some o) × (o.status ≡ s) × (o.id ≡ i)
status_in-find i [] s h = cc
status_in-find i (x ∷ os) s h = elim (Bool-cases (x.id == i)) [
  | inl e ↦ (x, ground arith, ground arith, ground arith)
  | inr e ↦
      let (o, f, st, same) = status_in-find i os s (ground arith) in (o, ground arith, st, same)
]

pub find-status_in :
    (i : Label) (os : List Order) (o : Order)
    → find? (λ x. x.id == i) os ≡ some o
    → (status_in i os ≡ some o.status) × (o.id ≡ i)
find-status_in i [] o h = cc
find-status_in i (x ∷ os) o h = ground (arith, find-status_in i os o)
