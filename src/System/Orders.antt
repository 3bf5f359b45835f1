-- ===== src/System/Orders.antt =====
-- How the writes to the orders table keep the invariant.
use cafe_pos.Orders.Transition.Tables.{update-UniqueIds}
use cafe_pos.Orders.Transition.Guard.{move_order-Moved}
use cafe_pos.Prelude.{
  ◌≡◌, true, some, List, [], ◌∷◌, ◌==◌, arith, All, Bool-cases, inl, inr, ==_iff,
}
use cafe_pos.Schema.Rows.{Label, Order, Payment}
use cafe_pos.Schema.Store.{Db, status_in}
use cafe_pos.Orders.State.Lifecycle.{has_taken_money}
use cafe_pos.Orders.Transition.{TransitionRequest, move_order}
use cafe_pos.System.Invariant.{Inv, IsBacked, taken}

-- Orders that have taken money in one table have done so in the other.
abbrev pub KeepsTaken : List Order → List Order → Type 0
KeepsTaken os os' = (j : Label) → taken (status_in j os) ≡ true → taken (status_in j os') ≡ true

pub KeepsTaken-IsBacked :
    (os os' : List Order) (ps : List Payment)
    → KeepsTaken os os'
    → All (IsBacked os) ps
    → All (IsBacked os') ps
KeepsTaken-IsBacked os os' [] k h = tt
KeepsTaken-IsBacked os os' (p ∷ ps) k h =
    (λ s. k p.order_id (h.0 s), KeepsTaken-IsBacked os os' ps k h.1)

-- A move never leads from a status that has taken money to one that has not.
abbrev pub MoneyStays : TransitionRequest → Type 0
MoneyStays rq = has_taken_money rq.from ≡ true → has_taken_money rq.to ≡ true

pub move_order-KeepsTaken :
    (rq : TransitionRequest) (db : Db)
    → status_in rq.order_id db.orders ≡ some rq.from
    → MoneyStays rq
    → KeepsTaken db.orders (move_order rq db).orders
move_order-KeepsTaken rq db was stays j h = elim (Bool-cases (j == rq.order_id)) [
  | inl e ↦
      let same : j ≡ rq.order_id = (==_iff j rq.order_id).0 e in
      let before : taken (status_in rq.order_id db.orders) ≡ true = rw same at h in
      rw (same, (move_order-Moved rq db was).is) (stays (rw was at before))
  | inr e ↦ rw ((move_order-Moved rq db was).others j (λ same. ground arith)) h
]

-- An accepted move keeps the invariant.
pub move_order-Inv :
    (rq : TransitionRequest) (db : Db)
    → status_in rq.order_id db.orders ≡ some rq.from
    → MoneyStays rq
    → Inv db
    → Inv (move_order rq db)
move_order-Inv rq db was stays h = record {
  unique_orders = update-UniqueIds rq db.orders h.unique_orders;
  unique_payments = h.unique_payments;
  backed =
      KeepsTaken-IsBacked db.orders (move_order rq db).orders db.payments
        (move_order-KeepsTaken rq db was stays) h.backed;
  one_live = h.one_live;
  one_settled = h.one_settled;
  audited = λ i. elim (Bool-cases (rq.order_id == i)) [
    | inl e ↦
        let same : rq.order_id ≡ i = (==_iff rq.order_id i).0 e in
        rw e (rw (← same, (move_order-Moved rq db was).is))
    | inr e ↦ rw (e, (move_order-Moved rq db was).others i (λ same. ground arith)) (h.audited i)
  ];
  refunds_known = h.refunds_known;
  refunds_within = h.refunds_within;
}
