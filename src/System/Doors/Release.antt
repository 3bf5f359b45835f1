-- ===== src/System/Doors/Release.antt =====
-- The doors that give an order up: the cancellation and the expiry sweep.
use cafe_pos.System.Payments.{is_live_cancelled, is_settled_cancelled}
use cafe_pos.Orders.Transition.{transition_order}
use cafe_pos.Payments.Webhooks.Processor.{is_unsettled}
use cafe_pos.System.Doors.Moves.{AfterMove, transition-Ensures, cancellable-unpaid}
use cafe_pos.Tx.Ensures.{Ensures, Ensures-bind, transaction_keeps, run_keeps}
use cafe_pos.System.Step.{Step, Step-refl, Step-trans, lower-Step}
use cafe_pos.Schema.Enums.{OrderStatus, includes_order_status, PaymentStatus}
use cafe_pos.System.Invariant.{Inv}
use cafe_pos.Tx.{Result, DomainEvent, Session, ok, err, transaction}
use cafe_pos.Identity.Principal.{Principal}
use cafe_pos.Schema.Rows.{Label, Payment, Order}
use cafe_pos.Schema.Store.{Db, find_live}
use cafe_pos.Orders.Expiry.{
  expire_tx, expire_one, expire_all, expire_overdue, expire_committed, abandon_payment,
  expire_request, expire_answered, max_per_tick, is_overdue,
}
use cafe_pos.Payments.Provider.{PaymentProvider}
use cafe_pos.Orders.Cancel.{
  cancel_tx, cancel_payment, cancellable, cancel, cancel_found, cancel_live_intent, cancel_request,
  cancel_answered, is_visible_to,
}
use cafe_pos.Prelude.{
  [], ◌∷◌, Option, List, ℕ, Bool, map, ◌≡◌, find?, take, some, true, Bool-cases, ◌==◌, ◌&&◌, select,
  inl, inr, none, arith,
}

cancel_payment-Step : (live : Option Payment) (db : Db) → Inv db → Step db (cancel_payment live db)
cancel_payment-Step none db h = Step-refl db h
cancel_payment-Step (some p) db h =
    lower-Step (is_unsettled p.id) PaymentStatus.cancelled db is_live_cancelled is_settled_cancelled
      h

cancel_tx-Ensures :
    (principal : Principal) (order_id : Label) (reason : Option Label) (current : OrderStatus)
    (live : Option Payment) (s : Session)
    → includes_order_status cancellable current ≡ true
    → Inv s.db
    → Ensures (λ _ t. Step s.db t.db) (cancel_tx principal order_id reason current live s)
unfolding cancel_tx
cancel_tx-Ensures principal order_id reason current live s may h =
    let rq = cancel_request principal order_id reason current in
    Ensures-bind (AfterMove rq s) (λ _ t. Step s.db t.db) (transition_order rq) _ s
      (transition-Ensures rq s h (λ e. ground (arith, cancellable-unpaid current may)))
      (λ o t a.
        Step-trans s.db t.db (cancel_payment live t.db) a.step
          (cancel_payment-Step live t.db a.step.inv))

module _ (provider : PaymentProvider) (delivers : List DomainEvent → Bool) where
  cancel_answered-Step :
      (principal : Principal) (order_id : Label) (reason : Option Label) (current : OrderStatus)
      (live : Option Payment) (answer : Result (Unit {0})) (db : Db)
      → includes_order_status cancellable current ≡ true
      → Inv db
      → Step db
          (cancel_answered provider delivers principal order_id reason current live answer db).db
  cancel_answered-Step principal order_id reason current live (err e) db may h = Step-refl db h
  cancel_answered-Step principal order_id reason current live (ok _) db may h =
      run_keeps (Step db) delivers (cancel_tx principal order_id reason current live) db
        (Step-refl db h)
        (cancel_tx-Ensures principal order_id reason current live (record { db = db; pending = [] })
          may h)

  cancel_found-Step :
      (principal : Principal) (order_id : Label) (reason : Option Label) (found : Option Order)
      (read db : Db)
      → Inv db
      → Step db (cancel_found provider delivers principal order_id reason found read db).db
  cancel_found-Step principal order_id reason none read db h = Step-refl db h
  cancel_found-Step principal order_id reason (some o) read db h =
      elim (Bool-cases (includes_order_status cancellable o.status)) [
        | inl may ↦ rw may (
            cancel_answered-Step principal order_id reason o.status (find_live order_id read)
              (cancel_live_intent provider (find_live order_id read)) db may h)
        | inr refusal ↦ rw refusal (Step-refl db h)
      ]

  pub cancel-Step :
      (principal : Principal) (order_id : Label) (reason : Option Label) (read db : Db)
      → Inv db
      → Step db (cancel provider delivers principal order_id reason read db).db
  unfolding cancel
  cancel-Step principal order_id reason read db h =
      cancel_found-Step principal order_id reason
        (find? (λ o. o.id == order_id && is_visible_to principal o) read.orders) read db h

abandon_payment-Step :
    (live : Option Payment) (db : Db) → Inv db → Step db (abandon_payment live db)
abandon_payment-Step none db h = Step-refl db h
abandon_payment-Step (some p) db h =
    lower-Step (λ x. x.id == p.id) PaymentStatus.cancelled db is_live_cancelled is_settled_cancelled
      h

expire_tx-Ensures :
    (order_id : Label) (live : Option Payment) (s : Session)
    → Inv s.db
    → Ensures (λ _ t. Step s.db t.db) (expire_tx order_id live s)
unfolding expire_tx
expire_tx-Ensures order_id live s h =
    let rq = expire_request order_id in
    Ensures-bind (AfterMove rq s) (λ _ t. Step s.db t.db) (transition_order rq) _ s
      (transition-Ensures rq s h (λ e. cc))
      (λ o t a.
        Step-trans s.db t.db (abandon_payment live t.db) a.step
          (abandon_payment-Step live t.db a.step.inv))

expire_committed-Step :
    (P : Db → Type 0) (r : Result (Unit {0}) × Db) → P r.1 → P (expire_committed r).1
expire_committed-Step P (ok _, db) h = h
expire_committed-Step P (err _, db) h = h

expire_answered-Step :
    (order_id : Label) (live : Option Payment) (answer : Result (Unit {0})) (db : Db)
    → Inv db
    → Step db (expire_answered order_id live answer db).1
expire_answered-Step order_id live (err _) db h = Step-refl db h
expire_answered-Step order_id live (ok _) db h =
    expire_committed-Step (Step db) (transaction (expire_tx order_id live) db) (
      transaction_keeps (Step db) (expire_tx order_id live) db (Step-refl db h)
        (expire_tx-Ensures order_id live (record { db = db; pending = [] }) h))

module _ (provider : PaymentProvider) where
  pub expire_one-Step :
      (order_id : Label) (read db : Db) → Inv db → Step db (expire_one provider order_id read db).1
  unfolding expire_one
  expire_one-Step order_id read db h =
      let live = find_live order_id read in
      expire_answered-Step order_id live (cancel_live_intent provider live) db h

  expire_all-Step : (is : List Label) (db : Db) → Inv db → Step db (expire_all provider is db).1
  unfolding expire_all
  expire_all-Step [] db h = Step-refl db h
  expire_all-Step (i ∷ is) db h =
      let db' = (expire_one provider i db db).1 in
      let first = expire_one-Step i db db h in
      Step-trans db db' (expire_all provider is db').1 first (expire_all-Step is db' first.inv)

  pub expire_overdue-Step :
      (now : ℕ) (db : Db) → Inv db → Step db (expire_overdue provider now db).1
  unfolding expire_overdue
  expire_overdue-Step now db h =
      expire_all-Step (map (λ o. o.id) (take max_per_tick (select (is_overdue now) db.orders))) db h
