-- ===== src/System/Doors/Refund.antt =====
-- The refund door: what is given back stays within what was captured.
use cafe_pos.Orders.Transition.{transition_order}
use cafe_pos.System.Doors.Moves.{AfterMove, transition-Ensures}
use cafe_pos.Schema.Enums.{payment_status_eq, PaymentStatus}
use cafe_pos.System.Facts.{facts_in-known, HasFacts, facts_in-All, find-facts}
use cafe_pos.Tx.Ensures.{Ensures, Ensures-throw_if, Ensures-bind, run_keeps}
use cafe_pos.System.Invariant.{Inv, IsRefundedWithin}
use cafe_pos.System.Step.{facts_in, Grows, Step, Step-refl, Step-trans}
use cafe_pos.Schema.Store.{Db, find_payment, find_order}
use cafe_pos.Tx.{DomainEvent, Session}
use cafe_pos.Payments.Refunds.{
  refund_tx, CreateRefundInput, refund, refunded_so_far, move_if_full, RefundView, refund_order,
  refund_payment, refund_request, refund_row,
}
use cafe_pos.Schema.Rows.{Refund, Label, Payment, Order}
use cafe_pos.Prelude.{
  true, false, some, none, [], ◌∷◌, Bool, List, ℕ, Option, ◌≡◌, ◌+◌, some, ◌≤◌, All, ltb,
  Bool-cases, ◌==◌, inl, sym, arith, ==_iff, inr, none, false, refl,
}

refund_row-within :
    (r : Refund) (x : Label × ℕ) (rs : List Refund) (ps : List Payment)
    → refunded_so_far r.payment_id rs + r.amount_minor ≤ x.1
    → All (HasFacts r.payment_id x) ps
    → All (IsRefundedWithin rs) ps
    → All (IsRefundedWithin (r ∷ rs)) ps
refund_row-within r x rs [] room facts h = tt
refund_row-within r x rs (p ∷ ps) room facts h = (
  elim (Bool-cases (r.payment_id == p.id)) [
    | inl e ↦
        let same : p.id ≡ r.payment_id = sym ((==_iff r.payment_id p.id).0 e) in
        let amount : p.amount_minor ≡ x.1 = (facts.0 same).1 in
        let sum : refunded_so_far p.id rs ≡ refunded_so_far r.payment_id rs =
          λ i. refunded_so_far (same i) rs in
        rw e (omega (arith, room, sum, amount))
    | inr e ↦ rw e (omega (arith, h.0))
  ],
  refund_row-within r x rs ps room facts.1 h.1,
)

insert_refund-Step :
    (r : Refund) (x : Label × ℕ) (db : Db)
    → facts_in r.payment_id db.payments ≡ some x
    → refunded_so_far r.payment_id db.refunds + r.amount_minor ≤ x.1
    → Inv db
    → Step db (record db { refunds = r ∷ db.refunds })
insert_refund-Step r x db facts room h = record {
  inv = record {
    unique_orders = h.unique_orders;
    unique_payments = h.unique_payments;
    backed = h.backed;
    one_live = h.one_live;
    one_settled = h.one_settled;
    audited = h.audited;
    refunds_known = (facts_in-known r x db.payments facts, h.refunds_known);
    refunds_within =
        refund_row-within r x db.refunds db.payments room
          (facts_in-All r.payment_id x db.payments h.unique_payments facts) h.refunds_within;
  };
  grows = λ j y e. e;
  money = λ j e. e;
}

move_if_full-Ensures :
    (full : Bool) (user_id : Label) (input : CreateRefundInput) (o : Order) (s : Session)
    → Inv s.db
    → Ensures (λ _ t. Step s.db t.db) (move_if_full full user_id input o s)
move_if_full-Ensures false user_id input o s h = Step-refl s.db h
move_if_full-Ensures true user_id input o s h =
    let rq = refund_request user_id input o in
    Ensures-bind (AfterMove rq s) (λ _ t. Step s.db t.db) (transition_order rq) _ s
      (transition-Ensures rq s h (λ _. refl)) (λ o t a. a.step)

refund_tx-Ensures :
    (refund_id user_id : Label) (input : CreateRefundInput) (p : Payment) (o : Order) (s : Session)
    → facts_in p.id s.db.payments ≡ some (p.order_id, p.amount_minor)
    → Inv s.db
    → Ensures (λ _ t. Step s.db t.db) (refund_tx refund_id user_id input p o s)
unfolding refund_tx
refund_tx-Ensures refund_id user_id input p o s facts h =
    let Q = λ (_ : RefundView) (t : Session). Step s.db t.db in
    let already = refunded_so_far p.id s.db.refunds in
    Ensures-throw_if Q (ltb p.amount_minor (already + input.amount_minor)) _ _ s λ room.
      Ensures-throw_if Q (input.amount_minor == 0) _ _ s λ positive.
        let row = refund_row refund_id user_id p.id input in
        let given =
          insert_refund-Step row (p.order_id, p.amount_minor) s.db facts (ground arith) h in
        let s' : Session = record s { db = record s.db { refunds = row ∷ s.db.refunds } } in
        let full = already + input.amount_minor == p.amount_minor in
        Ensures-bind (λ _ t. Step s'.db t.db) Q (move_if_full full user_id input o) _ s'
          (move_if_full-Ensures full user_id input o s' given.inv)
          (λ _ t st. Step-trans s.db s'.db t.db given st)

module _ (delivers : List DomainEvent → Bool) (today refund_id user_id : Label) where
  refund_order-Step :
      (input : CreateRefundInput) (p : Payment) (o : Option Order) (db : Db)
      → facts_in p.id db.payments ≡ some (p.order_id, p.amount_minor)
      → Inv db
      → Step db (refund_order delivers today refund_id user_id input p o db).db
  refund_order-Step input p none db facts h = Step-refl db h
  refund_order-Step input p (some o) db facts h = elim (Bool-cases (o.business_day == today)) [
    | inl e ↦ rw e (
        run_keeps (Step db) delivers (refund_tx refund_id user_id input p o) db (Step-refl db h) (
          refund_tx-Ensures refund_id user_id input p o (record { db = db; pending = [] }) facts h))
    | inr e ↦ rw e (Step-refl db h)
  ]

  refund_payment-Step :
      (payment_id : Label) (input : CreateRefundInput) (found : Option Payment) (read db : Db)
      → ((p : Payment)
          → found ≡ some p
          → facts_in p.id db.payments ≡ some (p.order_id, p.amount_minor))
      → Inv db
      → Step db (refund_payment delivers today refund_id user_id payment_id input found read db).db
  refund_payment-Step payment_id input none read db facts h = Step-refl db h
  refund_payment-Step payment_id input (some p) read db facts h =
      elim (Bool-cases (payment_status_eq p.status PaymentStatus.succeeded)) [
        | inl e ↦ rw e (refund_order-Step input p (find_order p.order_id read) db (facts p refl) h)
        | inr e ↦ rw e (Step-refl db h)
      ]

  pub refund-Step :
      (payment_id : Label) (input : CreateRefundInput) (read db : Db)
      → Inv read
      → Grows read.payments db.payments
      → Inv db
      → Step db (refund delivers today refund_id user_id payment_id input read db).db
  unfolding refund
  refund-Step payment_id input read db old grows h =
      refund_payment-Step payment_id input (find_payment payment_id read) read db
        (λ p e.
          grows p.id (p.order_id, p.amount_minor)
            (find-facts (λ x. x.id == payment_id) read.payments p old.unique_payments e).0)
        h
