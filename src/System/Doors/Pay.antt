-- ===== src/System/Doors/Pay.antt =====
-- The door through which a payment enters.
use cafe_pos.System.Doors.Settle.{unpaid-unsettled}
use cafe_pos.Orders.Transition.Guard.{transition_ok, move_order-Moved}
use cafe_pos.Orders.Transition.Tables.{UniqueIds}
use cafe_pos.Orders.Transition.{transition_order, move_order}
use cafe_pos.System.Payments.{pending-unsettled}
use cafe_pos.Schema.Views.{PaymentView}
use cafe_pos.Payments.Refunds.{refunded_so_far}
use cafe_pos.Payments.Webhooks.Decide.{is_settled}
use cafe_pos.System.Invariant.{is_known, Inv, taken, has_with}
use cafe_pos.System.Step.{Grows, facts_in, Step, move-Step, Step-trans}
use cafe_pos.Payments.Provider.{CreatedIntent}
use cafe_pos.Tx.Ensures.{Ensures, Ensures-bind, Ensures-ok}
use cafe_pos.Payments.Tables.{payment_status_in}
use cafe_pos.Schema.Constraints.{payment_conflicts}
use cafe_pos.Tx.{Session, ok}
use cafe_pos.Schema.Store.{Db, is_live, status_in}
use cafe_pos.Payments.Create.{
  insert_payment, open_gateway_tx, take_cash_tx, Keyed, gateway_payment, cash_payment, cash_request,
}
use cafe_pos.Schema.Rows.{Payment, Label, Order, Refund}
use cafe_pos.Prelude.{
  [], ◌∷◌, true, false, some, none, List, ℕ, ◌≡◌, All, arith, Bool-cases, ◌&&◌, ◌==◌, refl, inl,
  ==_iff, inr, some-ne-none, sym, ◌∙◌,
}

-- What the unique constraints say of a new row.
fresh_payment :
    (p : Payment) (ps : List Payment)
    → payment_conflicts p ps ≡ false
    → payment_status_in p.id ps ≡ none
fresh_payment p [] e = refl
fresh_payment p (x ∷ ps) e = ground (arith, fresh_payment p ps)

no_other_live :
    (p : Payment) (ps : List Payment)
    → payment_conflicts p ps ≡ false
    → (is_live p.status && has_with is_live p.order_id ps) ≡ false
no_other_live p [] e = ground arith
no_other_live p (x ∷ ps) e = ground (arith, no_other_live p ps)

fresh_facts :
    (p : Payment) (ps : List Payment) → payment_status_in p.id ps ≡ none → Grows ps (p ∷ ps)
fresh_facts p ps fresh j x e = elim (Bool-cases (p.id == j)) [
  | inl here ↦
      let same : p.id ≡ j = (==_iff p.id j).0 here in
      absurd (some-ne-none (sym e ∙ absent ps (rw same at fresh)))
  | inr other ↦ rw other e
]
  where
    absent : (qs : List Payment) → payment_status_in j qs ≡ none → facts_in j qs ≡ none
    absent [] h = refl
    absent (q ∷ qs) h = ground (arith, absent qs)

-- Nothing was given back of a payment that is not there.
unknown_refund :
    (r : Refund) (ps : List Payment)
    → payment_status_in r.payment_id ps ≡ none
    → is_known ps r ≡ false
unknown_refund r [] h = refl
unknown_refund r (q ∷ qs) h = ground (arith, unknown_refund r qs)

unknown_refunds :
    (j : Label) (ps : List Payment) (rs : List Refund)
    → payment_status_in j ps ≡ none
    → All (λ r. is_known ps r ≡ true) rs
    → refunded_so_far j rs ≡ 0
unknown_refunds j ps [] fresh h = refl
unknown_refunds j ps (r ∷ rs) fresh h = elim (Bool-cases (r.payment_id == j)) [
  | inl e ↦
      let same : j ≡ r.payment_id = sym ((==_iff r.payment_id j).0 e) in
      let no_one = unknown_refund r ps (rw same at fresh) in ground (arith, h.0, no_one)
  | inr e ↦ rw e (omega (arith, unknown_refunds j ps rs fresh h.1))
]

grow_known :
    (p : Payment) (ps : List Payment) (rs : List Refund)
    → All (λ r. is_known ps r ≡ true) rs
    → All (λ r. is_known (p ∷ ps) r ≡ true) rs
grow_known p ps [] h = tt
grow_known p ps (r ∷ rs) h = (ground (arith, h.0), grow_known p ps rs h.1)

insert-Step :
    (p : Payment) (db : Db)
    → payment_conflicts p db.payments ≡ false
    → (is_settled p.status ≡ true → taken (status_in p.order_id db.orders) ≡ true)
    → (is_settled p.status ≡ true → has_with is_settled p.order_id db.payments ≡ false)
    → Inv db
    → Step db (record db { payments = p ∷ db.payments })
insert-Step p db free paid alone h =
    let fresh = fresh_payment p db.payments free in
    record {
      inv = record {
        unique_orders = h.unique_orders;
        unique_payments = (fresh, h.unique_payments);
        backed = (paid, h.backed);
        one_live = (no_other_live p db.payments free, h.one_live);
        one_settled = (
          elim (Bool-cases (is_settled p.status)) [
            | inl e ↦ rw (alone e) (ground arith)
            | inr e ↦ rw e refl
          ],
          h.one_settled,
        );
        audited = h.audited;
        refunds_known = grow_known p db.payments db.refunds h.refunds_known;
        refunds_within = (
          omega (arith, unknown_refunds p.id db.payments db.refunds fresh h.refunds_known),
          h.refunds_within,
        );
      };
      grows = fresh_facts p db.payments fresh;
      money = λ j e. e;
    }

-- An insert that goes through met no constraint.
insert_payment-Ensures :
    (p : Payment) (s : Session)
    → Ensures
        (λ _ t.
          (payment_conflicts p s.db.payments ≡ false)
          × (t ≡ record s { db = record s.db { payments = p ∷ s.db.payments } }))
        (insert_payment p s)
unfolding insert_payment
insert_payment-Ensures p s = elim (Bool-cases (p.amount_minor == 0)) [
  | inl zero_total ↦ rw (zero_total, Ensures) tt
  | inr some_total ↦ elim (Bool-cases (payment_conflicts p s.db.payments)) [
    | inl clash ↦ rw (some_total, clash, Ensures) tt
    | inr free ↦ rw (some_total, free, Ensures) (free, refl)
  ]
]

pub open_gateway_tx-Ensures :
    (payment_id : Label) (o : Order) (intent : CreatedIntent) (keyed : Keyed) (s : Session)
    → Inv s.db
    → Ensures (λ _ t. Step s.db t.db) (open_gateway_tx payment_id o intent keyed s)
unfolding open_gateway_tx
open_gateway_tx-Ensures payment_id o intent keyed s h =
    let p = gateway_payment payment_id o intent keyed in
    Ensures-bind _ (λ _ t. Step s.db t.db) (insert_payment p) _ s (insert_payment-Ensures p s)
      (λ _ t (free, after). rw after (
        insert-Step p s.db free (λ e. absurd (pending-unsettled e))
          (λ e. absurd (pending-unsettled e)) h))

pub take_cash_tx-Ensures :
    (payment_id user_id : Label) (o : Order) (tendered : ℕ) (keyed : Keyed) (s : Session)
    → Inv s.db
    → Ensures (λ _ t. Step s.db t.db) (take_cash_tx payment_id user_id o tendered keyed s)
unfolding take_cash_tx
take_cash_tx-Ensures payment_id user_id o tendered keyed s h =
    let p = cash_payment payment_id o tendered keyed in
    let Q = λ (_ : PaymentView) (t : Session). Step s.db t.db in
    let rq = cash_request user_id o.id in
    Ensures-bind _ Q (insert_payment p) _ s (insert_payment-Ensures p s) (λ _ t (free, after).
      Ensures-bind _ Q (transition_order rq) _ t
        (Ensures-ok (λ x u. transition_order rq t ≡ ok (x, u)) (transition_order rq t) (λ x u e. e))
        (λ x u e.
          let unique : UniqueIds t.db.orders = rw after h.unique_orders in
          let (was, then_, _) = transition_ok rq t u x unique e in
          let before : status_in o.id s.db.orders ≡ some rq.from = rw after at was in
          let moved = move-Step rq s.db before (λ _. refl) h in
          let unpaid : taken (status_in o.id s.db.orders) ≡ false = rw before refl in
          let entered =
            insert-Step p (move_order rq s.db) free
              (λ _. rw (move_order-Moved rq s.db before).is refl)
              (λ _. unpaid-unsettled s.db.orders o.id s.db.payments unpaid h.backed) moved.inv in
          rw (then_, after)
            (Step-trans s.db (move_order rq s.db)
              (record (move_order rq s.db) { payments = p ∷ s.db.payments }) moved entered)))
