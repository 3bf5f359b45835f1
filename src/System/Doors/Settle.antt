-- ===== src/System/Doors/Settle.antt =====
-- `markPaid` as a step: a success settles the payment together with its order.
use cafe_pos.Orders.Transition.{transition_order}
use cafe_pos.System.Doors.Moves.{AfterMove, transition-Ensures}
use cafe_pos.Tx.Ensures.{Ensures, Ensures-bind}
use cafe_pos.System.Payments.{
  is_live_succeeded, settle_payment-Keeps, update-UniquePayments, update-OnePerOrder,
  update-refunds_known, update-refunds_within,
}
use cafe_pos.System.Success.{BelongsTo, enters-IsBacked, update-enters}
use cafe_pos.System.Step.{facts_in, Step, Step-trans, update-Grows}
use cafe_pos.System.Facts.{HasFacts, facts_in-All}
use cafe_pos.Payments.Webhooks.Decide.{is_settled}
use cafe_pos.Tx.{Session}
use cafe_pos.System.Invariant.{taken, IsBacked, has_with, Inv}
use cafe_pos.Schema.Store.{is_live, Db, status_in}
use cafe_pos.Schema.Enums.{PaymentMethod}
use cafe_pos.Payments.Webhooks.Processor.{
  mark_paid_tx, mark_processed, settle_payment, paid_request,
}
use cafe_pos.Schema.Rows.{Label, Order, Payment}
use cafe_pos.Prelude.{
  [], ◌∷◌, true, false, some, none, Option, List, ℕ, All, ◌≡◌, Bool, ◌&&◌, update_where, Bool-cases,
  ◌==◌, inl, ==_iff, arith, inr, refl,
}

settle-never_live :
    (m : Option PaymentMethod) (p : Payment) → is_live (settle_payment m p).status ≡ false
settle-never_live none p = is_live_succeeded
settle-never_live (some m) p = is_live_succeeded

facts-BelongsTo :
    (j : Label) (x : Label × ℕ) (ps : List Payment)
    → All (HasFacts j x) ps
    → All (BelongsTo j x.0) ps
facts-BelongsTo j x [] h = tt
facts-BelongsTo j x (p ∷ ps) h = (λ same. (h.0 same).0, facts-BelongsTo j x ps h.1)

-- No payment of an order that has not taken money has succeeded.
pub unpaid-unsettled :
    (os : List Order) (o : Label) (ps : List Payment)
    → taken (status_in o os) ≡ false
    → All (IsBacked os) ps
    → has_with is_settled o ps ≡ false
unpaid-unsettled os o [] unpaid h = refl
unpaid-unsettled os o (p ∷ ps) unpaid h =
    elim (Bool-cases (p.order_id == o && is_settled p.status)) [
      | inl both ↦
          let (mine, done) = and_both (p.order_id == o) (is_settled p.status) both in
          let same : p.order_id ≡ o = (==_iff p.order_id o).0 mine in
          let backed : taken (status_in p.order_id os) ≡ true = h.0 done in
          let there : taken (status_in o os) ≡ true = rw same at backed in
          ground (arith, there, unpaid)
      | inr not_both ↦ rw not_both (unpaid-unsettled os o ps unpaid h.1)
    ]
  where
    and_both : (a b : Bool) → (a && b) ≡ true → (a ≡ true) × (b ≡ true)
    and_both true b e = (refl, e)
    and_both false b e = cc

settle-Step :
    (m : Option PaymentMethod) (j o : Label) (amount : ℕ) (db : Db)
    → facts_in j db.payments ≡ some (o, amount)
    → taken (status_in o db.orders) ≡ true
    → has_with is_settled o db.payments ≡ false
    → Inv db
    → Step db
        (record db { payments = update_where (λ p. p.id == j) (settle_payment m) db.payments })
settle-Step m j o amount db facts paid free h =
    let f = settle_payment m in
    let g : Payment → Bool = λ p. p.id == j in
    let keeps = settle_payment-Keeps m in
    let belongs =
      facts-BelongsTo j (o, amount) db.payments
        (facts_in-All j (o, amount) db.payments h.unique_payments facts) in
    record {
      inv = record {
        unique_orders = h.unique_orders;
        unique_payments = update-UniquePayments g f keeps db.payments h.unique_payments;
        backed = enters-IsBacked f keeps j o db.orders db.payments belongs paid h.backed;
        one_live =
            update-OnePerOrder g f keeps is_live db.payments (settle-never_live m) h.one_live;
        one_settled =
            update-enters f keeps j o is_settled db.payments h.unique_payments belongs free
              h.one_settled;
        audited = h.audited;
        refunds_known = update-refunds_known g f keeps db.payments db.refunds h.refunds_known;
        refunds_within = update-refunds_within g f keeps db.refunds db.payments h.refunds_within;
      };
      grows = update-Grows g f keeps db.payments;
      money = λ j e. e;
    }

pub mark_paid_tx-Ensures :
    (event_id j o : Label) (m : Option PaymentMethod) (now amount : ℕ) (s : Session)
    → facts_in j s.db.payments ≡ some (o, amount)
    → Inv s.db
    → Ensures (λ _ t. Step s.db t.db) (mark_paid_tx event_id j o m now s)
unfolding mark_paid_tx mark_processed
mark_paid_tx-Ensures event_id j o m now amount s facts h =
    let rq = paid_request o in
    Ensures-bind (AfterMove rq s) (λ _ t. Step s.db t.db) (transition_order rq) _ s
      (transition-Ensures rq s h (λ _. refl))
      (λ x t a.
        let unpaid : taken (status_in o s.db.orders) ≡ false = rw a.was refl in
        let free = unpaid-unsettled s.db.orders o s.db.payments unpaid h.backed in
        let settled =
          settle-Step m j o amount t.db (rw a.same_payments facts) (rw a.is refl)
            (rw a.same_payments free) a.step.inv in
        Step-trans s.db t.db
          (record t.db {
            payments = update_where (λ p. p.id == j) (settle_payment m) t.db.payments;
          })
          a.step settled)
