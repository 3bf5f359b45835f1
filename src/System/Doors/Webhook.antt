-- ===== src/System/Doors/Webhook.antt =====
-- The inbox door: an event, judged on an earlier read, is applied to the store as it is.
use cafe_pos.System.Doors.Settle.{mark_paid_tx-Ensures}
use cafe_pos.Orders.Transition.Tables.{find-status_in}
use cafe_pos.Payments.Webhooks.Judgement.{marks_payment_unsettled}
use cafe_pos.Payments.Provider.{PaymentProvider, GatewayOutcome}
use cafe_pos.Tx.Ensures.{run_keeps}
use cafe_pos.System.Step.{facts_in, Step, Step-trans, Step-refl, Grows, lower-Step}
use cafe_pos.System.Facts.{find-facts}
use cafe_pos.Payments.Webhooks.Decide.{
  PaymentDecision, mark_paid, mark_payment, is_settled, skip, refuse, decide_payment_outcome,
}
use cafe_pos.Tx.{DomainEvent, run}
use cafe_pos.System.Invariant.{Inv}
use cafe_pos.Schema.Store.{is_live, Db, find_order}
use cafe_pos.Schema.Enums.{payment_status_eq, PaymentStatus}
use cafe_pos.Payments.Webhooks.Processor.{
  max_per_tick, mark_paid_tx, mark_processed, load, apply_decision, apply, process_event,
  drain_events, drain_inbox, intent_of, mark_payment_tx, resolve_method, is_unsettled,
  is_unprocessed,
}
use cafe_pos.Schema.Rows.{Label, Order, Payment, PaymentEvent}
use cafe_pos.Prelude.{
  [], ◌∷◌, false, some, none, Option, List, ℕ, ◌≡◌, Bool, inl, arith, inr, refl, Option-cases, map,
  find?, take, option_eq, select, not, is_some,
}

-- What a decision names, it names of the payment and the order that were loaded.
mark_paid_names :
    (outcome : GatewayOutcome) (payment : Option Payment) (order : Option Order) (j i : Label)
    → decide_payment_outcome outcome payment order ≡ mark_paid j i
    → (p : Payment) × (o : Order) × (payment ≡ some p) × (order ≡ some o) × (j ≡ p.id) × (i ≡ o.id)
unfolding decide_payment_outcome
mark_paid_names GatewayOutcome.ignored payment order j i e = cc
mark_paid_names (GatewayOutcome.succeeded t a c) none order j i e = cc
mark_paid_names (GatewayOutcome.succeeded t a c) (some p) none j i e = ground arith
mark_paid_names (GatewayOutcome.succeeded t a c) (some p) (some o) j i e =
    (p, o, refl, refl, ground arith, ground arith)
mark_paid_names (GatewayOutcome.failed t r) none order j i e = cc
mark_paid_names (GatewayOutcome.failed t r) (some p) order j i e = ground arith
mark_paid_names (GatewayOutcome.cancelled t) none order j i e = cc
mark_paid_names (GatewayOutcome.cancelled t) (some p) order j i e = ground arith

mark_payment_lowers :
    (outcome : GatewayOutcome) (payment : Option Payment) (order : Option Order) (j : Label)
    (status : PaymentStatus)
    → decide_payment_outcome outcome payment order ≡ mark_payment j status
    → (is_live status ≡ false) × (is_settled status ≡ false)
unfolding decide_payment_outcome payment_status_eq
mark_payment_lowers outcome (some p) order j status e =
    let (_, _, _, which) = marks_payment_unsettled outcome p order j status e in
    elim which [ inl failed ↦ rw failed (refl, refl) | inr cancelled ↦ rw cancelled (refl, refl) ]
mark_payment_lowers GatewayOutcome.ignored none order j status e = cc
mark_payment_lowers (GatewayOutcome.succeeded t a c) none order j status e = cc
mark_payment_lowers (GatewayOutcome.failed t r) none order j status e = cc
mark_payment_lowers (GatewayOutcome.cancelled t) none order j status e = cc

load-facts :
    (outcome : GatewayOutcome) (read : Db) (p : Payment) (o : Order)
    → Inv read
    → (load outcome read).0 ≡ some p
    → (load outcome read).1 ≡ some o
    → (facts_in p.id read.payments ≡ some (p.order_id, p.amount_minor)) × (o.id ≡ p.order_id)
unfolding load
load-facts outcome read p o h e f = elim (Option-cases (intent_of outcome)) [
  | inl ignored ↦ ground arith
  | inr (i, named) ↦
      elim (Option-cases (find? (λ p. option_eq p.provider_intent_id (some i)) read.payments)) [
        | inl missing ↦ ground arith
        | inr (x, found) ↦
            let same : x ≡ p = ground arith in
            let its : find_order x.order_id read ≡ some o = ground arith in
            (
              (rw same at (
                  find-facts (λ p. option_eq p.provider_intent_id (some i)) read.payments x
                    h.unique_payments found)).0,
              (find-status_in p.order_id read.orders o (rw same at its)).1,
            )
      ]
]

module _ (provider : PaymentProvider) (delivers : List DomainEvent → Bool) (now : ℕ) where
  mark_payment-Step :
      (event_id j : Label) (status : PaymentStatus) (db : Db)
      → is_live status ≡ false
      → is_settled status ≡ false
      → Inv db
      → Step db (run delivers (mark_payment_tx event_id j status now) db).db
  unfolding run mark_payment_tx mark_processed
  mark_payment-Step event_id j status db not_live not_settled h =
      lower-Step (is_unsettled j) status db not_live not_settled h

  apply_decision-Step :
      (event_id : Label) (payment : Option Payment) (d : PaymentDecision) (read db : Db)
      → ((j i : Label)
          → d ≡ mark_paid j i
          → (amount : ℕ) × (facts_in j db.payments ≡ some (i, amount)))
      → ((j : Label) (status : PaymentStatus)
          → d ≡ mark_payment j status
          → (is_live status ≡ false) × (is_settled status ≡ false))
      → Inv db
      → Step db (apply_decision provider delivers now event_id payment d read db).db
  unfolding apply_decision mark_processed
  apply_decision-Step event_id payment (refuse why) read db paid lowers h = Step-refl db h
  apply_decision-Step event_id payment (skip why) read db paid lowers h = Step-refl db h
  apply_decision-Step event_id payment (mark_payment j status) read db paid lowers h =
      let (not_live, not_settled) = lowers j status refl in
      mark_payment-Step event_id j status db not_live not_settled h
  apply_decision-Step event_id payment (mark_paid j i) read db paid lowers h =
      let (amount, facts) = paid j i refl in
      let m = resolve_method provider j read in
      run_keeps (Step db) delivers (mark_paid_tx event_id j i m now) db (Step-refl db h)
        (mark_paid_tx-Ensures event_id j i m now amount (record { db = db; pending = [] }) facts h)

  apply-Step :
      (event_id : Label) (event : Option PaymentEvent) (read db : Db)
      → Inv read
      → Grows read.payments db.payments
      → Inv db
      → Step db (apply provider delivers now event_id event read db).db
  unfolding apply
  apply-Step event_id none read db old grows h = Step-refl db h
  apply-Step event_id (some event) read db old grows h =
      let outcome = provider.interpret event.payload in
      let payment = (load outcome read).0 in
      let order = (load outcome read).1 in
      apply_decision-Step event_id payment (decide_payment_outcome outcome payment order) read db
        (λ j i e.
          let (p, o, was, of, same_p, same_o) = mark_paid_names outcome payment order j i e in
          let (facts, owner) = load-facts outcome read p o old was of in
          let named : facts_in j read.payments ≡ some (i, p.amount_minor) = ground arith in
          (p.amount_minor, grows j (i, p.amount_minor) named))
        (λ j status e. mark_payment_lowers outcome payment order j status e) h

  pub process_event-Step :
      (event_id : Label) (read db : Db)
      → Inv read
      → Grows read.payments db.payments
      → Inv db
      → Step db (process_event provider delivers now event_id read db).db
  unfolding process_event
  process_event-Step event_id read db old grows h =
      apply-Step event_id (find? (is_unprocessed event_id) read.events) read db old grows h

  drain_events-Step :
      (is : List Label) (db : Db) → Inv db → Step db (drain_events provider delivers now is db).1
  unfolding drain_events
  drain_events-Step [] db h = Step-refl db h
  drain_events-Step (i ∷ is) db h =
      let db' = (process_event provider delivers now i db db).db in
      let first = process_event-Step i db db h (λ j x e. e) h in
      Step-trans db db' (drain_events provider delivers now is db').1 first
        (drain_events-Step is db' first.inv)

  pub drain_inbox-Step : (db : Db) → Inv db → Step db (drain_inbox provider delivers now db).1
  unfolding drain_inbox
  drain_inbox-Step db h =
      drain_events-Step
        (map (λ e. e.id) (take max_per_tick (select (λ e. not (is_some e.processed_at)) db.events)))
        db h
