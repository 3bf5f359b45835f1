-- ===== src/Payments/Create/Keys.antt =====
-- What src/payments/create/create-payment.service.ts leaves of the keys of other requests.
use cafe_pos.Prelude.{
  [], some, none, Option, ℕ, ◌≡◌, refl, List, Bool, Bool-cases, inl, inr, ◌∙◌, ◌==◌, ap,
  Option-cases, find?, ◌+◌, ◌*◌,
}
use cafe_pos.Schema.Rows.{Label, Order, Payment}
use cafe_pos.Schema.Enums.{PaymentMethod}
use cafe_pos.Schema.Views.{PaymentView, IdempotencyKey, payment_body}
use cafe_pos.Schema.Constraints.{payment_conflicts}
use cafe_pos.Schema.Store.{Db}
use cafe_pos.Identity.Principal.{Principal, staff, device}
use cafe_pos.Tx.{Result, Session, ok, err, Tx, run, DomainEvent}
use cafe_pos.Tx.Ensures.{Ensures, Ensures-bind, Ensures-map, run_keeps}
use cafe_pos.Orders.Transition.{TransitionRequest, transition_order, guarded}
use cafe_pos.Orders.Idempotency.{reserve_key, complete_key, find_key}
use cafe_pos.Orders.Idempotency.Kept.{Holds, reserve_key-Holds, find?-complete_other}
use cafe_pos.Payments.Provider.{
  PaymentProvider, GatewayReply, CreatedIntent, replied, gateway_down, gateway_failed,
}
use cafe_pos.Payments.Create.{
  insert_payment, take_cash_tx, open_gateway_tx, Keyed, cash_payment, gateway_payment, write,
  write_tx, take_cash, open_gateway_payment, pay_order, create_payment, cash_request,
  CreatePaymentInput, answered_before, load_payable_order, is_short, tender_of, hash_of,
  without_secret,
}
use cafe_pos.Payments.Create.Unpayable.{answer_write-db}

-- Work that leaves the keys alone.
abbrev IsKeyless : {A : Type 0} → Tx A → Type 0
IsKeyless m = (s : Session) → Ensures (λ _ t. t.db.keys ≡ s.db.keys) (m s)

insert_payment-IsKeyless : (p : Payment) → IsKeyless (insert_payment p)
unfolding insert_payment
insert_payment-IsKeyless p s = elim (Bool-cases (p.amount_minor == 0)) [
  | inl zero_total ↦ rw (zero_total, Ensures) tt
  | inr some_total ↦ elim (Bool-cases (payment_conflicts p s.db.payments)) [
    | inl clash ↦ rw (some_total, clash, Ensures) tt
    | inr free ↦ rw (some_total, free, Ensures) refl
  ]
]

transition_order-IsKeyless : (rq : TransitionRequest) → IsKeyless (transition_order rq)
unfolding transition_order
transition_order-IsKeyless rq s = elim (Option-cases (find? (guarded rq) s.db.orders)) [
  | inl missing ↦ rw (missing, Ensures) tt
  | inr (o, found) ↦ rw (found, Ensures) refl
]

take_cash_tx-IsKeyless :
    (payment_id user_id : Label) (o : Order) (tendered : ℕ) (keyed : Keyed)
    → IsKeyless (take_cash_tx payment_id user_id o tendered keyed)
unfolding take_cash_tx
take_cash_tx-IsKeyless payment_id user_id o tendered keyed s =
    let p = cash_payment payment_id o tendered keyed in
    let rq = cash_request user_id o.id in
    let Q = λ (_ : PaymentView) (t : Session). t.db.keys ≡ s.db.keys in
    Ensures-bind _ Q (insert_payment p) _ s (insert_payment-IsKeyless p s) (λ _ t same.
      Ensures-bind _ Q (transition_order rq) _ t (transition_order-IsKeyless rq t)
        (λ x u again. again ∙ same))

open_gateway_tx-IsKeyless :
    (payment_id : Label) (o : Order) (intent : CreatedIntent) (keyed : Keyed)
    → IsKeyless (open_gateway_tx payment_id o intent keyed)
unfolding open_gateway_tx
open_gateway_tx-IsKeyless payment_id o intent keyed s =
    let p = gateway_payment payment_id o intent keyed in
    let Q = λ (_ : PaymentView) (t : Session). t.db.keys ≡ s.db.keys in
    Ensures-bind _ Q (insert_payment p) _ s (insert_payment-IsKeyless p s) (λ _ t same. same)

module _ (key : Label) (stored : IdempotencyKey) where
  write_tx-Holds :
      (now : ℕ) (keyed : Keyed) (work : Tx PaymentView) (s : Session)
      → IsKeyless work
      → Holds key stored s.db
      → Ensures (λ _ t. Holds key stored t.db) (write_tx now keyed work s)
  unfolding write_tx complete_key
  write_tx-Holds now none work s keyless there =
      let Q = λ (_ : PaymentView) (t : Session). Holds key stored t.db in
      Ensures-map _ Q (work s) (keyless s)
        (λ view t same. ap (find? (λ k. k.key == key)) same ∙ there)
  write_tx-Holds now (some (other, request_hash)) work s keyless there =
      let Q = λ (_ : PaymentView) (t : Session). Holds key stored t.db in
      Ensures-bind _ Q (reserve_key other request_hash (now + 24 * 60 * 60 * 1000)) _ s
        (reserve_key-Holds key other request_hash (now + 24 * 60 * 60 * 1000) stored s there)
        (λ _ t (apart, kept).
          Ensures-bind (λ _ u. u.db.keys ≡ t.db.keys) Q work _ t (keyless t)
            (λ view u same.
              find?-complete_other key other 201 (payment_body (without_secret view)) u.db.keys
                apart
              ∙ (ap (find? (λ k. k.key == key)) same ∙ kept)))

  module _ (provider : PaymentProvider) (delivers : List DomainEvent → Bool) (now : ℕ) where
    write-Holds :
        (keyed : Keyed) (work : Tx PaymentView) (db : Db)
        → IsKeyless work
        → Holds key stored db
        → Holds key stored (write provider delivers now keyed work db).db
    unfolding write
    write-Holds keyed work db keyless there =
        let o = run delivers (write_tx now keyed work) db in
        ap (find_key key) (answer_write-db provider keyed o o.result)
        ∙ run_keeps (Holds key stored) delivers (write_tx now keyed work) db there
            (write_tx-Holds now keyed work (record { db = db; pending = [] }) keyless there)

    module _ (payment_id : Label) where
      take_cash-Holds :
          (principal : Principal) (o : Order) (tendered : Option ℕ) (keyed : Keyed) (db : Db)
          → Holds key stored db
          → Holds key stored
              (take_cash provider delivers now payment_id principal o tendered keyed db).db
      take_cash-Holds (device _) o tendered keyed db there = there
      take_cash-Holds (staff user_id x y) o tendered keyed db there =
          elim (Bool-cases (is_short tendered o.total_minor)) [
            | inl short ↦ rw short there
            | inr covered ↦ rw covered (
                write-Holds keyed (take_cash_tx payment_id user_id o (tender_of tendered) keyed) db
                  (take_cash_tx-IsKeyless payment_id user_id o (tender_of tendered) keyed) there)
          ]

      open_gateway-Holds :
          (o : Order) (intent : GatewayReply CreatedIntent) (keyed : Keyed) (db : Db)
          → Holds key stored db
          → Holds key stored
              (open_gateway_payment provider delivers now payment_id o intent keyed db).db
      open_gateway-Holds o gateway_down keyed db there = there
      open_gateway-Holds o gateway_failed keyed db there = there
      open_gateway-Holds o (replied intent) keyed db there =
          write-Holds keyed (open_gateway_tx payment_id o intent keyed) db
            (open_gateway_tx-IsKeyless payment_id o intent keyed) there

      pay_order-Holds :
          (principal : Principal) (input : CreatePaymentInput) (method : PaymentMethod)
          (keyed : Keyed) (payable : Result Order) (db : Db)
          → Holds key stored db
          → Holds key stored
              (pay_order provider delivers now payment_id principal input method keyed payable
                db).db
      pay_order-Holds principal input method keyed (err e) db there = there
      pay_order-Holds principal input PaymentMethod.cash keyed (ok o) db there =
          take_cash-Holds principal o input.cash_tendered_minor keyed db there
      pay_order-Holds principal input PaymentMethod.card keyed (ok o) db there =
          open_gateway-Holds o _ keyed db there
      pay_order-Holds principal input PaymentMethod.promptpay keyed (ok o) db there =
          open_gateway-Holds o _ keyed db there

      pub create_payment-Holds :
          (principal : Principal) (order_id : Label) (input : CreatePaymentInput) (keyed : Keyed)
          (read db : Db)
          → Holds key stored db
          → Holds key stored
              (create_payment provider delivers now payment_id principal order_id input keyed read
                db).db
      unfolding create_payment
      create_payment-Holds principal order_id input keyed read db there =
          elim (Option-cases (answered_before provider delivers now payment_id keyed read)) [
            | inl fresh ↦ rw fresh (
                pay_order-Holds principal input input.method keyed
                  (load_payable_order principal order_id read) db there)
            | inr ((stored_hash, body), before) ↦
                elim (Bool-cases (stored_hash == hash_of provider delivers now payment_id keyed)) [
                  | inl e ↦ rw (before, e) there
                  | inr e ↦ rw (before, e) there
                ]
          ]
