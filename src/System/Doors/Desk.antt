-- ===== src/System/Doors/Desk.antt =====
-- The payment request as a whole: its checks, its key, and the write.
use cafe_pos.Payments.Create.Unpayable.{answer_write-db}
use cafe_pos.System.Doors.Pay.{take_cash_tx-Ensures, open_gateway_tx-Ensures}
use cafe_pos.System.Doors.Create.{keyed-Ensures}
use cafe_pos.Schema.Enums.{PaymentMethod}
use cafe_pos.System.Step.{Step, Step-refl}
use cafe_pos.Schema.Store.{Db}
use cafe_pos.Tx.Ensures.{Ensures, run_keeps}
use cafe_pos.Identity.Principal.{Principal}
use cafe_pos.System.Invariant.{Inv}
use cafe_pos.Tx.{◌>>◌, DomainEvent, Session, Tx, Result, run, err, ok, pure}
use cafe_pos.Schema.Views.{PaymentView, ResponseBody, payment_body}
use cafe_pos.Schema.Rows.{Label, Order}
use cafe_pos.Payments.Provider.{
  GatewayReply, replied, gateway_down, gateway_failed, PaymentProvider, CreatedIntent,
}
use cafe_pos.Payments.Create.{
  write_tx, Keyed, write, create_payment, CreatePaymentInput, take_cash, open_gateway_payment,
  pay_order, create_unless_answered, answered_before, load_payable_order, open_gateway_tx, is_short,
  hash_of, take_cash_tx, tender_of, without_secret,
}
use cafe_pos.Orders.Idempotency.{complete_key}
use cafe_pos.Prelude.{
  [], some, none, ℕ, List, Bool, Option, ◌+◌, subst, ◌*◌, sym, Bool-cases, ◌==◌, inl, inr,
}

complete_payment-Ensures :
    (key : Label) (view : PaymentView) (s : Session)
    → Inv s.db
    → Ensures
        (λ _ t. Step s.db t.db)
        ((do complete_key key 201 (payment_body (without_secret view)); pure view) s)
unfolding complete_key
complete_payment-Ensures key view s h = Step-refl s.db h

write_tx-Ensures :
    (now : ℕ) (keyed : Keyed) (work : Tx PaymentView) (s : Session)
    → ((t : Session) → Inv t.db → Ensures (λ _ u. Step t.db u.db) (work t))
    → Inv s.db
    → Ensures (λ _ t. Step s.db t.db) (write_tx now keyed work s)
unfolding write_tx
write_tx-Ensures now none work s works h = works s h
write_tx-Ensures now (some (key, request_hash)) work s works h =
    keyed-Ensures key request_hash (now + 24 * 60 * 60 * 1000) work _ s works
      (complete_payment-Ensures key) h

module _ (provider : PaymentProvider) (delivers : List DomainEvent → Bool) (now : ℕ) where
  write-Step :
      (keyed : Keyed) (work : Tx PaymentView) (db : Db)
      → ((t : Session) → Inv t.db → Ensures (λ _ u. Step t.db u.db) (work t))
      → Inv db
      → Step db (write provider delivers now keyed work db).db
  unfolding write
  write-Step keyed work db works h =
      let o = run delivers (write_tx now keyed work) db in
      subst (Step db) (sym (answer_write-db provider keyed o o.result)) (
        run_keeps (Step db) delivers (write_tx now keyed work) db (Step-refl db h)
          (write_tx-Ensures now keyed work (record { db = db; pending = [] }) works h))

  module _ (payment_id : Label) where
    take_cash-Step :
        (principal : Principal) (o : Order) (tendered : Option ℕ) (keyed : Keyed) (db : Db)
        → Inv db
        → Step db (take_cash provider delivers now payment_id principal o tendered keyed db).db
    take_cash-Step (Principal.device d) o tendered keyed db h = Step-refl db h
    take_cash-Step (Principal.staff user_id x y) o tendered keyed db h =
        elim (Bool-cases (is_short tendered o.total_minor)) [
          | inl short ↦ rw short (Step-refl db h)
          | inr covered ↦ rw covered (
              write-Step keyed (take_cash_tx payment_id user_id o (tender_of tendered) keyed) db
                (take_cash_tx-Ensures payment_id user_id o (tender_of tendered) keyed) h)
        ]

    open_gateway-Step :
        (o : Order) (intent : GatewayReply CreatedIntent) (keyed : Keyed) (db : Db)
        → Inv db
        → Step db (open_gateway_payment provider delivers now payment_id o intent keyed db).db
    open_gateway-Step o gateway_down keyed db h = Step-refl db h
    open_gateway-Step o gateway_failed keyed db h = Step-refl db h
    open_gateway-Step o (replied intent) keyed db h =
        write-Step keyed (open_gateway_tx payment_id o intent keyed) db
          (open_gateway_tx-Ensures payment_id o intent keyed) h

    pay_order-Step :
        (principal : Principal) (input : CreatePaymentInput) (method : PaymentMethod)
        (keyed : Keyed) (payable : Result Order) (db : Db)
        → Inv db
        → Step db
            (pay_order provider delivers now payment_id principal input method keyed payable db).db
    pay_order-Step principal input method keyed (err e) db h = Step-refl db h
    pay_order-Step principal input PaymentMethod.cash keyed (ok o) db h =
        take_cash-Step principal o input.cash_tendered_minor keyed db h
    pay_order-Step principal input PaymentMethod.card keyed (ok o) db h =
        open_gateway-Step o _ keyed db h
    pay_order-Step principal input PaymentMethod.promptpay keyed (ok o) db h =
        open_gateway-Step o _ keyed db h

    create_unless_answered-Step :
        (answered : Option (Label × ResponseBody)) (principal : Principal) (order_id : Label)
        (input : CreatePaymentInput) (keyed : Keyed) (read db : Db)
        → Inv db
        → Step db
            (create_unless_answered provider delivers now payment_id answered principal order_id
              input keyed read db).db
    create_unless_answered-Step none principal order_id input keyed read db h =
        pay_order-Step principal input input.method keyed
          (load_payable_order principal order_id read) db h
    create_unless_answered-Step (some (stored_hash, body)) principal order_id input keyed read db
          h =
        elim (Bool-cases (stored_hash == hash_of provider delivers now payment_id keyed)) [
          | inl e ↦ rw e (Step-refl db h)
          | inr e ↦ rw e (Step-refl db h)
        ]

    pub create_payment-Step :
        (principal : Principal) (order_id : Label) (input : CreatePaymentInput) (keyed : Keyed)
        (read db : Db)
        → Inv db
        → Step db
            (create_payment provider delivers now payment_id principal order_id input keyed read
              db).db
    unfolding create_payment
    create_payment-Step principal order_id input keyed read db h =
        create_unless_answered-Step (answered_before provider delivers now payment_id keyed read)
          principal order_id input keyed read db h
