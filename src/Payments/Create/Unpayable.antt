-- ===== src/Payments/Create/Unpayable.antt =====
-- An order whose total is 0, before src/payments/create/create-payment.service.ts.
use cafe_pos.Prelude.{
  [], some, none, Option, ℕ, ◌≡◌, refl, List, Bool, arith, Bool-cases, inl, inr, ◌∙◌, sym,
  eq_of_some, some-ne-none, ◌==◌, ◌+◌, some-ne-none, ◌*◌,
}
use cafe_pos.Schema.Rows.{Label, Order, Payment}
use cafe_pos.Schema.Enums.{PaymentMethod}
use cafe_pos.Schema.Views.{PaymentView, ResponseBody}
use cafe_pos.Schema.Store.{Db, find_order}
use cafe_pos.Identity.Principal.{Principal, staff, device}
use cafe_pos.Tx.{
  AppError, err, Result, Session, ok, internal, Tx, ◌>>=◌, run, finish, DomainEvent, Outcome,
}
use cafe_pos.Tx.Ensures.{bind_err}
use cafe_pos.Orders.Cancel.{refused}
use cafe_pos.Orders.Idempotency.{is_key_already_reserved, reserve_key}
use cafe_pos.Payments.Provider.{
  PaymentProvider, GatewayReply, CreatedIntent, replied, gateway_down, gateway_failed,
}
use cafe_pos.Payments.Create.{
  insert_payment, take_cash_tx, open_gateway_tx, Keyed, cash_payment, gateway_payment, write,
  write_tx, answer_write, take_cash, open_gateway_payment, pay_order, create_payment,
  CreatePaymentInput, create_unless_answered, answered_before, load_payable_order, is_short,
  tender_of, hash_of,
}
use cafe_pos.Payments.Create.Payable.{load_payable_order_iff}

-- Work that always throws.
abbrev Throws : {A : Type 0} → Tx A → Type 0
Throws m = (s : Session) → (e : AppError) × (m s ≡ err e)

bind-Throws : {A B : Type 0} (m : Tx A) (f : A → Tx B) → ((a : A) → Throws (f a)) → Throws (m >>= f)
bind-Throws {A} {B} m f h s = go (m s)
  where
    go :
        (r : Result (A × Session))
        → (e : AppError) × (elim r as (λ _. Result (B × Session)) [
          | ok (a, t) ↦ f a t
          | err x ↦ err x
        ]
            ≡ err e)
    go (ok (a, t)) = h a t
    go (err x) = (x, refl)

insert_payment-Throws : (p : Payment) → p.amount_minor ≡ 0 → Throws (insert_payment p)
unfolding insert_payment
insert_payment-Throws p e s = (internal, ground (arith, e))

bind-Throws_first : {A B : Type 0} (m : Tx A) (f : A → Tx B) → Throws m → Throws (m >>= f)
bind-Throws_first m f h s = let (e, thrown) = h s in (e, bind_err m f s e thrown)

take_cash_tx-Throws :
    (payment_id user_id : Label) (o : Order) (tendered : ℕ) (keyed : Keyed)
    → o.total_minor ≡ 0
    → Throws (take_cash_tx payment_id user_id o tendered keyed)
unfolding take_cash_tx
take_cash_tx-Throws payment_id user_id o tendered keyed free =
    bind-Throws_first (insert_payment (cash_payment payment_id o tendered keyed)) _
      (insert_payment-Throws (cash_payment payment_id o tendered keyed) free)

open_gateway_tx-Throws :
    (payment_id : Label) (o : Order) (intent : CreatedIntent) (keyed : Keyed)
    → o.total_minor ≡ 0
    → Throws (open_gateway_tx payment_id o intent keyed)
unfolding open_gateway_tx
open_gateway_tx-Throws payment_id o intent keyed free =
    bind-Throws_first (insert_payment (gateway_payment payment_id o intent keyed)) _
      (insert_payment-Throws (gateway_payment payment_id o intent keyed) free)

write_tx-Throws :
    (now : ℕ) (keyed : Keyed) (work : Tx PaymentView)
    → Throws work
    → Throws (write_tx now keyed work)
unfolding write_tx
write_tx-Throws now none work h = h
write_tx-Throws now (some (key, request_hash)) work h =
    bind-Throws (reserve_key key request_hash (now + 24 * 60 * 60 * 1000)) _
      (λ _. bind-Throws_first work _ h)

module _ (provider : PaymentProvider) where
  pub answer_write-db :
      (keyed : Keyed) (o : Outcome PaymentView) (r : Result PaymentView)
      → (answer_write provider keyed o r).db ≡ o.db
  unfolding is_key_already_reserved
  answer_write-db keyed o (ok view) = refl
  answer_write-db none o (err e) = refl
  answer_write-db (some (key, request_hash)) o (err e) = ground arith

  bare_refused :
      (keyed : Keyed) (o : Outcome PaymentView) (r : Result PaymentView) (e : AppError)
      → keyed ≡ none
      → r ≡ err e
      → (answer_write provider keyed o r).result ≡ err e
  bare_refused none o (err x) e k f = cc
  bare_refused (some x) o (err y) e k f = absurd (some-ne-none k)
  bare_refused keyed o (ok view) e k f = cc

-- The store is as it was, and a request without a key is refused.
abbrev IsRefusal : Keyed → Db → Outcome (ResponseBody × Bool) → Type 0
IsRefusal keyed db o = (o.db ≡ db) × (keyed ≡ none → (e : AppError) × (o.result ≡ err e))

refused-IsRefusal :
    (keyed : Keyed) (e : AppError) (db : Db) → IsRefusal keyed db (refused (err e) db)
refused-IsRefusal keyed e db = (refl, λ _. (e, refl))

run_throws :
    {A : Type 0} (delivers : List DomainEvent → Bool) (work : Tx A) (db : Db) (e : AppError)
    → work (record { db = db; pending = [] }) ≡ err e
    → (run delivers work db).db ≡ db × ((run delivers work db).result ≡ err e)
unfolding run finish
run_throws delivers work db e h = (rw h refl, rw h refl)

module _ (provider : PaymentProvider) (delivers : List DomainEvent → Bool) (now : ℕ) where
  write-IsRefusal :
      (keyed : Keyed) (work : Tx PaymentView) (db : Db)
      → Throws work
      → IsRefusal keyed db (write provider delivers now keyed work db)
  unfolding write
  write-IsRefusal keyed work db h =
      let (e, thrown) = write_tx-Throws now keyed work h (record { db = db; pending = [] }) in
      let (same, failed) = run_throws delivers (write_tx now keyed work) db e thrown in
      let o = run delivers (write_tx now keyed work) db in
      (
        answer_write-db provider keyed o o.result ∙ same,
        λ k. (e, bare_refused provider keyed o o.result e k failed),
      )

  module _ (payment_id : Label) where
    take_cash-IsRefusal :
        (principal : Principal) (o : Order) (tendered : Option ℕ) (keyed : Keyed) (db : Db)
        → o.total_minor ≡ 0
        → IsRefusal keyed db
            (take_cash provider delivers now payment_id principal o tendered keyed db)
    take_cash-IsRefusal (device _) o tendered keyed db free = refused-IsRefusal keyed _ db
    take_cash-IsRefusal (staff user_id x y) o tendered keyed db free =
        elim (Bool-cases (is_short tendered o.total_minor)) [
          | inl short ↦ rw short (refused-IsRefusal keyed _ db)
          | inr covered ↦ rw covered (
              write-IsRefusal keyed (take_cash_tx payment_id user_id o (tender_of tendered) keyed)
                db (take_cash_tx-Throws payment_id user_id o (tender_of tendered) keyed free))
        ]

    open_gateway-IsRefusal :
        (o : Order) (intent : GatewayReply CreatedIntent) (keyed : Keyed) (db : Db)
        → o.total_minor ≡ 0
        → IsRefusal keyed db
            (open_gateway_payment provider delivers now payment_id o intent keyed db)
    open_gateway-IsRefusal o gateway_down keyed db free = refused-IsRefusal keyed _ db
    open_gateway-IsRefusal o gateway_failed keyed db free = refused-IsRefusal keyed _ db
    open_gateway-IsRefusal o (replied intent) keyed db free =
        write-IsRefusal keyed (open_gateway_tx payment_id o intent keyed) db
          (open_gateway_tx-Throws payment_id o intent keyed free)

    pay_order-IsRefusal :
        (principal : Principal) (input : CreatePaymentInput) (method : PaymentMethod)
        (keyed : Keyed) (payable : Result Order) (db : Db)
        → ((o : Order) → payable ≡ ok o → o.total_minor ≡ 0)
        → IsRefusal keyed db
            (pay_order provider delivers now payment_id principal input method keyed payable db)
    pay_order-IsRefusal principal input method keyed (err e) db free = refused-IsRefusal keyed e db
    pay_order-IsRefusal principal input PaymentMethod.cash keyed (ok o) db free =
        take_cash-IsRefusal principal o input.cash_tendered_minor keyed db (free o refl)
    pay_order-IsRefusal principal input PaymentMethod.card keyed (ok o) db free =
        open_gateway-IsRefusal o _ keyed db (free o refl)
    pay_order-IsRefusal principal input PaymentMethod.promptpay keyed (ok o) db free =
        open_gateway-IsRefusal o _ keyed db (free o refl)

    create_unless_answered-IsRefusal :
        (answered : Option (Label × ResponseBody)) (principal : Principal) (order_id : Label)
        (input : CreatePaymentInput) (keyed : Keyed) (read db : Db)
        → (keyed ≡ none → answered ≡ none)
        → ((o : Order) → load_payable_order principal order_id read ≡ ok o → o.total_minor ≡ 0)
        → IsRefusal keyed db (
            create_unless_answered provider delivers now payment_id answered principal order_id
              input keyed read db)
    create_unless_answered-IsRefusal none principal order_id input keyed read db bare free =
        pay_order-IsRefusal principal input input.method keyed
          (load_payable_order principal order_id read) db free
    create_unless_answered-IsRefusal (some (stored_hash, body)) principal order_id input keyed read
          db bare free =
        elim (Bool-cases (stored_hash == hash_of provider delivers now payment_id keyed)) [
          | inl e ↦ rw e (refl, λ k. absurd (some-ne-none (bare k)))
          | inr e ↦ rw e (refl, λ k. absurd (some-ne-none (bare k)))
        ]

    -- An order whose total is 0 can be paid in no way: whoever asks, in cash or by the gateway,
    -- whatever the gateway answers and whatever other requests have done since the order was read,
    -- the store stays as it was, and a request without a key gets an error.
    pub zero_total_unpayable :
        (principal : Principal) (order_id : Label) (input : CreatePaymentInput) (keyed : Keyed)
        (read db : Db) (o : Order)
        → find_order order_id read ≡ some o
        → o.total_minor ≡ 0
        → let paid =
            create_payment provider delivers now payment_id principal order_id input keyed read
              db in
          (paid.db ≡ db) × (keyed ≡ none → (e : AppError) × (paid.result ≡ err e))
    unfolding create_payment
    zero_total_unpayable principal order_id input keyed read db o found free =
        create_unless_answered-IsRefusal
          (answered_before provider delivers now payment_id keyed read) principal order_id input
          keyed read db (λ k. rw k refl)
          (λ x payable.
            let there = ((load_payable_order_iff principal order_id read x).0 payable).0 in
            let same : o ≡ x = eq_of_some (sym found ∙ there) in rw same at free)
