-- ===== src/Tests/Histories.antt =====
-- Histories of requests.
use cafe_pos.Payments.Provider.{PaymentProvider, gateway_down, unreachable}
use cafe_pos.Orders.Create.Once.{create_once}
use cafe_pos.Orders.Create.Later.{as_left, created, deleted}
use cafe_pos.Retention.{delete_expired_idempotency_keys}
use cafe_pos.Tests.Orders.{waiting, priced_basket}
use cafe_pos.Schema.Views.{OrderView, order_body}
use cafe_pos.System.Step.{facts_in}
use cafe_pos.Orders.Transition.{transition_order}
use cafe_pos.Payments.Create.{
  create_payment, load_payable_order, write, write_tx, take_cash_tx, insert_payment,
}
use cafe_pos.Orders.Idempotency.{reserve_key, complete_key, is_key_already_reserved}
use cafe_pos.Orders.Number.{next_order_number, bump_counter, counter_of, format_order_number}
use cafe_pos.Orders.Pricing.{
  price_order, price_resolved, all_violations, validate_selections, bound_violations, resolve_line,
  select_options, select_option, unavailable_items, unavailable_options, price_lines, extract_vat,
}
use cafe_pos.Tx.{transaction, run, finish, ok, err, idempotency_conflict}
use cafe_pos.Orders.Create.{
  create, create_tx, build, resolve_channel, persist, insert_order, to_view,
}
use cafe_pos.Schema.Enums.{
  PaymentMethod, PaymentStatus, order_channel_eq, order_status_eq, payment_status_eq,
}
use cafe_pos.Tests.{gateway, cashier, takes_all, env_at, order_input}
use cafe_pos.Payments.Refunds.{refunded_so_far}
use cafe_pos.Schema.Store.{is_live, status_in, Db}
use cafe_pos.Payments.Webhooks.Decide.{is_settled}
use cafe_pos.System.History.{
  Request, store_after, pay, create_order, cancel_order, expire_order, give_back, process, webhook,
  history_from, serve,
}
use cafe_pos.System.Invariant.{audited_status, taken}
use cafe_pos.System.Safety.{
  payments_with, empty_store, one_success_per_order, one_live_per_order, refunds_within_payment,
  audit_agrees, success_is_backed, money_stays_taken, payment_facts_stay,
}
use cafe_pos.Schema.Rows.{Label}
use cafe_pos.Prelude.{
  [], ◌∷◌, true, false, some, none, List, All, ◌≡◌, ℕ, ◌≤◌, take, ◌++◌, refl, if◌then◌else◌, ◌==◌,
  arith, ltb,
}

abbrev by_cash : Label → Request
by_cash payment_id =
    pay 2000 payment_id cashier 1
      (record { method = PaymentMethod.cash; cash_tendered_minor = some 300 }) none

abbrev by_card : Label → Request
by_card payment_id =
    pay 2000 payment_id cashier 1
      (record { method = PaymentMethod.card; cash_tendered_minor = none }) none

-- An order is created, and paid in cash. The newest request stands first.
abbrev paid_in_cash : List (Request × ℕ)
paid_in_cash =
    (by_cash 30, 0) ∷ (create_order (env_at 1) cashier order_input (some (80, 81)), 0) ∷ []

-- It is paid for again, on what was read before the first payment, given back in part twice, and
-- cancelled late.
abbrev busy : List (Request × ℕ)
busy =
    (cancel_order cashier 1 none, 4)
    ∷ (give_back 20260105 41 7 30 (record { amount_minor = 200; reason = 90 }), 2)
    ∷ (give_back 20260105 40 7 30 (record { amount_minor = 100; reason = 90 }), 1)
    ∷ (by_cash 31, 1)
    ∷ paid_in_cash

-- A card payment that succeeds while the sweep reads it as live.
abbrev by_gateway : List (Request × ℕ)
by_gateway =
    (expire_order 1, 2)
    ∷ (process 2500 33, 0)
    ∷ (webhook 33 (record { event_id = 34; event_type = 35; created_at = 2400; payload = 60 }), 0)
    ∷ (by_card 32, 0)
    ∷ (create_order (env_at 1) cashier order_input none, 0)
    ∷ []

-- From the fifth request on the gateway cannot be reached.
abbrev gateways : ℕ → PaymentProvider
gateways n =
    if ltb 3 n
    then record gateway {
      create_intent = λ _. gateway_down;
      cancel_intent = λ _. unreachable;
      client_secret_for = λ _. gateway_down;
    }
    else gateway

one_success_per_order_example :
    payments_with is_settled 1 (store_after gateways takes_all empty_store busy).payments ≤ 1
one_success_per_order_example = one_success_per_order gateways takes_all busy 1

one_live_per_order_example :
    payments_with is_live 1 (store_after gateways takes_all empty_store by_gateway).payments ≤ 1
one_live_per_order_example = one_live_per_order gateways takes_all by_gateway 1

refunds_within_payment_example :
    All
      (λ p.
        refunded_so_far p.id (store_after gateways takes_all empty_store busy).refunds
        ≤ p.amount_minor)
      (store_after gateways takes_all empty_store busy).payments
refunds_within_payment_example = refunds_within_payment gateways takes_all busy

success_is_backed_example :
    All
      (λ p.
        p.status ≡ PaymentStatus.succeeded
        → taken
            (status_in p.order_id (store_after gateways takes_all empty_store by_gateway).orders)
          ≡ true)
      (store_after gateways takes_all empty_store by_gateway).payments
success_is_backed_example = success_is_backed gateways takes_all by_gateway

audit_agrees_example :
    audited_status 1 (store_after gateways takes_all empty_store busy).history
    ≡ status_in 1 (store_after gateways takes_all empty_store busy).orders
audit_agrees_example = audit_agrees gateways takes_all busy 1

-- The first history has taken the money of order 1, and holds payment 30 of it.
paid_in_cash-taken :
    taken (status_in 1 (store_after gateways takes_all empty_store paid_in_cash).orders) ≡ true
unfolding history_from serve create create_tx transaction build resolve_channel order_channel_eq
    price_order price_resolved all_violations validate_selections bound_violations resolve_line
    select_options select_option unavailable_items unavailable_options price_lines extract_vat
    persist insert_order next_order_number bump_counter counter_of format_order_number reserve_key
    complete_key create_payment load_payable_order write write_tx run finish take_cash_tx
    insert_payment transition_order order_status_eq payment_status_eq is_key_already_reserved
    cafe_pos.Prelude.Int.◌+ℤ◌
paid_in_cash-taken = refl

money_stays_taken_example :
    taken (
      status_in 1 (store_after gateways takes_all empty_store (take 4 busy ++ paid_in_cash)).orders)
    ≡ true
money_stays_taken_example =
    money_stays_taken gateways takes_all paid_in_cash (take 4 busy) 1 paid_in_cash-taken

paid_in_cash_facts :
    facts_in 30 (store_after gateways takes_all empty_store paid_in_cash).payments ≡ some (1, 235)
unfolding history_from serve create create_tx transaction build resolve_channel order_channel_eq
    price_order price_resolved all_violations validate_selections bound_violations resolve_line
    select_options select_option unavailable_items unavailable_options price_lines extract_vat
    persist insert_order next_order_number bump_counter counter_of format_order_number reserve_key
    complete_key create_payment load_payable_order write write_tx run finish take_cash_tx
    insert_payment transition_order order_status_eq payment_status_eq is_key_already_reserved
    cafe_pos.Prelude.Int.◌+ℤ◌
paid_in_cash_facts = refl

payment_facts_stay_example :
    facts_in 30 (store_after gateways takes_all empty_store (take 4 busy ++ paid_in_cash)).payments
    ≡ some (1, 235)
payment_facts_stay_example =
    payment_facts_stay gateways takes_all paid_in_cash (take 4 busy) 30 (1, 235) paid_in_cash_facts

abbrev first_view : OrderView
first_view =
    to_view
      (record waiting {
        order_number = some (b'A' ∷ b'-' ∷ b'0' ∷ b'0' ∷ b'1' ∷ []);
        expires_at = some 901000;
      })
      priced_basket

abbrev first_store : Db
first_store = (create (env_at 1) cashier order_input (some (80, 81)) empty_store).1

first_created :
    create (env_at 1) cashier order_input (some (80, 81)) empty_store
    ≡ (ok (order_body first_view, false), first_store)
unfolding create create_tx transaction build resolve_channel order_channel_eq price_order
    price_resolved all_violations validate_selections bound_violations resolve_line select_options
    select_option unavailable_items unavailable_options price_lines extract_vat persist insert_order
    next_order_number bump_counter counter_of format_order_number cafe_pos.Orders.Number.decimal
    cafe_pos.Orders.Number.decimal_from reserve_key complete_key cafe_pos.Prelude.Int.◌+ℤ◌
first_created = refl

-- In between, another request creates an order without a key, and the keys that have expired by
-- then are deleted.
abbrev busy_store : Db
busy_store = (create (env_at 2) cashier order_input none first_store).1

abbrev cleared_store : Db
cleared_store = record busy_store { keys = (delete_expired_idempotency_keys 100 busy_store.keys).1 }

-- The retry is on the menu of a later clock, and has another request hash.
create_once_example : create (env_at 2) cashier order_input (some (80, 82)) cleared_store ≡ (
  if 81 == 82 then ok (order_body first_view, true) else err idempotency_conflict,
  cleared_store,
)
create_once_example =
    create_once (env_at 1) (env_at 2) cashier cashier order_input order_input 80 81 82
      (order_body first_view) empty_store first_store cleared_store first_created
      (deleted 100 (omega arith) (created (env_at 2) cashier order_input none as_left))
