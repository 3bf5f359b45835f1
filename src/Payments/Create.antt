-- ===== src/Payments/Create.antt =====
-- src/payments/create/create-payment.service.ts: `POST /orders/:id/payments`. The checks and the
-- gateway's intent come before the transaction (`read`); the transaction runs on the store as it
-- is by then (`db`). Metrics are left out.
mod Write
pub mod Payable
pub mod Unpayable
pub mod Keys
unfoldable pub use Write.*
use cafe_pos.Prelude.{
  ℕ, ◌+◌, ◌*◌, Bool, true, false, not, ◌&&◌, Option, none, some, List, [], ◌∷◌, ◌==◌, ltb,
  option_eq, if◌then◌else◌,
}
use cafe_pos.Schema.Enums.{
  OrderStatus, PaymentStatus, PaymentMethod, PaymentProviderName, ActorType, order_status_eq,
}
use cafe_pos.Schema.Rows.{Label, Order, Payment}
use cafe_pos.Schema.Views.{PaymentView, ResponseBody, order_body, payment_body}
use cafe_pos.Schema.Store.{Db, find_order, find_payment, find_live}
use cafe_pos.Schema.Constraints.{payment_conflicts}
use cafe_pos.Identity.Principal.{Principal, staff, device}
use cafe_pos.Tx.{
  Tx, ◌>>=◌, ◌>>◌, pure, execute, emit, Result, ok, err, Outcome, run, DomainEvent, order_paid,
  AppError, resource_not_found, order, order_expired, order_not_payable, payment_already_active,
  cash_payment_not_allowed, cash_tender_insufficient, idempotency_conflict, dependency_unavailable,
  internal,
}
use cafe_pos.Orders.Transition.{TransitionRequest, transition_order}
use cafe_pos.Orders.Status.{actor_of}
use cafe_pos.Orders.Cancel.{refused}
use cafe_pos.Orders.Idempotency.{
  reserve_key, complete_key, replay_key, completed_response_for, is_key_already_reserved,
}
use cafe_pos.Payments.Provider.{
  PaymentProvider, CreatedIntent, GatewayReply, replied, gateway_down, gateway_failed,
}

pub record CreatePaymentInput : Type 0 where
  pub method : PaymentMethod
  pub cash_tendered_minor : Option ℕ

-- A device asks for its own orders only.
abbrev pub is_own : Principal → Order → Bool
is_own (device d) o = option_eq o.kiosk_device_id (some d)
is_own (staff _ _ _) o = true

abbrev pub payable_status : Order → Result Order
payable_status o =
    if order_status_eq o.status OrderStatus.expired
    then err order_expired
    else (if order_status_eq o.status OrderStatus.pending_payment
        then ok o
        else err (order_not_payable o.status))

abbrev pub no_live : Option Payment → Result Order → Result Order
no_live live (err e) = err e
no_live none (ok o) = ok o
no_live (some p) (ok o) = err (payment_already_active p.id)

abbrev pub payable_found : Principal → Label → Option Order → Option Payment → Result Order
payable_found principal order_id none live = err (resource_not_found order order_id)
payable_found principal order_id (some o) live =
    if is_own principal o
    then no_live live (payable_status o)
    else err (resource_not_found order order_id)

-- `loadPayableOrder`.
unfoldable pub load_payable_order : Principal → Label → Db → Result Order
load_payable_order principal order_id read =
    payable_found principal order_id (find_order order_id read) (find_live order_id read)

abbrev active_payment_id : Label → Option Payment → Label
active_payment_id order_id none = order_id
active_payment_id order_id (some p) = p.id

-- `insertPayment`: a unique violation names the live payment; the check `amount_minor > 0` and the
-- rest fail as they are.
unfoldable pub insert_payment : Payment → Tx (Unit {0})
insert_payment p s =
    if p.amount_minor == 0
    then err internal
    else (if payment_conflicts p s.db.payments
        then err (payment_already_active (active_payment_id p.order_id (find_live p.order_id s.db)))
        else ok (tt, record s { db = record s.db { payments = p ∷ s.db.payments } }))

abbrev pub cash_request : Label → Label → TransitionRequest
cash_request user_id order_id = record {
  order_id = order_id;
  from = OrderStatus.pending_payment;
  to = OrderStatus.paid;
  actor = record { actor_type = ActorType.user; actor_id = some user_id };
  reason = none;
}

abbrev pub cash_payment : Label → Order → ℕ → Keyed → Payment
cash_payment payment_id o tendered keyed = record {
  id = payment_id;
  order_id = o.id;
  provider = PaymentProviderName.cash;
  provider_intent_id = none;
  method = some PaymentMethod.cash;
  status = PaymentStatus.succeeded;
  amount_minor = o.total_minor;
  currency = o.currency;
  idempotency_key = key_of keyed;
  cash_tendered_minor = some tendered;
}

abbrev view_of_payment : Payment → Option Label → PaymentView
view_of_payment p secret = record {
  id = p.id;
  status = p.status;
  method = p.method;
  amount_minor = p.amount_minor;
  currency = p.currency;
  provider = p.provider;
  client_secret = secret;
}

-- The work of `takeCash`.
unfoldable pub take_cash_tx : Label → Label → Order → ℕ → Keyed → Tx PaymentView
take_cash_tx payment_id user_id o tendered keyed = do
  insert_payment (cash_payment payment_id o tendered keyed)
  updated ← transition_order (cash_request user_id o.id)
  emit (order_paid o.id updated.kiosk_device_id)
  pure (view_of_payment (cash_payment payment_id o tendered keyed) none)

abbrev pub gateway_payment : Label → Order → CreatedIntent → Keyed → Payment
gateway_payment payment_id o intent keyed = record {
  id = payment_id;
  order_id = o.id;
  provider = PaymentProviderName.stripe;
  provider_intent_id = some intent.intent_id;
  method = none;
  status = PaymentStatus.pending;
  amount_minor = o.total_minor;
  currency = o.currency;
  idempotency_key = key_of keyed;
  cash_tendered_minor = none;
}

-- The work of `openGatewayPayment`.
unfoldable pub open_gateway_tx : Label → Order → CreatedIntent → Keyed → Tx PaymentView
open_gateway_tx payment_id o intent keyed = do
  insert_payment (gateway_payment payment_id o intent keyed)
  pure (view_of_payment (gateway_payment payment_id o intent keyed) (some intent.client_secret))

-- Whether the tender covers the total; an absent one does not.
abbrev pub tender_of : Option ℕ → ℕ
tender_of none = 0
tender_of (some t) = t

abbrev pub is_short : Option ℕ → ℕ → Bool
is_short none total = true
is_short (some t) total = ltb t total

module _ (provider : PaymentProvider) (delivers : List DomainEvent → Bool) (now : ℕ)
    (payment_id : Label) where
  abbrev pub take_cash : Principal → Order → Option ℕ → Keyed → Db → Outcome (ResponseBody × Bool)
  take_cash (device _) o tendered keyed db = refused (err cash_payment_not_allowed) db
  take_cash (staff user_id _ _) o tendered keyed db =
      if is_short tendered o.total_minor
      then refused (err (cash_tender_insufficient (tender_of tendered) o.total_minor)) db
      else write provider delivers now keyed
          (take_cash_tx payment_id user_id o (tender_of tendered) keyed) db

  -- `openGatewayPayment`, after what `createIntent` answered. A gateway that cannot be reached is said
  -- to be unavailable; any other error fails the request as it is.
  abbrev pub open_gateway_payment :
      Order → GatewayReply CreatedIntent → Keyed → Db → Outcome (ResponseBody × Bool)
  open_gateway_payment o gateway_down keyed db = refused (err dependency_unavailable) db
  open_gateway_payment o gateway_failed keyed db = refused (err internal) db
  open_gateway_payment o (replied intent) keyed db =
      write provider delivers now keyed (open_gateway_tx payment_id o intent keyed) db

  abbrev pub pay_order :
      Principal
      → CreatePaymentInput
      → PaymentMethod
      → Keyed
      → Result Order
      → Db
      → Outcome (ResponseBody × Bool)
  pay_order principal input method keyed (err e) db = refused (err e) db
  pay_order principal input PaymentMethod.cash keyed (ok o) db =
      take_cash principal o input.cash_tendered_minor keyed db
  pay_order principal input _ keyed (ok o) db =
      open_gateway_payment o
        (provider.create_intent (record {
          amount_minor = o.total_minor;
          currency = o.currency;
          idempotency_key = key_of keyed;
          order_id = o.id;
        }))
        keyed db

  abbrev pub answered_before : Keyed → Db → Option (Label × ResponseBody)
  answered_before none read = none
  answered_before (some (key, _)) read = completed_response_for read key

  abbrev pub hash_of : Keyed → Label
  hash_of none = 0
  hash_of (some (_, h)) = h

  abbrev pub create_unless_answered :
      Option (Label × ResponseBody)
      → Principal
      → Label
      → CreatePaymentInput
      → Keyed
      → Db
      → Db
      → Outcome (ResponseBody × Bool)
  create_unless_answered (some (stored_hash, body)) principal order_id input keyed read db =
      if stored_hash == hash_of keyed
      then refused (replay provider (ok body) read) db
      else refused (err idempotency_conflict) db
  create_unless_answered none principal order_id input keyed read db =
      pay_order principal input input.method keyed (load_payable_order principal order_id read) db

  -- `CreatePaymentService.create`.
  unfoldable pub create_payment :
      Principal → Label → CreatePaymentInput → Keyed → Db → Db → Outcome (ResponseBody × Bool)
  create_payment principal order_id input keyed read db =
      create_unless_answered (answered_before keyed read) principal order_id input keyed read db
