-- ===== src/Payments/Stripe.antt =====
-- src/payments/provider/stripe-payment.provider.ts: the gateway port, spoken to Stripe. What Stripe's
-- client answers is a parameter; a call of the port that throws answers as the port's record says.
use cafe_pos.Payments.Provider.{
  CreateIntentRequest, CancelIntentOutcome, PaymentProvider, GatewayOutcome, already_succeeded,
  intent_cancelled, CreatedIntent, unreachable, GatewayReply, replied, gateway_down, gateway_failed,
}
use cafe_pos.Schema.Rows.{Label}
use cafe_pos.Schema.Enums.{PaymentMethod}
use cafe_pos.Prelude.{
  [], ◌∷◌, true, false, some, none, Option, ℕ, Bool, List, if◌then◌else◌, ◌==◌, ◌+◌,
}

pub data IntentStatus : Type 0 where
  intent_succeeded intent_canceled intent_open : IntentStatus

-- An intent. The type of its latest charge is there if the charge is expanded and names one.
pub record StripeIntent : Type 0 where
  pub id : Label
  pub status : IntentStatus
  pub amount_received : ℕ
  pub currency : Label
  pub client_secret : Option Label
  pub charge_type : Option Label
  pub failure_message : Option Label

-- An answer, a `StripeInvalidRequestError`, an error of `UNREACHABLE`, any other error.
pub data StripeReply (A : Type 0) : Type 0 where
  replies : A → StripeReply A
  invalid_request gateway_unreachable other_error : StripeReply A

-- An event as it is stored: of a shape that `hasEventShape` refuses, or one of the types below.
pub data StripePayload : Type 0 where
  shapeless other_event : StripePayload
  payment_succeeded payment_failed payment_canceled : StripeIntent → StripePayload

-- Stripe's client, and the two maps of texts that the adapter uses.
pub record StripeApi : Type 0 where
  pub create : CreateIntentRequest → StripeReply StripeIntent
  pub cancel : Label → StripeReply (Unit {0})
  pub retrieve : Label → StripeReply StripeIntent
  pub read_payload : Label → StripePayload
  pub lower_case : Label → Label
  pub upper_case : Label → Label
  pub card_type : Label
  pub promptpay_type : Label

-- `toOutcome`.
abbrev pub to_outcome : (Label → Label) → StripePayload → GatewayOutcome
to_outcome upper shapeless = GatewayOutcome.ignored
to_outcome upper other_event = GatewayOutcome.ignored
to_outcome upper (payment_succeeded i) =
    GatewayOutcome.succeeded i.id i.amount_received (upper i.currency)
to_outcome upper (payment_failed i) = GatewayOutcome.failed i.id i.failure_message
to_outcome upper (payment_canceled i) = GatewayOutcome.cancelled i.id

-- `cancelIntent` after an invalid request: the intent is read again.
abbrev pub reread_outcome : StripeReply StripeIntent → CancelIntentOutcome
reread_outcome (replies i) = by_status i.status
  where
    by_status : IntentStatus → CancelIntentOutcome
    by_status intent_succeeded = already_succeeded
    by_status intent_canceled = intent_cancelled
    by_status intent_open = unreachable
reread_outcome invalid_request = unreachable
reread_outcome gateway_unreachable = unreachable
reread_outcome other_error = unreachable

abbrev pub cancel_outcome : StripeReply (Unit {0}) → StripeReply StripeIntent → CancelIntentOutcome
cancel_outcome (replies done) reread = intent_cancelled
cancel_outcome invalid_request reread = reread_outcome reread
cancel_outcome gateway_unreachable reread = unreachable
cancel_outcome other_error reread = unreachable

abbrev pub answered : {A : Type 0} → StripeReply A → Option A
answered (replies a) = some a
answered invalid_request = none
answered gateway_unreachable = none
answered other_error = none

-- `gateway`: only an error of `UNREACHABLE` is turned into a `DependencyUnavailableError`.
abbrev pub through_gateway : {A B : Type 0} → (A → GatewayReply B) → StripeReply A → GatewayReply B
through_gateway after (replies a) = after a
through_gateway after gateway_unreachable = gateway_down
through_gateway after invalid_request = gateway_failed
through_gateway after other_error = gateway_failed

-- After the call of `createIntent`: an intent without a client secret is a plain error.
abbrev pub created_intent : StripeIntent → GatewayReply CreatedIntent
created_intent i = with_secret_of i i.client_secret
  where
    with_secret_of : StripeIntent → Option Label → GatewayReply CreatedIntent
    with_secret_of i none = gateway_failed
    with_secret_of i (some secret) = replied (record { intent_id = i.id; client_secret = secret })

-- The same of `clientSecretFor`.
abbrev pub secret_of : StripeIntent → GatewayReply Label
secret_of i = of_secret i.client_secret
  where
    of_secret : Option Label → GatewayReply Label
    of_secret none = gateway_failed
    of_secret (some secret) = replied secret

-- `METHOD_BY_STRIPE_TYPE`.
abbrev pub method_by_type : StripeApi → Label → Option PaymentMethod
method_by_type api t =
    if t == api.card_type
    then some PaymentMethod.card
    else if t == api.promptpay_type
    then some PaymentMethod.promptpay
    else none

abbrev pub method_of_intent : StripeApi → Option StripeIntent → Option PaymentMethod
method_of_intent api none = none
method_of_intent api (some i) = by_type i.charge_type
  where
    by_type : Option Label → Option PaymentMethod
    by_type none = none
    by_type (some t) = method_by_type api t

-- The adapter fills the port.
abbrev pub stripe_provider : StripeApi → PaymentProvider
stripe_provider api = record {
  create_intent = λ rq.
      through_gateway created_intent
        (api.create (record rq { currency = api.lower_case rq.currency }));
  cancel_intent = λ i. cancel_outcome (api.cancel i) (api.retrieve i);
  client_secret_for = λ i. through_gateway secret_of (api.retrieve i);
  interpret = λ payload. to_outcome api.upper_case (api.read_payload payload);
  resolve_method = λ i. method_of_intent api (answered (api.retrieve i));
}

pub record Captured : Type 0 where
  pub total_minor : ℕ
  pub not_captured : List Label

abbrev pub is_captured : IntentStatus → Bool
is_captured intent_succeeded = true
is_captured intent_canceled = false
is_captured intent_open = false

-- The body of the loop of `capturedTotalFor`, before the intents that come after.
abbrev pub capture_next : StripeReply StripeIntent → Label → Option Captured → Option Captured
capture_next reply id none = none
capture_next invalid_request id (some c) = none
capture_next gateway_unreachable id (some c) = none
capture_next other_error id (some c) = none
capture_next (replies i) id (some c) = some (
    if is_captured i.status
    then record c { total_minor = i.amount_received + c.total_minor }
    else record c { not_captured = id ∷ c.not_captured })

-- `capturedTotalFor`; nothing is its throw.
unfoldable pub captured_total_for : StripeApi → List Label → Option Captured
captured_total_for api [] = some (record { total_minor = 0; not_captured = [] })
captured_total_for api (id ∷ ids) =
    let rest = captured_total_for api ids in capture_next (api.retrieve id) id rest
