-- ===== src/Payments/Provider.antt =====
-- src/payments/provider/payment-provider.ts: the gateway, as the order pipeline sees it. A value of
-- the record is how the gateway answers during one request, where equal calls are answered alike.
use cafe_pos.Prelude.{ℕ, Option}
use cafe_pos.Schema.Enums.{PaymentMethod}
use cafe_pos.Schema.Rows.{Label}

pub data CancelIntentOutcome : Type 0 where
  intent_cancelled already_succeeded unreachable : CancelIntentOutcome

-- What an event means: the intent, and for a success what the gateway says it captured.
pub data GatewayOutcome : Type 0 where
  succeeded : Label → ℕ → Label → GatewayOutcome
  failed : Label → Option Label → GatewayOutcome
  cancelled : Label → GatewayOutcome
  ignored : GatewayOutcome

pub record CreatedIntent : Type 0 where
  pub intent_id : Label
  pub client_secret : Label

pub record CreateIntentRequest : Type 0 where
  pub amount_minor : ℕ
  pub currency : Label
  pub idempotency_key : Option Label
  -- the one entry of `metadata`
  pub order_id : Label

-- What a call answers that may throw: a `DependencyUnavailableError`, or an error of any other kind.
pub data GatewayReply (A : Type 0) : Type 0 where
  replied : A → GatewayReply A
  gateway_down gateway_failed : GatewayReply A

-- A `cancelIntent` that throws answers `unreachable`; `resolveMethod` never throws.
pub record PaymentProvider : Type 0 where
  pub create_intent : CreateIntentRequest → GatewayReply CreatedIntent
  pub cancel_intent : Label → CancelIntentOutcome
  pub client_secret_for : Label → GatewayReply Label
  pub interpret : Label → GatewayOutcome
  pub resolve_method : Label → Option PaymentMethod
