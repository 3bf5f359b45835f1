-- ===== src/Tests/Gateway.antt =====
-- Stripe and the reconciliation.
use cafe_pos.Payments.Reconciliation.Agreement.{received, reconcile_agrees_iff}
use cafe_pos.Tests.Reports.{paid_payment}
use cafe_pos.Schema.Enums.{payment_status_eq}
use cafe_pos.Payments.Provider.{already_succeeded}
use cafe_pos.Tests.Orders.{waiting}
use cafe_pos.Prelude.Int.{sub_ℕ, pos}
use cafe_pos.System.Safety.{empty_store}
use cafe_pos.Payments.Reconciliation.{ReconciliationReport, reconcile, recorded_rows}
use cafe_pos.Payments.Stripe.{
  stripe_provider, StripeApi, captured_total_for, gateway_unreachable, invalid_request, replies,
  intent_succeeded, shapeless,
}
use cafe_pos.Schema.Store.{Db}
use cafe_pos.Prelude.{[], ◌∷◌, some, none, ℕ, ◌≡◌, refl, ◌↔◌, All, arith}

-- Stripe took for each intent what `amounts` says, and lost none.
abbrev stripe_takes : ℕ → StripeApi
stripe_takes amount = record {
  create = λ rq. gateway_unreachable;
  cancel = λ id. invalid_request;
  retrieve = λ id. replies (record {
    id = id;
    status = intent_succeeded;
    amount_received = amount;
    currency = 764;
    client_secret = none;
    charge_type = none;
    failure_message = none;
  });
  read_payload = λ p. shapeless;
  lower_case = λ t. t;
  upper_case = λ t. t;
  card_type = 1;
  promptpay_type = 2;
}

abbrev one_charge : Db
one_charge = record empty_store {
  orders = waiting ∷ [];
  payments = record (paid_payment 11 1 none 235) { provider_intent_id = some 50 } ∷ [];
}

-- A sweep that comes after the customer has paid is told so.
lost_race : (stripe_provider (stripe_takes 235)).cancel_intent 50 ≡ already_succeeded
lost_race = refl

abbrev checked : ReconciliationReport
checked = record {
  business_day = 20260105;
  gateway_captured_minor = 200;
  db_recorded_minor = 235;
  delta_minor = sub_ℕ 200 235;
  unmatched_events = [];
  not_captured = [];
}

reconcile_agrees_iff_example :
    (sub_ℕ 200 235 ≡ pos 0)
    ↔ All
        (λ row. received (stripe_takes 200) row.0 ≡ row.0.amount_minor)
        (recorded_rows 20260105 one_charge)
unfolding reconcile captured_total_for payment_status_eq
reconcile_agrees_iff_example =
    reconcile_agrees_iff (stripe_takes 200) 20260105 one_charge checked refl (omega arith, tt)
