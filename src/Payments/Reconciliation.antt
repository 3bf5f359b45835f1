-- ===== src/Payments/Reconciliation.antt =====
-- src/payments/reconciliation/reconciliation.service.ts: the books of a day against the gateway.
use cafe_pos.Reporting.Aggregate.{is_succeeded}
use cafe_pos.Reporting.Groups.{sum_of, join}
use cafe_pos.Prelude.Int.{ℤ, sub_ℕ}
use cafe_pos.Payments.Stripe.{captured_total_for, StripeApi, Captured}
use cafe_pos.Schema.Store.{Db}
use cafe_pos.Schema.Rows.{Label, Payment, Order}
pub mod Agreement
use cafe_pos.Schema.Enums.{PaymentProviderName}
use cafe_pos.Prelude.{
  [], ◌∷◌, true, false, some, none, Bool, List, ℕ, map, Option, select, ◌==◌, not, ◌&&◌, is_some,
}

pub record ReconciliationReport : Type 0 where
  pub business_day : Label
  pub gateway_captured_minor : ℕ
  pub db_recorded_minor : ℕ
  pub delta_minor : ℤ
  pub unmatched_events : List Label
  pub not_captured : List Label

abbrev pub is_stripe : PaymentProviderName → Bool
is_stripe PaymentProviderName.stripe = true
is_stripe PaymentProviderName.cash = false

abbrev pub recorded_rows : Label → Db → List (Payment × Order)
recorded_rows day db =
    select (λ r. r.1.business_day == day && (is_stripe r.0.provider && is_succeeded r.0))
      (join (λ p o. p.order_id == o.id) db.payments db.orders)

-- `.map(row => row.intentId).filter(id => id !== null)`.
abbrev pub intent_ids : List (Payment × Order) → List Label
intent_ids [] = []
intent_ids ((p, o) ∷ rows) = keep_id p.provider_intent_id (intent_ids rows)
  where
    keep_id : Option Label → List Label → List Label
    keep_id none ids = ids
    keep_id (some id) ids = id ∷ ids

abbrev pub unmatched_of : Db → List Label
unmatched_of db =
    map (λ e. e.provider_event_id) (select (λ e. not (is_some e.processed_at)) db.events)

abbrev pub report_of : Label → Db → Option Captured → Option ReconciliationReport
report_of day db none = none
report_of day db (some c) =
    let recorded = sum_of (λ r. r.0.amount_minor) (recorded_rows day db) in
    some (record {
      business_day = day;
      gateway_captured_minor = c.total_minor;
      db_recorded_minor = recorded;
      delta_minor = sub_ℕ c.total_minor recorded;
      unmatched_events = unmatched_of db;
      not_captured = c.not_captured;
    })

-- `reconcile`; nothing is a gateway that cannot be reached.
unfoldable pub reconcile : StripeApi → Label → Db → Option ReconciliationReport
unfolding captured_total_for
reconcile api day db = report_of day db (captured_total_for api (intent_ids (recorded_rows day db)))
