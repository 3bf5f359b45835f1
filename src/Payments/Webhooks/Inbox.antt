-- ===== src/Payments/Webhooks/Inbox.antt =====
-- src/payments/webhooks/webhook-inbox.service.ts: the append-only inbox.
use cafe_pos.Prelude.{
  ℕ, ◌≡◌, refl, Bool, true, false, Option, none, some, List, [], ◌∷◌, ◌==◌, if◌then◌else◌, any,
  Bool-cases, inl, inr, ==_iff,
}
use cafe_pos.Schema.Rows.{Label, PaymentEvent}
use cafe_pos.Schema.Store.{Db}

-- A verified event of the gateway, as `parseWebhook` gives it.
pub record GatewayEvent : Type 0 where
  pub event_id : Label
  pub event_type : Label
  pub created_at : ℕ
  pub payload : Label

abbrev pub is_recorded : Label → List PaymentEvent → Bool
is_recorded event_id es = any (λ e. e.provider_event_id == event_id) es

-- `WebhookInboxService.record`: the insert, or nothing on a conflict of `provider_event_id`. `row_id`
-- is the id that a new row gets.
unfoldable pub record_event : Label → GatewayEvent → Db → Option Label × Db
record_event row_id event db = if is_recorded event.event_id db.events then (none, db) else (
  some row_id,
  record db {
    events =
        record {
          id = row_id;
          provider_event_id = event.event_id;
          event_type = event.event_type;
          payment_id = none;
          payload = event.payload;
          processed_at = none;
        }
        ∷ db.events;
  },
)

-- `provider_event_id` is unique.
abbrev pub AreDeduplicated : List PaymentEvent → Type 0
AreDeduplicated [] = Unit
AreDeduplicated (e ∷ es) = (is_recorded e.provider_event_id es ≡ false) × AreDeduplicated es

-- After a delivery the event is in the inbox, once; a delivery of the same event after it stores
-- nothing and starts no work.
pub record_event_once :
    (first second : Label) (event : GatewayEvent) (db : Db)
    → AreDeduplicated db.events
    → let (_, db') = record_event first event db in
      (is_recorded event.event_id db'.events ≡ true)
      × AreDeduplicated db'.events
      × (record_event second event db' ≡ (none, db'))
unfolding record_event
record_event_once first second event db d =
    elim (Bool-cases (is_recorded event.event_id db.events)) [
      | inl old ↦ rw old (rw old (refl, d, refl))
      | inr new ↦
          let self : (event.event_id == event.event_id) ≡ true = (==_iff _ _).1 refl in
          rw new (rw self (refl, (new, d), refl))
    ]
