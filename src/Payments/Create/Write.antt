-- ===== src/Payments/Create/Write.antt =====
-- The transaction of src/payments/create/create-payment.service.ts and its answer, under a key.
use cafe_pos.Orders.Idempotency.{is_key_already_reserved, replay_key, reserve_key, complete_key}
use cafe_pos.Schema.Store.{Db, find_payment}
use cafe_pos.Schema.Rows.{Label, Payment}
use cafe_pos.Payments.Provider.{
  PaymentProvider, GatewayReply, replied, gateway_down, gateway_failed,
}
use cafe_pos.Tx.{
  ◌>>◌, ◌>>=◌, Tx, Result, Outcome, err, ok, DomainEvent, internal, dependency_unavailable, run,
  pure,
}
use cafe_pos.Schema.Views.{PaymentView, ResponseBody, order_body, payment_body}
use cafe_pos.Prelude.{true, false, some, none, Option, List, Bool, if◌then◌else◌}
use cafe_pos.Schema.Enums.{PaymentStatus, PaymentProviderName}
use cafe_pos.Prelude.{ℕ, ◌+◌, ◌*◌}

-- The key, if the request has one, with its request hash.
abbrev pub Keyed : Type 0
Keyed = Option (Label × Label)

abbrev pub key_of : Keyed → Option Label
key_of none = none
key_of (some (key, _)) = some key

abbrev pub without_secret : PaymentView → PaymentView
without_secret v = record v { client_secret = none }

-- The transaction of `write`. The stored copy has no client secret.
unfoldable pub write_tx : ℕ → Keyed → Tx PaymentView → Tx PaymentView
write_tx now none work = work
write_tx now (some (key, request_hash)) work = do
  reserve_key key request_hash (now + 24 * 60 * 60 * 1000)
  view ← work
  complete_key key 201 (payment_body (without_secret view))
  pure view

module _ (provider : PaymentProvider) where
  abbrev with_secret : PaymentView → GatewayReply Label → Result ResponseBody
  with_secret v gateway_down = err dependency_unavailable
  with_secret v gateway_failed = err internal
  with_secret v (replied secret) = ok (payment_body (record v { client_secret = some secret }))

  abbrev ask_secret : PaymentView → Option Label → Result ResponseBody
  ask_secret v none = ok (payment_body v)
  ask_secret v (some intent) = with_secret v (provider.client_secret_for intent)

  abbrev intent_of_payment : Option Payment → Option Label
  intent_of_payment none = none
  intent_of_payment (some p) = p.provider_intent_id

  -- A gateway payment that is still pending gets its secret back.
  abbrev rehydrate_view :
      PaymentProviderName → PaymentStatus → PaymentView → Db → Result ResponseBody
  rehydrate_view PaymentProviderName.stripe PaymentStatus.pending v db =
      ask_secret v (intent_of_payment (find_payment v.id db))
  rehydrate_view PaymentProviderName.stripe _ v db = ok (payment_body v)
  rehydrate_view PaymentProviderName.cash _ v db = ok (payment_body v)

  unfoldable pub rehydrate : ResponseBody → Db → Result ResponseBody
  rehydrate (order_body v) db = ok (order_body v)
  rehydrate (payment_body v) db = rehydrate_view v.provider v.status v db

  abbrev pub replay : Result ResponseBody → Db → Result (ResponseBody × Bool)
  replay (err e) db = err e
  replay (ok body) db = elim (rehydrate body db) [ ok b ↦ ok (b, true) | err e ↦ err e ]

  abbrev pub answer_write :
      Keyed → Outcome PaymentView → Result PaymentView → Outcome (ResponseBody × Bool)
  answer_write keyed o (ok view) = record {
    result = ok (payment_body view, false);
    db = o.db;
    announced = o.announced;
  }
  answer_write none o (err e) = record { result = err e; db = o.db; announced = o.announced }
  answer_write (some (key, request_hash)) o (err e) =
      if is_key_already_reserved e
      then record {
        result = replay (replay_key o.db key request_hash) o.db;
        db = o.db;
        announced = o.announced;
      }
      else record { result = err e; db = o.db; announced = o.announced }

-- `write`.
unfoldable pub write :
    PaymentProvider
    → (List DomainEvent → Bool)
    → ℕ
    → Keyed
    → Tx PaymentView
    → Db
    → Outcome (ResponseBody × Bool)
write provider delivers now keyed work db =
    let o = run delivers (write_tx now keyed work) db in answer_write provider keyed o o.result
