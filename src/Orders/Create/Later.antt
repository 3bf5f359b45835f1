-- ===== src/Orders/Create/Later.antt =====
-- What may happen to the store of src/orders/orders.service.ts after a key was answered, until its row
-- is deleted by src/retention.
use cafe_pos.Payments.Create.{create_payment, CreatePaymentInput}
use cafe_pos.Payments.Create.Keys.{create_payment-Holds}
use cafe_pos.Payments.Provider.{PaymentProvider}
use cafe_pos.Orders.Idempotency.Kept.{Holds, find?-complete_other, reserve_key-Holds, drain-find?}
use cafe_pos.Prelude.{
  [], true, false, some, none, Bool, ℕ, ◌≡◌, ◌≤◌, Bool-cases, find?, refl, ◌==◌, inl, inr, Option,
  List, arith, ◌∙◌, ap,
}
use cafe_pos.Retention.{delete_expired_idempotency_keys, batch_size, default_max_batches}
use cafe_pos.Schema.Constraints.{order_conflicts}
use cafe_pos.Orders.Pricing.{PricedOrder, price_order}
use cafe_pos.Schema.Enums.{OrderChannel}
use cafe_pos.Tx.Ensures.{Ensures, Ensures-bind, Ensures-lift, Ensures-throw_if, transaction_keeps}
use cafe_pos.Identity.Principal.{Principal}
use cafe_pos.Schema.Store.{Db}
use cafe_pos.Tx.{DomainEvent, Session, Result, ok, err, transaction}
use cafe_pos.Schema.Views.{ResponseBody, IdempotencyKey, OrderView, order_body}
use cafe_pos.Orders.Idempotency.{reserve_key, complete_key, find_key, is_key_already_reserved}
use cafe_pos.Orders.Create.{
  persist, build, create_tx, create, insert_order, OrderEnv, CreateOrderInput, answer_create,
  opening_number, key_expiry, order_row, resolve_channel, read_catalog, expects_other,
}
use cafe_pos.Orders.Number.{next_order_number}
use cafe_pos.Schema.Rows.{Label}

opening_number_keys :
    (draft : Bool) (day : Label) (s : Session)
    → Ensures (λ _ t. t.db.keys ≡ s.db.keys) (opening_number draft day s)
unfolding next_order_number
opening_number_keys true day s = refl
opening_number_keys false day s = refl

persist_keys :
    (env : OrderEnv) (principal : Principal) (channel : OrderChannel) (input : CreateOrderInput)
    (priced : PricedOrder) (s : Session)
    → Ensures (λ _ t. t.db.keys ≡ s.db.keys) (persist env principal channel input priced s)
unfolding persist insert_order
persist_keys env principal channel input priced s =
    let Q = λ (_ : OrderView) (t : Session). t.db.keys ≡ s.db.keys in
    Ensures-bind (λ _ t. t.db.keys ≡ s.db.keys) Q (opening_number input.draft env.today) _ s
      (opening_number_keys input.draft env.today s)
      (λ number t same.
        let row = order_row env principal channel input priced number in
        elim (Bool-cases (order_conflicts row t.db.orders)) [
          | inl clash ↦ rw (clash, Ensures) tt
          | inr free ↦ rw (free, Ensures) same
        ])

pub build_keys :
    (env : OrderEnv) (principal : Principal) (input : CreateOrderInput) (s : Session)
    → Ensures (λ _ t. t.db.keys ≡ s.db.keys) (build env principal input s)
unfolding build
build_keys env principal input s =
    let Q = λ (_ : OrderView) (t : Session). t.db.keys ≡ s.db.keys in
    Ensures-lift Q (resolve_channel env principal input) _ s λ channel _.
      Ensures-lift Q (price_order input.items (read_catalog env.menu) env.vat_basis_points) _ s
        λ priced _.
          Ensures-throw_if Q (expects_other input.expected_total_minor priced.total_minor) _ _ s
            λ _. persist_keys env principal channel input priced s

-- From a store to a later one, while the row of `key` is to be kept until `expiry`. The newest
-- step stands outermost.
pub data Later (key : Label) (expiry : ℕ) (db : Db) : Db → Type 0 where
  as_left : Later key expiry db db
  created :
      {later : Db} (env : OrderEnv) (principal : Principal) (input : CreateOrderInput)
      (keyed : Option (Label × Label))
      → Later key expiry db later
      → Later key expiry db (create env principal input keyed later).1
  deleted :
      {later : Db} (cutoff : ℕ)
      → cutoff ≤ expiry
      → Later key expiry db later
      → Later key expiry db
          (record later { keys = (delete_expired_idempotency_keys cutoff later.keys).1 })
  paid :
      {later : Db} (provider : PaymentProvider) (delivers : List DomainEvent → Bool) (now : ℕ)
      (payment_id : Label) (principal : Principal) (order_id : Label) (input : CreatePaymentInput)
      (keyed : Option (Label × Label)) (read : Db)
      → Later key expiry db later
      → Later key expiry db
          (create_payment provider delivers now payment_id principal order_id input keyed read
            later).db
  elsewhere :
      {later : Db} (other : Db)
      → find_key key other ≡ find_key key later
      → Later key expiry db later
      → Later key expiry db other

create_tx-Holds :
    (env : OrderEnv) (principal : Principal) (input : CreateOrderInput)
    (keyed : Option (Label × Label)) (key : Label) (stored : IdempotencyKey) (s : Session)
    → Holds key stored s.db
    → Ensures (λ _ t. Holds key stored t.db) (create_tx env principal input keyed s)
unfolding create_tx complete_key
create_tx-Holds env principal input none key stored s there =
    let Q = λ (_ : ResponseBody) (t : Session). Holds key stored t.db in
    Ensures-bind (λ _ t. t.db.keys ≡ s.db.keys) Q (build env principal input) _ s
      (build_keys env principal input s)
      (λ view t same. ap (find? (λ k. k.key == key)) same ∙ there)
create_tx-Holds env principal input (some (other, request_hash)) key stored s there =
    let Q = λ (_ : ResponseBody) (t : Session). Holds key stored t.db in
    Ensures-bind _ Q (reserve_key other request_hash (key_expiry env)) _ s
      (reserve_key-Holds key other request_hash (key_expiry env) stored s there)
      (λ _ t (apart, kept).
        Ensures-bind (λ _ u. u.db.keys ≡ t.db.keys) Q (build env principal input) _ t
          (build_keys env principal input t)
          (λ view u same.
            find?-complete_other key other 201 (order_body view) u.db.keys apart
            ∙ (ap (find? (λ k. k.key == key)) same ∙ kept)))

answer_create-db :
    (keyed : Option (Label × Label)) (r : Result ResponseBody × Db)
    → (answer_create keyed r).1 ≡ r.1
unfolding is_key_already_reserved
answer_create-db keyed (ok body, db) = refl
answer_create-db none (err e, db) = refl
answer_create-db (some (key, request_hash)) (err e, db) = ground arith

create-Holds :
    (env : OrderEnv) (principal : Principal) (input : CreateOrderInput)
    (keyed : Option (Label × Label)) (key : Label) (stored : IdempotencyKey) (db : Db)
    → Holds key stored db
    → Holds key stored (create env principal input keyed db).1
unfolding create
create-Holds env principal input keyed key stored db there =
    ap (find_key key)
      (answer_create-db keyed (transaction (create_tx env principal input keyed) db))
    ∙ transaction_keeps (Holds key stored) (create_tx env principal input keyed) db there (
        create_tx-Holds env principal input keyed key stored (record { db = db; pending = [] })
          there)

pub Later-find :
    {key : Label} {expiry : ℕ} {db later : Db}
    → Later key expiry db later
    → (stored : IdempotencyKey) → find_key key db ≡ some stored
    → stored.expires_at ≡ expiry
    → find_key key later ≡ some stored
unfolding delete_expired_idempotency_keys
Later-find as_left stored there at = there
Later-find {key} (created {later} env principal input keyed passed) stored there at =
    create-Holds env principal input keyed key stored later (Later-find passed stored there at)
Later-find {key} (deleted {later} cutoff early passed) stored there at =
    drain-find? key cutoff batch_size default_max_batches later.keys stored
      (Later-find passed stored there at) (ground arith)
Later-find {key}
      (paid {later} provider delivers now payment_id principal order_id input keyed read passed)
      stored there at =
    create_payment-Holds key stored provider delivers now payment_id principal order_id input keyed
      read later (Later-find passed stored there at)
Later-find (elsewhere other same passed) stored there at = same ∙ Later-find passed stored there at
