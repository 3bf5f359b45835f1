-- ===== src/Orders/Create.antt =====
-- src/orders/orders.service.ts: order creation. What the transaction reads of tables that are not
-- modelled, of the clock and of the configuration is an `OrderEnv`. Metrics are left out.
mod Input
unfoldable pub use Input.*
use cafe_pos.Prelude.Int.{ℤ}
pub mod Later
pub mod Once
use cafe_pos.Prelude.{
  ℕ, suc, ◌+◌, ◌*◌, Bool, true, false, not, ◌&&◌, Option, none, some, List, [], ◌∷◌, ◌++◌, map,
  ◌==◌, if◌then◌else◌,
}
use cafe_pos.Schema.Enums.{OrderStatus, OrderChannel, DeviceStatus, ActorType, order_channel_eq}
use cafe_pos.Schema.Rows.{Label, Order, OrderItem, OrderItemOption, OrderStatusHistory}
use cafe_pos.Schema.Views.{OrderView, OrderViewItem, ResponseBody, order_body}
use cafe_pos.Schema.Store.{Db}
use cafe_pos.Schema.Constraints.{order_conflicts}
use cafe_pos.Identity.Principal.{Principal, staff, device, device_id_of, user_id_of, is_device}
use cafe_pos.Tx.{
  Tx, ◌>>=◌, ◌>>◌, pure, throw, throw_if, execute, Result, ok, err, AppError, transaction,
  order_channel_mismatch, order_draft_not_allowed, device_paused, price_mismatch, internal, lift,
}
use cafe_pos.Orders.Pricing.{
  CatalogItem, CatalogOptionGroup, Catalog, RequestedItem, PricedLine, PricedOrder,
  PricedOptionSelection, price_order,
}
use cafe_pos.Orders.Status.{actor_of}
use cafe_pos.Orders.Checkout.{claim_number}
use cafe_pos.Orders.Idempotency.{reserve_key, complete_key, replay_key, is_key_already_reserved}

abbrev pub opening_status : Bool → OrderStatus
opening_status true = OrderStatus.draft
opening_status false = OrderStatus.pending_payment

-- A parked basket claims no queue number.
abbrev pub opening_number : Bool → Label → Tx (Option (List ℕ))
opening_number true day = pure none
opening_number false day = do number ← claim_number day; pure (some number)

abbrev opening_expiry : Bool → OrderEnv → Option ℕ
opening_expiry true env = none
opening_expiry false env = some (env.now + env.order_expiry_seconds * 1000)

abbrev pub order_row :
    OrderEnv → Principal → OrderChannel → CreateOrderInput → PricedOrder → Option (List ℕ) → Order
order_row env principal channel input priced number = record {
  id = env.order_id;
  order_number = number;
  business_day = env.today;
  channel = channel;
  status = opening_status input.draft;
  kiosk_device_id = device_id_of principal;
  created_by_user_id = user_id_of principal;
  customer_name = input.customer_name;
  subtotal_minor = priced.subtotal_minor;
  vat_minor = priced.vat_minor;
  total_minor = priced.total_minor;
  currency = env.currency;
  expires_at = opening_expiry input.draft env;
  created_at = env.now;
}

abbrev item_rows : OrderEnv → ℕ → List PricedLine → List OrderItem
item_rows env index [] = []
item_rows env index (l ∷ ls) =
    record {
      id = env.item_id index;
      order_id = env.order_id;
      menu_item_id = l.menu_item_id;
      name_snapshot = l.name_snapshot;
      unit_price_minor_snapshot = l.unit_price_minor_snapshot;
      quantity = l.quantity;
      line_total_minor = l.line_total_minor;
      notes = l.notes;
    }
    ∷ item_rows env (suc index) ls

abbrev option_rows_of : OrderEnv → ℕ → List PricedLine → List OrderItemOption
option_rows_of env index [] = []
option_rows_of env index (l ∷ ls) =
    map
      (λ o. record {
        order_item_id = env.item_id index;
        option_id = o.option_id;
        group_name_snapshot = o.group_name_snapshot;
        option_name_snapshot = o.option_name_snapshot;
        price_delta_minor_snapshot = o.price_delta_minor_snapshot;
      })
      l.options
    ++ option_rows_of env (suc index) ls

abbrev pub opening_entry : OrderEnv → Principal → OrderStatus → OrderStatusHistory
opening_entry env principal status = record {
  order_id = env.order_id;
  from_status = none;
  to_status = status;
  actor_type = (actor_of principal).actor_type;
  actor_id = (actor_of principal).actor_id;
  reason = none;
}

abbrev pub to_view : Order → PricedOrder → OrderView
to_view o priced = record {
  id = o.id;
  order_number = o.order_number;
  status = o.status;
  channel = o.channel;
  business_day = o.business_day;
  customer_name = o.customer_name;
  expires_at = o.expires_at;
  items =
      map
        (λ l. record {
          name_snapshot = l.name_snapshot;
          unit_price_minor = l.unit_price_minor_snapshot;
          quantity = l.quantity;
          line_total_minor = l.line_total_minor;
          notes = l.notes;
          options =
              map
                (λ p. record {
                  group = p.group_name_snapshot;
                  name = p.option_name_snapshot;
                  price_delta_minor = p.price_delta_minor_snapshot;
                })
                l.options;
        })
        priced.lines;
  subtotal_minor = o.subtotal_minor;
  vat_minor = o.vat_minor;
  total_minor = o.total_minor;
  currency = o.currency;
}

-- The insert into `orders`, with its unique constraints.
unfoldable pub insert_order : Order → Tx (Unit {0})
insert_order o s =
    if order_conflicts o s.db.orders
    then err internal
    else ok (tt, record s { db = record s.db { orders = o ∷ s.db.orders } })

-- `persist`.
unfoldable pub persist :
    OrderEnv → Principal → OrderChannel → CreateOrderInput → PricedOrder → Tx OrderView
persist env principal channel input priced = do
  number ← opening_number input.draft env.today
  let row = order_row env principal channel input priced number
  insert_order row
  execute (λ db. record db {
    order_items = item_rows env 0 priced.lines ++ db.order_items;
    option_rows = option_rows_of env 0 priced.lines ++ db.option_rows;
    history = opening_entry env principal (opening_status input.draft) ∷ db.history;
  })
  pure (to_view row priced)

-- Whether the client expects another total.
abbrev pub expects_other : Option ℕ → ℕ → Bool
expects_other none total = false
expects_other (some expected) total = not (expected == total)

abbrev expected_of : Option ℕ → ℕ
expected_of none = 0
expected_of (some expected) = expected

-- `build`.
unfoldable pub build : OrderEnv → Principal → CreateOrderInput → Tx OrderView
build env principal input = do
  channel ← lift (resolve_channel env principal input)
  priced ← lift (price_order input.items (read_catalog env.menu) env.vat_basis_points)
  throw_if (expects_other input.expected_total_minor priced.total_minor)
      (price_mismatch (expected_of input.expected_total_minor) priced.total_minor)
  persist env principal channel input priced

-- 24 hours.
abbrev pub key_expiry : OrderEnv → ℕ
key_expiry env = env.now + 24 * 60 * 60 * 1000

-- The transaction of `create`, under an idempotency key and its request hash, or under none.
unfoldable pub create_tx :
    OrderEnv → Principal → CreateOrderInput → Option (Label × Label) → Tx ResponseBody
create_tx env principal input none = do view ← build env principal input; pure (order_body view)
create_tx env principal input (some (key, request_hash)) = do
  reserve_key key request_hash (key_expiry env)
  view ← build env principal input
  complete_key key 201 (order_body view)
  pure (order_body view)

abbrev pub replayed : Result ResponseBody → Result (ResponseBody × Bool)
replayed (ok body) = ok (body, true)
replayed (err e) = err e

abbrev pub answer_create :
    Option (Label × Label) → Result ResponseBody × Db → Result (ResponseBody × Bool) × Db
answer_create keyed (ok body, db) = (ok (body, false), db)
answer_create none (err e, db) = (err e, db)
answer_create (some (key, request_hash)) (err e, db) =
    if is_key_already_reserved e
    then (replayed (replay_key db key request_hash), db)
    else (err e, db)

-- `OrdersService.create`: the response with whether it is a replay, and the store.
unfoldable pub create :
    OrderEnv
    → Principal
    → CreateOrderInput
    → Option (Label × Label)
    → Db
    → Result (ResponseBody × Bool) × Db
create env principal input keyed db =
    answer_create keyed (transaction (create_tx env principal input keyed) db)
