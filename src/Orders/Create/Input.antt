-- ===== src/Orders/Create/Input.antt =====
-- What src/orders/orders.service.ts reads before it writes an order.
use cafe_pos.Tx.{Result, ok, err, order_channel_mismatch, order_draft_not_allowed, device_paused}
use cafe_pos.Orders.Pricing.{CatalogOptionGroup, RequestedItem, Catalog}
use cafe_pos.Identity.Principal.{Principal, staff, device}
use cafe_pos.Prelude.Int.{ℤ}
use cafe_pos.Schema.Rows.{Label}
use cafe_pos.Prelude.{true, false, some, none, List, ℕ, Option, Bool, ◌&&◌, if◌then◌else◌}
use cafe_pos.Schema.Enums.{DeviceStatus, OrderChannel, order_channel_eq}

pub record CreateOrderInput : Type 0 where
  pub channel : OrderChannel
  pub items : List RequestedItem
  pub customer_name : Option Label
  pub expected_total_minor : Option ℕ
  -- whether `draft` is true
  pub draft : Bool

-- A row of `menu_items` with its category and its option groups, in their sort order.
pub record MenuItemRow : Type 0 where
  pub id : Label
  pub name : Label
  pub base_price_minor : ℤ
  pub is_available : Bool
  pub category_is_active : Bool
  pub option_groups : List CatalogOptionGroup

pub record OrderEnv : Type 0 where
  -- the clock, in milliseconds, and `businessDayOf` it
  pub now : ℕ
  pub today : Label
  pub vat_basis_points : ℕ
  pub order_expiry_seconds : ℕ
  pub currency : Label
  pub menu : Label → Option MenuItemRow
  pub device_status : Label → Option DeviceStatus
  -- the ids that the new rows get
  pub order_id : Label
  pub item_id : ℕ → Label

-- `readCatalog`: an item of a category that is not active comes back unavailable.
abbrev pub read_catalog : (Label → Option MenuItemRow) → Catalog
read_catalog menu i = elim (menu i) [
  | none ↦ none
  | some row ↦ some (record {
    id = row.id;
    name = row.name;
    base_price_minor = row.base_price_minor;
    is_available = row.is_available && row.category_is_active;
    option_groups = row.option_groups;
  })
]

abbrev is_paused : Option DeviceStatus → Bool
is_paused (some DeviceStatus.paused) = true
is_paused (some _) = false
is_paused none = false

-- `resolveChannel`.
unfoldable pub resolve_channel : OrderEnv → Principal → CreateOrderInput → Result OrderChannel
unfolding order_channel_eq
resolve_channel env (staff _ _ _) input =
    if order_channel_eq input.channel OrderChannel.counter
    then ok OrderChannel.counter
    else err (order_channel_mismatch input.channel OrderChannel.counter)
resolve_channel env (device d) input =
    if order_channel_eq input.channel OrderChannel.kiosk
    then (if input.draft
        then err order_draft_not_allowed
        else (if is_paused (env.device_status d) then err device_paused else ok OrderChannel.kiosk))
    else err (order_channel_mismatch input.channel OrderChannel.kiosk)
