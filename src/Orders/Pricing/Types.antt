-- ===== src/Orders/Pricing/Types.antt =====
-- The types of src/orders/pricing/order-pricing.ts.
use cafe_pos.Prelude.Int.{ℤ}
use cafe_pos.Schema.Rows.{Label}
use cafe_pos.Prelude.{List, Option, ℕ, Bool}

pub record CatalogOption : Type 0 where
  pub id : Label
  pub name : Label
  pub price_delta_minor : ℤ
  pub is_available : Bool

pub record CatalogOptionGroup : Type 0 where
  pub id : Label
  pub name : Label
  pub min_select : ℕ
  pub max_select : ℕ
  pub options : List CatalogOption

pub record CatalogItem : Type 0 where
  pub id : Label
  pub name : Label
  pub base_price_minor : ℤ
  pub is_available : Bool
  pub option_groups : List CatalogOptionGroup

-- `ReadonlyMap<string, CatalogItem>`, of which only `get` is used.
abbrev pub Catalog : Type 0
Catalog = Label → Option CatalogItem

pub record RequestedItem : Type 0 where
  pub menu_item_id : Label
  pub quantity : ℕ
  pub option_ids : List Label
  pub notes : Option Label

pub record PricedOptionSelection : Type 0 where
  pub option_id : Label
  pub group_name_snapshot : Label
  pub option_name_snapshot : Label
  pub price_delta_minor_snapshot : ℤ

pub record PricedLine : Type 0 where
  pub menu_item_id : Label
  pub name_snapshot : Label
  pub unit_price_minor_snapshot : ℕ
  pub quantity : ℕ
  pub line_total_minor : ℕ
  pub notes : Option Label
  pub options : List PricedOptionSelection

pub record PricedOrder : Type 0 where
  pub lines : List PricedLine
  pub subtotal_minor : ℕ
  pub vat_minor : ℕ
  pub total_minor : ℕ

-- `CatalogOption & { group: CatalogOptionGroup }`.
pub record AttachedOption : Type 0 where
  pub option : CatalogOption
  pub group : CatalogOptionGroup

pub record ResolvedLine : Type 0 where
  pub line : RequestedItem
  pub item : Option CatalogItem
  pub options : List AttachedOption
  pub unknown_option_ids : List Label
  pub duplicate_option_ids : List Label
