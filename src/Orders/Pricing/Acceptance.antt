-- ===== src/Orders/Pricing/Acceptance.antt =====
-- Which baskets `priceOrder` accepts, against an independent description of a line that may be
-- sold.
use cafe_pos.Tx.{ok, AppError, err, option_selection_invalid, internal, order_item_unavailable}
use cafe_pos.Prelude.{
  some, ℕ, ◌≡◌, refl, ◌↔◌, true, some, List, [], ◌∷◌, All, ◌∙◌, ap, map, ◌≢◌, ◌⊎◌, arith,
  Option-cases, inl, inr,
}
use cafe_pos.Orders.Pricing.{
  CatalogItem, Catalog, RequestedItem, attach_all, PricedOrder, resolve_line, attached_to,
  select_start, price_order, select_options, price_resolved, ResolvedLine, all_violations,
  unavailable_items, unavailable_options, price_lines,
}
use cafe_pos.Orders.Pricing.Checks.{
  IsWithin, IsOnSale, IsOrderable, price_resolved-ok, price_resolved-orderable, IsOrderable-All,
}
use cafe_pos.Orders.Pricing.Selection.{
  IsDistinct, AreAttached, lookup_all, select_options_sound, IsFresh-IsDistinct,
  select_options_complete, IsDistinct-IsFresh, reports_nothing,
}

-- A line that may be sold: its item is in the catalog and available, its option ids are distinct
-- and attached to the item, the options are available, and every group of the item has as many
-- of them as it allows.
pub record IsAcceptable (catalog : Catalog) (line : RequestedItem) : Type 0 where
  pub item : CatalogItem
  pub listed : catalog line.menu_item_id ≡ some item
  pub available : item.is_available ≡ true
  pub distinct : IsDistinct line.option_ids
  pub attached : AreAttached (attach_all item.option_groups) line.option_ids
  pub within :
      All (IsWithin (lookup_all (attach_all item.option_groups) line.option_ids)) item.option_groups
  pub on_sale : All IsOnSale (lookup_all (attach_all item.option_groups) line.option_ids)

orderable-IsAcceptable :
    (catalog : Catalog) (line : RequestedItem)
    → IsOrderable (resolve_line catalog line)
    → IsAcceptable catalog line
unfolding resolve_line
orderable-IsAcceptable catalog line h =
    let att = attach_all h.item.option_groups in
    let (fresh, attached, chosen) =
      select_options_sound (attached_to (catalog line.menu_item_id)) select_start line.option_ids
        h.clean in
    let picked : (resolve_line catalog line).options ≡ lookup_all att line.option_ids =
      chosen ∙ ap (λ o. lookup_all (attached_to o) line.option_ids) h.found in
    record {
      item = h.item;
      listed = h.found;
      available = h.available;
      distinct = IsFresh-IsDistinct [] line.option_ids fresh;
      attached = rw h.found at attached;
      within = rw picked at h.within;
      on_sale = rw picked at h.on_sale;
    }

-- The line is resolved to the item and to exactly the options that its ids name.
acceptable_clean :
    (catalog : Catalog) (line : RequestedItem)
    → IsAcceptable catalog line
    → reports_nothing
        (select_options (attached_to (catalog line.menu_item_id)) select_start line.option_ids)
      ≡ true
acceptable_clean catalog line h =
    let same : attached_to (catalog line.menu_item_id) ≡ attach_all h.item.option_groups =
      ap attached_to h.listed in
    select_options_complete (attached_to (catalog line.menu_item_id)) select_start line.option_ids
      refl (IsDistinct-IsFresh line.option_ids h.distinct) (rw same h.attached)

pub acceptable_options :
    (catalog : Catalog) (line : RequestedItem) (h : IsAcceptable catalog line)
    → (resolve_line catalog line).options
      ≡ lookup_all (attach_all h.item.option_groups) line.option_ids
unfolding resolve_line
acceptable_options catalog line h =
    (select_options_sound (attached_to (catalog line.menu_item_id)) select_start line.option_ids
      (acceptable_clean catalog line h)).2
    ∙ ap (λ o. lookup_all (attached_to o) line.option_ids) h.listed

acceptable-IsOrderable :
    (catalog : Catalog) (line : RequestedItem)
    → IsAcceptable catalog line
    → IsOrderable (resolve_line catalog line)
unfolding resolve_line
acceptable-IsOrderable catalog line h = record {
  item = h.item;
  found = h.listed;
  available = h.available;
  clean = acceptable_clean catalog line h;
  within = rw (acceptable_options catalog line h) h.within;
  on_sale = rw (acceptable_options catalog line h) h.on_sale;
}

pub IsOrderable-map :
    (catalog : Catalog) (lines : List RequestedItem)
    → All IsOrderable (map (resolve_line catalog) lines) ↔ All (IsAcceptable catalog) lines
IsOrderable-map catalog [] = (λ _. tt, λ _. tt)
IsOrderable-map catalog (l ∷ ls) = (
  λ h. (orderable-IsAcceptable catalog l h.0, (IsOrderable-map catalog ls).0 h.1),
  λ h. (acceptable-IsOrderable catalog l h.0, (IsOrderable-map catalog ls).1 h.1),
)

-- A basket is priced exactly when every line of it may be sold, by the description
-- `IsAcceptable`: so a priced basket names available items, each with distinct, attached,
-- available options within the bounds of every group, and no basket like that is refused.
pub price_order_accepts_iff :
    (lines : List RequestedItem) (catalog : Catalog) (vat : ℕ)
    → ((r : PricedOrder) × (price_order lines catalog vat ≡ ok r))
      ↔ All (IsAcceptable catalog) lines
unfolding price_order
price_order_accepts_iff lines catalog vat = (
  λ (r, h).
      (IsOrderable-map catalog lines).0
        (price_resolved-ok (map (resolve_line catalog) lines) vat r h).0,
  λ h.
      price_resolved-orderable (map (resolve_line catalog) lines) vat
        ((IsOrderable-map catalog lines).1 h),
)

price_resolved_no_fault : (rs : List ResolvedLine) (vat : ℕ) → price_resolved rs vat ≢ err internal
unfolding price_resolved
price_resolved_no_fault rs vat h =
    let orderable = IsOrderable-All 0 rs (ground arith) (ground arith) (ground arith) in
    let (r, e) = price_resolved-orderable rs vat orderable in ground arith

pub refusal_cases :
    (rs : List ResolvedLine) (vat : ℕ) (e : AppError)
    → price_resolved rs vat ≡ err e
    → ((e ≡ option_selection_invalid (all_violations 0 rs)) × (all_violations 0 rs ≢ []))
      ⊎ ((e ≡ order_item_unavailable (unavailable_items [] rs) (unavailable_options [] rs))
          × (all_violations 0 rs ≡ []))
unfolding price_resolved
refusal_cases rs vat e h = elim (Option-cases (price_lines rs)) [
  | inl missing ↦ ground (arith, price_resolved_no_fault rs vat)
  | inr (ls, found) ↦ ground arith
]
