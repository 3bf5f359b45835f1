-- ===== src/Orders/Pricing/Checks.antt =====
-- What the checks of `priceOrder` have established of a resolved basket that they let pass.
use cafe_pos.Tx.{ok}
use cafe_pos.Prelude.{
  none, some, ℕ, ◌≤◌, ◌≡◌, refl, ◌↔◌, true, some, List, [], ◌∷◌, ◌++◌, arith, All, Bool-cases, inl,
  inr, false, Option, suc, Option-cases,
}
use cafe_pos.Schema.Rows.{Label}
use cafe_pos.Orders.Pricing.{
  AttachedOption, CatalogOptionGroup, CatalogItem, ResolvedLine, selected_in, bound_violations,
  groups_of, validate_selections, id_violations, is_unavailable, unavailable_items, add_to_set,
  unavailable_in, unavailable_options, all_violations, price_lines, priced_line, PricedLine,
  price_resolved, PricedOrder, priced,
}
use cafe_pos.Orders.Pricing.Selection.{is_clean}

-- As many options of the group are selected as it allows.
abbrev pub IsWithin : List AttachedOption → CatalogOptionGroup → Type 0
IsWithin os g = (g.min_select ≤ selected_in g os) × (selected_in g os ≤ g.max_select)

abbrev pub IsOnSale : AttachedOption → Type 0
IsOnSale a = a.option.is_available ≡ true

-- A resolved line that no check refuses.
pub record IsOrderable (r : ResolvedLine) : Type 0 where
  pub item : CatalogItem
  pub found : r.item ≡ some item
  pub available : item.is_available ≡ true
  pub clean : is_clean r.duplicate_option_ids r.unknown_option_ids ≡ true
  pub within : All (IsWithin r.options) item.option_groups
  pub on_sale : All IsOnSale r.options

pub nil_of_append {ℓ} : {A : Type ℓ} (xs ys : List A) → xs ++ ys ≡ [] → (xs ≡ []) × (ys ≡ [])
nil_of_append [] ys h = (refl, h)
nil_of_append (x ∷ xs) ys h = cc

pub bound_violations_sound :
    (i : ℕ) (os : List AttachedOption) (gs : List CatalogOptionGroup)
    → bound_violations i os gs ≡ []
    → All (IsWithin os) gs
unfolding bound_violations
bound_violations_sound i os [] h = tt
bound_violations_sound i os (g ∷ gs) h = ground (arith, bound_violations_sound i os gs)

pub bound_violations_complete :
    (i : ℕ) (os : List AttachedOption) (gs : List CatalogOptionGroup)
    → All (IsWithin os) gs
    → bound_violations i os gs ≡ []
unfolding bound_violations
bound_violations_complete i os [] w = refl
bound_violations_complete i os (g ∷ gs) w = ground (arith, bound_violations_complete i os gs w.1)

pub id_violations_nil :
    (r : ResolvedLine) (i : ℕ)
    → (id_violations r i ≡ []) ↔ (is_clean r.duplicate_option_ids r.unknown_option_ids ≡ true)
id_violations_nil r i = ground arith

pub validate_selections_nil :
    (r : ResolvedLine) (i : ℕ)
    → validate_selections r i ≡ []
    → (is_clean r.duplicate_option_ids r.unknown_option_ids ≡ true)
      × (bound_violations i r.options (groups_of r.item) ≡ [])
unfolding validate_selections
validate_selections_nil r i h = ground (arith, id_violations_nil r i)

add_to_set-not_nil : (i : Label) (xs : List Label) → ¬ (add_to_set i xs ≡ [])
add_to_set-not_nil i [] h = cc
add_to_set-not_nil i (x ∷ xs) h = ground arith

unavailable_items-acc :
    (acc : List Label) (rs : List ResolvedLine) → unavailable_items acc rs ≡ [] → acc ≡ []
unfolding unavailable_items
unavailable_items-acc acc [] h = h
unavailable_items-acc acc (r ∷ rs) h = elim (Bool-cases (is_unavailable r.item)) [
  | inl e ↦ absurd (
      add_to_set-not_nil r.line.menu_item_id acc
        (unavailable_items-acc (add_to_set r.line.menu_item_id acc) rs (rw e at h)))
  | inr e ↦ unavailable_items-acc acc rs (rw e at h)
]

unavailable_items-cons :
    (r : ResolvedLine) (rs : List ResolvedLine)
    → unavailable_items [] (r ∷ rs) ≡ []
    → (is_unavailable r.item ≡ false) × (unavailable_items [] rs ≡ [])
unfolding unavailable_items
unavailable_items-cons r rs h = elim (Bool-cases (is_unavailable r.item)) [
  | inl e ↦ absurd (
      add_to_set-not_nil r.line.menu_item_id []
        (unavailable_items-acc (add_to_set r.line.menu_item_id []) rs (rw e at h)))
  | inr e ↦ (e, rw e at h)
]

unavailable_in-acc :
    (acc : List Label) (os : List AttachedOption)
    → unavailable_in acc os ≡ []
    → (acc ≡ []) × All IsOnSale os
unavailable_in-acc acc [] h = (h, tt)
unavailable_in-acc acc (a ∷ os) h = elim (Bool-cases a.option.is_available) [
  | inl e ↦ let (nil, rest) = unavailable_in-acc acc os (rw e at h) in (nil, (e, rest))
  | inr e ↦ absurd (
      add_to_set-not_nil a.option.id acc
        (unavailable_in-acc (add_to_set a.option.id acc) os (rw e at h)).0)
]

unavailable_options-acc :
    (acc : List Label) (rs : List ResolvedLine) → unavailable_options acc rs ≡ [] → acc ≡ []
unfolding unavailable_options
unavailable_options-acc acc [] h = h
unavailable_options-acc acc (r ∷ rs) h =
    (unavailable_in-acc acc r.options
      (unavailable_options-acc (unavailable_in acc r.options) rs h)).0

unavailable_options-cons :
    (r : ResolvedLine) (rs : List ResolvedLine)
    → unavailable_options [] (r ∷ rs) ≡ []
    → All IsOnSale r.options × (unavailable_options [] rs ≡ [])
unfolding unavailable_options
unavailable_options-cons r rs h =
    let nil = unavailable_options-acc (unavailable_in [] r.options) rs h in
    ((unavailable_in-acc [] r.options nil).1, rw nil at h)

unavailable_in_complete : (os : List AttachedOption) → All IsOnSale os → unavailable_in [] os ≡ []
unavailable_in_complete [] s = refl
unavailable_in_complete (a ∷ os) s = rw s.0 (unavailable_in_complete os s.1)

available_item :
    (o : Option CatalogItem)
    → is_unavailable o ≡ false
    → (item : CatalogItem) × (o ≡ some item) × (item.is_available ≡ true)
available_item none h = cc
available_item (some item) h = (item, refl, ground arith)

-- One line, when nothing is reported of the basket that it stands first in.
IsOrderable-head :
    (i : ℕ) (r : ResolvedLine) (rs : List ResolvedLine)
    → all_violations i (r ∷ rs) ≡ []
    → unavailable_items [] (r ∷ rs) ≡ []
    → unavailable_options [] (r ∷ rs) ≡ []
    → IsOrderable r × (all_violations (suc i) rs ≡ [])
unfolding all_violations
IsOrderable-head i r rs v u o =
    let (item, found, available) = available_item r.item (unavailable_items-cons r rs u).0 in
    let (mine, others) =
      nil_of_append (validate_selections r i) (all_violations (suc i) rs) (rw found at v) in
    let (clean, bounds) = validate_selections_nil r i mine in
    (
      record {
        item = item;
        found = found;
        available = available;
        clean = clean;
        within = bound_violations_sound i r.options item.option_groups (rw found at bounds);
        on_sale = (unavailable_options-cons r rs o).0;
      },
      others,
    )

pub IsOrderable-All :
    (i : ℕ) (rs : List ResolvedLine)
    → all_violations i rs ≡ []
    → unavailable_items [] rs ≡ []
    → unavailable_options [] rs ≡ []
    → All IsOrderable rs
IsOrderable-All i [] v u o = tt
IsOrderable-All i (r ∷ rs) v u o =
    let (head, others) = IsOrderable-head i r rs v u o in
    (
      head,
      IsOrderable-All (suc i) rs others (unavailable_items-cons r rs u).1
          (unavailable_options-cons r rs o).1,
    )

orderable_validates : (i : ℕ) (r : ResolvedLine) → IsOrderable r → validate_selections r i ≡ []
unfolding validate_selections
orderable_validates i r h =
    rw ((id_violations_nil r i).1 h.clean, validate_selections)
      (rw h.found (bound_violations_complete i r.options h.item.option_groups h.within))

orderable_passes :
    (i : ℕ) (rs : List ResolvedLine)
    → All IsOrderable rs
    → (all_violations i rs ≡ [])
      × (unavailable_items [] rs ≡ [])
      × (unavailable_options [] rs ≡ [])
      × ((ls : List PricedLine) × (price_lines rs ≡ some ls))
unfolding all_violations unavailable_items unavailable_options price_lines
orderable_passes i [] h = (refl, refl, refl, ([], refl))
orderable_passes i (r ∷ rs) h =
    let (v, u, o, (ls, p)) = orderable_passes (suc i) rs h.1 in
    (
      rw (h.0.found, orderable_validates i r h.0) v,
      rw (h.0.found, h.0.available) u,
      rw (unavailable_in_complete r.options h.0.on_sale) o,
      (priced_line h.0.item r ∷ ls, rw (h.0.found, price_lines) (rw p)),
    )

-- What a resolved basket that is priced has passed, and what it is priced as.
pub price_resolved-ok :
    (rs : List ResolvedLine) (vat : ℕ) (r : PricedOrder)
    → price_resolved rs vat ≡ ok r
    → All IsOrderable rs
      × ((ls : List PricedLine) × (price_lines rs ≡ some ls) × (r ≡ priced vat ls))
unfolding price_resolved
price_resolved-ok rs vat r h = (
  IsOrderable-All 0 rs (ground arith) (ground arith) (ground arith),
  elim (Option-cases (price_lines rs)) [
    | inl e ↦ ground arith
    | inr (ls, e) ↦ (ls, e, ground arith)
  ],
)

pub price_resolved-orderable :
    (rs : List ResolvedLine) (vat : ℕ)
    → All IsOrderable rs
    → (r : PricedOrder) × (price_resolved rs vat ≡ ok r)
unfolding price_resolved
price_resolved-orderable rs vat h =
    let (v, u, o, (ls, p)) = orderable_passes 0 rs h in (priced vat ls, ground arith)
