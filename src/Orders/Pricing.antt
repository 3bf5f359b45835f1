-- ===== src/Orders/Pricing.antt =====
-- src/orders/pricing/order-pricing.ts: a basket and the catalog in, a priced order or a refusal
-- out. Prices and deltas are whole minor units; a delta may be negative.
mod Types
pub use Types.*
pub mod Selection
pub mod Checks
pub mod Acceptance
pub mod Money
pub mod Unavailable
pub mod Refusals
use cafe_pos.Prelude.{
  ℕ, suc, ◌+◌, ◌*◌, ◌/◌, Bool, true, false, not, ◌&&◌, ◌||◌, Option, none, some, List, [], ◌∷◌,
  ◌++◌, map, ◌==◌, if◌then◌else◌, leb, ltb, count_if,
}
use cafe_pos.Prelude.Int.{ℤ, pos, ◌+ℤ◌, pos_part}
use cafe_pos.Schema.Rows.{Label}
use cafe_pos.Tx.{
  OptionSelectionViolation, duplicate_option, unknown_option, min_select, max_select, AppError,
  option_selection_invalid, order_item_unavailable, internal, Result, ok, err,
}

-- `set.has` and `array.includes`.
abbrev pub contains : List Label → Label → Bool
contains [] i = false
contains (x ∷ xs) i = let rest = contains xs i in if x == i then true else rest

-- The groups' options in the order in which `attached.set` is called.
abbrev attach : CatalogOptionGroup → List CatalogOption → List AttachedOption
attach g os = map (λ o. record { option = o; group = g }) os

abbrev pub attach_all : List CatalogOptionGroup → List AttachedOption
attach_all [] = []
attach_all (g ∷ gs) = attach g g.options ++ attach_all gs

abbrev pub attached_to : Option CatalogItem → List AttachedOption
attached_to none = []
attached_to (some item) = attach_all item.option_groups

-- `attached.get`: of two options with one id the later `set` has overwritten the earlier.
abbrev pub get_attached : Label → List AttachedOption → Option AttachedOption
get_attached i [] = none
get_attached i (a ∷ as') = elim (get_attached i as') [
  | some later ↦ some later
  | none ↦ if a.option.id == i then some a else none
]

-- The variables of the loop over `line.optionIds`.
pub record SelectState : Type 0 where
  pub seen : List Label
  pub duplicates : List Label
  pub unknowns : List Label
  pub chosen : List AttachedOption

abbrev pub select_start : SelectState
select_start = record { seen = []; duplicates = []; unknowns = []; chosen = [] }

unfoldable pub select_option : List AttachedOption → SelectState → Label → SelectState
select_option att st i =
    if contains st.seen i
    then (if contains st.duplicates i
        then st
        else record st { duplicates = st.duplicates ++ (i ∷ []) })
    else (elim (get_attached i att) [
      | none ↦ record st { seen = st.seen ++ (i ∷ []); unknowns = st.unknowns ++ (i ∷ []) }
      | some a ↦ record st { seen = st.seen ++ (i ∷ []); chosen = st.chosen ++ (a ∷ []) }
    ])

unfoldable pub select_options : List AttachedOption → SelectState → List Label → SelectState
select_options att st [] = st
select_options att st (i ∷ is) = select_options att (select_option att st i) is

unfoldable pub resolve_line : Catalog → RequestedItem → ResolvedLine
resolve_line catalog line =
    let item = catalog line.menu_item_id in
    let st = select_options (attached_to item) select_start line.option_ids in
    record {
      line = line;
      item = item;
      options = st.chosen;
      unknown_option_ids = st.unknowns;
      duplicate_option_ids = st.duplicates;
    }

-- The two rules about ids.
abbrev pub id_violations : ResolvedLine → ℕ → List OptionSelectionViolation
id_violations r index =
    (elim r.duplicate_option_ids [ [] ↦ [] | i ∷ is ↦ duplicate_option index (i ∷ is) ∷ [] ])
    ++ (elim r.unknown_option_ids [ [] ↦ [] | i ∷ is ↦ unknown_option index (i ∷ is) ∷ [] ])

abbrev pub selected_in : CatalogOptionGroup → List AttachedOption → ℕ
selected_in g os = count_if (λ a. a.group.id == g.id) os

unfoldable pub bound_violations :
    ℕ → List AttachedOption → List CatalogOptionGroup → List OptionSelectionViolation
bound_violations index os [] = []
bound_violations index os (g ∷ gs) =
    let selected = selected_in g os in
    let rest = bound_violations index os gs in
    if leb g.min_select selected && leb selected g.max_select
    then rest
    else (if ltb selected g.min_select
        then min_select index g.id g.name selected g.min_select g.max_select
        else max_select index g.id g.name selected g.min_select g.max_select)
      ∷ rest

abbrev pub groups_of : Option CatalogItem → List CatalogOptionGroup
groups_of none = []
groups_of (some item) = item.option_groups

unfoldable pub validate_selections : ResolvedLine → ℕ → List OptionSelectionViolation
unfolding bound_violations
validate_selections r index = elim (id_violations r index) [
  | [] ↦ bound_violations index r.options (groups_of r.item)
  | v ∷ vs ↦ v ∷ vs
]

-- `resolved.flatMap(...)`, from an index on.
unfoldable pub all_violations : ℕ → List ResolvedLine → List OptionSelectionViolation
all_violations index [] = []
all_violations index (r ∷ rs) =
    (elim r.item [ none ↦ [] | some item ↦ validate_selections r index ])
    ++ all_violations (suc index) rs

-- `set.add`.
abbrev pub add_to_set : Label → List Label → List Label
add_to_set i xs = if contains xs i then xs else xs ++ (i ∷ [])

abbrev pub is_unavailable : Option CatalogItem → Bool
is_unavailable none = true
is_unavailable (some item) = not item.is_available

unfoldable pub unavailable_items : List Label → List ResolvedLine → List Label
unavailable_items acc [] = acc
unavailable_items acc (r ∷ rs) =
    unavailable_items (if is_unavailable r.item then add_to_set r.line.menu_item_id acc else acc) rs

abbrev pub unavailable_in : List Label → List AttachedOption → List Label
unavailable_in acc [] = acc
unavailable_in acc (a ∷ as') =
    unavailable_in (if a.option.is_available then acc else add_to_set a.option.id acc) as'

unfoldable pub unavailable_options : List Label → List ResolvedLine → List Label
unavailable_options acc [] = acc
unavailable_options acc (r ∷ rs) = unavailable_options (unavailable_in acc r.options) rs

abbrev pub sum_deltas : List AttachedOption → ℤ → ℤ
sum_deltas [] acc = acc
sum_deltas (a ∷ as') acc = sum_deltas as' (acc +ℤ a.option.price_delta_minor)

-- `Math.max(0, basePriceMinor + deltas)`.
abbrev pub unit_price : CatalogItem → List AttachedOption → ℕ
unit_price item os = pos_part (item.base_price_minor +ℤ sum_deltas os (pos 0))

-- `priceLine`, on an item that is there.
abbrev pub priced_line : CatalogItem → ResolvedLine → PricedLine
priced_line item r = record {
  menu_item_id = item.id;
  name_snapshot = item.name;
  unit_price_minor_snapshot = unit_price item r.options;
  quantity = r.line.quantity;
  line_total_minor = unit_price item r.options * r.line.quantity;
  notes = r.line.notes;
  options =
      map
        (λ a. record {
          option_id = a.option.id;
          group_name_snapshot = a.group.name;
          option_name_snapshot = a.option.name;
          price_delta_minor_snapshot = a.option.price_delta_minor;
        })
        r.options;
}

-- `resolved.map(priceLine)`. An item that is null here would be a TypeError.
unfoldable pub price_lines : List ResolvedLine → Option (List PricedLine)
price_lines [] = some []
price_lines (r ∷ rs) = elim r.item [
  | none ↦ none
  | some item ↦ elim (price_lines rs) [ none ↦ none | some ls ↦ some (priced_line item r ∷ ls) ]
]

abbrev pub sum_lines : List PricedLine → ℕ
sum_lines [] = 0
sum_lines (l ∷ ls) = l.line_total_minor + sum_lines ls

-- `Math.round(n / d)` for whole numbers is the floor of n / d + 1 / 2.
unfoldable pub extract_vat : ℕ → ℕ → ℕ
extract_vat total vat_basis_points =
    (2 * (total * vat_basis_points) + (10000 + vat_basis_points)) / (2 * (10000 + vat_basis_points))

abbrev pub priced : ℕ → List PricedLine → PricedOrder
priced vat_basis_points lines = record {
  lines = lines;
  subtotal_minor = sum_lines lines;
  vat_minor = extract_vat (sum_lines lines) vat_basis_points;
  total_minor = sum_lines lines;
}

-- The checks on a resolved basket, in their order, and the pricing after them.
unfoldable pub price_resolved : List ResolvedLine → ℕ → Result PricedOrder
price_resolved resolved vat_basis_points = elim (all_violations 0 resolved) [
  | v ∷ vs ↦ err (option_selection_invalid (v ∷ vs))
  | [] ↦ elim (unavailable_items [] resolved) [
    | i ∷ is ↦ err (order_item_unavailable (i ∷ is) (unavailable_options [] resolved))
    | [] ↦ elim (unavailable_options [] resolved) [
      | i ∷ is ↦ err (order_item_unavailable [] (i ∷ is))
      | [] ↦ elim (price_lines resolved) [
        | none ↦ err internal
        | some lines ↦ ok (priced vat_basis_points lines)
      ]
    ]
  ]
]

unfoldable pub price_order : List RequestedItem → Catalog → ℕ → Result PricedOrder
price_order requested catalog vat_basis_points =
    price_resolved (map (resolve_line catalog) requested) vat_basis_points
