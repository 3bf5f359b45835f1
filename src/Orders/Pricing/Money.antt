-- ===== src/Orders/Pricing/Money.antt =====
-- What a priced basket costs: the lines, the total, the VAT carved out of it.
use cafe_pos.Orders.Pricing.Checks.{price_resolved-ok}
use cafe_pos.Orders.Pricing.Acceptance.{IsAcceptable, acceptable_options, IsOrderable-map}
use cafe_pos.Orders.Pricing.Selection.{lookup_all, lookup_all-cons}
use native.Mathlib.Nat.{div-add-mod, mod-lt, mul-le-mul_right}
use native.Mathlib.Decide.{dec_le}
use cafe_pos.Prelude.{
  ℕ, suc, ◌+◌, ◌*◌, ◌/◌, ◌≤◌, ◌<◌, ◌≡◌, none, some, List, [], ◌∷◌, map, arith, All, Option-cases,
  inl, inr, sym, ap, refl, ◌∙◌,
}
use cafe_pos.Tx.{ok}
use cafe_pos.Schema.Rows.{Label}
use cafe_pos.Prelude.Int.{ℤ, pos, negsuc, ◌+ℤ◌, pos_part, +ℤ_zero, zero_+ℤ, +ℤ_assoc}
use cafe_pos.Orders.Pricing.{
  CatalogItem, Catalog, RequestedItem, ResolvedLine, PricedOrder, extract_vat, unit_price,
  sum_deltas, get_attached, AttachedOption, price_lines, resolve_line, attach_all, PricedLine,
  sum_lines, priced_line, price_order,
}

div_bounds : (n m : ℕ) → 0 < m → (n / m * m ≤ n) × (n < n / m * m + m)
div_bounds n m h =
    (omega (arith, div-add-mod n m, mod-lt n h), omega (arith, div-add-mod n m, mod-lt n h))

vat_within :
    (total rate q : ℕ) → q * (2 * (10000 + rate)) ≤ 2 * (total * rate) + (10000 + rate) → q ≤ total
vat_within total rate q h = elim (dec_le q total) [
  | yes le ↦ le
  | no gt ↦ absurd (omega (arith, mul-le-mul_right {m = suc total} {n = q} rate (omega arith)))
]

-- The VAT is the nearest whole number to `total * rate / (10000 + rate)`, a half rounded up, and
-- it is part of the total.
pub extract_vat_nearest :
    (total rate : ℕ)
    → (2 * (extract_vat total rate * (10000 + rate)) ≤ 2 * (total * rate) + (10000 + rate))
      × (2 * (total * rate) < 2 * (extract_vat total rate * (10000 + rate)) + (10000 + rate))
      × (extract_vat total rate ≤ total)
unfolding extract_vat
extract_vat_nearest total rate =
    let (low, high) =
      div_bounds (2 * (total * rate) + (10000 + rate)) (2 * (10000 + rate)) (omega arith) in
    (omega arith, omega arith, vat_within total rate (extract_vat total rate) low)

-- What an option adds to the price of a line: nothing if it is not attached.
abbrev option_delta : List AttachedOption → Label → ℤ
option_delta att i = elim (get_attached i att) [
  | none ↦ pos 0
  | some a ↦ a.option.price_delta_minor
]

abbrev delta_total : List AttachedOption → List Label → ℤ
delta_total att [] = pos 0
delta_total att (i ∷ is) = option_delta att i +ℤ delta_total att is

-- A price below 0 is charged as 0.
abbrev charged : ℤ → ℕ
charged (pos n) = n
charged (negsuc n) = 0

-- What a line costs by the catalog: the quantity times the item's price with the deltas of the
-- options that the line names, or times 0 if that price is below 0.
abbrev line_price : Catalog → RequestedItem → ℕ
line_price catalog line = elim (catalog line.menu_item_id) [
  | none ↦ 0
  | some item ↦
      charged (item.base_price_minor +ℤ delta_total (attach_all item.option_groups) line.option_ids)
      * line.quantity
]

abbrev pub basket_price : Catalog → List RequestedItem → ℕ
basket_price catalog [] = 0
basket_price catalog (l ∷ ls) = line_price catalog l + basket_price catalog ls

price_lines-cons :
    (r : ResolvedLine) (rs : List ResolvedLine) (item : CatalogItem) (ls : List PricedLine)
    → r.item ≡ some item
    → price_lines (r ∷ rs) ≡ some ls
    → (rest : List PricedLine) × (price_lines rs ≡ some rest) × (ls ≡ priced_line item r ∷ rest)
unfolding price_lines
price_lines-cons r rs item ls found e = elim (Option-cases (price_lines rs)) [
  | inl missing ↦ ground arith
  | inr (rest, p) ↦ (rest, p, ground arith)
]

sum_deltas-lookup_all :
    (att : List AttachedOption) (ids : List Label) (acc : ℤ)
    → sum_deltas (lookup_all att ids) acc ≡ acc +ℤ delta_total att ids
sum_deltas-lookup_all att [] acc = sym (+ℤ_zero acc)
sum_deltas-lookup_all att (i ∷ is) acc =
    let total = delta_total att is in
    elim (Option-cases (get_attached i att)) [
      | inl e ↦
          let unnamed : lookup_all att (i ∷ is) ≡ lookup_all att is = ground arith in
          let free : option_delta att i ≡ pos 0 = ground arith in
          ap (λ os. sum_deltas os acc) unnamed
          ∙ (sum_deltas-lookup_all att is acc
              ∙ ap (λ z. acc +ℤ z) (sym (ap (λ z. z +ℤ total) free ∙ zero_+ℤ total)))
      | inr (a, e) ↦
          let named : lookup_all att (i ∷ is) ≡ a ∷ lookup_all att is =
            lookup_all-cons att i is a e in
          let adds : option_delta att i ≡ a.option.price_delta_minor = ground arith in
          ap (λ os. sum_deltas os acc) named
          ∙ (sum_deltas-lookup_all att is (acc +ℤ a.option.price_delta_minor)
              ∙ (+ℤ_assoc acc a.option.price_delta_minor total
                  ∙ ap (λ z. acc +ℤ (z +ℤ total)) (sym adds)))
    ]

charged_lem : (z : ℤ) → pos_part z ≡ charged z
charged_lem (pos n) = refl
charged_lem (negsuc n) = refl

unit_price_lem :
    (item : CatalogItem) (ids : List Label)
    → unit_price item (lookup_all (attach_all item.option_groups) ids)
      ≡ charged (item.base_price_minor +ℤ delta_total (attach_all item.option_groups) ids)
unit_price_lem item ids =
    let att = attach_all item.option_groups in
    ap (λ z. pos_part (item.base_price_minor +ℤ z))
      (sum_deltas-lookup_all att ids (pos 0) ∙ zero_+ℤ (delta_total att ids))
    ∙ charged_lem (item.base_price_minor +ℤ delta_total att ids)

line_price_lem :
    (catalog : Catalog) (line : RequestedItem) (h : IsAcceptable catalog line)
    → unit_price h.item (resolve_line catalog line).options * line.quantity
      ≡ line_price catalog line
line_price_lem catalog line h = rw (acceptable_options catalog line h) (
    rw (h.listed, line_price) (ap (λ u. u * line.quantity) (unit_price_lem h.item line.option_ids)))

price_lines-sum :
    (catalog : Catalog) (lines : List RequestedItem) (ls : List PricedLine)
    → All (IsAcceptable catalog) lines
    → price_lines (map (resolve_line catalog) lines) ≡ some ls
    → sum_lines ls ≡ basket_price catalog lines
unfolding price_lines resolve_line
price_lines-sum catalog [] ls h e = ground arith
price_lines-sum catalog (l ∷ lines) ls h e =
    let (rest, p, same) =
      price_lines-cons (resolve_line catalog l) (map (resolve_line catalog) lines) h.0.item ls
        h.0.listed e in
    rw same (omega (arith, line_price_lem catalog l h.0, price_lines-sum catalog lines rest h.1 p))

-- The total of a priced basket is the sum over its lines of the quantity times the unit price,
-- which is the item's base price and the price deltas of all the options that the line names by the
-- catalog, or 0 if that sum is below 0; the subtotal is the same, and the VAT is extracted from it and at most the total.
pub price_order_charges :
    (lines : List RequestedItem) (catalog : Catalog) (vat : ℕ) (r : PricedOrder)
    → price_order lines catalog vat ≡ ok r
    → (r.total_minor ≡ basket_price catalog lines)
      × (r.subtotal_minor ≡ r.total_minor)
      × (r.vat_minor ≡ extract_vat (basket_price catalog lines) vat)
      × (r.vat_minor ≤ r.total_minor)
unfolding price_order
price_order_charges lines catalog vat r e =
    let (orderable, (ls, p, same)) = price_resolved-ok (map (resolve_line catalog) lines) vat r e in
    let sum = price_lines-sum catalog lines ls ((IsOrderable-map catalog lines).0 orderable) p in
    (rw (same, sum), rw same, rw (same, sum), rw same (extract_vat_nearest (sum_lines ls) vat).2)
