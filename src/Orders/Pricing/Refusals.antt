-- ===== src/Orders/Pricing/Refusals.antt =====
-- What `priceOrder` refuses a basket for, against a description of what is unavailable in it.
use cafe_pos.Prelude.{
  [], ◌∷◌, ◌++◌, true, some, none, Option, ℕ, ◌≡◌, ◌≢◌, ◌⊎◌, refl, List, Bool, arith, Option-cases,
  inl, inr, ◌∙◌, sym, ap, All, any, not, ◌&&◌, ◌||◌, ◌==◌, map, suc, ◌↔◌,
}
use cafe_pos.Schema.Rows.{Label}
use cafe_pos.Tx.{
  AppError, err, option_selection_invalid, order_item_unavailable, OptionSelectionViolation,
}
use cafe_pos.Orders.Pricing.{
  CatalogItem, Catalog, RequestedItem, ResolvedLine, attach_all, attached_to, contains,
  unavailable_items, unavailable_in, unavailable_options, all_violations, validate_selections,
  price_order, resolve_line, select_options, select_start, bound_violations, groups_of,
}
use cafe_pos.Orders.Pricing.Selection.{
  is_clean, IsDistinct, AreAttached, lookup_all, select_options_sound, IsFresh-IsDistinct,
  select_options_complete, IsDistinct-IsFresh,
}
use cafe_pos.Orders.Pricing.Checks.{
  IsWithin, validate_selections_nil, nil_of_append, bound_violations_sound, id_violations_nil,
  bound_violations_complete,
}
use cafe_pos.Orders.Pricing.Acceptance.{refusal_cases}
use cafe_pos.Orders.Pricing.Unavailable.{
  lacks_item, lacks_option, or_assoc, if_or, unavailable_items-contains,
  unavailable_items-IsDistinct, unavailable_in-contains, unavailable_options-IsDistinct,
  lookup_all-withdrawn, select_options-unattached,
}

-- The ids of a line are distinct and attached to its item, and every group has as many as it
-- allows; a line without an item breaks no rule.
abbrev pub IsSelectable : Catalog → RequestedItem → Type 0
IsSelectable catalog line =
    (item : CatalogItem)
    → catalog line.menu_item_id ≡ some item
    → IsDistinct line.option_ids
      × AreAttached (attach_all item.option_groups) line.option_ids
      × All (IsWithin (lookup_all (attach_all item.option_groups) line.option_ids))
          item.option_groups

line_options :
    (catalog : Catalog) (line : RequestedItem) (i : Label)
    → IsSelectable catalog line
    → any (λ a. a.option.id == i && not a.option.is_available) (resolve_line catalog line).options
      ≡ lacks_option catalog i line
unfolding resolve_line
line_options catalog line i h = elim (Option-cases (catalog line.menu_item_id)) [
  | inl e ↦
      let bare : (select_options (attached_to (catalog line.menu_item_id)) select_start
            line.option_ids).chosen
          ≡ [] =
        ap (λ o. (select_options (attached_to o) select_start line.option_ids).chosen) e
        ∙ select_options-unattached select_start line.option_ids in
      rw (e, lacks_option)
        (ap (any (λ a. a.option.id == i && not a.option.is_available)) (rw e at bare))
  | inr (item, e) ↦
      let att = attach_all item.option_groups in
      let (distinct, attached, within) = h item e in
      let clean =
        select_options_complete att select_start line.option_ids refl
          (IsDistinct-IsFresh line.option_ids distinct) attached in
      let chosen = (select_options_sound att select_start line.option_ids clean).2 in
      rw (e, lacks_option)
        (ap (any (λ a. a.option.id == i && not a.option.is_available)) chosen
          ∙ lookup_all-withdrawn att i line.option_ids)
]

unavailable_options-contains :
    (catalog : Catalog) (i : Label) (lines : List RequestedItem) (acc : List Label)
    → All (IsSelectable catalog) lines
    → contains (unavailable_options acc (map (resolve_line catalog) lines)) i
      ≡ (contains acc i || any (lacks_option catalog i) lines)
unfolding unavailable_options
unavailable_options-contains catalog i [] acc h = ground arith
unavailable_options-contains catalog i (l ∷ ls) acc h =
    let os = (resolve_line catalog l).options in
    let rest = any (lacks_option catalog i) ls in
    unavailable_options-contains catalog i ls (unavailable_in acc os) h.1
    ∙ (ap (λ b. b || rest) (unavailable_in-contains i os acc)
        ∙ (or_assoc (contains acc i) _ rest
            ∙ (ap (λ b. contains acc i || (b || rest)) (line_options catalog l i h.0)
                ∙ ap (λ b. contains acc i || b) (sym (if_or (lacks_option catalog i l) rest)))))

abbrev line_violations : Option CatalogItem → ℕ → ResolvedLine → List OptionSelectionViolation
line_violations none index r = []
line_violations (some item) index r = validate_selections r index

line_violations-IsSelectable :
    (catalog : Catalog) (line : RequestedItem) (index : ℕ)
    → line_violations (catalog line.menu_item_id) index (resolve_line catalog line) ≡ []
    → IsSelectable catalog line
unfolding resolve_line
line_violations-IsSelectable catalog line index h item e =
    let r = resolve_line catalog line in
    let att = attach_all item.option_groups in
    let none_broken : validate_selections r index ≡ [] =
      ap (λ o. line_violations o index r) (sym e) ∙ h in
    let (clean, bounds) = validate_selections_nil r index none_broken in
    let (fresh, attached, chosen) =
      select_options_sound (attached_to (catalog line.menu_item_id)) select_start line.option_ids
        clean in
    let picked : r.options ≡ lookup_all att line.option_ids =
      chosen ∙ ap (λ o. lookup_all (attached_to o) line.option_ids) e in
    (
      IsFresh-IsDistinct [] line.option_ids fresh,
      rw e at attached,
      rw picked at (
          bound_violations_sound index r.options item.option_groups
            (ap (λ o. bound_violations index r.options (groups_of o)) (sym e) ∙ bounds)),
    )

selection_validates :
    (index : ℕ) (r : ResolvedLine)
    → is_clean r.duplicate_option_ids r.unknown_option_ids ≡ true
    → bound_violations index r.options (groups_of r.item) ≡ []
    → validate_selections r index ≡ []
unfolding validate_selections
selection_validates index r clean bounds =
    rw ((id_violations_nil r index).1 clean, validate_selections) bounds

violations_split :
    (o : Option CatalogItem) (index : ℕ) (r : ResolvedLine)
    → line_violations o index r ≡ (elim o [ none ↦ [] | some item ↦ validate_selections r index ])
violations_split none index r = refl
violations_split (some item) index r = refl

selectable_validates :
    (catalog : Catalog) (line : RequestedItem) (index : ℕ)
    → IsSelectable catalog line
    → line_violations (catalog line.menu_item_id) index (resolve_line catalog line) ≡ []
unfolding resolve_line validate_selections
selectable_validates catalog line index h = elim (Option-cases (catalog line.menu_item_id)) [
  | inl e ↦ ap (λ o. line_violations o index (resolve_line catalog line)) e
  | inr (item, e) ↦
      let r = resolve_line catalog line in
      let att = attach_all item.option_groups in
      let (distinct, attached, within) = h item e in
      let same : attached_to (catalog line.menu_item_id) ≡ att = ap attached_to e in
      let clean =
        select_options_complete (attached_to (catalog line.menu_item_id)) select_start
          line.option_ids refl (IsDistinct-IsFresh line.option_ids distinct) (rw same attached) in
      let picked : r.options ≡ lookup_all att line.option_ids =
        (select_options_sound (attached_to (catalog line.menu_item_id)) select_start line.option_ids
          clean).2
        ∙ ap (λ o. lookup_all (attached_to o) line.option_ids) e in
      let bounds : bound_violations index r.options (groups_of (catalog line.menu_item_id)) ≡ [] =
        ap (λ o. bound_violations index r.options (groups_of o)) e
        ∙ bound_violations_complete index r.options item.option_groups (rw picked within) in
      ap (λ o. line_violations o index r) e ∙ selection_validates index r clean bounds
]

all_violations_iff :
    (catalog : Catalog) (lines : List RequestedItem) (index : ℕ)
    → (all_violations index (map (resolve_line catalog) lines) ≡ [])
      ↔ All (IsSelectable catalog) lines
unfolding all_violations resolve_line
all_violations_iff catalog [] index = (λ _. tt, λ _. refl)
all_violations_iff catalog (l ∷ ls) index =
    let r = resolve_line catalog l in
    let rest = all_violations (suc index) (map (resolve_line catalog) ls) in
    let others = all_violations_iff catalog ls (suc index) in
    let split = violations_split (catalog l.menu_item_id) index r in
    (
      λ h.
          let (mine, theirs) =
            nil_of_append (line_violations (catalog l.menu_item_id) index r) rest
              (ap (λ vs. vs ++ rest) split ∙ h) in
          (line_violations-IsSelectable catalog l index mine, others.0 theirs),
      λ h.
          ap (λ vs. vs ++ rest) (sym split)
          ∙ (ap (λ vs. vs ++ rest) (selectable_validates catalog l index h.0) ∙ others.1 h.1),
    )

-- The set holds exactly the ids that some line names as unavailable, each of them once.
abbrev pub NamesExactly : (Label → RequestedItem → Bool) → List RequestedItem → List Label → Type 0
NamesExactly lacks lines ids = IsDistinct ids × ((i : Label) → contains ids i ≡ any (lacks i) lines)

-- If a basket is refused, it is for its selections, with at least one violation, if not every line
-- keeps the rules of its item. If every line does, it is refused with the ids of all items that are
-- missing from the catalog or unavailable, and of all options that its lines name and that are
-- unavailable, each once, and with no other id. Pricing never meets an item that is null.
pub price_order_refusals :
    (lines : List RequestedItem) (catalog : Catalog) (vat : ℕ) (e : AppError)
    → price_order lines catalog vat ≡ err e
    → ((violations : List OptionSelectionViolation) × (e ≡ option_selection_invalid violations)
        × (violations ≢ [])
        × ¬ All (IsSelectable catalog) lines)
      ⊎ ((items : List Label) × (options : List Label) × (e ≡ order_item_unavailable items options)
          × All (IsSelectable catalog) lines
          × NamesExactly (lacks_item catalog) lines items
          × NamesExactly (lacks_option catalog) lines options)
unfolding price_order
price_order_refusals lines catalog vat e h =
    let rs = map (resolve_line catalog) lines in
    let selectable_of = all_violations_iff catalog lines 0 in
    elim (refusal_cases rs vat e h) [
      | inl (same, broken) ↦
          inl (all_violations 0 rs, same, broken, λ selectable. broken (selectable_of.1 selectable))
      | inr (same, unbroken) ↦
          let selectable = selectable_of.0 unbroken in
          inr (
            unavailable_items [] rs,
            unavailable_options [] rs,
            same,
            selectable,
            (
              unavailable_items-IsDistinct [] rs tt,
              λ i. unavailable_items-contains catalog i lines [],
            ),
            (
              unavailable_options-IsDistinct [] rs tt,
              λ i. unavailable_options-contains catalog i lines [] selectable,
            ),
          )
    ]
