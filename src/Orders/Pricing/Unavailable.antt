-- ===== src/Orders/Pricing/Unavailable.antt =====
-- The ids that `priceOrder` collects as unavailable, against what the lines name.
use cafe_pos.Prelude.{
  if◌then◌else◌, [], ◌∷◌, ◌++◌, true, false, some, none, Option, ◌≡◌, refl, List, Bool, arith,
  Bool-cases, Option-cases, inl, inr, ◌∙◌, sym, ap, any, not, ◌&&◌, ◌||◌, ◌==◌, ==_iff, map,
}
use cafe_pos.Schema.Rows.{Label}
use cafe_pos.Orders.Pricing.{
  CatalogItem, Catalog, RequestedItem, ResolvedLine, AttachedOption, attach_all, get_attached,
  contains, add_to_set, is_unavailable, unavailable_items, unavailable_in, unavailable_options,
  resolve_line, select_options, SelectState, select_option,
}
use cafe_pos.Orders.Pricing.Selection.{
  IsDistinct, lookup_all, contains-snoc, contains-eq, lookup_all-cons,
}

-- The sets in which the ids are collected.
contains-add_to_set :
    (j : Label) (xs : List Label) (i : Label)
    → contains (add_to_set j xs) i ≡ (contains xs i || j == i)
contains-add_to_set j xs i = elim (Bool-cases (contains xs j)) [
  | inl old ↦ ground (arith, contains-eq xs j i, ==_iff j i)
  | inr new ↦ ground (arith, contains-snoc xs j i)
]

IsDistinct-snoc :
    (xs : List Label) (j : Label)
    → IsDistinct xs
    → contains xs j ≡ false
    → IsDistinct (xs ++ (j ∷ []))
IsDistinct-snoc [] j d new = (refl, tt)
IsDistinct-snoc (x ∷ xs) j d new = (
  ground (arith, contains-snoc xs j x, ==_iff x j, ==_iff j x),
  IsDistinct-snoc xs j d.1 (ground arith),
)

IsDistinct-add_to_set : (j : Label) (xs : List Label) → IsDistinct xs → IsDistinct (add_to_set j xs)
IsDistinct-add_to_set j xs d = elim (Bool-cases (contains xs j)) [
  | inl old ↦ rw old d
  | inr new ↦ rw new (IsDistinct-snoc xs j d new)
]

-- The line names the item, and the catalog has no such item or has it as unavailable.
abbrev pub lacks_item : Catalog → Label → RequestedItem → Bool
lacks_item catalog i line =
    line.menu_item_id == i
    && (elim (catalog line.menu_item_id) [ none ↦ true | some item ↦ not item.is_available ])

-- The option is attached and unavailable.
abbrev pub is_withdrawn : List AttachedOption → Label → Bool
is_withdrawn att i = elim (get_attached i att) [ none ↦ false | some a ↦ not a.option.is_available ]

-- The line names the option, which its item has as unavailable.
abbrev pub lacks_option : Catalog → Label → RequestedItem → Bool
lacks_option catalog i line = elim (catalog line.menu_item_id) [
  | none ↦ false
  | some item ↦ contains line.option_ids i && is_withdrawn (attach_all item.option_groups) i
]

unavailable_lem :
    (o : Option CatalogItem)
    → is_unavailable o ≡ (elim o [ none ↦ true | some item ↦ not item.is_available ])
unavailable_lem none = refl
unavailable_lem (some item) = refl

contains-add_if :
    (b : Bool) (j : Label) (xs : List Label) (i : Label)
    → contains (if b then add_to_set j xs else xs) i ≡ (contains xs i || (j == i && b))
contains-add_if true j xs i = contains-add_to_set j xs i ∙ ground arith
contains-add_if false j xs i = ground arith

pub or_assoc : (a b c : Bool) → ((a || b) || c) ≡ (a || (b || c))
or_assoc a b c = ground arith

pub if_or : (b c : Bool) → (if b then true else c) ≡ (b || c)
if_or true c = refl
if_or false c = refl

pub unavailable_items-contains :
    (catalog : Catalog) (i : Label) (lines : List RequestedItem) (acc : List Label)
    → contains (unavailable_items acc (map (resolve_line catalog) lines)) i
      ≡ (contains acc i || any (lacks_item catalog i) lines)
unfolding unavailable_items resolve_line
unavailable_items-contains catalog i [] acc = ground arith
unavailable_items-contains catalog i (l ∷ ls) acc =
    let out = is_unavailable (catalog l.menu_item_id) in
    let rest = any (lacks_item catalog i) ls in
    unavailable_items-contains catalog i ls (if out then add_to_set l.menu_item_id acc else acc)
    ∙ (ap (λ b. b || rest) (contains-add_if out l.menu_item_id acc i)
        ∙ (or_assoc (contains acc i) (l.menu_item_id == i && out) rest
            ∙ (ap (λ b. contains acc i || ((l.menu_item_id == i && b) || rest))
                  (unavailable_lem (catalog l.menu_item_id))
                ∙ ap (λ b. contains acc i || b) (sym (if_or (lacks_item catalog i l) rest)))))

pub unavailable_items-IsDistinct :
    (acc : List Label) (rs : List ResolvedLine)
    → IsDistinct acc
    → IsDistinct (unavailable_items acc rs)
unfolding unavailable_items
unavailable_items-IsDistinct acc [] d = d
unavailable_items-IsDistinct acc (r ∷ rs) d = elim (Bool-cases (is_unavailable r.item)) [
  | inl out ↦ rw out (
      unavailable_items-IsDistinct (add_to_set r.line.menu_item_id acc) rs
        (IsDistinct-add_to_set r.line.menu_item_id acc d))
  | inr there ↦ rw there (unavailable_items-IsDistinct acc rs d)
]

pub unavailable_in-contains :
    (i : Label) (os : List AttachedOption) (acc : List Label)
    → contains (unavailable_in acc os) i
      ≡ (contains acc i || any (λ a. a.option.id == i && not a.option.is_available) os)
unavailable_in-contains i [] acc = ground arith
unavailable_in-contains i (a ∷ os) acc = elim (Bool-cases a.option.is_available) [
  | inl there ↦ rw there (unavailable_in-contains i os acc ∙ ground arith)
  | inr out ↦ rw out (
      unavailable_in-contains i os (add_to_set a.option.id acc)
      ∙ ground (arith, contains-add_to_set a.option.id acc i))
]

unavailable_in-IsDistinct :
    (os : List AttachedOption) (acc : List Label)
    → IsDistinct acc
    → IsDistinct (unavailable_in acc os)
unavailable_in-IsDistinct [] acc d = d
unavailable_in-IsDistinct (a ∷ os) acc d = elim (Bool-cases a.option.is_available) [
  | inl there ↦ rw there (unavailable_in-IsDistinct os acc d)
  | inr out ↦ rw out (
      unavailable_in-IsDistinct os (add_to_set a.option.id acc)
        (IsDistinct-add_to_set a.option.id acc d))
]

pub unavailable_options-IsDistinct :
    (acc : List Label) (rs : List ResolvedLine)
    → IsDistinct acc
    → IsDistinct (unavailable_options acc rs)
unfolding unavailable_options
unavailable_options-IsDistinct acc [] d = d
unavailable_options-IsDistinct acc (r ∷ rs) d =
    unavailable_options-IsDistinct (unavailable_in acc r.options) rs
      (unavailable_in-IsDistinct r.options acc d)

-- The options of a line whose ids are in order.
get_attached-id :
    (i : Label) (att : List AttachedOption) (a : AttachedOption)
    → get_attached i att ≡ some a
    → a.option.id ≡ i
get_attached-id i [] a e = cc
get_attached-id i (b ∷ bs) a e = ground (arith, get_attached-id i bs a, ==_iff b.option.id i)

and_false : (b : Bool) → (b && false) ≡ false
and_false b = ground arith

or_same : (out b : Bool) → ((true && out) || (b && out)) ≡ (true && out)
or_same out b = ground arith

withdrawn_cons :
    (att : List AttachedOption) (i j : Label) (is : List Label)
    → is_withdrawn att j ≡ false
    → (contains is i && is_withdrawn att i) ≡ (contains (j ∷ is) i && is_withdrawn att i)
withdrawn_cons att i j is missing = elim (Bool-cases (j == i)) [
  | inl same ↦
      let never : is_withdrawn att i ≡ false =
        ap (is_withdrawn att) (sym ((==_iff j i).0 same)) ∙ missing in
      ap (λ b. contains is i && b) never
      ∙ (and_false (contains is i)
          ∙ (sym (and_false (contains (j ∷ is) i))
              ∙ ap (λ b. contains (j ∷ is) i && b) (sym never)))
  | inr other ↦ ap (λ b. (if b then true else contains is i) && is_withdrawn att i) (sym other)
]

withdrawn_found :
    (att : List AttachedOption) (i j : Label) (is : List Label) (out : Bool)
    → is_withdrawn att j ≡ out
    → ((j == i && out) || (contains is i && is_withdrawn att i))
      ≡ (contains (j ∷ is) i && is_withdrawn att i)
withdrawn_found att i j is out found = elim (Bool-cases (j == i)) [
  | inl same ↦
      let here : is_withdrawn att i ≡ out =
        ap (is_withdrawn att) (sym ((==_iff j i).0 same)) ∙ found in
      ap (λ b. (j == i && out) || (contains is i && b)) here
      ∙ (ap (λ b. (b && out) || (contains is i && out)) same
          ∙ (or_same out (contains is i)
              ∙ (ap (λ b. (if b then true else contains is i) && out) (sym same)
                  ∙ ap (λ b. contains (j ∷ is) i && b) (sym here))))
  | inr other ↦
      ap (λ b. (b && out) || (contains is i && is_withdrawn att i)) other
      ∙ ap (λ b. (if b then true else contains is i) && is_withdrawn att i) (sym other)
]

pub lookup_all-withdrawn :
    (att : List AttachedOption) (i : Label) (ids : List Label)
    → any (λ a. a.option.id == i && not a.option.is_available) (lookup_all att ids)
      ≡ (contains ids i && is_withdrawn att i)
lookup_all-withdrawn att i [] = refl
lookup_all-withdrawn att i (j ∷ is) =
    let ih = lookup_all-withdrawn att i is in
    elim (Option-cases (get_attached j att)) [
      | inl e ↦
          let missing : is_withdrawn att j ≡ false = ground arith in
          let skipped : lookup_all att (j ∷ is) ≡ lookup_all att is = ground arith in
          ap (any (λ a. a.option.id == i && not a.option.is_available)) skipped
          ∙ (ih ∙ withdrawn_cons att i j is missing)
      | inr (a, e) ↦
          let found : is_withdrawn att j ≡ not a.option.is_available = ground arith in
          let same : (a.option.id == i) ≡ (j == i) = ap (λ k. k == i) (get_attached-id j att a e) in
          ap (any (λ b. b.option.id == i && not b.option.is_available))
            (lookup_all-cons att j is a e)
          ∙ (if_or (a.option.id == i && not a.option.is_available) _
              ∙ (ap (λ b. (a.option.id == i && not a.option.is_available) || b) ih
                  ∙ (ap
                        (λ b.
                          (b && not a.option.is_available) || (contains is i && is_withdrawn att i))
                        same
                      ∙ withdrawn_found att i j is (not a.option.is_available) found)))
    ]

pub select_options-unattached :
    (st : SelectState) (ids : List Label) → (select_options [] st ids).chosen ≡ st.chosen
unfolding select_options select_option
select_options-unattached st [] = refl
select_options-unattached st (i ∷ is) =
    select_options-unattached (select_option [] st i) is ∙ ground arith
