-- ===== src/Reporting/Leaderboard.antt =====
-- The leaderboard of a range against the lists of its days.
use cafe_pos.Prelude.Sorted.{All-map}
use cafe_pos.Reporting.Row.{ranks_before}
use cafe_pos.Reporting.Groups.{
  stable_sort, stable_insert, any-stable_sort, any-stable_insert, take-All, stable_sort-All,
}
use cafe_pos.Reporting.Shape.{
  Running, DayItems, run_item, run_on, run_items, run_days, merge_top_items,
}
use cafe_pos.Schema.Rows.{Label}
use cafe_pos.Reporting.Aggregate.{RollupItem}
use cafe_pos.Prelude.{
  [], ◌∷◌, true, false, List, ℕ, Bool, ◌≡◌, sum_where, any, map, ◌==◌, ◌+◌, Bool-cases, arith, ◌||◌,
  inl, inr, ◌∙◌, refl, if◌then◌else◌, All, ◌⊎◌, take, ap, suc, sym, zero, ==_iff,
}

-- What a menu item sold, over entries of a list.
abbrev pub sold_in : (RollupItem → ℕ) → Label → List RollupItem → ℕ
sold_in value id is = sum_where (λ i. i.menu_item_id == id) value is

abbrev pub sold_on : (RollupItem → ℕ) → Label → List DayItems → ℕ
sold_on value id [] = 0
sold_on value id (d ∷ ds) = sold_in value id d.top_items + sold_on value id ds

-- Whether the map has an entry for an item.
abbrev pub has_entry : Label → List RollupItem → Bool
has_entry id is = any (λ i. i.menu_item_id == id) is

-- Each item has one entry at most.
abbrev pub AreMerged : List RollupItem → Type 0
AreMerged [] = Unit
AreMerged (i ∷ is) = (has_entry i.menu_item_id is ≡ false) × AreMerged is

abbrev items_of : List Running → List RollupItem
items_of rs = map (λ r. r.item) rs

-- Values that the loop adds up: the quantity and the revenue.
abbrev AddsUp : (RollupItem → ℕ) → Type 0
AddsUp value =
    (day : Label) (i : RollupItem) (r : Running)
    → value (run_on day i r).item ≡ value r.item + value i

run_item-sold_in :
    (value : RollupItem → ℕ) (day id : Label) (i : RollupItem) (rs : List Running)
    → AddsUp value
    → sold_in value id (items_of (run_item day i rs))
      ≡ (if i.menu_item_id == id then value i else 0) + sold_in value id (items_of rs)
run_item-sold_in value day id i [] adds = omega arith
run_item-sold_in value day id i (r ∷ rs) adds =
    ground (arith, adds day i r, run_item-sold_in value day id i rs adds)

run_items-sold_in :
    (value : RollupItem → ℕ) (day id : Label) (is : List RollupItem) (rs : List Running)
    → AddsUp value
    → sold_in value id (items_of (run_items day is rs))
      ≡ sold_in value id is + sold_in value id (items_of rs)
run_items-sold_in value day id [] rs adds = omega arith
run_items-sold_in value day id (i ∷ is) rs adds = omega (
  arith,
  run_items-sold_in value day id is (run_item day i rs) adds,
  run_item-sold_in value day id i rs adds,
)

run_days-sold_on :
    (value : RollupItem → ℕ) (id : Label) (ds : List DayItems) (rs : List Running)
    → AddsUp value
    → sold_in value id (items_of (run_days ds rs))
      ≡ sold_on value id ds + sold_in value id (items_of rs)
run_days-sold_on value id [] rs adds = omega arith
run_days-sold_on value id (d ∷ ds) rs adds = omega (
  arith,
  run_days-sold_on value id ds (run_items d.business_day d.top_items rs) adds,
  run_items-sold_in value d.business_day id d.top_items rs adds,
)

run_item-has_entry :
    (day id : Label) (i : RollupItem) (rs : List Running)
    → has_entry id (items_of (run_item day i rs))
      ≡ (i.menu_item_id == id || has_entry id (items_of rs))
run_item-has_entry day id i [] = ground arith
run_item-has_entry day id i (r ∷ rs) = ground (arith, run_item-has_entry day id i rs)

run_item-AreMerged :
    (day : Label) (i : RollupItem) (rs : List Running)
    → AreMerged (items_of rs)
    → AreMerged (items_of (run_item day i rs))
run_item-AreMerged day i [] h = (refl, tt)
run_item-AreMerged day i (r ∷ rs) (new, h) =
    elim (Bool-cases (r.item.menu_item_id == i.menu_item_id)) [
      | inl same ↦ rw same (new, h)
      | inr other ↦ rw other (
        run_item-has_entry day r.item.menu_item_id i rs ∙ ground arith,
        run_item-AreMerged day i rs h,
      )
    ]

run_items-AreMerged :
    (day : Label) (is : List RollupItem) (rs : List Running)
    → AreMerged (items_of rs)
    → AreMerged (items_of (run_items day is rs))
run_items-AreMerged day [] rs h = h
run_items-AreMerged day (i ∷ is) rs h =
    run_items-AreMerged day is (run_item day i rs) (run_item-AreMerged day i rs h)

run_days-AreMerged :
    (ds : List DayItems) (rs : List Running)
    → AreMerged (items_of rs)
    → AreMerged (items_of (run_days ds rs))
run_days-AreMerged [] rs h = h
run_days-AreMerged (d ∷ ds) rs h =
    run_days-AreMerged ds (run_items d.business_day d.top_items rs)
      (run_items-AreMerged d.business_day d.top_items rs h)

absent-sold_in :
    (value : RollupItem → ℕ) (id : Label) (is : List RollupItem)
    → has_entry id is ≡ false
    → sold_in value id is ≡ 0
absent-sold_in value id [] h = refl
absent-sold_in value id (i ∷ is) h = ground (arith, absent-sold_in value id is)

-- In a merged list an entry holds all that its item sold.
merged-All :
    (value : RollupItem → ℕ) (all : List RollupItem) (is : List RollupItem)
    → ((id : Label) → has_entry id is ≡ true → sold_in value id all ≡ sold_in value id is)
    → AreMerged is
    → All (λ g. value g ≡ sold_in value g.menu_item_id all) is
merged-All value all [] same h = tt
merged-All value all (i ∷ is) same (new, h) =
    let self : (i.menu_item_id == i.menu_item_id) ≡ true = ground arith in
    let here : has_entry i.menu_item_id (i ∷ is) ≡ true = rw self refl in
    (
      ground (arith, same i.menu_item_id here, absent-sold_in value i.menu_item_id is new),
      merged-All value all is (λ id k. later id k (Bool-cases (i.menu_item_id == id))) h,
    )
  where
    later :
        (id : Label)
        → has_entry id is ≡ true
        → ((i.menu_item_id == id) ≡ true) ⊎ ((i.menu_item_id == id) ≡ false)
        → sold_in value id all ≡ sold_in value id is
    later id k (inl e) =
        let clash = ap (λ j. has_entry j is) (sym ((==_iff i.menu_item_id id).0 e)) ∙ new in cc
    later id k (inr e) = same id (rw e k) ∙ rw e (omega arith)

insert-AreMerged :
    (lt : RollupItem → RollupItem → Bool) (x : RollupItem) (ys : List RollupItem)
    → has_entry x.menu_item_id ys ≡ false
    → AreMerged ys
    → AreMerged (stable_insert lt x ys)
insert-AreMerged lt x [] new h = (refl, tt)
insert-AreMerged lt x (y ∷ ys) new (k, h) = elim (Bool-cases (lt y x)) [
  | inl e ↦ rw e (
    any-stable_insert lt (λ j. j.menu_item_id == y.menu_item_id) x ys ∙ ground arith,
    insert-AreMerged lt x ys (ground arith) h,
  )
  | inr e ↦ rw e (new, (k, h))
]

sort-AreMerged :
    (lt : RollupItem → RollupItem → Bool) (is : List RollupItem)
    → AreMerged is
    → AreMerged (stable_sort lt is)
sort-AreMerged lt [] h = tt
sort-AreMerged lt (i ∷ is) (new, h) =
    insert-AreMerged lt i (stable_sort lt is)
      (any-stable_sort lt (λ j. j.menu_item_id == i.menu_item_id) is ∙ new) (sort-AreMerged lt is h)

take-has_entry :
    (id : Label) (n : ℕ) (is : List RollupItem)
    → has_entry id is ≡ false
    → has_entry id (take n is) ≡ false
take-has_entry id zero is h = refl
take-has_entry id (suc n) [] h = refl
take-has_entry id (suc n) (i ∷ is) h = ground (arith, take-has_entry id n is)

take-AreMerged : (n : ℕ) (is : List RollupItem) → AreMerged is → AreMerged (take n is)
take-AreMerged zero is h = tt
take-AreMerged (suc n) [] h = tt
take-AreMerged (suc n) (i ∷ is) (new, h) =
    (take-has_entry i.menu_item_id n is new, take-AreMerged n is h)

-- The leaderboard of a range names no item twice, and the quantity and the revenue of each entry are
-- all that its item sold on the days of the range, renamed between them or not.
pub merge_top_items_adds :
    (locale_less : Label → Label → Bool) (days : List DayItems) (limit : ℕ)
    → let board = merge_top_items locale_less days limit in
      AreMerged board
      × All (λ g. g.quantity ≡ sold_on (λ i. i.quantity) g.menu_item_id days) board
      × All (λ g. g.revenue_minor ≡ sold_on (λ i. i.revenue_minor) g.menu_item_id days) board
unfolding merge_top_items
merge_top_items_adds locale_less days limit =
    let lt = ranks_before locale_less in
    let merged = items_of (run_days days []) in
    let once = run_days-AreMerged days [] tt in
    (
      take-AreMerged limit (stable_sort lt merged) (sort-AreMerged lt merged once),
      entries (λ i. i.quantity) (λ day i r. refl),
      entries (λ i. i.revenue_minor) (λ day i r. refl),
    )
  where
    entries :
        (value : RollupItem → ℕ)
        → AddsUp value
        → All
            (λ g. value g ≡ sold_on value g.menu_item_id days)
            (take limit (stable_sort (ranks_before locale_less) (items_of (run_days days []))))
    entries value adds =
        let lt = ranks_before locale_less in
        let merged = items_of (run_days days []) in
        take-All _ limit (stable_sort lt merged) (
          stable_sort-All lt _ merged (
            All-map _ _ merged
              (λ g e. e ∙ (run_days-sold_on value g.menu_item_id days [] adds ∙ omega arith))
              (merged-All value merged merged (λ id k. refl) (run_days-AreMerged days [] tt))))
