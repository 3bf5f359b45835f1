-- ===== src/Reporting/Shape.antt =====
-- src/reporting/reports/shape-reports.ts: the average ticket and the leaderboard of a range.
use cafe_pos.Reporting.Groups.{stable_sort}
use cafe_pos.Reporting.Row.{RollupRow, ranks_before}
use cafe_pos.Reporting.Aggregate.{RollupItem}
use cafe_pos.Schema.Rows.{Label}
use cafe_pos.Prelude.{
  [], ◌∷◌, some, none, ℕ, List, Option, if◌then◌else◌, Bool, ◌==◌, leb, take, ◌*◌, ◌+◌, ◌/◌, map,
}

-- `Math.round` of a quotient: the nearest whole number, a half rounded up.
abbrev pub avg_ticket_minor : ℕ → ℕ → Option ℕ
avg_ticket_minor revenue settled =
    if settled == 0 then none else some ((2 * revenue + settled) / (2 * settled))

pub record SalesBucket : Type 0 where
  pub bucket : Label
  pub revenue_minor : ℕ
  pub orders_settled : ℕ
  pub avg_ticket_minor : Option ℕ

abbrev pub sales_bucket : Label → RollupRow → SalesBucket
sales_bucket bucket row = record {
  bucket = bucket;
  revenue_minor = row.revenue_minor;
  orders_settled = row.orders_settled;
  avg_ticket_minor = avg_ticket_minor row.revenue_minor row.orders_settled;
}

pub record DayItems : Type 0 where
  pub business_day : Label
  pub top_items : List RollupItem

-- An entry of the map `totals`, with the day its name is from.
pub record Running : Type 0 where
  pub item : RollupItem
  pub name_from : Label

abbrev pub run_on : Label → RollupItem → Running → Running
run_on day i r = record {
  item = record {
    menu_item_id = r.item.menu_item_id;
    name = if leb r.name_from day then i.name else r.item.name;
    quantity = r.item.quantity + i.quantity;
    revenue_minor = r.item.revenue_minor + i.revenue_minor;
  };
  name_from = if leb r.name_from day then day else r.name_from;
}

-- The body of the inner loop: a map keeps its keys in the order they came.
abbrev pub run_item : Label → RollupItem → List Running → List Running
run_item day i [] = record { item = i; name_from = day } ∷ []
run_item day i (r ∷ rs) =
    let rest = run_item day i rs in
    if r.item.menu_item_id == i.menu_item_id then run_on day i r ∷ rs else r ∷ rest

abbrev pub run_items : Label → List RollupItem → List Running → List Running
run_items day [] rs = rs
run_items day (i ∷ is) rs = run_items day is (run_item day i rs)

abbrev pub run_days : List DayItems → List Running → List Running
run_days [] rs = rs
run_days (d ∷ ds) rs = run_days ds (run_items d.business_day d.top_items rs)

unfoldable pub merge_top_items : (Label → Label → Bool) → List DayItems → ℕ → List RollupItem
merge_top_items locale_less days limit =
    take limit (stable_sort (ranks_before locale_less) (map (λ r. r.item) (run_days days [])))
