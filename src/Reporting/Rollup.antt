-- ===== src/Reporting/Rollup.antt =====
-- src/reporting/rollup/daily-rollup.service.ts: the nightly run. The correction of a finalized day is
-- only logged. `current` is the business day of now, `now` the time.
use cafe_pos.Reporting.Aggregate.{aggregate_day}
use cafe_pos.Orders.BusinessDay.{minus_days}
use cafe_pos.Prelude.Sorted.{sort}
use cafe_pos.Schema.Store.{Db}
use cafe_pos.Schema.Rows.{Label}
use cafe_pos.Reporting.Row.{RollupRow, build_rollup_row}
use cafe_pos.Prelude.{
  [], ◌∷◌, some, none, ℕ, List, Option, if◌then◌else◌, Bool, find?, ◌==◌, any, leb, ◌+◌, ◌&&◌, ltb,
  is_some, ◌||◌, map, not, select,
}

pub record DailySalesRollup : Type 0 where
  pub row : RollupRow
  pub finalized_at : Option ℕ

pub record RollupSummary : Type 0 where
  pub rolled : ℕ
  pub failed : ℕ

abbrev pub catch_up_days : ℕ
catch_up_days = 30

abbrev pub reroll_days : ℕ
reroll_days = 3

abbrev pub find_rollup : Label → List DailySalesRollup → Option DailySalesRollup
find_rollup day rollups = find? (λ r. r.row.business_day == day) rollups

-- `INSERT ... ON CONFLICT (business_day) DO UPDATE`.
abbrev pub upsert : DailySalesRollup → List DailySalesRollup → List DailySalesRollup
upsert r [] = r ∷ []
upsert r (s ∷ rest) =
    let later = upsert r rest in
    if s.row.business_day == r.row.business_day then r ∷ rest else s ∷ later

-- `SELECT DISTINCT`.
abbrev pub distinct : List Label → List Label
distinct [] = []
distinct (d ∷ ds) = let rest = distinct ds in if any (λ e. e == d) ds then rest else d ∷ rest

abbrev pub is_finalized : Label → List DailySalesRollup → Bool
is_finalized day rollups = any (λ r. r.row.business_day == day && is_some r.finalized_at) rollups

-- The `where` of `daysNeedingRoll`.
abbrev pub needs_roll : Label → List DailySalesRollup → Label → Bool
needs_roll target rollups day =
    leb (minus_days target catch_up_days) day
    && (ltb day target
        && (leb (minus_days target reroll_days) day || not (is_finalized day rollups)))

unfoldable pub days_needing_roll : Label → Db → List DailySalesRollup → List Label
days_needing_roll target db rollups = sort ltb (
    distinct (
      map (λ o. o.business_day) (select (λ o. needs_roll target rollups o.business_day) db.orders)))

module _ (locale_less : Label → Label → Bool) (current : Label) (now : ℕ) (db : Db) where
  abbrev pub fresh_row : Label → RollupRow
  fresh_row day = build_rollup_row locale_less day (aggregate_day day db)

  -- `rollDay`; nothing is its `BusinessDayNotClosedError`.
  unfoldable pub roll_day : Label → List DailySalesRollup → Option RollupRow × List DailySalesRollup
  roll_day day rollups = if leb current day then (none, rollups) else (
    some (fresh_row day),
    upsert (record { row = fresh_row day; finalized_at = some now }) rollups,
  )

  -- `rollDays`: a day that fails is counted and costs the others nothing.
  abbrev pub counted_day : Option RollupRow → RollupSummary → RollupSummary
  counted_day none s = record s { failed = s.failed + 1 }
  counted_day (some row) s = record s { rolled = s.rolled + 1 }

  unfoldable pub roll_days :
      List Label → RollupSummary → List DailySalesRollup → RollupSummary × List DailySalesRollup
  unfolding roll_day
  roll_days [] s rollups = (s, rollups)
  roll_days (day ∷ days) s rollups =
      let (row, rollups') = roll_day day rollups in roll_days days (counted_day row s) rollups'

  -- `rollUpYesterday`; `target` is the business day of 24 hours ago.
  unfoldable pub roll_up_yesterday :
      Label → List DailySalesRollup → RollupSummary × List DailySalesRollup
  unfolding roll_days days_needing_roll
  roll_up_yesterday target rollups =
      roll_days (target ∷ days_needing_roll target db rollups) (record { rolled = 0; failed = 0 })
        rollups
