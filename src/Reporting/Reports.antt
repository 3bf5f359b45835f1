-- ===== src/Reporting/Reports.antt =====
-- src/reporting/reports/reports.service.ts: the totals of days and the Z-report. `current` is the
-- business day of now.
use cafe_pos.Reporting.Nightly.{roll_day-find}
use cafe_pos.Reporting.Groups.{join}
use cafe_pos.Reporting.Aggregate.{aggregate_day}
use cafe_pos.Payments.Stripe.{StripeApi}
use cafe_pos.Payments.Reconciliation.{reconcile, ReconciliationReport}
use cafe_pos.Schema.Store.{Db}
use cafe_pos.Reporting.Rollup.{DailySalesRollup, find_rollup, roll_day, fresh_row}
use cafe_pos.Reporting.Row.{RollupRow, build_rollup_row}
use cafe_pos.Schema.Rows.{Label}
use cafe_pos.Prelude.{
  [], ◌∷◌, true, false, some, none, ℕ, Bool, List, ltb, Option, map, select, ◌<◌, find?, any, not,
  ◌==◌, is_some, if◌then◌else◌, ◌&&◌, length, ◌≡◌, option_eq, ◌∙◌, arith, [], ap, refl,
}

abbrev pub max_live_days : ℕ
max_live_days = 31

pub data ReportError : Type 0 where
  -- the current business day
  range_after_current : Label → ReportError
  -- the days without a rollup
  too_many_live_days : ℕ → ReportError

pub data ReportResult (A : Type 0) : Type 0 where
  serves : A → ReportResult A
  declines_report : ReportError → ReportResult A

pub data ReconciliationUnavailable : Type 0 where
  day_still_trading gateway_unreachable_by_then database_unavailable : ReconciliationUnavailable

pub record ZReport : Type 0 where
  pub business_day : Label
  pub provisional : Bool
  pub row : RollupRow
  pub reconciliation : Option ReconciliationReport
  pub reconciliation_unavailable : Option ReconciliationUnavailable

-- `refuseIfAfterCurrent`.
abbrev pub is_after_current : Label → Label → Bool
is_after_current value current = ltb current value

-- A day's finalized rollup.
abbrev pub finalized_rollup : Label → List DailySalesRollup → Option DailySalesRollup
finalized_rollup day rollups =
    find? (λ r. r.row.business_day == day && is_some r.finalized_at) rollups

-- `unmatchedEventsForDay`: the events of the list that lead to an order of the day.
abbrev pub unmatched_for_day : Label → List Label → Db → List Label
unmatched_for_day day candidates db =
    map (λ r. r.0.0.provider_event_id)
      (select (λ r. any (λ c. c == r.0.0.provider_event_id) candidates && r.1.business_day == day)
        (join (λ r o. r.1.order_id == o.id)
          (join (λ e p. option_eq e.payment_id (some p.id)) db.events db.payments) db.orders))

module _ (locale_less : Label → Label → Bool) (db : Db) (rollups : List DailySalesRollup) where
  abbrev pub row_or_live : Label → Option DailySalesRollup → RollupRow
  row_or_live day none = build_rollup_row locale_less day (aggregate_day day db)
  row_or_live day (some r) = r.row

  abbrev pub day_total : Label → RollupRow
  day_total day = row_or_live day (finalized_rollup day rollups)

  -- `dayTotals`, for days in ascending order.
  unfoldable pub day_totals : List Label → ReportResult (List (Label × RollupRow))
  day_totals days =
      let missing = select (λ d. not (is_some (finalized_rollup d rollups))) days in
      if ltb max_live_days (length missing)
      then declines_report (too_many_live_days (length missing))
      else serves (map (λ d. (d, day_total d)) days)

  -- The gateway's half of the Z-report: `in_time` says whether the comparison came within the
  -- deadline, `scoped` whether the query for the day's events went through.
  abbrev pub scoped_report :
      Bool
      → Label
      → Option ReconciliationReport
      → Option ReconciliationReport × Option ReconciliationUnavailable
  scoped_report scoped day none = (none, some gateway_unreachable_by_then)
  scoped_report true day (some r) =
      (some (record r { unmatched_events = unmatched_for_day day r.unmatched_events db }), none)
  scoped_report false day (some r) = (none, some database_unavailable)

  abbrev pub compared :
      Bool
      → Bool
      → Label
      → Option ReconciliationReport
      → Option ReconciliationReport × Option ReconciliationUnavailable
  compared in_time scoped day report = scoped_report scoped day (if in_time then report else none)

  -- `zReport`.
  unfoldable pub z_report : StripeApi → Bool → Bool → Label → Label → ReportResult ZReport
  unfolding reconcile
  z_report api in_time scoped current day =
      let provisional = day == current in
      let (report, why) = compared in_time scoped day (reconcile api day db) in
      if is_after_current day current
      then declines_report (range_after_current current)
      else serves (record {
        business_day = day;
        provisional = provisional;
        row = day_total day;
        reconciliation = if provisional then none else report;
        reconciliation_unavailable = if provisional then some day_still_trading else why;
      })

find?-finalized :
    (day : Label) (rollups : List DailySalesRollup) (r : DailySalesRollup)
    → find_rollup day rollups ≡ some r
    → is_some r.finalized_at ≡ true
    → finalized_rollup day rollups ≡ some r
find?-finalized day [] r h k = cc
find?-finalized day (s ∷ rest) r h k = ground (arith, find?-finalized day rest r)

-- The totals of a closed day are the same read from the rollup that was just made as computed live
-- from the tables, whatever rollups there were.
pub day_total-roll_day :
    (locale_less : Label → Label → Bool) (current now day : ℕ) (db : Db)
    (rollups : List DailySalesRollup)
    → day < current
    → day_total locale_less db (roll_day locale_less current now db day rollups).1 day
      ≡ day_total locale_less db [] day
day_total-roll_day locale_less current now day db rollups closed =
    let fresh : DailySalesRollup = record {
      row = fresh_row locale_less current now db day;
      finalized_at = some now;
    } in
    let found : find_rollup day (roll_day locale_less current now db day rollups).1 ≡ some fresh =
      roll_day-find locale_less current now db day day rollups ∙ ground arith in
    ap (row_or_live locale_less db rollups day)
      (find?-finalized day (roll_day locale_less current now db day rollups).1 fresh found refl)
