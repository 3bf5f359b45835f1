-- ===== src/Orders/BusinessDay.antt =====
-- src/orders/business-day.ts: `businessDayOf` and `minusDays`. What `Intl` reads off the clock on the
-- wall is an argument. `Date.UTC` with a day taken off is the day before in the calendar.
use cafe_pos.Prelude.{
  ℕ, Bool, ◌+◌, ◌-◌, ◌*◌, ◌/◌, ◌%◌, ◌==◌, ◌&&◌, ◌||◌, if◌then◌else◌, leb, not, zero, suc,
}
use cafe_pos.Schema.Rows.{Label}

pub record WallClock : Type 0 where
  pub year : ℕ
  pub month : ℕ
  pub day : ℕ
  pub hour : ℕ

pub record CivilDate : Type 0 where
  pub year : ℕ
  pub month : ℕ
  pub day : ℕ

abbrev pub is_leap : ℕ → Bool
is_leap year = year % 4 == 0 && (not (year % 100 == 0) || year % 400 == 0)

abbrev pub month_length : ℕ → ℕ → ℕ
month_length year month =
    if month == 2
    then (if is_leap year then 29 else 28)
    else if month == 4 || (month == 6 || (month == 9 || month == 11))
    then 30
    else 31

unfoldable pub previous_day : CivilDate → CivilDate
previous_day d =
    if leb 2 d.day
    then record d { day = d.day - 1 }
    else if leb 2 d.month
    then record { year = d.year; month = d.month - 1; day = month_length d.year (d.month - 1) }
    else record { year = d.year - 1; month = 12; day = 31 }

abbrev pub days_before : ℕ → CivilDate → CivilDate
unfolding previous_day
days_before zero d = d
days_before (suc n) d = days_before n (previous_day d)

-- `YYYY-MM-DD` as the number yyyymmdd, and back.
abbrev pub format_date : CivilDate → Label
format_date d = d.year * 10000 + d.month * 100 + d.day

abbrev pub parse_date : Label → CivilDate
parse_date s = record { year = s / 10000; month = s / 100 % 100; day = s % 100 }

unfoldable pub business_day_of : WallClock → ℕ → Label
unfolding previous_day
business_day_of clock start_hour =
    let today : CivilDate = record { year = clock.year; month = clock.month; day = clock.day } in
    if leb start_hour clock.hour then format_date today else format_date (previous_day today)

unfoldable pub minus_days : Label → ℕ → Label
minus_days day days = format_date (days_before days (parse_date day))
