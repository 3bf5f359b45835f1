-- ===== src/Orders/BusinessHours.antt =====
-- src/orders/business-hours.ts: whether the cafe is open. The minute that `Intl` reads off the clock
-- on the wall is an argument; a text is the list of its characters' codes.
use cafe_pos.Prelude.{
  [], ◌∷◌, some, none, ℕ, List, Bool, Option, if◌then◌else◌, ◌<◌, leb, ◌&&◌, ◌==◌, ltb, ◌≢◌, ◌+◌,
  ◌||◌, ◌-◌, ◌≡◌, ◌*◌, arith,
}

abbrev pub is_digit_below : ℕ → ℕ → Bool
is_digit_below bound c = leb 48 c && ltb c (48 + bound)

-- `CLOCK_TIME` and the two numbers it captures.
abbrev pub is_clock_time : ℕ → ℕ → ℕ → ℕ → Bool
is_clock_time h1 h2 m1 m2 =
    ((is_digit_below 2 h1 && is_digit_below 10 h2) || (h1 == 50 && is_digit_below 4 h2))
    && (is_digit_below 6 m1 && is_digit_below 10 m2)

-- `minutesOf`; nothing is its throw.
abbrev pub minutes_of : List ℕ → Option ℕ
minutes_of (h1 ∷ h2 ∷ colon ∷ m1 ∷ m2 ∷ []) =
    if colon == 58 && is_clock_time h1 h2 m1 m2
    then some (((h1 - 48) * 10 + (h2 - 48)) * 60 + ((m1 - 48) * 10 + (m2 - 48)))
    else none
minutes_of _ = none

abbrev pub is_between : ℕ → ℕ → ℕ → Bool
is_between now open_at close_at =
    if ltb open_at close_at
    then leb open_at now && ltb now close_at
    else leb open_at now || ltb now close_at

-- `isOpenAt`; nothing is a throw.
abbrev pub open_between : ℕ → Option ℕ → Option ℕ → Option Bool
open_between now none close_at = none
open_between now (some open_at) none = none
open_between now (some open_at) (some close_at) = some (is_between now open_at close_at)

unfoldable pub is_open_at : ℕ → List ℕ → List ℕ → Option Bool
is_open_at now opens closes = open_between now (minutes_of opens) (minutes_of closes)

-- The minutes from one time of day to the next occurrence of another.
abbrev pub minutes_until : ℕ → ℕ → ℕ
minutes_until from to = if leb from to then to - from else to + 1440 - from

-- With two different times the cafe is open exactly while less time has passed since it opened than
-- there is from opening to closing, past midnight or not.
pub is_between-minutes_until :
    (now open_at close_at : ℕ)
    → now < 1440
    → open_at < 1440
    → close_at < 1440
    → open_at ≢ close_at
    → is_between now open_at close_at
      ≡ ltb (minutes_until open_at now) (minutes_until open_at close_at)
is_between-minutes_until now open_at close_at h k l distinct = ground arith
