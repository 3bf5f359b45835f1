-- ===== src/Orders/Number.antt =====
-- src/orders/order-number.ts: the queue number of an order, claimed from its day's counter.
pub mod Decimal
pub mod Gapless
use cafe_pos.Prelude.{
  ℕ, zero, suc, ◌+◌, ◌-◌, ◌/◌, ◌%◌, List, [], ◌∷◌, ◌++◌, ltb, ◌==◌, if◌then◌else◌, length,
}
use cafe_pos.Schema.Rows.{Label, OrderNumberCounter}
use cafe_pos.Schema.Store.{Db}

abbrev queue_digits : ℕ
queue_digits = 3

abbrev pub replicate : ℕ → ℕ → List ℕ
replicate zero c = []
replicate (suc n) c = c ∷ replicate n c

-- `String(n)`, with fuel above n.
unfoldable pub decimal_from : ℕ → ℕ → List ℕ
decimal_from zero n = []
decimal_from (suc fuel) n =
    let rest = decimal_from fuel (n / 10) ++ ((b'0' + n % 10) ∷ []) in
    if ltb n 10 then (b'0' + n) ∷ [] else rest

unfoldable pub decimal : ℕ → List ℕ
decimal n = decimal_from (suc n) n

-- `padStart(width, '0')`.
abbrev pad_start : ℕ → List ℕ → List ℕ
pad_start width s = replicate (width - length s) b'0' ++ s

unfoldable pub format_order_number : ℕ → List ℕ
format_order_number sequence = b'A' ∷ b'-' ∷ pad_start queue_digits (decimal sequence)

-- The upsert: a first row with 1, or the row's value plus 1.
unfoldable pub bump_counter : Label → List OrderNumberCounter → List OrderNumberCounter
bump_counter day [] = record { business_day = day; last_value = 1 } ∷ []
bump_counter day (c ∷ cs) =
    if c.business_day == day
    then record c { last_value = c.last_value + 1 } ∷ cs
    else c ∷ bump_counter day cs

-- `RETURNING last_value`; 0 where no row is.
unfoldable pub counter_of : Label → List OrderNumberCounter → ℕ
counter_of day [] = 0
counter_of day (c ∷ cs) = if c.business_day == day then c.last_value else counter_of day cs

unfoldable pub next_order_number : Label → Db → List ℕ × Db
next_order_number day db =
    let counters = bump_counter day db.counters in
    (format_order_number (counter_of day counters), record db { counters = counters })
