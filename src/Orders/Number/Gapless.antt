-- ===== src/Orders/Number/Gapless.antt =====
-- The numbers that one day hands out, whatever other days do in between.
use cafe_pos.Prelude.{
  ℕ, zero, suc, ◌≡◌, refl, List, [], ◌∷◌, arith, ◌==◌, if◌then◌else◌, map, Bool-cases, inl, ==_iff,
  inr,
}
use cafe_pos.Schema.Rows.{Label, OrderNumberCounter}
use cafe_pos.Schema.Store.{Db}
use cafe_pos.Orders.Number.{bump_counter, counter_of, next_order_number, format_order_number}

counter_of-bump_counter :
    (day other : Label) (cs : List OrderNumberCounter)
    → counter_of other (bump_counter day cs)
      ≡ (if day == other then suc (counter_of other cs) else counter_of other cs)
unfolding counter_of bump_counter
counter_of-bump_counter day other [] = ground arith
counter_of-bump_counter day other (c ∷ cs) = ground (arith, counter_of-bump_counter day other cs)

-- The numbers handed to `day` while orders of the given days claim theirs, in order.
abbrev pub handed_to : Label → List Label → Db → List (List ℕ)
handed_to day [] db = []
handed_to day (d ∷ ds) db =
    let (number, db') = next_order_number d db in
    let rest = handed_to day ds db' in if d == day then number ∷ rest else rest

-- How many of the claims are the day's.
abbrev pub claims : Label → List Label → ℕ
claims day [] = 0
claims day (d ∷ ds) = let rest = claims day ds in if d == day then suc rest else rest

-- n + 1, n + 2, ..., k of them.
abbrev pub range_from : ℕ → ℕ → List ℕ
range_from n zero = []
range_from n (suc k) = suc n ∷ range_from (suc n) k

-- Each day numbers its orders one after the other from its counter on, with no gap and no
-- repetition, however the claims of several days are interleaved.
pub numbers_gapless :
    (day : Label) (days : List Label) (db : Db)
    → handed_to day days db
      ≡ map format_order_number (range_from (counter_of day db.counters) (claims day days))
unfolding next_order_number
numbers_gapless day [] db = refl
numbers_gapless day (d ∷ ds) db =
    let ih = numbers_gapless day ds (next_order_number d db).1 in
    elim (Bool-cases (d == day)) [
      | inl e ↦
          let same : d ≡ day = (==_iff d day).0 e in
          rw (e, ih, counter_of-bump_counter d day db.counters)
            (rw (e, same, counter_of-bump_counter day day db.counters) (ground arith))
      | inr e ↦ rw (e, ih, counter_of-bump_counter d day db.counters) (rw e)
    ]
