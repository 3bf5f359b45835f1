-- ===== src/Reporting/Nightly.antt =====
-- What the nightly run leaves in the table, day by day.
use cafe_pos.Orders.BusinessDay.{minus_days}
use cafe_pos.Reporting.Row.{build_rollup_row}
use cafe_pos.Schema.Store.{Db}
use cafe_pos.Prelude.Sorted.{insert, sort}
use cafe_pos.Reporting.Rollup.{
  DailySalesRollup, find_rollup, upsert, distinct, fresh_row, roll_day, roll_days, RollupSummary,
  counted_day, roll_up_yesterday, days_needing_roll, needs_roll,
}
use cafe_pos.Schema.Rows.{Label, Order}
use cafe_pos.Prelude.{
  [], ◌∷◌, true, false, some, Bool, List, any, ◌==◌, ltb, map, ◌≡◌, ◌||◌, ◌∙◌, Bool-cases, select,
  if◌then◌else◌, arith, ◌&&◌, inl, inr, refl, ap, ℕ, sym, ==_iff, leb, Option, not, is_some,
}

any-insert :
    (p : Label → Bool) (x : Label) (ys : List Label) → any p (insert ltb x ys) ≡ (p x || any p ys)
any-insert p x [] = ground arith
any-insert p x (y ∷ ys) = ground (arith, any-insert p x ys)

any-sort : (p : Label → Bool) (xs : List Label) → any p (sort ltb xs) ≡ any p xs
any-sort p [] = refl
any-sort p (x ∷ xs) = any-insert p x (sort ltb xs) ∙ ground (arith, any-sort p xs)

any-distinct :
    (d : Label) (ds : List Label) → any (λ e. e == d) (distinct ds) ≡ any (λ e. e == d) ds
any-distinct d [] = refl
any-distinct d (e ∷ ds) = elim (Bool-cases (any (λ f. f == e) ds)) [
  | inl old ↦ elim (Bool-cases (e == d)) [
    | inl same ↦
        let again = ap (λ k. any (λ f. f == k) ds) (sym ((==_iff e d).0 same)) ∙ old in
        rw (old, same) (any-distinct d ds ∙ again)
    | inr other ↦ rw (old, other) (any-distinct d ds)
  ]
  | inr new ↦ rw new (ground (arith, any-distinct d ds))
]

any-day :
    (needs : Label → Bool) (d : Label) (os : List Order)
    → any (λ e. e == d) (map (λ o. o.business_day) (select (λ o. needs o.business_day) os))
      ≡ any (λ o. o.business_day == d && needs o.business_day) os
any-day needs d [] = refl
any-day needs d (o ∷ os) = ground (arith, any-day needs d os)

find-upsert :
    (d : Label) (r : DailySalesRollup) (rs : List DailySalesRollup)
    → find_rollup d (upsert r rs) ≡ (if r.row.business_day == d then some r else find_rollup d rs)
find-upsert d r [] = ground arith
find-upsert d r (s ∷ rs) = ground (arith, find-upsert d r rs)

either_of : (n t x : Bool) → x ≡ (t && n) → (if n then true else x) ≡ n
either_of true t x e = refl
either_of false true x e = e
either_of false false x e = e

any-both :
    (needs : Label → Bool) (d : Label) (os : List Order)
    → any (λ o. o.business_day == d && needs o.business_day) os
      ≡ (any (λ o. o.business_day == d) os && needs d)
any-both needs d [] = refl
any-both needs d (o ∷ os) = elim (Bool-cases (o.business_day == d)) [
  | inl same ↦
      let there : needs o.business_day ≡ needs d = ap needs ((==_iff o.business_day d).0 same) in
      rw (same, there)
        (either_of (needs d) (any (λ p. p.business_day == d) os)
          (any (λ p. p.business_day == d && needs p.business_day) os) (any-both needs d os))
  | inr other ↦ rw other (any-both needs d os)
]

if_or : (b c : Bool) → (if b then true else c) ≡ (b || c)
if_or true c = refl
if_or false c = refl

if_either :
    {A : Type 0} (b c t : Bool) (x y : A)
    → (if c && t then x else (if b && t then x else y))
      ≡ (if (if b then true else c) && t then x else y)
if_either true true true x y = refl
if_either true true false x y = refl
if_either true false true x y = refl
if_either true false false x y = refl
if_either false true true x y = refl
if_either false true false x y = refl
if_either false false true x y = refl
if_either false false false x y = refl

module _ (locale_less : Label → Label → Bool) (current : Label) (now : ℕ) (db : Db) where
  abbrev fresh : Label → DailySalesRollup
  fresh day = record { row = fresh_row locale_less current now db day; finalized_at = some now }

  closed-fresh :
      (d e : Label) (old : Option DailySalesRollup)
      → leb current e ≡ false
      → (if e == d then some (fresh e) else old)
        ≡ (if e == d && ltb d current then some (fresh d) else old)
  closed-fresh d e old closed = elim (Bool-cases (e == d)) [
    | inl same ↦
        let on = (==_iff e d).0 same in
        let past : ltb d current ≡ true = ground arith in
        rw (same, past) (ap (λ k. some (fresh k)) on)
    | inr other ↦ rw other refl
  ]

  pub roll_day-find :
      (d e : Label) (rollups : List DailySalesRollup)
      → find_rollup d (roll_day locale_less current now db e rollups).1
        ≡ (if e == d && ltb d current then some (fresh d) else find_rollup d rollups)
  unfolding roll_day build_rollup_row
  roll_day-find d e rollups = elim (Bool-cases (leb current e)) [
    | inl early ↦ rw early (ground arith)
    | inr closed ↦
        rw closed
          (find-upsert d (fresh e) rollups ∙ closed-fresh d e (find_rollup d rollups) closed)
  ]

  roll_days-find :
      (d : Label) (days : List Label) (s : RollupSummary) (rollups : List DailySalesRollup)
      → find_rollup d (roll_days locale_less current now db days s rollups).1 ≡ (
          if any (λ e. e == d) days && ltb d current then some (fresh d) else find_rollup d rollups)
  unfolding roll_days
  roll_days-find d [] s rollups = refl
  roll_days-find d (e ∷ days) s rollups =
      let (row, rollups') = roll_day locale_less current now db e rollups in
      roll_days-find d days (counted_day locale_less current now db row s) rollups'
      ∙ (ap (λ o. if any (λ f. f == d) days && ltb d current then some (fresh d) else o)
            (roll_day-find d e rollups)
          ∙ if_either (e == d) (any (λ f. f == d) days) (ltb d current) (some (fresh d))
              (find_rollup d rollups))

  -- After the nightly run the row of a day is the one computed now, if the day is closed and is the
  -- target, or is one of the three days before it that took an order, or is one of the thirty days
  -- before it that took an order and has no finalized row; the rows of all other days are as they
  -- were.
  pub roll_up_yesterday_decides :
      (target d : Label) (rollups : List DailySalesRollup)
      → find_rollup d (roll_up_yesterday locale_less current now db target rollups).1 ≡ (
          if (target == d
              || (any (λ o. o.business_day == d) db.orders
                  && (leb (minus_days target 30) d
                      && (ltb d target
                          && (leb (minus_days target 3) d
                              || not (
                                  any
                                    (λ r. r.row.business_day == d && is_some r.finalized_at)
                                    rollups))))))
            && ltb d current
          then some (fresh d)
          else find_rollup d rollups)
  unfolding roll_up_yesterday days_needing_roll
  roll_up_yesterday_decides target d rollups =
      let needed = select (λ o. needs_roll target rollups o.business_day) db.orders in
      let days = sort ltb (distinct (map (λ o. o.business_day) needed)) in
      let same : any (λ e. e == d) days
          ≡ (any (λ o. o.business_day == d) db.orders && needs_roll target rollups d) =
        any-sort (λ e. e == d) (distinct (map (λ o. o.business_day) needed))
        ∙ (any-distinct d (map (λ o. o.business_day) needed)
            ∙ (any-day (needs_roll target rollups) d db.orders
                ∙ any-both (needs_roll target rollups) d db.orders)) in
      roll_days-find d (target ∷ days) (record { rolled = 0; failed = 0 }) rollups
      ∙ ap
          (λ b.
            if (if target == d then true else b) && ltb d current
            then some (fresh d)
            else find_rollup d rollups)
          same
      ∙ ap (λ b. if b && ltb d current then some (fresh d) else find_rollup d rollups)
          (if_or (target == d) _)
