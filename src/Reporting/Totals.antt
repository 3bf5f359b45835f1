-- ===== src/Reporting/Totals.antt =====
-- What the numbers of a day's row are, order by order.
use cafe_pos.Reporting.Row.{add_buckets}
use cafe_pos.Reporting.Aggregate.{RollupItem, add_item, group_items, same_method}
use cafe_pos.Reporting.Groups.{
  sum_of, in_group, join_row, join, add_to, group_sum, total_of, add_to-total_of,
}
use cafe_pos.Schema.Rows.{OrderItem, Order}
use cafe_pos.Schema.Enums.{OrderStatus, order_status_eq, PaymentMethod, order_status_eq_iff}
use cafe_pos.Prelude.{
  [], ◌∷◌, Bool, ℕ, List, count_if, if◌then◌else◌, Option, select, ◌++◌, ◌+◌, ◌≡◌, arith, ◌&&◌, sym,
  ◌∙◌, ap, refl,
}

module _ {A : Type 0} where
  pub sum-select :
      (f : A → Bool) (v : A → ℕ) (xs : List A)
      → sum_of v (select f xs) ≡ sum_of (λ x. if f x then v x else 0) xs
  sum-select f v [] = refl
  sum-select f v (x ∷ xs) = ground (arith, sum-select f v xs)

  sum-append : (v : A → ℕ) (xs ys : List A) → sum_of v (xs ++ ys) ≡ sum_of v xs + sum_of v ys
  sum-append v [] ys = omega arith
  sum-append v (x ∷ xs) ys = omega (arith, sum-append v xs ys)

  sum-add : (v w : A → ℕ) (xs : List A) → sum_of (λ x. v x + w x) xs ≡ sum_of v xs + sum_of w xs
  sum-add v w [] = refl
  sum-add v w (x ∷ xs) = omega (arith, sum-add v w xs)

  sum_zero : (xs : List A) → sum_of (λ x. 0) xs ≡ 0
  sum_zero [] = refl
  sum_zero (x ∷ xs) = omega (arith, sum_zero xs)

  pub count-select :
      (p q : A → Bool) (xs : List A) → count_if q (select p xs) ≡ count_if (λ x. p x && q x) xs
  count-select p q [] = refl
  count-select p q (x ∷ xs) = ground (arith, count-select p q xs)

module _ {A B : Type 0} (on : A → B → Bool) (v : A × B → ℕ) where
  abbrev pub weight : A → B → ℕ
  weight a b = if on a b then v (a, b) else 0

  sum-join_row : (a : A) (bs : List B) → sum_of v (join_row on a bs) ≡ sum_of (λ b. weight a b) bs
  sum-join_row a [] = refl
  sum-join_row a (b ∷ bs) = ground (arith, sum-join_row a bs)

  -- A sum over a join, by the rows of its second table.
  pub sum-join :
      (as' : List A) (bs : List B)
      → sum_of v (join on as' bs) ≡ sum_of (λ b. sum_of (λ a. weight a b) as') bs
  sum-join [] bs = sym (sum_zero bs)
  sum-join (a ∷ as') bs =
      sum-append v (join_row on a bs) (join on as' bs)
      ∙ (ap (λ n. n + sum_of v (join on as' bs)) (sum-join_row a bs)
          ∙ (ap (λ n. sum_of (λ b. weight a b) bs + n) (sum-join as' bs)
              ∙ sym (sum-add (λ b. weight a b) (λ b. sum_of (λ c. weight c b) as') bs)))

in_group-add_to :
    (s k : OrderStatus) (n : ℕ) (groups : List (OrderStatus × ℕ))
    → in_group order_status_eq s (add_to order_status_eq k n groups)
      ≡ (if order_status_eq k s then n else 0) + in_group order_status_eq s groups
in_group-add_to s k n [] = ground arith
in_group-add_to s k n ((j, m) ∷ groups) = ground (
  arith,
  in_group-add_to s k n groups,
  order_status_eq_iff j k,
  order_status_eq_iff j s,
  order_status_eq_iff k s,
)

pub in_group-count :
    (s : OrderStatus) (os : List Order)
    → in_group order_status_eq s (group_sum order_status_eq (λ o. o.status) (λ o. 1) os)
      ≡ count_if (λ o. order_status_eq o.status s) os
in_group-count s [] = refl
in_group-count s (o ∷ os) =
    in_group-add_to s o.status 1 (group_sum order_status_eq (λ p. p.status) (λ p. 1) os)
    ∙ ap (λ n. (if order_status_eq o.status s then 1 else 0) + n) (in_group-count s os)

pub add_buckets-total_of :
    (parts buckets : List (Option PaymentMethod × ℕ))
    → total_of (add_buckets parts buckets) ≡ total_of parts + total_of buckets
add_buckets-total_of [] buckets = omega arith
add_buckets-total_of ((m, n) ∷ parts) buckets = omega (
  arith,
  add_buckets-total_of parts (add_to same_method m n buckets),
  add_to-total_of same_method m n buckets,
)

add_item-revenue :
    (i : OrderItem) (gs : List RollupItem)
    → sum_of (λ g. g.revenue_minor) (add_item i gs)
      ≡ i.line_total_minor + sum_of (λ g. g.revenue_minor) gs
add_item-revenue i [] = refl
add_item-revenue i (g ∷ gs) = ground (arith, add_item-revenue i gs)

add_item-quantity :
    (i : OrderItem) (gs : List RollupItem)
    → sum_of (λ g. g.quantity) (add_item i gs) ≡ i.quantity + sum_of (λ g. g.quantity) gs
add_item-quantity i [] = refl
add_item-quantity i (g ∷ gs) = ground (arith, add_item-quantity i gs)

pub group_items-revenue :
    (rows : List (OrderItem × Order))
    → sum_of (λ g. g.revenue_minor) (group_items rows) ≡ sum_of (λ r. r.0.line_total_minor) rows
group_items-revenue [] = refl
group_items-revenue ((i, o) ∷ rows) =
    add_item-revenue i (group_items rows)
    ∙ ap (λ n. i.line_total_minor + n) (group_items-revenue rows)

pub group_items-quantity :
    (rows : List (OrderItem × Order))
    → sum_of (λ g. g.quantity) (group_items rows) ≡ sum_of (λ r. r.0.quantity) rows
group_items-quantity [] = refl
group_items-quantity ((i, o) ∷ rows) =
    add_item-quantity i (group_items rows) ∙ ap (λ n. i.quantity + n) (group_items-quantity rows)
