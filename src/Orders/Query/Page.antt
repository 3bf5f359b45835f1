-- ===== src/Orders/Query/Page.antt =====
-- What one page holds.
use cafe_pos.Prelude.Sorted.{sort}
use cafe_pos.Orders.Query.{
  OrderSort, StoredOrder, last_of, next_of, comes_before, page_of, encode_cursor,
}
use cafe_pos.Prelude.{
  [], ◌∷◌, true, false, some, none, ℕ, List, Option, ◌≡◌, suc, take, ltb, length, ◌<◌, ◌++◌, arith,
  ap, ◌≤◌, refl, ◌+◌, zero,
}

-- How a page cuts a list that has more rows than its limit.
pub record Cut (n : ℕ) (xs : List StoredOrder) : Type 0 where
  pub front : List StoredOrder
  pub last : StoredOrder
  pub back : List StoredOrder
  pub whole : xs ≡ front ++ last ∷ back
  pub page : take n xs ≡ front ++ (last ∷ [])
  pub size : length back + n ≡ length xs

pub cut : (n : ℕ) (xs : List StoredOrder) → suc n < length xs → Cut (suc n) xs
cut n [] h = let never : ⊥ = omega arith in elim never [ ]
cut zero (x ∷ xs) h = record {
  front = [];
  last = x;
  back = xs;
  whole = refl;
  page = refl;
  size = omega arith;
}
cut (suc n) (x ∷ xs) h =
    let c = cut n xs (omega arith) in
    record {
      front = x ∷ c.front;
      last = c.last;
      back = c.back;
      whole = ap (λ ys. x ∷ ys) c.whole;
      page = ap (λ ys. x ∷ ys) c.page;
      size = omega (arith, c.size);
    }

pub take_of_take : (n : ℕ) (xs : List StoredOrder) → take n (take (suc n) xs) ≡ take n xs
take_of_take zero xs = refl
take_of_take (suc n) [] = refl
take_of_take (suc n) (x ∷ xs) = ap (λ ys. x ∷ ys) (take_of_take n xs)

pub more-length :
    (n : ℕ) (xs : List StoredOrder) → ltb n (length (take (suc n) xs)) ≡ ltb n (length xs)
more-length zero [] = refl
more-length zero (x ∷ xs) = ground arith
more-length (suc n) [] = refl
more-length (suc n) (x ∷ xs) = ground (arith, more-length n xs)

pub take_all : (n : ℕ) (xs : List StoredOrder) → length xs ≤ n → take n xs ≡ xs
take_all zero [] h = refl
take_all zero (x ∷ xs) h = let never : ⊥ = omega arith in elim never [ ]
take_all (suc n) [] h = refl
take_all (suc n) (x ∷ xs) h = ap (λ ys. x ∷ ys) (take_all n xs (omega arith))

pub last_of-append :
    (front : List StoredOrder) (o : StoredOrder) → last_of (front ++ (o ∷ [])) ≡ some o
last_of-append [] o = refl
last_of-append (x ∷ []) o = refl
last_of-append (x ∷ y ∷ front) o = last_of-append (y ∷ front) o

abbrev pub sorted : OrderSort → List StoredOrder → List StoredOrder
sorted by found = sort (comes_before by) found

pub no_next : (by : OrderSort) (o : Option StoredOrder) → next_of by false o ≡ none
no_next by none = refl
no_next by (some o) = refl

-- The last page, and a page with more after it.
pub page_of-short :
    (by : OrderSort) (n : ℕ) (found : List StoredOrder)
    → length (sorted by found) ≤ n
    → page_of by n found ≡ record { orders = sorted by found; next_cursor = none }
page_of-short by n found h =
    let up : n + 1 ≡ suc n = omega arith in
    let none_left : ltb n (length (sorted by found)) ≡ false = ground arith in
    rw
      (
        up,
        take_of_take n (sorted by found),
        more-length n (sorted by found),
        none_left,
        take_all n (sorted by found) h,
        no_next by (last_of (sorted by found)),
      )
      refl

pub page_of-long :
    (by : OrderSort) (n : ℕ) (found : List StoredOrder) (c : Cut n (sorted by found))
    → n < length (sorted by found)
    → page_of by n found
      ≡ record { orders = c.front ++ (c.last ∷ []); next_cursor = some (encode_cursor by c.last) }
page_of-long by n found c h =
    let up : n + 1 ≡ suc n = omega arith in
    let more : ltb n (length (sorted by found)) ≡ true = ground arith in
    rw
      (
        up,
        take_of_take n (sorted by found),
        more-length n (sorted by found),
        more,
        c.page,
        last_of-append c.front c.last,
      )
      refl
