-- ===== src/Reporting/Groups.antt =====
-- SQL's inner join and GROUP BY with a sum, and JavaScript's stable sort, on lists.
use cafe_pos.Prelude.{
  [], ◌∷◌, Bool, List, ℕ, if◌then◌else◌, ◌++◌, ◌+◌, ◌≡◌, arith, ◌∙◌, Bool-cases, ap, inl, inr, refl,
  All, any, ◌||◌, take, suc, zero,
}

module _ {A B : Type 0} where
  -- `FROM a INNER JOIN b ON on`.
  abbrev pub join_row : (A → B → Bool) → A → List B → List (A × B)
  join_row on a [] = []
  join_row on a (b ∷ bs) = let rest = join_row on a bs in if on a b then (a, b) ∷ rest else rest

  abbrev pub join : (A → B → Bool) → List A → List B → List (A × B)
  join on [] bs = []
  join on (a ∷ as') bs = join_row on a bs ++ join on as' bs

module _ {K : Type 0} (same : K → K → Bool) where
  -- One row more in the groups.
  abbrev pub add_to : K → ℕ → List (K × ℕ) → List (K × ℕ)
  add_to k n [] = (k, n) ∷ []
  add_to k n ((j, m) ∷ groups) =
      let rest = add_to k n groups in if same j k then (j, m + n) ∷ groups else (j, m) ∷ rest

  -- `SELECT key, sum(value) ... GROUP BY key`.
  abbrev pub group_sum : {A : Type 0} → (A → K) → (A → ℕ) → List A → List (K × ℕ)
  group_sum key value [] = []
  group_sum key value (a ∷ as') = add_to (key a) (value a) (group_sum key value as')

abbrev pub total_of : {K : Type 0} → List (K × ℕ) → ℕ
total_of [] = 0
total_of ((k, n) ∷ groups) = n + total_of groups

abbrev pub sum_of : {A : Type 0} → (A → ℕ) → List A → ℕ
sum_of value [] = 0
sum_of value (a ∷ as') = value a + sum_of value as'

-- The sum of one group; 0 if there is none.
abbrev pub in_group : {K : Type 0} → (K → K → Bool) → K → List (K × ℕ) → ℕ
in_group same k [] = 0
in_group same k ((j, n) ∷ groups) = if same j k then n else in_group same k groups

pub add_to-total_of :
    {K : Type 0} (same : K → K → Bool) (k : K) (n : ℕ) (groups : List (K × ℕ))
    → total_of (add_to same k n groups) ≡ n + total_of groups
add_to-total_of same k n [] = omega arith
add_to-total_of same k n ((j, m) ∷ groups) = elim (Bool-cases (same j k)) [
  | inl e ↦ rw e (omega arith)
  | inr e ↦ rw e (omega (arith, add_to-total_of same k n groups))
]

-- Grouping loses nothing.
pub group_sum-total_of :
    {A K : Type 0} (same : K → K → Bool) (key : A → K) (value : A → ℕ) (as' : List A)
    → total_of (group_sum same key value as') ≡ sum_of value as'
group_sum-total_of same key value [] = refl
group_sum-total_of same key value (a ∷ as') =
    add_to-total_of same (key a) (value a) (group_sum same key value as')
    ∙ ap (λ n. value a + n) (group_sum-total_of same key value as')

-- `[...xs].sort(...)`: elements that compare equal keep their order.
abbrev pub stable_insert : {A : Type 0} → (A → A → Bool) → A → List A → List A
stable_insert lt x [] = x ∷ []
stable_insert lt x (y ∷ ys) =
    let rest = stable_insert lt x ys in if lt y x then y ∷ rest else x ∷ y ∷ ys

abbrev pub stable_sort : {A : Type 0} → (A → A → Bool) → List A → List A
stable_sort lt [] = []
stable_sort lt (x ∷ xs) = stable_insert lt x (stable_sort lt xs)

stable_insert-sum_of :
    {A : Type 0} (lt : A → A → Bool) (value : A → ℕ) (x : A) (ys : List A)
    → sum_of value (stable_insert lt x ys) ≡ value x + sum_of value ys
stable_insert-sum_of lt value x [] = refl
stable_insert-sum_of lt value x (y ∷ ys) = elim (Bool-cases (lt y x)) [
  | inl e ↦ rw e (omega (arith, stable_insert-sum_of lt value x ys))
  | inr e ↦ rw e refl
]

pub stable_sort-sum_of :
    {A : Type 0} (lt : A → A → Bool) (value : A → ℕ) (xs : List A)
    → sum_of value (stable_sort lt xs) ≡ sum_of value xs
stable_sort-sum_of lt value [] = refl
stable_sort-sum_of lt value (x ∷ xs) =
    stable_insert-sum_of lt value x (stable_sort lt xs)
    ∙ ap (λ n. value x + n) (stable_sort-sum_of lt value xs)

module _ {A : Type 0} (lt : A → A → Bool) where
  stable_insert-All :
      (P : A → Type 0) (x : A) (ys : List A) → P x → All P ys → All P (stable_insert lt x ys)
  stable_insert-All P x [] h hs = (h, tt)
  stable_insert-All P x (y ∷ ys) h (k, ks) = elim (Bool-cases (lt y x)) [
    | inl e ↦ rw e (k, stable_insert-All P x ys h ks)
    | inr e ↦ rw e (h, (k, ks))
  ]

  pub stable_sort-All : (P : A → Type 0) (xs : List A) → All P xs → All P (stable_sort lt xs)
  stable_sort-All P [] h = tt
  stable_sort-All P (x ∷ xs) (h, hs) =
      stable_insert-All P x (stable_sort lt xs) h (stable_sort-All P xs hs)

  pub any-stable_insert :
      (p : A → Bool) (x : A) (ys : List A) → any p (stable_insert lt x ys) ≡ (p x || any p ys)
  any-stable_insert p x [] = ground arith
  any-stable_insert p x (y ∷ ys) = ground (arith, any-stable_insert p x ys)

  pub any-stable_sort : (p : A → Bool) (xs : List A) → any p (stable_sort lt xs) ≡ any p xs
  any-stable_sort p [] = refl
  any-stable_sort p (x ∷ xs) =
      any-stable_insert p x (stable_sort lt xs) ∙ ground (arith, any-stable_sort p xs)

pub take-All : {A : Type 0} (P : A → Type 0) (n : ℕ) (xs : List A) → All P xs → All P (take n xs)
take-All P zero xs h = tt
take-All P (suc n) [] h = tt
take-All P (suc n) (x ∷ xs) (h, hs) = (h, take-All P n xs hs)
