-- ===== src/Prelude/Sorted.antt =====
-- `ORDER BY` as insertion sort, over any comparison, and what `WHERE` and `LIMIT` do to it.
use cafe_pos.Prelude.Tests.{if◌then◌else◌, Bool-cases}
use cafe_pos.Prelude.Lists.{select, All, take}
use Prim.Native.Nat.{ℕ, zero, suc}
use mathlib.Core.Path.{◌≡◌, refl, sym, ap, ◌∙◌}
use mathlib.Core.Logic.{inl, inr}
use mathlib.Core.Bool.{Bool, true, false, ◌||◌, ◌&&◌}
use mathlib.Core.List.{List, [], ◌∷◌, ◌++◌}
use native.Mathlib.Omega.{arith}

module _ {A : Type 0} where
  abbrev pub drop : ℕ → List A → List A
  drop zero xs = xs
  drop (suc n) [] = []
  drop (suc n) (x ∷ xs) = drop n xs

  pub take-drop : (n : ℕ) (xs : List A) → take n xs ++ drop n xs ≡ xs
  take-drop zero xs = refl
  take-drop (suc n) [] = refl
  take-drop (suc n) (x ∷ xs) = ap (λ ys. x ∷ ys) (take-drop n xs)

  pub select-and :
      (p q : A → Bool) (xs : List A) → select (λ x. p x && q x) xs ≡ select q (select p xs)
  select-and p q [] = refl
  select-and p q (x ∷ xs) = ground (arith, select-and p q xs)

  pub All-map : (P Q : A → Type 0) (xs : List A) → ((x : A) → P x → Q x) → All P xs → All Q xs
  All-map P Q [] f h = tt
  All-map P Q (x ∷ xs) f (h, hs) = (f x h, All-map P Q xs f hs)

  pub All-at :
      (P : A → Type 0) (front : List A) (x : A) (back : List A) → All P (front ++ x ∷ back) → P x
  All-at P [] x back (h, hs) = h
  All-at P (y ∷ front) x back (h, hs) = All-at P front x back hs

  pub All-select : (P : A → Type 0) (p : A → Bool) (xs : List A) → All P xs → All P (select p xs)
  All-select P p [] h = tt
  All-select P p (x ∷ xs) (h, hs) = elim (Bool-cases (p x)) [
    | inl e ↦ rw e (h, All-select P p xs hs)
    | inr e ↦ rw e (All-select P p xs hs)
  ]

module _ {A : Type 0} (lt : A → A → Bool) where
  abbrev pub insert : A → List A → List A
  insert x [] = x ∷ []
  insert x (y ∷ ys) = let rest = insert x ys in if lt x y then x ∷ y ∷ ys else y ∷ rest

  -- `ORDER BY`.
  abbrev pub sort : List A → List A
  sort [] = []
  sort (x ∷ xs) = insert x (sort xs)

  -- Each element comes before all that follow it.
  abbrev pub IsSorted : List A → Type 0
  IsSorted [] = Unit
  IsSorted (x ∷ xs) = All (λ y. lt x y ≡ true) xs × IsSorted xs

  -- No two elements are alike to the comparison.
  abbrev pub AreComparable : List A → Type 0
  AreComparable [] = Unit
  AreComparable (x ∷ xs) = All (λ y. (lt x y || lt y x) ≡ true) xs × AreComparable xs

  insert-All : (P : A → Type 0) (x : A) (ys : List A) → P x → All P ys → All P (insert x ys)
  insert-All P x [] h hs = (h, tt)
  insert-All P x (y ∷ ys) h (k, ks) = elim (Bool-cases (lt x y)) [
    | inl e ↦ rw e (h, (k, ks))
    | inr e ↦ rw e (k, insert-All P x ys h ks)
  ]

  pub sort-All : (P : A → Type 0) (xs : List A) → All P xs → All P (sort xs)
  sort-All P [] h = tt
  sort-All P (x ∷ xs) (h, hs) = insert-All P x (sort xs) h (sort-All P xs hs)

  insert-first : (x : A) (ys : List A) → All (λ y. lt x y ≡ true) ys → insert x ys ≡ x ∷ ys
  insert-first x [] h = refl
  insert-first x (y ∷ ys) (h, hs) = rw h refl

  pub select-AreComparable :
      (p : A → Bool) (xs : List A) → AreComparable xs → AreComparable (select p xs)
  select-AreComparable p [] h = tt
  select-AreComparable p (x ∷ xs) (h, hs) = elim (Bool-cases (p x)) [
    | inl e ↦ rw e (All-select _ p xs h, select-AreComparable p xs hs)
    | inr e ↦ rw e (select-AreComparable p xs hs)
  ]

  module _ (trans : (x y z : A) → lt x y ≡ true → lt y z ≡ true → lt x z ≡ true) where
    insert-IsSorted :
        (x : A) (ys : List A)
        → All (λ y. (lt x y || lt y x) ≡ true) ys
        → IsSorted ys
        → IsSorted (insert x ys)
    insert-IsSorted x [] h k = (tt, tt)
    insert-IsSorted x (y ∷ ys) (h, hs) (k, ks) = elim (Bool-cases (lt x y)) [
      | inl e ↦ rw e ((e, All-map _ _ ys (λ z l. trans x y z e l) k), (k, ks))
      | inr e ↦
          let l : lt y x ≡ true = ground arith in
          rw e (insert-All _ x ys l k, insert-IsSorted x ys hs ks)
    ]

    pub sort-IsSorted : (xs : List A) → AreComparable xs → IsSorted (sort xs)
    sort-IsSorted [] h = tt
    sort-IsSorted (x ∷ xs) (h, hs) =
        insert-IsSorted x (sort xs) (sort-All _ xs h) (sort-IsSorted xs hs)

    select-insert :
        (p : A → Bool) (x : A) (ys : List A)
        → IsSorted ys
        → select p (insert x ys) ≡ (if p x then insert x (select p ys) else select p ys)
    select-insert p x [] h = ground arith
    select-insert p x (y ∷ ys) (h, hs) = elim (Bool-cases (lt x y)) [
      | inl e ↦
          let after : All (λ z. lt x z ≡ true) (y ∷ ys) =
            (e, All-map _ _ ys (λ z l. trans x y z e l) h) in
          let first = insert-first x (select p (y ∷ ys)) (All-select _ p (y ∷ ys) after) in
          rw e (elim (Bool-cases (p x)) [ inl k ↦ rw k (sym first) | inr k ↦ rw k refl ])
      | inr e ↦ ground (arith, select-insert p x ys hs)
    ]

    -- A filter may run before the sort or after it.
    pub select-sort :
        (p : A → Bool) (xs : List A) → AreComparable xs → select p (sort xs) ≡ sort (select p xs)
    select-sort p [] h = refl
    select-sort p (x ∷ xs) (h, hs) =
        let one = select-insert p x (sort xs) (sort-IsSorted xs hs) in
        elim (Bool-cases (p x)) [
          | inl e ↦ rw e (one ∙ rw (e, select-sort p xs hs) refl)
          | inr e ↦ rw e (one ∙ rw (e, select-sort p xs hs) refl)
        ]

    module _ (asym : (x y : A) → lt x y ≡ true → lt y x ≡ false)
        (irrefl : (x : A) → lt x x ≡ false) where
      select_whole : (x : A) (ys : List A) → All (λ y. lt x y ≡ true) ys → select (lt x) ys ≡ ys
      select_whole x [] h = refl
      select_whole x (y ∷ ys) (h, hs) = rw h (ap (λ zs. y ∷ zs) (select_whole x ys hs))

      -- In a sorted list, what comes after an element is what follows it.
      pub select-after :
          (front : List A) (x : A) (back : List A)
          → IsSorted (front ++ x ∷ back)
          → select (lt x) (front ++ x ∷ back) ≡ back
      select-after [] x back (h, hs) = rw (irrefl x) (select_whole x back h)
      select-after (y ∷ front) x back (h, hs) =
          let before = asym y x (All-at _ front x back h) in
          rw before (select-after front x back hs)
