-- ===== src/Orders/Pricing/Selection.antt =====
-- The loop of `resolveLine` over a line's option ids: what it has found when it reports nothing.
use cafe_pos.Prelude.{
  ◌≡◌, refl, Bool, true, false, ◌||◌, none, some, List, [], ◌∷◌, ◌++◌, ◌==◌, arith, is_some,
  Bool-cases, Option-cases, inl, inr, ap, sym, append-nil, ◌∙◌, append_assoc,
}
use cafe_pos.Schema.Rows.{Label}
use cafe_pos.Orders.Pricing.{
  AttachedOption, contains, get_attached, SelectState, select_option, select_options,
}

-- No id stands twice.
abbrev pub IsDistinct : List Label → Type 0
IsDistinct [] = Unit
IsDistinct (i ∷ is) = (contains is i ≡ false) × IsDistinct is

-- Every id names an option that is attached.
abbrev pub AreAttached : List AttachedOption → List Label → Type 0
AreAttached att [] = Unit
AreAttached att (i ∷ is) = (is_some (get_attached i att) ≡ true) × AreAttached att is

-- The options that the ids name, in their order.
abbrev pub lookup_all : List AttachedOption → List Label → List AttachedOption
lookup_all att [] = []
lookup_all att (i ∷ is) = elim (get_attached i att) [
  | none ↦ lookup_all att is
  | some a ↦ a ∷ lookup_all att is
]

pub lookup_all-cons :
    (att : List AttachedOption) (i : Label) (is : List Label) (a : AttachedOption)
    → get_attached i att ≡ some a
    → lookup_all att (i ∷ is) ≡ a ∷ lookup_all att is
lookup_all-cons att i is a e = ground arith

-- Distinct, and apart from what was seen before.
abbrev IsFresh : List Label → List Label → Type 0
IsFresh seen [] = Unit
IsFresh seen (i ∷ is) = (contains seen i ≡ false) × IsFresh (seen ++ (i ∷ [])) is

pub contains-snoc :
    (xs : List Label) (i j : Label) → contains (xs ++ (i ∷ [])) j ≡ (contains xs j || i == j)
contains-snoc [] i j = ground arith
contains-snoc (x ∷ xs) i j = ground (arith, contains-snoc xs i j)

pub contains-eq : (xs : List Label) (i j : Label) → i ≡ j → contains xs i ≡ contains xs j
contains-eq xs i j e = ap (contains xs) e

IsFresh-avoids :
    (seen ids : List Label) (j : Label)
    → IsFresh seen ids
    → contains seen j ≡ true
    → contains ids j ≡ false
IsFresh-avoids seen [] j f h = refl
IsFresh-avoids seen (i ∷ is) j f h = ground (
  arith,
  IsFresh-avoids (seen ++ (i ∷ [])) is j f.1,
  contains-snoc seen i j,
  contains-eq seen i j,
)

pub IsFresh-IsDistinct : (seen ids : List Label) → IsFresh seen ids → IsDistinct ids
IsFresh-IsDistinct seen [] f = tt
IsFresh-IsDistinct seen (i ∷ is) f = (
  IsFresh-avoids (seen ++ (i ∷ [])) is i f.1 (ground (arith, contains-snoc seen i i)),
  IsFresh-IsDistinct (seen ++ (i ∷ [])) is f.1,
)

-- `ids` holds none of `seen`.
abbrev IsApart : List Label → List Label → Type 0
IsApart seen ids = (j : Label) → contains seen j ≡ true → contains ids j ≡ false

IsDistinct-IsFresh_from :
    (seen ids : List Label) → IsDistinct ids → IsApart seen ids → IsFresh seen ids
IsDistinct-IsFresh_from seen [] d a = tt
IsDistinct-IsFresh_from seen (i ∷ is) d a = (
  ground (arith, a i),
  IsDistinct-IsFresh_from (seen ++ (i ∷ [])) is d.1
      (λ j h. ground (arith, a j, contains-snoc seen i j, contains-eq is i j, d.0)),
)

pub IsDistinct-IsFresh : (ids : List Label) → IsDistinct ids → IsFresh [] ids
IsDistinct-IsFresh ids d = IsDistinct-IsFresh_from [] ids d (λ j h. cc)

-- Nothing has been reported.
abbrev pub is_clean : List Label → List Label → Bool
is_clean [] [] = true
is_clean [] (_ ∷ _) = false
is_clean (_ ∷ _) _ = false

snoc-not_nil :
    (xs : List Label) (i : Label) (ys : List Label) → is_clean ys (xs ++ (i ∷ [])) ≡ false
snoc-not_nil [] i [] = refl
snoc-not_nil [] i (y ∷ ys) = refl
snoc-not_nil (x ∷ xs) i [] = refl
snoc-not_nil (x ∷ xs) i (y ∷ ys) = refl

snoc-not_nil_dup :
    (xs : List Label) (i : Label) (ys : List Label) → is_clean (xs ++ (i ∷ [])) ys ≡ false
snoc-not_nil_dup [] i [] = refl
snoc-not_nil_dup [] i (y ∷ ys) = refl
snoc-not_nil_dup (x ∷ xs) i [] = refl
snoc-not_nil_dup (x ∷ xs) i (y ∷ ys) = refl

abbrev pub reports_nothing : SelectState → Bool
reports_nothing st = is_clean st.duplicates st.unknowns

contains-not_nil : (xs ys : List Label) (i : Label) → contains xs i ≡ true → is_clean xs ys ≡ false
contains-not_nil [] ys i h = cc
contains-not_nil (x ∷ xs) [] i h = refl
contains-not_nil (x ∷ xs) (y ∷ ys) i h = refl

-- A repeated id is reported, and so is one that names nothing attached.
select_option-repeat :
    (att : List AttachedOption) (st : SelectState) (i : Label)
    → contains st.seen i ≡ true
    → reports_nothing (select_option att st i) ≡ false
unfolding select_option
select_option-repeat att st i h = ground (
  arith,
  contains-not_nil st.duplicates st.unknowns i,
  snoc-not_nil_dup st.duplicates i st.unknowns,
)

select_option-unknown :
    (att : List AttachedOption) (st : SelectState) (i : Label)
    → contains st.seen i ≡ false
    → get_attached i att ≡ none
    → reports_nothing (select_option att st i) ≡ false
unfolding select_option
select_option-unknown att st i h e = ground (arith, snoc-not_nil st.unknowns i st.duplicates)

-- What the loop holds after it has taken an id.
abbrev with_option : SelectState → Label → AttachedOption → SelectState
with_option st i a = record st { seen = st.seen ++ (i ∷ []); chosen = st.chosen ++ (a ∷ []) }

select_option-take :
    (att : List AttachedOption) (st : SelectState) (i : Label) (a : AttachedOption)
    → contains st.seen i ≡ false
    → get_attached i att ≡ some a
    → select_option att st i ≡ with_option st i a
unfolding select_option
select_option-take att st i a h e = ground arith

-- What has been reported stays reported.
select_option-dirty :
    (att : List AttachedOption) (st : SelectState) (i : Label)
    → reports_nothing st ≡ false
    → reports_nothing (select_option att st i) ≡ false
select_option-dirty att st i d = elim (Bool-cases (contains st.seen i)) [
  | inl h ↦ select_option-repeat att st i h
  | inr h ↦ elim (Option-cases (get_attached i att)) [
    | inl e ↦ select_option-unknown att st i h e
    | inr (a, e) ↦ rw (select_option-take att st i a h e) d
  ]
]

select_options-dirty :
    (att : List AttachedOption) (st : SelectState) (ids : List Label)
    → reports_nothing st ≡ false
    → reports_nothing (select_options att st ids) ≡ false
unfolding select_options
select_options-dirty att st [] d = d
select_options-dirty att st (i ∷ is) d =
    select_options-dirty att (select_option att st i) is (select_option-dirty att st i d)

select_options-take :
    (att : List AttachedOption) (st : SelectState) (i : Label) (is : List Label)
    (a : AttachedOption)
    → contains st.seen i ≡ false
    → get_attached i att ≡ some a
    → select_options att st (i ∷ is) ≡ select_options att (with_option st i a) is
unfolding select_options
select_options-take att st i is a h e =
    ap (λ s. select_options att s is) (select_option-take att st i a h e)

-- A loop that reports nothing met fresh, attached ids and chose exactly the options they name.
pub select_options_sound :
    (att : List AttachedOption) (st : SelectState) (ids : List Label)
    → reports_nothing (select_options att st ids) ≡ true
    → IsFresh st.seen ids
      × AreAttached att ids
      × ((select_options att st ids).chosen ≡ st.chosen ++ lookup_all att ids)
unfolding select_options
select_options_sound att st [] h = (tt, tt, sym (append-nil st.chosen))
select_options_sound att st (i ∷ is) h = elim (Bool-cases (contains st.seen i)) [
  | inl seen ↦
      cc (select_options-dirty att (select_option att st i) is (select_option-repeat att st i seen))
  | inr new ↦ elim (Option-cases (get_attached i att)) [
    | inl e ↦ cc (
        select_options-dirty att (select_option att st i) is (select_option-unknown att st i new e))
    | inr (a, e) ↦
        let step = select_options-take att st i is a new e in
        let (fresh, attached, chosen) =
          select_options_sound att (with_option st i a) is (rw step at h) in
        (
          (new, fresh),
          (rw e, attached),
          rw (step, lookup_all-cons att i is a e)
              (chosen ∙ append_assoc st.chosen (a ∷ []) (lookup_all att is)),
        )
  ]
]

-- Fresh, attached ids are taken without a report.
pub select_options_complete :
    (att : List AttachedOption) (st : SelectState) (ids : List Label)
    → reports_nothing st ≡ true
    → IsFresh st.seen ids
    → AreAttached att ids
    → reports_nothing (select_options att st ids) ≡ true
unfolding select_options
select_options_complete att st [] c f a = c
select_options_complete att st (i ∷ is) c f at = elim (Option-cases (get_attached i att)) [
  | inl e ↦ ground arith
  | inr (a, e) ↦
      rw (select_options-take att st i is a f.0 e)
        (select_options_complete att (with_option st i a) is c f.1 at.1)
]
