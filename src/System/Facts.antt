-- ===== src/System/Facts.antt =====
-- What a read of the payments table still says of the table when a transaction runs.
use cafe_pos.System.Step.{facts_in}
use cafe_pos.Payments.Tables.{payment_status_in}
use cafe_pos.System.Invariant.{UniquePayments, is_known}
use cafe_pos.Schema.Rows.{Payment, Label, Refund}
use cafe_pos.Prelude.{
  [], ◌∷◌, Bool, ℕ, List, ◌≡◌, find?, none, some, Bool-cases, All, ◌≢◌, true, inl, eq_of_some,
  arith, ◌==◌, ==_iff, inr, refl,
}

-- The row that a search finds is the row that its id names.
pub find-facts :
    (q : Payment → Bool) (ps : List Payment) (p : Payment)
    → UniquePayments ps
    → find? q ps ≡ some p
    → (facts_in p.id ps ≡ some (p.order_id, p.amount_minor))
      × (payment_status_in p.id ps ≡ some p.status)
find-facts q [] p u e = cc
find-facts q (x ∷ ps) p u e = elim (Bool-cases (q x)) [
  | inl here ↦
      let same : x ≡ p = eq_of_some (rw here at e) in
      let self : (p.id == p.id) ≡ true = (==_iff p.id p.id).1 refl in
      rw same (rw self refl, rw (self, payment_status_in) refl)
  | inr later ↦ let (f, st) = find-facts q ps p u.1 (rw later at e) in ground (arith, u.0)
]

-- All rows with an id have the one order and the one amount that the table names.
abbrev pub HasFacts : Label → Label × ℕ → Payment → Type 0
HasFacts j x p = p.id ≡ j → (p.order_id ≡ x.0) × (p.amount_minor ≡ x.1)

facts_none :
    (j : Label) (ps : List Payment) → payment_status_in j ps ≡ none → All (λ p. p.id ≢ j) ps
facts_none j [] h = tt
facts_none j (p ∷ ps) h = (λ e. ground arith, facts_none j ps (ground arith))

pub facts_in-All :
    (j : Label) (x : Label × ℕ) (ps : List Payment)
    → UniquePayments ps
    → facts_in j ps ≡ some x
    → All (HasFacts j x) ps
facts_in-All j x [] u e = tt
facts_in-All j x (p ∷ ps) u e = elim (Bool-cases (p.id == j)) [
  | inl here ↦
      let same : p.id ≡ j = (==_iff p.id j).0 here in
      let known : (p.order_id, p.amount_minor) ≡ x = eq_of_some (rw here at e) in
      (λ _. (cc, cc), absent ps (facts_none j ps (rw same at u.0)))
  | inr later ↦ (λ same. ground (arith, ==_iff p.id j), facts_in-All j x ps u.1 (rw later at e))
]
  where
    absent : (qs : List Payment) → All (λ p. p.id ≢ j) qs → All (HasFacts j x) qs
    absent [] h = tt
    absent (q ∷ qs) h = (λ same. absurd (h.0 same), absent qs h.1)

pub facts_in-known :
    (r : Refund) (x : Label × ℕ) (ps : List Payment)
    → facts_in r.payment_id ps ≡ some x
    → is_known ps r ≡ true
facts_in-known r x [] e = cc
facts_in-known r x (p ∷ ps) e = ground (arith, facts_in-known r x ps)
