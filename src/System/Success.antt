-- ===== src/System/Success.antt =====
-- Recording a success, and a new payment: at most one payment of an order succeeds.
use cafe_pos.System.Payments.{Keeps}
use cafe_pos.Prelude.{
  ◌≡◌, refl, Bool, true, false, none, List, [], ◌∷◌, ◌==◌, arith, All, update_where, Bool-cases,
  inl, inr, ==_iff,
}
use cafe_pos.Schema.Enums.{PaymentStatus}
use cafe_pos.Schema.Rows.{Label, Order, Payment}
use cafe_pos.Schema.Store.{status_in}
use cafe_pos.Payments.Tables.{payment_status_in}
use cafe_pos.System.Invariant.{has_with, OnePerOrder, UniquePayments, IsBacked, taken}

-- The rows with id `j` belong to the order `o`.
abbrev pub BelongsTo : Label → Label → Payment → Type 0
BelongsTo j o p = p.id ≡ j → p.order_id ≡ o

module _ (f : Payment → Payment) (keeps : Keeps f) (j o : Label) where
  -- A write to a row that is not there changes nothing.
  update-missing :
      (q : PaymentStatus → Bool) (k : Label) (ps : List Payment)
      → payment_status_in j ps ≡ none
      → has_with q k (update_where (λ p. p.id == j) f ps) ≡ has_with q k ps
  update-missing q k [] h = refl
  update-missing q k (p ∷ ps) h = ground (arith, update-missing q k ps)

  update-missing_one :
      (q : PaymentStatus → Bool) (ps : List Payment)
      → payment_status_in j ps ≡ none
      → OnePerOrder q ps
      → OnePerOrder q (update_where (λ p. p.id == j) f ps)
  update-missing_one q [] h u = tt
  update-missing_one q (p ∷ ps) h u =
      ground (arith, update-missing_one q ps, update-missing q p.order_id ps)

  -- Another order gains no payment in the status.
  update-other :
      (q : PaymentStatus → Bool) (k : Label) (ps : List Payment)
      → All (BelongsTo j o) ps
      → (k == o) ≡ false
      → has_with q k ps ≡ false
      → has_with q k (update_where (λ p. p.id == j) f ps) ≡ false
  update-other q k [] b ne h = refl
  update-other q k (p ∷ ps) b ne h = ground (arith, update-other q k ps b.1 ne, keeps.order p, b.0)

  -- If no payment of the order is in the status, one may enter it.
  pub update-enters :
      (q : PaymentStatus → Bool) (ps : List Payment)
      → UniquePayments ps
      → All (BelongsTo j o) ps
      → has_with q o ps ≡ false
      → OnePerOrder q ps
      → OnePerOrder q (update_where (λ p. p.id == j) f ps)
  update-enters q [] u b free h = tt
  update-enters q (p ∷ ps) u b free h = elim (Bool-cases (p.id == j)) [
    | inl e ↦
        let same : p.id ≡ j = (==_iff p.id j).0 e in
        let missing : payment_status_in j ps ≡ none = rw same at u.0 in
        ground (
          arith,
          update-missing q o ps missing,
          update-missing_one q ps missing h.1,
          keeps.order p,
          b.0 same,
        )
    | inr e ↦ ground (
      arith,
      update-other q p.order_id ps b.1,
      update-enters q ps u.1 b.1 (ground arith) h.1,
      ==_iff p.order_id o,
    )
  ]

  -- The order has taken its money, so the success is backed.
  pub enters-IsBacked :
      (os : List Order) (ps : List Payment)
      → All (BelongsTo j o) ps
      → taken (status_in o os) ≡ true
      → All (IsBacked os) ps
      → All (IsBacked os) (update_where (λ p. p.id == j) f ps)
  enters-IsBacked os [] b t h = tt
  enters-IsBacked os (p ∷ ps) b t h = (
    elim (Bool-cases (p.id == j)) [
      | inl e ↦ rw e (λ _. rw (keeps.order p, b.0 ((==_iff p.id j).0 e)) t)
      | inr e ↦ rw e h.0
    ],
    enters-IsBacked os ps b.1 t h.1,
  )
