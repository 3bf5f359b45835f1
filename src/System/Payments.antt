-- ===== src/System/Payments.antt =====
-- How the writes to the payments table keep the invariant's parts.
use cafe_pos.Prelude.{
  ◌≡◌, refl, Bool, true, false, Option, none, some, List, [], ◌∷◌, arith, All, update_where,
  Bool-cases, inl, inr, ◌↔◌, ◌≢◌,
}
use cafe_pos.Schema.Enums.{PaymentStatus, PaymentMethod, payment_status_eq_iff, payment_status_eq}
use cafe_pos.Schema.Rows.{Label, Order, Payment, Refund}
use cafe_pos.Schema.Store.{is_live}
use cafe_pos.Payments.Tables.{payment_status_in}
use cafe_pos.Payments.Webhooks.Decide.{is_settled}
use cafe_pos.Payments.Webhooks.Processor.{with_status, settle_payment}
use cafe_pos.System.Invariant.{
  has_with, OnePerOrder, UniquePayments, IsBacked, IsRefundedWithin, is_known,
}

-- A write that leaves the id, the order and the amount of every row alone.
pub record Keeps (f : Payment → Payment) : Type 0 where
  pub id : (p : Payment) → (f p).id ≡ p.id
  pub order : (p : Payment) → (f p).order_id ≡ p.order_id
  pub amount : (p : Payment) → (f p).amount_minor ≡ p.amount_minor

pub with_status-Keeps : (status : PaymentStatus) → Keeps (with_status status)
with_status-Keeps status = record { id = λ p. refl; order = λ p. refl; amount = λ p. refl }

pub settle_payment-Keeps : (m : Option PaymentMethod) → Keeps (settle_payment m)
settle_payment-Keeps none = record { id = λ p. refl; order = λ p. refl; amount = λ p. refl }
settle_payment-Keeps (some m) = record { id = λ p. refl; order = λ p. refl; amount = λ p. refl }

module _ (g : Payment → Bool) (f : Payment → Payment) (keeps : Keeps f) where
  update-payment_status_none :
      (j : Label) (ps : List Payment)
      → payment_status_in j ps ≡ none
      → payment_status_in j (update_where g f ps) ≡ none
  update-payment_status_none j [] h = refl
  update-payment_status_none j (p ∷ ps) h =
      ground (arith, update-payment_status_none j ps, keeps.id p)

  pub update-UniquePayments :
      (ps : List Payment) → UniquePayments ps → UniquePayments (update_where g f ps)
  update-UniquePayments [] u = tt
  update-UniquePayments (p ∷ ps) u = ground (
    arith,
    update-UniquePayments ps u.1,
    update-payment_status_none p.id ps u.0,
    update-payment_status_none (f p).id ps,
    keeps.id p,
  )

  update-is_known :
      (r : Refund) (ps : List Payment)
      → is_known ps r ≡ true
      → is_known (update_where g f ps) r ≡ true
  update-is_known r [] h = cc
  update-is_known r (p ∷ ps) h = ground (arith, update-is_known r ps, keeps.id p)

  pub update-refunds_known :
      (ps : List Payment) (rs : List Refund)
      → All (λ r. is_known ps r ≡ true) rs
      → All (λ r. is_known (update_where g f ps) r ≡ true) rs
  update-refunds_known ps [] h = tt
  update-refunds_known ps (r ∷ rs) h = (update-is_known r ps h.0, update-refunds_known ps rs h.1)

  pub update-refunds_within :
      (rs : List Refund) (ps : List Payment)
      → All (IsRefundedWithin rs) ps
      → All (IsRefundedWithin rs) (update_where g f ps)
  update-refunds_within rs [] h = tt
  update-refunds_within rs (p ∷ ps) h = (
    elim (Bool-cases (g p)) [ inl e ↦ rw (e, keeps.id p, keeps.amount p) h.0 | inr e ↦ rw e h.0 ],
    update-refunds_within rs ps h.1,
  )

  -- A status that the write never gives does not spread.
  update-has_with :
      (q : PaymentStatus → Bool) (j : Label) (ps : List Payment)
      → ((p : Payment) → q (f p).status ≡ false)
      → has_with q j ps ≡ false
      → has_with q j (update_where g f ps) ≡ false
  update-has_with q j [] never h = refl
  update-has_with q j (p ∷ ps) never h = ground (arith, update-has_with q j ps never, never p)

  pub update-OnePerOrder :
      (q : PaymentStatus → Bool) (ps : List Payment)
      → ((p : Payment) → q (f p).status ≡ false)
      → OnePerOrder q ps
      → OnePerOrder q (update_where g f ps)
  update-OnePerOrder q [] never h = tt
  update-OnePerOrder q (p ∷ ps) never h =
      ground
        (arith, update-OnePerOrder q ps never h.1, update-has_with q p.order_id ps never, never p)

  pub update-IsBacked :
      (os : List Order) (ps : List Payment)
      → ((p : Payment) → is_settled (f p).status ≡ false)
      → All (IsBacked os) ps
      → All (IsBacked os) (update_where g f ps)
  update-IsBacked os [] never h = tt
  update-IsBacked os (p ∷ ps) never h = (
    elim (Bool-cases (g p)) [ inl e ↦ rw e (λ s. ground (arith, never p)) | inr e ↦ rw e h.0 ],
    update-IsBacked os ps never h.1,
  )

pub is_live_succeeded : is_live PaymentStatus.succeeded ≡ false
unfolding payment_status_eq
is_live_succeeded = refl

pub is_live_cancelled : is_live PaymentStatus.cancelled ≡ false
unfolding payment_status_eq
is_live_cancelled = refl

pub is_settled_cancelled : is_settled PaymentStatus.cancelled ≡ false
unfolding payment_status_eq
is_settled_cancelled = refl

pub pending-unsettled : is_settled PaymentStatus.pending ≢ true
unfolding payment_status_eq
pending-unsettled e = cc

pub is_settled_iff : (s : PaymentStatus) → (is_settled s ≡ true) ↔ (s ≡ PaymentStatus.succeeded)
is_settled_iff s = ground (arith, payment_status_eq_iff PaymentStatus.succeeded s)
