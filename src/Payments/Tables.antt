-- ===== src/Payments/Tables.antt =====
-- How the updates of the payments table change the status that each id has.
use cafe_pos.Payments.Webhooks.Processor.{is_unsettled, with_status, settle_payment}
use cafe_pos.Prelude.{
  ◌≡◌, true, false, Option, none, some, List, [], ◌∷◌, ◌==◌, update_where, arith,
}
use cafe_pos.Schema.Enums.{PaymentStatus, payment_status_eq_iff, PaymentMethod}
use cafe_pos.Schema.Rows.{Label, Payment}

-- `SELECT status FROM payments WHERE id = i`.
abbrev pub payment_status_in : Label → List Payment → Option PaymentStatus
payment_status_in i [] = none
payment_status_in i (p ∷ ps) = elim (p.id == i) [
  | true ↦ some p.status
  | false ↦ payment_status_in i ps
]

abbrev pub HasSucceeded : Label → List Payment → Type 0
HasSucceeded i ps = payment_status_in i ps ≡ some PaymentStatus.succeeded

-- The guarded write leaves a succeeded payment alone.
pub guarded_write-HasSucceeded :
    (i j : Label) (status : PaymentStatus) (ps : List Payment)
    → HasSucceeded i ps
    → HasSucceeded i (update_where (is_unsettled j) (with_status status) ps)
guarded_write-HasSucceeded i j status [] h = cc
guarded_write-HasSucceeded i j status (p ∷ ps) h = ground (
  arith,
  guarded_write-HasSucceeded i j status ps,
  payment_status_eq_iff PaymentStatus.succeeded p.status,
)

-- The write of a success keeps every success.
pub settle-HasSucceeded :
    (i j : Label) (method : Option PaymentMethod) (ps : List Payment)
    → HasSucceeded i ps
    → HasSucceeded i (update_where (λ p. p.id == j) (settle_payment method) ps)
settle-HasSucceeded i j method [] h = cc
settle-HasSucceeded i j none (p ∷ ps) h = ground (arith, settle-HasSucceeded i j none ps)
settle-HasSucceeded i j (some m) (p ∷ ps) h = ground (arith, settle-HasSucceeded i j (some m) ps)
