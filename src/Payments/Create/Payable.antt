-- ===== src/Payments/Create/Payable.antt =====
-- Which orders src/payments/create/create-payment.service.ts takes a payment for.
use cafe_pos.Schema.Enums.{OrderStatus, PaymentStatus, order_status_eq_iff, payment_status_eq_iff}
use cafe_pos.Schema.Store.{Db, find_order, find_live, is_live}
use cafe_pos.Payments.Create.{load_payable_order, payable_status, no_live, payable_found, is_own}
use cafe_pos.Identity.Principal.{Principal, staff, device}
use cafe_pos.Schema.Rows.{Order, Payment, Label}
use cafe_pos.Tx.{AppError, err, Result, ok}
use cafe_pos.Prelude.{
  true, some, none, Option, ◌≢◌, ◌≡◌, ◌↔◌, arith, refl, Bool-cases, inl, inr, eq_of_some,
  some-ne-none, sym, ==_iff, option_eq, ap, All, List, [], ◌∷◌, find?, ◌&&◌, ◌==◌, ◌∙◌, false,
}

err-ne-ok : {A : Type 0} {x : AppError} {a : A} → err x ≢ ok a
err-ne-ok e = cc

payable_status_iff :
    (x o : Order) → (payable_status x ≡ ok o) ↔ ((x ≡ o) × (x.status ≡ OrderStatus.pending_payment))
payable_status_iff x o = (
  λ h. ground (
    arith,
    order_status_eq_iff x.status OrderStatus.expired,
    order_status_eq_iff x.status OrderStatus.pending_payment,
  ),
  λ (e, st). ground (
    arith,
    order_status_eq_iff x.status OrderStatus.expired,
    order_status_eq_iff x.status OrderStatus.pending_payment,
  ),
)

no_live_iff :
    (live : Option Payment) (r : Result Order) (o : Order)
    → (no_live live r ≡ ok o) ↔ ((r ≡ ok o) × (live ≡ none))
no_live_iff live (err e) o = (λ h. cc, λ (h, n). cc)
no_live_iff none (ok x) o = (λ h. (h, refl), λ (h, n). h)
no_live_iff (some p) (ok x) o = (λ h. cc, λ (h, n). cc)

payable_found_iff :
    (principal : Principal) (order_id : Label) (found : Option Order) (live : Option Payment)
    (o : Order)
    → (payable_found principal order_id found live ≡ ok o) ↔ (
        (found ≡ some o)
        × (is_own principal o ≡ true)
        × (o.status ≡ OrderStatus.pending_payment)
        × (live ≡ none))
payable_found_iff principal order_id none live o = (λ h. cc, λ k. absurd (some-ne-none (sym k.0)))
payable_found_iff principal order_id (some x) live o =
    let no_live_of = no_live_iff live (payable_status x) o in
    let status_of = payable_status_iff x o in
    (
      λ h. elim (Bool-cases (is_own principal x)) [
        | inl own ↦
            let (payable, free) = no_live_of.0 (rw own at h) in
            let (same, waits) = status_of.0 payable in
            (rw same refl, rw same at own, rw same at waits, free)
        | inr foreign ↦ absurd (err-ne-ok (rw foreign at h))
      ],
      λ (f, own, waits, free).
          let same : x ≡ o = eq_of_some f in
          rw (same, own, payable_found)
            (rw same at (no_live_of.1 (status_of.1 (same, rw same waits), free))),
    )

option_eq-some : (x : Option Label) (d : Label) → option_eq x (some d) ≡ true → x ≡ some d
option_eq-some none d h = cc
option_eq-some (some c) d h = ap some ((==_iff c d).0 h)

abbrev device_of : Label → Principal → Option Label
device_of d (device c) = some c
device_of d (staff _ _ _) = some d

live_unsettled :
    (order_id : Label) (p : Payment)
    → (p.order_id == order_id && is_live p.status) ≡ true
    → ¬ (
        p.order_id ≡ order_id
        → (p.status ≢ PaymentStatus.pending) × (p.status ≢ PaymentStatus.processing))
live_unsettled order_id p live h = ground (
  arith,
  ==_iff p.order_id order_id,
  payment_status_eq_iff PaymentStatus.pending p.status,
  payment_status_eq_iff PaymentStatus.processing p.status,
)

settled_free :
    (order_id : Label) (p : Payment)
    → (p.order_id == order_id && is_live p.status) ≡ false
    → p.order_id ≡ order_id
    → (p.status ≢ PaymentStatus.pending) × (p.status ≢ PaymentStatus.processing)
settled_free order_id p free same = (
  λ e.
      ground
        (arith, ==_iff p.order_id order_id, payment_status_eq_iff PaymentStatus.pending p.status),
  λ e.
      ground (
        arith,
        ==_iff p.order_id order_id,
        payment_status_eq_iff PaymentStatus.processing p.status,
      ),
)

is_own_iff :
    (principal : Principal) (o : Order)
    → (is_own principal o ≡ true)
      ↔ ((d : Label) → principal ≡ device d → o.kiosk_device_id ≡ some d)
is_own_iff (staff u r v) o = (λ h d e. cc, λ h. refl)
is_own_iff (device d) o = (
  λ h c e. option_eq-some o.kiosk_device_id d h ∙ ap (device_of d) e,
  λ h. rw (h d refl) ((==_iff d d).1 refl),
)

-- No payment of the order waits for the gateway.
abbrev AllSettled : Label → List Payment → Type 0
AllSettled order_id = All (λ p.
    p.order_id ≡ order_id
    → (p.status ≢ PaymentStatus.pending) × (p.status ≢ PaymentStatus.processing))

find_live_iff :
    (order_id : Label) (ps : List Payment)
    → (find? (λ p. p.order_id == order_id && is_live p.status) ps ≡ none) ↔ AllSettled order_id ps
find_live_iff order_id [] = (λ h. tt, λ h. refl)
find_live_iff order_id (p ∷ ps) = elim (Bool-cases (p.order_id == order_id && is_live p.status)) [
  | inl live ↦
      (λ h. absurd (some-ne-none (rw live at h)), λ h. absurd (live_unsettled order_id p live h.0))
  | inr free ↦
      let rest = find_live_iff order_id ps in
      (λ h. (settled_free order_id p free, rest.0 (rw free at h)), λ h. rw free (rest.1 h.1))
]

-- The load step accepts exactly the orders that are there, are the device's own if a device asks,
-- wait for their payment, and have no payment that is pending or processing.
pub load_payable_order_iff :
    (principal : Principal) (order_id : Label) (read : Db) (o : Order)
    → (load_payable_order principal order_id read ≡ ok o) ↔ (
        (find_order order_id read ≡ some o)
        × ((d : Label) → principal ≡ device d → o.kiosk_device_id ≡ some d)
        × (o.status ≡ OrderStatus.pending_payment)
        × All
            (λ p.
              p.order_id ≡ order_id
              → (p.status ≢ PaymentStatus.pending) × (p.status ≢ PaymentStatus.processing))
            read.payments)
unfolding load_payable_order
load_payable_order_iff principal order_id read o =
    let found_of =
      payable_found_iff principal order_id (find_order order_id read) (find_live order_id read) o in
    let own_of = is_own_iff principal o in
    let live_of = find_live_iff order_id read.payments in
    (
      λ h.
          let (found, own, waits, free) = found_of.0 h in
          (found, own_of.0 own, waits, live_of.0 free),
      λ (found, own, waits, free). found_of.1 (found, own_of.1 own, waits, live_of.1 free),
    )
