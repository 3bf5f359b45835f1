-- ===== src/Payments/Reconciliation/Agreement.antt =====
-- When a reconciliation finds no difference.
use cafe_pos.Prelude.Int.{sub_ℕ, pos}
use cafe_pos.Schema.Store.{Db}
use cafe_pos.Payments.Reconciliation.{
  intent_ids, reconcile, ReconciliationReport, report_of, recorded_rows,
}
use cafe_pos.Reporting.Groups.{sum_of}
use cafe_pos.Schema.Rows.{Payment, Label, Order}
use cafe_pos.Payments.Stripe.{
  StripeReply, StripeApi, captured_total_for, StripeIntent, replies, Captured, is_captured,
  capture_next, invalid_request, gateway_unreachable, other_error,
}
use cafe_pos.Prelude.{
  [], ◌∷◌, some, none, ℕ, List, Option, All, if◌then◌else◌, ◌≤◌, ◌≡◌, ◌+◌, sym, ◌↔◌, refl,
  Bool-cases, ap, arith, eq_of_some, inl, inr, ◌∙◌, Option-cases,
}

-- What the gateway says it took for an intent.
abbrev pub taken_in : StripeReply StripeIntent → ℕ
taken_in (replies i) = if is_captured i.status then i.amount_received else 0
taken_in invalid_request = 0
taken_in gateway_unreachable = 0
taken_in other_error = 0

abbrev pub received : StripeApi → Payment → ℕ
received api p = received_for p.provider_intent_id
  where
    received_for : Option Label → ℕ
    received_for none = 0
    received_for (some id) = taken_in (api.retrieve id)

capture_next-total :
    (reply : StripeReply StripeIntent) (id : Label) (o : Option Captured) (c : Captured)
    → capture_next reply id o ≡ some c
    → (d : Captured) × (o ≡ some d) × (c.total_minor ≡ taken_in reply + d.total_minor)
capture_next-total reply id none c h = cc
capture_next-total invalid_request id (some d) c h = cc
capture_next-total gateway_unreachable id (some d) c h = cc
capture_next-total other_error id (some d) c h = cc
capture_next-total (replies i) id (some d) c h = (
  d,
  refl,
  elim (Bool-cases (is_captured i.status)) [
    | inl e ↦ rw e (sym (ap (λ t. t.total_minor) (eq_of_some h)) ∙ rw e refl)
    | inr e ↦ rw e (sym (ap (λ t. t.total_minor) (eq_of_some h)) ∙ rw e (omega arith))
  ],
)

captured-total :
    (api : StripeApi) (ids : List Label) (c : Captured)
    → captured_total_for api ids ≡ some c
    → c.total_minor ≡ sum_of (λ id. taken_in (api.retrieve id)) ids
unfolding captured_total_for
captured-total api [] c h = sym (ap (λ d. d.total_minor) (eq_of_some h))
captured-total api (id ∷ ids) c h =
    let (d, e, k) = capture_next-total (api.retrieve id) id (captured_total_for api ids) c h in
    omega (arith, k, captured-total api ids d e)

intent_ids-received :
    (api : StripeApi) (rows : List (Payment × Order))
    → sum_of (λ id. taken_in (api.retrieve id)) (intent_ids rows)
      ≡ sum_of (λ r. received api r.0) rows
intent_ids-received api [] = refl
intent_ids-received api ((p, o) ∷ rows) = elim (Option-cases p.provider_intent_id) [
  | inl e ↦ rw e (omega (arith, intent_ids-received api rows))
  | inr (id, e) ↦ rw e (omega (arith, intent_ids-received api rows))
]

-- Two sums, one below the other term by term, are equal exactly when the terms are.
sum-agrees :
    {A : Type 0} (v w : A → ℕ) (xs : List A)
    → All (λ x. v x ≤ w x) xs
    → (sum_of v xs ≤ sum_of w xs) × ((sum_of v xs ≡ sum_of w xs) ↔ All (λ x. v x ≡ w x) xs)
sum-agrees v w [] h = (omega arith, (λ e. tt, λ a. refl))
sum-agrees v w (x ∷ xs) (h, hs) =
    let (below, agrees) = sum-agrees v w xs hs in
    (
      omega arith,
      (
        λ e. (omega arith, agrees.0 (omega arith)),
        λ a. let f = a.0 in let g = agrees.1 a.1 in omega arith,
      ),
    )

report-of :
    (day : Label) (db : Db) (o : Option Captured) (r : ReconciliationReport)
    → report_of day db o ≡ some r
    → (c : Captured) × (o ≡ some c)
      × (r.delta_minor
          ≡ sub_ℕ c.total_minor (sum_of (λ row. row.0.amount_minor) (recorded_rows day db)))
report-of day db none r h = cc
report-of day db (some c) r h = (c, refl, sym (ap (λ t. t.delta_minor) (eq_of_some h)))

sub-zero : (a b : ℕ) → (sub_ℕ a b ≡ pos 0) ↔ (a ≡ b)
sub-zero a b = ground arith

-- Where the gateway has taken for no payment more than it is recorded with, a report of a day has
-- a difference of zero exactly when for each payment that is recorded as succeeded by Stripe on the
-- day the gateway has taken its amount, its intent captured.
pub reconcile_agrees_iff :
    (api : StripeApi) (day : Label) (db : Db) (r : ReconciliationReport)
    → reconcile api day db ≡ some r
    → All (λ row. received api row.0 ≤ row.0.amount_minor) (recorded_rows day db)
    → (r.delta_minor ≡ pos 0)
      ↔ All (λ row. received api row.0 ≡ row.0.amount_minor) (recorded_rows day db)
unfolding reconcile
reconcile_agrees_iff api day db r h within =
    let rows = recorded_rows day db in
    let (c, e, delta) = report-of day db (captured_total_for api (intent_ids rows)) r h in
    let total = captured-total api (intent_ids rows) c e ∙ intent_ids-received api rows in
    let agrees =
      (sum-agrees (λ row. received api row.0) (λ row. row.0.amount_minor) rows within).1 in
    let zero = sub-zero c.total_minor (sum_of (λ row. row.0.amount_minor) rows) in
    (λ d. agrees.0 (sym total ∙ zero.0 (sym delta ∙ d)), λ a. delta ∙ zero.1 (total ∙ agrees.1 a))
