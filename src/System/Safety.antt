-- ===== src/System/Safety.antt =====
-- What holds after any history of requests on an empty store, whatever the gateway answers to each,
-- and whatever each request read before its transaction ran.
use cafe_pos.System.Payments.{is_settled_iff}
use cafe_pos.Payments.Refunds.{refunded_so_far}
use cafe_pos.Payments.Webhooks.Decide.{is_settled}
use cafe_pos.System.History.{
  snapshot, history_from, Request, store_after, newest, serve-Step, serve,
}
use cafe_pos.Schema.Rows.{Label, Payment}
use cafe_pos.Tx.{DomainEvent}
use cafe_pos.System.Step.{Step, facts_in, Step-refl, Step-trans}
use cafe_pos.Payments.Provider.{PaymentProvider}
use cafe_pos.Schema.Enums.{PaymentStatus}
use cafe_pos.System.Invariant.{Inv, taken, has_with, OnePerOrder, audited_status, IsBacked}
use cafe_pos.Schema.Store.{Db, is_live, status_in}
use cafe_pos.Prelude.{
  [], ◌∷◌, zero, suc, true, false, some, List, Bool, All, ℕ, refl, count_if, ◌++◌, ◌≤◌, ◌≡◌, ◌==◌,
  length, arith, ◌&&◌, Bool-cases, inr, inl, ==_iff,
}

-- No rows.
abbrev pub empty_store : Db
empty_store = record {
  orders = [];
  order_items = [];
  history = [];
  counters = [];
  payments = [];
  refunds = [];
  events = [];
  keys = [];
  option_rows = [];
}

empty_store-Inv : Inv empty_store
empty_store-Inv = record {
  unique_orders = tt;
  unique_payments = tt;
  backed = tt;
  one_live = tt;
  one_settled = tt;
  audited = λ i. refl;
  refunds_known = tt;
  refunds_within = tt;
}

-- The payments of an order in a status that `q` names.
abbrev pub payments_with : (PaymentStatus → Bool) → Label → List Payment → ℕ
payments_with q o ps = count_if (λ p. p.order_id == o && q p.status) ps

has_with-payments_with :
    (q : PaymentStatus → Bool) (o : Label) (ps : List Payment)
    → has_with q o ps ≡ false
    → payments_with q o ps ≡ 0
has_with-payments_with q o [] h = refl
has_with-payments_with q o (p ∷ ps) h = ground (arith, has_with-payments_with q o ps)

OnePerOrder-payments_with :
    (q : PaymentStatus → Bool) (o : Label) (ps : List Payment)
    → OnePerOrder q ps
    → payments_with q o ps ≤ 1
OnePerOrder-payments_with q o [] h = omega arith
OnePerOrder-payments_with q o (p ∷ ps) h = elim (Bool-cases (p.order_id == o)) [
  | inr other ↦ rw other (omega (arith, OnePerOrder-payments_with q o ps h.1))
  | inl same ↦ elim (Bool-cases (q p.status)) [
    | inr outside ↦ rw (same, outside) (omega (arith, OnePerOrder-payments_with q o ps h.1))
    | inl inside ↦
        let mine : p.order_id ≡ o = (==_iff p.order_id o).0 same in
        let alone : has_with q o ps ≡ false = rw (inside, mine) at h.0 in
        rw (same, inside) (omega (arith, has_with-payments_with q o ps alone))
  ]
]

-- Every store of the past is consistent, and the newest one follows from it.
unfoldable Leads : Db → Db → Type 0
Leads now s = Inv s × Step s now

All-map {ℓ κ} :
    {A : Type ℓ} (P Q : A → Type κ) (xs : List A) → ((x : A) → P x → Q x) → All P xs → All Q xs
All-map P Q [] f h = tt
All-map P Q (x ∷ xs) f h = (f x h.0, All-map P Q xs f h.1)

snapshot-holds :
    (P : Db → Type 0) (db : Db) (back : ℕ) (past : List Db)
    → P db
    → All P past
    → P (snapshot db back past)
snapshot-holds P db back [] h hs = h
snapshot-holds P db zero (x ∷ past) h hs = hs.0
snapshot-holds P db (suc back) (x ∷ past) h hs = snapshot-holds P db back past h hs.1

module _ (gateways : ℕ → PaymentProvider) (delivers : List DomainEvent → Bool) where
  history-Leads :
      (db : Db) (requests : List (Request × ℕ))
      → Inv db
      → All
          (Leads (store_after gateways delivers db requests))
          (history_from gateways delivers db requests)
        × Leads (store_after gateways delivers db requests) db
  unfolding history_from Leads
  history-Leads db [] h = (((h, Step-refl db h), tt), (h, Step-refl db h))
  history-Leads db ((request, back) ∷ earlier) h =
      let past = history_from gateways delivers db earlier in
      let now = newest db past in
      let (leads, first) = history-Leads db earlier h in
      let read = snapshot db back past in
      let (old, old_step) = snapshot-holds (Leads now) db back past first leads in
      let step =
        serve-Step (gateways (length earlier)) delivers request read now old old_step.grows
          old_step.inv in
      let next = serve (gateways (length earlier)) delivers request read now in
      let follow : (s : Db) → Leads now s → Leads next s =
        λ s (inv, st). (inv, Step-trans s now next st step) in
      (
        ((step.inv, Step-refl next step.inv), All-map (Leads now) (Leads next) past follow leads),
        follow db first,
      )

  store_after-Inv :
      (requests : List (Request × ℕ)) → Inv (store_after gateways delivers empty_store requests)
  unfolding Leads
  store_after-Inv requests = (history-Leads empty_store requests empty_store-Inv).1.1.inv

  store_after-Step :
      (earlier later : List (Request × ℕ))
      → Step
          (store_after gateways delivers empty_store earlier)
          (store_after gateways delivers empty_store (later ++ earlier))
  unfolding history_from Leads
  store_after-Step earlier [] =
      Step-refl (store_after gateways delivers empty_store earlier) (store_after-Inv earlier)
  store_after-Step earlier ((request, back) ∷ later) =
      let past = history_from gateways delivers empty_store (later ++ earlier) in
      let now = newest empty_store past in
      let (leads, first) = history-Leads empty_store (later ++ earlier) empty_store-Inv in
      let read = snapshot empty_store back past in
      let (old, old_step) = snapshot-holds (Leads now) empty_store back past first leads in
      Step-trans (store_after gateways delivers empty_store earlier) now
        (serve (gateways (length (later ++ earlier))) delivers request read now)
        (store_after-Step earlier later)
        (serve-Step (gateways (length (later ++ earlier))) delivers request read now old
          old_step.grows old_step.inv)

  -- After any history of requests on an empty store no order has more than one payment that has
  -- succeeded.
  pub one_success_per_order :
      (requests : List (Request × ℕ)) (o : Label)
      → payments_with is_settled o (store_after gateways delivers empty_store requests).payments ≤ 1
  one_success_per_order requests o =
      OnePerOrder-payments_with is_settled o _ (store_after-Inv requests).one_settled

  -- After any history of requests on an empty store no order has more than one live payment.
  pub one_live_per_order :
      (requests : List (Request × ℕ)) (o : Label)
      → payments_with is_live o (store_after gateways delivers empty_store requests).payments ≤ 1
  one_live_per_order requests o =
      OnePerOrder-payments_with is_live o _ (store_after-Inv requests).one_live

  -- After any history of requests on an empty store the refunds of each payment add up to at most
  -- its amount.
  pub refunds_within_payment :
      (requests : List (Request × ℕ))
      → let db = store_after gateways delivers empty_store requests in
        All (λ p. refunded_so_far p.id db.refunds ≤ p.amount_minor) db.payments
  refunds_within_payment requests = (store_after-Inv requests).refunds_within

  -- After any history of requests on an empty store the order of a payment that has succeeded is
  -- paid, in preparation, ready, completed or refunded.
  pub success_is_backed :
      (requests : List (Request × ℕ))
      → let db = store_after gateways delivers empty_store requests in
        All
          (λ p. p.status ≡ PaymentStatus.succeeded → taken (status_in p.order_id db.orders) ≡ true)
          db.payments
  success_is_backed requests =
      let db = store_after gateways delivers empty_store requests in
      All-map (IsBacked db.orders)
        (λ p. p.status ≡ PaymentStatus.succeeded → taken (status_in p.order_id db.orders) ≡ true)
        db.payments (λ p backed done. backed ((is_settled_iff p.status).1 done))
        (store_after-Inv requests).backed

  -- After any history of requests on an empty store the newest audit row of each order names the
  -- status that the order is in, and only an order that does not exist has none.
  pub audit_agrees :
      (requests : List (Request × ℕ)) (i : Label)
      → let db = store_after gateways delivers empty_store requests in
        audited_status i db.history ≡ status_in i db.orders
  audit_agrees requests i = (store_after-Inv requests).audited i

  -- An order that has taken money at some point of a history on an empty store (it is paid, in
  -- preparation, ready, completed or refunded) has done so at every later point.
  pub money_stays_taken :
      (earlier later : List (Request × ℕ)) (i : Label)
      → taken (status_in i (store_after gateways delivers empty_store earlier).orders) ≡ true
      → taken (status_in i (store_after gateways delivers empty_store (later ++ earlier)).orders)
        ≡ true
  money_stays_taken earlier later i h = (store_after-Step earlier later).money i h

  -- A payment that exists at some point of a history on an empty store exists at every later
  -- point, for the same order and the same amount.
  pub payment_facts_stay :
      (earlier later : List (Request × ℕ)) (j : Label) (x : Label × ℕ)
      → facts_in j (store_after gateways delivers empty_store earlier).payments ≡ some x
      → facts_in j (store_after gateways delivers empty_store (later ++ earlier)).payments ≡ some x
  payment_facts_stay earlier later j x h = (store_after-Step earlier later).grows j x h
