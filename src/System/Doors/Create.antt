-- ===== src/System/Doors/Create.antt =====
-- The door through which an order enters.
use cafe_pos.Orders.Idempotency.{reserve_key, complete_key, is_key_already_reserved}
use cafe_pos.Schema.Views.{OrderView, order_body, ResponseBody}
use cafe_pos.Orders.Pricing.{PricedOrder, price_order}
use cafe_pos.System.Orders.{KeepsTaken, KeepsTaken-IsBacked}
use cafe_pos.Tx.Ensures.{
  Ensures, Ensures-bind, Ensures-lift, Ensures-map, Ensures-throw_if, transaction_keeps,
}
use cafe_pos.System.Step.{Step, Step-refl, Step-trans}
use cafe_pos.Schema.Enums.{OrderChannel}
use cafe_pos.System.Invariant.{Inv, taken}
use cafe_pos.Identity.Principal.{Principal}
use cafe_pos.Tx.{Session, Tx, ◌>>◌, Result, transaction, ◌>>=◌, pure, ok, err}
use cafe_pos.Schema.Store.{Db, status_in}
use cafe_pos.Schema.Constraints.{order_conflicts}
use cafe_pos.Orders.Create.{
  persist, insert_order, OrderEnv, CreateOrderInput, opening_number, order_row, opening_entry,
  opening_status, build, create_tx, create, resolve_channel, key_expiry, read_catalog,
  answer_create, expects_other,
}
use cafe_pos.Orders.Number.{next_order_number}
use cafe_pos.Schema.Rows.{Order, OrderStatusHistory, Label}
use cafe_pos.Prelude.{
  [], ◌∷◌, true, false, none, List, Bool, ◌≡◌, arith, refl, Bool-cases, ◌==◌, inl, ==_iff, inr, ℕ,
  any, Option, some, subst, sym,
}

fresh_status :
    (o : Order) (os : List Order) → order_conflicts o os ≡ false → status_in o.id os ≡ none
fresh_status o [] e = refl
fresh_status o (x ∷ os) e = ground (arith, fresh_status o os)

-- A new row with its first audit row.
open-Step :
    (o : Order) (entry : OrderStatusHistory) (db : Db)
    → order_conflicts o db.orders ≡ false
    → entry.order_id ≡ o.id
    → entry.to_status ≡ o.status
    → Inv db
    → Step db (record db { orders = o ∷ db.orders; history = entry ∷ db.history })
open-Step o entry db free mine says h =
    let fresh = fresh_status o db.orders free in
    let money : KeepsTaken db.orders (o ∷ db.orders) = λ j paid. elim (Bool-cases (o.id == j)) [
      | inl e ↦
          let same : o.id ≡ j = (==_iff o.id j).0 e in
          let unpaid : taken (status_in j db.orders) ≡ false = rw (← same, fresh) refl in
          ground (arith, unpaid, paid)
      | inr e ↦ rw (e, status_in) paid
    ] in
    record {
      inv = record {
        unique_orders = (fresh, h.unique_orders);
        unique_payments = h.unique_payments;
        backed = KeepsTaken-IsBacked db.orders (o ∷ db.orders) db.payments money h.backed;
        one_live = h.one_live;
        one_settled = h.one_settled;
        audited = λ i. elim (Bool-cases (o.id == i)) [
          | inl e ↦ rw (mine, e, says, status_in) refl
          | inr e ↦ rw (mine, e, status_in) (h.audited i)
        ];
        refunds_known = h.refunds_known;
        refunds_within = h.refunds_within;
      };
      grows = λ j x e. e;
      money = money;
    }

opening_number-Ensures :
    (draft : Bool) (day : Label) (s : Session)
    → Inv s.db
    → Ensures (λ _ t. Step s.db t.db) (opening_number draft day s)
unfolding next_order_number
opening_number-Ensures true day s h = Step-refl s.db h
opening_number-Ensures false day s h = Step-refl s.db h

persist-Ensures :
    (env : OrderEnv) (principal : Principal) (channel : OrderChannel) (input : CreateOrderInput)
    (priced : PricedOrder) (s : Session)
    → Inv s.db
    → Ensures (λ _ t. Step s.db t.db) (persist env principal channel input priced s)
unfolding persist insert_order
persist-Ensures env principal channel input priced s h =
    let Q = λ (_ : OrderView) (t : Session). Step s.db t.db in
    Ensures-bind (λ _ t. Step s.db t.db) Q (opening_number input.draft env.today) _ s
      (opening_number-Ensures input.draft env.today s h)
      (λ number t st.
        let row = order_row env principal channel input priced number in
        let entry = opening_entry env principal (opening_status input.draft) in
        elim (Bool-cases (order_conflicts row t.db.orders)) [
          | inl clash ↦ rw (clash, Ensures) tt
          | inr free ↦
              rw (free, Ensures)
                (Step-trans s.db t.db
                  (record t.db { orders = row ∷ t.db.orders; history = entry ∷ t.db.history }) st
                  (open-Step row entry t.db free refl refl st.inv))
        ])

build-Ensures :
    (env : OrderEnv) (principal : Principal) (input : CreateOrderInput) (s : Session)
    → Inv s.db
    → Ensures (λ _ t. Step s.db t.db) (build env principal input s)
unfolding build
build-Ensures env principal input s h =
    let Q = λ (_ : OrderView) (t : Session). Step s.db t.db in
    Ensures-lift Q (resolve_channel env principal input) _ s λ channel _.
      Ensures-lift Q (price_order input.items (read_catalog env.menu) env.vat_basis_points) _ s
        λ priced _.
          Ensures-throw_if Q (expects_other input.expected_total_minor priced.total_minor) _ _ s
            λ _. persist-Ensures env principal channel input priced s h

reserve_key-Ensures :
    (key request_hash : Label) (expires_at : ℕ) (s : Session)
    → Inv s.db
    → Ensures (λ _ t. Step s.db t.db) (reserve_key key request_hash expires_at s)
unfolding reserve_key
reserve_key-Ensures key request_hash expires_at s h =
    elim (Bool-cases (any (λ k. k.key == key) s.db.keys)) [
      | inl there ↦ rw (there, Ensures) tt
      | inr free ↦ rw (free, Ensures) (Step-refl s.db h)
    ]

-- A work under an idempotency key: the key is reserved before and completed after.
pub keyed-Ensures :
    {A B : Type 0} (key request_hash : Label) (expires_at : ℕ) (work : Tx A) (after : A → Tx B)
    (s : Session)
    → ((t : Session) → Inv t.db → Ensures (λ _ u. Step t.db u.db) (work t))
    → ((a : A) (t : Session) → Inv t.db → Ensures (λ _ u. Step t.db u.db) (after a t))
    → Inv s.db
    → Ensures
        (λ _ t. Step s.db t.db)
        ((reserve_key key request_hash expires_at >> (work >>= after)) s)
keyed-Ensures {A} {B} key request_hash expires_at work after s works afters h =
    let Q = λ (_ : B) (t : Session). Step s.db t.db in
    Ensures-bind (λ _ t. Step s.db t.db) Q (reserve_key key request_hash expires_at) _ s
      (reserve_key-Ensures key request_hash expires_at s h)
      (λ _ t st.
        Ensures-bind (λ _ u. Step t.db u.db) Q work after t (works t st.inv)
          (λ a u su.
            Ensures-map (λ _ v. Step u.db v.db) Q (after a u) (afters a u su.inv)
              (λ _ v sv. Step-trans s.db t.db v.db st (Step-trans t.db u.db v.db su sv))))

complete_create-Ensures :
    (key : Label) (view : OrderView) (s : Session)
    → Inv s.db
    → Ensures
        (λ _ t. Step s.db t.db)
        ((do complete_key key 201 (order_body view); pure (order_body view)) s)
unfolding complete_key
complete_create-Ensures key view s h = Step-refl s.db h

create_tx-Ensures :
    (env : OrderEnv) (principal : Principal) (input : CreateOrderInput)
    (keyed : Option (Label × Label)) (s : Session)
    → Inv s.db
    → Ensures (λ _ t. Step s.db t.db) (create_tx env principal input keyed s)
unfolding create_tx
create_tx-Ensures env principal input none s h =
    Ensures-bind (λ _ t. Step s.db t.db) (λ _ t. Step s.db t.db) (build env principal input) _ s
      (build-Ensures env principal input s h) (λ _ t st. st)
create_tx-Ensures env principal input (some (key, request_hash)) s h =
    keyed-Ensures key request_hash (key_expiry env) (build env principal input) _ s
      (build-Ensures env principal input) (complete_create-Ensures key) h

answer_create-db :
    (keyed : Option (Label × Label)) (r : Result ResponseBody × Db)
    → (answer_create keyed r).1 ≡ r.1
unfolding is_key_already_reserved
answer_create-db keyed (ok body, db) = refl
answer_create-db none (err e, db) = refl
answer_create-db (some (key, request_hash)) (err e, db) = ground arith

pub create-Step :
    (env : OrderEnv) (principal : Principal) (input : CreateOrderInput)
    (keyed : Option (Label × Label)) (db : Db)
    → Inv db
    → Step db (create env principal input keyed db).1
unfolding create
create-Step env principal input keyed db h =
    let r = transaction (create_tx env principal input keyed) db in
    subst (Step db) (sym (answer_create-db keyed r)) (
      transaction_keeps (Step db) (create_tx env principal input keyed) db (Step-refl db h)
        (create_tx-Ensures env principal input keyed (record { db = db; pending = [] }) h))
