-- ===== src/System/Step.antt =====
-- What every door does to the store: it keeps the invariant, and what was written of money stands.
-- A payment keeps its order and its amount.
use cafe_pos.Payments.Webhooks.Processor.{with_status}
use cafe_pos.Payments.Webhooks.Decide.{is_settled}
use cafe_pos.System.Orders.{MoneyStays, KeepsTaken, move_order-Inv, move_order-KeepsTaken}
use cafe_pos.Schema.Enums.{PaymentStatus}
use cafe_pos.System.Payments.{
  Keeps, with_status-Keeps, update-UniquePayments, update-IsBacked, update-OnePerOrder,
  update-refunds_known, update-refunds_within,
}
use cafe_pos.System.Invariant.{Inv, IsConsistent}
use cafe_pos.Orders.Transition.{TransitionRequest, move_order}
use cafe_pos.Schema.Store.{Db, status_in, is_live}
use cafe_pos.Prelude.{
  [], ◌∷◌, List, Option, ℕ, Bool, none, ◌≡◌, some, update_where, false, if◌then◌else◌, arith, ◌==◌,
}
use cafe_pos.Schema.Rows.{Label, Payment, Order, Refund, OrderStatusHistory}

abbrev pub facts_in : Label → List Payment → Option (Label × ℕ)
facts_in j [] = none
facts_in j (p ∷ ps) = if p.id == j then some (p.order_id, p.amount_minor) else facts_in j ps

abbrev pub Grows : List Payment → List Payment → Type 0
Grows ps ps' = (j : Label) (x : Label × ℕ) → facts_in j ps ≡ some x → facts_in j ps' ≡ some x

pub record Advances (os : List Order) (ps : List Payment) (os' : List Order) (ps' : List Payment)
    (rs' : List Refund) (hs' : List OrderStatusHistory) : Type 0 where
  pub inv : IsConsistent os' ps' rs' hs'
  pub grows : Grows ps ps'
  pub money : KeepsTaken os os'

abbrev pub Step : Db → Db → Type 0
Step a b = Advances a.orders a.payments b.orders b.payments b.refunds b.history

pub Step-refl : (db : Db) → Inv db → Step db db
Step-refl db h = record { inv = h; grows = λ j x e. e; money = λ j e. e }

pub Step-trans : (a b c : Db) → Step a b → Step b c → Step a c
Step-trans a b c f g = record {
  inv = g.inv;
  grows = λ j x e. g.grows j x (f.grows j x e);
  money = λ j e. g.money j (f.money j e);
}

-- A write that keeps ids, orders and amounts.
pub update-Grows :
    (g : Payment → Bool) (f : Payment → Payment) (keeps : Keeps f) (ps : List Payment)
    → Grows ps (update_where g f ps)
update-Grows g f keeps [] j x e = e
update-Grows g f keeps (p ∷ ps) j x e =
    ground (arith, update-Grows g f keeps ps j x, keeps.id p, keeps.order p, keeps.amount p)

-- A status that is neither live nor a success may be given to any payments.
pub lower-Step :
    (g : Payment → Bool) (status : PaymentStatus) (db : Db)
    → is_live status ≡ false
    → is_settled status ≡ false
    → Inv db
    → Step db (record db { payments = update_where g (with_status status) db.payments })
lower-Step g status db not_live not_settled h =
    let f = with_status status in
    let keeps = with_status-Keeps status in
    record {
      inv = record {
        unique_orders = h.unique_orders;
        unique_payments = update-UniquePayments g f keeps db.payments h.unique_payments;
        backed = update-IsBacked g f keeps db.orders db.payments (λ p. not_settled) h.backed;
        one_live = update-OnePerOrder g f keeps is_live db.payments (λ p. not_live) h.one_live;
        one_settled =
            update-OnePerOrder g f keeps is_settled db.payments (λ p. not_settled) h.one_settled;
        audited = h.audited;
        refunds_known = update-refunds_known g f keeps db.payments db.refunds h.refunds_known;
        refunds_within = update-refunds_within g f keeps db.refunds db.payments h.refunds_within;
      };
      grows = update-Grows g f keeps db.payments;
      money = λ j e. e;
    }

-- An accepted move.
pub move-Step :
    (rq : TransitionRequest) (db : Db)
    → status_in rq.order_id db.orders ≡ some rq.from
    → MoneyStays rq
    → Inv db
    → Step db (move_order rq db)
move-Step rq db was stays h = record {
  inv = move_order-Inv rq db was stays h;
  grows = λ j x e. e;
  money = move_order-KeepsTaken rq db was stays;
}
