-- ===== src/Tx.antt =====
-- src/realtime/events/after-commit.service.ts and the transactions of Drizzle: work on the store
-- that buffers events, and is undone by a throw.
mod Errors
pub mod Ensures
pub use Errors.*
use cafe_pos.Prelude.{true, false, Bool, Option, none, some, List, [], ◌++◌, if◌then◌else◌}
use cafe_pos.Schema.Rows.{Label}
use cafe_pos.Schema.Store.{Db}
use mathlib.Core.List.{◌∷◌}

-- src/realtime/events/domain-event.ts: the order, the owning device, the payment.
pub data DomainEvent : Type 0 where
  order_paid order_updated order_ready : Label → Option Label → DomainEvent
  payment_succeeded payment_failed : Label → Option Label → Label → DomainEvent

-- An open transaction: its own view of the store, and the events it has buffered, in order.
pub record Session : Type 0 where
  pub db : Db
  pub pending : List DomainEvent

pub data Result (A : Type 0) : Type 0 where
  ok : A → Result A
  err : AppError → Result A

abbrev pub Tx : Type 0 → Type 0
Tx A = Session → Result (A × Session)

abbrev pub pure : {A : Type 0} → A → Tx A
pure a s = ok (a, s)

abbrev pub throw : {A : Type 0} → AppError → Tx A
throw e s = err e

infixl 5 ◌>>=◌ ◌>>◌
abbrev pub ◌>>=◌ : {A B : Type 0} → Tx A → (A → Tx B) → Tx B
◌>>=◌ m f s = elim (m s) [ ok (a, s') ↦ f a s' | err e ↦ err e ]

abbrev pub ◌>>◌ : {A B : Type 0} → Tx A → Tx B → Tx B
m >> k = m >>= λ _. k

abbrev pub throw_if : Bool → AppError → Tx (Unit {0})
throw_if true e s = err e
throw_if false e s = ok (tt, s)

abbrev pub or_throw : {A : Type 0} → Option A → AppError → Tx A
or_throw none e s = err e
or_throw (some a) e s = ok (a, s)

abbrev pub lift : {A : Type 0} → Result A → Tx A
lift (ok a) s = ok (a, s)
lift (err e) s = err e

abbrev pub query : {A : Type 0} → (Db → A) → Tx A
query f s = ok (f s.db, s)

abbrev pub execute : (Db → Db) → Tx (Unit {0})
execute f s = ok (tt, record s { db = f s.db })

abbrev pub emit : DomainEvent → Tx (Unit {0})
emit e s = ok (tt, record s { pending = s.pending ++ (e ∷ []) })

abbrev pub emit_all : List DomainEvent → Tx (Unit {0})
emit_all es s = ok (tt, record s { pending = s.pending ++ es })

-- What a caller of `AfterCommit.run` and the world outside see.
pub record Outcome (A : Type 0) : Type 0 where
  pub result : Result A
  pub db : Db
  pub announced : List DomainEvent

-- `AfterCommit.run` with its `flush`. `delivers` says whether the publisher took the batch; a
-- publisher that throws is logged and the result stands.
unfoldable pub finish :
    {A : Type 0} → (List DomainEvent → Bool) → Db → Result (A × Session) → Outcome A
finish delivers db (ok (a, s)) = record {
  result = ok a;
  db = s.db;
  announced = if delivers s.pending then s.pending else [];
}
finish delivers db (err e) = record { result = err e; db = db; announced = [] }

unfoldable pub run : {A : Type 0} → (List DomainEvent → Bool) → Tx A → Db → Outcome A
unfolding finish
run delivers work db = finish delivers db (work (record { db = db; pending = [] }))

-- `db.transaction(work)`: the committed store, or the old one.
unfoldable pub transaction : {A : Type 0} → Tx A → Db → Result A × Db
transaction work db = elim (work (record { db = db; pending = [] })) [
  | ok (a, s) ↦ (ok a, s.db)
  | err e ↦ (err e, db)
]
