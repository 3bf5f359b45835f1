-- ===== src/Tx/Ensures.antt =====
-- Reasoning about transactions step by step: what holds of the result and the session if a step
-- goes through.
use cafe_pos.Prelude.{◌≡◌, refl, List, [], Bool, Option, false, some, none, true, subst}
use cafe_pos.Schema.Store.{Db}
use cafe_pos.Tx.{
  Session, Result, ok, err, Tx, ◌>>=◌, run, transaction, finish, DomainEvent, AppError, throw_if,
  or_throw, ◌>>◌, lift,
}

abbrev pub Ensures : {A : Type 0} → (A → Session → Type 0) → Result (A × Session) → Type 0
Ensures Q (ok (a, t)) = Q a t
Ensures Q (err e) = Unit

pub Ensures-bind :
    {A B : Type 0} (Q : A → Session → Type 0) (R : B → Session → Type 0) (m : Tx A) (f : A → Tx B)
    (s : Session)
    → Ensures Q (m s)
    → ((a : A) (t : Session) → Q a t → Ensures R (f a t))
    → Ensures R ((m >>= f) s)
Ensures-bind {A} {B} Q R m f s h k = go (m s) h
  where
    go :
        (r : Result (A × Session))
        → Ensures Q r
        → Ensures R (elim r [ ok (a, s') ↦ f a s' | err e ↦ err e ])
    go (ok (a, t)) q = k a t q
    go (err e) q = tt

-- The two refusals: past them, the value is there, or the test is false.
pub Ensures-or_throw :
    {A B : Type 0} (R : B → Session → Type 0) (o : Option A) (e : AppError) (f : A → Tx B)
    (s : Session)
    → ((a : A) → o ≡ some a → Ensures R (f a s))
    → Ensures R ((or_throw o e >>= f) s)
Ensures-or_throw R none e f s k = tt
Ensures-or_throw R (some a) e f s k = k a refl

pub Ensures-throw_if :
    {B : Type 0} (R : B → Session → Type 0) (b : Bool) (e : AppError) (m : Tx B) (s : Session)
    → (b ≡ false → Ensures R (m s))
    → Ensures R ((throw_if b e >> m) s)
Ensures-throw_if R true e m s k = tt
Ensures-throw_if R false e m s k = k refl

-- A weaker promise.
pub Ensures-map :
    {A : Type 0} (Q R : A → Session → Type 0) (r : Result (A × Session))
    → Ensures Q r
    → ((a : A) (t : Session) → Q a t → R a t)
    → Ensures R r
Ensures-map Q R (ok (a, t)) h k = k a t h
Ensures-map Q R (err e) h k = tt

-- A result that was computed beside the store.
pub Ensures-lift :
    {A B : Type 0} (R : B → Session → Type 0) (r : Result A) (f : A → Tx B) (s : Session)
    → ((a : A) → r ≡ ok a → Ensures R (f a s))
    → Ensures R ((lift r >>= f) s)
Ensures-lift R (ok a) f s k = k a refl
Ensures-lift R (err e) f s k = tt

-- What is known of every result that goes through.
pub Ensures-ok :
    {A : Type 0} (Q : A → Session → Type 0) (r : Result (A × Session))
    → ((a : A) (t : Session) → r ≡ ok (a, t) → Q a t)
    → Ensures Q r
Ensures-ok Q (ok (a, t)) h = h a t refl
Ensures-ok Q (err e) h = tt

-- A property of the store that holds before and that the work keeps holds after, also if the work
-- is undone.
pub run_keeps :
    {A : Type 0} (P : Db → Type 0) (delivers : List DomainEvent → Bool) (work : Tx A) (db : Db)
    → P db
    → Ensures (λ _ t. P t.db) (work (record { db = db; pending = [] }))
    → P (run delivers work db).db
unfolding run finish
run_keeps {A} P delivers work db h w = go (work (record { db = db; pending = [] })) w
  where
    go : (r : Result (A × Session)) → Ensures (λ _ t. P t.db) r → P (finish delivers db r).db
    go (ok (a, t)) q = q
    go (err e) q = h

pub transaction_keeps :
    {A : Type 0} (P : Db → Type 0) (work : Tx A) (db : Db)
    → P db
    → Ensures (λ _ t. P t.db) (work (record { db = db; pending = [] }))
    → P (transaction work db).1
unfolding transaction
transaction_keeps {A} P work db h w = go (work (record { db = db; pending = [] })) w
  where
    go :
        (r : Result (A × Session))
        → Ensures (λ _ t. P t.db) r
        → P (elim r as (λ _. Result A × Db) [ ok (a, s) ↦ (ok a, s.db) | err e ↦ (err e, db) ]).1
    go (ok (a, t)) q = q
    go (err e) q = h

-- A transaction that is refused leaves the store as it was and announces nothing.
pub run_atomic :
    {A : Type 0} (delivers : List DomainEvent → Bool) (work : Tx A) (db : Db) (e : AppError)
    → (run delivers work db).result ≡ err e
    → ((run delivers work db).db ≡ db) × ((run delivers work db).announced ≡ [])
unfolding run finish
run_atomic {A} delivers work db e = go (work (record { db = db; pending = [] }))
  where
    go :
        (r : Result (A × Session))
        → (finish delivers db r).result ≡ err e
        → ((finish delivers db r).db ≡ db) × ((finish delivers db r).announced ≡ [])
    go (ok (a, t)) h = cc
    go (err f) h = (refl, refl)

-- What a committed transaction ensures.
pub transaction_ensures :
    {A : Type 0} (P : A → Db → Type 0) (work : Tx A) (db db' : Db) (a : A)
    → Ensures (λ b t. P b t.db) (work (record { db = db; pending = [] }))
    → transaction work db ≡ (ok a, db')
    → P a db'
unfolding transaction
transaction_ensures {A} P work db db' a w e = go (work (record { db = db; pending = [] })) w e
  where
    ok-injective : {b c : A} → ok b ≡ ok c → b ≡ c
    ok-injective e = cc

    go :
        (r : Result (A × Session))
        → Ensures (λ b t. P b t.db) r
        → (elim r as (λ _. Result A × Db) [ ok (b, s) ↦ (ok b, s.db) | err f ↦ (err f, db) ])
          ≡ (ok a, db')
        → P a db'
    go (ok (b, t)) q e =
        let same_db : t.db ≡ db' = λ i. (e i).1 in
        let same : b ≡ a = ok-injective (λ i. (e i).0) in rw (← same, ← same_db) q
    go (err f) q e = let same : err f ≡ ok a = (λ i. (e i).0) in cc

pub transaction_err :
    {A : Type 0} (work : Tx A) (db : Db) (e : AppError)
    → work (record { db = db; pending = [] }) ≡ err e
    → transaction work db ≡ (err e, db)
unfolding transaction
transaction_err work db e h = rw (h, transaction) refl

-- A step that throws ends the transaction.
pub bind_err :
    {A B : Type 0} (m : Tx A) (f : A → Tx B) (s : Session) (e : AppError)
    → m s ≡ err e
    → (m >>= f) s ≡ err e
bind_err m f s e h = λ i. elim (h i) [ ok (a, s') ↦ f a s' | err x ↦ err x ]

-- A result that went through keeps the promise.
pub Ensures-at :
    {A : Type 0} (Q : A → Session → Type 0) (r : Result (A × Session)) (a : A) (t : Session)
    → Ensures Q r
    → r ≡ ok (a, t)
    → Q a t
Ensures-at Q r a t h e = subst (Ensures Q) e h

-- A step that goes through hands on to the next.
pub bind_ok :
    {A B : Type 0} (m : Tx A) (f : A → Tx B) (s : Session) (a : A) (t : Session)
    → m s ≡ ok (a, t)
    → (m >>= f) s ≡ f a t
bind_ok m f s a t h = λ i. elim (h i) [ ok (a, s') ↦ f a s' | err x ↦ err x ]
