-- ===== src/Orders/Create/Once.antt =====
-- What the idempotency key of src/orders/orders.service.ts's `create` promises.
use cafe_pos.Orders.Create.Later.{Later, Later-find, build_keys}
use cafe_pos.Orders.Idempotency.Replay.{find?-complete, reserve_key_taken, replay_key_answers}
use cafe_pos.Tx.Ensures.{Ensures, Ensures-bind, transaction_ensures, transaction_err, bind_err}
use cafe_pos.Identity.Principal.{Principal}
use cafe_pos.Schema.Store.{Db}
use cafe_pos.Tx.{
  transaction, Session, Result, ok, err, idempotency_conflict, key_already_reserved, AppError,
}
use cafe_pos.Schema.Views.{ResponseBody, IdempotencyKey, order_body}
use cafe_pos.Orders.Idempotency.{
  reserve_key, is_key_already_reserved, complete_key, find_key, reserved_row, replay_key,
}
use cafe_pos.Orders.Create.{
  build, create_tx, create, OrderEnv, CreateOrderInput, answer_create, key_expiry, replayed,
}
use cafe_pos.Schema.Rows.{Label}
use cafe_pos.Prelude.{
  [], true, false, some, Bool, ℕ, ◌≡◌, Bool-cases, any, find?, if◌then◌else◌, refl, ◌==◌, inl, inr,
  ==_iff, ◌≢◌, ◌+◌, ◌*◌,
}

-- The key stands for an answered request.
abbrev IsAnswered : Label → Label → ℕ → ResponseBody → Db → Type 0
IsAnswered key request_hash expiry body db =
    (stored : IdempotencyKey) × (find_key key db ≡ some stored)
    × (stored.request_hash ≡ request_hash)
    × (stored.response_body ≡ some body)
    × (stored.expires_at ≡ expiry)

reserve_key_keys :
    (key request_hash : Label) (expires_at : ℕ) (s : Session)
    → Ensures
        (λ _ t.
          (stored : IdempotencyKey) × (find_key key t.db ≡ some stored)
          × (stored.request_hash ≡ request_hash)
          × (stored.expires_at ≡ expires_at))
        (reserve_key key request_hash expires_at s)
unfolding reserve_key
reserve_key_keys key request_hash expires_at s =
    elim (Bool-cases (any (λ k. k.key == key) s.db.keys)) [
      | inl there ↦ rw (there, Ensures) tt
      | inr free ↦
          let self : (key == key) ≡ true = (==_iff key key).1 refl in
          rw (free, Ensures) (reserved_row key request_hash expires_at, rw self refl, refl, refl)
    ]

create_tx_answers :
    (env : OrderEnv) (principal : Principal) (input : CreateOrderInput) (key request_hash : Label)
    (s : Session)
    → Ensures
        (λ body t. IsAnswered key request_hash (key_expiry env) body t.db)
        (create_tx env principal input (some (key, request_hash)) s)
unfolding create_tx complete_key
create_tx_answers env principal input key request_hash s =
    let Q = λ (body : ResponseBody) (t : Session).
      IsAnswered key request_hash (key_expiry env) body t.db in
    Ensures-bind _ Q (reserve_key key request_hash (key_expiry env)) _ s
      (reserve_key_keys key request_hash (key_expiry env) s)
      (λ _ t (stored, found, hashed, expires).
        Ensures-bind (λ _ u. u.db.keys ≡ t.db.keys) Q (build env principal input) _ t
          (build_keys env principal input t)
          (λ view u same.
            let there : find? (λ k. k.key == key) u.db.keys ≡ some stored = rw same found in
            (
              record stored { response_status = some 201; response_body = some (order_body view) },
              find?-complete key 201 (order_body view) u.db.keys stored there,
              hashed,
              refl,
              expires,
            )))

replayed-true : (r : Result ResponseBody) (body : ResponseBody) → replayed r ≢ ok (body, false)
replayed-true (ok b) body e = cc
replayed-true (err x) body e = cc

ok-ne-err : {P A : Type 0} {x : AppError} {a : A} → err x ≡ ok a → P
ok-ne-err e = cc

answered_first :
    (key request_hash : Label) (body : ResponseBody) (db' : Db) (r : Result ResponseBody × Db)
    → answer_create (some (key, request_hash)) r ≡ (ok (body, false), db')
    → r ≡ (ok body, db')
answered_first key request_hash body db' (ok b, db) e = cc
answered_first key request_hash body db' (err x, db) e =
    elim (Bool-cases (is_key_already_reserved x)) [
      | inl taken ↦
          let again = rw taken at e in
          absurd (replayed-true (replay_key db key request_hash) body (λ i. (again i).0))
      | inr other ↦ ok-ne-err (λ i. ((rw other at e) i).0)
    ]

-- A key that is there stops the transaction at its first statement.
create_tx_taken :
    (env : OrderEnv) (principal : Principal) (input : CreateOrderInput) (key request_hash : Label)
    (db : Db) (stored : IdempotencyKey)
    → find_key key db ≡ some stored
    → transaction (create_tx env principal input (some (key, request_hash))) db
      ≡ (err key_already_reserved, db)
unfolding create_tx
create_tx_taken env principal input key request_hash db stored found =
    let s : Session = record { db = db; pending = [] } in
    transaction_err (create_tx env principal input (some (key, request_hash))) db
      key_already_reserved
      (bind_err (reserve_key key request_hash (key_expiry env)) _ s key_already_reserved
        (reserve_key_taken key request_hash (key_expiry env) s stored found))

replayed_answer :
    (b : Bool) (body : ResponseBody)
    → replayed (if b then ok body else err idempotency_conflict)
      ≡ (if b then ok (body, true) else err idempotency_conflict)
replayed_answer true body = refl
replayed_answer false body = refl

-- Once a request under a key has created its order, a further request under the key creates
-- nothing on any later store that was reached by requests that create orders or pay for them (under
-- the same key, another or none), by the deletion of expired keys with a cutoff that is not after the
-- time at which the key itself expires, and by steps of any other kind that leave the row of the key
-- alone: with the same request hash it replays the first answer, with another it is refused as a
-- conflict, whatever its input, its principal and its clock.
pub create_once :
    (env env' : OrderEnv) (principal principal' : Principal) (input input' : CreateOrderInput)
    (key request_hash request_hash' : Label) (body : ResponseBody) (db db' later : Db)
    → create env principal input (some (key, request_hash)) db ≡ (ok (body, false), db')
    → Later key (env.now + 24 * 60 * 60 * 1000) db' later
    → create env' principal' input' (some (key, request_hash')) later
      ≡ (if request_hash == request_hash' then ok (body, true) else err idempotency_conflict, later)
unfolding create is_key_already_reserved
create_once env env' principal principal' input input' key request_hash request_hash' body db db'
      later e passed =
    let (first, found_first, hashed_first, answered_first', expires) =
      transaction_ensures (IsAnswered key request_hash (key_expiry env))
        (create_tx env principal input (some (key, request_hash))) db db' body
        (create_tx_answers env principal input key request_hash (record { db = db; pending = [] }))
        (answered_first key request_hash body db'
          (transaction (create_tx env principal input (some (key, request_hash))) db) e) in
    let found = Later-find passed first found_first expires in
    rw
      (
        create_tx_taken env' principal' input' key request_hash' later first found,
        replay_key_answers later key request_hash' first body found answered_first',
        hashed_first,
      )
      (λ i. (replayed_answer (request_hash == request_hash') body i, later))
