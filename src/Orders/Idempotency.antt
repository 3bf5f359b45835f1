-- ===== src/Orders/Idempotency.antt =====
-- src/orders/idempotency: the key store, and the header that names a key.
pub mod Key
pub mod Replay
pub mod Kept
use cafe_pos.Prelude.{
  ℕ, Bool, true, false, Option, none, some, List, [], ◌∷◌, ◌==◌, if◌then◌else◌, find?, any,
  update_where,
}
use cafe_pos.Schema.Rows.{Label}
use cafe_pos.Schema.Views.{ResponseBody, IdempotencyKey}
use cafe_pos.Schema.Store.{Db}
use cafe_pos.Tx.{Tx, Result, ok, err, execute, AppError, key_already_reserved, idempotency_conflict}

abbrev pub find_key : Label → Db → Option IdempotencyKey
find_key key db = find? (λ k. k.key == key) db.keys

abbrev pub reserved_row : Label → Label → ℕ → IdempotencyKey
reserved_row key request_hash expires_at = record {
  key = key;
  request_hash = request_hash;
  response_status = none;
  response_body = none;
  expires_at = expires_at;
}

-- The insert, refused by the primary key if the key is there.
unfoldable pub reserve_key : Label → Label → ℕ → Tx (Unit {0})
reserve_key key request_hash expires_at s =
    if any (λ k. k.key == key) s.db.keys
    then err key_already_reserved
    else execute (λ db. record db { keys = reserved_row key request_hash expires_at ∷ db.keys }) s

unfoldable pub complete_key : Label → ℕ → ResponseBody → Tx (Unit {0})
complete_key key status body = execute (λ db. record db {
  keys =
      update_where (λ k. k.key == key)
        (λ k. record k { response_status = some status; response_body = some body }) db.keys;
})

unfoldable pub is_key_already_reserved : AppError → Bool
is_key_already_reserved key_already_reserved = true
is_key_already_reserved _ = false

-- The hash and the answer that a key already stands for.
unfoldable pub completed_response_for : Db → Label → Option (Label × ResponseBody)
completed_response_for db key = elim (find_key key db) [
  | none ↦ none
  | some stored ↦ elim stored.response_body [
    | none ↦ none
    | some body ↦ some (stored.request_hash, body)
  ]
]

pub replay_key : Db → Label → Label → Result ResponseBody
replay_key db key request_hash = elim (find_key key db) [
  | none ↦ err idempotency_conflict
  | some stored ↦
      if stored.request_hash == request_hash
      then (elim stored.response_body [ none ↦ err idempotency_conflict | some body ↦ ok body ])
      else err idempotency_conflict
]
