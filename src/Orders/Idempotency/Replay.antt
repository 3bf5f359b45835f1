-- ===== src/Orders/Idempotency/Replay.antt =====
-- The life of a key: free, reserved in an open transaction, answered, replayed.
use cafe_pos.Prelude.{
  ℕ, ◌≡◌, refl, some, List, [], ◌∷◌, ◌==◌, if◌then◌else◌, find?, any, update_where, arith, is_some,
}
use cafe_pos.Schema.Rows.{Label}
use cafe_pos.Schema.Views.{ResponseBody, IdempotencyKey}
use cafe_pos.Schema.Store.{Db}
use cafe_pos.Tx.{Session, ok, err, key_already_reserved, idempotency_conflict}
use cafe_pos.Orders.Idempotency.{find_key, reserve_key, replay_key}

any-find? :
    (key : Label) (ks : List IdempotencyKey)
    → any (λ k. k.key == key) ks ≡ is_some (find? (λ k. k.key == key) ks)
any-find? key [] = refl
any-find? key (k ∷ ks) = ground (arith, any-find? key ks)

pub reserve_key_taken :
    (key hash : Label) (expires : ℕ) (s : Session) (stored : IdempotencyKey)
    → find_key key s.db ≡ some stored
    → reserve_key key hash expires s ≡ err key_already_reserved
unfolding reserve_key
reserve_key_taken key hash expires s stored h = ground (arith, any-find? key s.db.keys)

-- An answered key replays its answer to the request that it stands for, and refuses any other.
pub replay_key_answers :
    (db : Db) (key hash : Label) (stored : IdempotencyKey) (body : ResponseBody)
    → find_key key db ≡ some stored
    → stored.response_body ≡ some body
    → replay_key db key hash
      ≡ (if stored.request_hash == hash then ok body else err idempotency_conflict)
unfolding replay_key
replay_key_answers db key hash stored body h b = ground arith

-- What completing a reserved key leaves in its row.
pub find?-complete :
    (key : Label) (status : ℕ) (body : ResponseBody) (ks : List IdempotencyKey)
    (stored : IdempotencyKey)
    → find? (λ k. k.key == key) ks ≡ some stored
    → find?
        (λ k. k.key == key)
        (update_where
          (λ k. k.key == key)
          (λ k. record k { response_status = some status; response_body = some body })
          ks)
      ≡ some (record stored { response_status = some status; response_body = some body })
find?-complete key status body [] stored h = cc
find?-complete key status body (k ∷ ks) stored h =
    ground (arith, find?-complete key status body ks stored)
