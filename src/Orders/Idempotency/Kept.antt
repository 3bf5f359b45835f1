-- ===== src/Orders/Idempotency/Kept.antt =====
-- What keeps the row of a key: the other keys of src/orders/idempotency, and the deletion of expired
-- keys of src/retention.
use cafe_pos.Prelude.{
  [], ◌∷◌, false, some, ℕ, ◌≡◌, Bool-cases, any, find?, refl, ◌==◌, inl, inr, ==_iff, List, arith,
  suc, zero, ltb, update_where,
}
use cafe_pos.Retention.{delete_some, drain_in_batches, is_expired_key}
use cafe_pos.Tx.Ensures.{Ensures}
use cafe_pos.Schema.Store.{Db}
use cafe_pos.Tx.{Session}
use cafe_pos.Schema.Views.{ResponseBody, IdempotencyKey}
use cafe_pos.Orders.Idempotency.{reserve_key, find_key}
use cafe_pos.Schema.Rows.{Label}

-- The row of the key is there.
abbrev pub Holds : Label → IdempotencyKey → Db → Type 0
Holds key stored db = find_key key db ≡ some stored

pub find?-complete_other :
    (key other : Label) (status : ℕ) (body : ResponseBody) (ks : List IdempotencyKey)
    → (other == key) ≡ false
    → find?
        (λ k. k.key == key)
        (update_where
          (λ k. k.key == other)
          (λ k. record k { response_status = some status; response_body = some body })
          ks)
      ≡ find? (λ k. k.key == key) ks
find?-complete_other key other status body [] apart = refl
find?-complete_other key other status body (k ∷ ks) apart = ground (
  arith,
  ==_iff k.key other,
  ==_iff k.key key,
  ==_iff other key,
  find?-complete_other key other status body ks apart,
)

absent_other :
    (key other : Label) (ks : List IdempotencyKey) (stored : IdempotencyKey)
    → find? (λ k. k.key == key) ks ≡ some stored
    → any (λ k. k.key == other) ks ≡ false
    → (other == key) ≡ false
absent_other key other [] stored there free = cc
absent_other key other (k ∷ ks) stored there free = ground (
  arith,
  ==_iff k.key other,
  ==_iff k.key key,
  ==_iff other key,
  absent_other key other ks stored,
)

-- A key that could be reserved is another one.
pub reserve_key-Holds :
    (key other request_hash : Label) (expires_at : ℕ) (stored : IdempotencyKey) (s : Session)
    → Holds key stored s.db
    → Ensures
        (λ _ t. ((other == key) ≡ false) × Holds key stored t.db)
        (reserve_key other request_hash expires_at s)
unfolding reserve_key
reserve_key-Holds key other request_hash expires_at stored s there =
    elim (Bool-cases (any (λ k. k.key == other) s.db.keys)) [
      | inl taken ↦ rw (taken, Ensures) tt
      | inr free ↦
          let apart : (other == key) ≡ false = absent_other key other s.db.keys stored there free in
          rw (free, Ensures) (apart, rw apart there)
    ]

-- The deletion of expired keys passes over a row that has not expired.
delete_some-find? :
    (key : Label) (cutoff limit : ℕ) (ks : List IdempotencyKey) (stored : IdempotencyKey)
    → find? (λ k. k.key == key) ks ≡ some stored
    → ltb stored.expires_at cutoff ≡ false
    → find? (λ k. k.key == key) (delete_some (is_expired_key cutoff) limit ks).1 ≡ some stored
delete_some-find? key cutoff zero ks stored there alive = there
delete_some-find? key cutoff (suc n) [] stored there alive = there
delete_some-find? key cutoff (suc n) (k ∷ ks) stored there alive = ground (
  arith,
  delete_some-find? key cutoff n ks stored,
  delete_some-find? key cutoff (suc n) ks stored,
)

pub drain-find? :
    (key : Label) (cutoff limit batches : ℕ) (ks : List IdempotencyKey) (stored : IdempotencyKey)
    → find? (λ k. k.key == key) ks ≡ some stored
    → ltb stored.expires_at cutoff ≡ false
    → find?
        (λ k. k.key == key)
        (drain_in_batches (delete_some (is_expired_key cutoff)) limit batches ks).1
      ≡ some stored
drain-find? key cutoff limit zero ks stored there alive = there
drain-find? key cutoff limit (suc batches) ks stored there alive =
    let (handled, left) = delete_some (is_expired_key cutoff) limit ks in
    let kept = delete_some-find? key cutoff limit ks stored there alive in
    elim (Bool-cases (ltb handled limit)) [
      | inl short ↦ rw short kept
      | inr full ↦ rw full (drain-find? key cutoff limit batches left stored kept alive)
    ]
