-- ===== src/Retention.antt =====
-- src/retention: the nightly and hourly clearing of old rows. A cutoff is `now()` less the window of
-- the kind of data, a time that Postgres computes. Which rows a LIMIT picks is left to it: here the
-- first ones.
use cafe_pos.Schema.Views.{IdempotencyKey}
use cafe_pos.Identity.Rows.{RefreshToken}
use cafe_pos.Schema.Rows.{PaymentEvent, Label, Order}
pub mod Drained
use cafe_pos.Prelude.{
  [], ◌∷◌, true, false, some, none, Bool, ℕ, List, Option, not, suc, if◌then◌else◌, ltb, is_some,
  ◌+◌, ◌&&◌, ◌||◌, zero,
}

module _ {A : Type 0} (p : A → Bool) where
  -- `UPDATE ... WHERE id IN (SELECT ... LIMIT n) RETURNING id`, with the number of rows.
  abbrev pub update_some : (A → A) → ℕ → List A → ℕ × List A
  update_some f zero xs = (0, xs)
  update_some f (suc n) [] = (0, [])
  update_some f (suc n) (x ∷ xs) =
      let (k, ys) = update_some f n xs in
      let (l, zs) = update_some f (suc n) xs in if p x then (suc k, f x ∷ ys) else (l, x ∷ zs)

  -- `DELETE ... WHERE id IN (SELECT ... LIMIT n) RETURNING id`.
  abbrev pub delete_some : ℕ → List A → ℕ × List A
  delete_some zero xs = (0, xs)
  delete_some (suc n) [] = (0, [])
  delete_some (suc n) (x ∷ xs) =
      let (k, ys) = delete_some n xs in
      let (l, zs) = delete_some (suc n) xs in if p x then (suc k, ys) else (l, x ∷ zs)

-- `drainInBatches`.
abbrev pub drain_in_batches : {S : Type 0} → (ℕ → S → ℕ × S) → ℕ → ℕ → S → ℕ × S
drain_in_batches step batch_size zero s = (0, s)
drain_in_batches step batch_size (suc batches) s =
    let (handled, s') = step batch_size s in
    let (more, s'') = drain_in_batches step batch_size batches s' in
    if ltb handled batch_size then (handled, s') else (handled + more, s'')

abbrev pub default_max_batches : ℕ
default_max_batches = 100

abbrev pub batch_size : ℕ
batch_size = 1000

-- `lt(column, cutoff)`, which a null never passes.
abbrev pub is_before : ℕ → Option ℕ → Bool
is_before cutoff none = false
is_before cutoff (some at) = ltb at cutoff

abbrev pub has_old_name : ℕ → Order → Bool
has_old_name cutoff o = is_some o.customer_name && ltb o.created_at cutoff

unfoldable pub clear_customer_names : ℕ → List Order → ℕ × List Order
clear_customer_names cutoff orders =
    drain_in_batches (update_some (has_old_name cutoff) (λ o. record o { customer_name = none }))
      batch_size default_max_batches orders

-- A row of the inbox with the columns that the trimming reads.
pub record ReceivedEvent : Type 0 where
  pub event : PaymentEvent
  pub received_at : ℕ
  pub payload_trimmed_at : Option ℕ

abbrev pub has_old_payload : ℕ → ReceivedEvent → Bool
has_old_payload cutoff e = not (is_some e.payload_trimmed_at) && ltb e.received_at cutoff

-- `trim` is the `jsonb_build_object` of the statement.
unfoldable pub trim_event_payloads :
    (Label → Label) → ℕ → ℕ → List ReceivedEvent → ℕ × List ReceivedEvent
trim_event_payloads trim now cutoff events =
    drain_in_batches
      (update_some (has_old_payload cutoff) (λ e. record e {
        event = record e.event { payload = trim e.event.payload };
        payload_trimmed_at = some now;
      }))
      batch_size default_max_batches events

abbrev pub is_stale : ℕ → RefreshToken → Bool
is_stale cutoff t = ltb t.expires_at cutoff || is_before cutoff t.revoked_at

unfoldable pub delete_stale_refresh_tokens : ℕ → List RefreshToken → ℕ × List RefreshToken
delete_stale_refresh_tokens cutoff tokens =
    drain_in_batches (delete_some (is_stale cutoff)) batch_size default_max_batches tokens

abbrev pub is_expired_key : ℕ → IdempotencyKey → Bool
is_expired_key cutoff k = ltb k.expires_at cutoff

unfoldable pub delete_expired_idempotency_keys : ℕ → List IdempotencyKey → ℕ × List IdempotencyKey
delete_expired_idempotency_keys cutoff keys =
    drain_in_batches (delete_some (is_expired_key cutoff)) batch_size default_max_batches keys
