-- ===== src/Retention/Drained.antt =====
-- What a drain leaves behind.
use cafe_pos.Schema.Views.{IdempotencyKey}
use cafe_pos.Identity.Rows.{RefreshToken}
use cafe_pos.Schema.Rows.{Label, Order}
use cafe_pos.Retention.{
  drain_in_batches, update_some, delete_some, batch_size, clear_customer_names, default_max_batches,
  trim_event_payloads, delete_stale_refresh_tokens, delete_expired_idempotency_keys, ReceivedEvent,
  has_old_name, has_old_payload, is_stale, is_expired_key,
}
use cafe_pos.Prelude.{
  [], ◌∷◌, false, ℕ, Bool, ◌+◌, ◌≡◌, List, suc, ◌≤◌, arith, zero, ◌⊎◌, inr, count_if, Bool-cases,
  inl, ltb, refl,
}

-- The rows that `batches` batches can take.
abbrev pub capacity : ℕ → ℕ → ℕ
capacity batch zero = 0
capacity batch (suc batches) = batch + capacity batch batches

-- What one batch did: it took as many matching rows as it could, and they match no more.
abbrev pub TookSome : ℕ → ℕ → ℕ → ℕ → Type 0
TookSome limit before handled left =
    (left + handled ≡ before) × (handled ≤ limit) × ((left ≡ 0) ⊎ (handled ≡ limit))

module _ {S : Type 0} (step : ℕ → S → ℕ × S) (matching : S → ℕ) where
  abbrev Takes : ℕ → S → Type 0
  Takes limit s = TookSome limit (matching s) (step limit s).0 (matching (step limit s).1)

  drain-TookSome :
      (takes : (limit : ℕ) (s : S) → Takes limit s) (batch batches : ℕ) (s : S)
      → let (total, s') = drain_in_batches step batch batches s in
        TookSome (capacity batch batches) (matching s) total (matching s')
  drain-TookSome takes batch zero s = (omega arith, omega arith, inr refl)
  drain-TookSome takes batch (suc batches) s =
      let (handled, s') = step batch s in
      let one = takes batch s in
      let rest = drain-TookSome takes batch batches s' in
      elim (Bool-cases (ltb handled batch)) [
        | inl short ↦ rw short (ground arith)
        | inr full ↦ rw full (ground arith)
      ]

module _ {A : Type 0} (p : A → Bool) where
  update_some-TookSome :
      (f : A → A) (off : (x : A) → p (f x) ≡ false) (limit : ℕ) (xs : List A)
      → let (k, ys) = update_some p f limit xs in TookSome limit (count_if p xs) k (count_if p ys)
  update_some-TookSome f off zero xs = (omega arith, omega arith, inr refl)
  update_some-TookSome f off (suc n) [] = (refl, omega arith, inl refl)
  update_some-TookSome f off (suc n) (x ∷ xs) =
      ground (arith, off x, update_some-TookSome f off n xs, update_some-TookSome f off (suc n) xs)

  delete_some-TookSome :
      (limit : ℕ) (xs : List A)
      → let (k, ys) = delete_some p limit xs in TookSome limit (count_if p xs) k (count_if p ys)
  delete_some-TookSome zero xs = (omega arith, omega arith, inr refl)
  delete_some-TookSome (suc n) [] = (refl, omega arith, inl refl)
  delete_some-TookSome (suc n) (x ∷ xs) =
      ground (arith, delete_some-TookSome n xs, delete_some-TookSome (suc n) xs)

-- What a job of 100 batches of 1000 leaves: the rows it does not report still match, and if any is
-- left, it has taken a hundred thousand.
abbrev pub IsCleared : {A : Type 0} → (A → Bool) → List A → ℕ × List A → Type 0
IsCleared p before (total, after) =
    (count_if p after + total ≡ count_if p before)
    × ((count_if p after ≡ 0) ⊎ (total ≡ capacity batch_size default_max_batches))

cleared :
    {A : Type 0} (p : A → Bool) (step : ℕ → List A → ℕ × List A) (xs : List A)
    → ((limit : ℕ) (ys : List A) → Takes step (count_if p) limit ys)
    → IsCleared p xs (drain_in_batches step batch_size default_max_batches xs)
cleared p step xs takes =
    let drained = drain-TookSome step (count_if p) takes batch_size default_max_batches xs in
    (drained.0, drained.2)

-- After each retention job, what it reports and what still matches add up to what matched before it,
-- and nothing matches any more unless it took its hundred thousand rows: names that are old, payloads
-- that are old and untrimmed, tokens that expired or were revoked long ago, and expired keys.
pub retention_jobs_clear :
    (cutoff now : ℕ) (trim : Label → Label) (orders : List Order) (events : List ReceivedEvent)
    (tokens : List RefreshToken) (keys : List IdempotencyKey)
    → IsCleared (has_old_name cutoff) orders (clear_customer_names cutoff orders)
      × IsCleared (has_old_payload cutoff) events (trim_event_payloads trim now cutoff events)
      × IsCleared (is_stale cutoff) tokens (delete_stale_refresh_tokens cutoff tokens)
      × IsCleared (is_expired_key cutoff) keys (delete_expired_idempotency_keys cutoff keys)
unfolding clear_customer_names trim_event_payloads delete_stale_refresh_tokens
    delete_expired_idempotency_keys
retention_jobs_clear cutoff now trim orders events tokens keys = (
  cleared (has_old_name cutoff) _ orders (update_some-TookSome (has_old_name cutoff) _ (λ o. refl)),
  cleared (has_old_payload cutoff) _ events
      (update_some-TookSome (has_old_payload cutoff) _ (λ e. refl)),
  cleared (is_stale cutoff) _ tokens (delete_some-TookSome (is_stale cutoff)),
  cleared (is_expired_key cutoff) _ keys (delete_some-TookSome (is_expired_key cutoff)),
)
