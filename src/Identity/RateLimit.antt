-- ===== src/Identity/RateLimit.antt =====
-- src/identity/rate-limit/login-attempt.limiter.ts: failed sign-ins, counted per account in Redis.
-- Times are seconds. A key is the account's address after `keyFor`.
use cafe_pos.Prelude.{
  ℕ, Bool, true, Option, none, some, List, ◌∷◌, ◌+◌, ◌-◌, ◌==◌, if◌then◌else◌, find?, update_where,
  select, not, ltb,
}
use cafe_pos.Schema.Rows.{Label}

-- A counter in Redis. `none` is a key that never expires.
pub record Counter : Type 0 where
  pub key : Label
  pub value : ℕ
  pub expires_at : Option ℕ

abbrev pub is_present_at : ℕ → Option ℕ → Bool
is_present_at now none = true
is_present_at now (some at) = ltb now at

abbrev pub is_key : Label → Counter → Bool
is_key key c = c.key == key

-- A key that has expired is gone.
abbrev pub present : ℕ → Option Counter → Option Counter
present now none = none
present now (some c) = if is_present_at now c.expires_at then some c else none

unfoldable pub get : Label → ℕ → List Counter → Option Counter
get key now cs = present now (find? (is_key key) cs)

unfoldable pub del : Label → List Counter → List Counter
del key cs = select (λ c. not (c.key == key)) cs

unfoldable pub expire : Label → ℕ → ℕ → List Counter → List Counter
expire key seconds now cs =
    update_where (is_key key) (λ c. record c { expires_at = some (now + seconds) }) cs

abbrev pub max_failures : ℕ
max_failures = 5

abbrev pub window_seconds : ℕ
window_seconds = 900

-- `assertNotLockedOut`: the seconds to wait, if the account is locked out, and the counters with a
-- missing expiry repaired.
unfoldable pub lockout_of : Label → ℕ → List Counter → Option Counter → Option ℕ × List Counter
unfolding expire
lockout_of key now cs none = (none, cs)
lockout_of key now cs (some c) =
    if ltb c.value max_failures then (none, cs) else locked c.expires_at
  where
    locked : Option ℕ → Option ℕ × List Counter
    locked none = (some window_seconds, expire key window_seconds now cs)
    locked (some at) = (some (at - now), cs)

unfoldable pub assert_not_locked_out : Label → ℕ → List Counter → Option ℕ × List Counter
unfolding get lockout_of
assert_not_locked_out key now cs = lockout_of key now cs (get key now cs)

-- `recordFailure`: INCR, and EXPIRE for the first failure only.
unfoldable pub counted : Label → ℕ → List Counter → Option Counter → List Counter
unfolding del
counted key now cs none =
    record { key = key; value = 1; expires_at = some (now + window_seconds) } ∷ del key cs
counted key now cs (some c) = update_where (is_key key) (λ c. record c { value = c.value + 1 }) cs

unfoldable pub record_failure : Label → ℕ → List Counter → List Counter
unfolding get counted
record_failure key now cs = counted key now cs (get key now cs)
