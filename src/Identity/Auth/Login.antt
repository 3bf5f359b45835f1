-- ===== src/Identity/Auth/Login.antt =====
-- src/identity/auth/auth.service.ts: `login` with its lockout.
use cafe_pos.Prelude.{ℕ, Bool, Option, none, some, List}
use cafe_pos.Schema.Rows.{Label}
use cafe_pos.Identity.RateLimit.{Counter, assert_not_locked_out, record_failure, del}
use cafe_pos.Identity.Auth.{AuthTables, waits, answers, Progress, begin_login}

-- A lockout with the seconds to wait, or what the checks of the account lead to.
pub data LoginOutcome : Type 0 where
  rate_limited : ℕ → LoginOutcome
  judged : Progress → LoginOutcome

-- A refusal is counted, a success clears the count.
unfoldable pub counted_login : Label → ℕ → List Counter → Progress → List Counter
unfolding del record_failure
counted_login key now cs (waits f) = del key cs
counted_login key now cs (answers a) = record_failure key now cs

-- A sign-in up to its insert. `key_for` trims an address and lowers its case; `now` is in seconds.
module _ (verify : Label → Label → Bool) (absent : Label) (key_for : Label → Label) where
  unfoldable pub login_past :
      Label → Label → Label → ℕ → AuthTables → Option ℕ × List Counter → LoginOutcome × List Counter
  unfolding begin_login counted_login
  login_past email password family now db (some seconds, cs) = (rate_limited seconds, cs)
  login_past email password family now db (none, cs) =
      let progress = begin_login verify absent email password family db in
      (judged progress, counted_login (key_for email) now cs progress)

  unfoldable pub login :
      Label → Label → Label → ℕ → AuthTables → List Counter → LoginOutcome × List Counter
  unfolding assert_not_locked_out login_past
  login email password family now db cs =
      login_past email password family now db (assert_not_locked_out (key_for email) now cs)
