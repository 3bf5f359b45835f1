-- ===== src/Identity/Auth/Lockout.antt =====
-- What repeated failures to sign in lead to.
use cafe_pos.Identity.Auth.{AuthTables, begin_login, answers, refused, invalid_credentials}
use cafe_pos.Identity.RateLimit.{
  Counter, max_failures, is_key, assert_not_locked_out, get, record_failure, lockout_of, counted,
  window_seconds,
}
use cafe_pos.Schema.Rows.{Label}
use cafe_pos.Identity.Auth.Login.{login, login_past, counted_login, rate_limited, judged}
use cafe_pos.Prelude.{
  [], ◌∷◌, true, false, some, none, ℕ, Bool, if◌then◌else◌, List, ltb, find?, ◌≡◌, update_where,
  ◌+◌, arith, ◌<◌, suc, ◌&&◌, leb, ◌-◌, ◌∙◌, All, length, Bool-cases, inl, inr, refl,
}

unfoldable pub attempts_after :
    (Label → Label → Bool)
    → Label
    → (Label → Label)
    → Label
    → AuthTables
    → List (Label × ℕ)
    → List Counter
    → List Counter
unfolding login
attempts_after verify absent key_for email db [] cs = cs
attempts_after verify absent key_for email db ((password, now) ∷ rest) cs =
    attempts_after verify absent key_for email db rest
      (login verify absent key_for email password 0 now db cs).1

-- The count, which stops at the limit.
abbrev capped : ℕ → ℕ
capped n = if ltb n max_failures then n else max_failures

abbrev counter : Label → ℕ → ℕ → Counter
counter key n deadline = record { key = key; value = capped n; expires_at = some deadline }

find?-count :
    (key : Label) (cs : List Counter) (c : Counter)
    → find? (is_key key) cs ≡ some c
    → find? (is_key key) (update_where (is_key key) (λ c. record c { value = c.value + 1 }) cs)
      ≡ some (record c { value = c.value + 1 })
find?-count key [] c h = cc
find?-count key (d ∷ ds) c h = ground (arith, find?-count key ds c)

-- The limiter on a key whose counter is known.
assert-open :
    (key : Label) (n now deadline : ℕ) (cs : List Counter)
    → find? (is_key key) cs ≡ some (counter key n deadline)
    → assert_not_locked_out key now cs
      ≡ (if ltb now deadline && leb max_failures n then some (deadline - now) else none, cs)
unfolding assert_not_locked_out get lockout_of
assert-open key n now deadline cs h = rw h (ground arith)

record-adds :
    (key : Label) (n now deadline : ℕ) (cs : List Counter)
    → now < deadline
    → leb max_failures n ≡ false
    → find? (is_key key) cs ≡ some (counter key n deadline)
    → find? (is_key key) (record_failure key now cs) ≡ some (counter key (suc n) deadline)
unfolding record_failure get counted
record-adds key n now deadline cs inside below h =
    let inside' : ltb now deadline ≡ true = ground arith in
    rw h (rw inside' (find?-count key cs (counter key n deadline) h ∙ ground arith))

record-opens :
    (key : Label) (now : ℕ) (cs : List Counter)
    → get key now cs ≡ none
    → find? (is_key key) (record_failure key now cs) ≡ some (counter key 1 (now + window_seconds))
unfolding record_failure counted
record-opens key now cs h = rw h (ground arith)

module _ (verify : Label → Label → Bool) (absent : Label) (key_for : Label → Label) (email : Label)
    (db : AuthTables) where
  -- A sign-in where the limiter's answer is known.
  abbrev Refuses : Label → Type 0
  Refuses password =
      begin_login verify absent email password 0 db ≡ answers (refused invalid_credentials)

  login-counts :
      (password : Label) (n now deadline : ℕ) (cs : List Counter)
      → Refuses password
      → now < deadline
      → find? (is_key (key_for email)) cs ≡ some (counter (key_for email) n deadline)
      → find? (is_key (key_for email)) (login verify absent key_for email password 0 now db cs).1
        ≡ some (counter (key_for email) (suc n) deadline)
  unfolding login login_past counted_login
  login-counts password n now deadline cs wrong inside h =
      let inside' : ltb now deadline ≡ true = ground arith in
      rw (assert-open (key_for email) n now deadline cs h, inside')
        (elim (Bool-cases (leb max_failures n)) [
          | inl full ↦ rw full (h ∙ ground arith)
          | inr below ↦
              rw below (rw wrong (record-adds (key_for email) n now deadline cs inside below h))
        ])

  login-opens :
      (password : Label) (now : ℕ) (cs : List Counter)
      → Refuses password
      → get (key_for email) now cs ≡ none
      → find? (is_key (key_for email)) (login verify absent key_for email password 0 now db cs).1
        ≡ some (counter (key_for email) 1 (now + window_seconds))
  unfolding login login_past counted_login assert_not_locked_out lockout_of
  login-opens password now cs wrong closed =
      rw closed (rw wrong (record-opens (key_for email) now cs closed))

  attempts-count :
      (attempts : List (Label × ℕ)) (n deadline : ℕ) (cs : List Counter)
      → All (λ a. Refuses a.0 × (a.1 < deadline)) attempts
      → find? (is_key (key_for email)) cs ≡ some (counter (key_for email) n deadline)
      → find? (is_key (key_for email)) (attempts_after verify absent key_for email db attempts cs)
        ≡ some (counter (key_for email) (length attempts + n) deadline)
  unfolding attempts_after
  attempts-count [] n deadline cs h k = rw k (ground arith)
  attempts-count ((password, now) ∷ rest) n deadline cs ((wrong, inside), h) k =
      let cs' = (login verify absent key_for email password 0 now db cs).1 in
      let counted' = login-counts password n now deadline cs wrong inside k in
      attempts-count rest (suc n) deadline cs' h counted' ∙ ground arith

  login_past-answer :
      (password family : Label) (now seconds : ℕ) (locked : Bool) (cs : List Counter)
      → (login_past verify absent key_for email password family now db
          (if locked then some seconds else none, cs)).0
        ≡ (if locked
            then rate_limited seconds
            else judged (begin_login verify absent email password family db))
  unfolding login_past
  login_past-answer password family now seconds true cs = refl
  login_past-answer password family now seconds false cs = refl

  -- After failed sign-ins, all of them before the end of the window that the first one opened, the
  -- next sign-in is answered with the seconds that are left if there were five or more and the
  -- window is still open, and else judged by its account and password as if there were no lockout.
  pub login_after_failures :
      (first now : ℕ) (wrong_one password family : Label) (rest : List (Label × ℕ))
      (cs : List Counter)
      → get (key_for email) first cs ≡ none
      → All (λ a. Refuses a.0 × (a.1 < first + window_seconds)) ((wrong_one, first) ∷ rest)
      → let attempts = (wrong_one, first) ∷ rest in
        let counters = attempts_after verify absent key_for email db attempts cs in
        (login verify absent key_for email password family now db counters).0 ≡ (
          if ltb now (first + window_seconds) && leb max_failures (length attempts)
          then rate_limited (first + window_seconds - now)
          else judged (begin_login verify absent email password family db))
  unfolding login login_past attempts_after
  login_after_failures first now wrong_one password family rest cs closed ((wrong, inside), h) =
      let cs' = (login verify absent key_for email wrong_one 0 first db cs).1 in
      let deadline = first + window_seconds in
      let opened = login-opens wrong_one first cs wrong closed in
      let counted' : find? (is_key (key_for email))
            (attempts_after verify absent key_for email db rest cs')
          ≡ some (counter (key_for email) (suc (length rest)) deadline) =
        attempts-count rest 1 deadline cs' h opened ∙ ground arith in
      let locked = ltb now deadline && leb max_failures (suc (length rest)) in
      rw (assert-open (key_for email) (suc (length rest)) now deadline _ counted')
        (login_past-answer password family now (deadline - now) locked _)
