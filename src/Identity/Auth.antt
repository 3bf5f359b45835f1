-- ===== src/Identity/Auth.antt =====
-- src/identity/auth/auth.service.ts: sign-in, rotation of refresh tokens, sign-out. No handler of
-- it runs in a transaction, so a request is cut at its `await`s: a `Flight` is a request that waits
-- there, and `advance` runs it to the next one.
pub mod Sessions
pub mod Families
pub mod Rotation
pub mod Replay
pub mod Login
pub mod Lockout
use cafe_pos.Prelude.{
  ℕ, Bool, Option, none, some, List, ◌∷◌, ◌+◌, ◌==◌, ◌&&◌, if◌then◌else◌, find?, update_where, not,
  is_some, leb,
}
use cafe_pos.Schema.Rows.{Label}
use cafe_pos.Identity.Rows.{User, RefreshToken}

pub record AuthTables : Type 0 where
  pub users : List User
  pub tokens : List RefreshToken

pub data AuthError : Type 0 where
  invalid_credentials token_invalid token_expired refresh_token_reused : AuthError

-- The answer to a request: a refusal, a new refresh token by its hash, or a sign-out.
pub data Answer : Type 0 where
  refused : AuthError → Answer
  signed_in : Label → Answer
  signed_out : Answer

-- A request between two statements: a retired row that is still to be judged, a token to be
-- inserted for a user and a family, a hash that no live row held, a family to be revoked before the
-- answer, a sign-out of a user before its row is read.
pub data Flight : Type 0 where
  judging : RefreshToken → Flight
  issuing : Label → Label → Flight
  replaying : Label → Flight
  revoking : Label → Answer → Flight
  leaving : Label → Label → Flight

pub data Progress : Type 0 where
  waits : Flight → Progress
  answers : Answer → Progress

unfoldable pub is_unrevoked : RefreshToken → Bool
is_unrevoked t = not (is_some t.revoked_at)

-- `WHERE token_hash = ... AND revoked_at IS NULL`.
unfoldable pub is_presented : Label → RefreshToken → Bool
unfolding is_unrevoked
is_presented hash t = t.token_hash == hash && is_unrevoked t

abbrev pub revoke : ℕ → RefreshToken → RefreshToken
revoke now t = record t { revoked_at = some now }

unfoldable pub retire : Label → ℕ → List RefreshToken → List RefreshToken
unfolding is_presented
retire hash now ts = update_where (is_presented hash) (revoke now) ts

-- `revokeFamily`.
unfoldable pub revoke_family : Label → ℕ → List RefreshToken → List RefreshToken
unfolding is_unrevoked
revoke_family family now ts =
    update_where (λ t. t.family_id == family && is_unrevoked t) (revoke now) ts

unfoldable pub find_token : Label → List RefreshToken → Option RefreshToken
find_token hash ts = find? (λ t. t.token_hash == hash) ts

-- `refresh`, up to the end of its guarded UPDATE.
abbrev pub refresh_flight : Label → Option RefreshToken → Flight
refresh_flight hash none = replaying hash
refresh_flight hash (some row) = judging row

unfoldable pub begin_refresh : Label → ℕ → AuthTables → Flight × AuthTables
unfolding is_presented retire
begin_refresh hash now db = (
  refresh_flight hash (find? (is_presented hash) db.tokens),
  record db { tokens = retire hash now db.tokens },
)

-- `refresh` after the UPDATE: the deadline, and the account.
abbrev pub judge_account : RefreshToken → Option User → Progress
judge_account row none = answers (refused invalid_credentials)
judge_account row (some user) =
    if user.is_active
    then waits (issuing user.id row.family_id)
    else answers (refused invalid_credentials)

unfoldable pub judge : RefreshToken → ℕ → AuthTables → Progress
judge row now db =
    if leb row.expires_at now
    then answers (refused token_expired)
    else judge_account row (find? (λ u. u.id == row.user_id) db.users)

-- `revokeFamilyOfReplayedToken`, its lookup.
abbrev pub replay_progress : Option RefreshToken → Progress
replay_progress none = answers (refused token_invalid)
replay_progress (some row) = waits (revoking row.family_id (refused refresh_token_reused))

-- `logout`, its lookup. `revokeToken` of the access token comes after the last write here and its
-- failure is only logged.
abbrev pub leave_progress : Label → Option RefreshToken → Progress
leave_progress user_id none = answers (refused token_invalid)
leave_progress user_id (some row) =
    if row.user_id == user_id
    then waits (revoking row.family_id signed_out)
    else answers (refused token_invalid)

-- `issuePair`, its insert. `hash` is the hash of the generated secret.
unfoldable pub issue_pair : Label → Label → Label → ℕ → AuthTables → AuthTables
issue_pair hash user_id family deadline db = record db {
  tokens =
      record {
        user_id = user_id;
        token_hash = hash;
        family_id = family;
        expires_at = deadline;
        revoked_at = none;
      }
      ∷ db.tokens;
}

-- The next statement of a waiting request. `ttl` is REFRESH_TOKEN_TTL_SECONDS.
unfoldable pub advance : ℕ → Label → ℕ → Flight → AuthTables → Progress × AuthTables
unfolding judge find_token issue_pair revoke_family
advance ttl hash now (judging row) db = (judge row now db, db)
advance ttl hash now (issuing user_id family) db =
    (answers (signed_in hash), issue_pair hash user_id family (now + ttl) db)
advance ttl hash now (replaying presented) db =
    (replay_progress (find_token presented db.tokens), db)
advance ttl hash now (revoking family answer) db =
    (answers answer, record db { tokens = revoke_family family now db.tokens })
advance ttl hash now (leaving user_id presented) db =
    (leave_progress user_id (find_token presented db.tokens), db)

-- `login` past the lockout: the account, the password, and a fresh family. `verify` is argon2's,
-- `absent` the hash that stands in for a missing account.
abbrev pub hash_or_absent : Label → Option User → Label
hash_or_absent absent none = absent
hash_or_absent absent (some user) = user.password_hash

abbrev pub login_account : Label → Bool → Option User → Progress
login_account family matches none = answers (refused invalid_credentials)
login_account family matches (some user) =
    if user.is_active && matches
    then waits (issuing user.id family)
    else answers (refused invalid_credentials)

unfoldable pub begin_login :
    (Label → Label → Bool) → Label → Label → Label → Label → AuthTables → Progress
begin_login verify absent email password family db =
    let user = find? (λ u. u.email == email) db.users in
    login_account family (verify (hash_or_absent absent user) password) user
