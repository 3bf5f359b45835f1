-- ===== src/Identity/Revocation.antt =====
-- src/identity/revocation/revocation.service.ts: the list of denied principals in Redis. An attempt
-- may fail before the SET, between the SET and the PUBLISH, or not at all. Times are seconds.
use cafe_pos.Schema.Rows.{Label}
use cafe_pos.Prelude.{
  [], ◌∷◌, true, false, some, none, Bool, ℕ, List, Option, ◌≡◌, ◌==◌, ◌+◌, any, ◌||◌, arith, ◌<◌,
  suc, select, ◌&&◌, zero, not, ltb,
}

pub data Subject : Type 0 where
  user_subject token_subject device_subject : Label → Subject

abbrev pub same_subject : Subject → Subject → Bool
same_subject (user_subject a) (user_subject b) = a == b
same_subject (token_subject a) (token_subject b) = a == b
same_subject (device_subject a) (device_subject b) = a == b
same_subject (user_subject a) (token_subject b) = false
same_subject (user_subject a) (device_subject b) = false
same_subject (token_subject a) (user_subject b) = false
same_subject (token_subject a) (device_subject b) = false
same_subject (device_subject a) (user_subject b) = false
same_subject (device_subject a) (token_subject b) = false

pub record Denial : Type 0 where
  pub subject : Subject
  pub until : ℕ

-- The keys, and what was published, newest first.
pub record DenyList : Type 0 where
  pub denials : List Denial
  pub published : List Subject

pub data Attempt : Type 0 where
  fails_first fails_between works : Attempt

abbrev pub publish : Subject → DenyList → DenyList
publish s d = record d { published = s ∷ d.published }

-- `SET key 1 EX ttl`.
abbrev pub set_denial : ℕ → ℕ → Subject → DenyList → DenyList
set_denial ttl now s d = record d {
  denials =
      record { subject = s; until = now + ttl }
      ∷ select (λ e. not (same_subject e.subject s)) d.denials;
}

abbrev pub retries : ℕ
retries = 3

-- `withRetry` on a body that is cut where the attempt fails: whether it went through in the end.
abbrev pub with_retry :
    (Attempt → DenyList → DenyList) → ℕ → List Attempt → DenyList → Bool × DenyList
with_retry body remaining [] d = (true, body works d)
with_retry body remaining (works ∷ rest) d = (true, body works d)
with_retry body zero (fails_first ∷ rest) d = (false, body fails_first d)
with_retry body zero (fails_between ∷ rest) d = (false, body fails_between d)
with_retry body (suc n) (fails_first ∷ rest) d = with_retry body n rest (body fails_first d)
with_retry body (suc n) (fails_between ∷ rest) d = with_retry body n rest (body fails_between d)

-- `announce`: written before it is published.
abbrev pub announce_once : ℕ → ℕ → Subject → Attempt → DenyList → DenyList
announce_once ttl now s fails_first d = d
announce_once ttl now s fails_between d = set_denial ttl now s d
announce_once ttl now s works d = publish s (set_denial ttl now s d)

abbrev publish_once : Subject → Attempt → DenyList → DenyList
publish_once s fails_first d = d
publish_once s fails_between d = d
publish_once s works d = publish s d

-- `revokeUser` and `revokeToken`; a list of attempts that ends works from there on.
unfoldable pub revoke_subject : ℕ → ℕ → Subject → List Attempt → DenyList → Bool × DenyList
revoke_subject ttl now s attempts d = with_retry (announce_once ttl now s) retries attempts d

-- `revokeDevice`: published, never stored.
unfoldable pub revoke_device_sockets : Label → List Attempt → DenyList → Bool × DenyList
revoke_device_sockets id attempts d =
    with_retry (publish_once (device_subject id)) retries attempts d

abbrev pub is_denied : ℕ → Subject → DenyList → Bool
is_denied now s d = any (λ e. same_subject e.subject s && ltb now e.until) d.denials

-- `isRevoked`: the user's key and the token's.
unfoldable pub is_revoked : ℕ → Label → Label → DenyList → Bool
is_revoked now user_id token_id d =
    is_denied now (user_subject user_id) d || is_denied now (token_subject token_id) d

-- A message off the channel, by the fields that are non-empty texts. `parseRevocation` takes it if
-- there is exactly one.
abbrev pub parse_revocation : Option Label → Option Label → Option Label → Option Subject
parse_revocation (some u) none none = some (user_subject u)
parse_revocation none (some t) none = some (token_subject t)
parse_revocation none none (some d) = some (device_subject d)
parse_revocation none none none = none
parse_revocation (some u) (some t) d = none
parse_revocation (some u) none (some d) = none
parse_revocation none (some t) (some d) = none

same_subject_refl : (s : Subject) → same_subject s s ≡ true
same_subject_refl (user_subject a) = ground arith
same_subject_refl (token_subject a) = ground arith
same_subject_refl (device_subject a) = ground arith

-- A revocation of a user that reports success denies every token of the user for the lifetime of an
-- access token, however many attempts it took, and has been published.
pub revoke_subject-denies :
    (ttl now later user_id token_id : ℕ) (attempts : List Attempt) (d : DenyList)
    → later < now + ttl
    → (revoke_subject ttl now (user_subject user_id) attempts d).0 ≡ true
    → let (_, d') = revoke_subject ttl now (user_subject user_id) attempts d in
      (is_revoked later user_id token_id d' ≡ true)
      × (any (same_subject (user_subject user_id)) d'.published ≡ true)
unfolding revoke_subject is_revoked
revoke_subject-denies ttl now later user_id token_id attempts d h = go retries attempts d
  where
    go :
        (n : ℕ) (attempts : List Attempt) (d : DenyList)
        → (with_retry (announce_once ttl now (user_subject user_id)) n attempts d).0 ≡ true
        → let d' = (with_retry (announce_once ttl now (user_subject user_id)) n attempts d).1 in
          ((is_denied later (user_subject user_id) d'
              || is_denied later (token_subject token_id) d')
            ≡ true)
          × (any (same_subject (user_subject user_id)) d'.published ≡ true)
    go n [] d k = (ground arith, ground arith)
    go n (works ∷ rest) d k = (ground arith, ground arith)
    go zero (fails_first ∷ rest) d k = cc
    go zero (fails_between ∷ rest) d k = cc
    go (suc n) (fails_first ∷ rest) d k = go n rest d k
    go (suc n) (fails_between ∷ rest) d k =
        go n rest (set_denial ttl now (user_subject user_id) d) k
