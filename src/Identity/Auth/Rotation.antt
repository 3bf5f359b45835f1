-- ===== src/Identity/Auth/Rotation.antt =====
-- Rotation under interleaving: what each step does to the holders of a family, and what follows for
-- every order of steps.
use cafe_pos.Identity.Rows.{RefreshToken, User}
use cafe_pos.Schema.Rows.{Label}
use cafe_pos.Identity.Auth.Families.{
  minting_in, live_in, one_if, is_minting, revoke_family_le, retire_le, retire-takes, holders,
}
use cafe_pos.Prelude.{
  [], ◌∷◌, true, false, some, none, ℕ, List, ◌≡◌, ◌+◌, arith, ◌≤◌, suc, Option, zero, refl, ◌==◌,
  find?, Bool, if◌then◌else◌, leb, ◌&&◌, ltb,
}
use cafe_pos.Identity.Auth.{
  judging, issuing, replaying, revoking, leaving, answers, advance, judge, issue_pair, find_token,
  Flight, AuthTables, begin_refresh, replay_progress, leave_progress, is_presented, retire,
  refresh_flight, refused, token_expired, judge_account, login_account, begin_login, hash_or_absent,
}
use cafe_pos.Identity.Auth.Sessions.{
  logs_in, refreshes, logs_out, advances, crashes, sets_active, pick, after, keep, Sessions, play,
  advance_picked, drop_picked, Action, play_all, nobody,
}

pick-minting_in :
    (family : Label) (n : ℕ) (fs gs : List Flight) (g : Flight)
    → pick n fs ≡ some (g, gs)
    → minting_in family fs ≡ one_if (is_minting family g) + minting_in family gs
unfolding minting_in
pick-minting_in family n [] gs g h = cc
pick-minting_in family zero (f ∷ fs) gs g h = ground arith
pick-minting_in family (suc n) (f ∷ fs) gs g h = go (pick n fs) (pick-minting_in family n fs) h
  where
    go :
        (o : Option (Flight × List Flight))
        → ((as' : List Flight) (a : Flight)
            → o ≡ some (a, as')
            → minting_in family fs ≡ one_if (is_minting family a) + minting_in family as')
        → keep f o ≡ some (g, gs)
        → minting_in family (f ∷ fs) ≡ one_if (is_minting family g) + minting_in family gs
    go none e k = cc
    go (some (a, as')) e k = ground (arith, e as' a refl)

judge-minting_in :
    (family : Label) (row : RefreshToken) (now : ℕ) (db : AuthTables) (fs : List Flight)
    → minting_in family (after (judge row now db) fs)
      ≤ one_if (row.family_id == family) + minting_in family fs
unfolding judge minting_in
judge-minting_in family row now db fs =
    account (find? (λ u. u.id == row.user_id) db.users) (leb row.expires_at now)
  where
    account :
        (o : Option User) (expired : Bool)
        → minting_in family
            (after (if expired then answers (refused token_expired) else judge_account row o) fs)
          ≤ one_if (row.family_id == family) + minting_in family fs
    account none true = ground arith
    account none false = ground arith
    account (some user) true = ground arith
    account (some user) false = ground arith

replay-minting_in :
    (family : Label) (o : Option RefreshToken) (fs : List Flight)
    → minting_in family (after (replay_progress o) fs) ≡ minting_in family fs
unfolding minting_in
replay-minting_in family none fs = refl
replay-minting_in family (some row) fs = omega arith

leave-minting_in :
    (family user_id : Label) (o : Option RefreshToken) (fs : List Flight)
    → minting_in family (after (leave_progress user_id o) fs) ≡ minting_in family fs
unfolding minting_in
leave-minting_in family user_id none fs = refl
leave-minting_in family user_id (some row) fs = ground arith

advance-holders :
    (ttl : ℕ) (family hash : Label) (now : ℕ) (f : Flight) (fs : List Flight) (db : AuthTables)
    → let (progress, db') = advance ttl hash now f db in
      live_in family db'.tokens + minting_in family (after progress fs)
      ≤ live_in family db.tokens + (one_if (is_minting family f) + minting_in family fs)
unfolding advance issue_pair minting_in live_in
advance-holders ttl family hash now (judging row) fs db =
    omega (arith, judge-minting_in family row now db fs)
advance-holders ttl family hash now (issuing user_id g) fs db = ground arith
advance-holders ttl family hash now (replaying presented) fs db =
    omega (arith, replay-minting_in family (find_token presented db.tokens) fs)
advance-holders ttl family hash now (revoking g answer) fs db =
    omega (arith, revoke_family_le family g now db.tokens)
advance-holders ttl family hash now (leaving user_id presented) fs db =
    omega (arith, leave-minting_in family user_id (find_token presented db.tokens) fs)

begin_refresh-holders :
    (family hash : Label) (now : ℕ) (fs : List Flight) (db : AuthTables)
    → let (flight, db') = begin_refresh hash now db in
      live_in family db'.tokens + minting_in family (flight ∷ fs)
      ≤ live_in family db.tokens + minting_in family fs
unfolding begin_refresh minting_in
begin_refresh-holders family hash now fs db = go (find? (is_presented hash) db.tokens) refl
  where
    go :
        (o : Option RefreshToken)
        → find? (is_presented hash) db.tokens ≡ o
        → live_in family (retire hash now db.tokens)
            + minting_in family (refresh_flight hash o ∷ fs)
          ≤ live_in family db.tokens + minting_in family fs
    go none e = omega (arith, retire_le family hash now db.tokens)
    go (some row) e = omega (arith, retire-takes family hash now db.tokens row e)

-- A step that allots the family `f` to a sign-in is one that `next` passes it in.
abbrev is_born : Label → Label → Label → Bool
is_born family next next' = leb next family && ltb family next'

login-minting_in :
    (family g : Label) (matches : Bool) (o : Option User) (fs : List Flight)
    → minting_in family (after (login_account g matches o) fs)
      ≤ minting_in family fs + one_if (g == family)
unfolding minting_in
login-minting_in family g matches none fs = omega arith
login-minting_in family g true (some user) fs = ground arith
login-minting_in family g false (some user) fs = ground arith

logout-holders :
    (family user_id hash : Label) (fs : List Flight) (db : AuthTables)
    → live_in family db.tokens + minting_in family (leaving user_id hash ∷ fs)
      ≤ live_in family db.tokens + minting_in family fs
unfolding minting_in
logout-holders family user_id hash fs db = omega arith

module _ (verify : Label → Label → Bool) (absent : Label) (ttl : ℕ) where
  abbrev Moves : Label → Sessions → Sessions → Type 0
  Moves family s t =
      (holders family t ≤ holders family s + one_if (is_born family s.next t.next))
      × (s.next ≤ t.next)

  advance_picked-Moves :
      (family : Label) (now n : ℕ) (s : Sessions)
      → Moves family s (advance_picked verify absent ttl now (pick n s.flights) s)
  unfolding advance_picked
  advance_picked-Moves family now n s = go (pick n s.flights) refl
    where
      go :
          (o : Option (Flight × List Flight))
          → pick n s.flights ≡ o
          → Moves family s (advance_picked verify absent ttl now o s)
      go none e = (omega arith, omega arith)
      go (some (f, fs)) e = (
        omega (
          arith,
          pick-minting_in family n s.flights fs f e,
          advance-holders ttl family s.next now f fs s.db,
        ),
        omega arith,
      )

  drop_picked-Moves :
      (family : Label) (n : ℕ) (s : Sessions)
      → Moves family s (drop_picked verify absent ttl (pick n s.flights) s)
  unfolding drop_picked
  drop_picked-Moves family n s = go (pick n s.flights) refl
    where
      go :
          (o : Option (Flight × List Flight))
          → pick n s.flights ≡ o
          → Moves family s (drop_picked verify absent ttl o s)
      go none e = (omega arith, omega arith)
      go (some (f, fs)) e = (omega (arith, pick-minting_in family n s.flights fs f e), omega arith)

  play-Moves :
      (family : Label) (a : Action) (s : Sessions) → Moves family s (play verify absent ttl a s)
  unfolding play begin_login
  play-Moves family (logs_in email password) s =
      let user = find? (λ u. u.email == email) s.db.users in
      let minted =
        login-minting_in family s.next (verify (hash_or_absent absent user) password) user
          s.flights in
      (ground (arith, minted), omega arith)
  play-Moves family (refreshes hash now) s =
      (ground (arith, begin_refresh-holders family hash now s.flights s.db), omega arith)
  play-Moves family (logs_out user_id hash) s =
      (ground (arith, logout-holders family user_id hash s.flights s.db), omega arith)
  play-Moves family (advances n now) s = advance_picked-Moves family now n s
  play-Moves family (crashes n) s = drop_picked-Moves family n s
  play-Moves family (sets_active user_id active) s = (omega arith, omega arith)

  -- Every family is held once at most, and one that no sign-in has been given is not held at all.
  abbrev IsExclusive : Sessions → Type 0
  IsExclusive s =
      (family : Label) → (holders family s ≤ 1) × (s.next ≤ family → holders family s ≡ 0)

  play-IsExclusive :
      (a : Action) (s : Sessions) → IsExclusive s → IsExclusive (play verify absent ttl a s)
  play-IsExclusive a s h family =
      let (moved, grown) = play-Moves family a s in
      let (once, unborn) = h family in (grind arith, λ new. grind arith)

  nobody-IsExclusive : (users : List User) → IsExclusive (nobody users)
  unfolding live_in minting_in
  nobody-IsExclusive users family = (omega arith, λ _. refl)

  play_all-IsExclusive :
      (as' : List Action) (s : Sessions)
      → IsExclusive s
      → IsExclusive (play_all verify absent ttl as' s)
  unfolding play_all
  play_all-IsExclusive [] s h = h
  play_all-IsExclusive (a ∷ as') s h =
      play_all-IsExclusive as' (play verify absent ttl a s) (play-IsExclusive a s h)

  -- In every order of the statements of sign-ins, rotations, replays and sign-outs, a family of
  -- refresh tokens has at most one live token, a rotation that is still to insert one counted with
  -- it: two requests that race on a token cannot both mint a child.
  pub one_holder_per_family :
      (users : List User) (as' : List Action) (family : Label)
      → holders family (play_all verify absent ttl as' (nobody users)) ≤ 1
  one_holder_per_family users as' family =
      (play_all-IsExclusive as' (nobody users) (nobody-IsExclusive users) family).0

  pub play_all-unheld :
      (as' : List Action) (s : Sessions) (family : Label)
      → suc family ≤ s.next
      → holders family s ≡ 0
      → holders family (play_all verify absent ttl as' s) ≡ 0
  unfolding play_all
  play_all-unheld [] s family old h = h
  play_all-unheld (a ∷ as') s family old h =
      let (moved, grown) = play-Moves family a s in
      play_all-unheld as' (play verify absent ttl a s) family (omega arith) (grind arith)
