-- ===== src/Identity/Auth/Replay.antt =====
-- A rotated token that comes again: the family dies for good, unless its rotation has not inserted
-- the child yet.
use cafe_pos.Identity.Auth.Rotation.{play_all-unheld}
use cafe_pos.Identity.Auth.Families.{minting_in, holders, revoke_family-live_in, live_in}
use cafe_pos.Identity.Rows.{RefreshToken, User}
use cafe_pos.Schema.Rows.{Label}
use cafe_pos.Prelude.{
  [], ◌∷◌, true, false, some, none, ℕ, Bool, List, find?, ◌≡◌, arith, refl, suc, ◌++◌, ◌<◌, ◌==◌,
  inl, inr, ◌≢◌, leb, ◌≤◌, Option-cases, ap, ◌∙◌,
}
use cafe_pos.Identity.Auth.{
  issuing, retire, begin_refresh, is_presented, advance, find_token, revoke_family, is_unrevoked,
  judge, issue_pair, Flight,
}
use cafe_pos.Identity.Auth.Sessions.{
  refreshes, advances, play_all, Action, play, advance_picked, Sessions,
}

-- A request to refresh that runs alone: its UPDATE, its lookup and the revocation of the family.
abbrev pub replays : Label → ℕ → List Action
replays hash now = refreshes hash now ∷ advances 0 now ∷ advances 0 now ∷ []

retire_nothing :
    (hash : Label) (now : ℕ) (ts : List RefreshToken)
    → find? (is_presented hash) ts ≡ none
    → retire hash now ts ≡ ts
unfolding retire
retire_nothing hash now [] h = refl
retire_nothing hash now (t ∷ ts) h = ground (arith, retire_nothing hash now ts)

retire_all :
    (hash : Label) (now : ℕ) (ts : List RefreshToken)
    → find? (is_presented hash) (retire hash now ts) ≡ none
unfolding retire is_presented is_unrevoked
retire_all hash now [] = refl
retire_all hash now (t ∷ ts) = ground (arith, retire_all hash now ts)

-- A token that was presented is found again by its hash, retired or not.
retire-find_token :
    (hash : Label) (now : ℕ) (ts : List RefreshToken) (row : RefreshToken)
    → find? (is_presented hash) ts ≡ some row
    → find_token hash (retire hash now ts) ≢ none
unfolding retire is_presented is_unrevoked find_token
retire-find_token hash now [] row h = cc
retire-find_token hash now (t ∷ ts) row h = ground (arith, retire-find_token hash now ts row)

module _ (verify : Label → Label → Bool) (absent : Label) (ttl : ℕ) where
  -- What a replay does to the tables and to the other requests.
  replays-revoke_family :
      (hash : Label) (now : ℕ) (row : RefreshToken) (s : Sessions)
      → find? (is_presented hash) s.db.tokens ≡ none
      → find_token hash s.db.tokens ≡ some row
      → play_all verify absent ttl (replays hash now) s ≡ record {
        db = record s.db { tokens = revoke_family row.family_id now s.db.tokens };
        flights = s.flights;
        next = suc (suc s.next);
      }
  unfolding play_all play begin_refresh advance advance_picked find_token
  replays-revoke_family hash now row s gone held =
      rw (gone, retire_nothing hash now s.db.tokens gone) (rw held refl)

  play_all-append :
      (xs ys : List Action) (s : Sessions)
      → play_all verify absent ttl (xs ++ ys) s
        ≡ play_all verify absent ttl ys (play_all verify absent ttl xs s)
  unfolding play_all
  play_all-append [] ys s = refl
  play_all-append (x ∷ xs) ys s = play_all-append xs ys (play verify absent ttl x s)

  -- If a token that is rotated already comes again while no request is between the statements of a
  -- rotation in its family, then from then on, whatever requests follow, nobody holds the family.
  pub replay_ends_family :
      (hash : Label) (now : ℕ) (row : RefreshToken) (s : Sessions) (as' : List Action)
      → find? (is_presented hash) s.db.tokens ≡ none
      → find_token hash s.db.tokens ≡ some row
      → minting_in row.family_id s.flights ≡ 0
      → row.family_id < s.next
      → holders row.family_id (play_all verify absent ttl (replays hash now ++ as') s) ≡ 0
  replay_ends_family hash now row s as' gone held idle born =
      let s' = play_all verify absent ttl (replays hash now) s in
      let e = replays-revoke_family hash now row s gone held in
      let dead = revoke_family-live_in row.family_id now s.db.tokens in
      rw (play_all-append (replays hash now) as' s) (
        play_all-unheld verify absent ttl as' s' row.family_id (rw e (omega arith))
          (rw (e, dead, idle) refl))

  -- A rotation up to its insert.
  rotation-judged :
      (hash : Label) (now : ℕ) (row : RefreshToken) (user : User) (s : Sessions)
      → find? (is_presented hash) s.db.tokens ≡ some row
      → leb row.expires_at now ≡ false
      → find? (λ u. u.id == row.user_id) s.db.users ≡ some user
      → user.is_active ≡ true
      → play_all verify absent ttl (refreshes hash now ∷ advances 0 now ∷ []) s ≡ record {
        db = record s.db { tokens = retire hash now s.db.tokens };
        flights = issuing user.id row.family_id ∷ s.flights;
        next = suc s.next;
      }
  unfolding play_all play begin_refresh advance advance_picked judge
  rotation-judged hash now row user s presented fresh account active =
      rw presented (rw fresh (rw account (rw active refl)))

  issue-holds :
      (family user_id : Label) (later : ℕ) (s : Sessions) (fs : List Flight)
      → s.flights ≡ issuing user_id family ∷ fs
      → 1 ≤ live_in family (play_all verify absent ttl (advances 0 later ∷ []) s).db.tokens
  unfolding play_all play advance_picked advance issue_pair live_in is_unrevoked
  issue-holds family user_id later s fs waiting = rw waiting (ground arith)

  replay-spares :
      (hash family user_id : Label) (later : ℕ) (s : Sessions) (fs : List Flight)
      → find? (is_presented hash) s.db.tokens ≡ none
      → find_token hash s.db.tokens ≢ none
      → s.flights ≡ issuing user_id family ∷ fs
      → 1
        ≤ live_in family
            (play_all verify absent ttl (replays hash later ++ (advances 0 later ∷ [])) s).db.tokens
  replay-spares hash family user_id later s fs gone held waiting =
      elim (Option-cases (find_token hash s.db.tokens)) [
        | inl e ↦ elim (held e) [ ]
        | inr (row, e) ↦
            let done = replays-revoke_family hash later row s gone e in
            rw (play_all-append (replays hash later) (advances 0 later ∷ []) s)
              (issue-holds family user_id later _ fs (ap (λ t. t.flights) done ∙ waiting))
      ]

  -- If a token comes again after its rotation has retired it and before the rotation inserts the
  -- child, the child is inserted all the same and the family still has a live token at the end.
  pub child_survives_replay :
      (hash : Label) (now later : ℕ) (row : RefreshToken) (user : User) (s : Sessions)
      → find? (is_presented hash) s.db.tokens ≡ some row
      → leb row.expires_at now ≡ false
      → find? (λ u. u.id == row.user_id) s.db.users ≡ some user
      → user.is_active ≡ true
      → let rotation = refreshes hash now ∷ advances 0 now ∷ [] in
        let played = rotation ++ (replays hash later ++ (advances 0 later ∷ [])) in
        1 ≤ live_in row.family_id (play_all verify absent ttl played s).db.tokens
  child_survives_replay hash now later row user s presented fresh account active =
      let rest = replays hash later ++ (advances 0 later ∷ []) in
      let judged = rotation-judged hash now row user s presented fresh account active in
      rw (play_all-append (refreshes hash now ∷ advances 0 now ∷ []) rest s, judged)
        (replay-spares hash row.family_id user.id later _ s.flights
          (retire_all hash now s.db.tokens) (retire-find_token hash now s.db.tokens row presented)
          refl)
