-- ===== src/Identity/Auth/Sessions.antt =====
-- src/identity/auth/auth.service.ts: requests in flight together. Every statement of every request
-- is one step, in any order, and accounts change between them.
use cafe_pos.Prelude.{ℕ, Bool, Option, none, some, List, [], ◌∷◌, ◌==◌, zero, suc, update_where}
use cafe_pos.Schema.Rows.{Label}
use cafe_pos.Identity.Rows.{User}
use cafe_pos.Identity.Auth.{
  AuthTables, Flight, leaving, waits, answers, Progress, begin_refresh, begin_login, advance,
}

-- The tables and the waiting requests. `next` is the next value of the generators of families
-- (`uuidv7`) and secrets (`generateSecret`): what they give is new.
pub record Sessions : Type 0 where
  pub db : AuthTables
  pub flights : List Flight
  pub next : Label

pub data Action : Type 0 where
  -- email and password, past the lockout
  logs_in : Label → Label → Action
  -- the hash of the token and the time
  refreshes : Label → ℕ → Action
  -- the caller and the hash of the token
  logs_out : Label → Label → Action
  -- the place among the waiting requests, and the time
  advances : ℕ → ℕ → Action
  -- the process of a waiting request dies
  crashes : ℕ → Action
  -- an administrator activates an account or deactivates it
  sets_active : Label → Bool → Action

abbrev pub keep : Flight → Option (Flight × List Flight) → Option (Flight × List Flight)
keep f none = none
keep f (some (g, gs)) = some (g, f ∷ gs)

abbrev pub pick : ℕ → List Flight → Option (Flight × List Flight)
pick n [] = none
pick zero (f ∷ fs) = some (f, fs)
pick (suc n) (f ∷ fs) = keep f (pick n fs)

abbrev pub after : Progress → List Flight → List Flight
after (waits f) fs = f ∷ fs
after (answers a) fs = fs

module _ (verify : Label → Label → Bool) (absent : Label) (ttl : ℕ) where
  unfoldable pub advance_picked : ℕ → Option (Flight × List Flight) → Sessions → Sessions
  unfolding advance
  advance_picked now none s = s
  advance_picked now (some (f, fs)) s =
      let (progress, db) = advance ttl s.next now f s.db in
      record { db = db; flights = after progress fs; next = suc s.next }

  unfoldable pub drop_picked : Option (Flight × List Flight) → Sessions → Sessions
  drop_picked none s = s
  drop_picked (some (f, fs)) s = record s { flights = fs }

  unfoldable pub play : Action → Sessions → Sessions
  unfolding advance begin_refresh begin_login advance_picked drop_picked
  play (logs_in email password) s = record s {
    flights = after (begin_login verify absent email password s.next s.db) s.flights;
    next = suc s.next;
  }
  play (refreshes hash now) s =
      let (flight, db) = begin_refresh hash now s.db in
      record s { db = db; flights = flight ∷ s.flights }
  play (logs_out user_id hash) s = record s { flights = leaving user_id hash ∷ s.flights }
  play (advances n now) s = advance_picked now (pick n s.flights) s
  play (crashes n) s = drop_picked (pick n s.flights) s
  play (sets_active user_id active) s = record s {
    db = record s.db {
      users = update_where (λ u. u.id == user_id) (λ u. record u { is_active = active }) s.db.users;
    };
  }

  -- The actions in their order.
  unfoldable pub play_all : List Action → Sessions → Sessions
  unfolding play
  play_all [] s = s
  play_all (a ∷ as') s = play_all as' (play a s)

abbrev pub nobody : List User → Sessions
nobody users = record { db = record { users = users; tokens = [] }; flights = []; next = 0 }
