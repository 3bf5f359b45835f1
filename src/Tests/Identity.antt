-- ===== src/Tests/Identity.antt =====
-- Staff accounts, sessions and kiosks.
use cafe_pos.Schema.Enums.{UserRole, DeviceStatus}
use cafe_pos.Identity.Devices.Resumption.{update_undoes_revocation}
use cafe_pos.Identity.Users.Admins.{always_an_admin}
use cafe_pos.Identity.Auth.Lockout.{attempts_after, login_after_failures}
use cafe_pos.Identity.Auth.Replay.{replays, replay_ends_family, child_survives_replay}
use cafe_pos.Identity.Auth.Rotation.{one_holder_per_family}
use cafe_pos.Identity.Auth.Login.{login, rate_limited}
use cafe_pos.Identity.Devices.{
  UpdateDeviceInput, update_refusal, resolve_token, revoke_device, declines, device_revoked,
  update_write, accepts,
}
use cafe_pos.Identity.Users.{UpdateUserInput, UsersRequest, active_admins, updates, users_history}
use cafe_pos.Identity.RateLimit.{get}
use cafe_pos.Identity.Auth.{
  is_presented, AuthTables, is_unrevoked, begin_login, find_token, begin_refresh, advance, judge,
  issue_pair, retire,
}
use cafe_pos.Identity.Auth.Sessions.{
  Sessions, Action, play_all, logs_in, play, nobody, refreshes, advances, advance_picked,
}
use cafe_pos.Identity.Auth.Families.{minting_in, holders, live_in}
use cafe_pos.Schema.Rows.{Label}
use cafe_pos.Identity.Rows.{User, RefreshToken, KioskDevice}
use cafe_pos.Prelude.{
  [], ◌∷◌, true, false, some, none, List, ◌≤◌, Bool, ℕ, ◌≡◌, ◌==◌, ◌+◌, ◌++◌, arith, refl,
}

abbrev owner : User
owner = record {
  id = 1;
  email = 11;
  password_hash = 101;
  display_name = 21;
  role = UserRole.admin;
  is_active = true;
}

abbrev barista_user : User
barista_user = record {
  id = 2;
  email = 12;
  password_hash = 102;
  display_name = 22;
  role = UserRole.barista;
  is_active = true;
}

abbrev staff_list : List User
staff_list = owner ∷ barista_user ∷ []

-- A hash is the password and 100.
abbrev verifies : Label → Label → Bool
verifies hash password = hash == password + 100

-- Two tabs race on one token: both retire, one mints.
abbrev race : List Action
race = logs_in 11 1 ∷ advances 0 5 ∷ refreshes 1 10 ∷ refreshes 1 10 ∷ advances 1 11 ∷ []

race_mints : minting_in 0 (play_all verifies 0 100 race (nobody staff_list)).flights ≡ 1
unfolding minting_in play_all play begin_login begin_refresh advance advance_picked judge issue_pair
    is_presented is_unrevoked retire find_token
race_mints = refl

one_holder_per_family_example : holders 0 (play_all verifies 0 100 race (nobody staff_list)) ≤ 1
one_holder_per_family_example = one_holder_per_family verifies 0 100 staff_list race 0

abbrev pub first_token : RefreshToken
first_token = record {
  user_id = 1;
  token_hash = 50;
  family_id = 3;
  expires_at = 100;
  revoked_at = none;
}

abbrev pub rotated_token : RefreshToken
rotated_token = record first_token { revoked_at = some 10 }

abbrev child_token : RefreshToken
child_token = record first_token { token_hash = 51 }

abbrev signed_in_once : Sessions
signed_in_once = record {
  db = record { users = staff_list; tokens = first_token ∷ [] };
  flights = [];
  next = 60;
}

abbrev rotated_once : Sessions
rotated_once = record {
  db = record { users = staff_list; tokens = child_token ∷ rotated_token ∷ [] };
  flights = [];
  next = 60;
}

replay_ends_family_example :
    holders 3 (play_all verifies 0 100 (replays 50 20 ++ race) rotated_once) ≡ 0
unfolding is_presented is_unrevoked find_token minting_in
replay_ends_family_example =
    replay_ends_family verifies 0 100 50 20 rotated_token rotated_once race refl refl refl
      (omega arith)

child_survives_replay_example :
    let rotation = refreshes 50 10 ∷ advances 0 10 ∷ [] in
    let played = rotation ++ (replays 50 20 ++ (advances 0 20 ∷ [])) in
    1 ≤ live_in 3 (play_all verifies 0 100 played signed_in_once).db.tokens
unfolding is_presented is_unrevoked
child_survives_replay_example =
    child_survives_replay verifies 0 100 50 10 20 first_token owner signed_in_once refl refl refl
      refl

abbrev guesses : List (Label × ℕ)
guesses = (7, 1003) ∷ (8, 1010) ∷ (9, 1500) ∷ (6, 1890) ∷ []

abbrev accounts : AuthTables
accounts = record { users = staff_list; tokens = [] }

-- Five wrong guesses shut the right password out until the window ends.
login_after_failures_example :
    (login verifies 0
      (λ e. e)
      11
      1
      70
      1899
      accounts
      (attempts_after verifies 0 (λ e. e) 11 accounts ((5, 1000) ∷ guesses) [])).0
    ≡ rate_limited 1
unfolding get begin_login
login_after_failures_example =
    login_after_failures verifies 0 (λ e. e) 11 accounts 1000 1899 5 1 70 guesses [] refl
      (
        (refl, omega arith),
        (
          (refl, omega arith),
          ((refl, omega arith), ((refl, omega arith), ((refl, omega arith), tt))),
        ),
      )

abbrev no_change : UpdateUserInput
no_change = record { display_name = none; role = none; is_active = none }

abbrev staff_requests : List UsersRequest
staff_requests =
    updates 1 (record no_change { is_active = some false })
    ∷ updates 2 (record no_change { role = some UserRole.admin })
    ∷ updates 1 (record no_change { role = some UserRole.cashier })
    ∷ updates 2 (record no_change { is_active = some false })
    ∷ []

always_an_admin_example : 1 ≤ active_admins (users_history staff_requests staff_list)
always_an_admin_example = always_an_admin staff_requests staff_list (refl, (refl, tt)) (omega arith)

abbrev tablet : KioskDevice
tablet = record {
  id = 4;
  name = 40;
  token_hash = some 90;
  pairing_code_hash = none;
  pairing_expires_at = none;
  status = DeviceStatus.paused;
  last_seen_at = none;
}

abbrev resume : UpdateDeviceInput
resume = record { name = none; pauses = some false }

update_undoes_revocation_example :
    (update_refusal 4 resume (tablet ∷ []) ≡ none)
    × ((resolve_token 90 5 (revoke_device 4 (tablet ∷ [])).1).0 ≡ declines device_revoked)
    × ((resolve_token 90 5 (update_write 4 resume (revoke_device 4 (tablet ∷ [])).1).1).0
        ≡ accepts 4)
update_undoes_revocation_example =
    update_undoes_revocation 90 5 resume false (tablet ∷ []) tablet refl refl refl refl
