-- ===== src/Identity/Users.antt =====
-- src/identity/users/users.service.ts: staff accounts. `revokePrivileges` comes after the commit and
-- its failure is only logged.
pub mod Admins
use cafe_pos.Prelude.{
  ℕ, Bool, true, false, Option, none, some, List, [], ◌∷◌, ◌+◌, ◌==◌, ◌&&◌, if◌then◌else◌, find?,
  update_where, count_if, any, not, is_some, ◌≡◌, ◌≤◌, refl, arith, Bool-cases, inl, inr, ◌||◌,
}
use cafe_pos.Schema.Enums.{UserRole}
use cafe_pos.Schema.Rows.{Label}
use cafe_pos.Identity.Rows.{User}

pub data UsersError : Type 0 where
  user_email_exists : Label → UsersError
  user_not_found : Label → UsersError
  last_admin : UsersError

pub data Updated (A : Type 0) : Type 0 where
  updated : A → List User → Updated A
  rejected : UsersError → Updated A

-- What a request to update sets; `none` is a field that is left out.
pub record UpdateUserInput : Type 0 where
  pub display_name : Option Label
  pub role : Option UserRole
  pub is_active : Option Bool

abbrev pub or_else : {A : Type 0} → Option A → A → A
or_else none d = d
or_else (some a) d = a

abbrev pub is_admin : UserRole → Bool
is_admin UserRole.admin = true
is_admin UserRole.manager = false
is_admin UserRole.cashier = false
is_admin UserRole.barista = false

abbrev pub is_active_admin : User → Bool
is_active_admin u = is_admin u.role && u.is_active

-- `.set(changes)`.
abbrev pub changed : UpdateUserInput → User → User
changed changes u = record u {
  display_name = or_else changes.display_name u.display_name;
  role = or_else changes.role u.role;
  is_active = or_else changes.is_active u.is_active;
}

-- `create`. The unique indexes on the id and on the address decide; a violation of either is
-- reported as the address being taken.
unfoldable pub create_user : Label → Label → Label → Label → UserRole → List User → Updated Label
create_user id email password_hash display_name role users =
    if any (λ u. u.email == email) users || any (λ u. u.id == id) users
    then rejected (user_email_exists email)
    else updated id (
        record {
          id = id;
          email = email;
          password_hash = password_hash;
          display_name = display_name;
          role = role;
          is_active = true;
        }
        ∷ users)

-- The administrators that cover for `id`.
abbrev pub other_admins : Label → List User → ℕ
other_admins id users = count_if (λ u. is_active_admin u && not (u.id == id)) users

-- `guardLastAdmin`: whether the change is refused.
unfoldable pub takes_last_admin : Label → User → UpdateUserInput → List User → Bool
takes_last_admin id current changes users =
    is_active_admin current
    && (not (is_active_admin (changed changes current)) && (other_admins id users == 0))

abbrev pub write_user : Label → UpdateUserInput → List User → List User
write_user id changes users = update_where (λ u. u.id == id) (changed changes) users

abbrev pub is_guarded : UpdateUserInput → Bool
is_guarded changes = is_some changes.role || is_some changes.is_active

unfoldable pub guarded_update : Label → UpdateUserInput → List User → Option User → Updated Label
unfolding takes_last_admin
guarded_update id changes users none = rejected (user_not_found id)
guarded_update id changes users (some current) =
    if takes_last_admin id current changes users
    then rejected last_admin
    else updated id (write_user id changes users)

unfoldable pub rename : Label → UpdateUserInput → List User → Option User → Updated Label
rename id changes users none = rejected (user_not_found id)
rename id changes users (some current) = updated id (write_user id changes users)

-- `update`. The transaction locks the active administrators, so guarded updates run one by one.
unfoldable pub update_user : Label → UpdateUserInput → List User → Updated Label
unfolding guarded_update rename
update_user id changes users =
    let current = find? (λ u. u.id == id) users in
    if is_guarded changes
    then guarded_update id changes users current
    else rename id changes users current

abbrev pub users_after : {A : Type 0} → List User → Updated A → List User
users_after users (updated a users') = users'
users_after users (rejected e) = users

abbrev pub active_admins : List User → ℕ
active_admins users = count_if is_active_admin users

-- Requests to create accounts and to update them, in the order their transactions commit.
pub data UsersRequest : Type 0 where
  creates : Label → Label → Label → Label → UserRole → UsersRequest
  updates : Label → UpdateUserInput → UsersRequest

abbrev pub serve_users : UsersRequest → List User → List User
serve_users (creates id email password_hash display_name role) users =
    users_after users (create_user id email password_hash display_name role users)
serve_users (updates id changes) users = users_after users (update_user id changes users)

abbrev pub users_history : List UsersRequest → List User → List User
users_history [] users = users
users_history (r ∷ rs) users = users_history rs (serve_users r users)
