-- ===== src/Identity/Users/Admins.antt =====
-- The last active administrator, under any updates of accounts.
use cafe_pos.Schema.Enums.{UserRole}
use cafe_pos.Identity.Rows.{User}
use cafe_pos.Schema.Rows.{Label}
use cafe_pos.Identity.Users.{
  other_admins, UpdateUserInput, active_admins, write_user, is_active_admin, changed, is_guarded,
  guarded_update, takes_last_admin, users_after, update_user, create_user, UsersRequest, rename,
  users_history, creates, updates,
}
use cafe_pos.Prelude.{
  [], ◌∷◌, true, false, some, none, List, any, ◌≤◌, find?, ◌==◌, ◌≡◌, arith, Bool-cases, inl, inr,
  ==_iff, refl, ap, sym, Option, ◌∙◌,
}

abbrev pub HaveUniqueIds : List User → Type 0
HaveUniqueIds [] = Unit
HaveUniqueIds (u ∷ us) = (any (λ v. v.id == u.id) us ≡ false) × HaveUniqueIds us

cover-stays :
    (id : Label) (changes : UpdateUserInput) (users : List User)
    → other_admins id users ≤ active_admins (write_user id changes users)
cover-stays id changes [] = omega arith
cover-stays id changes (u ∷ us) = ground (arith, cover-stays id changes us)

changed-counts :
    (id : Label) (changes : UpdateUserInput) (users : List User) (current : User)
    → find? (λ u. u.id == id) users ≡ some current
    → is_active_admin (changed changes current) ≡ true
    → 1 ≤ active_admins (write_user id changes users)
changed-counts id changes [] current h k = cc
changed-counts id changes (u ∷ us) current h k =
    ground (arith, changed-counts id changes us current)

absent-covers :
    (id : Label) (users : List User)
    → any (λ v. v.id == id) users ≡ false
    → active_admins users ≤ other_admins id users
absent-covers id [] h = omega arith
absent-covers id (u ∷ us) h = ground (arith, absent-covers id us)

others-cover :
    (id : Label) (users : List User) (current : User)
    → HaveUniqueIds users
    → find? (λ u. u.id == id) users ≡ some current
    → is_active_admin current ≡ false
    → active_admins users ≤ other_admins id users
others-cover id [] current h k idle = cc
others-cover id (u ∷ us) current (new, h) k idle = elim (Bool-cases (u.id == id)) [
  | inl e ↦
      let same = (==_iff u.id id).0 e in
      let none_left = ap (λ k. any (λ v. v.id == k) us) (sym same) ∙ new in
      ground (arith, absent-covers id us none_left)
  | inr e ↦ ground (arith, others-cover id us current h)
]

rename-counts :
    (id : Label) (changes : UpdateUserInput) (users : List User)
    → is_guarded changes ≡ false
    → active_admins (write_user id changes users) ≡ active_admins users
rename-counts id changes [] h = refl
rename-counts id changes (u ∷ us) h = ground (arith, rename-counts id changes us h)

guarded-keeps_admin :
    (id : Label) (changes : UpdateUserInput) (users : List User) (o : Option User)
    → HaveUniqueIds users
    → find? (λ u. u.id == id) users ≡ o
    → 1 ≤ active_admins users
    → 1 ≤ active_admins (users_after users (guarded_update id changes users o))
unfolding guarded_update takes_last_admin
guarded-keeps_admin id changes users none unique found h = h
guarded-keeps_admin id changes users (some current) unique found h =
    elim (Bool-cases (is_active_admin current)) [
      | inr idle ↦ rw idle (
          omega
            (arith, others-cover id users current unique found idle, cover-stays id changes users))
      | inl was ↦ elim (Bool-cases (is_active_admin (changed changes current))) [
        | inl stays ↦ rw was (rw stays (changed-counts id changes users current found stays))
        | inr leaves ↦ rw was (rw leaves (ground (arith, cover-stays id changes users)))
      ]
    ]

write-any :
    (id k : Label) (changes : UpdateUserInput) (users : List User)
    → any (λ v. v.id == k) (write_user id changes users) ≡ any (λ v. v.id == k) users
write-any id k changes [] = refl
write-any id k changes (u ∷ us) = ground (arith, write-any id k changes us)

write-HaveUniqueIds :
    (id : Label) (changes : UpdateUserInput) (users : List User)
    → HaveUniqueIds users
    → HaveUniqueIds (write_user id changes users)
write-HaveUniqueIds id changes [] h = h
write-HaveUniqueIds id changes (u ∷ us) (new, h) = elim (Bool-cases (u.id == id)) [
  | inl e ↦ rw e (write-any id u.id changes us ∙ new, write-HaveUniqueIds id changes us h)
  | inr e ↦ rw e (write-any id u.id changes us ∙ new, write-HaveUniqueIds id changes us h)
]

guarded-HaveUniqueIds :
    (id : Label) (changes : UpdateUserInput) (users : List User) (o : Option User)
    → HaveUniqueIds users
    → HaveUniqueIds (users_after users (guarded_update id changes users o))
unfolding guarded_update
guarded-HaveUniqueIds id changes users none unique = unique
guarded-HaveUniqueIds id changes users (some current) unique =
    elim (Bool-cases (takes_last_admin id current changes users)) [
      | inl e ↦ rw e unique
      | inr e ↦ rw e (write-HaveUniqueIds id changes users unique)
    ]

-- What a history keeps.
abbrev IsCovered : List User → Type 0
IsCovered users = HaveUniqueIds users × (1 ≤ active_admins users)

update_user-IsCovered :
    (id : Label) (changes : UpdateUserInput) (users : List User)
    → IsCovered users
    → IsCovered (users_after users (update_user id changes users))
unfolding update_user guarded_update rename
update_user-IsCovered id changes users (unique, covered) = elim (Bool-cases (is_guarded changes)) [
  | inl guarded ↦ rw guarded (
    guarded-HaveUniqueIds id changes users (find? (λ u. u.id == id) users) unique,
    guarded-keeps_admin id changes users (find? (λ u. u.id == id) users) unique refl covered,
  )
  | inr free ↦ rw free (rename-IsCovered (find? (λ u. u.id == id) users) free)
]
  where
    rename-IsCovered :
        (o : Option User)
        → is_guarded changes ≡ false
        → IsCovered (users_after users (rename id changes users o))
    rename-IsCovered none free = (unique, covered)
    rename-IsCovered (some current) free = (
      write-HaveUniqueIds id changes users unique,
      omega (arith, rename-counts id changes users free),
    )

create_user-IsCovered :
    (id email password_hash display_name : Label) (role : UserRole) (users : List User)
    → IsCovered users
    → IsCovered (users_after users (create_user id email password_hash display_name role users))
unfolding create_user
create_user-IsCovered id email password_hash display_name role users (unique, covered) =
    elim (Bool-cases (any (λ u. u.email == email) users)) [
      | inl e ↦ rw e (unique, covered)
      | inr e ↦ elim (Bool-cases (any (λ u. u.id == id) users)) [
        | inl f ↦ rw (e, f) (unique, covered)
        | inr f ↦ rw (e, f) ((f, unique), ground arith)
      ]
    ]

users_history-IsCovered :
    (rs : List UsersRequest) (users : List User)
    → IsCovered users
    → IsCovered (users_history rs users)
users_history-IsCovered [] users h = h
users_history-IsCovered (creates id email password_hash display_name role ∷ rs) users h =
    users_history-IsCovered rs _
      (create_user-IsCovered id email password_hash display_name role users h)
users_history-IsCovered (updates id changes ∷ rs) users h =
    users_history-IsCovered rs _ (update_user-IsCovered id changes users h)

-- Where ids are unique and some administrator is active, this stays so after any history of requests
-- to create and to update accounts, renames, demotions and deactivations among them.
pub always_an_admin :
    (rs : List UsersRequest) (users : List User)
    → HaveUniqueIds users
    → 1 ≤ active_admins users
    → 1 ≤ active_admins (users_history rs users)
always_an_admin rs users unique covered = (users_history-IsCovered rs users (unique, covered)).1
