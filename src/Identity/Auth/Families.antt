-- ===== src/Identity/Auth/Families.antt =====
-- Who holds a family of refresh tokens: its live rows and the requests that may still insert one.
use cafe_pos.Prelude.{
  ℕ, Bool, false, some, List, [], ◌∷◌, ◌+◌, ◌==◌, ◌&&◌, arith, ◌≤◌, ◌≡◌, refl, count_if, find?,
  if◌then◌else◌,
}
use cafe_pos.Schema.Rows.{Label}
use cafe_pos.Identity.Rows.{RefreshToken}
use cafe_pos.Identity.Auth.{
  Flight, judging, issuing, replaying, revoking, leaving, is_unrevoked, retire, revoke_family,
  is_presented,
}
use cafe_pos.Identity.Auth.Sessions.{Sessions}

abbrev pub is_live_in : Label → RefreshToken → Bool
unfolding is_unrevoked
is_live_in family t = t.family_id == family && is_unrevoked t

abbrev pub is_minting : Label → Flight → Bool
is_minting family (judging row) = row.family_id == family
is_minting family (issuing user_id g) = g == family
is_minting family (replaying hash) = false
is_minting family (revoking g answer) = false
is_minting family (leaving user_id hash) = false

abbrev pub one_if : Bool → ℕ
one_if b = if b then 1 else 0

unfoldable pub live_in : Label → List RefreshToken → ℕ
unfolding is_unrevoked
live_in family ts = count_if (is_live_in family) ts

unfoldable pub minting_in : Label → List Flight → ℕ
minting_in family fs = count_if (is_minting family) fs

abbrev pub holders : Label → Sessions → ℕ
holders family s = live_in family s.db.tokens + minting_in family s.flights

pub retire_le :
    (family hash : Label) (now : ℕ) (ts : List RefreshToken)
    → live_in family (retire hash now ts) ≤ live_in family ts
unfolding live_in retire is_presented is_unrevoked
retire_le family hash now [] = omega arith
retire_le family hash now (t ∷ ts) = ground (arith, retire_le family hash now ts)

pub retire-takes :
    (family hash : Label) (now : ℕ) (ts : List RefreshToken) (row : RefreshToken)
    → find? (is_presented hash) ts ≡ some row
    → live_in family (retire hash now ts) + one_if (row.family_id == family) ≤ live_in family ts
unfolding live_in retire is_presented is_unrevoked
retire-takes family hash now [] row h = cc
retire-takes family hash now (t ∷ ts) row h =
    ground (arith, retire-takes family hash now ts row, retire_le family hash now ts)

pub revoke_family_le :
    (family g : Label) (now : ℕ) (ts : List RefreshToken)
    → live_in family (revoke_family g now ts) ≤ live_in family ts
unfolding live_in revoke_family is_unrevoked
revoke_family_le family g now [] = omega arith
revoke_family_le family g now (t ∷ ts) = ground (arith, revoke_family_le family g now ts)

pub revoke_family-live_in :
    (family : Label) (now : ℕ) (ts : List RefreshToken)
    → live_in family (revoke_family family now ts) ≡ 0
unfolding live_in revoke_family is_unrevoked
revoke_family-live_in family now [] = refl
revoke_family-live_in family now (t ∷ ts) = ground (arith, revoke_family-live_in family now ts)
