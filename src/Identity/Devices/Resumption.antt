-- ===== src/Identity/Devices/Resumption.antt =====
-- A revocation between the two statements of an update.
use cafe_pos.Schema.Enums.{DeviceStatus}
use cafe_pos.Identity.Rows.{KioskDevice}
use cafe_pos.Identity.Devices.{
  revoke_device, UpdateDeviceInput, is_revoked_status, with_status, renamed, resolve_token,
  update_write, accepts, find_device, is_paired_status, update_refusal, declines, device_revoked,
}
use cafe_pos.Schema.Rows.{Label}
use cafe_pos.Prelude.{
  true, false, some, none, Bool, List, Option, option_eq, find?, ◌≡◌, refl, ℕ, if◌then◌else◌, ◌==◌,
  find?-update_where, arith, ap, ◌∙◌,
}

abbrev at_token : Label → KioskDevice → Bool
at_token token_hash d = option_eq d.token_hash (some token_hash)

rewritten : UpdateDeviceInput → KioskDevice → KioskDevice
rewritten changes d = with_status changes.pauses (renamed changes.name d)

write-token_hash :
    (pauses : Option Bool) (name : Option Label) (d : KioskDevice)
    → (with_status pauses (renamed name d)).token_hash ≡ d.token_hash
write-token_hash none none d = refl
write-token_hash none (some n) d = refl
write-token_hash (some true) none d = refl
write-token_hash (some true) (some n) d = refl
write-token_hash (some false) none d = refl
write-token_hash (some false) (some n) d = refl

write-id :
    (pauses : Option Bool) (name : Option Label) (d : KioskDevice)
    → (with_status pauses (renamed name d)).id ≡ d.id
write-id none none d = refl
write-id none (some n) d = refl
write-id (some true) none d = refl
write-id (some true) (some n) d = refl
write-id (some false) none d = refl
write-id (some false) (some n) d = refl

with_status-resumed :
    (pauses : Bool) (name : Option Label) (d : KioskDevice)
    → is_revoked_status (with_status (some pauses) (renamed name d)).status ≡ false
with_status-resumed true name d = refl
with_status-resumed false name d = refl

resolve-live :
    (token_hash now : ℕ) (devices : List KioskDevice) (d : KioskDevice)
    → find? (at_token token_hash) devices ≡ some d
    → is_revoked_status d.status ≡ false
    → (resolve_token token_hash now devices).0 ≡ accepts d.id
unfolding resolve_token
resolve-live token_hash now devices d h live = rw h (rw live refl)

find-written :
    (token_hash id : Label) (changes : UpdateDeviceInput) (devices : List KioskDevice)
    (d : KioskDevice)
    → find? (at_token token_hash) devices ≡ some d
    → find? (at_token token_hash) (update_write id changes devices).1
      ≡ some (if d.id == id then rewritten changes d else d)
unfolding update_write rewritten
find-written token_hash id changes devices d held =
    find?-update_where (at_token token_hash) (λ e. e.id == id) (rewritten changes) devices d
      (λ e.
        ap (λ t. option_eq t (some token_hash)) (write-token_hash changes.pauses changes.name e))
      held

find-revoked :
    (token_hash id : Label) (devices : List KioskDevice) (d : KioskDevice)
    → find? (at_token token_hash) devices ≡ some d
    → find? (at_token token_hash) (revoke_device id devices).1
      ≡ some (if d.id == id then (record d { status = DeviceStatus.revoked }) else d)
unfolding revoke_device
find-revoked token_hash id devices d held =
    find?-update_where (at_token token_hash) (λ e. e.id == id)
      (λ e. record e { status = DeviceStatus.revoked }) devices d (λ e. refl) held

-- If the read of an update that pauses a device or resumes it comes before a revocation of that
-- device and its write after it, the read lets it pass, the revocation shuts the device's token out,
-- and the write lets the token in again.
pub update_undoes_revocation :
    (token_hash now : ℕ) (changes : UpdateDeviceInput) (pauses : Bool) (devices : List KioskDevice)
    (d : KioskDevice)
    → changes.pauses ≡ some pauses
    → find? (at_token token_hash) devices ≡ some d
    → find_device d.id devices ≡ some d
    → is_paired_status d.status ≡ true
    → let (_, gone) = revoke_device d.id devices in
      (update_refusal d.id changes devices ≡ none)
      × ((resolve_token token_hash now gone).0 ≡ declines device_revoked)
      × ((resolve_token token_hash now (update_write d.id changes gone).1).0 ≡ accepts d.id)
unfolding resolve_token rewritten
update_undoes_revocation token_hash now changes pauses devices d sets held found paired =
    let revoked : KioskDevice = record d { status = DeviceStatus.revoked } in
    let gone = (revoke_device d.id devices).1 in
    let shut : find? (at_token token_hash) gone ≡ some revoked =
      find-revoked token_hash d.id devices d held ∙ ground arith in
    let back : find? (at_token token_hash) (update_write d.id changes gone).1
        ≡ some (rewritten changes revoked) =
      find-written token_hash d.id changes gone revoked shut ∙ ground arith in
    let live : is_revoked_status (rewritten changes revoked).status ≡ false =
      rw sets (with_status-resumed pauses changes.name revoked) in
    (
      rw sets (rw found (rw paired refl)),
      rw shut refl,
      resolve-live token_hash now (update_write d.id changes gone).1 (rewritten changes revoked)
            back live
          ∙ ap accepts (write-id changes.pauses changes.name revoked),
    )
