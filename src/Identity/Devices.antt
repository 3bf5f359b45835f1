-- ===== src/Identity/Devices.antt =====
-- src/identity/devices: kiosks, from the pairing code to the revocation, and the resolution of their
-- tokens. `revokeDevice` comes after the write and its failure is only logged.
pub mod Resumption
use cafe_pos.Prelude.{
  ℕ, Bool, true, false, Option, none, some, List, ◌∷◌, ◌+◌, ◌-◌, ◌==◌, ◌&&◌, if◌then◌else◌, find?,
  update_where, option_eq, leb, ltb, any,
}
use cafe_pos.Schema.Enums.{DeviceStatus}
use cafe_pos.Schema.Rows.{Label}
use cafe_pos.Identity.Rows.{KioskDevice}

pub data DeviceError : Type 0 where
  device_not_found : Label → DeviceError
  device_not_paired pairing_code_expired pairing_code_invalid : DeviceError
  device_token_invalid device_revoked : DeviceError

pub data DeviceResult (A : Type 0) : Type 0 where
  accepts : A → DeviceResult A
  declines : DeviceError → DeviceResult A

abbrev pub is_pending_status : DeviceStatus → Bool
is_pending_status DeviceStatus.pending = true
is_pending_status DeviceStatus.active = false
is_pending_status DeviceStatus.paused = false
is_pending_status DeviceStatus.revoked = false

abbrev pub is_revoked_status : DeviceStatus → Bool
is_revoked_status DeviceStatus.pending = false
is_revoked_status DeviceStatus.active = false
is_revoked_status DeviceStatus.paused = false
is_revoked_status DeviceStatus.revoked = true

-- `ACTIVE` or `PAUSED`: a tablet that has completed its pairing.
abbrev pub is_paired_status : DeviceStatus → Bool
is_paired_status DeviceStatus.pending = false
is_paired_status DeviceStatus.active = true
is_paired_status DeviceStatus.paused = true
is_paired_status DeviceStatus.revoked = false

-- `create`: the id and the hash of the code are generated, `ttl` is PAIRING_CODE_TTL_SECONDS.
unfoldable pub create_device : Label → Label → Label → ℕ → ℕ → List KioskDevice → List KioskDevice
create_device id name code_hash ttl now devices =
    record {
      id = id;
      name = name;
      token_hash = none;
      pairing_code_hash = some code_hash;
      pairing_expires_at = some (now + ttl);
      status = DeviceStatus.pending;
      last_seen_at = none;
    }
    ∷ devices

-- `gt(pairingExpiresAt, now())`, which a null never passes.
abbrev pub is_after : ℕ → Option ℕ → Bool
is_after now none = false
is_after now (some at) = ltb now at

abbrev pub is_pairing : Label → ℕ → KioskDevice → Bool
is_pairing code_hash now d =
    option_eq d.pairing_code_hash (some code_hash)
    && (is_pending_status d.status && is_after now d.pairing_expires_at)

abbrev pub pair : Label → KioskDevice → KioskDevice
pair token_hash d = record d {
  status = DeviceStatus.active;
  token_hash = some token_hash;
  pairing_code_hash = none;
  pairing_expires_at = none;
}

-- `explainFailedPairing`.
abbrev pub is_at_or_before : ℕ → Option ℕ → Bool
is_at_or_before now none = false
is_at_or_before now (some at) = leb at now

abbrev pub explain_pairing : ℕ → Option KioskDevice → DeviceError
explain_pairing now none = pairing_code_invalid
explain_pairing now (some d) =
    if is_pending_status d.status && is_at_or_before now d.pairing_expires_at
    then pairing_code_expired
    else pairing_code_invalid

abbrev pub pairing_outcome :
    Label → ℕ → List KioskDevice → Option KioskDevice → DeviceResult (Label × Label)
pairing_outcome code_hash now devices (some d) = accepts (d.id, d.name)
pairing_outcome code_hash now devices none =
    declines
      (explain_pairing now (find? (λ d. option_eq d.pairing_code_hash (some code_hash)) devices))

-- `activate`: the guarded UPDATE, and the reason if it met no row.
unfoldable pub activate :
    Label → Label → ℕ → List KioskDevice → DeviceResult (Label × Label) × List KioskDevice
activate code_hash token_hash now devices = (
  pairing_outcome code_hash now devices (find? (is_pairing code_hash now) devices),
  update_where (is_pairing code_hash now) (pair token_hash) devices,
)

abbrev pub find_device : Label → List KioskDevice → Option KioskDevice
find_device id devices = find? (λ d. d.id == id) devices

-- What an update sets: a name, or one of the statuses `ACTIVE` and `PAUSED`.
pub record UpdateDeviceInput : Type 0 where
  pub name : Option Label
  pub pauses : Option Bool

-- `update`, its read. The write after it is a statement of its own.
abbrev pub status_refusal : Label → Option KioskDevice → Option DeviceError
status_refusal id none = some (device_not_found id)
status_refusal id (some d) = if is_paired_status d.status then none else some device_not_paired

abbrev pub update_refusal : Label → UpdateDeviceInput → List KioskDevice → Option DeviceError
update_refusal id changes devices = refusal changes.pauses
  where
    refusal : Option Bool → Option DeviceError
    refusal none = none
    refusal (some pauses) = status_refusal id (find_device id devices)

abbrev pub renamed : Option Label → KioskDevice → KioskDevice
renamed none d = d
renamed (some name) d = record d { name = name }

abbrev pub with_status : Option Bool → KioskDevice → KioskDevice
with_status none d = d
with_status (some true) d = record d { status = DeviceStatus.paused }
with_status (some false) d = record d { status = DeviceStatus.active }

-- `update`, its write: `WHERE id = ...` alone.
abbrev pub written : Label → Option KioskDevice → DeviceResult KioskDevice
written id none = declines (device_not_found id)
written id (some d) = accepts d

unfoldable pub update_write :
    Label → UpdateDeviceInput → List KioskDevice → DeviceResult KioskDevice × List KioskDevice
update_write id changes devices =
    let devices' =
      update_where (λ d. d.id == id) (λ d. with_status changes.pauses (renamed changes.name d))
        devices in
    (written id (find_device id devices'), devices')

-- `revoke`.
unfoldable pub revoke_device : Label → List KioskDevice → DeviceResult Label × List KioskDevice
revoke_device id devices = (
  revoked_outcome (find_device id devices),
  update_where (λ d. d.id == id) (λ d. record d { status = DeviceStatus.revoked }) devices,
)
  where
    revoked_outcome : Option KioskDevice → DeviceResult Label
    revoked_outcome none = declines (device_not_found id)
    revoked_outcome (some d) = accepts d.id

abbrev pub last_seen_refresh_ms : ℕ
last_seen_refresh_ms = 60000

-- `touchLastSeen`.
abbrev pub is_fresh : ℕ → Option ℕ → Bool
is_fresh now none = false
is_fresh now (some seen) = ltb (now - seen) last_seen_refresh_ms

abbrev pub touch_last_seen : KioskDevice → ℕ → List KioskDevice → List KioskDevice
touch_last_seen d now devices =
    if is_fresh now d.last_seen_at
    then devices
    else update_where (λ e. e.id == d.id) (λ e. record e { last_seen_at = some now }) devices

-- `resolve`: the device behind a token.
abbrev pub resolution :
    ℕ → List KioskDevice → Option KioskDevice → DeviceResult Label × List KioskDevice
resolution now devices none = (declines device_token_invalid, devices)
resolution now devices (some d) =
    if is_revoked_status d.status
    then (declines device_revoked, devices)
    else (accepts d.id, touch_last_seen d now devices)

unfoldable pub resolve_token : Label → ℕ → List KioskDevice → DeviceResult Label × List KioskDevice
resolve_token token_hash now devices =
    resolution now devices (find? (λ d. option_eq d.token_hash (some token_hash)) devices)

-- `markSeen`.
unfoldable pub mark_seen : List Label → ℕ → List KioskDevice → List KioskDevice
mark_seen ids now devices =
    update_where (λ d. any (λ i. i == d.id) ids) (λ d. record d { last_seen_at = some now }) devices
