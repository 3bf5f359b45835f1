-- ===== src/Identity/Principal.antt =====
-- src/identity/principal.ts: a signed-in member of staff or a kiosk tablet.
use cafe_pos.Prelude.{Bool, true, false, Option, none, some}
use cafe_pos.Schema.Enums.{UserRole}
use cafe_pos.Schema.Rows.{Label}

pub data Principal : Type 0 where
  -- the user, the role, the token's id
  staff : Label → UserRole → Label → Principal
  device : Label → Principal

abbrev pub is_device : Principal → Bool
is_device (device _) = true
is_device (staff _ _ _) = false

-- `principal.type === 'device' ? principal.deviceId : null`.
abbrev pub device_id_of : Principal → Option Label
device_id_of (device d) = some d
device_id_of (staff _ _ _) = none

abbrev pub user_id_of : Principal → Option Label
user_id_of (device _) = none
user_id_of (staff u _ _) = some u
