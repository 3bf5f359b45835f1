-- ===== src/Identity/Rows.antt =====
-- src/database/schema/identity.ts: the rows of staff accounts, refresh tokens and kiosks.
use cafe_pos.Prelude.{ℕ, Bool, Option}
use cafe_pos.Schema.Enums.{UserRole, DeviceStatus}
use cafe_pos.Schema.Rows.{Label}

-- `email` is `citext`: equal emails up to case are one label.
pub record User : Type 0 where
  pub id : Label
  pub email : Label
  pub password_hash : Label
  pub display_name : Label
  pub role : UserRole
  pub is_active : Bool

pub record RefreshToken : Type 0 where
  pub user_id : Label
  pub token_hash : Label
  pub family_id : Label
  pub expires_at : ℕ
  pub revoked_at : Option ℕ

pub record KioskDevice : Type 0 where
  pub id : Label
  pub name : Label
  pub token_hash : Option Label
  pub pairing_code_hash : Option Label
  pub pairing_expires_at : Option ℕ
  pub status : DeviceStatus
  pub last_seen_at : Option ℕ
