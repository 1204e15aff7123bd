-- ===== src/Rtc/Types.antt =====
-- internal/rtc/types.go, without the envelope.
use openchat_backend.Base.{Bool, Str, ℤ}

pub record Permissions : Type 0 where
  pub speak : Bool
  pub video : Bool
  pub screenshare : Bool

pub record TicketClaims : Type 0 where
  pub server_id : Str
  pub channel_id : Str
  pub user_uid : Str
  pub device_id : Str
  pub permissions : Permissions
  pub expires_at : ℤ
  pub issued_at : ℤ
  pub jti : Str

pub record Participant : Type 0 where
  pub participant_id : Str
  pub channel_id : Str
  pub user_uid : Str
  pub device_id : Str
  pub permissions : Permissions
  pub joined_at : ℤ
