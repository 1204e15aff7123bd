-- ===== src/Profile/Types.antt =====
-- The types of internal/profile/service.go.
use openchat_backend.Base.{ℕ, List, Option, Str, str, ℤ}
use openchat_backend.Base.Map.{Map}

abbrev pub AvatarMode : Type 0
AvatarMode = Str

abbrev pub avatar_mode_generated : AvatarMode
avatar_mode_generated = str "generated"

abbrev pub avatar_mode_uploaded : AvatarMode
avatar_mode_uploaded = str "uploaded"

pub data Error : Type 0 where
  display_name_invalid avatar_mode_unsupported avatar_preset_invalid : Error
  avatar_asset_not_found avatar_type_unsupported avatar_too_large : Error
  avatar_dimensions profile_conflict : Error

pub record CanonicalProfile : Type 0 where
  pub user_uid : Str
  pub display_name : Str
  pub avatar_mode : AvatarMode
  pub avatar_preset_id : Option Str
  pub avatar_asset_id : Option Str
  pub avatar_url : Option Str
  pub profile_version : ℤ
  pub updated_at : Str

pub record AvatarAsset : Type 0 where
  pub avatar_asset_id : Str
  pub avatar_url : Str
  pub width : ℤ
  pub height : ℤ
  pub content_type : Str
  pub bytes : ℕ

pub record UpdateInput : Type 0 where
  pub display_name : Str
  pub avatar_mode : AvatarMode
  pub avatar_preset : Str
  pub avatar_asset_id : Str

pub record AvatarBlob : Type 0 where
  pub metadata : AvatarAsset
  pub content : Str

-- The one implementation of Broadcaster is the realtime hub.
pub data Broadcaster : Type 0 where
  realtime_hub : Broadcaster

pub record Service : Type 0 where
  pub public_base_url : Str
  pub server_id : Str
  pub display_name_min : ℕ
  pub display_name_max : ℕ
  pub max_upload_bytes : ℕ
  pub max_image_width : ℤ
  pub max_image_height : ℤ
  pub allowed_avatar_presets : List Str
  pub allowed_mime_types : List Str
  pub profiles_by_uid : Map CanonicalProfile
  pub avatars_by_id : Map AvatarBlob
  pub broadcaster : Option Broadcaster
