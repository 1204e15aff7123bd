-- ===== src/Profile/Operations.antt =====
-- internal/profile/service.go: the operations of the service.
pub mod Updates
pub mod Results
pub mod Modes
pub mod Consistent
pub mod History
pub mod Batch
pub mod Avatars
pub mod Limits
pub mod Tests
use openchat_backend.Profile.Defaults.{
  default_display_name, normalize_uid, normalize_content_type, clone_profile, default_presets,
  str_ptr, default_preset_for_uid, validate_display_name,
}
use openchat_backend.Strings.{remove_byte, trim_suffix, sort_strings, trim_space, contains}
use openchat_backend.Platform.{Platform}
use openchat_backend.Profile.Types.{
  Service, avatar_mode_generated, Broadcaster, avatar_mode_uploaded, CanonicalProfile, AvatarAsset,
  Error, UpdateInput, avatar_asset_not_found, display_name_invalid, avatar_type_unsupported,
  avatar_preset_invalid, avatar_too_large, avatar_mode_unsupported, profile_conflict,
  avatar_dimensions,
}
use openchat_backend.Base.{
  ℕ, zero, suc, ◌+◌, ◌-◌, ◌*◌, ◌≤◌, ◌<◌, min, ◌≡◌, refl, sym, ap, ◌∙◌, subst, ◌≢◌, ◌↔◌, ◌⊎◌, inl,
  inr, Bool, true, false, not, ◌&&◌, ◌||◌, Option, none, some, List, [], ◌∷◌, ◌++◌, map, append-nil,
  append_assoc, arith, ltb, leb, eqb, if◌then◌else◌, Bool-cases, Option-cases, is_some, is_nil,
  length, take, drop, length-append, length-take, length-drop, take-append-drop, map_self, All,
  All-append, All-mono, Str, str, ◌==◌, ==_iff, ==_refl, ==_ne, ==_cases, ℤ, pos, negsuc, ◌+ℤ◌,
  ◌≤ℤ◌, ◌<ℤ◌, leb_ℤ, ltb_ℤ, eqb_ℤ, floor_div, int_suc, max_int, ◌%◌, ◌/◌, Result, ok, err,
  Result-cases,
}
use openchat_backend.Base.Map.{
  Map, lookup, insert, delete, get_or, lookup-insert, lookup-insert_self, lookup-insert_ne,
  lookup-delete,
}

unfoldable pub new_service : Str → Str → Service
new_service public_base_url server_id = record {
  public_base_url = trim_suffix b'/' (trim_space public_base_url);
  server_id = trim_space server_id;
  display_name_min = 2;
  display_name_max = 32;
  max_upload_bytes = 2 * 1024 * 1024;
  max_image_width = pos 1024;
  max_image_height = pos 1024;
  allowed_avatar_presets = default_presets;
  allowed_mime_types = str "image/png" ∷ str "image/jpeg" ∷ [];
  profiles_by_uid = [];
  avatars_by_id = [];
  broadcaster = none;
}

unfoldable pub set_broadcaster : Service → Option Broadcaster → Service
set_broadcaster s b = record s { broadcaster = b }

unfoldable pub display_name_rules : Service → ℕ × ℕ
display_name_rules s = (s.display_name_min, s.display_name_max)

unfoldable pub avatar_upload_rules : Service → ℕ × ℤ × ℤ × List Str
avatar_upload_rules s =
    (s.max_upload_bytes, s.max_image_width, s.max_image_height, sort_strings s.allowed_mime_types)

unfoldable pub allowed_avatar_modes : List Str
allowed_avatar_modes = avatar_mode_generated ∷ avatar_mode_uploaded ∷ []

unfoldable pub default_profile : Platform → Str → ℤ → CanonicalProfile
default_profile p user_uid now = record {
  user_uid = user_uid;
  display_name = default_display_name user_uid;
  avatar_mode = avatar_mode_generated;
  avatar_preset_id = str_ptr (default_preset_for_uid user_uid);
  avatar_asset_id = none;
  avatar_url = none;
  profile_version = pos 1;
  updated_at = p.rfc3339 now;
}

-- The state after a call, and the profile.
unfoldable pub get_or_create_locked : Platform → Service → Str → ℤ → Service × CanonicalProfile
get_or_create_locked p s user_uid now = elim (lookup user_uid s.profiles_by_uid) [
  | some profile ↦ (s, profile)
  | none ↦ (
    record s {
      profiles_by_uid = insert user_uid (default_profile p user_uid now) s.profiles_by_uid;
    },
    default_profile p user_uid now,
  )
]

unfoldable pub get_or_create : Platform → Service → Str → ℤ → Service × CanonicalProfile
get_or_create p s user_uid now =
    let (t, profile) = get_or_create_locked p s (normalize_uid user_uid) now in
    (t, clone_profile profile)

-- The loop of BatchGet from round `n` on; `clock n` is the time at round n.
unfoldable pub batch_from :
    Platform → Service → List Str → (ℕ → ℤ) → ℕ → List Str → Service × List CanonicalProfile
batch_from p s seen clock n [] = (s, [])
batch_from p s seen clock n (raw ∷ raws) =
    let user_uid = normalize_uid raw in
    let (t, profile) = get_or_create_locked p s user_uid (clock n) in
    let skip = batch_from p s seen clock (suc n) raws in
    let rest = batch_from p t (user_uid ∷ seen) clock (suc n) raws in
    if is_nil user_uid || contains seen user_uid
    then skip
    else (rest.0, clone_profile profile ∷ rest.1)

unfoldable pub batch_get : Platform → Service → List Str → (ℕ → ℤ) → Service × List CanonicalProfile
batch_get p s user_uids clock = batch_from p s [] clock 0 user_uids

unfoldable pub avatar_asset_url : Service → Str → Str
avatar_asset_url s asset_id =
    if is_nil s.public_base_url
    then str "/v1/profile/avatar/" ++ asset_id
    else s.public_base_url ++ (str "/v1/profile/avatar/" ++ asset_id)

abbrev pub asset_id_of : Str → Str
asset_id_of uuid = str "asset_" ++ remove_byte b'-' (take 8 uuid)

abbrev pub new_asset : Service → Str → Str → Str → ℤ → ℤ → AvatarAsset
new_asset s content_type content uuid width height = record {
  avatar_asset_id = asset_id_of uuid;
  avatar_url = avatar_asset_url s (asset_id_of uuid);
  width = width;
  height = height;
  content_type = content_type;
  bytes = length content;
}

-- Whether the dimensions of an image are refused.
abbrev pub out_of_bounds : Service → ℤ → ℤ → Bool
out_of_bounds s width height =
    (leb_ℤ width (pos 0) || leb_ℤ height (pos 0))
    || (ltb_ℤ s.max_image_width width || ltb_ℤ s.max_image_height height)

unfoldable pub upload_avatar :
    Platform → Service → Str → Str → Str → Service × Result Error AvatarAsset
upload_avatar p s content_type content uuid =
    let type = normalize_content_type p content_type content in
    if not (contains s.allowed_mime_types type)
    then (s, err avatar_type_unsupported)
    else if is_nil content || ltb s.max_upload_bytes (length content)
    then (s, err avatar_too_large)
    else elim (p.decode_config content) [
      | none ↦ (s, err avatar_type_unsupported)
      | some (width, height) ↦
          if out_of_bounds s width height then (s, err avatar_dimensions) else (
            record s {
              avatars_by_id =
                  insert (asset_id_of uuid)
                    (record {
                      metadata = new_asset s type content uuid width height;
                      content = content;
                    })
                    s.avatars_by_id;
            },
            ok (new_asset s type content uuid width height),
          )
    ]

unfoldable pub avatar_content : Service → Str → Result Error (AvatarAsset × Str)
avatar_content s asset_id =
    let trimmed = trim_space asset_id in
    if is_nil trimmed then err avatar_asset_not_found else elim (lookup trimmed s.avatars_by_id) [
      | none ↦ err avatar_asset_not_found
      | some blob ↦ ok (blob.metadata, blob.content)
    ]

-- The new avatar of a profile: the switch of Update.
unfoldable pub choose_avatar :
    Service → CanonicalProfile → UpdateInput → Result Error CanonicalProfile
choose_avatar s profile input =
    let preset = trim_space input.avatar_preset in
    let asset_id = trim_space input.avatar_asset_id in
    if input.avatar_mode == avatar_mode_generated
    then (if contains s.allowed_avatar_presets preset
        then ok (record profile {
          avatar_preset_id = str_ptr preset;
          avatar_asset_id = none;
          avatar_url = none;
        })
        else err avatar_preset_invalid)
    else if input.avatar_mode == avatar_mode_uploaded
    then elim (lookup asset_id s.avatars_by_id) [
      | none ↦ err avatar_asset_not_found
      | some blob ↦ ok (record profile {
        avatar_preset_id = none;
        avatar_asset_id = str_ptr asset_id;
        avatar_url = str_ptr blob.metadata.avatar_url;
      })
    ]
    else err avatar_mode_unsupported

-- What a call of Update leaves: the state, what it returns, and the profile that it hands to the
-- broadcaster after unlocking, if it does.
pub record Outcome : Type 0 where
  pub state : Service
  pub result : Result Error CanonicalProfile
  pub broadcast : Option (Broadcaster × CanonicalProfile)

abbrev pub failed : Service → Error → Outcome
failed s e = record { state = s; result = err e; broadcast = none }

abbrev pub to_broadcaster :
    Option Broadcaster → CanonicalProfile → Option (Broadcaster × CanonicalProfile)
to_broadcaster none profile = none
to_broadcaster (some b) profile = some (b, profile)

unfoldable pub save_profile : Service → Str → CanonicalProfile → Outcome
save_profile s user_uid profile = record {
  state = record s { profiles_by_uid = insert user_uid profile s.profiles_by_uid };
  result = ok (clone_profile profile);
  broadcast = to_broadcaster s.broadcaster (clone_profile profile);
}

-- `expectedVersion != nil && profile.ProfileVersion != *expectedVersion`
abbrev pub is_stale : Option ℤ → ℤ → Bool
is_stale none version = false
is_stale (some expected) version = not (eqb_ℤ version expected)

unfoldable pub update : Platform → Service → Str → UpdateInput → Option ℤ → ℤ → Outcome
update p s raw_uid input expected_version now =
    let user_uid = normalize_uid raw_uid in
    let display_name = trim_space input.display_name in
    let t = (get_or_create_locked p s user_uid now).0 in
    let profile = (get_or_create_locked p s user_uid now).1 in
    if is_nil user_uid
    then failed s display_name_invalid
    else if not (validate_display_name p s display_name)
    then failed s display_name_invalid
    else if is_stale expected_version profile.profile_version
    then failed t profile_conflict
    else elim (choose_avatar t
        (record profile { display_name = display_name; avatar_mode = input.avatar_mode }) input) [
          | err e ↦ failed t e
          | ok chosen ↦ save_profile t user_uid (record chosen {
            profile_version = int_suc chosen.profile_version;
            updated_at = p.rfc3339 now;
          })
        ]
