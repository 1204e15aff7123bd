-- ===== src/Api/Profiles.antt =====
-- internal/api/handlers_profile.go
pub mod Versions
use openchat_backend.Profile
use openchat_backend.Api.Types.{
  Requester, Server, Served, Response, answer, write_error, write_json, profile, profiles, asset,
  content, profile_updated, Notice,
}
use openchat_backend.Api.Requester.{requester_from_context}
use openchat_backend.Profile.Types.{UpdateInput, CanonicalProfile}
use openchat_backend.Strings.{trim_space, trim_prefix, trim_byte}
use openchat_backend.Strconv.{atoi}
use openchat_backend.Platform.{Platform}
use openchat_backend.Base.{
  ℕ, suc, ◌+◌, true, false, ◌||◌, Option, none, some, List, ltb, if◌then◌else◌, is_nil, length,
  take, Str, str, ℤ, pos, leb_ℤ, Result, ok, err,
}

abbrev pub max_profile_batch_size : ℕ
max_profile_batch_size = 100

unfoldable pub get_my_profile : Platform → (now : ℤ) → Option Requester → Server → Served
get_my_profile p now context s =
    let (state, found) =
      Profile.Operations.get_or_create p s.profiles (requester_from_context context).user_uid now in
    record {
      state = record s { profiles = state };
      response = write_json 200 (profile found);
      notice = none;
    }

-- The version that an If-Match header names: none, a positive one, or an error.
unfoldable pub parse_if_match_version : Str → Result (Unit {0}) (Option ℤ)
parse_if_match_version header =
    let raw = trim_space header in
    let bare = trim_space (trim_byte b'"' (trim_prefix raw (str "W/"))) in
    if is_nil raw || is_nil bare then ok none else elim (atoi bare) [
      | none ↦ err tt
      | some version ↦ if leb_ℤ version (pos 0) then err tt else ok (some version)
    ]

unfoldable pub update_refused : Profile.Types.Error → Response
update_refused Profile.Types.display_name_invalid =
    write_error 400 (str "display_name_invalid") false
update_refused Profile.Types.avatar_mode_unsupported =
    write_error 400 (str "avatar_mode_unsupported") false
update_refused Profile.Types.avatar_preset_invalid =
    write_error 400 (str "avatar_mode_unsupported") false
update_refused Profile.Types.avatar_asset_not_found =
    write_error 400 (str "avatar_asset_not_found") false
update_refused Profile.Types.profile_conflict = write_error 409 (str "profile_conflict") true
update_refused e = write_error 500 (str "profile_update_failed") true

abbrev pub profile_notice : Option (Profile.Types.Broadcaster × CanonicalProfile) → Option Notice
profile_notice none = none
profile_notice (some (b, saved)) = some (profile_updated saved)

-- What updateMyProfile answers to what Update leaves.
abbrev pub updated : Server → Profile.Operations.Outcome → Served
updated s outcome = record {
  state = record s { profiles = outcome.state };
  response = elim outcome.result [
    | err e ↦ update_refused e
    | ok saved ↦ write_json 200 (profile saved)
  ];
  notice = profile_notice outcome.broadcast;
}

-- `decoded` is the body as JSON, with the mode as it was sent, or an error.
unfoldable pub update_my_profile :
    Platform
    → (decoded : Option UpdateInput) → (if_match : Str) → (now : ℤ) → Option Requester
    → Server
    → Served
update_my_profile p decoded if_match now context s = elim decoded [
  | none ↦ answer s (write_error 400 (str "invalid_payload") false)
  | some input ↦ elim (parse_if_match_version if_match) [
    | err e ↦ answer s (write_error 400 (str "invalid_if_match") false)
    | ok expected_version ↦ updated s (
        Profile.Operations.update p s.profiles (requester_from_context context).user_uid
          (record input { avatar_mode = trim_space input.avatar_mode }) expected_version now)
  ]
]

-- The form of an upload: ParseMultipartForm within so many bytes fails, or the field `file` is missing,
-- or cannot be read, or is there with its content type.
pub data AvatarForm : Type 0 where
  too_many_bytes no_file unreadable_file : AvatarForm
  file : (content_type bytes : Str) → AvatarForm

unfoldable pub upload_refused : Profile.Types.Error → Response
upload_refused Profile.Types.avatar_too_large = write_error 413 (str "avatar_too_large") false
upload_refused Profile.Types.avatar_type_unsupported =
    write_error 415 (str "avatar_type_unsupported") false
upload_refused Profile.Types.avatar_dimensions =
    write_error 400 (str "avatar_dimensions_exceeded") false
upload_refused e = write_error 500 (str "avatar_upload_failed") true

-- What uploadProfileAvatar answers to what UploadAvatar leaves.
abbrev pub uploaded :
    Server → Profile.Types.Service × Result Profile.Types.Error Profile.Types.AvatarAsset → Served
uploaded s (state, result) = record {
  state = record s { profiles = state };
  response = elim result [ err e ↦ upload_refused e | ok stored ↦ write_json 201 (asset stored) ];
  notice = none;
}

-- The part of uploadProfileAvatar after the form is parsed.
unfoldable pub upload_file : Platform → (uuid : Str) → Server → ℕ → AvatarForm → Served
upload_file p uuid s max_bytes too_many_bytes =
    answer s (write_error 413 (str "avatar_too_large") false)
upload_file p uuid s max_bytes no_file = answer s (write_error 400 (str "invalid_payload") false)
upload_file p uuid s max_bytes unreadable_file =
    answer s (write_error 400 (str "invalid_payload") false)
upload_file p uuid s max_bytes (file content_type bytes) =
    let data_read = take (suc max_bytes) bytes in
    if ltb max_bytes (length data_read)
    then answer s (write_error 413 (str "avatar_too_large") false)
    else uploaded s
        (Profile.Operations.upload_avatar p s.profiles (trim_space content_type) data_read uuid)

unfoldable pub upload_profile_avatar :
    Platform → (parse_form : ℕ → AvatarForm) → (uuid : Str) → Server → Served
upload_profile_avatar p parse_form uuid s =
    let max_bytes = (Profile.Operations.avatar_upload_rules s.profiles).0 in
    upload_file p uuid s max_bytes (parse_form (max_bytes + 1024))

unfoldable pub get_profile_avatar : Server → Str → Response
get_profile_avatar s raw_asset =
    elim (Profile.Operations.avatar_content s.profiles (trim_space raw_asset)) [
      | err e ↦ write_error 404 (str "avatar_asset_not_found") false
      | ok (found, bytes) ↦ write_json 200 (content found.content_type bytes)
    ]

unfoldable pub batch_profiles : Platform → List Str → (clock : ℕ → ℤ) → Server → Served
batch_profiles p user_uids clock s =
    let (state, found) = Profile.Operations.batch_get p s.profiles user_uids clock in
    if is_nil user_uids
    then answer s (write_error 400 (str "invalid_query") false)
    else if ltb max_profile_batch_size (length user_uids)
    then answer s (write_error 400 (str "invalid_query") false)
    else record {
      state = record s { profiles = state };
      response = write_json 200 (profiles found);
      notice = none;
    }
