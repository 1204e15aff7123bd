-- ===== src/Profile/Operations/Tests.antt =====
-- Tests of internal/profile/service.go, and its theorems at a small service.
use openchat_backend.Profile.Operations.Results.{update_saved, update_refused, update_conflict}
use openchat_backend.Profile.Operations.Consistent.{IsConsistent}
use openchat_backend.Profile.Operations.History.{
  run-new_service-IsConsistent, new_service-IsConsistent, run, get, upload,
}
use openchat_backend.Profile.Operations.Batch.{batch_get-distinct, distinct}
use openchat_backend.Profile.Operations.Avatars.{avatar_content-upload_avatar}
use openchat_backend.Profile.Operations.Updates.{old_profile, SameButDefault}
use openchat_backend.Profile.Operations.{
  new_service, update, Outcome, is_stale, to_broadcaster, get_or_create, get_or_create_locked,
  default_profile, batch_get, upload_avatar, avatar_content, asset_id_of, out_of_bounds,
  choose_avatar, save_profile, avatar_asset_url, profile_conflict,
}
use openchat_backend.Profile.Defaults.{
  normalize_uid, clone_profile, validate_display_name, default_preset_for_uid, default_display_name,
  str_ptr, display_name_pattern, normalize_content_type,
}
use openchat_backend.Profile.Types.{CanonicalProfile, Service, UpdateInput, AvatarAsset}
use openchat_backend.Strings.{strings, trim_space, contains}
use openchat_backend.Utf8.{rune_count}
use openchat_backend.Platform.{Platform}
use openchat_backend.Base.{
  ◌≤◌, ◌≡◌, refl, ◌≢◌, true, false, Option, none, some, [], ◌∷◌, map, leb, is_nil, length, Str, str,
  ℤ, pos, int_suc, ok, err,
}
use openchat_backend.Base.Map.{lookup}

abbrev image_size : Str → Option (ℤ × ℤ)
image_size [] = none
image_size (b ∷ s) = some (pos 2, pos 3)

-- Letters are the bytes from `a` on; an image is any content, of two pixels by three.
abbrev platform : Platform
platform = record {
  lower = λ r. r;
  is_letter = λ r. leb 97 r;
  is_number = λ r. false;
  decode_config = image_size;
  detect_content_type = λ s. str "image/png";
  rfc3339 = λ t. str "noon";
}

abbrev service : Service
service = new_service (str "http://h/") (str "srv")

abbrev ann : Str
ann = str "ann"

abbrev rename : UpdateInput
rename = record {
  display_name = str " annie ";
  avatar_mode = str "generated";
  avatar_preset = str "reef";
  avatar_asset_id = [];
}

abbrev renamed : CanonicalProfile
renamed = record {
  user_uid = ann;
  display_name = str "annie";
  avatar_mode = str "generated";
  avatar_preset_id = some (str "reef");
  avatar_asset_id = none;
  avatar_url = none;
  profile_version = pos 2;
  updated_at = str "noon";
}

abbrev saved_call : Outcome
saved_call = update platform service ann rename (some (pos 1)) (pos 5)

saved_call_result : saved_call.result ≡ ok renamed
unfolding strings new_service update get_or_create_locked default_profile normalize_uid lookup
    str_ptr default_preset_for_uid default_display_name validate_display_name display_name_pattern
    rune_count choose_avatar save_profile clone_profile int_suc
saved_call_result = refl

abbrev old : CanonicalProfile
old = old_profile platform service ann rename (some (pos 1)) (pos 5)

update_saved_example :
    (validate_display_name platform service (trim_space rename.display_name) ≡ true)
    × (is_stale (some (pos 1)) old.profile_version ≡ false)
    × ((get_or_create platform saved_call.state ann (pos 9)).1 ≡ renamed)
    × (renamed.user_uid ≡ old.user_uid)
    × (renamed.display_name ≡ trim_space rename.display_name)
    × (renamed.avatar_mode ≡ rename.avatar_mode)
    × (renamed.profile_version ≡ int_suc old.profile_version)
    × (renamed.updated_at ≡ platform.rfc3339 (pos 5))
    × ((v : Str)
        → v ≢ normalize_uid ann
        → lookup v saved_call.state.profiles_by_uid ≡ lookup v service.profiles_by_uid)
    × (saved_call.broadcast ≡ to_broadcaster service.broadcaster renamed)
update_saved_example =
    update_saved platform service ann rename (some (pos 1)) (pos 5) renamed (pos 9)
      saved_call_result

abbrev stale_call : Outcome
stale_call = update platform service ann rename (some (pos 4)) (pos 5)

stale_call_result : stale_call.result ≡ err profile_conflict
unfolding strings new_service update get_or_create_locked default_profile normalize_uid lookup
    str_ptr default_preset_for_uid default_display_name validate_display_name display_name_pattern
    rune_count
stale_call_result = refl

update_refused_example :
    SameButDefault platform service (normalize_uid ann) (pos 5) stale_call.state
    × (stale_call.broadcast ≡ none)
update_refused_example =
    update_refused platform service ann rename (some (pos 4)) (pos 5) profile_conflict
      stale_call_result

valid_again :
    validate_display_name platform saved_call.state (trim_space rename.display_name) ≡ true
unfolding strings new_service update get_or_create_locked default_profile normalize_uid lookup
    str_ptr default_preset_for_uid default_display_name validate_display_name display_name_pattern
    rune_count choose_avatar save_profile clone_profile int_suc
valid_again = refl

update_conflict_example :
    (update platform saved_call.state ann rename (some (pos 1)) (pos 6)).result
    ≡ err profile_conflict
update_conflict_example =
    update_conflict platform service ann rename rename (pos 1) (pos 5) (pos 6) renamed
      saved_call_result valid_again

run-new_service-IsConsistent_example : IsConsistent (
    run platform service
      (get ann (pos 3) ∷ upload (str "image/png") (str "pic") (str "aaaabbbb") ∷ []))
run-new_service-IsConsistent_example =
    run-new_service-IsConsistent platform (str "http://h/") (str "srv")
      (get ann (pos 3) ∷ upload (str "image/png") (str "pic") (str "aaaabbbb") ∷ [])

batch_get-distinct_example :
    map
      (λ (q : CanonicalProfile). q.user_uid)
      (batch_get platform service (ann ∷ [] ∷ str " ann" ∷ str "bob" ∷ []) (λ n. pos n)).1
    ≡ distinct [] (map normalize_uid (ann ∷ [] ∷ str " ann" ∷ str "bob" ∷ []))
batch_get-distinct_example =
    batch_get-distinct platform service (ann ∷ [] ∷ str " ann" ∷ str "bob" ∷ []) (λ n. pos n)
      (new_service-IsConsistent (str "http://h/") (str "srv")).own

two_users :
    distinct [] (map normalize_uid (ann ∷ [] ∷ str " ann" ∷ str "bob" ∷ [])) ≡ ann ∷ str "bob" ∷ []
unfolding strings distinct normalize_uid
two_users = refl

abbrev uploaded : AvatarAsset
uploaded = record {
  avatar_asset_id = str "asset_aaaabbb";
  avatar_url = str "http://h/v1/profile/avatar/asset_aaaabbb";
  width = pos 2;
  height = pos 3;
  content_type = str "image/png";
  bytes = 3;
}

uploaded_result :
    (upload_avatar platform service (str "image/png") (str "pic") (str "aaaa-bbbb")).1 ≡ ok uploaded
unfolding strings new_service upload_avatar normalize_content_type avatar_asset_url
uploaded_result = refl

no_spaces : trim_space (asset_id_of (str "aaaa-bbbb")) ≡ asset_id_of (str "aaaa-bbbb")
unfolding strings
no_spaces = refl

abbrev after_upload : Service
after_upload = (upload_avatar platform service (str "image/png") (str "pic") (str "aaaa-bbbb")).0

avatar_content-upload_avatar_example :
    (avatar_content after_upload uploaded.avatar_asset_id ≡ ok (uploaded, str "pic"))
    × (contains service.allowed_mime_types uploaded.content_type ≡ true)
    × (uploaded.bytes ≡ length (str "pic"))
    × (is_nil (str "pic") ≡ false)
    × (length (str "pic") ≤ service.max_upload_bytes)
    × (out_of_bounds service uploaded.width uploaded.height ≡ false)
    × ((k : Str)
        → k ≢ uploaded.avatar_asset_id
        → lookup k after_upload.avatars_by_id ≡ lookup k service.avatars_by_id)
avatar_content-upload_avatar_example =
    avatar_content-upload_avatar platform service (str "image/png") (str "pic") (str "aaaa-bbbb")
      uploaded no_spaces uploaded_result
