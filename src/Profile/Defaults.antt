-- ===== src/Profile/Defaults.antt =====
-- internal/profile/service.go: the profile that a user has before the first update, and the helpers
-- on strings.
use openchat_backend.Platform.{Platform}
use openchat_backend.Profile.Types.{CanonicalProfile, Service}
use openchat_backend.Strings.{has_prefix, trim_space, before_byte, to_lower}
use openchat_backend.Utf8.{decode, rune_count}
use openchat_backend.Base.{
  ℕ, zero, suc, ◌+◌, Bool, true, false, not, ◌&&◌, ◌||◌, Option, none, some, List, [], ◌∷◌, ◌++◌,
  ltb, eqb, if◌then◌else◌, is_nil, length, take, drop, Str, str, ◌==◌, ◌%◌,
}

abbrev pub default_presets : List Str
default_presets =
    str "horizon" ∷ str "reef" ∷ str "mint" ∷ str "ember" ∷ str "violet" ∷ str "slate" ∷ []

abbrev nth : List Str → ℕ → Str
nth [] n = []
nth (x ∷ xs) zero = x
nth (x ∷ xs) (suc n) = nth xs n

abbrev sum : List ℕ → ℕ
sum [] = 0
sum (r ∷ rs) = r + sum rs

-- The sum of the runes of a text that fits in memory does not overflow an `int`.
unfoldable pub default_preset_for_uid : Str → Str
default_preset_for_uid user_uid =
    nth default_presets (sum (decode user_uid) % length default_presets)

unfoldable pub default_display_name : Str → Str
default_display_name user_uid =
    let trimmed = drop 4 user_uid in
    if has_prefix user_uid (str "uid_") && ltb 4 (length user_uid)
    then str "User " ++ (if ltb 10 (length trimmed) then take 10 trimmed else trimmed)
    else if ltb 14 (length user_uid)
    then str "User " ++ take 14 user_uid
    else str "User " ++ user_uid

unfoldable pub str_ptr : Str → Option Str
str_ptr value = some (trim_space value)

unfoldable pub normalize_uid : Str → Str
normalize_uid user_uid = let trimmed = trim_space user_uid in if is_nil trimmed then [] else trimmed

abbrev clone_ptr : Option Str → Option Str
clone_ptr none = none
clone_ptr (some value) = str_ptr value

unfoldable pub clone_profile : CanonicalProfile → CanonicalProfile
clone_profile profile = record profile {
  avatar_preset_id = clone_ptr profile.avatar_preset_id;
  avatar_asset_id = clone_ptr profile.avatar_asset_id;
  avatar_url = clone_ptr profile.avatar_url;
}

abbrev generic_type : Str
generic_type = str "application/octet-stream"

-- Without what follows a semicolon.
abbrev strip_parameters : Str → Str
strip_parameters content_type = elim (before_byte b';' content_type) [
  | none ↦ content_type
  | some type ↦ trim_space type
]

unfoldable pub normalize_content_type : Platform → Str → Str → Str
normalize_content_type p content_type body =
    let given = trim_space (to_lower p.lower content_type) in
    let plain = if is_nil given then given else strip_parameters given in
    let detected = to_lower p.lower (p.detect_content_type body) in
    if not (is_nil body) && (is_nil plain || plain == generic_type) then detected else plain

-- The class of the regular expression ^[\p{L}\p{N} ._\-]+$
abbrev is_name_rune : Platform → ℕ → Bool
is_name_rune p r =
    p.is_letter r || (p.is_number r || (eqb r b' ' || (eqb r b'.' || (eqb r b'_' || eqb r b'-'))))

abbrev all_runes : (ℕ → Bool) → List ℕ → Bool
all_runes test [] = true
all_runes test (r ∷ rs) = test r && all_runes test rs

unfoldable pub display_name_pattern : Platform → Str → Bool
display_name_pattern p s = not (is_nil (decode s)) && all_runes (is_name_rune p) (decode s)

-- Whether validateDisplayName returns no error.
unfoldable pub validate_display_name : Platform → Service → Str → Bool
validate_display_name p s display_name =
    let count = rune_count display_name in
    if ltb count s.display_name_min || ltb s.display_name_max count
    then false
    else display_name_pattern p display_name
