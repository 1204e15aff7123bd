-- ===== src/Profile/Operations/Modes.antt =====
-- The avatar that a profile has in each mode (internal/profile/service.go).
use openchat_backend.Profile.Defaults.{str_ptr}
use openchat_backend.Profile.Operations.{
  avatar_asset_url, default_profile, Platform, choose_avatar, trim_space,
}
use openchat_backend.Profile.Types.{
  CanonicalProfile, Service, avatar_mode_generated, avatar_mode_uploaded, UpdateInput, AvatarBlob,
}
use openchat_backend.Base.{
  ◌≡◌, refl, ap, ◌∙◌, inl, inr, true, false, none, some, arith, Bool-cases, Option-cases, is_some,
  Str, ◌==◌, ==_iff, ℤ, ok,
}
use openchat_backend.Base.Map.{lookup}

-- A generated avatar has a preset and nothing else; an uploaded one names an asset that the service
-- stores and the URL of that asset, each without the spaces around it.
pub data FitsMode (s : Service) (q : CanonicalProfile) : Type 0 where
  generated :
      (preset : Str)
      → q.avatar_mode ≡ avatar_mode_generated
      → q.avatar_preset_id ≡ some preset
      → q.avatar_asset_id ≡ none
      → q.avatar_url ≡ none
      → FitsMode s q
  uploaded :
      (asset : Str)
      → q.avatar_mode ≡ avatar_mode_uploaded
      → q.avatar_preset_id ≡ none
      → is_some (lookup asset s.avatars_by_id) ≡ true
      → q.avatar_asset_id ≡ some (trim_space asset)
      → q.avatar_url ≡ some (trim_space (avatar_asset_url s asset))
      → FitsMode s q

-- Every asset has the URL of the name that it is stored under.
abbrev pub HasUrls : Service → Type 0
HasUrls s =
    (id : Str) (blob : AvatarBlob)
    → lookup id s.avatars_by_id ≡ some blob
    → blob.metadata.avatar_url ≡ avatar_asset_url s id

pub avatar_asset_url_same :
    (s t : Service) (id : Str)
    → t.public_base_url ≡ s.public_base_url
    → avatar_asset_url s id ≡ avatar_asset_url t id
unfolding avatar_asset_url
avatar_asset_url_same s t id e = rw e refl

-- A profile still fits its mode where the base URL is the same and no asset is gone.
pub FitsMode-mono :
    (s t : Service) (q : CanonicalProfile)
    → t.public_base_url ≡ s.public_base_url
    → ((id : Str)
        → is_some (lookup id s.avatars_by_id) ≡ true
        → is_some (lookup id t.avatars_by_id) ≡ true)
    → FitsMode s q
    → FitsMode t q
FitsMode-mono s t q e keep (generated preset m a b c) = generated preset m a b c
FitsMode-mono s t q e keep (uploaded asset m a k b c) =
    uploaded asset m a (keep asset k) b
      (c ∙ ap (λ u. some (trim_space u)) (avatar_asset_url_same s t asset e))

pub default_profile-FitsMode :
    (p : Platform) (s : Service) (uid : Str) (now : ℤ) → FitsMode s (default_profile p uid now)
unfolding default_profile str_ptr
default_profile-FitsMode p s uid now = generated _ refl refl refl refl

module _ (s : Service) (profile : CanonicalProfile) (input : UpdateInput)
    (chosen : CanonicalProfile) where
  choose_avatar_generated :
      choose_avatar s profile input ≡ ok chosen
      → (input.avatar_mode == avatar_mode_generated) ≡ true
      → (chosen.avatar_mode ≡ profile.avatar_mode)
        × (chosen.avatar_preset_id ≡ some (trim_space (trim_space input.avatar_preset)))
        × (chosen.avatar_asset_id ≡ none)
        × (chosen.avatar_url ≡ none)
  unfolding choose_avatar str_ptr
  choose_avatar_generated h g = (ground arith, ground arith, ground arith, ground arith)

  choose_avatar_uploaded :
      choose_avatar s profile input ≡ ok chosen
      → (input.avatar_mode == avatar_mode_generated) ≡ false
      → ((input.avatar_mode == avatar_mode_uploaded) ≡ true)
        × (chosen.avatar_mode ≡ profile.avatar_mode)
        × (chosen.avatar_preset_id ≡ none)
        × (chosen.avatar_asset_id ≡ some (trim_space (trim_space input.avatar_asset_id)))
        × (blob : AvatarBlob) × (lookup (trim_space input.avatar_asset_id) s.avatars_by_id
            ≡ some blob)
        × (chosen.avatar_url ≡ some (trim_space blob.metadata.avatar_url))
  unfolding choose_avatar str_ptr
  choose_avatar_uploaded h g =
      elim (Option-cases (lookup (trim_space input.avatar_asset_id) s.avatars_by_id)) [
        | inl e ↦ absurd (ground (arith, e))
        | inr (blob, e) ↦ (
          ground (arith, e),
          ground (arith, e),
          ground (arith, e),
          ground (arith, e),
          blob,
          e,
          ground (arith, e),
        )
      ]

  pub choose_avatar-FitsMode :
      HasUrls s
      → choose_avatar s profile input ≡ ok chosen
      → profile.avatar_mode ≡ input.avatar_mode
      → FitsMode s chosen
  choose_avatar-FitsMode urls h m = elim (Bool-cases (input.avatar_mode == avatar_mode_generated)) [
    | inl g ↦
        let (mode, preset, asset, url) = choose_avatar_generated h g in
        generated _ (mode ∙ m ∙ (==_iff input.avatar_mode avatar_mode_generated).0 g) preset asset
          url
    | inr n ↦
        let (g, mode, preset, asset, blob, stored, url) = choose_avatar_uploaded h n in
        uploaded (trim_space input.avatar_asset_id)
          (mode ∙ m ∙ (==_iff input.avatar_mode avatar_mode_uploaded).0 g) preset
          (ap is_some stored) asset (url ∙ ap (λ u. some (trim_space u)) (urls _ blob stored))
  ]

pub saved-FitsMode :
    (s : Service) (q : CanonicalProfile) (version : ℤ) (at : Str)
    → FitsMode s q
    → FitsMode s (record q { profile_version = version; updated_at = at })
saved-FitsMode s q version at (generated preset m a b c) = generated preset m a b c
saved-FitsMode s q version at (uploaded asset m a k b c) = uploaded asset m a k b c
