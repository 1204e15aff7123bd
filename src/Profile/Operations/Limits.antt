-- ===== src/Profile/Operations/Limits.antt =====
-- What Update and UploadAvatar of internal/profile/service.go have checked when they succeed.
use openchat_backend.Profile.Operations.Avatars.{asset_eq, upload_avatar-cases}
use openchat_backend.Profile.Operations.Updates.{refused_early, refused, saved, update-Ends}
use openchat_backend.Profile.Operations.{
  update, Outcome, choose_avatar, allowed_avatar_modes, upload_avatar, out_of_bounds,
  avatar_mode_generated, avatar_mode_uploaded,
}
use openchat_backend.Profile.Types.{Error, CanonicalProfile, Service, UpdateInput, AvatarAsset}
use openchat_backend.Profile.Defaults.{validate_display_name}
use openchat_backend.Strings.{trim_space, contains}
use openchat_backend.Utf8.{rune_count}
use openchat_backend.Platform.{Platform}
use openchat_backend.Base.{
  ℕ, ◌≤◌, ◌≡◌, sym, ap, ◌∙◌, inl, inr, true, false, Option, List, arith, Str, length, ℤ, pos, ◌≤ℤ◌,
  ◌<ℤ◌, Result, ok, subst, ==_iff,
}

-- A display name, as it is stored, has from `low` to `high` runes.
abbrev pub IsNamedWithin : ℕ → ℕ → Str → Type 0
IsNamedWithin low high name =
    (low ≤ rune_count (trim_space name)) × (rune_count (trim_space name) ≤ high)

-- An image of an allowed type that has a byte, at most as many as allowed, and sides within bounds.
abbrev pub IsUploadWithin : ℕ → ℤ → ℤ → List Str → Str → AvatarAsset → Type 0
IsUploadWithin max_bytes max_width max_height types content asset =
    (1 ≤ length content)
    × (length content ≤ max_bytes)
    × (contains types asset.content_type ≡ true)
    × (pos 0 <ℤ asset.width)
    × (asset.width ≤ℤ max_width)
    × (pos 0 <ℤ asset.height)
    × (asset.height ≤ℤ max_height)

valid_within :
    (p : Platform) (s : Service) (name : Str)
    → validate_display_name p s (trim_space name) ≡ true
    → IsNamedWithin s.display_name_min s.display_name_max name
unfolding validate_display_name
valid_within p s name h = (ground arith, ground arith)

chosen_mode :
    (s : Service) (profile : CanonicalProfile) (input : UpdateInput) (chosen : CanonicalProfile)
    → choose_avatar s profile input ≡ ok chosen
    → contains allowed_avatar_modes input.avatar_mode ≡ true
unfolding choose_avatar allowed_avatar_modes contains
chosen_mode s profile input chosen h = ground (
  arith,
  ==_iff input.avatar_mode avatar_mode_generated,
  ==_iff input.avatar_mode avatar_mode_uploaded,
  ==_iff avatar_mode_generated input.avatar_mode,
  ==_iff avatar_mode_uploaded input.avatar_mode,
)

module _ (p : Platform) (s : Service) where
  pub update_within :
      (raw_uid : Str) (input : UpdateInput) (version : Option ℤ) (now : ℤ) (q : CanonicalProfile)
      → (update p s raw_uid input version now).result ≡ ok q
      → IsNamedWithin s.display_name_min s.display_name_max input.display_name
        × (contains allowed_avatar_modes input.avatar_mode ≡ true)
  update_within raw_uid input version now q h = elim (update-Ends p s raw_uid input version now) [
    | refused_early e o ↦ absurd (cc (sym (ap (λ (x : Outcome). x.result) o) ∙ h))
    | refused e o ↦ absurd (cc (sym (ap (λ (x : Outcome). x.result) o) ∙ h))
    | saved chosen named good fresh c o ↦
        (valid_within p s input.display_name good, chosen_mode _ _ input chosen c)
  ]

  bounded_within :
      (width height : ℤ)
      → out_of_bounds s width height ≡ false
      → (pos 0 <ℤ width)
        × (width ≤ℤ s.max_image_width)
        × (pos 0 <ℤ height)
        × (height ≤ℤ s.max_image_height)
  bounded_within width height h = (ground arith, ground arith, ground arith, ground arith)

  pub upload_avatar_within :
      (content_type content uuid : Str) (asset : AvatarAsset)
      → (upload_avatar p s content_type content uuid).1 ≡ ok asset
      → IsUploadWithin s.max_upload_bytes s.max_image_width s.max_image_height s.allowed_mime_types
          content asset
  upload_avatar_within content_type content uuid asset h =
      elim (upload_avatar-cases p s content_type content uuid) [
        | inl (e, o) ↦
            absurd (cc (sym (ap (λ (x : Service × Result Error AvatarAsset). x.1) o) ∙ h))
        | inr a ↦
            let (wide, narrow, high, low) = bounded_within a.width a.height a.bounded in
            subst
              (IsUploadWithin s.max_upload_bytes s.max_image_width s.max_image_height
                s.allowed_mime_types content)
              (asset_eq (sym a.result ∙ h))
              (ground (arith, a.fits), ground (arith, a.fits), a.allowed, wide, narrow, high, low)
      ]
