-- ===== src/Profile/Operations/Avatars.antt =====
-- What UploadAvatar keeps, against what AvatarContent returns (internal/profile/service.go).
use openchat_backend.Profile.Operations.{
  upload_avatar, asset_id_of, new_asset, out_of_bounds, contains, avatar_content,
  avatar_type_unsupported, trim_space, avatar_too_large, avatar_dimensions,
}
use openchat_backend.Profile.Defaults.{normalize_content_type}
use openchat_backend.Profile.Types.{AvatarAsset, Service, Error, AvatarBlob}
use openchat_backend.Platform.{Platform}
use openchat_backend.Base.{
  refl, ◌≡◌, ◌⊎◌, inl, inr, true, false, ◌||◌, some, ltb, Bool-cases, Option-cases, is_nil, length,
  Str, ℤ, Result, ok, err, arith, str, ◌≤◌, ◌≢◌, sym, ap, ◌∙◌, subst,
}
use openchat_backend.Base.Map.{insert, lookup, lookup-insert_self, lookup-insert_ne}

pub asset_eq : {m n : AvatarAsset} → ◌≡◌ {A = Result Error AvatarAsset} (ok m) (ok n) → m ≡ n
asset_eq h = cc

avatar_content_stored :
    (t : Service) (uuid : Str) (blob : AvatarBlob)
    → trim_space (asset_id_of uuid) ≡ asset_id_of uuid
    → lookup (asset_id_of uuid) t.avatars_by_id ≡ some blob
    → avatar_content t (asset_id_of uuid) ≡ ok (blob.metadata, blob.content)
unfolding avatar_content str
avatar_content_stored t uuid blob trimmed h =
    rw (trimmed, avatar_content) (rw (h, avatar_content) refl)

module _ (p : Platform) (s : Service) (content_type content uuid : Str) where
  abbrev type : Str
  type = normalize_content_type p content_type content

  -- What a call that succeeds has checked, and what it leaves.
  pub record Accepted (o : Service × Result Error AvatarAsset) : Type 0 where
    pub allowed : contains s.allowed_mime_types type ≡ true
    pub fits : (is_nil content || ltb s.max_upload_bytes (length content)) ≡ false
    pub width : ℤ
    pub height : ℤ
    pub decoded : p.decode_config content ≡ some (width, height)
    pub bounded : out_of_bounds s width height ≡ false
    pub state :
        o.0.avatars_by_id
        ≡ insert
            (asset_id_of uuid)
            (record { metadata = new_asset s type content uuid width height; content = content })
            s.avatars_by_id
    pub result : o.1 ≡ ok (new_asset s type content uuid width height)

  pub upload_avatar-cases :
      ((e : Error) × (upload_avatar p s content_type content uuid ≡ (s, err e)))
      ⊎ Accepted (upload_avatar p s content_type content uuid)
  unfolding upload_avatar
  upload_avatar-cases = elim (Bool-cases (contains s.allowed_mime_types type)) [
    | inr bad ↦ inl (avatar_type_unsupported, rw (bad, upload_avatar))
    | inl allowed ↦ elim (Bool-cases (is_nil content || ltb s.max_upload_bytes (length content))) [
      | inl large ↦ inl (avatar_too_large, rw (allowed, upload_avatar) (rw (large, upload_avatar)))
      | inr fits ↦ elim (Option-cases (p.decode_config content)) [
        | inl broken ↦ inl (
          avatar_type_unsupported,
          rw (allowed, upload_avatar) (rw (fits, upload_avatar) (rw (broken, upload_avatar))),
        )
        | inr ((width, height), decoded) ↦ elim (Bool-cases (out_of_bounds s width height)) [
          | inl wrong ↦ inl (
            avatar_dimensions,
            rw (allowed, upload_avatar)
                (rw (fits, upload_avatar)
                  (rw (decoded, upload_avatar) (rw (wrong, upload_avatar)))),
          )
          | inr bounded ↦ inr (record {
            allowed = allowed;
            fits = fits;
            width = width;
            height = height;
            decoded = decoded;
            bounded = bounded;
            state =
                rw (allowed, upload_avatar)
                  (rw (fits, upload_avatar)
                    (rw (decoded, upload_avatar) (rw (bounded, upload_avatar))));
            result =
                rw (allowed, upload_avatar)
                  (rw (fits, upload_avatar)
                    (rw (decoded, upload_avatar) (rw (bounded, upload_avatar))));
          })
        ]
      ]
    ]
  ]

  -- An upload that is accepted has an allowed type, is not empty nor longer than the limit, and has
  -- dimensions within the bounds; if the name that the UUID gives has no spaces around it, its
  -- metadata and its bytes are read back under that name, and every other avatar is as it was.
  pub avatar_content-upload_avatar :
      (asset : AvatarAsset)
      → trim_space (asset_id_of uuid) ≡ asset_id_of uuid
      → (upload_avatar p s content_type content uuid).1 ≡ ok asset
      → (avatar_content (upload_avatar p s content_type content uuid).0 asset.avatar_asset_id
          ≡ ok (asset, content))
        × (contains s.allowed_mime_types asset.content_type ≡ true)
        × (asset.bytes ≡ length content)
        × (is_nil content ≡ false)
        × (length content ≤ s.max_upload_bytes)
        × (out_of_bounds s asset.width asset.height ≡ false)
        × ((k : Str)
            → k ≢ asset.avatar_asset_id
            → lookup k (upload_avatar p s content_type content uuid).0.avatars_by_id
              ≡ lookup k s.avatars_by_id)
  avatar_content-upload_avatar asset trimmed h = elim upload_avatar-cases [
    | inl (e, o) ↦ absurd (cc (sym (ap (λ (x : Service × Result Error AvatarAsset). x.1) o) ∙ h))
    | inr a ↦
        let same : new_asset s type content uuid a.width a.height ≡ asset =
          asset_eq (sym a.result ∙ h) in
        subst
          (λ (asset : AvatarAsset).
            (avatar_content (upload_avatar p s content_type content uuid).0 asset.avatar_asset_id
              ≡ ok (asset, content))
            × (contains s.allowed_mime_types asset.content_type ≡ true)
            × (asset.bytes ≡ length content)
            × (is_nil content ≡ false)
            × (length content ≤ s.max_upload_bytes)
            × (out_of_bounds s asset.width asset.height ≡ false)
            × ((k : Str)
                → k ≢ asset.avatar_asset_id
                → lookup k (upload_avatar p s content_type content uuid).0.avatars_by_id
                  ≡ lookup k s.avatars_by_id))
          same
          (
            avatar_content_stored _ uuid _ trimmed
                (ap (lookup (asset_id_of uuid)) a.state ∙ lookup-insert_self _ _ s.avatars_by_id),
            a.allowed,
            refl,
            ground (arith, a.fits),
            ground (arith, a.fits),
            a.bounded,
            λ k d. ap (lookup k) a.state ∙ lookup-insert_ne _ k _ s.avatars_by_id (λ e. d (sym e)),
          )
  ]

upload_avatar_refused :
    (p : Platform) (s : Service) (content_type content uuid : Str) (e : Error)
    → (upload_avatar p s content_type content uuid).1 ≡ err e
    → (upload_avatar p s content_type content uuid).0 ≡ s
unfolding upload_avatar
upload_avatar_refused p s content_type content uuid e h = ground arith
