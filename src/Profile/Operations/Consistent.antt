-- ===== src/Profile/Operations/Consistent.antt =====
-- The avatar of a profile fits its mode, kept by the operations of internal/profile/service.go.
use openchat_backend.Profile.Operations.Modes.{
  FitsMode, HasUrls, avatar_asset_url_same, FitsMode-mono, default_profile-FitsMode,
  choose_avatar-FitsMode, saved-FitsMode,
}
use openchat_backend.Profile.Operations.Updates.{
  get_or_create_locked-SameButDefault, lookup-get_or_create_locked, update-Ends, refused_early,
  refused, saved, choose_avatar_ok,
}
use openchat_backend.Profile.Operations.Avatars.{upload_avatar-cases}
use openchat_backend.Profile.Defaults.{normalize_uid}
use openchat_backend.Profile.Operations.{
  asset_id_of, avatar_asset_url, default_profile, get_or_create_locked, Platform, Error, contains,
  update, batch_from, upload_avatar, Outcome, save_profile,
}
use openchat_backend.Profile.Types.{CanonicalProfile, Service, UpdateInput, AvatarBlob, AvatarAsset}
use openchat_backend.Base.{
  ℕ, suc, ◌≡◌, refl, sym, ap, ◌∙◌, subst, inl, inr, true, ◌||◌, Option, some, List, [], ◌∷◌, arith,
  Bool-cases, Option-cases, is_some, is_nil, Str, ==_cases, ℤ, Result, some_eq,
}
use openchat_backend.Base.Map.{Map, lookup, insert, lookup-insert_self, lookup-insert_ne}

-- Every profile stands under its own user.
abbrev pub IsOwned : Service → Type 0
IsOwned s =
    (uid : Str) (q : CanonicalProfile) → lookup uid s.profiles_by_uid ≡ some q → q.user_uid ≡ uid

-- Every profile stands under its own user and fits its mode, and every asset has the URL of the name
-- that it is stored under.
pub record IsConsistent (s : Service) : Type 0 where
  pub own : IsOwned s
  pub fits :
      (uid : Str) (q : CanonicalProfile) → lookup uid s.profiles_by_uid ≡ some q → FitsMode s q
  pub avatars : HasUrls s

same_profile :
    (uid v : Str) (profile q : CanonicalProfile) (m : Map CanonicalProfile)
    → uid ≡ v
    → lookup v (insert uid profile m) ≡ some q
    → profile ≡ q
same_profile uid v profile q m same h =
    some_eq
      (sym (lookup-insert_self uid profile m) ∙ ap (λ x. lookup x (insert uid profile m)) same ∙ h)

insert-IsConsistent :
    (s t : Service) (uid : Str) (profile : CanonicalProfile)
    → t.profiles_by_uid ≡ insert uid profile s.profiles_by_uid
    → t.avatars_by_id ≡ s.avatars_by_id
    → t.public_base_url ≡ s.public_base_url
    → profile.user_uid ≡ uid
    → FitsMode s profile
    → IsConsistent s
    → IsConsistent t
insert-IsConsistent s t uid profile e same_avatars same_url mine f c = record {
  own = λ v q h. elim (==_cases uid v) [
    | inl same ↦
        ap (λ (x : CanonicalProfile). x.user_uid)
          (sym (same_profile uid v profile q s.profiles_by_uid same (ap (lookup v) (sym e) ∙ h)))
        ∙ mine
        ∙ same
    | inr other ↦
        c.own v q
          (sym (lookup-insert_ne uid v profile s.profiles_by_uid other) ∙ ap (lookup v) (sym e) ∙ h)
  ];
  fits = λ v q h. elim (==_cases uid v) [
    | inl same ↦ kept q (
        subst (FitsMode s)
          (same_profile uid v profile q s.profiles_by_uid same (ap (lookup v) (sym e) ∙ h)) f)
    | inr other ↦ kept q (
        c.fits v q (
          sym (lookup-insert_ne uid v profile s.profiles_by_uid other) ∙ ap (lookup v) (sym e) ∙ h))
  ];
  avatars = λ id blob h.
      c.avatars id blob (ap (lookup id) (sym same_avatars) ∙ h)
      ∙ avatar_asset_url_same s t id same_url;
}
  where
    kept : (q : CanonicalProfile) → FitsMode s q → FitsMode t q
    kept q = FitsMode-mono s t q same_url (λ id k. ap (λ m. is_some (lookup id m)) same_avatars ∙ k)

pub same_profiles-IsConsistent :
    (s t : Service)
    → t.profiles_by_uid ≡ s.profiles_by_uid
    → t.avatars_by_id ≡ s.avatars_by_id
    → t.public_base_url ≡ s.public_base_url
    → IsConsistent s
    → IsConsistent t
same_profiles-IsConsistent s t e same_avatars same_url c = record {
  own = λ v q h. c.own v q (ap (lookup v) (sym e) ∙ h);
  fits = λ v q h.
      FitsMode-mono s t q same_url (λ id k. ap (λ m. is_some (lookup id m)) same_avatars ∙ k)
        (c.fits v q (ap (lookup v) (sym e) ∙ h));
  avatars = λ id blob h.
      c.avatars id blob (ap (lookup id) (sym same_avatars) ∙ h)
      ∙ avatar_asset_url_same s t id same_url;
}

default_profile-uid :
    (p : Platform) (uid : Str) (now : ℤ) → (default_profile p uid now).user_uid ≡ uid
unfolding default_profile
default_profile-uid p uid now = refl

pub get_or_create_locked-IsConsistent :
    (p : Platform) (s : Service) (uid : Str) (now : ℤ)
    → IsConsistent s
    → IsConsistent (get_or_create_locked p s uid now).0
unfolding get_or_create_locked
get_or_create_locked-IsConsistent p s uid now c =
    elim (Option-cases (lookup uid s.profiles_by_uid)) [
      | inl e ↦
          rw (e, get_or_create_locked)
            (insert-IsConsistent s _ uid (default_profile p uid now) refl refl refl
              (default_profile-uid p uid now) (default_profile-FitsMode p s uid now) c)
      | inr (q, e) ↦ rw (e, get_or_create_locked) c
    ]

pub get_or_create_locked-IsOwned :
    (p : Platform) (s : Service) (uid : Str) (now : ℤ)
    → IsOwned s
    → IsOwned (get_or_create_locked p s uid now).0
get_or_create_locked-IsOwned p s uid now own v q h =
    elim ((get_or_create_locked-SameButDefault p s uid now).2 v q h) [
      | inl was ↦ own v q was
      | inr (mine, _, new) ↦
          ap (λ (x : CanonicalProfile). x.user_uid) new ∙ default_profile-uid p uid now ∙ sym mine
    ]

pub locked_uid :
    (p : Platform) (s : Service) (uid : Str) (now : ℤ)
    → IsOwned s
    → (get_or_create_locked p s uid now).1.user_uid ≡ uid
locked_uid p s uid now own =
    get_or_create_locked-IsOwned p s uid now own uid _ (lookup-get_or_create_locked p s uid now)

save_profile-IsConsistent :
    (s : Service) (uid : Str) (profile : CanonicalProfile)
    → profile.user_uid ≡ uid
    → FitsMode s profile
    → IsConsistent s
    → IsConsistent (save_profile s uid profile).state
unfolding save_profile
save_profile-IsConsistent s uid profile mine f c =
    insert-IsConsistent s (save_profile s uid profile).state uid profile refl refl refl mine f c

pub update-IsConsistent :
    (p : Platform) (s : Service) (raw_uid : Str) (input : UpdateInput) (expected_version : Option ℤ)
    (now : ℤ)
    → IsConsistent s
    → IsConsistent (update p s raw_uid input expected_version now).state
update-IsConsistent p s raw_uid input expected_version now c =
    elim (update-Ends p s raw_uid input expected_version now) [
      | refused_early e o ↦ subst (λ (x : Outcome). IsConsistent x.state) (sym o) c
      | refused e o ↦
          subst (λ (x : Outcome). IsConsistent x.state) (sym o)
            (get_or_create_locked-IsConsistent p s (normalize_uid raw_uid) now c)
      | saved chosen named good fresh d o ↦
          let made = (get_or_create_locked p s (normalize_uid raw_uid) now).0 in
          subst (λ (x : Outcome). IsConsistent x.state) (sym o)
            (save_profile-IsConsistent made (normalize_uid raw_uid) _
              ((choose_avatar_ok made _ input chosen d).0
                ∙ locked_uid p s (normalize_uid raw_uid) now c.own)
              (saved-FitsMode made chosen _ _ (
                choose_avatar-FitsMode made _ input chosen
                  (get_or_create_locked-IsConsistent p s (normalize_uid raw_uid) now c).avatars d
                  refl))
              (get_or_create_locked-IsConsistent p s (normalize_uid raw_uid) now c))
    ]

pub batch_from-IsConsistent :
    (p : Platform) (s : Service) (seen : List Str) (clock : ℕ → ℤ) (n : ℕ) (raws : List Str)
    → IsConsistent s
    → IsConsistent (batch_from p s seen clock n raws).0
unfolding batch_from
batch_from-IsConsistent p s seen clock n [] c = c
batch_from-IsConsistent p s seen clock n (raw ∷ raws) c =
    elim (Bool-cases (is_nil (normalize_uid raw) || contains seen (normalize_uid raw))) [
      | inl skip ↦ rw (skip, batch_from) (batch_from-IsConsistent p s seen clock (suc n) raws c)
      | inr fresh ↦
          rw (fresh, batch_from)
            (batch_from-IsConsistent p (get_or_create_locked p s (normalize_uid raw) (clock n)).0
              (normalize_uid raw ∷ seen) clock (suc n) raws
              (get_or_create_locked-IsConsistent p s (normalize_uid raw) (clock n) c))
    ]

upload_avatar-keeps :
    (p : Platform) (s : Service) (content_type content uuid : Str)
    → ((upload_avatar p s content_type content uuid).0.profiles_by_uid ≡ s.profiles_by_uid)
      × ((upload_avatar p s content_type content uuid).0.public_base_url ≡ s.public_base_url)
unfolding upload_avatar
upload_avatar-keeps p s content_type content uuid = (ground arith, ground arith)

-- Storing an asset under its own name, with the URL of that name.
stored-IsConsistent :
    (s t : Service) (id : Str) (blob : AvatarBlob)
    → t.profiles_by_uid ≡ s.profiles_by_uid
    → t.avatars_by_id ≡ insert id blob s.avatars_by_id
    → t.public_base_url ≡ s.public_base_url
    → blob.metadata.avatar_url ≡ avatar_asset_url s id
    → IsConsistent s
    → IsConsistent t
stored-IsConsistent s t id blob e e' same_url url c = record {
  own = λ v q h. c.own v q (ap (lookup v) (sym e) ∙ h);
  fits = λ v q h. FitsMode-mono s t q same_url kept (c.fits v q (ap (lookup v) (sym e) ∙ h));
  avatars = λ k b h. elim (==_cases id k) [
    | inl same ↦
        ap (λ (b : AvatarBlob). b.metadata.avatar_url)
          (some_eq (
            sym h
            ∙ ap (lookup k) e'
            ∙ ap (λ x. lookup x (insert id blob s.avatars_by_id)) (sym same)
            ∙ lookup-insert_self id blob s.avatars_by_id))
        ∙ url
        ∙ ap (avatar_asset_url s) same
        ∙ avatar_asset_url_same s t k same_url
    | inr other ↦
        c.avatars k b
          (sym (lookup-insert_ne id k blob s.avatars_by_id other) ∙ ap (lookup k) (sym e') ∙ h)
        ∙ avatar_asset_url_same s t k same_url
  ];
}
  where
    kept :
        (k : Str)
        → is_some (lookup k s.avatars_by_id) ≡ true
        → is_some (lookup k t.avatars_by_id) ≡ true
    kept k found = elim (==_cases id k) [
      | inl same ↦
          ap (λ m. is_some (lookup k m)) e'
          ∙ ap (λ x. is_some (lookup x (insert id blob s.avatars_by_id))) (sym same)
          ∙ ap is_some (lookup-insert_self id blob s.avatars_by_id)
      | inr other ↦
          ap (λ m. is_some (lookup k m)) e'
          ∙ ap is_some (lookup-insert_ne id k blob s.avatars_by_id other)
          ∙ found
    ]

pub upload_avatar-IsConsistent :
    (p : Platform) (s : Service) (content_type content uuid : Str)
    → IsConsistent s
    → IsConsistent (upload_avatar p s content_type content uuid).0
upload_avatar-IsConsistent p s content_type content uuid c =
    elim (upload_avatar-cases p s content_type content uuid) [
      | inl (e, o) ↦ subst (λ (x : Service × Result Error AvatarAsset). IsConsistent x.0) (sym o) c
      | inr a ↦
          let (profiles, url) = upload_avatar-keeps p s content_type content uuid in
          stored-IsConsistent s _ (asset_id_of uuid) _ profiles a.state url refl c
    ]
