-- ===== src/Api/Router/Advertised.antt =====
-- The limits of profiles that the server advertises are those that it enforces
-- (internal/capabilities/service.go with internal/profile/service.go).
use openchat_backend.Capabilities
use openchat_backend.Capabilities.Types.{
  ProfileCapabilitiesResponse, ProfileAvatarUploadRulesResponse,
}
use openchat_backend.Profile.Operations.{
  get_or_create_locked, batch_from, update, upload_avatar, save_profile,
}
use openchat_backend.Profile.Operations.Updates.{refused_early, refused, saved, update-Ends}
use openchat_backend.Profile.Operations.Limits.{
  IsNamedWithin, IsUploadWithin, update_within, upload_avatar_within,
}
use openchat_backend.Profile.Types.{Service, UpdateInput, CanonicalProfile, AvatarAsset}
use openchat_backend.Api.Router.Identity.{unauthorized, served, serve-IsServedFor}
use openchat_backend.Api.Router.Cases.{
  IsHandled, answered, sent, departed, looked_up, changed, stored, listed, handle_authed-IsHandled,
}
use openchat_backend.Api.Router.History.{run}
use openchat_backend.Strings.{sort_strings, contains}
use openchat_backend.Profile
use openchat_backend.Api
use openchat_backend.Api.Router.{
  Request, options, healthz, get_capabilities, list_servers, list_channel_groups, list_members,
  list_messages, get_message_attachment, get_profile_avatar, authed, serve, new_server,
}
use openchat_backend.Api.Types.{Server, Served}
use openchat_backend.Api.Requester.{with_requester_context, uid_of}
use openchat_backend.Api.Tickets.{Context}
use openchat_backend.App.Config.{Config}
use openchat_backend.Platform.{Platform}
use openchat_backend.Base.{
  ℕ, suc, ◌≡◌, refl, sym, ap, ◌∙◌, subst, inl, inr, ◌||◌, true, ok, Option, some, List, [], ◌∷◌,
  arith, Bool-cases, Option-cases, is_nil, Str, str, ℤ, pos,
}
use openchat_backend.Base.Map.{lookup}

-- The rules of a service: its limits, apart from the profiles and the avatars that it holds.
abbrev pub rules_of : Service → Service
rules_of s = record s { profiles_by_uid = []; avatars_by_id = [] }

get_or_create_locked-rules :
    (p : Platform) (s : Service) (user_uid : Str) (now : ℤ)
    → rules_of (get_or_create_locked p s user_uid now).0 ≡ rules_of s
unfolding get_or_create_locked
get_or_create_locked-rules p s user_uid now =
    elim (Option-cases (lookup user_uid s.profiles_by_uid)) [
      | inl e ↦ rw (e, get_or_create_locked) refl
      | inr (q, e) ↦ rw (e, get_or_create_locked) refl
    ]

update-rules :
    (p : Platform) (s : Service) (raw_uid : Str) (input : UpdateInput) (version : Option ℤ)
    (now : ℤ)
    → rules_of (update p s raw_uid input version now).state ≡ rules_of s
unfolding save_profile
update-rules p s raw_uid input version now = elim (update-Ends p s raw_uid input version now) [
  | refused_early e o ↦ ap (λ (o : Profile.Operations.Outcome). rules_of o.state) o
  | refused e o ↦
      ap (λ (o : Profile.Operations.Outcome). rules_of o.state) o
      ∙ get_or_create_locked-rules p s _ now
  | saved chosen named good fresh c o ↦
      ap (λ (o : Profile.Operations.Outcome). rules_of o.state) o
      ∙ get_or_create_locked-rules p s _ now
]

upload_avatar-rules :
    (p : Platform) (s : Service) (content_type content uuid : Str)
    → rules_of (upload_avatar p s content_type content uuid).0 ≡ rules_of s
unfolding upload_avatar
upload_avatar-rules p s content_type content uuid = ground arith

batch_from-rules :
    (p : Platform) (s : Service) (seen : List Str) (clock : ℕ → ℤ) (n : ℕ) (raws : List Str)
    → rules_of (batch_from p s seen clock n raws).0 ≡ rules_of s
unfolding batch_from
batch_from-rules p s seen clock n [] = refl
batch_from-rules p s seen clock n (raw ∷ raws) =
    let user_uid = Profile.Defaults.normalize_uid raw in
    elim (Bool-cases (is_nil user_uid || contains seen user_uid)) [
      | inl skip ↦ rw skip (batch_from-rules p s seen clock (suc n) raws)
      | inr fresh ↦ rw fresh (
          batch_from-rules p (get_or_create_locked p s user_uid (clock n)).0 (user_uid ∷ seen) clock
            (suc n) raws
          ∙ get_or_create_locked-rules p s user_uid (clock n))
    ]

module _ (x : Context) (s : Server) where
  IsHandled-rules :
      (user_uid : Str) (o : Served)
      → IsHandled x s user_uid o
      → rules_of o.state.profiles ≡ rules_of s.profiles
  unfolding Profile.Operations.get_or_create Profile.Operations.batch_get
  IsHandled-rules user_uid o (answered response e) = rw e refl
  IsHandled-rules user_uid o (sent channel_id payload ids now e) = rw e refl
  IsHandled-rules user_uid o (departed server_id now response e) = rw e refl
  IsHandled-rules user_uid o (looked_up now response e) =
      ap (λ (o : Served). rules_of o.state.profiles) e
      ∙ get_or_create_locked-rules x.platform s.profiles _ now
  IsHandled-rules user_uid o (changed input version now e) =
      ap (λ (o : Served). rules_of o.state.profiles) e
      ∙ update-rules x.platform s.profiles user_uid input version now
  IsHandled-rules user_uid o (stored content_type bytes uuid e) =
      ap (λ (o : Served). rules_of o.state.profiles) e
      ∙ upload_avatar-rules x.platform s.profiles content_type bytes uuid
  IsHandled-rules user_uid o (listed user_uids clock response e) =
      ap (λ (o : Served). rules_of o.state.profiles) e
      ∙ batch_from-rules x.platform s.profiles [] clock 0 user_uids

  -- No request changes the rules, nor what the capabilities are built from.
  serve-rules :
      (request : Request) → rules_of (serve x request s).state.profiles ≡ rules_of s.profiles
  unfolding serve with_requester_context Api.Channels.list_servers
  serve-rules options = refl
  serve-rules healthz = refl
  serve-rules (get_capabilities now) = refl
  serve-rules (list_servers headers) = elim (Bool-cases (is_nil (uid_of x.platform headers))) [
    | inl blank ↦ rw blank refl
    | inr own ↦ rw own refl
  ]
  serve-rules (list_channel_groups server_id) = refl
  serve-rules (list_members server_id) = refl
  serve-rules (list_messages channel_id limit) = refl
  serve-rules (get_message_attachment channel_id attachment_id) = refl
  serve-rules (get_profile_avatar asset_id) = refl
  serve-rules (authed headers request) = elim (serve-IsServedFor x headers request s) [
    | unauthorized strict blank e ↦ ap (λ (o : Served). rules_of o.state.profiles) e
    | served requester user device own strict same e ↦
        ap (λ (o : Served). rules_of o.state.profiles) e
        ∙ IsHandled-rules requester.user_uid _
            (handle_authed-IsHandled x s (some requester) request)
  ]

run-rules :
    (x : Context) (s : Server) (requests : List Request)
    → rules_of (run x s requests).profiles ≡ rules_of s.profiles
unfolding run
run-rules x s [] = refl
run-rules x s (request ∷ requests) =
    run-rules x (serve x request s).state requests ∙ serve-rules x s request

-- A service has the limits of profiles that capabilities name.
abbrev HasLimits : ProfileCapabilitiesResponse → ProfileAvatarUploadRulesResponse → Service → Type 0
HasLimits c upload s =
    (s.display_name_min ≡ c.display_name.min_length)
    × (s.display_name_max ≡ c.display_name.max_length)
    × (s.max_upload_bytes ≡ upload.max_bytes)
    × (s.max_image_width ≡ pos upload.max_width)
    × (s.max_image_height ≡ pos upload.max_height)
    × (s.allowed_mime_types ≡ upload.mime_types)

-- The rules that a service shows are those that capabilities name, and it enforces them: an update
-- that succeeds has a display name of an advertised length and an advertised avatar mode, and an
-- upload that succeeds has an advertised type, and bytes and sides within the advertised limits.
abbrev pub IsAdvertised : Platform → ProfileCapabilitiesResponse → Service → Type 0
IsAdvertised p c s =
    (Profile.Operations.display_name_rules s
      ≡ (c.display_name.min_length, c.display_name.max_length))
    × (Profile.Operations.allowed_avatar_modes ≡ c.avatar_modes)
    × ((uid : Str) (input : UpdateInput) (version : Option ℤ) (now : ℤ) (q : CanonicalProfile)
        → (update p s uid input version now).result ≡ ok q
        → IsNamedWithin c.display_name.min_length c.display_name.max_length input.display_name
          × (contains c.avatar_modes input.avatar_mode ≡ true))
    × (upload : ProfileAvatarUploadRulesResponse) × (c.avatar_upload ≡ some upload)
    × (Profile.Operations.avatar_upload_rules s ≡ (
      upload.max_bytes,
      pos upload.max_width,
      pos upload.max_height,
      sort_strings upload.mime_types,
    ))
    × ((content_type content uuid : Str) (asset : AvatarAsset)
        → (upload_avatar p s content_type content uuid).1 ≡ ok asset
        → IsUploadWithin upload.max_bytes (pos upload.max_width) (pos upload.max_height)
            upload.mime_types content asset)

HasLimits-IsAdvertised :
    (p : Platform) (c : ProfileCapabilitiesResponse) (upload : ProfileAvatarUploadRulesResponse)
    (s : Service)
    → Profile.Operations.allowed_avatar_modes ≡ c.avatar_modes
    → c.avatar_upload ≡ some upload
    → HasLimits c upload s
    → IsAdvertised p c s
unfolding Profile.Operations.display_name_rules Profile.Operations.avatar_upload_rules
HasLimits-IsAdvertised p c upload s modes said (low, high, bytes, width, height, types) = (
  rw low (rw high refl),
  modes,
  λ uid input version now q h.
      rw (← modes) (rw (← low) (rw (← high) (update_within p s uid input version now q h))),
  upload,
  said,
  rw bytes (rw width (rw height (rw types refl))),
  λ content_type content uuid asset h.
      subst
        (λ b.
          IsUploadWithin b (pos upload.max_width) (pos upload.max_height) upload.mime_types content
            asset)
        bytes
        (subst
          (λ w.
            IsUploadWithin s.max_upload_bytes w (pos upload.max_height) upload.mime_types content
              asset)
          width
          (subst
            (λ v.
              IsUploadWithin s.max_upload_bytes s.max_image_width v upload.mime_types content asset)
            height
            (subst
              (λ t.
                IsUploadWithin s.max_upload_bytes s.max_image_width s.max_image_height t content
                  asset)
              types (upload_avatar_within p s content_type content uuid asset h)))),
)

-- What the capabilities of a configuration say of profiles.
abbrev pub advertised : Context → Config → ℤ → Option ProfileCapabilitiesResponse
advertised x cfg later =
    (Capabilities.Build.build x.platform x.urls x.info (Capabilities.Build.new_service cfg)
      later).profile

new-HasLimits :
    (x : Context) (cfg : Config) (now asked later : ℤ)
    → (c : ProfileCapabilitiesResponse) × (upload : ProfileAvatarUploadRulesResponse) × (advertised
          x cfg later
        ≡ some c)
      × (Profile.Operations.allowed_avatar_modes ≡ c.avatar_modes)
      × (c.avatar_upload ≡ some upload)
      × HasLimits c upload (rules_of (new_server x cfg now asked).profiles)
unfolding new_server Profile.Operations.set_broadcaster Profile.Operations.new_service
    Profile.Operations.allowed_avatar_modes Capabilities.Build.build str
new-HasLimits x cfg now asked later = (_, _, refl, refl, refl, (refl, refl, refl, refl, refl, refl))

-- After any history of requests to a new server, the limits on display names, avatar modes and
-- avatars that the server advertises, at whatever time it is asked, are those that the profile
-- service shows and enforces: an update that succeeds has a display name whose length in runes is
-- within them and a mode among them, and an upload that succeeds has a type among them, at least one
-- byte and at most as many as they say, and a width and a height from one to what they say.
pub run-new_server-IsAdvertised :
    (x : Context) (cfg : Config) (now asked later : ℤ) (requests : List Request)
    → (c : ProfileCapabilitiesResponse) × (advertised x cfg later ≡ some c)
      × IsAdvertised x.platform c (run x (new_server x cfg now asked) requests).profiles
run-new_server-IsAdvertised x cfg now asked later requests =
    let (c, upload, said, modes, told, limits) = new-HasLimits x cfg now asked later in
    let s = (run x (new_server x cfg now asked) requests).profiles in
    (
      c,
      said,
      HasLimits-IsAdvertised x.platform c upload s modes told (
          subst (HasLimits c upload) (sym (run-rules x (new_server x cfg now asked) requests))
            limits),
    )
