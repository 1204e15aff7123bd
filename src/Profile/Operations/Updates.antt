-- ===== src/Profile/Operations/Updates.antt =====
-- What Update of internal/profile/service.go does to the profiles.
use openchat_backend.Profile.Operations.{
  choose_avatar, Service, get_or_create_locked, CanonicalProfile, UpdateInput, default_profile,
  normalize_uid, trim_space, Outcome, update, Error, display_name_invalid, failed,
  validate_display_name, is_stale, save_profile, profile_conflict,
}
use openchat_backend.Platform.{Platform}
use openchat_backend.Base.{
  ◌≡◌, refl, ap, ◌∙◌, some_eq, sym, ◌≢◌, inl, inr, true, false, Option, some, arith, Bool-cases,
  is_nil, Str, ==_iff, ℤ, int_suc, ok, Result-cases, Option-cases, ◌⊎◌, none, ◌∙◌, ==_cases, ap,
}
use openchat_backend.Base.Map.{lookup, lookup-insert, lookup-insert_self}

module _ (p : Platform) (s : Service) (user_uid : Str) (now : ℤ) where
  pub lookup-get_or_create_locked :
      lookup user_uid (get_or_create_locked p s user_uid now).0.profiles_by_uid
      ≡ some (get_or_create_locked p s user_uid now).1
  unfolding get_or_create_locked
  lookup-get_or_create_locked =
      ground (arith, lookup-insert_self user_uid (default_profile p user_uid now) s.profiles_by_uid)

  pub lookup-get_or_create_locked_ne :
      (v : Str)
      → v ≢ user_uid
      → lookup v (get_or_create_locked p s user_uid now).0.profiles_by_uid
        ≡ lookup v s.profiles_by_uid
  unfolding get_or_create_locked
  lookup-get_or_create_locked_ne v d = ground (
    arith,
    lookup-insert user_uid v (default_profile p user_uid now) s.profiles_by_uid,
    ==_iff user_uid v,
    λ (e : user_uid ≡ v). d (sym e),
  )

  -- Making a profile changes the profiles only.
  pub get_or_create_locked-keeps :
      (get_or_create_locked p s user_uid now).0
      ≡ record s { profiles_by_uid = (get_or_create_locked p s user_uid now).0.profiles_by_uid }
  unfolding get_or_create_locked
  get_or_create_locked-keeps = ground arith

  -- Every profile that was there is unchanged, another one is the default profile of this user, who
  -- had none, and the rest of the service is as before.
  abbrev pub SameButDefault : Service → Type 0
  SameButDefault t =
      (t ≡ record s { profiles_by_uid = t.profiles_by_uid })
      × ((v : Str) (q : CanonicalProfile)
          → lookup v s.profiles_by_uid ≡ some q
          → lookup v t.profiles_by_uid ≡ some q)
      × ((v : Str) (q : CanonicalProfile)
          → lookup v t.profiles_by_uid ≡ some q
          → (lookup v s.profiles_by_uid ≡ some q)
            ⊎ ((v ≡ user_uid)
                × (lookup v s.profiles_by_uid ≡ none)
                × (q ≡ default_profile p user_uid now)))

  pub unchanged-SameButDefault : SameButDefault s
  unchanged-SameButDefault = (refl, λ v q h. h, λ v q h. inl h)

  pub get_or_create_locked-SameButDefault : SameButDefault (get_or_create_locked p s user_uid now).0
  unfolding get_or_create_locked
  get_or_create_locked-SameButDefault = elim (Option-cases (lookup user_uid s.profiles_by_uid)) [
    | inr (q, e) ↦ rw (e, get_or_create_locked) unchanged-SameButDefault
    | inl e ↦ (
      get_or_create_locked-keeps,
      λ v q h. lookup-get_or_create_locked_ne v (λ (same : v ≡ user_uid). absurd (cc h)) ∙ h,
      λ v q h. elim (==_cases v user_uid) [
        | inl same ↦ inr (
          same,
          ap (λ u. lookup u s.profiles_by_uid) same ∙ e,
          some_eq (
                sym h
                ∙ ap (λ u. lookup u (get_or_create_locked p s user_uid now).0.profiles_by_uid) same
                ∙ lookup-get_or_create_locked)
              ∙ rw (e, get_or_create_locked) refl,
        )
        | inr other ↦ inl (sym (lookup-get_or_create_locked_ne v other) ∙ h)
      ],
    )
  ]

  -- A profile that is there is returned as it is, and nothing changes.
  pub get_or_create_locked_old :
      (profile : CanonicalProfile)
      → lookup user_uid s.profiles_by_uid ≡ some profile
      → get_or_create_locked p s user_uid now ≡ (s, profile)
  unfolding get_or_create_locked
  get_or_create_locked_old profile h = rw (h, get_or_create_locked)

pub choose_avatar_ok :
    (s : Service) (profile : CanonicalProfile) (input : UpdateInput) (chosen : CanonicalProfile)
    → choose_avatar s profile input ≡ ok chosen
    → (chosen.user_uid ≡ profile.user_uid)
      × (chosen.display_name ≡ profile.display_name)
      × (chosen.avatar_mode ≡ profile.avatar_mode)
      × (chosen.profile_version ≡ profile.profile_version)
unfolding choose_avatar
choose_avatar_ok s profile input chosen h = (ground arith, ground arith, ground arith, ground arith)

module _ (p : Platform) (s : Service) (raw_uid : Str) (input : UpdateInput)
    (expected_version : Option ℤ) (now : ℤ) where
  abbrev user : Str
  user = normalize_uid raw_uid

  abbrev pub old_profile : CanonicalProfile
  old_profile = (get_or_create_locked p s (normalize_uid raw_uid) now).1

  abbrev made : Service
  made = (get_or_create_locked p s (normalize_uid raw_uid) now).0

  abbrev renamed : CanonicalProfile
  renamed = record old_profile {
    display_name = trim_space input.display_name;
    avatar_mode = input.avatar_mode;
  }

  abbrev saved_profile : CanonicalProfile → CanonicalProfile
  saved_profile chosen = record chosen {
    profile_version = int_suc chosen.profile_version;
    updated_at = p.rfc3339 now;
  }

  -- The ways in which a call ends. A refused call may have made the default profile.
  pub data Ends (o : Outcome) : Type 0 where
    refused_early : (e : Error) → o ≡ failed s e → Ends o
    refused : (e : Error) → o ≡ failed made e → Ends o
    saved :
        (chosen : CanonicalProfile)
        → is_nil user ≡ false
        → validate_display_name p s (trim_space input.display_name) ≡ true
        → is_stale expected_version old_profile.profile_version ≡ false
        → choose_avatar made renamed input ≡ ok chosen
        → o ≡ save_profile made user (saved_profile chosen)
        → Ends o

  pub update-Ends : Ends (update p s raw_uid input expected_version now)
  unfolding update
  update-Ends = elim (Bool-cases (is_nil user)) [
    | inl blank ↦ refused_early display_name_invalid (rw (blank, update))
    | inr named ↦ elim (Bool-cases (validate_display_name p s (trim_space input.display_name))) [
      | inr bad ↦ refused_early display_name_invalid (rw (named, update) (rw (bad, update)))
      | inl good ↦ elim (Bool-cases (is_stale expected_version old_profile.profile_version)) [
        | inl stale ↦
            refused profile_conflict (rw (named, update) (rw (good, update) (rw (stale, update))))
        | inr fresh ↦ elim (Result-cases (choose_avatar made renamed input)) [
          | inl (chosen, e) ↦
              saved chosen named good fresh e
                (rw (named, update) (rw (good, update) (rw (fresh, update) (rw (e, update)))))
          | inr (e, d) ↦
              refused e
                (rw (named, update) (rw (good, update) (rw (fresh, update) (rw (d, update)))))
        ]
      ]
    ]
  ]
