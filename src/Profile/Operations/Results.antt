-- ===== src/Profile/Operations/Results.antt =====
-- What Update of internal/profile/service.go returns, and what GetOrCreate shows afterwards.
use openchat_backend.Profile.Operations.Updates.{
  get_or_create_locked_old, old_profile, update-Ends, refused_early, refused, saved,
  choose_avatar_ok, lookup-get_or_create_locked_ne, get_or_create_locked-keeps, SameButDefault,
  unchanged-SameButDefault, get_or_create_locked-SameButDefault,
}
use openchat_backend.Platform.{Platform}
use openchat_backend.Profile.Defaults.{clone_profile, normalize_uid, validate_display_name}
use openchat_backend.Profile.Types.{CanonicalProfile}
use openchat_backend.Profile.Operations.{
  get_or_create, save_profile, Error, Service, UpdateInput, Outcome, get_or_create_locked, update,
  trim_space, is_stale, to_broadcaster, profile_conflict,
}
use openchat_backend.Base.{
  ◌≡◌, refl, sym, ap, ◌∙◌, ◌≢◌, true, false, not, Option, none, some, arith, is_nil, Str, ℤ, pos,
  negsuc, eqb_ℤ, int_suc, Result, ok, err, eqb_ℤ→eq, subst,
}
use openchat_backend.Base.Map.{lookup, insert, lookup-insert_self, lookup-insert_ne}

-- After a profile is saved GetOrCreate returns it.
get_or_create-save_profile :
    (p : Platform) (s : Service) (raw_uid : Str) (profile : CanonicalProfile) (later : ℤ)
    → (get_or_create p (save_profile s (normalize_uid raw_uid) profile).state raw_uid later).1
      ≡ clone_profile profile
unfolding get_or_create save_profile
get_or_create-save_profile p s raw_uid profile later =
    ap (λ (x : Service × CanonicalProfile). clone_profile x.1)
      (get_or_create_locked_old p
        (record s { profiles_by_uid = insert (normalize_uid raw_uid) profile s.profiles_by_uid })
        (normalize_uid raw_uid) later profile
        (lookup-insert_self (normalize_uid raw_uid) profile s.profiles_by_uid))

ok-injective :
    {m n : CanonicalProfile} → ◌≡◌ {A = Result Error CanonicalProfile} (ok m) (ok n) → m ≡ n
ok-injective h = cc

save_profile_lem :
    (s : Service) (user_uid : Str) (profile : CanonicalProfile)
    → ((save_profile s user_uid profile).result ≡ ok (clone_profile profile))
      × ((save_profile s user_uid profile).broadcast
          ≡ to_broadcaster s.broadcaster (clone_profile profile))
      × ((v : Str)
          → v ≢ user_uid
          → lookup v (save_profile s user_uid profile).state.profiles_by_uid
            ≡ lookup v s.profiles_by_uid)
unfolding save_profile
save_profile_lem s user_uid profile =
    (refl, refl, λ v d. lookup-insert_ne user_uid v profile s.profiles_by_uid (λ e. d (sym e)))

-- What a copy keeps.
clone_profile_keeps :
    (q : CanonicalProfile)
    → ((clone_profile q).user_uid ≡ q.user_uid)
      × ((clone_profile q).display_name ≡ q.display_name)
      × ((clone_profile q).avatar_mode ≡ q.avatar_mode)
      × ((clone_profile q).profile_version ≡ q.profile_version)
      × ((clone_profile q).updated_at ≡ q.updated_at)
unfolding clone_profile
clone_profile_keeps q = (refl, refl, refl, refl, refl)

module _ (p : Platform) (s : Service) (raw_uid : Str) (input : UpdateInput)
    (expected_version : Option ℤ) (now : ℤ) where
  abbrev call : Outcome
  call = update p s raw_uid input expected_version now

  abbrev old : CanonicalProfile
  old = old_profile p s raw_uid input expected_version now

  -- A call that succeeds had a valid display name and no stale version; the profile that it returns
  -- is what GetOrCreate returns from then on, with the trimmed name and the mode of the input, the
  -- next version and the time of the call; the other users' profiles are as before; and the
  -- broadcaster gets the profile if one is set.
  pub update_saved :
      (q : CanonicalProfile) (later : ℤ)
      → call.result ≡ ok q
      → (validate_display_name p s (trim_space input.display_name) ≡ true)
        × (is_stale expected_version old.profile_version ≡ false)
        × ((get_or_create p call.state raw_uid later).1 ≡ q)
        × (q.user_uid ≡ old.user_uid)
        × (q.display_name ≡ trim_space input.display_name)
        × (q.avatar_mode ≡ input.avatar_mode)
        × (q.profile_version ≡ int_suc old.profile_version)
        × (q.updated_at ≡ p.rfc3339 now)
        × ((v : Str)
            → v ≢ normalize_uid raw_uid
            → lookup v call.state.profiles_by_uid ≡ lookup v s.profiles_by_uid)
        × (call.broadcast ≡ to_broadcaster s.broadcaster q)
  update_saved q later h = elim (update-Ends p s raw_uid input expected_version now) [
    | refused_early e o ↦ absurd (cc (sym (ap (λ (x : Outcome). x.result) o) ∙ h))
    | refused e o ↦ absurd (cc (sym (ap (λ (x : Outcome). x.result) o) ∙ h))
    | saved chosen named good fresh c o ↦
        let sp : CanonicalProfile = record chosen {
          profile_version = int_suc chosen.profile_version;
          updated_at = p.rfc3339 now;
        } in
        let t = (get_or_create_locked p s (normalize_uid raw_uid) now).0 in
        let (result, told, others) = save_profile_lem t (normalize_uid raw_uid) sp in
        let same : clone_profile sp ≡ q =
          ok-injective (sym (ap (λ (x : Outcome). x.result) o ∙ result) ∙ h) in
        let (uid, name, mode, version, at) = clone_profile_keeps sp in
        let (uid', name', mode', version') = choose_avatar_ok t _ input chosen c in
        (
          good,
          fresh,
          ap (λ (x : Outcome). (get_or_create p x.state raw_uid later).1) o
              ∙ get_or_create-save_profile p t raw_uid sp later
              ∙ same,
          ap (λ (x : CanonicalProfile). x.user_uid) (sym same) ∙ uid ∙ uid',
          ap (λ (x : CanonicalProfile). x.display_name) (sym same) ∙ name ∙ name',
          ap (λ (x : CanonicalProfile). x.avatar_mode) (sym same) ∙ mode ∙ mode',
          ap (λ (x : CanonicalProfile). x.profile_version) (sym same)
              ∙ version
              ∙ ap int_suc version',
          ap (λ (x : CanonicalProfile). x.updated_at) (sym same) ∙ at,
          λ v d.
              ap (λ (x : Outcome). lookup v x.state.profiles_by_uid) o
              ∙ others v d
              ∙ lookup-get_or_create_locked_ne p s (normalize_uid raw_uid) now v d,
          ap (λ (x : Outcome). x.broadcast) o
              ∙ told
              ∙ ap (to_broadcaster t.broadcaster) same
              ∙ ap (λ (x : Service). to_broadcaster x.broadcaster q)
                  (get_or_create_locked-keeps p s (normalize_uid raw_uid) now),
        )
  ]

  -- After a call that fails every profile that was there is as it was, another one is the default
  -- profile of the call's user, who had none, the rest of the service is as before, and nothing is
  -- broadcast.
  pub update_refused :
      (e : Error)
      → call.result ≡ err e
      → SameButDefault p s (normalize_uid raw_uid) now call.state × (call.broadcast ≡ none)
  update_refused e h = elim (update-Ends p s raw_uid input expected_version now) [
    | refused_early e o ↦ (
      subst (λ (x : Outcome). SameButDefault p s (normalize_uid raw_uid) now x.state) (sym o)
          (unchanged-SameButDefault p s (normalize_uid raw_uid) now),
      ap (λ (x : Outcome). x.broadcast) o,
    )
    | refused e o ↦ (
      subst (λ (x : Outcome). SameButDefault p s (normalize_uid raw_uid) now x.state) (sym o)
          (get_or_create_locked-SameButDefault p s (normalize_uid raw_uid) now),
      ap (λ (x : Outcome). x.broadcast) o,
    )
    | saved chosen named good fresh c o ↦
        absurd (unfold save_profile in (cc (sym (ap (λ (x : Outcome). x.result) o) ∙ h)))
  ]

int_suc-ne : (v : ℤ) → eqb_ℤ (int_suc v) v ≡ false
unfolding int_suc
int_suc-ne (pos n) = ground arith
int_suc-ne (negsuc n) = ground arith

update_stale :
    (p : Platform) (s : Service) (raw_uid : Str) (input : UpdateInput) (expected : Option ℤ)
    (now : ℤ)
    → is_nil (normalize_uid raw_uid) ≡ false
    → validate_display_name p s (trim_space input.display_name) ≡ true
    → is_stale expected (get_or_create_locked p s (normalize_uid raw_uid) now).1.profile_version
      ≡ true
    → (update p s raw_uid input expected now).result ≡ err profile_conflict
unfolding update
update_stale p s raw_uid input expected now named good stale =
    rw (named, update) (rw (good, update) (rw (stale, update)))

update_named :
    (p : Platform) (s : Service) (raw_uid : Str) (input : UpdateInput) (expected : Option ℤ)
    (now : ℤ) (q : CanonicalProfile)
    → (update p s raw_uid input expected now).result ≡ ok q
    → is_nil (normalize_uid raw_uid) ≡ false
update_named p s raw_uid input expected now q h =
    elim (update-Ends p s raw_uid input expected now) [
      | refused_early e o ↦ absurd (cc (sym (ap (λ (x : Outcome). x.result) o) ∙ h))
      | refused e o ↦ absurd (cc (sym (ap (λ (x : Outcome). x.result) o) ∙ h))
      | saved chosen named good fresh c o ↦ named
    ]

-- After a version was expected and met, the next one is stale for it.
stale_next :
    (expected old new : ℤ)
    → is_stale (some expected) old ≡ false
    → new ≡ int_suc old
    → is_stale (some expected) new ≡ true
stale_next expected old new h e =
    rw e (rw (← eqb_ℤ→eq old expected (ground arith)) (ap not (int_suc-ne old)))

locked_version :
    (p : Platform) (s : Service) (raw_uid : Str) (now : ℤ)
    → (get_or_create_locked p s (normalize_uid raw_uid) now).1.profile_version
      ≡ (get_or_create p s raw_uid now).1.profile_version
unfolding get_or_create clone_profile
locked_version p s raw_uid now = refl

-- Of two updates that expect the same version the second is refused as a conflict, if the first
-- succeeded, no other call came between and the second has a valid display name.
pub update_conflict :
    (p : Platform) (s : Service) (raw_uid : Str) (first second : UpdateInput)
    (version now later : ℤ) (q : CanonicalProfile)
    → (update p s raw_uid first (some version) now).result ≡ ok q
    → validate_display_name p
        (update p s raw_uid first (some version) now).state
        (trim_space second.display_name)
      ≡ true
    → (update p
        (update p s raw_uid first (some version) now).state
        raw_uid
        second
        (some version)
        later).result
      ≡ err profile_conflict
update_conflict p s raw_uid first second version now later q h valid =
    let (_, fresh, kept, _, _, _, next, _, _, _) =
      update_saved p s raw_uid first (some version) now q later h in
    let after = (update p s raw_uid first (some version) now).state in
    update_stale p after raw_uid second (some version) later
      (update_named p s raw_uid first (some version) now q h) valid
      (stale_next version _ _ fresh (
        locked_version p after raw_uid later
        ∙ ap (λ (x : CanonicalProfile). x.profile_version) kept
        ∙ next))
