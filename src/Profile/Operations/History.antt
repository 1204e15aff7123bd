-- ===== src/Profile/Operations/History.antt =====
-- Histories of calls of internal/profile/service.go that change its state.
use openchat_backend.Profile.Operations.Consistent.{
  IsConsistent, get_or_create_locked-IsConsistent, update-IsConsistent, batch_from-IsConsistent,
  same_profiles-IsConsistent, upload_avatar-IsConsistent,
}
use openchat_backend.Profile.Operations.{
  get_or_create, batch_get, upload_avatar, update, set_broadcaster, new_service,
}
use openchat_backend.Profile.Defaults.{normalize_uid}
use openchat_backend.Profile.Types.{Service, UpdateInput, Broadcaster}
use openchat_backend.Platform.{Platform}
use openchat_backend.Base.{ℕ, refl, Option, List, [], ◌∷◌, Str, ℤ}
use openchat_backend.Base.Map.{lookup}

-- The calls that can change the state.
pub data Call : Type 0 where
  get : (uid : Str) → (now : ℤ) → Call
  batch : (uids : List Str) → (clock : ℕ → ℤ) → Call
  upload : (content_type content uuid : Str) → Call
  change : (uid : Str) → UpdateInput → Option ℤ → (now : ℤ) → Call
  broadcast_to : Option Broadcaster → Call

unfoldable pub step : Platform → Service → Call → Service
step p s (get uid now) = (get_or_create p s uid now).0
step p s (batch uids clock) = (batch_get p s uids clock).0
step p s (upload content_type content uuid) = (upload_avatar p s content_type content uuid).0
step p s (change uid input expected now) = (update p s uid input expected now).state
step p s (broadcast_to b) = set_broadcaster s b

unfoldable pub run : Platform → Service → List Call → Service
unfolding step
run p s [] = s
run p s (c ∷ cs) = run p (step p s c) cs

step-IsConsistent :
    (p : Platform) (s : Service) (c : Call) → IsConsistent s → IsConsistent (step p s c)
unfolding step get_or_create batch_get set_broadcaster
step-IsConsistent p s (get uid now) h =
    get_or_create_locked-IsConsistent p s (normalize_uid uid) now h
step-IsConsistent p s (batch uids clock) h = batch_from-IsConsistent p s [] clock 0 uids h
step-IsConsistent p s (upload content_type content uuid) h =
    upload_avatar-IsConsistent p s content_type content uuid h
step-IsConsistent p s (change uid input expected now) h =
    update-IsConsistent p s uid input expected now h
step-IsConsistent p s (broadcast_to b) h = same_profiles-IsConsistent s _ refl refl refl h

run-IsConsistent :
    (p : Platform) (s : Service) (cs : List Call) → IsConsistent s → IsConsistent (run p s cs)
unfolding run
run-IsConsistent p s [] h = h
run-IsConsistent p s (c ∷ cs) h = run-IsConsistent p (step p s c) cs (step-IsConsistent p s c h)

pub new_service-IsConsistent : (url server_id : Str) → IsConsistent (new_service url server_id)
unfolding new_service lookup
new_service-IsConsistent url server_id = record {
  own = λ v q h. absurd (cc h);
  fits = λ v q h. absurd (cc h);
  avatars = λ id blob h. absurd (cc h);
}

-- After any history of calls on a new service, each profile stands under its own user; and it has
-- either the generated mode, with a preset and no asset and no URL, or the uploaded mode, with no
-- preset, the name of an asset that the service stores and the URL of that asset, each without the
-- spaces around it; and every asset is stored with the URL that its name and the base URL give.
pub run-new_service-IsConsistent :
    (p : Platform) (url server_id : Str) (cs : List Call)
    → IsConsistent (run p (new_service url server_id) cs)
run-new_service-IsConsistent p url server_id cs =
    run-IsConsistent p _ cs (new_service-IsConsistent url server_id)
