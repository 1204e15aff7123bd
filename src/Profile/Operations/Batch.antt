-- ===== src/Profile/Operations/Batch.antt =====
-- Which profiles BatchGet returns (internal/profile/service.go).
use openchat_backend.Profile.Operations.Consistent.{
  IsOwned, get_or_create_locked-IsOwned, locked_uid,
}
use openchat_backend.Profile.Operations.{batch_from, batch_get, get_or_create_locked, contains}
use openchat_backend.Profile.Defaults.{normalize_uid, clone_profile}
use openchat_backend.Profile.Types.{CanonicalProfile, Service}
use openchat_backend.Platform.{Platform}
use openchat_backend.Base.{
  ℕ, suc, ◌≡◌, refl, ap, ◌∙◌, inl, inr, ◌||◌, List, [], ◌∷◌, map, if◌then◌else◌, Bool-cases, is_nil,
  Str, ℤ,
}

-- The names that are not blank, without what follows their first occurrence or stands in `seen`.
unfoldable pub distinct : List Str → List Str → List Str
distinct seen [] = []
distinct seen (uid ∷ uids) =
    let skip = distinct seen uids in
    let rest = distinct (uid ∷ seen) uids in
    if is_nil uid || contains seen uid then skip else uid ∷ rest

clone_profile_uid : (q : CanonicalProfile) → (clone_profile q).user_uid ≡ q.user_uid
unfolding clone_profile
clone_profile_uid q = refl

batch_from-distinct :
    (p : Platform) (clock : ℕ → ℤ) (raws : List Str) (s : Service) (seen : List Str) (n : ℕ)
    → IsOwned s
    → map (λ (q : CanonicalProfile). q.user_uid) (batch_from p s seen clock n raws).1
      ≡ distinct seen (map normalize_uid raws)
unfolding batch_from distinct
batch_from-distinct p clock [] s seen n c = refl
batch_from-distinct p clock (raw ∷ raws) s seen n c =
    elim (Bool-cases (is_nil (normalize_uid raw) || contains seen (normalize_uid raw))) [
      | inl skip ↦
          rw (skip, batch_from, distinct) (batch_from-distinct p clock raws s seen (suc n) c)
      | inr fresh ↦
          rw (fresh, batch_from, distinct)
            (ap
                (λ x.
                  x
                  ∷ map (λ (q : CanonicalProfile). q.user_uid)
                      (batch_from p (get_or_create_locked p s (normalize_uid raw) (clock n)).0
                        (normalize_uid raw ∷ seen) clock (suc n) raws).1)
                (clone_profile_uid (get_or_create_locked p s (normalize_uid raw) (clock n)).1
                  ∙ locked_uid p s (normalize_uid raw) (clock n) c)
              ∙ ap (λ xs. normalize_uid raw ∷ xs)
                  (batch_from-distinct p clock raws
                    (get_or_create_locked p s (normalize_uid raw) (clock n)).0
                    (normalize_uid raw ∷ seen) (suc n)
                    (get_or_create_locked-IsOwned p s (normalize_uid raw) (clock n) c)))
    ]

-- Where every profile stands under its own user, BatchGet returns one profile for each user that is
-- named, in the order in which the trimmed names first occur, and none for a blank name.
pub batch_get-distinct :
    (p : Platform) (s : Service) (uids : List Str) (clock : ℕ → ℤ)
    → IsOwned s
    → map (λ (q : CanonicalProfile). q.user_uid) (batch_get p s uids clock).1
      ≡ distinct [] (map normalize_uid uids)
unfolding batch_get
batch_get-distinct p s uids clock c = batch_from-distinct p clock uids s [] 0 c
