-- ===== src/Base/Map.antt =====
-- Go maps with string keys: association lists with one entry for each key.
use openchat_backend.Base.{All, Bool-cases}
use openchat_backend.Base.Tests.{if◌then◌else◌}
use openchat_backend.Base.Bytes.{Str, ◌==◌, ==_iff, ==_refl}
use mathlib.Core.Path.{◌≡◌, refl, subst}
use mathlib.Core.Logic.{◌≢◌, inl, inr}
use mathlib.Core.Option.{Option, none, some}
use mathlib.Core.List.{List, [], ◌∷◌}
use native.Mathlib.Omega.{arith}

abbrev pub Map {ℓ} : Type ℓ → Type ℓ
Map V = List (Str × V)

module _ {ℓ} {V : Type ℓ} where
  unfoldable pub lookup : Str → Map V → Option V
  lookup key [] = none
  lookup key (entry ∷ rest) = if entry.0 == key then some entry.1 else lookup key rest

  -- The value of a key that is there is replaced where it stands.
  unfoldable pub insert : Str → V → Map V → Map V
  insert key value [] = (key, value) ∷ []
  insert key value (entry ∷ rest) =
      let more = insert key value rest in
      if entry.0 == key then (key, value) ∷ rest else entry ∷ more

  unfoldable pub delete : Str → Map V → Map V
  delete k [] = []
  delete k ((j, w) ∷ m) = if j == k then delete k m else (j, w) ∷ delete k m

  -- The value at a key, or the zero value of the type.
  abbrev pub get_or : Str → Map V → V → V
  get_or k m d = elim (lookup k m) [ none ↦ d | some v ↦ v ]

  -- What is read after a value was written at `key`.
  pub lookup-insert :
      (key other : Str) (value : V) (entries : Map V)
      → lookup other (insert key value entries)
        ≡ (if key == other then some value else lookup other entries)
  unfolding lookup insert
  lookup-insert key other value [] = refl
  lookup-insert key other value (entry ∷ rest) = ground (
    arith,
    lookup-insert key other value rest,
    ==_iff entry.0 key,
    ==_iff entry.0 other,
    ==_iff key other,
  )

  pub lookup-delete :
      (k j : Str) (m : Map V) → lookup j (delete k m) ≡ (if k == j then none else lookup j m)
  unfolding lookup delete
  lookup-delete k j [] = ground arith
  lookup-delete k j ((i, w) ∷ m) =
      ground (arith, ==_iff k j, ==_iff i k, ==_iff i j, lookup-delete k j m)

  pub lookup-insert_self :
      (key : Str) (value : V) (entries : Map V) → lookup key (insert key value entries) ≡ some value
  lookup-insert_self key value entries = rw (lookup-insert key key value entries, ==_refl key)

  pub lookup-insert_ne :
      (key other : Str) (value : V) (entries : Map V)
      → key ≢ other
      → lookup other (insert key value entries) ≡ lookup other entries
  lookup-insert_ne key other value entries h =
      ground (arith, lookup-insert key other value entries, ==_iff key other)

  pub get_or-insert_self : (k : Str) (v d : V) (m : Map V) → get_or k (insert k v m) d ≡ v
  get_or-insert_self k v d m = ground (arith, lookup-insert_self k v m)

  pub get_or-insert_ne :
      (k j : Str) (v d : V) (m : Map V) → j ≢ k → get_or j (insert k v m) d ≡ get_or j m d
  get_or-insert_ne k j v d m h = ground (arith, lookup-insert k j v m, ==_iff k j)

  -- What holds of every entry, and of the zero value, holds of what is read.
  pub get_or-All {κ} :
      (P : Str → V → Type κ) (m : Map V) (d : V)
      → All (λ e. P e.0 e.1) m
      → ((k : Str) → P k d)
      → (k : Str) → P k (get_or k m d)
  unfolding lookup
  get_or-All P [] d h z k = z k
  get_or-All P ((j, v) ∷ m) d (q, h) z k = elim (Bool-cases (j == k)) [
    | inl e ↦ rw (e, get_or) (subst (λ i. P i v) ((==_iff j k).0 e) q)
    | inr n ↦ rw (n, get_or) (get_or-All P m d h z k)
  ]
