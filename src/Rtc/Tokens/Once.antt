-- ===== src/Rtc/Tokens/Once.antt =====
-- A join ticket is accepted at most once (internal/rtc/token_service.go).
use openchat_backend.Rtc.Tokens.{
  drop_expired, gc_used_jtis, TokenService, consume, unix, Codec, TicketClaims, parse_parts,
  parse_and_consume, expired_ticket, check_signature, split, replay_ticket, sign,
}
use openchat_backend.Base.{
  ◌≡◌, refl, ap, ◌∙◌, ◌⊎◌, inl, inr, some, List, [], ◌∷◌, arith, if◌then◌else◌, Str, ==_iff, ℤ, pos,
  negsuc, ◌≤ℤ◌, ◌<ℤ◌, leb_ℤ, floor_div, ok, err, Result-cases,
}
use openchat_backend.Base.Map.{Map, lookup, lookup-insert, lookup-insert_self}

lookup-drop_expired :
    (now_unix : ℤ) (used : Map ℤ) (jti : Str) (exp : ℤ)
    → lookup jti used ≡ some exp
    → now_unix <ℤ exp
    → lookup jti (drop_expired now_unix used) ≡ some exp
unfolding lookup drop_expired
lookup-drop_expired now_unix [] jti exp h l = h
lookup-drop_expired now_unix ((j, e) ∷ used) jti exp h l =
    ground (arith, lookup-drop_expired now_unix used jti exp)

-- Collecting keeps what has not expired.
lookup-gc_used_jtis :
    (s : TokenService) (now_unix : ℤ) (jti : Str) (exp : ℤ)
    → lookup jti s.used_jtis ≡ some exp
    → now_unix <ℤ exp
    → lookup jti (gc_used_jtis s now_unix).used_jtis ≡ some exp
unfolding gc_used_jtis
lookup-gc_used_jtis s now_unix jti exp h l =
    ground (arith, lookup-drop_expired now_unix s.used_jtis jti exp)

gc_used_jtis-secret :
    (s : TokenService) (now_unix : ℤ) → (gc_used_jtis s now_unix).secret ≡ s.secret
unfolding gc_used_jtis
gc_used_jtis-secret s now_unix = ground arith

-- A use is remembered until it expires.
abbrev Remembers : TokenService → Str → ℤ → ℤ → Type 0
Remembers s jti exp now_unix = (exp ≤ℤ now_unix) ⊎ (lookup jti s.used_jtis ≡ some exp)

consume-Remembers :
    (s : TokenService) (claims : TicketClaims) (jti : Str) (exp before now_unix : ℤ)
    → before ≤ℤ now_unix
    → Remembers s jti exp before
    → Remembers (consume s claims now_unix).0 jti exp now_unix
unfolding consume
consume-Remembers s claims jti exp before now_unix h (inl gone) = inl (omega arith)
consume-Remembers s claims jti exp before now_unix h (inr kept) = ground (
  arith,
  lookup-gc_used_jtis s now_unix jti exp kept,
  lookup-insert claims.jti jti claims.expires_at (gc_used_jtis s now_unix).used_jtis,
  ==_iff claims.jti jti,
)

consume-secret :
    (s : TokenService) (claims : TicketClaims) (now_unix : ℤ)
    → (consume s claims now_unix).0.secret ≡ s.secret
unfolding consume
consume-secret s claims now_unix = ground (arith, gc_used_jtis-secret s now_unix)

consume_accepts :
    (s : TokenService) (claims : TicketClaims) (now_unix : ℤ) (c : TicketClaims)
    → (consume s claims now_unix).1 ≡ ok c
    → (claims ≡ c)
      × (now_unix <ℤ c.expires_at)
      × (lookup c.jti (consume s claims now_unix).0.used_jtis ≡ some c.expires_at)
unfolding consume
consume_accepts s claims now_unix c h =
    ground
      (arith, lookup-insert_self claims.jti claims.expires_at (gc_used_jtis s now_unix).used_jtis)

consume_again :
    (s : TokenService) (claims : TicketClaims) (before now_unix : ℤ)
    → before ≤ℤ now_unix
    → Remembers s claims.jti claims.expires_at before
    → (consume s claims now_unix).1
      ≡ (if leb_ℤ claims.expires_at now_unix then err expired_ticket else err replay_ticket)
unfolding consume
consume_again s claims before now_unix h (inl gone) = ground arith
consume_again s claims before now_unix h (inr kept) =
    ground (arith, lookup-gc_used_jtis s now_unix claims.jti claims.expires_at kept)

unix_mono : (t u : ℤ) → t ≤ℤ u → unix t ≤ℤ unix u
unfolding floor_div
unix_mono (pos t) (pos u) h = omega arith
unix_mono (pos t) (negsuc u) h = omega arith
unix_mono (negsuc t) (pos u) h = omega arith
unix_mono (negsuc t) (negsuc u) h = omega arith

module _ (codec : Codec) where
  pub parse_parts_same :
      (s t : TokenService) (parts : List Str)
      → t.secret ≡ s.secret
      → parse_parts codec t parts ≡ parse_parts codec s parts
  unfolding parse_parts check_signature sign
  parse_parts_same s t parts h = rw h

  -- Calls of ParseAndConsume, each with its time.
  unfoldable pub run : TokenService → List (Str × ℤ) → TokenService
  run s [] = s
  run s ((ticket, now) ∷ calls) = run (parse_and_consume codec s ticket now).0 calls

  -- The clock does not go back: no time of a call is before the one before it.
  abbrev pub IsOrdered : ℤ → List (Str × ℤ) → ℤ → Type 0
  IsOrdered t [] u = t ≤ℤ u
  IsOrdered t ((ticket, now) ∷ calls) u = (t ≤ℤ now) × IsOrdered now calls u

  step-Remembers :
      (s : TokenService) (ticket jti : Str) (exp before now : ℤ)
      → before ≤ℤ now
      → Remembers s jti exp (unix before)
      → Remembers (parse_and_consume codec s ticket now).0 jti exp (unix now)
  unfolding parse_and_consume
  step-Remembers s ticket jti exp before now h r =
      elim (Result-cases (parse_parts codec s (split b'.' ticket))) [
        | inl (claims, e) ↦
            rw (e, parse_and_consume)
              (consume-Remembers s claims jti exp (unix before) (unix now) (unix_mono before now h)
                r)
        | inr (e, d) ↦ rw (d, parse_and_consume) (later r)
      ]
    where
      later : Remembers s jti exp (unix before) → Remembers s jti exp (unix now)
      later (inl gone) = inl (omega (arith, unix_mono before now h))
      later (inr kept) = inr kept

  step-secret :
      (s : TokenService) (ticket : Str) (now : ℤ)
      → (parse_and_consume codec s ticket now).0.secret ≡ s.secret
  unfolding parse_and_consume
  step-secret s ticket now = elim (Result-cases (parse_parts codec s (split b'.' ticket))) [
    | inl (claims, e) ↦ rw (e, parse_and_consume) (consume-secret s claims (unix now))
    | inr (e, d) ↦ rw (d, parse_and_consume)
  ]

  run-Remembers :
      (s : TokenService) (calls : List (Str × ℤ)) (jti : Str) (exp t u : ℤ)
      → IsOrdered t calls u
      → Remembers s jti exp (unix t)
      → Remembers (run s calls) jti exp (unix u) × ((run s calls).secret ≡ s.secret)
  unfolding run
  run-Remembers s [] jti exp t u h (inl gone) = (inl (omega (arith, unix_mono t u h)), refl)
  run-Remembers s [] jti exp t u h (inr kept) = (inr kept, refl)
  run-Remembers s ((ticket, now) ∷ calls) jti exp t u (h, later) r =
      let (kept, same) =
        run-Remembers (parse_and_consume codec s ticket now).0 calls jti exp now u later
          (step-Remembers s ticket jti exp t now h r) in
      (kept, same ∙ step-secret s ticket now)

  pub accepted :
      (s : TokenService) (ticket : Str) (now : ℤ) (claims : TicketClaims)
      → (parse_and_consume codec s ticket now).1 ≡ ok claims
      → (parse_parts codec s (split b'.' ticket) ≡ ok claims)
        × (unix now <ℤ claims.expires_at)
        × (lookup claims.jti (parse_and_consume codec s ticket now).0.used_jtis
            ≡ some claims.expires_at)
  unfolding parse_and_consume
  accepted s ticket now claims h = elim (Result-cases (parse_parts codec s (split b'.' ticket))) [
    | inl (c, e) ↦
        let (same, early, kept) =
          consume_accepts s c (unix now) claims (rw (e, parse_and_consume) at h) in
        (e ∙ ap ok same, early, rw (e, parse_and_consume) kept)
    | inr (e, d) ↦ absurd (cc (rw (d, parse_and_consume) at h))
  ]

  -- Once a ticket has been accepted it is never accepted again: after any calls since, and while the
  -- clock does not go back, it is refused as expired from its expiry on and as replayed before.
  pub parse_and_consume_once :
      (s : TokenService) (ticket : Str) (claims : TicketClaims) (t u : ℤ) (calls : List (Str × ℤ))
      → (parse_and_consume codec s ticket t).1 ≡ ok claims
      → IsOrdered t calls u
      → (parse_and_consume codec (run (parse_and_consume codec s ticket t).0 calls) ticket u).1
        ≡ (if leb_ℤ claims.expires_at (unix u) then err expired_ticket else err replay_ticket)
  unfolding parse_and_consume
  parse_and_consume_once s ticket claims t u calls h ordered =
      let (parsed, _, kept) = accepted s ticket t claims h in
      let (remembered, same) =
        run-Remembers (parse_and_consume codec s ticket t).0 calls claims.jti claims.expires_at t u
          ordered (inr kept) in
      refused (run (parse_and_consume codec s ticket t).0 calls)
        (parse_parts_same s _ (split b'.' ticket) (same ∙ step-secret s ticket t) ∙ parsed)
        remembered
    where
      refused :
          (r : TokenService)
          → parse_parts codec r (split b'.' ticket) ≡ ok claims
          → Remembers r claims.jti claims.expires_at (unix u)
          → (parse_and_consume codec r ticket u).1
            ≡ (if leb_ℤ claims.expires_at (unix u) then err expired_ticket else err replay_ticket)
      refused r e m =
          rw (e, parse_and_consume) (consume_again r claims (unix u) (unix u) (omega arith) m)
