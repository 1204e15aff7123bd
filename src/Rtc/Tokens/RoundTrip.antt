-- ===== src/Rtc/Tokens/RoundTrip.antt =====
-- A join ticket that was issued is accepted with its claims (internal/rtc/token_service.go).
use openchat_backend.Rtc.Tokens.Once.{parse_parts_same}
use openchat_backend.Rtc.Tokens.{
  Codec, check_signature, TokenService, TicketClaims, IssueTicketInput, sign, parse_parts, issue,
  ticket_of, unix, new_claims, parse_and_consume, drop_expired, consume, gc_used_jtis,
}
use openchat_backend.Strings.{split}
use openchat_backend.Base.{
  ℕ, ◌≡◌, refl, ap, ◌∙◌, false, none, some, [], ◌∷◌, ◌++◌, arith, eqb, All, Str, str, ==_refl, ℤ,
  ◌+ℤ◌, ◌<ℤ◌, ok,
}
use openchat_backend.Base.Map.{Map, lookup}

-- No byte of the text is `c`.
abbrev pub Lacks : ℕ → Str → Type 0
Lacks c s = All (λ b. eqb b c ≡ false) s

split_of_Lacks : (c : ℕ) (s : Str) → Lacks c s → split c s ≡ s ∷ []
unfolding split
split_of_Lacks c [] h = refl
split_of_Lacks c (b ∷ s) (d, h) = ground (arith, split_of_Lacks c s h)

split-append : (c : ℕ) (s t : Str) → Lacks c s → Lacks c t → split c (s ++ c ∷ t) ≡ s ∷ t ∷ []
unfolding split
split-append c [] t h k = ground (arith, split_of_Lacks c t k)
split-append c (b ∷ s) t (d, h) k = ground (arith, split-append c s t h k)

-- What the program relies on of the codec: base64 is read back and has no full stop.
pub record IsCodec (codec : Codec) : Type 0 where
  pub decoded : (s : Str) → codec.decode_base64 (codec.encode_base64 s) ≡ some s
  pub no_stop : (s : Str) → Lacks b'.' (codec.encode_base64 s)

lookup-drop_expired-none :
    (now_unix : ℤ) (used : Map ℤ) (jti : Str)
    → lookup jti used ≡ none
    → lookup jti (drop_expired now_unix used) ≡ none
unfolding lookup drop_expired
lookup-drop_expired-none now_unix [] jti h = h
lookup-drop_expired-none now_unix ((j, e) ∷ used) jti h =
    ground (arith, lookup-drop_expired-none now_unix used jti)

consume_fresh :
    (s : TokenService) (claims : TicketClaims) (now_unix : ℤ)
    → lookup claims.jti s.used_jtis ≡ none
    → now_unix <ℤ claims.expires_at
    → (consume s claims now_unix).1 ≡ ok claims
unfolding consume gc_used_jtis
consume_fresh s claims now_unix h l =
    ground (arith, lookup-drop_expired-none now_unix s.used_jtis claims.jti)

issue_ok :
    (codec : Codec) (s : TokenService) (input : IssueTicketInput) (now : ℤ)
    (uuid ticket payload : Str) (claims : TicketClaims)
    → issue codec s input now uuid ≡ ok (ticket, claims)
    → codec.marshal claims ≡ some payload
    → (claims ≡ new_claims codec s input now uuid) × (ticket ≡ ticket_of codec s payload)
unfolding issue
issue_ok codec s input now uuid ticket payload claims h m = ground arith

module _ (codec : Codec) (laws : IsCodec codec) where
  check_signature_own :
      (s : TokenService) (payload : Str) (claims : TicketClaims)
      → codec.unmarshal payload ≡ some claims
      → check_signature codec s
          (codec.encode_base64 payload)
          (codec.encode_base64 (sign codec s (codec.encode_base64 payload)))
        ≡ ok claims
  unfolding check_signature
  check_signature_own s payload claims h = ground (
    arith,
    laws.decoded payload,
    laws.decoded (sign codec s (codec.encode_base64 payload)),
    ==_refl (sign codec s (codec.encode_base64 payload)),
  )

  parse_parts_own :
      (s : TokenService) (payload : Str) (claims : TicketClaims)
      → codec.unmarshal payload ≡ some claims
      → parse_parts codec s (split b'.' (ticket_of codec s payload)) ≡ ok claims
  unfolding parse_parts str
  parse_parts_own s payload claims h =
      rw
        (split-append b'.' (codec.encode_base64 payload)
          (codec.encode_base64 (sign codec s (codec.encode_base64 payload))) (laws.no_stop payload)
          (laws.no_stop _))
        (check_signature_own s payload claims h)

  -- A ticket that a service issues carries the fields of the request, and the same service, whatever
  -- tickets it has seen since, accepts it with the same claims at any time before its expiry, if its
  -- id has not been used and JSON reads back what it wrote for the claims.
  pub parse_and_consume-issue :
      (s t : TokenService) (input : IssueTicketInput) (issued now : ℤ) (uuid ticket payload : Str)
      (claims : TicketClaims)
      → issue codec s input issued uuid ≡ ok (ticket, claims)
      → codec.marshal claims ≡ some payload
      → codec.unmarshal payload ≡ some claims
      → t.secret ≡ s.secret
      → lookup uuid t.used_jtis ≡ none
      → unix now <ℤ unix (issued +ℤ s.ttl)
      → (claims ≡ new_claims codec s input issued uuid)
        × ((parse_and_consume codec t ticket now).1 ≡ ok claims)
  unfolding parse_and_consume
  parse_and_consume-issue s t input issued now uuid ticket payload claims h m u same fresh early =
      let (own, written) = issue_ok codec s input issued uuid ticket payload claims h m in
      let parsed =
        ap (λ x. parse_parts codec t (split b'.' x)) written
        ∙ parse_parts_same codec s t _ same
        ∙ parse_parts_own s payload claims u in
      (
        own,
        rw (parsed, parse_and_consume)
            (consume_fresh t claims (unix now)
              (ap (λ (x : TicketClaims). lookup x.jti t.used_jtis) own ∙ fresh) (rw own early)),
      )
