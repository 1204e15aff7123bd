-- ===== src/Rtc/Tokens/Sound.antt =====
-- A join ticket is accepted only with the signature of the service, and before it expires
-- (internal/rtc/token_service.go).
use openchat_backend.Rtc.Tokens.Once.{accepted}
use openchat_backend.Rtc.Tokens.{
  TokenService, unix, Codec, TicketClaims, parse_parts, parse_and_consume, check_signature, split,
  sign,
}
use openchat_backend.Base.{
  ◌≡◌, refl, inl, inr, some, List, [], ◌∷◌, arith, Str, ==_iff, ℤ, ◌<ℤ◌, ok, Option-cases,
}

module _ (codec : Codec) where
  check_signature_ok :
      (s : TokenService) (payload_encoded signature_encoded : Str) (claims : TicketClaims)
      → check_signature codec s payload_encoded signature_encoded ≡ ok claims
      → (payload : Str) × (codec.decode_base64 signature_encoded
          ≡ some (codec.hmac s.secret payload_encoded))
        × (codec.decode_base64 payload_encoded ≡ some payload)
        × (codec.unmarshal payload ≡ some claims)
  unfolding check_signature sign
  check_signature_ok s payload_encoded signature_encoded claims h =
      elim (Option-cases (codec.decode_base64 payload_encoded)) [
        | inl e ↦ absurd (ground arith)
        | inr (payload, e) ↦ (payload, signed, e, read payload e)
      ]
    where
      signed : codec.decode_base64 signature_encoded ≡ some (codec.hmac s.secret payload_encoded)
      signed = elim (Option-cases (codec.decode_base64 signature_encoded)) [
        | inl d ↦ absurd (ground arith)
        | inr (signature, d) ↦
            ground (arith, ==_iff signature (codec.hmac s.secret payload_encoded))
      ]

      read :
          (payload : Str)
          → codec.decode_base64 payload_encoded ≡ some payload
          → codec.unmarshal payload ≡ some claims
      read payload e = ground arith

  parse_parts_ok :
      (s : TokenService) (parts : List Str) (claims : TicketClaims)
      → parse_parts codec s parts ≡ ok claims
      → (payload_encoded signature_encoded : Str) × (parts
          ≡ payload_encoded ∷ signature_encoded ∷ [])
        × (check_signature codec s payload_encoded signature_encoded ≡ ok claims)
  unfolding parse_parts
  parse_parts_ok s [] claims h = absurd (cc h)
  parse_parts_ok s (a ∷ []) claims h = absurd (cc h)
  parse_parts_ok s (a ∷ b ∷ []) claims h = (a, b, refl, h)
  parse_parts_ok s (a ∷ b ∷ c ∷ d) claims h = absurd (cc h)

  -- A ticket that is accepted has two parts, the second is the base64 of the signature of the first
  -- under the secret of the service, the first is the base64 of the claims, and these have not expired.
  pub parse_and_consume_sound :
      (s : TokenService) (ticket : Str) (now : ℤ) (claims : TicketClaims)
      → (parse_and_consume codec s ticket now).1 ≡ ok claims
      → (payload_encoded signature_encoded payload : Str) × (split b'.' ticket
          ≡ payload_encoded ∷ signature_encoded ∷ [])
        × (codec.decode_base64 signature_encoded ≡ some (codec.hmac s.secret payload_encoded))
        × (codec.decode_base64 payload_encoded ≡ some payload)
        × (codec.unmarshal payload ≡ some claims)
        × (unix now <ℤ claims.expires_at)
  parse_and_consume_sound s ticket now claims h =
      let (parsed, early, _) = accepted codec s ticket now claims h in
      let (payload_encoded, signature_encoded, two, checked) =
        parse_parts_ok s (split b'.' ticket) claims parsed in
      let (payload, signed, decoded, read) =
        check_signature_ok s payload_encoded signature_encoded claims checked in
      (payload_encoded, signature_encoded, payload, two, signed, decoded, read, early)
