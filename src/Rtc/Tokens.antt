-- ===== src/Rtc/Tokens.antt =====
-- internal/rtc/token_service.go: join tickets that can be used once.
-- The calls of time.Now and uuid.NewString are the arguments `now`, in nanoseconds, and `uuid`.
pub mod Once
pub mod Sound
pub mod RoundTrip
pub mod Tests
use openchat_backend.Strings.{trim_space, split}
use openchat_backend.Rtc.Types.{TicketClaims, Permissions}
use openchat_backend.Base.{
  ℕ, zero, suc, ◌+◌, ◌-◌, ◌*◌, ◌≤◌, ◌<◌, min, ◌≡◌, refl, sym, ap, ◌∙◌, subst, ◌≢◌, ◌↔◌, ◌⊎◌, inl,
  inr, Bool, true, false, not, ◌&&◌, ◌||◌, Option, none, some, List, [], ◌∷◌, ◌++◌, map, append-nil,
  append_assoc, arith, ltb, leb, eqb, if◌then◌else◌, Bool-cases, Option-cases, is_some, is_nil,
  length, take, drop, length-append, length-take, length-drop, take-append-drop, map_self, All,
  All-append, All-mono, Str, str, ◌==◌, ==_iff, ==_refl, ==_ne, ==_cases, ℤ, pos, negsuc, ◌+ℤ◌,
  ◌≤ℤ◌, ◌<ℤ◌, leb_ℤ, ltb_ℤ, eqb_ℤ, floor_div, Result, ok, err, Result-cases,
}
use openchat_backend.Base.Map.{
  Map, lookup, insert, delete, get_or, lookup-insert, lookup-insert_self, lookup-insert_ne,
  lookup-delete,
}

-- The packages crypto/hmac with crypto/sha256, encoding/base64 (RawURLEncoding) and encoding/json.
pub record Codec : Type 0 where
  pub hmac : Str → Str → Str
  pub encode_base64 : Str → Str
  pub decode_base64 : Str → Option Str
  pub marshal : TicketClaims → Option Str
  pub unmarshal : Str → Option TicketClaims

pub data Error : Type 0 where
  invalid_ticket expired_ticket replay_ticket : Error
  ids_required marshal_failed : Error

pub record IssueTicketInput : Type 0 where
  pub server_id : Str
  pub channel_id : Str
  pub user_uid : Str
  pub device_id : Str
  pub permissions : Permissions

-- `ttl` is a duration in nanoseconds.
pub record TokenService : Type 0 where
  pub secret : Str
  pub ttl : ℤ
  pub used_jtis : Map ℤ

unfoldable pub new_token_service : Str → ℤ → TokenService
new_token_service secret ttl = record { secret = secret; ttl = ttl; used_jtis = [] }

-- t.Unix()
abbrev pub unix : ℤ → ℤ
unix t = floor_div t 1000000000

module _ (codec : Codec) where
  unfoldable pub sign : TokenService → Str → Str
  sign s payload_encoded = codec.hmac s.secret payload_encoded

  abbrev pub new_claims : TokenService → IssueTicketInput → ℤ → Str → TicketClaims
  new_claims s input now uuid = record {
    server_id = input.server_id;
    channel_id = input.channel_id;
    user_uid = input.user_uid;
    device_id = input.device_id;
    permissions = input.permissions;
    issued_at = unix now;
    expires_at = unix (now +ℤ s.ttl);
    jti = uuid;
  }

  abbrev pub ticket_of : TokenService → Str → Str
  ticket_of s payload =
      let payload_encoded = codec.encode_base64 payload in
      payload_encoded ++ (str "." ++ codec.encode_base64 (sign s payload_encoded))

  unfoldable pub issue :
      TokenService → IssueTicketInput → ℤ → Str → Result Error (Str × TicketClaims)
  issue s input now uuid =
      if is_nil (trim_space input.server_id) || is_nil (trim_space input.channel_id)
      then err ids_required
      else elim (codec.marshal (new_claims s input now uuid)) [
        | none ↦ err marshal_failed
        | some payload ↦ ok (ticket_of s payload, new_claims s input now uuid)
      ]

  -- A result that may be absent, as an invalid ticket.
  abbrev or_invalid {ℓ} : {A : Type ℓ} → Option A → Result Error A
  or_invalid none = err invalid_ticket
  or_invalid (some a) = ok a

  -- The claims of a ticket whose signature is right.
  unfoldable pub check_signature : TokenService → Str → Str → Result Error TicketClaims
  check_signature s payload_encoded signature_encoded =
      elim (codec.decode_base64 signature_encoded) [
        | none ↦ err invalid_ticket
        | some signature ↦
            if not (signature == sign s payload_encoded)
            then err invalid_ticket
            else elim (codec.decode_base64 payload_encoded) [
              | none ↦ err invalid_ticket
              | some payload ↦ or_invalid (codec.unmarshal payload)
            ]
      ]

  unfoldable pub parse_parts : TokenService → List Str → Result Error TicketClaims
  parse_parts s [] = err invalid_ticket
  parse_parts s (payload ∷ []) = err invalid_ticket
  parse_parts s (payload ∷ signature ∷ []) = check_signature s payload signature
  parse_parts s (payload ∷ signature ∷ next ∷ parts) = err invalid_ticket

unfoldable pub drop_expired : ℤ → Map ℤ → Map ℤ
drop_expired now_unix [] = []
drop_expired now_unix ((jti, exp) ∷ used) =
    let rest = drop_expired now_unix used in if leb_ℤ exp now_unix then rest else (jti, exp) ∷ rest

unfoldable pub gc_used_jtis : TokenService → ℤ → TokenService
gc_used_jtis s now_unix =
    if ltb (length s.used_jtis) 5000
    then s
    else record s { used_jtis = drop_expired now_unix s.used_jtis }

-- The part of ParseAndConsume after the claims are known.
unfoldable pub consume : TokenService → TicketClaims → ℤ → TokenService × Result Error TicketClaims
consume s claims now_unix =
    let collected = gc_used_jtis s now_unix in
    if leb_ℤ claims.expires_at now_unix
    then (s, err expired_ticket)
    else if is_some (lookup claims.jti collected.used_jtis)
    then (collected, err replay_ticket)
    else (
      record collected { used_jtis = insert claims.jti claims.expires_at collected.used_jtis },
      ok claims,
    )

unfoldable pub parse_and_consume :
    Codec → TokenService → Str → ℤ → TokenService × Result Error TicketClaims
parse_and_consume codec s ticket now = elim (parse_parts codec s (split b'.' ticket)) [
  | err e ↦ (s, err e)
  | ok claims ↦ consume s claims (unix now)
]
