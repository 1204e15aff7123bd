-- ===== src/Rtc/Tokens/Tests.antt =====
-- Tests of internal/rtc/token_service.go, and its theorems at a small codec.
use openchat_backend.Rtc.Tokens.Sound.{parse_and_consume_sound}
use openchat_backend.Strings.{strings, split}
use openchat_backend.Rtc.Tokens.{
  Codec, TokenService, IssueTicketInput, ticket_of, new_claims, parse_and_consume, issue, unix,
  expired_ticket, replay_ticket,
}
use openchat_backend.Rtc.Tokens.RoundTrip.{parse_and_consume-issue, IsCodec, Lacks}
use openchat_backend.Rtc.Tokens.Once.{parse_and_consume_once, run}
use openchat_backend.Rtc.Types.{TicketClaims}
use openchat_backend.Base.{
  ◌+◌, ◌-◌, ◌≡◌, refl, true, false, Option, some, List, [], ◌∷◌, ◌++◌, arith, if◌then◌else◌, Str,
  str, ℤ, pos, ◌+ℤ◌, ◌<ℤ◌, leb_ℤ, floor_div, ok, err,
}
use openchat_backend.Base.Map.{lookup}

abbrev shift : Str → Str
shift [] = []
shift (b ∷ s) = (b + 47) ∷ shift s

abbrev unshift : Str → Str
unshift [] = []
unshift (b ∷ s) = (b - 47) ∷ unshift s

abbrev claims : TicketClaims
claims = record {
  server_id = str "s";
  channel_id = str "c";
  user_uid = str "u";
  device_id = str "d";
  permissions = record { speak = true; video = false; screenshare = false };
  expires_at = pos 62;
  issued_at = pos 2;
  jti = str "id1";
}

-- An encoding without full stops, and a JSON of one value.
abbrev pub codec : Codec
codec = record {
  hmac = λ secret text. secret ++ text;
  encode_base64 = shift;
  decode_base64 = λ s. some (unshift s);
  marshal = λ c. some (str "json");
  unmarshal = λ s. some claims;
}

unshift-shift : (s : Str) → ◌≡◌ {A = Option Str} (some (unshift (shift s))) (some s)
unshift-shift [] = refl
unshift-shift (b ∷ s) = grind (arith, unshift-shift s)

shift-Lacks : (s : Str) → Lacks b'.' (shift s)
shift-Lacks [] = tt
shift-Lacks (b ∷ s) = (ground arith, shift-Lacks s)

pub codec-IsCodec : IsCodec codec
codec-IsCodec = record { decoded = unshift-shift; no_stop = shift-Lacks }

abbrev service : TokenService
service = record { secret = str "k"; ttl = pos 60000000000; used_jtis = [] }

abbrev request : IssueTicketInput
request = record {
  server_id = str "s";
  channel_id = str "c";
  user_uid = str "u";
  device_id = str "d";
  permissions = record { speak = true; video = false; screenshare = false };
}

abbrev ticket : Str
ticket = ticket_of codec service (str "json")

issued : issue codec service request (pos 2000000000) (str "id1") ≡ ok (ticket, claims)
unfolding strings issue floor_div ◌+ℤ◌
issued = refl

parse_and_consume-issue_example :
    (claims ≡ new_claims codec service request (pos 2000000000) (str "id1"))
    × ((parse_and_consume codec service ticket (pos 5000000000)).1 ≡ ok claims)
parse_and_consume-issue_example =
    parse_and_consume-issue codec codec-IsCodec service service request (pos 2000000000)
      (pos 5000000000) (str "id1") ticket (str "json") claims issued refl refl refl
      (unfold lookup in refl) (unfold floor_div ◌+ℤ◌ in omega arith)

accepted : (parse_and_consume codec service ticket (pos 5000000000)).1 ≡ ok claims
accepted = parse_and_consume-issue_example.1

abbrev calls : List (Str × ℤ)
calls = (str "x.y", pos 6000000000) ∷ []

parse_and_consume_once_example :
    (parse_and_consume codec
      (run codec (parse_and_consume codec service ticket (pos 5000000000)).0 calls)
      ticket
      (pos 7000000000)).1
    ≡ (if leb_ℤ claims.expires_at (unix (pos 7000000000))
        then err expired_ticket
        else err replay_ticket)
parse_and_consume_once_example =
    parse_and_consume_once codec service ticket claims (pos 5000000000) (pos 7000000000) calls
      accepted (omega arith, omega arith)

parse_and_consume_sound_example :
    (payload_encoded signature_encoded payload : Str) × (split b'.' ticket
      ≡ payload_encoded ∷ signature_encoded ∷ [])
    × (codec.decode_base64 signature_encoded ≡ some (codec.hmac service.secret payload_encoded))
    × (codec.decode_base64 payload_encoded ≡ some payload)
    × (codec.unmarshal payload ≡ some claims)
    × (unix (pos 5000000000) <ℤ claims.expires_at)
parse_and_consume_sound_example =
    parse_and_consume_sound codec service ticket (pos 5000000000) claims accepted
