-- ===== src/Rtc/Joining/Tests.antt =====
-- Tests of joining (internal/rtc/signaling_service.go), and its theorem at a small codec.
use openchat_backend.Rtc.Joining.Once.{wait_for_join_once}
use openchat_backend.Rtc.Joining.{
  SignalingService, JoinError, Joined, wait_for_join, join_room, new_participant, refused_ticket,
}
use openchat_backend.Rtc.Tokens.Once.{run}
use openchat_backend.Rtc.Tokens.{
  Codec, parse_and_consume, expired_ticket, replay_ticket, parse_parts, check_signature, sign,
  consume, gc_used_jtis,
}
use openchat_backend.Rtc.Rooms.{register, broadcast, except_member}
use openchat_backend.Rtc.Types.{TicketClaims}
use openchat_backend.Strings.{strings}
use openchat_backend.Base.{
  ◌≡◌, refl, ◌⊎◌, true, false, Option, some, [], arith, Str, str, pos, floor_div, Result, ok, err,
}
use openchat_backend.Base.Map.{lookup, insert}

abbrev claims : TicketClaims
claims = record {
  server_id = str "s";
  channel_id = str "c";
  user_uid = str "u";
  device_id = str "d";
  permissions = record { speak = true; video = false; screenshare = false };
  expires_at = pos 62;
  issued_at = pos 2;
  jti = str "id1";
}

-- The signature of a text is the text, and every payload holds the same claims.
abbrev codec : Codec
codec = record {
  hmac = λ secret text. text;
  encode_base64 = λ s. s;
  decode_base64 = λ s. some s;
  marshal = λ c. some (str "a");
  unmarshal = λ s. some claims;
}

abbrev read_ticket : Str → Option Str
read_ticket payload = some payload

abbrev service : SignalingService
service = record {
  tokens = record { secret = str "k"; ttl = pos 60000000000; used_jtis = [] };
  rooms = record { rooms = [] };
}

abbrev ticket : Str
ticket = str "a.a"

abbrev first : SignalingService × Result JoinError Joined
first =
    wait_for_join codec read_ticket service (str "p1") (str "rtc.join") ticket (pos 3000000000)
      (pos 0)

abbrev joined : Joined
joined = record {
  participant = new_participant (str "p1") claims (pos 0);
  existing = [];
  notified = [];
}

first_joins : first.1 ≡ ok joined
unfolding strings wait_for_join join_room register broadcast except_member lookup insert
    parse_and_consume parse_parts check_signature sign consume gc_used_jtis floor_div
first_joins = refl

wait_for_join_once_example :
    let next =
      wait_for_join codec read_ticket first.0
        (str "p2")
        (str "rtc.join")
        ticket
        (pos 4000000000)
        (pos 1) in
    (next.0.rooms ≡ first.0.rooms)
    × ((next.1 ≡ err (refused_ticket expired_ticket))
        ⊎ (next.1 ≡ err (refused_ticket replay_ticket)))
wait_for_join_once_example =
    wait_for_join_once codec read_ticket service first.0 (str "p1") (str "rtc.join") ticket ticket
      (pos 3000000000) (pos 0) joined [] (str "p2") ticket (pos 4000000000) (pos 1) refl refl
      first_joins (unfold run in refl) (omega arith)
