-- ===== src/Rtc/Reader/Tests.antt =====
-- Tests of the clients of a call (internal/rtc/signaling_service.go): two clients join, and one leaves.
use openchat_backend.Rtc.Reader.Safe.{react-Goes, run-new_signaling_service-IsSound, MayJoinAll}
use openchat_backend.Rtc.Reader.Relay.{handle_envelope-Delivers, IsAuthentic}
use openchat_backend.Rtc.Signaling.Deliveries.{Delivers}
use openchat_backend.Rtc.Signaling.Sound.{IsSound}
use openchat_backend.Rtc.Events.Media.{relay_media_state_silent, camera}
use openchat_backend.Rtc.Events.Safety.{Goes}
use openchat_backend.Rtc.Events.Joins.{NamesChannel}
use openchat_backend.Rtc.Reader.{
  new_signaling_service, Times, Call, connects, receives, receive, react, step, run, recover,
  reading,
}
use openchat_backend.Rtc.Events.{
  PayloadReader, handle_envelope, first_message, greet, deny, finish, set_phase, forward_signal,
  relay_media_state, payload_object, text_at,
}
use openchat_backend.Rtc.Signaling.{
  Signaling, Envelope, Connection, text, joined_room, connect, enqueue, enqueue_all, modify,
  send_own, send_room, send_error, close_connection, leave_room, shut,
}
use openchat_backend.Rtc.Joining.{wait_for_join, join_room, new_participant}
use openchat_backend.Rtc.Tokens.Sound.{parse_and_consume_sound}
use openchat_backend.Rtc.Tokens.{
  Codec, TokenService, parse_and_consume, parse_parts, check_signature, sign, consume, gc_used_jtis,
}
use openchat_backend.Rtc.Rooms.{
  register, unregister, broadcast, except_member, new_room_hub, send_to_participant,
}
use openchat_backend.Rtc.Types.{TicketClaims, Participant}
use openchat_backend.Strings.{strings, trim_space}
use openchat_backend.Base.{
  some_eq, ◌≡◌, refl, sym, ap, ◌∙◌, true, false, none, some, List, [], ◌∷◌, is_nil, Str, str, pos,
  floor_div, ◌≢◌, ℤ,
}
use openchat_backend.Base.Map.{lookup, insert, delete}

abbrev claims : TicketClaims
claims = record {
  server_id = str "s";
  channel_id = str "c";
  user_uid = str "u";
  device_id = str "d";
  permissions = record { speak = true; video = false; screenshare = false };
  expires_at = pos 62;
  issued_at = pos 2;
  jti = str "id1";
}

-- The signature of a text is the text, and every payload holds the same claims.
abbrev codec : Codec
codec = record {
  hmac = λ secret text. text;
  encode_base64 = λ s. s;
  decode_base64 = λ s. some s;
  marshal = λ c. some (str "a");
  unmarshal = λ s. some claims;
}

-- A payload is the ticket that it holds, and an object that names a target.
abbrev reader : PayloadReader
reader = record {
  ticket = λ payload. some payload;
  object = λ payload. some ((str "target_participant_id", text payload) ∷ []);
}

abbrev tokens : TokenService
tokens = record { secret = str "k"; ttl = pos 60000000000; used_jtis = [] }

abbrev times : Times
times = record { now = pos 3000000000; joined_at = pos 0; ts = str "t" }

abbrev joins_as_p1 : Envelope
joins_as_p1 = record { type = str "rtc.join"; request_id = str "r1"; payload = str "a.a" }

abbrev offers_itself : Envelope
offers_itself = record { type = str "rtc.offer.publish"; request_id = str "r2"; payload = str "p1" }

abbrev leaves : Envelope
leaves = record { type = str "rtc.leave"; request_id = []; payload = [] }

abbrev pings : Envelope
pings = record { type = str "rtc.ping"; request_id = []; payload = [] }

abbrev joining : List Call
joining = connects (str "p1") ∷ receives (str "p1") joins_as_p1 times ∷ []

-- Every accepted ticket holds the same claims.
named :
    (tokens : TokenService) (now : ℤ) (payload : Str) → NamesChannel codec reader tokens now payload
unfolding str
named tokens now payload ticket c found accepted =
    let (a, b, p, split, signed, decoded, read, early) =
      parse_and_consume_sound codec tokens (trim_space ticket) now c accepted in
    ap (λ (x : TicketClaims). is_nil x.channel_id) (sym (some_eq read))

joining-MayJoin : MayJoinAll codec reader (new_signaling_service tokens) joining
unfolding MayJoinAll
joining-MayJoin = (tt, (named _ _ (str "a.a"), tt))

run-new_signaling_service-IsSound_example :
    IsSound (run codec reader (new_signaling_service tokens) joining)
run-new_signaling_service-IsSound_example =
    run-new_signaling_service-IsSound codec reader tokens joining joining-MayJoin

unfoldable signaling : Unit {0}
unfolding strings run step recover react receive new_signaling_service new_room_hub connect modify
    first_message wait_for_join join_room register unregister broadcast except_member lookup insert
    delete parse_and_consume parse_parts check_signature sign consume gc_used_jtis floor_div greet
    send_own send_room enqueue enqueue_all handle_envelope send_error close_connection leave_room
    shut finish set_phase forward_signal payload_object text_at send_to_participant
    relay_media_state deny
signaling = tt

abbrev joined : Signaling
joined = run codec reader (new_signaling_service tokens) joining

abbrev p1 : Participant
p1 = new_participant (str "p1") claims (pos 0)

abbrev connection : Connection
connection = record {
  participant = p1;
  phase = reading;
  closed = false;
  send =
      record {
        type = str "rtc.joined";
        channel_id = str "c";
        request_id = str "r1";
        payload = joined_room p1 [];
      }
      ∷ [];
}

me : lookup (str "p1") joined.connections ≡ some connection
unfolding signaling
me = refl

react-Goes_example : Goes (react codec reader joined (receives (str "p1") offers_itself times))
react-Goes_example =
    react-Goes codec reader joined run-new_signaling_service-IsSound_example
      (receives (str "p1") offers_itself times) (named _ _ (str "p1"))
      (λ c e w. ap (λ (x : Connection). x.closed) (some_eq (sym e ∙ me)))

handle_envelope-Delivers_example :
    Delivers
      (IsAuthentic p1)
      joined
      (handle_envelope reader (str "t") joined (str "p1") p1 offers_itself)
handle_envelope-Delivers_example =
    handle_envelope-Delivers reader joined (str "p1") p1 (str "t") offers_itself connection me refl

-- A client that has left and sends another message makes its handler panic.
abbrev left : Signaling
left = run codec reader joined (receives (str "p1") leaves times ∷ [])

ping_panics : react codec reader left (receives (str "p1") pings times) ≡ none
unfolding signaling
ping_panics = refl

-- The camera of a participant who may not publish video.
abbrev camera_reader : PayloadReader
camera_reader = record {
  ticket = λ payload. some payload;
  object = λ payload. some ((str "stream_kind", text payload) ∷ []);
}

abbrev shows_camera : Envelope
shows_camera = record {
  type = str "rtc.media.state";
  request_id = str "r3";
  payload = str " video_camera";
}

is_camera :
    trim_space (text_at (str "stream_kind") (payload_object camera_reader shows_camera.payload))
    ≡ str "video_camera"
unfolding signaling
is_camera = refl

relay_media_state_silent_example :
    (t : Signaling) × (relay_media_state camera_reader joined (str "p1") p1 shows_camera ≡ some t)
    × (t.service ≡ joined.service)
    × ((k : Str) → str "p1" ≢ k → lookup k t.connections ≡ lookup k joined.connections)
relay_media_state_silent_example =
    relay_media_state_silent camera_reader joined (str "p1") p1 shows_camera connection me refl
      (camera is_camera refl)
