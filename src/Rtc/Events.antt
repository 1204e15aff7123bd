-- ===== src/Rtc/Events.antt =====
-- internal/rtc/signaling_service.go: what the messages of a client do, once it has connected.
pub mod Dispatch
pub mod Safety
pub mod Joins
pub mod Kept
pub mod Media
use openchat_backend.Rtc.Signaling.{
  Signaling, Connection, Envelope, Payload, Outgoing, Value, Phase, text, other, object,
  joined_room, participant_joined, pong, waiting, reading, finished, send_own, send_room,
  send_error, close_connection, connect, modify, enqueue,
}
use openchat_backend.Rtc.Joining.{SignalingService, Joined, JoinError, wait_for_join}
use openchat_backend.Rtc.Rooms.{RoomHub, unregister, broadcast, send_to_participant}
use openchat_backend.Rtc.Tokens.{Codec}
use openchat_backend.Rtc.Types.{Participant, Permissions}
use openchat_backend.Strings.{trim_space, has_prefix}
use openchat_backend.Base.{
  ℕ, zero, suc, ◌+◌, ◌-◌, ◌*◌, ◌≤◌, ◌<◌, min, ◌≡◌, refl, sym, ap, ◌∙◌, subst, ◌≢◌, ◌↔◌, ◌⊎◌, inl,
  inr, Bool, true, false, not, ◌&&◌, ◌||◌, Option, none, some, List, [], ◌∷◌, ◌++◌, map, append-nil,
  append_assoc, arith, ltb, leb, eqb, if◌then◌else◌, Bool-cases, Option-cases, is_some, is_nil,
  length, take, drop, length-append, length-take, length-drop, take-append-drop, map_self, All,
  All-append, All-mono, Str, str, ◌==◌, ==_iff, ==_refl, ==_ne, ==_cases, ℤ, pos, negsuc, ◌+ℤ◌,
  ◌≤ℤ◌, ◌<ℤ◌, leb_ℤ, ltb_ℤ, eqb_ℤ, floor_div, int_suc, max_int, ◌%◌, ◌/◌, Result, ok, err,
  Result-cases,
}
use openchat_backend.Base.Map.{
  Map, lookup, insert, delete, get_or, lookup-insert, lookup-insert_self, lookup-insert_ne,
  lookup-delete,
}

-- What json.Unmarshal leaves: the ticket of a join, or an error; and in a map, which is nil if nothing
-- was stored in it.
pub record PayloadReader : Type 0 where
  pub ticket : Str → Option Str
  pub object : Str → Option (Map Value)

-- The object of a payload: empty where there is none.
unfoldable pub payload_object : PayloadReader → Str → Map Value
payload_object r payload =
    if is_nil payload then [] else elim (r.object payload) [ none ↦ [] | some fields ↦ fields ]

-- `payload[key].(string)`
unfoldable pub text_at : Str → Map Value → Str
text_at key fields = elim (lookup key fields) [
  | none ↦ []
  | some value ↦ elim value [ text s ↦ s | other s ↦ [] ]
]

-- The code of the error with which a media state is refused, if it is.
unfoldable pub media_denied : Permissions → Str → Bool
media_denied permissions stream_kind =
    if is_nil stream_kind
    then false
    else if stream_kind == str "video_camera"
    then not permissions.video
    else if stream_kind == str "video_screen"
    then not permissions.screenshare
    else has_prefix stream_kind (str "audio") && not permissions.speak

-- The fields of a media state under the sender's own name.
unfoldable pub signed_fields : Participant → Map Value → Map Value
signed_fields self fields =
    insert (str "user_uid") (text self.user_uid)
      (insert (str "participant_id") (text self.participant_id) fields)

unfoldable pub relay_media_state :
    PayloadReader → Signaling → Str → Participant → Envelope → Option Signaling
relay_media_state r s id self envelope =
    let fields = payload_object r envelope.payload in
    let stream_kind = trim_space (text_at (str "stream_kind") fields) in
    if media_denied self.permissions stream_kind
    then send_error s id self envelope.request_id (str "rtc_media_denied") false
    else send_room s self.channel_id [] (record {
      type = str "rtc.media.state";
      channel_id = self.channel_id;
      request_id = envelope.request_id;
      payload = object (signed_fields self fields);
    })

abbrev pub forwarded : Participant → Envelope → Map Value → Outgoing
forwarded self envelope fields = record {
  type = envelope.type;
  channel_id = self.channel_id;
  request_id = envelope.request_id;
  payload = object (insert (str "from_participant_id") (text self.participant_id) fields);
}

unfoldable pub forward_signal :
    PayloadReader → Signaling → Str → Participant → Envelope → Option Signaling
forward_signal r s id self envelope =
    let fields = payload_object r envelope.payload in
    let message = forwarded self envelope fields in
    let target_id = trim_space (
      text_at (str "target_participant_id")
        (insert (str "from_participant_id") (text self.participant_id) fields)) in
    if is_nil target_id
    then send_room s self.channel_id self.participant_id message
    else elim (send_to_participant s.service.rooms self.channel_id target_id) [
      | none ↦ send_error s id self envelope.request_id (str "rtc_target_not_found") true
      | some target ↦ send_own s target.participant_id message
    ]

-- The events that are forwarded to a peer.
abbrev pub is_signal : Str → Bool
is_signal type =
    type == str "rtc.offer.publish"
    || (type == str "rtc.offer.subscribe"
        || (type == str "rtc.answer.publish"
            || (type == str "rtc.answer.subscribe" || type == str "rtc.ice.candidate")))

-- `ts` is the time that a pong carries.
unfoldable pub handle_envelope :
    PayloadReader → Str → Signaling → Str → Participant → Envelope → Option Signaling
handle_envelope r ts s id self envelope =
    if envelope.type == str "rtc.ping"
    then send_own s id (record {
      type = str "rtc.pong";
      channel_id = self.channel_id;
      request_id = envelope.request_id;
      payload = pong ts;
    })
    else if envelope.type == str "rtc.leave"
    then close_connection s id
    else if envelope.type == str "rtc.media.state"
    then relay_media_state r s id self envelope
    else if is_signal envelope.type
    then forward_signal r s id self envelope
    else send_error s id self envelope.request_id (str "rtc_unknown_event") false

-- A result that goes on, if there was no panic.
abbrev pub and_then : Option Signaling → (Signaling → Option Signaling) → Option Signaling
and_then none next = none
and_then (some s) next = next s

unfoldable pub set_phase : Phase → Str → Signaling → Signaling
unfolding modify
set_phase phase id s = record s {
  connections = modify (λ c. record c { phase = phase }) id s.connections;
}

-- The end of readPump: the deferred closeConnection.
unfoldable pub finish : Signaling → Str → Option Signaling
finish s id = close_connection (set_phase finished id s) id

-- The end of waitForJoin, after the ticket is accepted and the client is in its room.
unfoldable pub greet : Signaling → Str → Envelope → Joined → Option Signaling
unfolding modify
greet s id envelope joined =
    let self = joined.participant in
    and_then
      (send_own
        (record s {
          connections =
              modify (λ c. record c { participant = self; phase = reading }) id s.connections;
        })
        id
        (record {
          type = str "rtc.joined";
          channel_id = self.channel_id;
          request_id = envelope.request_id;
          payload = joined_room self joined.existing;
        }))
      λ t. send_room t self.channel_id self.participant_id (record {
        type = str "rtc.participant.joined";
        channel_id = self.channel_id;
        request_id = [];
        payload = participant_joined self;
      })

-- readPump after waitForJoin has failed.
unfoldable pub deny : Signaling → Str → Participant → Option Signaling
deny s id self = and_then (send_error s id self [] (str "rtc_join_denied") false) λ t. finish t id

-- `now` and `joined_at` are the times that joining takes.
unfoldable pub first_message :
    Codec
    → PayloadReader
    → Signaling
    → Str
    → Participant
    → Envelope
    → (now joined_at : ℤ) → Option Signaling
first_message codec r s id self envelope now joined_at =
    let (service, result) =
      wait_for_join codec r.ticket s.service id envelope.type envelope.payload now joined_at in
    elim result [
      | err e ↦ deny (record s { service = service }) id self
      | ok joined ↦ greet (record s { service = service }) id envelope joined
    ]
