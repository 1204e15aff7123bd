-- ===== src/Realtime/Events.antt =====
-- internal/realtime/chat_hub.go: what a client's events do, and which events the clients are sent.
-- The payload of an event that is sent is the constructor's arguments, not their JSON.
pub mod Notices
use openchat_backend.Realtime.Hub.{
  Client, Hub, PresenceMember, ChannelDeparture, subscribe, unsubscribe, unregister, typing_peers,
  presence_member_from_client, message_recipients,
}
use openchat_backend.Strings.{trim_space}
use openchat_backend.Base.{
  ℕ, zero, suc, ◌+◌, ◌-◌, ◌*◌, ◌≤◌, ◌<◌, min, ◌≡◌, refl, sym, ap, ◌∙◌, subst, ◌≢◌, ◌↔◌, ◌⊎◌, inl,
  inr, Bool, true, false, not, ◌&&◌, ◌||◌, Option, none, some, List, [], ◌∷◌, ◌++◌, map, append-nil,
  append_assoc, arith, ltb, leb, eqb, if◌then◌else◌, Bool-cases, Option-cases, is_some, is_nil,
  length, take, drop, length-append, length-take, length-drop, take-append-drop, map_self, All,
  All-append, All-mono, Str, str, ◌==◌, ==_iff, ==_refl, ==_ne, ==_cases, ℤ, pos, negsuc, ◌+ℤ◌,
  ◌≤ℤ◌, ◌<ℤ◌, leb_ℤ, ltb_ℤ, eqb_ℤ, floor_div, int_suc, max_int, ◌%◌, ◌/◌, Result, ok, err,
  Result-cases,
}
use openchat_backend.Base.Map.{
  Map, lookup, insert, delete, get_or, lookup-insert, lookup-insert_self, lookup-insert_ne,
  lookup-delete,
}

-- An event that a client sends, with its payload as JSON.
pub record Envelope : Type 0 where
  pub type : Str
  pub request_id : Str
  pub payload : Str

pub data Event : Type 0 where
  chat_subscribed chat_unsubscribed : (channel_id : Str) → Event
  presence_snapshot : (channel_id : Str) → (members : List PresenceMember) → Event
  presence_joined presence_left : (channel_id : Str) → (member : PresenceMember) → Event
  typing_updated : (channel_id : Str) → (member : PresenceMember) → (is_typing : Bool) → Event
  chat_pong : (ts : Str) → Event
  chat_error : (code : Str) → Event

-- An event for the queue of a client.
pub record Delivery : Type 0 where
  pub to : Client
  pub request_id : Str
  pub event : Event

-- What json.Unmarshal leaves in the two structs that payloads are read into, whose zero value stays
-- where a field is missing or JSON is not valid.
pub record PayloadReader : Type 0 where
  pub channel_id : Str → Str
  pub typing : Str → Str × Bool

abbrev pub reply : Client → Envelope → Event → Delivery
reply c envelope event = record { to = c; request_id = envelope.request_id; event = event }

-- `for _, peer := range peers { peer.enqueue(envelope) }`, for an envelope without a request id
unfoldable pub enqueue_all : Event → List Client → List Delivery
enqueue_all event [] = []
enqueue_all event (peer ∷ peers) =
    record { to = peer; request_id = []; event = event } ∷ enqueue_all event peers

unfoldable pub handle_subscribe : PayloadReader → Hub → Client → Envelope → Hub × List Delivery
handle_subscribe r h c envelope =
    let channel_id = trim_space (r.channel_id envelope.payload) in
    let (after, snapshot, peers, joined) = subscribe h c channel_id in
    let own =
      reply c envelope (chat_subscribed channel_id)
      ∷ record { to = c; request_id = []; event = presence_snapshot channel_id snapshot }
      ∷ [] in
    let notices = enqueue_all (presence_joined channel_id (presence_member_from_client c)) peers in
    if is_nil channel_id
    then (h, reply c envelope (chat_error (str "chat_channel_required")) ∷ [])
    else (after, own ++ (if joined then notices else []))

unfoldable pub handle_unsubscribe : PayloadReader → Hub → Client → Envelope → Hub × List Delivery
handle_unsubscribe r h c envelope =
    let channel_id = trim_space (r.channel_id envelope.payload) in
    let (after, peers, removed) = unsubscribe h c channel_id in
    let notices = enqueue_all (presence_left channel_id (presence_member_from_client c)) peers in
    if is_nil channel_id then (h, []) else (
      after,
      reply c envelope (chat_unsubscribed channel_id) ∷ (if removed then notices else []),
    )

unfoldable pub handle_typing : PayloadReader → Hub → Client → Envelope → Hub × List Delivery
handle_typing r h c envelope =
    let (raw, is_typing) = r.typing envelope.payload in
    let channel_id = trim_space raw in
    let (peers, subscribed) = typing_peers h c channel_id in
    if is_nil channel_id
    then (h, reply c envelope (chat_error (str "chat_channel_required")) ∷ [])
    else if not subscribed
    then (h, reply c envelope (chat_error (str "chat_not_subscribed")) ∷ [])
    else (
      h,
      enqueue_all (typing_updated channel_id (presence_member_from_client c) is_typing) peers,
    )

-- `ts` is the time that a pong carries.
unfoldable pub handle_envelope : PayloadReader → Str → Hub → Client → Envelope → Hub × List Delivery
handle_envelope r ts h c envelope =
    if envelope.type == str "chat.subscribe"
    then handle_subscribe r h c envelope
    else if envelope.type == str "chat.unsubscribe"
    then handle_unsubscribe r h c envelope
    else if envelope.type == str "chat.typing.update"
    then handle_typing r h c envelope
    else if envelope.type == str "chat.ping"
    then (h, reply c envelope (chat_pong ts) ∷ [])
    else (h, reply c envelope (chat_error (str "chat_unknown_event")) ∷ [])

unfoldable pub tell_departures : PresenceMember → List ChannelDeparture → List Delivery
tell_departures member [] = []
tell_departures member (departure ∷ departures) =
    enqueue_all (presence_left departure.channel_id member) departure.peers
    ++ tell_departures member departures

-- The part of close before the channels and the connection are closed.
unfoldable pub close : Hub → Client → Hub × List Delivery
close h c =
    let (after, departures) = unregister h c in
    (after, tell_departures (presence_member_from_client c) departures)
