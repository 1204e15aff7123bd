-- ===== src/Rtc/Signaling.antt =====
-- internal/rtc/signaling_service.go: the connections of the signaling service, from the first message
-- to the close. A client is named by its id; what it is sent goes to its queue, which the writer
-- empties. A step is one message read by one client; a handler's sends hold the lock of the rooms, and
-- a client is taken out of its room before its queue is closed.
pub mod Queues
pub mod Sound
pub mod Closing
pub mod Deliveries
use openchat_backend.Rtc.Joining.{SignalingService, Joined, wait_for_join}
use openchat_backend.Rtc.Rooms.{RoomHub, unregister, broadcast, send_to_participant}
use openchat_backend.Rtc.Tokens.{Codec}
use openchat_backend.Rtc.Types.{Participant, Permissions}
use openchat_backend.Strings.{trim_space, has_prefix}
use openchat_backend.Base.{
  ℕ, zero, suc, ◌+◌, ◌-◌, ◌*◌, ◌≤◌, ◌<◌, min, ◌≡◌, refl, sym, ap, ◌∙◌, subst, ◌≢◌, ◌↔◌, ◌⊎◌, inl,
  inr, Bool, true, false, not, ◌&&◌, ◌||◌, Option, none, some, List, [], ◌∷◌, ◌++◌, map, append-nil,
  append_assoc, arith, ltb, leb, eqb, if◌then◌else◌, Bool-cases, Option-cases, is_some, is_nil,
  length, take, drop, length-append, length-take, length-drop, take-append-drop, map_self, All,
  All-append, All-mono, Str, str, ◌==◌, ==_iff, ==_refl, ==_ne, ==_cases, ℤ, pos, negsuc, ◌+ℤ◌,
  ◌≤ℤ◌, ◌<ℤ◌, leb_ℤ, ltb_ℤ, eqb_ℤ, floor_div, int_suc, max_int, ◌%◌, ◌/◌, Result, ok, err,
  Result-cases,
}
use openchat_backend.Base.Map.{
  Map, lookup, insert, delete, get_or, lookup-insert, lookup-insert_self, lookup-insert_ne,
  lookup-delete,
}

-- A value of a JSON object: a string, or any other value as its JSON.
pub data Value : Type 0 where
  text other : Str → Value

-- A message that a client sends, with its payload as JSON.
pub record Envelope : Type 0 where
  pub type : Str
  pub request_id : Str
  pub payload : Str

-- What is written into the payload of a message to a client.
pub data Payload : Type 0 where
  object : Map Value → Payload
  joined_room : Participant → (existing : List Participant) → Payload
  participant_joined participant_left : Participant → Payload
  pong : (ts : Str) → Payload
  error : (code : Str) → (retryable : Bool) → Payload

pub record Outgoing : Type 0 where
  pub type : Str
  pub channel_id : Str
  pub request_id : Str
  pub payload : Payload

-- Where a client's reader stands: in waitForJoin, in the loop of readPump, or past it.
pub data Phase : Type 0 where
  waiting reading finished : Phase

pub record Connection : Type 0 where
  pub participant : Participant
  pub phase : Phase
  pub closed : Bool
  pub send : List Outgoing

pub record Signaling : Type 0 where
  pub service : SignalingService
  pub connections : Map Connection

-- `make(chan Envelope, 64)`
abbrev pub queue_capacity : ℕ
queue_capacity = 64

-- The participant of a client that has not joined: the zero value.
abbrev pub no_participant : Participant
no_participant = record {
  participant_id = [];
  channel_id = [];
  user_uid = [];
  device_id = [];
  permissions = record { speak = false; video = false; screenshare = false };
  joined_at = pos 0;
}

-- An id is used once: uuid.NewString returns no id again.
unfoldable pub connect : Signaling → Str → Signaling
connect s id = if is_some (lookup id s.connections) then s else record s {
  connections =
      insert id
        (record { participant = no_participant; phase = waiting; closed = false; send = [] })
        s.connections;
}

-- The queue after a send that does not block: a message for a full queue is dropped.
abbrev pub push : Connection → Outgoing → Connection
push c message =
    if ltb (length c.send) queue_capacity then record c { send = c.send ++ message ∷ [] } else c

-- A send on a queue that is closed panics, which is the result `none`.
unfoldable pub enqueue : Map Connection → Str → Outgoing → Option (Map Connection)
enqueue connections id message = elim (lookup id connections) [
  | none ↦ some connections
  | some c ↦ if c.closed then none else some (insert id (push c message) connections)
]

unfoldable pub enqueue_all : Map Connection → Outgoing → List Participant → Option (Map Connection)
enqueue_all connections message [] = some connections
enqueue_all connections message (peer ∷ peers) =
    elim (enqueue connections peer.participant_id message) [
      | none ↦ none
      | some sent ↦ enqueue_all sent message peers
    ]

-- A client's state after a change of it, if it is there.
unfoldable pub modify : (Connection → Connection) → Str → Map Connection → Map Connection
modify change id connections = elim (lookup id connections) [
  | none ↦ connections
  | some c ↦ insert id (change c) connections
]

abbrev pub with_connections : Signaling → Option (Map Connection) → Option Signaling
with_connections s none = none
with_connections s (some connections) = some (record s { connections = connections })

-- A message to one client, and to the clients of a room but one.
unfoldable pub send_own : Signaling → Str → Outgoing → Option Signaling
send_own s id message = with_connections s (enqueue s.connections id message)

unfoldable pub send_room : Signaling → Str → Str → Outgoing → Option Signaling
send_room s channel_id except_id message =
    with_connections s
      (enqueue_all s.connections message (broadcast s.service.rooms channel_id except_id))

unfoldable pub send_error : Signaling → Str → Participant → Str → Str → Bool → Option Signaling
send_error s id self request_id code retryable = send_own s id (record {
  type = str "rtc.error";
  channel_id = self.channel_id;
  request_id = request_id;
  payload = error code retryable;
})

abbrev pub left_message : Participant → Outgoing
left_message self = record {
  type = str "rtc.participant.left";
  channel_id = self.channel_id;
  request_id = [];
  payload = participant_left self;
}

-- The part of closeConnection before the queue is closed.
unfoldable pub leave_room : Signaling → Participant → Option Signaling
leave_room s self =
    if is_nil self.channel_id
    then some s
    else send_room
        (record s {
          service = record s.service {
            rooms = unregister s.service.rooms self.channel_id self.participant_id;
          };
        })
        self.channel_id [] (left_message self)

unfoldable pub shut : Str → Signaling → Signaling
unfolding modify
shut id s = record s { connections = modify (λ c. record c { closed = true }) id s.connections }

abbrev pub map_some : (Signaling → Signaling) → Option Signaling → Option Signaling
map_some f none = none
map_some f (some s) = some (f s)

-- `closeOnce`: a client is closed once.
unfoldable pub close_connection : Signaling → Str → Option Signaling
close_connection s id = elim (lookup id s.connections) [
  | none ↦ some s
  | some c ↦ if c.closed then some s else map_some (shut id) (leave_room s c.participant)
]
