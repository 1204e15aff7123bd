-- ===== src/Rtc/Reader.antt =====
-- internal/rtc/signaling_service.go: readPump and writePump as steps of one client each. A handler that
-- panics is recovered from by the HTTP server, after the deferred closeConnection.
pub mod Safe
pub mod Relay
pub mod Tests
use openchat_backend.Rtc.Events.{PayloadReader, handle_envelope, first_message, deny, finish}
use openchat_backend.Rtc.Signaling.{
  Signaling, Connection, Envelope, Phase, waiting, reading, finished, connect, modify,
}
use openchat_backend.Rtc.Joining.{SignalingService}
use openchat_backend.Rtc.Rooms.{new_room_hub}
use openchat_backend.Rtc.Tokens.{Codec, TokenService}
use openchat_backend.Base.{
  ℕ, zero, suc, ◌+◌, ◌-◌, ◌*◌, ◌≤◌, ◌<◌, min, ◌≡◌, refl, sym, ap, ◌∙◌, subst, ◌≢◌, ◌↔◌, ◌⊎◌, inl,
  inr, Bool, true, false, not, ◌&&◌, ◌||◌, Option, none, some, List, [], ◌∷◌, ◌++◌, map, append-nil,
  append_assoc, arith, ltb, leb, eqb, if◌then◌else◌, Bool-cases, Option-cases, is_some, is_nil,
  length, take, drop, length-append, length-take, length-drop, take-append-drop, map_self, All,
  All-append, All-mono, Str, str, ◌==◌, ==_iff, ==_refl, ==_ne, ==_cases, ℤ, pos, negsuc, ◌+ℤ◌,
  ◌≤ℤ◌, ◌<ℤ◌, leb_ℤ, ltb_ℤ, eqb_ℤ, floor_div, int_suc, max_int, ◌%◌, ◌/◌, Result, ok, err,
  Result-cases,
}
use openchat_backend.Base.Map.{
  Map, lookup, insert, delete, get_or, lookup-insert, lookup-insert_self, lookup-insert_ne,
  lookup-delete,
}

unfoldable pub new_signaling_service : TokenService → Signaling
new_signaling_service tokens = record {
  service = record { tokens = tokens; rooms = new_room_hub };
  connections = [];
}

-- The times that a message is handled at: of the ticket, of the join, and as a pong writes it.
pub record Times : Type 0 where
  pub now : ℤ
  pub joined_at : ℤ
  pub ts : Str

pub data Call : Type 0 where
  connects : (id : Str) → Call
  receives : (id : Str) → Envelope → Times → Call
  read_fails : (id : Str) → Call
  writes : (id : Str) → Call

-- A message that ReadJSON returns: the first one joins, the others are handled.
unfoldable pub receive :
    Codec → PayloadReader → Signaling → Str → Connection → Envelope → Times → Option Signaling
receive codec r s id c envelope times = elim c.phase [
  | waiting ↦ first_message codec r s id c.participant envelope times.now times.joined_at
  | reading ↦ handle_envelope r times.ts s id c.participant envelope
  | finished ↦ some s
]

-- An error of ReadJSON.
unfoldable pub fail_read : Signaling → Str → Connection → Option Signaling
fail_read s id c = elim c.phase [
  | waiting ↦ deny s id c.participant
  | reading ↦ finish s id
  | finished ↦ some s
]

-- The writer takes the oldest message of a queue.
unfoldable pub write_one : Signaling → Str → Signaling
unfolding modify
write_one s id = record s {
  connections = modify (λ c. record c { send = drop 1 c.send }) id s.connections;
}

unfoldable pub react : Codec → PayloadReader → Signaling → Call → Option Signaling
react codec r s (connects id) = some (connect s id)
react codec r s (receives id envelope times) = elim (lookup id s.connections) [
  | none ↦ some s
  | some c ↦ receive codec r s id c envelope times
]
react codec r s (read_fails id) = elim (lookup id s.connections) [
  | none ↦ some s
  | some c ↦ fail_read s id c
]
react codec r s (writes id) = some (write_one s id)

-- The client that a call is of.
abbrev pub client_of : Call → Str
client_of (connects id) = id
client_of (receives id envelope times) = id
client_of (read_fails id) = id
client_of (writes id) = id

-- After a panic the reader of the client ends. It starts from the state before the call, without what
-- the call had done until then: where queues, rooms and clients fit together only a send of a client
-- that has left to itself panics, before which the call has changed nothing.
unfoldable pub recover : Signaling → Str → Signaling
recover s id = elim (finish s id) [ none ↦ s | some t ↦ t ]

unfoldable pub step : Codec → PayloadReader → Signaling → Call → Signaling
step codec r s call = elim (react codec r s call) [ none ↦ recover s (client_of call) | some t ↦ t ]

unfoldable pub run : Codec → PayloadReader → Signaling → List Call → Signaling
unfolding step
run codec r s [] = s
run codec r s (call ∷ calls) = run codec r (step codec r s call) calls
