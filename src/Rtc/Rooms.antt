-- ===== src/Rtc/Rooms.antt =====
-- internal/rtc/signaling_service.go: roomHub, the calls and who takes part in them.
-- A client that has joined is given by its participant, which does not change from then on.
pub mod Entries
pub mod Filed
pub mod Reach
pub mod Tests
use openchat_backend.Rtc.Types.{Participant}
use openchat_backend.Base.{
  ℕ, zero, suc, ◌+◌, ◌-◌, ◌*◌, ◌≤◌, ◌<◌, min, ◌≡◌, refl, sym, ap, ◌∙◌, subst, ◌≢◌, ◌↔◌, ◌⊎◌, inl,
  inr, Bool, true, false, not, ◌&&◌, ◌||◌, Option, none, some, List, [], ◌∷◌, ◌++◌, map, append-nil,
  append_assoc, arith, ltb, leb, eqb, if◌then◌else◌, Bool-cases, Option-cases, is_some, is_nil,
  length, take, drop, length-append, length-take, length-drop, take-append-drop, map_self, All,
  All-append, All-mono, Str, str, ◌==◌, ==_iff, ==_refl, ==_ne, ==_cases, ℤ, pos, negsuc, ◌+ℤ◌,
  ◌≤ℤ◌, ◌<ℤ◌, leb_ℤ, ltb_ℤ, eqb_ℤ, floor_div, int_suc, max_int, ◌%◌, ◌/◌, Result, ok, err,
  Result-cases,
}
use openchat_backend.Base.Map.{
  Map, lookup, insert, delete, get_or, lookup-insert, lookup-insert_self, lookup-insert_ne,
  lookup-delete,
}

pub record RoomHub : Type 0 where
  pub rooms : Map (Map Participant)

unfoldable pub new_room_hub : RoomHub
new_room_hub = record { rooms = [] }

-- The hub, and the participants that were in the room before.
unfoldable pub register : RoomHub → Participant → RoomHub × List Participant
register h client =
    let room = get_or client.channel_id h.rooms [] in
    (
      record {
        rooms = insert client.channel_id (insert client.participant_id client room) h.rooms;
      },
      map (λ e. e.1) room,
    )

unfoldable pub unregister : RoomHub → Str → Str → RoomHub
unregister h channel_id participant_id = elim (lookup channel_id h.rooms) [
  | none ↦ h
  | some room ↦
      let left = delete participant_id room in
      if is_nil left
      then record { rooms = delete channel_id h.rooms }
      else record { rooms = insert channel_id left h.rooms }
]

-- The members of a room but the one with a name, if a name is given.
unfoldable pub except_member : Str → Map Participant → List Participant
except_member except_id [] = []
except_member except_id ((participant_id, client) ∷ room) =
    let rest = except_member except_id room in
    if not (is_nil except_id) && participant_id == except_id then rest else client ∷ rest

-- The clients that an envelope is queued for.
unfoldable pub broadcast : RoomHub → Str → Str → List Participant
broadcast h channel_id except_id = except_member except_id (get_or channel_id h.rooms [])

-- The client that an envelope is queued for, if the call returns true.
unfoldable pub send_to_participant : RoomHub → Str → Str → Option Participant
send_to_participant h channel_id participant_id = elim (lookup channel_id h.rooms) [
  | none ↦ none
  | some room ↦ lookup participant_id room
]
