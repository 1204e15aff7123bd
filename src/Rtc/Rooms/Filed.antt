-- ===== src/Rtc/Rooms/Filed.antt =====
-- Every member of a room stands under its own name, over every history of calls of roomHub
-- (internal/rtc/signaling_service.go), so that a broadcast leaves out the one who must not get it.
use openchat_backend.Rtc.Rooms.Entries.{register-Every, unregister-Every}
use openchat_backend.Rtc.Rooms.{
  RoomHub, register, unregister, broadcast, except_member, new_room_hub,
}
use openchat_backend.Rtc.Types.{Participant}
use openchat_backend.Base.{
  ◌≡◌, refl, sym, ◌∙◌, ◌≢◌, inl, inr, false, some, List, [], ◌∷◌, arith, Option-cases, is_nil, All,
  Str, ==_iff, ==_ne, ==_cases,
}
use openchat_backend.Base.Map.{Map, lookup, insert, delete, get_or, lookup-insert, lookup-delete}

-- An entry of the room of a channel is a participant of that channel, under the participant's id.
abbrev pub IsMember : Str → Str × Participant → Type 0
IsMember channel_id e = (e.1.channel_id ≡ channel_id) × (e.1.participant_id ≡ e.0)

-- No room is empty, and every entry of a room is a member.
pub record IsFiled (h : RoomHub) : Type 0 where
  pub members : (c : Str) → All (IsMember c) (get_or c h.rooms [])
  pub no_empty : (c : Str) → lookup c h.rooms ≢ some []

insert-ne_nil : (k : Str) (v : Participant) (m : Map Participant) → insert k v m ≢ []
unfolding insert
insert-ne_nil k v [] h = cc h
insert-ne_nil k v (e ∷ m) h = ground arith

register-no_empty :
    (h : RoomHub) (client : Participant)
    → ((c : Str) → lookup c h.rooms ≢ some [])
    → (c : Str) → lookup c (register h client).0.rooms ≢ some []
unfolding register
register-no_empty h client n c e = ground (
  arith,
  n c,
  lookup-insert client.channel_id c
      (insert client.participant_id client (get_or client.channel_id h.rooms [])) h.rooms,
  insert-ne_nil client.participant_id client (get_or client.channel_id h.rooms []),
)

register-IsFiled : (h : RoomHub) (client : Participant) → IsFiled h → IsFiled (register h client).0
register-IsFiled h client f = record {
  members = register-Every IsMember h client (refl, refl) f.members;
  no_empty = register-no_empty h client f.no_empty;
}

unregister-no_empty :
    (h : RoomHub) (k id : Str)
    → ((c : Str) → lookup c h.rooms ≢ some [])
    → (c : Str) → lookup c (unregister h k id).rooms ≢ some []
unfolding unregister
unregister-no_empty h k id n c = elim (Option-cases (lookup k h.rooms)) [
  | inl e ↦ rw (e, unregister) (n c)
  | inr (room, e) ↦
      rw (e, unregister)
        (λ d.
          ground
            (arith, n c, lookup-delete k c h.rooms, lookup-insert k c (delete id room) h.rooms))
]

unregister-IsFiled : (h : RoomHub) (k id : Str) → IsFiled h → IsFiled (unregister h k id)
unregister-IsFiled h k id f = record {
  members = unregister-Every IsMember h k id f.members;
  no_empty = unregister-no_empty h k id f.no_empty;
}

pub data Call : Type 0 where
  join : Participant → Call
  leave : (channel_id participant_id : Str) → Call

unfoldable pub step : RoomHub → Call → RoomHub
step h (join client) = (register h client).0
step h (leave channel_id participant_id) = unregister h channel_id participant_id

unfoldable pub run : RoomHub → List Call → RoomHub
unfolding step
run h [] = h
run h (c ∷ cs) = run (step h c) cs

run-IsFiled : (h : RoomHub) (cs : List Call) → IsFiled h → IsFiled (run h cs)
unfolding run step
run-IsFiled h [] f = f
run-IsFiled h (join client ∷ cs) f =
    run-IsFiled (register h client).0 cs (register-IsFiled h client f)
run-IsFiled h (leave k id ∷ cs) f = run-IsFiled (unregister h k id) cs (unregister-IsFiled h k id f)

-- After any history of calls on a new hub, every entry of a room is a participant of that channel
-- under its own id, and no room is empty.
pub run-new_room_hub-IsFiled : (cs : List Call) → IsFiled (run new_room_hub cs)
run-new_room_hub-IsFiled cs =
    run-IsFiled new_room_hub cs
      (unfold new_room_hub lookup in record { members = λ c. tt; no_empty = λ c e. cc e })

except_member-All :
    (channel_id except_id : Str) (room : Map Participant)
    → is_nil except_id ≡ false
    → All (IsMember channel_id) room
    → All
        (λ (p : Participant). (p.channel_id ≡ channel_id) × (p.participant_id ≢ except_id))
        (except_member except_id room)
unfolding except_member
except_member-All channel_id except_id [] given h = tt
except_member-All channel_id except_id ((id, client) ∷ room) given ((channel, own), h) =
    elim (==_cases id except_id) [
      | inl same ↦
          rw (given, except_member)
            (rw ((==_iff id except_id).1 same, except_member)
              (except_member-All channel_id except_id room given h))
      | inr other ↦
          rw (given, except_member)
            (rw (==_ne id except_id other, except_member)
              (
                (channel, λ e. other (sym own ∙ e)),
                except_member-All channel_id except_id room given h,
              ))
    ]

-- Where every entry of a room is a member, a broadcast that leaves out a name that is not blank goes
-- to participants of its channel only, and to none with that name.
pub broadcast-All :
    (h : RoomHub) (channel_id except_id : Str)
    → IsFiled h
    → is_nil except_id ≡ false
    → All
        (λ (p : Participant). (p.channel_id ≡ channel_id) × (p.participant_id ≢ except_id))
        (broadcast h channel_id except_id)
unfolding broadcast
broadcast-All h channel_id except_id f given =
    except_member-All channel_id except_id (get_or channel_id h.rooms []) given
      (f.members channel_id)
