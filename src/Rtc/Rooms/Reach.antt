-- ===== src/Rtc/Rooms/Reach.antt =====
-- Whom sendToParticipant reaches (internal/rtc/signaling_service.go).
use openchat_backend.Rtc.Rooms.{RoomHub, register, send_to_participant}
use openchat_backend.Rtc.Types.{Participant}
use openchat_backend.Base.{◌≡◌, refl, ◌&&◌, none, some, [], arith, if◌then◌else◌, Str, ◌==◌, ==_iff}
use openchat_backend.Base.Map.{lookup, insert, get_or, lookup-insert}

absent_lookup : (y : Str) → lookup {V = Participant} y [] ≡ none
unfolding lookup
absent_lookup y = refl

-- After a client is registered an envelope for its id in its channel reaches that client, and an
-- envelope for any other address reaches whom it reached before.
pub send_to_participant-register :
    (h : RoomHub) (client : Participant) (channel_id participant_id : Str)
    → send_to_participant (register h client).0 channel_id participant_id ≡ (
        if client.channel_id == channel_id && client.participant_id == participant_id
        then some client
        else send_to_participant h channel_id participant_id)
unfolding send_to_participant register
send_to_participant-register h client channel_id participant_id = ground (
  arith,
  lookup-insert client.channel_id channel_id
      (insert client.participant_id client (get_or client.channel_id h.rooms [])) h.rooms,
  lookup-insert client.participant_id participant_id client (get_or client.channel_id h.rooms []),
  ==_iff client.channel_id channel_id,
  absent_lookup participant_id,
)
