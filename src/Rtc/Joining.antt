-- ===== src/Rtc/Joining.antt =====
-- internal/rtc/signaling_service.go: joining a call with a ticket, which composes the tickets with
-- the rooms. The deadlines of the connection are not modelled.
pub mod Once
pub mod Tests
use openchat_backend.Rtc.Rooms.{RoomHub, register, broadcast}
use openchat_backend.Rtc.Tokens.{Codec, TokenService, parse_and_consume, Error}
use openchat_backend.Rtc.Types.{Participant, TicketClaims}
use openchat_backend.Strings.{trim_space}
use openchat_backend.Base.{
  ℕ, zero, suc, ◌+◌, ◌-◌, ◌*◌, ◌≤◌, ◌<◌, min, ◌≡◌, refl, sym, ap, ◌∙◌, subst, ◌≢◌, ◌↔◌, ◌⊎◌, inl,
  inr, Bool, true, false, not, ◌&&◌, ◌||◌, Option, none, some, List, [], ◌∷◌, ◌++◌, map, append-nil,
  append_assoc, arith, ltb, leb, eqb, if◌then◌else◌, Bool-cases, Option-cases, is_some, is_nil,
  length, take, drop, length-append, length-take, length-drop, take-append-drop, map_self, All,
  All-append, All-mono, Str, str, ◌==◌, ==_iff, ==_refl, ==_ne, ==_cases, ℤ, pos, negsuc, ◌+ℤ◌,
  ◌≤ℤ◌, ◌<ℤ◌, leb_ℤ, ltb_ℤ, eqb_ℤ, floor_div, int_suc, max_int, ◌%◌, ◌/◌, Result, ok, err,
  Result-cases,
}
use openchat_backend.Base.Map.{
  Map, lookup, insert, delete, get_or, lookup-insert, lookup-insert_self, lookup-insert_ne,
  lookup-delete,
}

-- The part of the service that joining reads and writes.
pub record SignalingService : Type 0 where
  pub tokens : TokenService
  pub rooms : RoomHub

pub data JoinError : Type 0 where
  not_a_join invalid_payload : JoinError
  refused_ticket : Error → JoinError

-- Who is told that a participant has joined, beside the participant.
pub record Joined : Type 0 where
  pub participant : Participant
  pub existing : List Participant
  pub notified : List Participant

abbrev pub new_participant : Str → TicketClaims → ℤ → Participant
new_participant id claims joined_at = record {
  participant_id = id;
  channel_id = claims.channel_id;
  user_uid = claims.user_uid;
  device_id = claims.device_id;
  permissions = claims.permissions;
  joined_at = joined_at;
}

unfoldable pub join_room :
    SignalingService → Participant → SignalingService × Result JoinError Joined
join_room s participant =
    let (rooms, existing) = register s.rooms participant in
    (
      record s { rooms = rooms },
      ok (record {
        participant = participant;
        existing = existing;
        notified = broadcast rooms participant.channel_id participant.participant_id;
      }),
    )

-- `read_ticket` is what json.Unmarshal reads of a payload, `id` the id of the client, `now` and
-- `joined_at` the times that ParseAndConsume and waitForJoin take.
unfoldable pub wait_for_join :
    Codec
    → (read_ticket : Str → Option Str) → SignalingService
    → (id type payload : Str) → (now joined_at : ℤ) → SignalingService × Result JoinError Joined
wait_for_join codec read_ticket s id type payload now joined_at =
    if not (type == str "rtc.join") then (s, err not_a_join) else elim (read_ticket payload) [
      | none ↦ (s, err invalid_payload)
      | some ticket ↦
          let (tokens, parsed) = parse_and_consume codec s.tokens (trim_space ticket) now in
          elim parsed [
            | err e ↦ (record s { tokens = tokens }, err (refused_ticket e))
            | ok claims ↦
                join_room (record s { tokens = tokens }) (new_participant id claims joined_at)
          ]
    ]
