-- ===== src/Rtc/Events/Joins.antt =====
-- The first message of a client, and the end of its reader (internal/rtc/signaling_service.go).
use openchat_backend.Rtc.Tokens.{Codec, TokenService, parse_and_consume}
use openchat_backend.Rtc.Events.Safety.{
  Goes, Goes-eq, send_own-Goes, send_room-Goes, send_error-Goes,
}
use openchat_backend.Rtc.Signaling.Closing.{
  view-modify, change_shape, modify-Waits, IsBusy, close_connection-IsSound,
}
use openchat_backend.Rtc.Signaling.Sound.{IsLive, IsSound, IsSound-view}
use openchat_backend.Rtc.Signaling.Queues.{view, open_shape, IsOpen}
use openchat_backend.Rtc.Signaling.{
  Signaling, Connection, Envelope, Phase, waiting, reading, finished, no_participant, send_error,
  modify,
}
use openchat_backend.Rtc.Events.{
  set_phase, finish, deny, greet, and_then, PayloadReader, first_message, trim_space,
}
use openchat_backend.Rtc.Joining.{
  Joined, join_room, new_participant, wait_for_join, SignalingService, JoinError, not_a_join,
  invalid_payload, refused_ticket,
}
use openchat_backend.Rtc.Rooms.Entries.{Every, register-Every}
use openchat_backend.Rtc.Rooms.{register, RoomHub, broadcast}
use openchat_backend.Rtc.Types.{Participant, TicketClaims}
use openchat_backend.Base.{
  some_eq, ◌≡◌, refl, sym, ap, ◌∙◌, inl, inr, false, Option, some, [], if◌then◌else◌, Bool-cases,
  Option-cases, is_nil, All-mono, Str, str, ◌==◌, ==_refl, ==_ne, ==_cases, ℤ, ok, Result, err,
  Result-cases,
}

abbrev to_phase : Phase → Connection → Connection
to_phase phase c = record c { phase = phase }

view-set_phase :
    (phase : Phase) (id k : Str) (s : Signaling)
    → view (set_phase phase id s).connections k ≡ (
        if id == k
        then change_shape (to_phase phase) (view s.connections k)
        else view s.connections k)
unfolding set_phase
view-set_phase phase id k s = view-modify (to_phase phase) id k s.connections (λ c. refl)

set_finished-IsSound : (s : Signaling) (id : Str) → IsSound s → IsSound (set_phase finished id s)
unfolding set_phase
set_finished-IsSound s id h = record {
  live = λ k. All-mono _ _ (λ e l. kept k e l) _ (h.live k);
  waits =
      modify-Waits (to_phase finished) id s.connections (λ c. refl) (λ c e w. absurd (cc w))
        h.waits;
}
  where
    kept :
        (k : Str) (e : Str × Participant)
        → IsLive s.connections k e
        → IsLive (set_phase finished id s).connections k e
    kept k e (channel, own, named, (phase, at)) = elim (Bool-cases (id == e.0)) [
      | inl here ↦ (
        channel,
        own,
        named,
        (
          finished,
          view-set_phase finished id e.0 s ∙ rw here (ap (change_shape (to_phase finished)) at),
        ),
      )
      | inr other ↦ (channel, own, named, (phase, view-set_phase finished id e.0 s ∙ rw other at))
    ]

set_finished-IsBusy : (s : Signaling) (id : Str) → IsBusy (set_phase finished id s).connections id
set_finished-IsBusy s id c e w = elim (Option-cases (view s.connections id)) [
  | inl d ↦ absurd (cc (rw d at (rw (==_refl id) at (sym (view-set_phase finished id id s) ∙ e))))
  | inr (b, d) ↦ cc (
    ap (λ (x : Connection). x.phase)
        (some_eq (rw d at (rw (==_refl id) at (sym (view-set_phase finished id id s) ∙ e)))),
    w,
  )
]

pub finish-Goes : (s : Signaling) (id : Str) → IsSound s → Goes (finish s id)
unfolding finish
finish-Goes s id h =
    close_connection-IsSound (set_phase finished id s) id (set_finished-IsSound s id h)
      (set_finished-IsBusy s id)

and_then-Goes :
    (o : Option Signaling) (next : Signaling → Option Signaling)
    → Goes o
    → ((t : Signaling) → o ≡ some t → IsSound t → Goes (next t))
    → Goes (and_then o next)
and_then-Goes o next (t, e, h) k =
    Goes-eq (and_then o next) (next t) (ap (λ x. and_then x next) e) (k t e h)

pub deny-Goes :
    (s : Signaling) (id : Str) (self p : Participant)
    → IsSound s
    → IsOpen s.connections id p
    → Goes (deny s id self)
unfolding deny
deny-Goes s id self p h o =
    and_then-Goes (send_error s id self [] (str "rtc_join_denied") false) (λ t. finish t id)
      (send_error-Goes s id self p [] (str "rtc_join_denied") false h o)
      (λ t _ sound. finish-Goes t id sound)

abbrev as_joined : Participant → Connection → Connection
as_joined self c = record c { participant = self; phase = reading }

-- The state after a client that waited has become a participant and stands in the room.
module _ (s : Signaling) (id : Str) (self : Participant) (u : Signaling)
    (rooms : u.service.rooms ≡ (register s.service.rooms self).0)
    (connections : u.connections ≡ modify (as_joined self) id s.connections) (sound : IsSound s)
    (waited : view s.connections id ≡ some (open_shape no_participant waiting))
    (own : self.participant_id ≡ id) (named : is_nil self.channel_id ≡ false) where
  joined_view :
      (k : Str)
      → view u.connections k ≡ (
          if id == k
          then change_shape (as_joined self) (view s.connections k)
          else view s.connections k)
  joined_view k =
      ap (λ x. view x k) connections ∙ view-modify (as_joined self) id k s.connections (λ c. refl)

  joined_at_id : view u.connections id ≡ some (open_shape self reading)
  joined_at_id = joined_view id ∙ rw (==_refl id) (ap (change_shape (as_joined self)) waited)

  old-IsLive : Every (IsLive u.connections) s.service.rooms.rooms
  old-IsLive k = All-mono _ _ (λ e l. still k e l) _ (sound.live k)
    where
      still :
          (k : Str) (e : Str × Participant) → IsLive s.connections k e → IsLive u.connections k e
      still k e (channel, mine, real, (phase, at_e)) = elim (==_cases id e.0) [
        | inl here ↦
            let nobody : e.1 ≡ no_participant =
              ap (λ (x : Connection). x.participant)
                (some_eq (sym at_e ∙ ap (view s.connections) (sym here) ∙ waited)) in
            absurd (
              cc (
                sym real ∙ ap is_nil (sym channel ∙ ap (λ (x : Participant). x.channel_id) nobody)))
        | inr other ↦ (channel, mine, real, (phase, joined_view e.0 ∙ rw (==_ne id e.0 other) at_e))
      ]

  joined-IsSound : IsSound u
  joined-IsSound = record {
    live = rw rooms (
        register-Every (IsLive u.connections) s.service.rooms self
          (refl, refl, named, (reading, ap (view u.connections) own ∙ joined_at_id)) old-IsLive);
    waits = rw connections (
        modify-Waits (as_joined self) id s.connections (λ c. refl) (λ c e w. absurd (cc w))
          sound.waits);
  }

-- Greeting a client that has a place in its room.
greet-Goes :
    (s t : Signaling) (id : Str) (envelope : Envelope) (joined : Joined)
    → IsSound s
    → view s.connections id ≡ some (open_shape no_participant waiting)
    → t.service.rooms ≡ (register s.service.rooms joined.participant).0
    → t.connections ≡ s.connections
    → joined.participant.participant_id ≡ id
    → is_nil joined.participant.channel_id ≡ false
    → Goes (greet t id envelope joined)
unfolding greet
greet-Goes s t id envelope joined h waited rooms connections own named =
    let self = joined.participant in
    let u : Signaling = record t { connections = modify (as_joined self) id t.connections } in
    let moved : u.connections ≡ modify (as_joined self) id s.connections =
      ap (modify (as_joined self) id) connections in
    and_then-Goes _ _
      (send_own-Goes u id self _ (joined-IsSound s id self u rooms moved h waited own named)
        (reading, joined_at_id s id self u rooms moved h waited own named))
      (λ v _ sound. send_room-Goes v self.channel_id self.participant_id _ sound)

-- The ticket in a payload, where the service accepts it at that time, names a channel: Issue refuses a
-- blank one, and without the secret nobody else signs a ticket that is accepted.
abbrev pub NamesChannel : Codec → PayloadReader → TokenService → (now : ℤ) → Str → Type 0
NamesChannel codec r tokens now payload =
    (ticket : Str) (claims : TicketClaims)
    → r.ticket payload ≡ some ticket
    → (parse_and_consume codec tokens (trim_space ticket) now).1 ≡ ok claims
    → is_nil claims.channel_id ≡ false

-- The ways in which joining ends.
data JoinEnds (codec : Codec) (read_ticket : Str → Option Str) (s : SignalingService)
    (id payload : Str) (now joined_at : ℤ) (o : SignalingService × Result JoinError Joined)
    : Type 0 where
  turned_away :
      (e : JoinError)
      → o.1 ≡ err e
      → o.0.rooms ≡ s.rooms
      → JoinEnds codec read_ticket s id payload now joined_at o
  let_in :
      (tokens : TokenService) (claims : TicketClaims) (ticket : Str)
      → read_ticket payload ≡ some ticket
      → (parse_and_consume codec s.tokens (trim_space ticket) now).1 ≡ ok claims
      → o ≡ join_room (record s { tokens = tokens }) (new_participant id claims joined_at)
      → JoinEnds codec read_ticket s id payload now joined_at o

wait_for_join-JoinEnds :
    (codec : Codec) (read_ticket : Str → Option Str) (s : SignalingService) (id type payload : Str)
    (now joined_at : ℤ)
    → JoinEnds codec read_ticket s id payload now joined_at
        (wait_for_join codec read_ticket s id type payload now joined_at)
unfolding wait_for_join
wait_for_join-JoinEnds codec read_ticket s id type payload now joined_at =
    elim (Bool-cases (type == str "rtc.join")) [
      | inr other ↦
          turned_away not_a_join (rw (other, wait_for_join) refl) (rw (other, wait_for_join) refl)
      | inl joins ↦ elim (Option-cases (read_ticket payload)) [
        | inl e ↦
            turned_away invalid_payload (rw (joins, wait_for_join) (rw (e, wait_for_join) refl))
              (rw (joins, wait_for_join) (rw (e, wait_for_join) refl))
        | inr (ticket, e) ↦
            elim (Result-cases (parse_and_consume codec s.tokens (trim_space ticket) now).1) [
              | inl (claims, d) ↦
                  let_in (parse_and_consume codec s.tokens (trim_space ticket) now).0 claims ticket
                    e d
                    (rw (joins, wait_for_join) (rw (e, wait_for_join) (rw (d, wait_for_join) refl)))
              | inr (x, d) ↦
                  turned_away (refused_ticket x)
                    (rw (joins, wait_for_join) (rw (e, wait_for_join) (rw (d, wait_for_join) refl)))
                    (rw (joins, wait_for_join) (rw (e, wait_for_join) (rw (d, wait_for_join) refl)))
            ]
      ]
    ]

joined_room_of : Participant → RoomHub → Joined
unfolding register
joined_room_of p h = record {
  participant = p;
  existing = (register h p).1;
  notified = broadcast (register h p).0 p.channel_id p.participant_id;
}

join_room_lem :
    (s : SignalingService) (p : Participant)
    → ((join_room s p).1 ≡ ok (joined_room_of p s.rooms))
      × ((join_room s p).0.rooms ≡ (register s.rooms p).0)
unfolding join_room joined_room_of
join_room_lem s p = (refl, refl)

joined_room_of-participant : (p : Participant) (h : RoomHub) → (joined_room_of p h).participant ≡ p
unfolding joined_room_of
joined_room_of-participant p h = refl

module _ (codec : Codec) (r : PayloadReader) (s : Signaling) (id : Str) (envelope : Envelope)
    (now joined_at : ℤ) (names : NamesChannel codec r s.service.tokens now envelope.payload)
    (h : IsSound s)
    (waited : view s.connections id ≡ some (open_shape no_participant waiting)) where
  abbrev joining : SignalingService × Result JoinError Joined
  joining = wait_for_join codec r.ticket s.service id envelope.type envelope.payload now joined_at

  pub first_message-Goes : Goes (first_message codec r s id no_participant envelope now joined_at)
  unfolding first_message
  first_message-Goes =
      elim (wait_for_join-JoinEnds codec r.ticket s.service id envelope.type envelope.payload now
        joined_at) [
          | turned_away e o rooms ↦
              rw (o, first_message)
                (deny-Goes (record s { service = joining.0 }) id no_participant no_participant
                  (IsSound-view s (record s { service = joining.0 }) rooms (λ k. refl) h)
                  (waiting, waited))
          | let_in tokens claims ticket found parsed o ↦
              let self = new_participant id claims joined_at in
              let (result, rooms) = join_room_lem (record s.service { tokens = tokens }) self in
              rw
                (
                  ap (λ (x : SignalingService × Result JoinError Joined). x.1) o ∙ result,
                  first_message,
                )
                (greet-Goes s (record s { service = joining.0 }) id envelope
                  (joined_room_of self s.service.rooms) h waited
                  (ap (λ (x : SignalingService × Result JoinError Joined). x.0.rooms) o
                    ∙ rooms
                    ∙ ap (λ q. (register s.service.rooms q).0)
                        (sym (joined_room_of-participant self s.service.rooms)))
                  refl
                  (ap (λ (x : Participant). x.participant_id)
                    (joined_room_of-participant self s.service.rooms))
                  (ap (λ (x : Participant). is_nil x.channel_id)
                      (joined_room_of-participant self s.service.rooms)
                    ∙ names ticket claims found parsed))
        ]
