-- ===== src/Rtc/Events/Safety.antt =====
-- No message of a client that is open makes the signaling service panic, and what it leaves is sound
-- (internal/rtc/signaling_service.go).
use openchat_backend.Rtc.Events.Dispatch.{handle_envelope-cases}
use openchat_backend.Rtc.Signaling.Closing.{IsBusy, close_connection-IsSound}
use openchat_backend.Rtc.Signaling.Sound.{
  IsLive, IsSound, Sends-IsSound, send_own-Sends, send_room-Sends, send_own_open, send_room_live,
}
use openchat_backend.Rtc.Signaling.Queues.{IsOpen}
use openchat_backend.Rtc.Signaling.{Signaling, Envelope, Outgoing, send_own, send_room, send_error}
use openchat_backend.Rtc.Events.{
  PayloadReader, relay_media_state, forward_signal, media_denied, payload_object, text_at, text,
  handle_envelope,
}
use openchat_backend.Rtc.Rooms.Entries.{Every}
use openchat_backend.Rtc.Rooms.{RoomHub, send_to_participant}
use openchat_backend.Rtc.Types.{Participant}
use openchat_backend.Strings.{trim_space}
use openchat_backend.Base.{
  some_eq, ◌≡◌, refl, sym, subst, inl, inr, Bool, true, false, Option, some, [], ◌∷◌, Bool-cases,
  Option-cases, is_nil, All, Str, str, ◌==◌, ==_iff, ◌∙◌,
}
use openchat_backend.Base.Map.{Map, lookup, insert, get_or}

-- A step that does not panic, into a sound state.
abbrev pub Goes : Option Signaling → Type 0
Goes o = (t : Signaling) × (o ≡ some t) × IsSound t

pub Goes-eq : (a b : Option Signaling) → a ≡ b → Goes b → Goes a
Goes-eq a b e = subst Goes (sym e)

pub send_own-Goes :
    (s : Signaling) (id : Str) (p : Participant) (message : Outgoing)
    → IsSound s
    → IsOpen s.connections id p
    → Goes (send_own s id message)
send_own-Goes s id p message h o =
    let (t, e) = send_own_open s id p message o in
    (t, e, Sends-IsSound s t (send_own-Sends s t id message e) h)

pub send_room-Goes :
    (s : Signaling) (channel_id except_id : Str) (message : Outgoing)
    → IsSound s
    → Goes (send_room s channel_id except_id message)
send_room-Goes s channel_id except_id message h =
    let (t, e) = send_room_live s channel_id except_id message h.live in
    (t, e, Sends-IsSound s t (send_room-Sends s t channel_id except_id message e) h)

pub send_error-Goes :
    (s : Signaling) (id : Str) (self p : Participant) (request_id code : Str) (retryable : Bool)
    → IsSound s
    → IsOpen s.connections id p
    → Goes (send_error s id self request_id code retryable)
unfolding send_error
send_error-Goes s id self p request_id code retryable h o = send_own-Goes s id p _ h o

All-lookup :
    (P : Str × Participant → Type 0) (k : Str) (m : Map Participant) (p : Participant)
    → All P m
    → lookup k m ≡ some p
    → P (k, p)
unfolding lookup
All-lookup P k [] p h e = absurd (cc e)
All-lookup P k (entry ∷ m) p (q, h) e = elim (Bool-cases (entry.0 == k)) [
  | inl here ↦
      subst (λ i. P (i, p)) ((==_iff entry.0 k).0 here)
        (subst (λ x. P (entry.0, x)) (some_eq (rw here at e)) q)
  | inr other ↦ All-lookup P k m p h (rw other at e)
]

-- Whom a message to a participant reaches stands in the room.
send_to_participant-Every :
    (P : Str → Str × Participant → Type 0) (h : RoomHub) (channel_id id : Str) (p : Participant)
    → Every P h.rooms
    → send_to_participant h channel_id id ≡ some p
    → P channel_id (id, p)
unfolding send_to_participant
send_to_participant-Every P h channel_id id p all e =
    elim (Option-cases (lookup channel_id h.rooms)) [
      | inl d ↦ absurd (cc (rw (d, send_to_participant) at e))
      | inr (room, d) ↦
          All-lookup (P channel_id) id room p
            (subst (All (P channel_id)) (rw (d, get_or) refl) (all channel_id))
            (rw (d, send_to_participant) at e)
    ]

-- Whatever a step leaves, if it does not panic, is sound.
abbrev pub Keeps : Option Signaling → Type 0
Keeps o = (t : Signaling) → o ≡ some t → IsSound t

pub Keeps-eq : (a b : Option Signaling) → a ≡ b → Keeps b → Keeps a
Keeps-eq a b e = subst Keeps (sym e)

pub Goes-Keeps : (o : Option Signaling) → Goes o → Keeps o
Goes-Keeps o (t, e, h) u d = subst IsSound (some_eq (sym e ∙ d)) h

pub send_own-Keeps :
    (s : Signaling) (id : Str) (message : Outgoing) → IsSound s → Keeps (send_own s id message)
send_own-Keeps s id message h t e = Sends-IsSound s t (send_own-Sends s t id message e) h

pub send_error-Keeps :
    (s : Signaling) (id : Str) (self : Participant) (request_id code : Str) (retryable : Bool)
    → IsSound s
    → Keeps (send_error s id self request_id code retryable)
unfolding send_error
send_error-Keeps s id self request_id code retryable h = send_own-Keeps s id _ h

pub send_room-Keeps :
    (s : Signaling) (channel_id except_id : Str) (message : Outgoing)
    → IsSound s
    → Keeps (send_room s channel_id except_id message)
send_room-Keeps s channel_id except_id message h =
    Goes-Keeps (send_room s channel_id except_id message)
      (send_room-Goes s channel_id except_id message h)

module _ (r : PayloadReader) (s : Signaling) (id : Str) (self : Participant) (sound : IsSound s)
    (open' : IsOpen s.connections id self) where
  relay_media_state-Goes : (envelope : Envelope) → Goes (relay_media_state r s id self envelope)
  unfolding relay_media_state
  relay_media_state-Goes envelope =
      elim (Bool-cases (
        media_denied self.permissions
          (trim_space (text_at (str "stream_kind") (payload_object r envelope.payload))))) [
            | inl denied ↦
                rw (denied, relay_media_state)
                  (send_error-Goes s id self self envelope.request_id (str "rtc_media_denied") false
                    sound open')
            | inr allowed ↦
                rw (allowed, relay_media_state) (send_room-Goes s self.channel_id [] _ sound)
          ]

  forward_signal-Goes : (envelope : Envelope) → Goes (forward_signal r s id self envelope)
  unfolding forward_signal
  forward_signal-Goes envelope =
      let fields =
        insert (str "from_participant_id") (text self.participant_id)
          (payload_object r envelope.payload) in
      let target_id = trim_space (text_at (str "target_participant_id") fields) in
      elim (Bool-cases (is_nil target_id)) [
        | inl blank ↦
            rw (blank, forward_signal)
              (send_room-Goes s self.channel_id self.participant_id _ sound)
        | inr named ↦
            elim (Option-cases (send_to_participant s.service.rooms self.channel_id target_id)) [
              | inl e ↦
                  rw (named, forward_signal)
                    (rw (e, forward_signal)
                      (send_error-Goes s id self self envelope.request_id
                        (str "rtc_target_not_found") true sound open'))
              | inr (target, e) ↦
                  let (_, own, _, live) =
                    send_to_participant-Every (IsLive s.connections) s.service.rooms self.channel_id
                      target_id target sound.live e in
                  rw (named, forward_signal)
                    (rw (e, forward_signal)
                      (send_own-Goes s target.participant_id target _ sound
                        (subst (λ i. IsOpen s.connections i target) (sym own) live)))
            ]
      ]

  -- The client's connection stands, and is not waiting.
  pub handle_envelope-Goes :
      (ts : Str) (envelope : Envelope)
      → IsBusy s.connections id
      → Goes (handle_envelope r ts s id self envelope)
  handle_envelope-Goes ts envelope busy =
      handle_envelope-cases Goes r ts s id self envelope (send_own-Goes s id self _ sound open')
        (close_connection-IsSound s id sound busy) (relay_media_state-Goes envelope)
        (λ _. forward_signal-Goes envelope)
        (send_error-Goes s id self self envelope.request_id (str "rtc_unknown_event") false sound
          open')
