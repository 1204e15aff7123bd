-- ===== src/Rtc/Signaling/Sound.antt =====
-- Who is in a room is connected and open, and what keeps it so (internal/rtc/signaling_service.go).
use openchat_backend.Rtc.Signaling.Queues.{
  view, SameView, IsOpen, IsOpen-view, enqueue-view, enqueue_all-view, enqueue_open,
  enqueue_all_open, open_shape,
}
use openchat_backend.Rtc.Signaling.{
  Signaling, Connection, Outgoing, waiting, no_participant, enqueue, enqueue_all, send_own,
  send_room, SignalingService,
}
use openchat_backend.Rtc.Rooms.Entries.{Every, broadcast-Every}
use openchat_backend.Rtc.Rooms.{broadcast}
use openchat_backend.Rtc.Types.{Participant}
use openchat_backend.Base.{
  some_eq, ◌≡◌, refl, sym, ap, ◌∙◌, subst, inl, inr, false, some, Option-cases, is_nil, All-mono,
  Str,
}
use openchat_backend.Base.Map.{Map}

-- An entry of a room is a participant of that channel, which has a name, under the participant's id,
-- and the client with that id is open and is that participant.
abbrev pub IsLive : Map Connection → Str → Str × Participant → Type 0
IsLive connections channel_id e =
    (e.1.channel_id ≡ channel_id)
    × (e.1.participant_id ≡ e.0)
    × (is_nil channel_id ≡ false)
    × IsOpen connections e.0 e.1

-- A client that waits is nobody yet, and open.
abbrev pub Waits : Map Connection → Type 0
Waits connections =
    (id : Str) (c : Connection)
    → view connections id ≡ some c
    → c.phase ≡ waiting
    → c ≡ open_shape no_participant waiting

-- Every entry of a room is live, and a client that waits is nobody yet.
pub record IsSound (s : Signaling) : Type 0 where
  pub live : Every (IsLive s.connections) s.service.rooms.rooms
  pub waits : Waits s.connections

pub IsLive-view :
    (a b : Map Connection) (k : Str) (e : Str × Participant)
    → SameView a b
    → IsLive a k e
    → IsLive b k e
IsLive-view a b k e same (channel, own, named, open') =
    (channel, own, named, IsOpen-view a b e.0 e.1 same open')

pub IsSound-view :
    (s t : Signaling)
    → t.service.rooms ≡ s.service.rooms
    → SameView s.connections t.connections
    → IsSound s
    → IsSound t
IsSound-view s t rooms same h = record {
  live = λ k.
      rw rooms (All-mono _ _ (λ e. IsLive-view s.connections t.connections k e same) _ (h.live k));
  waits = λ id c e. h.waits id c (sym (same id) ∙ e);
}

-- A send keeps the service and every client but for the queues.
abbrev pub Sends : Signaling → Signaling → Type 0
Sends s t = (t.service ≡ s.service) × SameView s.connections t.connections

pub Sends-IsSound : (s t : Signaling) → Sends s t → IsSound s → IsSound t
Sends-IsSound s t (service, same) =
    IsSound-view s t (ap (λ (x : SignalingService). x.rooms) service) same

pub send_own-Sends :
    (s t : Signaling) (id : Str) (message : Outgoing) → send_own s id message ≡ some t → Sends s t
unfolding send_own
send_own-Sends s t id message h = elim (Option-cases (enqueue s.connections id message)) [
  | inl e ↦ absurd (cc (rw (e, send_own) at h))
  | inr (b, e) ↦
      subst (Sends s) (some_eq (rw (e, send_own) at h))
        (refl, enqueue-view s.connections b id message e)
]

pub send_room-Sends :
    (s t : Signaling) (channel_id except_id : Str) (message : Outgoing)
    → send_room s channel_id except_id message ≡ some t
    → Sends s t
unfolding send_room
send_room-Sends s t channel_id except_id message h =
    elim (Option-cases
      (enqueue_all s.connections message (broadcast s.service.rooms channel_id except_id))) [
        | inl e ↦ absurd (cc (rw (e, send_room) at h))
        | inr (b, e) ↦
            subst (Sends s) (some_eq (rw (e, send_room) at h))
              (refl, enqueue_all-view s.connections b message _ e)
      ]

pub send_own_open :
    (s : Signaling) (id : Str) (p : Participant) (message : Outgoing)
    → IsOpen s.connections id p
    → (t : Signaling) × (send_own s id message ≡ some t)
unfolding send_own
send_own_open s id p message h =
    let (b, e) = enqueue_open s.connections id p message h in
    (record s { connections = b }, rw (e, send_own) refl)

-- A broadcast to a room of live clients does not panic.
pub send_room_live :
    (s : Signaling) (channel_id except_id : Str) (message : Outgoing)
    → Every (IsLive s.connections) s.service.rooms.rooms
    → (t : Signaling) × (send_room s channel_id except_id message ≡ some t)
unfolding send_room
send_room_live s channel_id except_id message h =
    let (b, e) =
      enqueue_all_open s.connections message (broadcast s.service.rooms channel_id except_id) (
        All-mono _ _ (λ p m. reached p m) _
          (broadcast-Every (IsLive s.connections) s.service.rooms channel_id except_id h)) in
    (record s { connections = b }, rw (e, send_room) refl)
  where
    reached :
        (p : Participant)
        → (id : Str) × IsLive s.connections channel_id (id, p)
        → IsOpen s.connections p.participant_id p
    reached p (id, (_, own, _, open')) = subst (λ i. IsOpen s.connections i p) (sym own) open'
