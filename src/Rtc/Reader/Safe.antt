-- ===== src/Rtc/Reader/Safe.antt =====
-- Over every history of the signaling service (internal/rtc/signaling_service.go): who is in a room is
-- open, and only a client that has left can make its own handler panic.
use openchat_backend.Rtc.Rooms.{new_room_hub}
use openchat_backend.Rtc.Reader.{
  Call, connects, receives, read_fails, writes, Times, new_signaling_service, receive, fail_read,
  write_one, react, recover, step, run, client_of,
}
use openchat_backend.Rtc.Events.Joins.{NamesChannel, first_message-Goes, deny-Goes, finish-Goes}
use openchat_backend.Rtc.Events.Kept.{handle_envelope-Keeps}
use openchat_backend.Rtc.Events.Safety.{Goes, Keeps, Goes-Keeps, handle_envelope-Goes}
use openchat_backend.Rtc.Events.{PayloadReader, first_message}
use openchat_backend.Rtc.Signaling.Closing.{IsBusy, change_shape, view-modify}
use openchat_backend.Rtc.Signaling.Sound.{IsLive, IsSound, IsSound-view}
use openchat_backend.Rtc.Signaling.Queues.{view, shape, shape_of, open_shape, IsOpen}
use openchat_backend.Rtc.Signaling.{
  Signaling, Connection, Envelope, Phase, waiting, reading, finished, no_participant, connect,
}
use openchat_backend.Rtc.Tokens.{Codec, TokenService}
use openchat_backend.Rtc.Types.{Participant}
use openchat_backend.Base.{
  some_eq, ◌≡◌, refl, sym, ap, ◌∙◌, subst, ◌≢◌, ◌⊎◌, inl, inr, false, Option, none, some, List, [],
  ◌∷◌, if◌then◌else◌, Bool-cases, Option-cases, is_some, drop, All-mono, Str, ◌==◌, ==_ne, ==_cases,
}
use openchat_backend.Base.Map.{lookup, insert, lookup-insert}

Phase-cases : (p : Phase) → (p ≡ waiting) ⊎ ((p ≡ reading) ⊎ (p ≡ finished))
Phase-cases waiting = inl refl
Phase-cases reading = inr (inl refl)
Phase-cases finished = inr (inr refl)

view_of :
    (s : Signaling) (id : Str) (c : Connection)
    → lookup id s.connections ≡ some c
    → view s.connections id ≡ some (shape c)
view_of s id c e = ap shape_of e

IsBusy-at :
    (s : Signaling) (id : Str) (c : Connection)
    → lookup id s.connections ≡ some c
    → c.phase ≡ reading
    → IsBusy s.connections id
IsBusy-at s id c e p d f w =
    reading_waits
      (sym p ∙ ap (λ (x : Connection). x.phase) (some_eq (sym (view_of s id c e) ∙ f)) ∙ w)
  where
    reading_waits : reading ≢ waiting
    reading_waits h = cc h

module _ (s : Signaling) (id : Str) (h : IsSound s)
    (new : is_some (lookup id s.connections) ≡ false) where
  abbrev added : Connection
  added = record { participant = no_participant; phase = waiting; closed = false; send = [] }

  view-added :
      (k : Str)
      → view (insert id added s.connections) k
        ≡ (if id == k then some added else view s.connections k)
  view-added k =
      ap shape_of (lookup-insert id k added s.connections)
      ∙ elim (Bool-cases (id == k)) [ inl here ↦ rw here refl | inr other ↦ rw other refl ]

  added-IsSound : IsSound (record s { connections = insert id added s.connections })
  added-IsSound = record {
    live = λ k. All-mono _ _ (λ e l. still k e l) _ (h.live k);
    waits = λ k c e w. elim (Bool-cases (id == k)) [
      | inl here ↦ some_eq (sym (rw here at (sym (view-added k) ∙ e)))
      | inr other ↦ h.waits k c (rw other at (sym (view-added k) ∙ e)) w
    ];
  }
    where
      still :
          (k : Str) (e : Str × Participant)
          → IsLive s.connections k e
          → IsLive (insert id added s.connections) k e
      still k e (channel, own, named, (phase, seen)) = elim (==_cases id e.0) [
        | inl here ↦ absurd (
            known_absent _
              (subst (λ x. view s.connections x ≡ some (open_shape e.1 phase)) (sym here) seen))
        | inr other ↦ (channel, own, named, (phase, view-added e.0 ∙ rw (==_ne id e.0 other) seen))
      ]
        where
          known_absent : (c : Connection) → view s.connections id ≢ some c
          known_absent c d = elim (Option-cases (lookup id s.connections)) [
            | inl e ↦ cc (rw e at d)
            | inr (b, e) ↦ cc (rw e at new)
          ]

connect-IsSound : (s : Signaling) (id : Str) → IsSound s → IsSound (connect s id)
unfolding connect
connect-IsSound s id h = elim (Bool-cases (is_some (lookup id s.connections))) [
  | inl known ↦ rw (known, connect) h
  | inr new ↦ rw (new, connect) (added-IsSound s id h new)
]

abbrev sent_one : Connection → Connection
sent_one c = record c { send = drop 1 c.send }

same_shape : (o : Option Connection) → change_shape sent_one (shape_of o) ≡ shape_of o
same_shape none = refl
same_shape (some c) = refl

write_one-IsSound : (s : Signaling) (id : Str) → IsSound s → IsSound (write_one s id)
unfolding write_one
write_one-IsSound s id h =
    IsSound-view s _ refl
      (λ k. view-modify sent_one id k s.connections (λ c. refl) ∙ elim (Bool-cases (id == k)) [
        | inl here ↦ rw here (same_shape (lookup k s.connections))
        | inr other ↦ rw other refl
      ])
      h

-- A client that reads is open unless it has left.
abbrev pub MayReceive : Signaling → Call → Type 0
MayReceive s (receives id envelope times) =
    (c : Connection) → lookup id s.connections ≡ some c → c.phase ≡ reading → c.closed ≡ false
MayReceive s call = Unit {0}

-- A ticket that a client sends names a channel, where it is accepted.
abbrev pub MayJoin : Codec → PayloadReader → Signaling → Call → Type 0
MayJoin codec r s (receives id envelope times) =
    NamesChannel codec r s.service.tokens times.now envelope.payload
MayJoin codec r s call = Unit {0}

IsOpen-at :
    (s : Signaling) (id : Str) (c : Connection)
    → lookup id s.connections ≡ some c
    → c.closed ≡ false
    → IsOpen s.connections id c.participant
IsOpen-at s id c e live = (
  c.phase,
  view_of s id c e
      ∙ ap {B = Option Connection} (λ b. some (record c { closed = b; send = [] })) live,
)

waiting_at :
    (s : Signaling) (id : Str) (c : Connection)
    → IsSound s
    → lookup id s.connections ≡ some c
    → c.phase ≡ waiting
    → (view s.connections id ≡ some (open_shape no_participant waiting))
      × (c.participant ≡ no_participant)
waiting_at s id c h e w =
    let same = h.waits id (shape c) (view_of s id c e) w in
    (view_of s id c e ∙ ap some same, ap (λ (x : Connection). x.participant) same)

module _ (codec : Codec) (r : PayloadReader) (s : Signaling) (h : IsSound s) where
  receive-Goes :
      (id : Str) (c : Connection) (envelope : Envelope) (times : Times)
      → NamesChannel codec r s.service.tokens times.now envelope.payload
      → lookup id s.connections ≡ some c
      → (c.phase ≡ reading → c.closed ≡ false)
      → Goes (receive codec r s id c envelope times)
  unfolding receive
  receive-Goes id c envelope times names e may = elim (Phase-cases c.phase) [
    | inl w ↦
        let (seen, nobody) = waiting_at s id c h e w in
        rw (w, receive)
          (rw nobody
            (first_message-Goes codec r s id envelope times.now times.joined_at names h seen))
    | inr (inl w) ↦
        rw (w, receive)
          (handle_envelope-Goes r s id c.participant h (IsOpen-at s id c e (may w)) times.ts
            envelope (IsBusy-at s id c e w))
    | inr (inr w) ↦ rw (w, receive) (s, refl, h)
  ]

  receive-Keeps :
      (id : Str) (c : Connection) (envelope : Envelope) (times : Times)
      → NamesChannel codec r s.service.tokens times.now envelope.payload
      → lookup id s.connections ≡ some c
      → Keeps (receive codec r s id c envelope times)
  unfolding receive
  receive-Keeps id c envelope times names e = elim (Phase-cases c.phase) [
    | inl w ↦
        let (seen, nobody) = waiting_at s id c h e w in
        rw (w, receive)
          (rw nobody (
            Goes-Keeps
              (first_message codec r s id no_participant envelope times.now times.joined_at)
              (first_message-Goes codec r s id envelope times.now times.joined_at names h seen)))
    | inr (inl w) ↦
        rw (w, receive)
          (handle_envelope-Keeps r s id c.participant h times.ts envelope (IsBusy-at s id c e w))
    | inr (inr w) ↦ rw (w, receive) (Goes-Keeps (some s) (s, refl, h))
  ]

  fail_read-Goes :
      (id : Str) (c : Connection) → lookup id s.connections ≡ some c → Goes (fail_read s id c)
  unfolding fail_read
  fail_read-Goes id c e = elim (Phase-cases c.phase) [
    | inl w ↦
        let (seen, nobody) = waiting_at s id c h e w in
        rw (w, fail_read)
          (rw nobody (deny-Goes s id no_participant no_participant h (waiting, seen)))
    | inr (inl w) ↦ rw (w, fail_read) (finish-Goes s id h)
    | inr (inr w) ↦ rw (w, fail_read) (s, refl, h)
  ]

  react-Keeps : (call : Call) → MayJoin codec r s call → Keeps (react codec r s call)
  unfolding react
  react-Keeps (connects id) names =
      Goes-Keeps (some (connect s id)) (connect s id, refl, connect-IsSound s id h)
  react-Keeps (receives id envelope times) names = elim (Option-cases (lookup id s.connections)) [
    | inl e ↦ rw (e, react) (Goes-Keeps (some s) (s, refl, h))
    | inr (c, e) ↦ rw (e, react) (receive-Keeps id c envelope times names e)
  ]
  react-Keeps (read_fails id) names = elim (Option-cases (lookup id s.connections)) [
    | inl e ↦ rw (e, react) (Goes-Keeps (some s) (s, refl, h))
    | inr (c, e) ↦ rw (e, react) (Goes-Keeps (fail_read s id c) (fail_read-Goes id c e))
  ]
  react-Keeps (writes id) names =
      Goes-Keeps (some (write_one s id)) (write_one s id, refl, write_one-IsSound s id h)

  -- In a sound state a call does not panic and leaves a sound state, if the ticket that it may bring
  -- names a channel and its client, where it is past joining, has not left.
  pub react-Goes :
      (call : Call) → MayJoin codec r s call → MayReceive s call → Goes (react codec r s call)
  unfolding react
  react-Goes (connects id) names may = (connect s id, refl, connect-IsSound s id h)
  react-Goes (receives id envelope times) names may =
      elim (Option-cases (lookup id s.connections)) [
        | inl e ↦ rw (e, react) (s, refl, h)
        | inr (c, e) ↦ rw (e, react) (receive-Goes id c envelope times names e (may c e))
      ]
  react-Goes (read_fails id) names may = elim (Option-cases (lookup id s.connections)) [
    | inl e ↦ rw (e, react) (s, refl, h)
    | inr (c, e) ↦ rw (e, react) (fail_read-Goes id c e)
  ]
  react-Goes (writes id) names may = (write_one s id, refl, write_one-IsSound s id h)

  step-IsSound : (call : Call) → MayJoin codec r s call → IsSound (step codec r s call)
  unfolding step recover
  step-IsSound call names = elim (Option-cases (react codec r s call)) [
    | inl e ↦
        let (t, d, sound) = finish-Goes s (client_of call) h in rw (e, step) (rw (d, recover) sound)
    | inr (t, e) ↦ rw (e, step) (react-Keeps call names t e)
  ]

-- So along a history: each ticket as the service stands when it is sent.
unfoldable pub MayJoinAll : Codec → PayloadReader → Signaling → List Call → Type 0
MayJoinAll codec r s [] = Unit {0}
MayJoinAll codec r s (call ∷ calls) =
    MayJoin codec r s call × MayJoinAll codec r (step codec r s call) calls

run-IsSound :
    (codec : Codec) (r : PayloadReader) (s : Signaling) (calls : List Call)
    → MayJoinAll codec r s calls
    → IsSound s
    → IsSound (run codec r s calls)
unfolding run MayJoinAll
run-IsSound codec r s [] names h = h
run-IsSound codec r s (call ∷ calls) (named, names) h =
    run-IsSound codec r (step codec r s call) calls names (step-IsSound codec r s h call named)

new-IsSound : (tokens : TokenService) → IsSound (new_signaling_service tokens)
unfolding new_signaling_service new_room_hub lookup
new-IsSound tokens = record { live = λ k. tt; waits = λ id c e. absurd (cc e) }

-- After any history of calls on a new service, panics included, every entry of a room is a participant
-- of that channel whose client is connected and open, if the tickets that clients send and that are
-- accepted name a channel.
pub run-new_signaling_service-IsSound :
    (codec : Codec) (r : PayloadReader) (tokens : TokenService) (calls : List Call)
    → MayJoinAll codec r (new_signaling_service tokens) calls
    → IsSound (run codec r (new_signaling_service tokens) calls)
run-new_signaling_service-IsSound codec r tokens calls names =
    run-IsSound codec r _ calls names (new-IsSound tokens)
