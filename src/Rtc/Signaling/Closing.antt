-- ===== src/Rtc/Signaling/Closing.antt =====
-- closeConnection takes a client out of its room before its queue is closed
-- (internal/rtc/signaling_service.go).
use openchat_backend.Rtc.Signaling.Queues.{view, shape, shape_of, SameView}
use openchat_backend.Rtc.Signaling.Sound.{
  Waits, IsLive, IsSound, send_room-Sends, send_room_live, IsLive-view,
}
use openchat_backend.Rtc.Signaling.{
  Signaling, Connection, waiting, modify, leave_room, shut, close_connection, left_message,
  SignalingService, map_some,
}
use openchat_backend.Rtc.Rooms.Entries.{Every, unregister-Every, unregister-Lacks}
use openchat_backend.Rtc.Rooms.{unregister}
use openchat_backend.Rtc.Types.{Participant}
use openchat_backend.Base.{
  some_eq, ◌≡◌, refl, sym, ap, ◌∙◌, subst, ◌≢◌, inl, inr, true, Option, none, some, List, [], ◌∷◌,
  arith, if◌then◌else◌, Bool-cases, Option-cases, is_nil, All, All-mono, Str, ◌==◌, ==_iff, ==_ne,
  ==_cases,
}
use openchat_backend.Base.Map.{Map, lookup, get_or, lookup-insert}

abbrev pub change_shape : (Connection → Connection) → Option Connection → Option Connection
change_shape f none = none
change_shape f (some c) = some (f c)

-- What a client looks like after a change of one client that does not look at the queue.
pub view-modify :
    (f : Connection → Connection) (id k : Str) (a : Map Connection)
    → ((c : Connection) → shape (f c) ≡ f (shape c))
    → view (modify f id a) k ≡ (if id == k then change_shape f (view a k) else view a k)
unfolding modify
view-modify f id k a commutes = elim (Option-cases (lookup id a)) [
  | inl e ↦ rw (e, modify) (ground (arith, ==_iff id k))
  | inr (c, e) ↦
      rw (e, modify)
        (ap shape_of (lookup-insert id k (f c) a) ∙ elim (==_cases id k) [
          | inl here ↦
              rw ((==_iff id k).1 here) (
                ap some (commutes c) ∙ ap (change_shape f) (ap shape_of (sym e) ∙ ap (view a) here))
          | inr other ↦ rw (==_ne id k other) refl
        ])
]

-- A change that makes nobody wait.
pub modify-Waits :
    (f : Connection → Connection) (id : Str) (a : Map Connection)
    → ((c : Connection) → shape (f c) ≡ f (shape c))
    → ((c : Connection)
        → view a id ≡ some c
        → (f c).phase ≡ waiting
        → (c.phase ≡ waiting) × (f c ≡ c))
    → Waits a
    → Waits (modify f id a)
modify-Waits f id a commutes keeps h k c e w = elim (Bool-cases (id == k)) [
  | inr other ↦ h k c (rw other at (sym (view-modify f id k a commutes) ∙ e)) w
  | inl here ↦ elim (Option-cases (view a k)) [
    | inl d ↦ absurd (cc (rw d at (rw here at (sym (view-modify f id k a commutes) ∙ e))))
    | inr (b, d) ↦
        let same : f b ≡ c =
          some_eq (rw d at (rw here at (sym (view-modify f id k a commutes) ∙ e))) in
        let (waited, kept) =
          keeps b (ap (view a) ((==_iff id k).0 here) ∙ d)
            (ap (λ (x : Connection). x.phase) same ∙ w) in
        sym same ∙ kept ∙ h k b d waited
  ]
]

-- A client that does not wait.
abbrev pub IsBusy : Map Connection → Str → Type 0
IsBusy a id = (c : Connection) → view a id ≡ some c → c.phase ≢ waiting

pub IsBusy-view : (a b : Map Connection) (id : Str) → SameView a b → IsBusy a id → IsBusy b id
IsBusy-view a b id same h c e = h c (sym (same id) ∙ e)

All-both :
    {A : Type 0} (P Q : A → Type 0) (xs : List A) → All P xs → All Q xs → All (λ x. P x × Q x) xs
All-both P Q [] h k = tt
All-both P Q (x ∷ xs) (p, h) (q, k) = ((p, q), All-both P Q xs h k)

-- The rooms after a client with the id and the participant has left.
module _ (s : Signaling) (id : Str) (self : Participant) (c : Connection)
    (known : view s.connections id ≡ some c) (same : c.participant ≡ self)
    (live : Every (IsLive s.connections) s.service.rooms.rooms) where
  is_self : (k : Str) (e : Str × Participant) → IsLive s.connections k e → e.0 ≡ id → e.1 ≡ self
  is_self k e (_, _, _, (phase, at)) here =
      ap (λ (x : Connection). x.participant)
        (some_eq (sym at ∙ ap (view s.connections) here ∙ known))
      ∙ same

  left_behind :
      (k : Str) (e : Str × Participant)
      → IsLive s.connections k e
      → (k ≡ self.channel_id → e.0 ≢ self.participant_id)
      → IsLive s.connections k e × (e.0 ≢ id)
  left_behind k e h out = (
    h,
    λ here.
        let me = is_self k e h here in
        out (sym h.0 ∙ ap (λ (x : Participant). x.channel_id) me)
          (sym h.1 ∙ ap (λ (x : Participant). x.participant_id) me),
  )

  nobody_there :
      is_nil self.channel_id ≡ true
      → Every (λ k e. IsLive s.connections k e × (e.0 ≢ id)) s.service.rooms.rooms
  nobody_there blank k =
      All-mono _ _
        (λ e h. left_behind k e h (λ here. absurd (cc (sym h.2 ∙ ap is_nil here ∙ blank)))) _
        (live k)

  unregistered :
      Every
        (λ k e. IsLive s.connections k e × (e.0 ≢ id))
        (unregister s.service.rooms self.channel_id self.participant_id).rooms
  unregistered k =
      let kept =
        unregister-Every (IsLive s.connections) s.service.rooms self.channel_id self.participant_id
          live k in
      elim (==_cases k self.channel_id) [
        | inl here ↦
            All-mono _ _ (λ e (h, out). left_behind k e h (λ _. out)) _
              (All-both _ _ _ kept (
                subst
                  (λ x.
                    All (λ (e : Str × Participant). e.0 ≢ self.participant_id)
                      (get_or x
                        (unregister s.service.rooms self.channel_id self.participant_id).rooms []))
                  (sym here)
                  (unregister-Lacks s.service.rooms self.channel_id self.participant_id)))
        | inr other ↦ All-mono _ _ (λ e h. left_behind k e h (λ here. absurd (other here))) _ kept
      ]

  -- Leaving a room does not panic, and nobody in a room has the id any more.
  pub leave_room_lem :
      (t : Signaling) × (leave_room s self ≡ some t)
      × SameView s.connections t.connections
      × (t.service.tokens ≡ s.service.tokens)
      × Every (λ k e. IsLive s.connections k e × (e.0 ≢ id)) t.service.rooms.rooms
  unfolding leave_room
  leave_room_lem = elim (Bool-cases (is_nil self.channel_id)) [
    | inl blank ↦ (s, rw (blank, leave_room) refl, λ k. refl, refl, nobody_there blank)
    | inr named ↦
        let u : Signaling = record s {
          service = record s.service {
            rooms = unregister s.service.rooms self.channel_id self.participant_id;
          };
        } in
        let (t, e) =
          send_room_live u self.channel_id [] (left_message self)
            (λ k. All-mono _ _ (λ e (h, _). h) _ (unregistered k)) in
        let (service, view) = send_room-Sends u t self.channel_id [] (left_message self) e in
        (
          t,
          rw (named, leave_room) e,
          view,
          ap (λ (x : SignalingService). x.tokens) service,
          rw (ap (λ (x : SignalingService). x.rooms) service) unregistered,
        )
  ]

-- What is left of a sound state when a client without a place in a room is shut.
pub shut-IsSound :
    (s : Signaling) (id : Str)
    → Every (λ k e. IsLive s.connections k e × (e.0 ≢ id)) s.service.rooms.rooms
    → IsBusy s.connections id
    → Waits s.connections
    → IsSound (shut id s)
unfolding shut
shut-IsSound s id live busy waits = record {
  live = λ k. All-mono _ _ (λ e (h, out). kept k e h out) _ (live k);
  waits =
      modify-Waits (λ c. record c { closed = true }) id s.connections (λ c. refl)
        (λ c e w. absurd (busy c e w)) waits;
}
  where
    look :
        (k : Str)
        → view (shut id s).connections k ≡ (
            if id == k
            then change_shape (λ c. record c { closed = true }) (view s.connections k)
            else view s.connections k)
    look k = view-modify (λ c. record c { closed = true }) id k s.connections (λ c. refl)

    kept :
        (k : Str) (e : Str × Participant)
        → IsLive s.connections k e
        → e.0 ≢ id
        → IsLive (shut id s).connections k e
    kept k e (channel, own, named, (phase, at)) out =
        (channel, own, named, (phase, look e.0 ∙ rw (==_ne id e.0 (λ here. out (sym here))) at))

pub Waits-view : (a b : Map Connection) → SameView a b → Waits a → Waits b
Waits-view a b same h id c e = h id c (sym (same id) ∙ e)

shape-lookup :
    (a : Map Connection) (id : Str) (c : Connection)
    → lookup id a ≡ some c
    → view a id ≡ some (shape c)
shape-lookup a id c e = ap shape_of e

-- A close does not panic in a sound state, and the state stays sound.
pub close_connection-IsSound :
    (s : Signaling) (id : Str)
    → IsSound s
    → IsBusy s.connections id
    → (t : Signaling) × (close_connection s id ≡ some t) × IsSound t
unfolding close_connection
close_connection-IsSound s id h busy = elim (Option-cases (lookup id s.connections)) [
  | inl e ↦ (s, rw (e, close_connection) refl, h)
  | inr (c, e) ↦ elim (Bool-cases c.closed) [
    | inl shut' ↦ (
      s,
      rw (e, close_connection)
          (ap {B = Option Signaling}
            (λ b. if b then some s else map_some (shut id) (leave_room s c.participant)) shut'),
      h,
    )
    | inr live ↦
        let (t, left, same, _, out) =
          leave_room_lem s id c.participant (shape c) (shape-lookup s.connections id c e) refl
            h.live in
        (
          shut id t,
          rw (e, close_connection)
              (ap {B = Option Signaling}
                  (λ b. if b then some s else map_some (shut id) (leave_room s c.participant)) live
                ∙ ap (map_some (shut id)) left),
          shut-IsSound t id
              (λ k.
                All-mono _ _ (λ e (l, o). (IsLive-view s.connections t.connections k e same l, o)) _
                  (out k))
              (IsBusy-view s.connections t.connections id same busy)
              (Waits-view s.connections t.connections same h.waits),
        )
  ]
]
