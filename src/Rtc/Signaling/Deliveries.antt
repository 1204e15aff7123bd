-- ===== src/Rtc/Signaling/Deliveries.antt =====
-- What a send adds to the queues (internal/rtc/signaling_service.go).
use openchat_backend.Rtc.Signaling.Queues.{enqueue_live, enqueue_unknown, enqueue_shut}
use openchat_backend.Rtc.Signaling.{
  Signaling, Connection, Outgoing, push, enqueue, enqueue_all, modify, queue_capacity, send_own,
  send_room, leave_room, shut, close_connection, left_message, map_some,
}
use openchat_backend.Rtc.Types.{Participant}
use openchat_backend.Rtc.Rooms.{broadcast}
use openchat_backend.Base.{
  some_eq, ◌≤◌, ◌≡◌, refl, sym, ap, ◌∙◌, subst, inl, inr, Bool, true, false, Option, none, some,
  List, [], ◌∷◌, ◌++◌, append-nil, append_assoc, arith, ltb, if◌then◌else◌, Bool-cases,
  Option-cases, is_nil, length, length-append, All, All-append, Str, ==_iff, ==_cases,
}
use openchat_backend.Base.Map.{Map, lookup, insert, lookup-insert, lookup-insert_ne}

module _ (Q : Outgoing → Type 0) where
  -- A queue that grew at its end by messages with a property, and not beyond its capacity.
  abbrev pub Grew : Connection → Connection → Type 0
  Grew c d =
      ((ms : List Outgoing) × (d.send ≡ c.send ++ ms) × All Q ms)
      × (length c.send ≤ queue_capacity → length d.send ≤ queue_capacity)

  pub Grew-same : (c d : Connection) → d.send ≡ c.send → Grew c d
  Grew-same c d e = (([], e ∙ sym (append-nil c.send), tt), λ h. rw e h)

  Grew-trans : (c d e : Connection) → Grew c d → Grew d e → Grew c e
  Grew-trans c d e ((ms, at, q), fits) ((ns, on, r), still) = (
    (ms ++ ns, on ∙ ap (λ x. x ++ ns) at ∙ append_assoc c.send ms ns, All-append Q ms ns q r),
    λ h. still (fits h),
  )

  -- Every client that was there is there, and its queue grew; nobody else appeared.
  abbrev pub Adds : Map Connection → Map Connection → Type 0
  Adds a b =
      (k : Str)
      → (lookup k a ≡ none → lookup k b ≡ none)
        × ((c : Connection)
            → lookup k a ≡ some c
            → (d : Connection) × (lookup k b ≡ some d) × Grew c d)

  pub Adds-same : (a : Map Connection) → Adds a a
  Adds-same a k = (λ h. h, λ c e. (c, e, Grew-same c c refl))

  pub Adds-trans : (a b c : Map Connection) → Adds a b → Adds b c → Adds a c
  Adds-trans a b c h g k = (
    λ e. (g k).0 ((h k).0 e),
    λ x e.
        let (y, at, grew) = (h k).1 x e in
        let (z, on, more) = (g k).1 y at in (z, on, Grew-trans x y z grew more),
  )

  pub insert-Adds :
      (a : Map Connection) (id : Str) (c d : Connection)
      → lookup id a ≡ some c
      → Grew c d
      → Adds a (insert id d a)
  insert-Adds a id c d e grew k = elim (==_cases id k) [
    | inl here ↦ (
      λ gone. absurd (cc (sym e ∙ ap (λ x. lookup x a) here ∙ gone)),
      λ x at. (
        d,
        lookup-insert id k d a ∙ rw ((==_iff id k).1 here) refl,
        subst (λ y. Grew y d) (some_eq (sym e ∙ ap (λ x. lookup x a) here ∙ at)) grew,
      ),
    )
    | inr other ↦ (
      λ gone. lookup-insert_ne id k d a other ∙ gone,
      λ x at. (x, lookup-insert_ne id k d a other ∙ at, Grew-same x x refl),
    )
  ]

  pub modify-Adds :
      (f : Connection → Connection) (id : Str) (a : Map Connection)
      → ((c : Connection) → (f c).send ≡ c.send)
      → Adds a (modify f id a)
  unfolding modify
  modify-Adds f id a same = elim (Option-cases (lookup id a)) [
    | inl e ↦ rw (e, modify) (Adds-same a)
    | inr (c, e) ↦ rw (e, modify) (insert-Adds a id c (f c) e (Grew-same c (f c) (same c)))
  ]

  push-Grew : (c : Connection) (message : Outgoing) → Q message → Grew c (push c message)
  push-Grew c message q = elim (Bool-cases (ltb (length c.send) queue_capacity)) [
    | inl room ↦
        rw (room, push)
          ((message ∷ [], refl, (q, tt)), λ h. ground (arith, length-append c.send (message ∷ [])))
    | inr full ↦ rw (full, push) (Grew-same c c refl)
  ]

  enqueue-Adds :
      (a b : Map Connection) (id : Str) (message : Outgoing)
      → Q message
      → enqueue a id message ≡ some b
      → Adds a b
  enqueue-Adds a b id message q h = elim (Option-cases (lookup id a)) [
    | inl e ↦ subst (Adds a) (some_eq (sym (enqueue_unknown a id message e) ∙ h)) (Adds-same a)
    | inr (c, e) ↦ elim (Bool-cases c.closed) [
      | inl gone ↦ absurd (cc (sym h ∙ enqueue_shut a id message c e gone))
      | inr live ↦
          subst (Adds a) (some_eq (sym (enqueue_live a id message c e live) ∙ h))
            (insert-Adds a id c (push c message) e (push-Grew c message q))
    ]
  ]

  enqueue_all-Adds :
      (a b : Map Connection) (message : Outgoing) (peers : List Participant)
      → Q message
      → enqueue_all a message peers ≡ some b
      → Adds a b
  unfolding enqueue_all
  enqueue_all-Adds a b message [] q h = subst (Adds a) (some_eq h) (Adds-same a)
  enqueue_all-Adds a b message (peer ∷ peers) q h =
      elim (Option-cases (enqueue a peer.participant_id message)) [
        | inl e ↦ absurd (cc (rw (e, enqueue_all) at h))
        | inr (c, e) ↦
            Adds-trans a c b (enqueue-Adds a c peer.participant_id message q e)
              (enqueue_all-Adds c b message peers q (rw (e, enqueue_all) at h))
      ]

  -- What a step adds to the queues if it does not panic.
  abbrev pub Delivers : Signaling → Option Signaling → Type 0
  Delivers s o = (t : Signaling) → o ≡ some t → Adds s.connections t.connections

  pub Delivers-same : (s : Signaling) → Delivers s (some s)
  Delivers-same s t e =
      subst (λ (x : Signaling). Adds s.connections x.connections) (some_eq e)
        (Adds-same s.connections)

  pub send_own-Delivers :
      (s : Signaling) (id : Str) (message : Outgoing)
      → Q message
      → Delivers s (send_own s id message)
  unfolding send_own
  send_own-Delivers s id message q t h = elim (Option-cases (enqueue s.connections id message)) [
    | inl e ↦ absurd (cc (rw (e, send_own) at h))
    | inr (b, e) ↦
        subst (λ (x : Signaling). Adds s.connections x.connections)
          (some_eq (rw (e, send_own) at h)) (enqueue-Adds s.connections b id message q e)
  ]

  pub send_room-Delivers :
      (s : Signaling) (channel_id except_id : Str) (message : Outgoing)
      → Q message
      → Delivers s (send_room s channel_id except_id message)
  unfolding send_room
  send_room-Delivers s channel_id except_id message q t h =
      elim (Option-cases
        (enqueue_all s.connections message (broadcast s.service.rooms channel_id except_id))) [
          | inl e ↦ absurd (cc (rw (e, send_room) at h))
          | inr (b, e) ↦
              subst (λ (x : Signaling). Adds s.connections x.connections)
                (some_eq (rw (e, send_room) at h)) (enqueue_all-Adds s.connections b message _ q e)
        ]

  leave_room-Delivers :
      (s : Signaling) (self : Participant) → Q (left_message self) → Delivers s (leave_room s self)
  unfolding leave_room
  leave_room-Delivers s self q = elim (Bool-cases (is_nil self.channel_id)) [
    | inl blank ↦ rw (blank, leave_room) (Delivers-same s)
    | inr named ↦
        rw (named, leave_room) (send_room-Delivers _ self.channel_id [] (left_message self) q)
  ]

  shut-Adds : (s : Signaling) (id : Str) → Adds s.connections (shut id s).connections
  unfolding shut
  shut-Adds s id = modify-Adds (λ c. record c { closed = true }) id s.connections (λ c. refl)

  map_shut-Delivers :
      (s : Signaling) (id : Str) (o : Option Signaling)
      → Delivers s o
      → Delivers s (map_some (shut id) o)
  map_shut-Delivers s id none h t e = absurd (cc e)
  map_shut-Delivers s id (some u) h t e =
      subst (λ (x : Signaling). Adds s.connections x.connections) (some_eq e)
        (Adds-trans s.connections u.connections (shut id u).connections (h u refl) (shut-Adds u id))

  pub close_connection-Delivers :
      (s : Signaling) (id : Str)
      → ((c : Connection) → lookup id s.connections ≡ some c → Q (left_message c.participant))
      → Delivers s (close_connection s id)
  unfolding close_connection
  close_connection-Delivers s id q = elim (Option-cases (lookup id s.connections)) [
    | inl e ↦ rw (e, close_connection) (Delivers-same s)
    | inr (c, e) ↦
        rw (e, close_connection)
          (once c.closed (map_some (shut id) (leave_room s c.participant)) (
            map_shut-Delivers s id (leave_room s c.participant)
              (leave_room-Delivers s c.participant (q c e))))
  ]
    where
      once : (b : Bool) (o : Option Signaling) → Delivers s o → Delivers s (if b then some s else o)
      once true o h = Delivers-same s
      once false o h = h
