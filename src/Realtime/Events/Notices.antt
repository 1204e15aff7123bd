-- ===== src/Realtime/Events/Notices.antt =====
-- Who gets the notices of internal/realtime/chat_hub.go.
use mathlib.Core.Logic.Or
use mathlib.Core.List.{
  Mem, Mem-prop, not-mem-nil, mem-cons_self, mem-cons_of_mem, eq-or-mem_of_mem-cons,
}
use openchat_backend.Realtime.Events.{
  Event, Delivery, Envelope, PayloadReader, enqueue_all, handle_envelope, handle_typing, reply,
  chat_error, typing_updated,
}
use openchat_backend.Realtime.Hub.Membership.{in_rooms, IsAgreed, has_subscribed}
use openchat_backend.Realtime.Hub.{
  Client, Hub, typing_peers, others, values, presence_member_from_client,
}
use openchat_backend.Strings.{trim_space}
use openchat_backend.Base.{
  ◌≡◌, refl, sym, ap, ◌∙◌, ◌≢◌, inl, inr, Bool, true, false, List, [], ◌∷◌, Bool-cases, is_some,
  is_nil, All, Str, str, ◌==◌, ==_iff, ==_ne, ==_cases, subst,
}
use openchat_backend.Base.Map.{Map, lookup, get_or}

-- A delivery that carries one event to a member of a room that has another id.
abbrev pub IsNotice : Event → Str → List Client → Delivery → Type 0
IsNotice event client_id members d = (d.event ≡ event) × (d.to.id ≢ client_id) × Mem d.to members

abbrev pub notice : Event → Client → Delivery
notice event member = record { to = member; request_id = []; event = event }

member_not_nil :
    (client_id : Str) (room : Map Client)
    → is_some (lookup client_id room) ≡ true
    → is_nil room ≡ false
unfolding lookup
member_not_nil client_id [] h = absurd (cc h)
member_not_nil client_id (e ∷ room) h = refl

module _ (event : Event) (client_id : Str) where
  enqueue_all-others :
      (members room : List Client)
      → ((member : Client) → Mem member members → Mem member room)
      → All (IsNotice event client_id room) (enqueue_all event (others client_id members))
  unfolding enqueue_all others
  enqueue_all-others [] room inside = tt
  enqueue_all-others (member ∷ members) room inside =
      let rest = enqueue_all-others members room (λ m k. inside m (mem-cons_of_mem member k)) in
      elim (==_cases member.id client_id) [
        | inl same ↦ rw ((==_iff member.id client_id).1 same, others) rest
        | inr other ↦
            rw (==_ne member.id client_id other, others)
              ((refl, other, inside member mem-cons_self), rest)
      ]

  Mem-enqueue_all-others :
      (member : Client) (members : List Client)
      → Mem member members
      → member.id ≢ client_id
      → Mem (notice event member) (enqueue_all event (others client_id members))
  unfolding enqueue_all others
  Mem-enqueue_all-others member [] k d = absurd (not-mem-nil k)
  Mem-enqueue_all-others member (first ∷ members) k d =
      Or.elim Mem-prop (eq-or-mem_of_mem-cons k)
        (λ e.
          subst (λ m. Mem (notice event m) (enqueue_all event (others client_id (first ∷ members))))
            (sym e)
            (rw (==_ne first.id client_id (λ same. d (ap (λ (m : Client). m.id) e ∙ same)), others)
              mem-cons_self))
        (λ later. elim (==_cases first.id client_id) [
          | inl same ↦
              rw ((==_iff first.id client_id).1 same, others)
                (Mem-enqueue_all-others member members later d)
          | inr other ↦
              rw (==_ne first.id client_id other, others)
                (mem-cons_of_mem _ (Mem-enqueue_all-others member members later d))
        ])

handle_envelope_is_typing :
    (r : PayloadReader) (ts : Str) (h : Hub) (c : Client) (envelope : Envelope)
    → envelope.type ≡ str "chat.typing.update"
    → handle_envelope r ts h c envelope ≡ handle_typing r h c envelope
unfolding handle_envelope str ◌==◌
handle_envelope_is_typing r ts h c envelope t = rw (t, handle_envelope) refl

handle_typing_absent :
    (r : PayloadReader) (h : Hub) (c : Client) (envelope : Envelope) (channel_id : Str)
    (is_typing : Bool)
    → r.typing envelope.payload ≡ (channel_id, is_typing)
    → is_nil (trim_space channel_id) ≡ false
    → has_subscribed h (trim_space channel_id) c.id ≡ false
    → handle_typing r h c envelope
      ≡ (h, reply c envelope (chat_error (str "chat_not_subscribed")) ∷ [])
unfolding handle_typing typing_peers
handle_typing_absent r h c envelope channel_id is_typing p n absent =
    rw (p, handle_typing) (rw (n, handle_typing) (rw (absent, handle_typing) refl))

handle_typing_present :
    (r : PayloadReader) (h : Hub) (c : Client) (envelope : Envelope) (channel_id : Str)
    (is_typing : Bool)
    → r.typing envelope.payload ≡ (channel_id, is_typing)
    → is_nil (trim_space channel_id) ≡ false
    → has_subscribed h (trim_space channel_id) c.id ≡ true
    → in_rooms h.subscribers_by_room (trim_space channel_id) c.id ≡ true
    → handle_typing r h c envelope ≡ (
      h,
      enqueue_all
          (typing_updated (trim_space channel_id) (presence_member_from_client c) is_typing)
          (others c.id (values (get_or (trim_space channel_id) h.subscribers_by_room []))),
    )
unfolding handle_typing typing_peers
handle_typing_present r h c envelope channel_id is_typing p n present member =
    rw (p, handle_typing)
      (rw (n, handle_typing) (rw (present, handle_typing) (rw (not_empty, handle_typing) refl)))
  where
    not_empty : is_nil (get_or (trim_space channel_id) h.subscribers_by_room []) ≡ false
    not_empty = member_not_nil c.id (get_or (trim_space channel_id) h.subscribers_by_room []) member

module _ (r : PayloadReader) (ts : Str) (h : Hub) (c : Client) (envelope : Envelope)
    (channel_id : Str) (is_typing : Bool) where
  abbrev result : Hub × List Delivery
  result = handle_envelope r ts h c envelope

  abbrev room : List Client
  room = values (get_or (trim_space channel_id) h.subscribers_by_room [])

  abbrev event : Event
  event = typing_updated (trim_space channel_id) (presence_member_from_client c) is_typing

  -- A typing event for a channel whose name is not blank changes nothing in the hub. From a client in
  -- the room of that channel it is sent on, under that client's own presence, to each member of that
  -- room with another id and to nobody else; a client that is not in the room gets one error and
  -- nobody else anything, where rooms and subscriptions agree.
  pub handle_envelope_typing :
      IsAgreed h
      → envelope.type ≡ str "chat.typing.update"
      → r.typing envelope.payload ≡ (channel_id, is_typing)
      → is_nil (trim_space channel_id) ≡ false
      → (result.0 ≡ h)
        × (in_rooms h.subscribers_by_room (trim_space channel_id) c.id ≡ true
            → All (IsNotice event c.id room) result.1
              × ((member : Client)
                  → Mem member room
                  → member.id ≢ c.id
                  → Mem (notice event member) result.1))
        × (in_rooms h.subscribers_by_room (trim_space channel_id) c.id ≡ false
            → result.1 ≡ reply c envelope (chat_error (str "chat_not_subscribed")) ∷ [])
  handle_envelope_typing a t p n = (
    elim (Bool-cases (in_rooms h.subscribers_by_room (trim_space channel_id) c.id)) [
      | inl member ↦ ap (λ (x : Hub × List Delivery). x.0) (present member)
      | inr stranger ↦ ap (λ (x : Hub × List Delivery). x.0) (absent stranger)
    ],
    λ member. rw (present member) (
      enqueue_all-others event c.id room room (λ m k. k),
      λ m k d. Mem-enqueue_all-others event c.id m room k d,
    ),
    λ stranger. ap (λ (x : Hub × List Delivery). x.1) (absent stranger),
  )
    where
      present :
          in_rooms h.subscribers_by_room (trim_space channel_id) c.id ≡ true
          → result ≡ (
            h,
            enqueue_all
                (typing_updated (trim_space channel_id) (presence_member_from_client c) is_typing)
                (others c.id (values (get_or (trim_space channel_id) h.subscribers_by_room []))),
          )
      present member =
          handle_envelope_is_typing r ts h c envelope t
          ∙ handle_typing_present r h c envelope channel_id is_typing p n
              (sym (a.agree (trim_space channel_id) c.id) ∙ member) member

      absent :
          in_rooms h.subscribers_by_room (trim_space channel_id) c.id ≡ false
          → result ≡ (h, reply c envelope (chat_error (str "chat_not_subscribed")) ∷ [])
      absent stranger =
          handle_envelope_is_typing r ts h c envelope t
          ∙ handle_typing_absent r h c envelope channel_id is_typing p n
              (sym (a.agree (trim_space channel_id) c.id) ∙ stranger)
