-- ===== src/Realtime/Hub/Membership.antt =====
-- Who is in which room after an operation of internal/realtime/chat_hub.go.
use openchat_backend.Realtime.Hub.{
  Client, Hub, subscribe, unsubscribe, remove_member, depart, depart_all, subscriptions_of, keys,
  unregister,
}
use openchat_backend.Strings.{contains}
use openchat_backend.Base.{
  ◌≡◌, refl, ◌∙◌, ◌≢◌, inl, inr, Bool, true, false, not, ◌&&◌, ◌||◌, none, some, List, [], ◌∷◌,
  arith, Bool-cases, Option-cases, is_some, is_nil, Str, ◌==◌, ==_iff, Option,
}
use openchat_backend.Base.Map.{
  Map, lookup, insert, delete, get_or, lookup-insert, lookup-delete, lookup-insert_self,
}

-- Whether a client is in the room of a channel, and whether it has the channel in its subscriptions.
abbrev pub in_rooms : Map (Map Client) → Str → Str → Bool
in_rooms rooms channel_id client_id = is_some (lookup client_id (get_or channel_id rooms []))

-- The client that a room holds under an id.
abbrev pub member_at : Map (Map Client) → Str → Str → Option Client
member_at rooms channel_id client_id = lookup client_id (get_or channel_id rooms [])

abbrev pub has_subscribed : Hub → Str → Str → Bool
has_subscribed h channel_id client_id = is_some (lookup channel_id (subscriptions_of h client_id))

abbrev pub HasNoEmptyRoom : Map (Map Client) → Type 0
HasNoEmptyRoom rooms = (x : Str) → lookup x rooms ≢ some []

-- The rooms hold exactly the subscriptions, and no room is empty.
pub record IsAgreed (h : Hub) : Type 0 where
  pub agree : (x y : Str) → in_rooms h.subscribers_by_room x y ≡ has_subscribed h x y
  pub no_empty : HasNoEmptyRoom h.subscribers_by_room

nil_lookup : (m : Map Client) (y : Str) → is_nil m ≡ true → lookup y m ≡ none
unfolding lookup
nil_lookup [] y h = refl
nil_lookup (e ∷ m) y h = absurd (cc h)

in_rooms_absent :
    (rooms : Map (Map Client)) (x y : Str) → lookup x rooms ≡ none → in_rooms rooms x y ≡ false
unfolding lookup
in_rooms_absent rooms x y e = rw (e, get_or) refl

pub in_rooms-subscribe :
    (h : Hub) (c : Client) (k x y : Str)
    → in_rooms (subscribe h c k).0.subscribers_by_room x y
      ≡ ((k == x && c.id == y) || in_rooms h.subscribers_by_room x y)
unfolding subscribe
in_rooms-subscribe h c k x y = ground (
  arith,
  lookup-insert k x (insert c.id c (get_or k h.subscribers_by_room [])) h.subscribers_by_room,
  lookup-insert c.id y c (get_or k h.subscribers_by_room []),
  ==_iff k x,
)

pub has_subscribed-subscribe :
    (h : Hub) (c : Client) (k x y : Str)
    → has_subscribed (subscribe h c k).0 x y ≡ ((k == x && c.id == y) || has_subscribed h x y)
unfolding subscribe
has_subscribed-subscribe h c k x y = ground (
  arith,
  lookup-insert c.id y (insert k tt (subscriptions_of h c.id)) h.subscriptions,
  lookup-insert k x tt (subscriptions_of h c.id),
  ==_iff c.id y,
)

pub in_rooms-remove_member :
    (cid k : Str) (room : Map Client) (rooms : Map (Map Client)) (x y : Str)
    → lookup k rooms ≡ some room
    → in_rooms (remove_member cid k room rooms) x y
      ≡ (not (k == x && cid == y) && in_rooms rooms x y)
unfolding remove_member
in_rooms-remove_member cid k room rooms x y e = ground (
  arith,
  lookup-delete k x rooms,
  lookup-insert k x (delete cid room) rooms,
  lookup-delete cid y room,
  ==_iff k x,
  nil_lookup (delete cid room) y,
)

pub has_subscribed-unsubscribe :
    (h : Hub) (c : Client) (k x y : Str)
    → has_subscribed (unsubscribe h c k).0 x y ≡ (not (k == x && c.id == y) && has_subscribed h x y)
unfolding unsubscribe
has_subscribed-unsubscribe h c k x y = ground (
  arith,
  lookup-insert c.id y (delete k (subscriptions_of h c.id)) h.subscriptions,
  lookup-delete k x (subscriptions_of h c.id),
  ==_iff c.id y,
  ==_iff k x,
)

pub in_rooms-unsubscribe :
    (h : Hub) (c : Client) (k x y : Str)
    → IsAgreed h
    → in_rooms (unsubscribe h c k).0.subscribers_by_room x y
      ≡ (not (k == x && c.id == y) && in_rooms h.subscribers_by_room x y)
unfolding unsubscribe
in_rooms-unsubscribe h c k x y a = elim (Bool-cases (has_subscribed h k c.id)) [
  | inr other ↦ rw (other, unsubscribe) (ground (arith, ==_iff k x, ==_iff c.id y, a.agree x y))
  | inl known ↦ elim (Option-cases (lookup k h.subscribers_by_room)) [
    | inl e ↦
        rw (known, unsubscribe)
          (rw (e, unsubscribe)
            (ground (arith, ==_iff k x, in_rooms_absent h.subscribers_by_room x y)))
    | inr (room, e) ↦
        rw (known, unsubscribe)
          (rw (e, unsubscribe) (in_rooms-remove_member c.id k room h.subscribers_by_room x y e))
  ]
]

pub in_rooms-depart :
    (cid k : Str) (rooms : Map (Map Client)) (x y : Str)
    → in_rooms (depart cid k rooms).0 x y ≡ (not (k == x && cid == y) && in_rooms rooms x y)
unfolding depart
in_rooms-depart cid k rooms x y = elim (Option-cases (lookup k rooms)) [
  | inl e ↦ rw (e, depart) (ground (arith, ==_iff k x, in_rooms_absent rooms x y))
  | inr (room, e) ↦ elim (Bool-cases (is_some (lookup cid room))) [
    | inl known ↦
        rw (e, depart) (rw (known, depart) (in_rooms-remove_member cid k room rooms x y e))
    | inr other ↦ rw (e, depart) (rw (other, depart) (ground (arith, ==_iff k x, ==_iff cid y)))
  ]
]

pub in_rooms-depart_all :
    (cid : Str) (ks : List Str) (rooms : Map (Map Client)) (x y : Str)
    → in_rooms (depart_all cid ks rooms).0 x y
      ≡ (not (cid == y && contains ks x) && in_rooms rooms x y)
unfolding depart_all contains
in_rooms-depart_all cid [] rooms x y = ground arith
in_rooms-depart_all cid (k ∷ ks) rooms x y =
    in_rooms-depart_all cid ks (depart cid k rooms).0 x y
    ∙ ground (arith, in_rooms-depart cid k rooms x y)

contains-keys : (m : Map (Unit {0})) (x : Str) → contains (keys m) x ≡ is_some (lookup x m)
unfolding contains lookup
contains-keys [] x = refl
contains-keys (e ∷ m) x = ground (arith, contains-keys m x)

pub in_rooms-unregister :
    (h : Hub) (c : Client) (x y : Str)
    → IsAgreed h
    → in_rooms (unregister h c).0.subscribers_by_room x y
      ≡ (not (c.id == y) && in_rooms h.subscribers_by_room x y)
unfolding unregister
in_rooms-unregister h c x y a =
    in_rooms-depart_all c.id (keys (subscriptions_of h c.id)) h.subscribers_by_room x y
    ∙ ground (arith, contains-keys (subscriptions_of h c.id) x, a.agree x y, ==_iff c.id y)

nil_subscriptions : (x : Str) → is_some (lookup {V = Unit {0}} x []) ≡ false
unfolding lookup
nil_subscriptions x = refl

pub has_subscribed-unregister :
    (h : Hub) (c : Client) (x y : Str)
    → has_subscribed (unregister h c).0 x y ≡ (not (c.id == y) && has_subscribed h x y)
unfolding unregister
has_subscribed-unregister h c x y =
    ground (arith, lookup-insert c.id y [] h.subscriptions, nil_subscriptions x)

pub member_at-subscribe_self :
    (h : Hub) (c : Client) (k : Str)
    → member_at (subscribe h c k).0.subscribers_by_room k c.id ≡ some c
unfolding subscribe
member_at-subscribe_self h c k = ground (
  arith,
  lookup-insert_self k (insert c.id c (get_or k h.subscribers_by_room [])) h.subscribers_by_room,
  lookup-insert_self c.id c (get_or k h.subscribers_by_room []),
)

pub member_at-subscribe :
    (h : Hub) (c : Client) (k x y : Str)
    → (k == x && c.id == y) ≡ false
    → member_at (subscribe h c k).0.subscribers_by_room x y ≡ member_at h.subscribers_by_room x y
unfolding subscribe
member_at-subscribe h c k x y e = ground (
  arith,
  lookup-insert k x (insert c.id c (get_or k h.subscribers_by_room [])) h.subscribers_by_room,
  lookup-insert c.id y c (get_or k h.subscribers_by_room []),
  ==_iff k x,
)

member_at_absent :
    (rooms : Map (Map Client)) (x y : Str) → lookup x rooms ≡ none → member_at rooms x y ≡ none
unfolding lookup
member_at_absent rooms x y e = rw (e, get_or) refl

member_at-remove_member :
    (cid k : Str) (room : Map Client) (rooms : Map (Map Client)) (x y : Str)
    → lookup k rooms ≡ some room
    → (k == x && cid == y) ≡ false
    → member_at (remove_member cid k room rooms) x y ≡ member_at rooms x y
unfolding remove_member
member_at-remove_member cid k room rooms x y e other = ground (
  arith,
  lookup-delete k x rooms,
  lookup-insert k x (delete cid room) rooms,
  lookup-delete cid y room,
  ==_iff k x,
  nil_lookup (delete cid room) y,
)

pub member_at-unsubscribe :
    (h : Hub) (c : Client) (k x y : Str)
    → (k == x && c.id == y) ≡ false
    → member_at (unsubscribe h c k).0.subscribers_by_room x y ≡ member_at h.subscribers_by_room x y
unfolding unsubscribe
member_at-unsubscribe h c k x y d = elim (Bool-cases (has_subscribed h k c.id)) [
  | inr other ↦ rw (other, unsubscribe) refl
  | inl known ↦ elim (Option-cases (lookup k h.subscribers_by_room)) [
    | inl e ↦ rw (known, unsubscribe) (rw (e, unsubscribe) refl)
    | inr (room, e) ↦
        rw (known, unsubscribe)
          (rw (e, unsubscribe) (member_at-remove_member c.id k room h.subscribers_by_room x y e d))
  ]
]
