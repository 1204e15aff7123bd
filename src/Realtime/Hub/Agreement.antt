-- ===== src/Realtime/Hub/Agreement.antt =====
-- The rooms and the subscriptions of internal/realtime/chat_hub.go agree after every operation.
use openchat_backend.Realtime.Hub.Membership.{
  has_subscribed, HasNoEmptyRoom, IsAgreed, in_rooms-subscribe, has_subscribed-subscribe,
  has_subscribed-unsubscribe, in_rooms-unsubscribe, in_rooms-unregister, has_subscribed-unregister,
}
use openchat_backend.Realtime.Hub.{
  Client, Hub, subscribe, unsubscribe, unregister, remove_member, depart, depart_all,
  subscriptions_of, keys,
}
use openchat_backend.Base.{
  sym, ap, ◌∙◌, ◌≢◌, inl, inr, not, ◌&&◌, ◌||◌, List, [], ◌∷◌, arith, Bool-cases, Option-cases,
  is_some, Str, ◌==◌,
}
use openchat_backend.Base.Map.{Map, lookup, insert, delete, get_or, lookup-insert, lookup-delete}

insert-ne_nil {ℓ} : {V : Type ℓ} (k : Str) (v : V) (m : Map V) → insert k v m ≢ []
unfolding insert
insert-ne_nil k v [] h = cc h
insert-ne_nil k v (e ∷ m) h = ground arith

remove_member-HasNoEmptyRoom :
    (cid k : Str) (room : Map Client) (rooms : Map (Map Client))
    → HasNoEmptyRoom rooms
    → HasNoEmptyRoom (remove_member cid k room rooms)
unfolding remove_member
remove_member-HasNoEmptyRoom cid k room rooms n x h =
    ground (arith, n x, lookup-delete k x rooms, lookup-insert k x (delete cid room) rooms)

depart-HasNoEmptyRoom :
    (cid k : Str) (rooms : Map (Map Client))
    → HasNoEmptyRoom rooms
    → HasNoEmptyRoom (depart cid k rooms).0
unfolding depart
depart-HasNoEmptyRoom cid k rooms n = elim (Option-cases (lookup k rooms)) [
  | inl e ↦ rw (e, depart) n
  | inr (room, e) ↦ elim (Bool-cases (is_some (lookup cid room))) [
    | inl known ↦
        rw (e, depart) (rw (known, depart) (remove_member-HasNoEmptyRoom cid k room rooms n))
    | inr other ↦ rw (e, depart) (rw (other, depart) n)
  ]
]

unsubscribe-HasNoEmptyRoom :
    (h : Hub) (c : Client) (k : Str)
    → HasNoEmptyRoom h.subscribers_by_room
    → HasNoEmptyRoom (unsubscribe h c k).0.subscribers_by_room
unfolding unsubscribe
unsubscribe-HasNoEmptyRoom h c k n = elim (Bool-cases (has_subscribed h k c.id)) [
  | inr other ↦ rw (other, unsubscribe) n
  | inl known ↦ elim (Option-cases (lookup k h.subscribers_by_room)) [
    | inl e ↦ rw (known, unsubscribe) (rw (e, unsubscribe) n)
    | inr (room, e) ↦
        rw (known, unsubscribe)
          (rw (e, unsubscribe) (remove_member-HasNoEmptyRoom c.id k room h.subscribers_by_room n))
  ]
]

depart_all-HasNoEmptyRoom :
    (cid : Str) (ks : List Str) (rooms : Map (Map Client))
    → HasNoEmptyRoom rooms
    → HasNoEmptyRoom (depart_all cid ks rooms).0
unfolding depart_all
depart_all-HasNoEmptyRoom cid [] rooms n = n
depart_all-HasNoEmptyRoom cid (k ∷ ks) rooms n =
    depart_all-HasNoEmptyRoom cid ks (depart cid k rooms).0 (depart-HasNoEmptyRoom cid k rooms n)

subscribe-HasNoEmptyRoom :
    (h : Hub) (c : Client) (k : Str)
    → HasNoEmptyRoom h.subscribers_by_room
    → HasNoEmptyRoom (subscribe h c k).0.subscribers_by_room
unfolding subscribe
subscribe-HasNoEmptyRoom h c k n x e = ground (
  arith,
  n x,
  lookup-insert k x (insert c.id c (get_or k h.subscribers_by_room [])) h.subscribers_by_room,
  insert-ne_nil c.id c (get_or k h.subscribers_by_room []),
)

-- Each operation keeps the agreement.
pub subscribe-IsAgreed :
    (h : Hub) (c : Client) (k : Str) → IsAgreed h → IsAgreed (subscribe h c k).0
subscribe-IsAgreed h c k a = record {
  agree = λ x y.
      in_rooms-subscribe h c k x y
      ∙ ap (λ b. (k == x && c.id == y) || b) (a.agree x y)
      ∙ sym (has_subscribed-subscribe h c k x y);
  no_empty = λ x e. subscribe-HasNoEmptyRoom h c k a.no_empty x e;
}

pub unsubscribe-IsAgreed :
    (h : Hub) (c : Client) (k : Str) → IsAgreed h → IsAgreed (unsubscribe h c k).0
unsubscribe-IsAgreed h c k a = record {
  agree = λ x y.
      in_rooms-unsubscribe h c k x y a
      ∙ ap (λ b. not (k == x && c.id == y) && b) (a.agree x y)
      ∙ sym (has_subscribed-unsubscribe h c k x y);
  no_empty = unsubscribe-HasNoEmptyRoom h c k a.no_empty;
}

pub unregister-IsAgreed : (h : Hub) (c : Client) → IsAgreed h → IsAgreed (unregister h c).0
unregister-IsAgreed h c a = record {
  agree = λ x y.
      in_rooms-unregister h c x y a
      ∙ ap (λ b. not (c.id == y) && b) (a.agree x y)
      ∙ sym (has_subscribed-unregister h c x y);
  no_empty =
      unfold unregister in
      (depart_all-HasNoEmptyRoom c.id (keys (subscriptions_of h c.id)) h.subscribers_by_room
        a.no_empty);
}
