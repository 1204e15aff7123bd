-- ===== src/Realtime/Hub/History.antt =====
-- Histories of calls of internal/realtime/chat_hub.go, and what the callers are told.
use openchat_backend.Realtime.Hub.Agreement.{
  subscribe-IsAgreed, unsubscribe-IsAgreed, unregister-IsAgreed,
}
use openchat_backend.Realtime.Hub.Membership.{
  in_rooms, member_at, has_subscribed, has_subscribed-subscribe, has_subscribed-unsubscribe,
  member_at-subscribe, member_at-subscribe_self, member_at-unsubscribe, IsAgreed,
  in_rooms-subscribe, in_rooms-unsubscribe, in_rooms-unregister, has_subscribed-unregister,
}
use openchat_backend.Realtime.Hub.{
  Client, Hub, subscribe, unsubscribe, register, unregister, new_hub,
}
use openchat_backend.Base.{
  ◌≡◌, refl, sym, ap, ◌∙◌, ◌≢◌, false, not, ◌&&◌, ◌||◌, none, some, List, [], ◌∷◌, arith, Str, ◌==◌,
  ==_iff, ==_refl,
}
use openchat_backend.Base.Map.{lookup, lookup-delete}

pub data Call : Type 0 where
  connect : Client → Call
  join_channel : Client → (channel_id : Str) → Call
  leave_channel : Client → (channel_id : Str) → Call
  close : Client → Call

unfoldable pub step : Hub → Call → Hub
step h (connect c) = register h c
step h (join_channel c channel_id) = (subscribe h c channel_id).0
step h (leave_channel c channel_id) = (unsubscribe h c channel_id).0
step h (close c) = (unregister h c).0

unfoldable pub run : Hub → List Call → Hub
unfolding step
run h [] = h
run h (c ∷ cs) = run (step h c) cs

step-IsAgreed : (h : Hub) (c : Call) → IsAgreed h → IsAgreed (step h c)
unfolding step register
step-IsAgreed h (connect c) a = record { agree = a.agree; no_empty = a.no_empty }
step-IsAgreed h (join_channel c channel_id) a = subscribe-IsAgreed h c channel_id a
step-IsAgreed h (leave_channel c channel_id) a = unsubscribe-IsAgreed h c channel_id a
step-IsAgreed h (close c) a = unregister-IsAgreed h c a

run-IsAgreed : (h : Hub) (cs : List Call) → IsAgreed h → IsAgreed (run h cs)
unfolding run
run-IsAgreed h [] a = a
run-IsAgreed h (c ∷ cs) a = run-IsAgreed (step h c) cs (step-IsAgreed h c a)

new_hub-IsAgreed : IsAgreed new_hub
unfolding new_hub lookup
new_hub-IsAgreed = record { agree = λ x y. refl; no_empty = λ x e. cc e }

-- After any history of calls on a new hub, a client is in the room of a channel exactly if the
-- channel is in the subscriptions of the client, and no room is empty.
pub run-new_hub-IsAgreed : (cs : List Call) → IsAgreed (run new_hub cs)
run-new_hub-IsAgreed cs = run-IsAgreed new_hub cs new_hub-IsAgreed

module _ (h : Hub) (c : Client) (k : Str) (agreed : IsAgreed h) where
  -- Where rooms and subscriptions agree, subscribing says that the client has joined exactly if it was
  -- not in the room; afterwards that room holds that client, who has that subscription, every other
  -- place in a room holds the client that it held, every other subscription is as before, and so are
  -- the clients of the hub.
  pub subscribe_joins :
      ((subscribe h c k).3 ≡ not (in_rooms h.subscribers_by_room k c.id))
      × ((x y : Str)
          → in_rooms (subscribe h c k).0.subscribers_by_room x y
            ≡ ((k == x && c.id == y) || in_rooms h.subscribers_by_room x y))
      × ((x y : Str)
          → has_subscribed (subscribe h c k).0 x y
            ≡ ((k == x && c.id == y) || has_subscribed h x y))
      × ((x y : Str)
          → (k == x && c.id == y) ≡ false
          → member_at (subscribe h c k).0.subscribers_by_room x y
            ≡ member_at h.subscribers_by_room x y)
      × (member_at (subscribe h c k).0.subscribers_by_room k c.id ≡ some c)
      × ((subscribe h c k).0.clients_by_id ≡ h.clients_by_id)
  unfolding subscribe
  subscribe_joins = (
    ap not (sym (agreed.agree k c.id)),
    λ x y. in_rooms-subscribe h c k x y,
    λ x y. has_subscribed-subscribe h c k x y,
    λ x y e. member_at-subscribe h c k x y e,
    member_at-subscribe_self h c k,
    refl,
  )

  -- Where rooms and subscriptions agree, unsubscribing says that the client has left exactly if it was
  -- in the room; afterwards that client is not in that room and has no such subscription, every other
  -- place in a room holds the client that it held, every other subscription is as before, and so are
  -- the clients of the hub.
  pub unsubscribe_leaves :
      ((unsubscribe h c k).2 ≡ in_rooms h.subscribers_by_room k c.id)
      × ((x y : Str)
          → in_rooms (unsubscribe h c k).0.subscribers_by_room x y
            ≡ (not (k == x && c.id == y) && in_rooms h.subscribers_by_room x y))
      × ((x y : Str)
          → has_subscribed (unsubscribe h c k).0 x y
            ≡ (not (k == x && c.id == y) && has_subscribed h x y))
      × ((x y : Str)
          → (k == x && c.id == y) ≡ false
          → member_at (unsubscribe h c k).0.subscribers_by_room x y
            ≡ member_at h.subscribers_by_room x y)
      × ((unsubscribe h c k).0.clients_by_id ≡ h.clients_by_id)
  unfolding unsubscribe
  unsubscribe_leaves = (
    ground (arith, agreed.agree k c.id),
    λ x y. in_rooms-unsubscribe h c k x y agreed,
    λ x y. has_subscribed-unsubscribe h c k x y,
    λ x y e. member_at-unsubscribe h c k x y e,
    ground arith,
  )

-- Where rooms and subscriptions agree, a client that is unregistered is in no room, has no
-- subscription and is no client of the hub any more, and the other clients' rooms are as before.
pub unregister_clears :
    (h : Hub) (c : Client)
    → IsAgreed h
    → (lookup c.id (unregister h c).0.clients_by_id ≡ none)
      × ((x : Str) → in_rooms (unregister h c).0.subscribers_by_room x c.id ≡ false)
      × ((x : Str) → has_subscribed (unregister h c).0 x c.id ≡ false)
      × ((x y : Str)
          → y ≢ c.id
          → in_rooms (unregister h c).0.subscribers_by_room x y
            ≡ in_rooms h.subscribers_by_room x y)
unregister_clears h c a = (
  unfold unregister in (lookup-delete c.id c.id h.clients_by_id ∙ rw (==_refl c.id) refl),
  λ x. in_rooms-unregister h c x c.id a ∙ rw (==_refl c.id) refl,
  λ x. has_subscribed-unregister h c x c.id ∙ rw (==_refl c.id) refl,
  λ x y d.
      in_rooms-unregister h c x y a ∙ ground (arith, ==_iff c.id y, λ (e : c.id ≡ y). d (sym e)),
)
