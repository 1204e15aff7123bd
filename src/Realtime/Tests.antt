-- ===== src/Realtime/Tests.antt =====
-- Tests of internal/realtime/chat_hub.go, and its theorems at a hub with two clients.
use mathlib.Core.List.{Mem}
use openchat_backend.Realtime.Events.Notices.{handle_envelope_typing, IsNotice, notice}
use openchat_backend.Realtime.Hub.History.{
  run, step, connect, join_channel, run-new_hub-IsAgreed, subscribe_joins, unsubscribe_leaves,
  unregister_clears, Call,
}
use openchat_backend.Realtime.Hub.Membership.{in_rooms, member_at, has_subscribed, IsAgreed}
use openchat_backend.Realtime.Events.{
  Event, Envelope, PayloadReader, handle_envelope, typing_updated, chat_error, reply,
}
use openchat_backend.Realtime.Hub.{
  values, Client, Hub, subscribe, unsubscribe, register, unregister, new_hub,
  presence_member_from_client,
}
use openchat_backend.Strings.{strings, trim_space}
use openchat_backend.Base.{
  ◌≡◌, refl, ◌≢◌, true, false, not, ◌&&◌, ◌||◌, none, some, List, [], ◌∷◌, is_nil, All, Str, str,
  ◌==◌,
}
use openchat_backend.Base.Map.{lookup, insert, get_or}

abbrev ann : Client
ann = record { id = str "c1"; user_uid = str "ann"; device_id = str "phone" }

abbrev bob : Client
bob = record { id = str "c2"; user_uid = str "bob"; device_id = str "desk" }

abbrev lobby : Str
lobby = str "lobby"

abbrev calls : List Call
calls = connect ann ∷ connect bob ∷ join_channel ann lobby ∷ join_channel bob lobby ∷ []

abbrev hub : Hub
hub = run new_hub calls

run-new_hub-IsAgreed_example : IsAgreed (run new_hub calls)
run-new_hub-IsAgreed_example = run-new_hub-IsAgreed calls

hub-IsAgreed : IsAgreed hub
hub-IsAgreed = run-new_hub-IsAgreed calls

subscribe_joins_example :
    ((subscribe hub ann lobby).3 ≡ not (in_rooms hub.subscribers_by_room lobby ann.id))
    × ((x y : Str)
        → in_rooms (subscribe hub ann lobby).0.subscribers_by_room x y
          ≡ ((lobby == x && ann.id == y) || in_rooms hub.subscribers_by_room x y))
    × ((x y : Str)
        → has_subscribed (subscribe hub ann lobby).0 x y
          ≡ ((lobby == x && ann.id == y) || has_subscribed hub x y))
    × ((x y : Str)
        → (lobby == x && ann.id == y) ≡ false
        → member_at (subscribe hub ann lobby).0.subscribers_by_room x y
          ≡ member_at hub.subscribers_by_room x y)
    × (member_at (subscribe hub ann lobby).0.subscribers_by_room lobby ann.id ≡ some ann)
    × ((subscribe hub ann lobby).0.clients_by_id ≡ hub.clients_by_id)
subscribe_joins_example = subscribe_joins hub ann lobby hub-IsAgreed

unsubscribe_leaves_example :
    ((unsubscribe hub ann lobby).2 ≡ in_rooms hub.subscribers_by_room lobby ann.id)
    × ((x y : Str)
        → in_rooms (unsubscribe hub ann lobby).0.subscribers_by_room x y
          ≡ (not (lobby == x && ann.id == y) && in_rooms hub.subscribers_by_room x y))
    × ((x y : Str)
        → has_subscribed (unsubscribe hub ann lobby).0 x y
          ≡ (not (lobby == x && ann.id == y) && has_subscribed hub x y))
    × ((x y : Str)
        → (lobby == x && ann.id == y) ≡ false
        → member_at (unsubscribe hub ann lobby).0.subscribers_by_room x y
          ≡ member_at hub.subscribers_by_room x y)
    × ((unsubscribe hub ann lobby).0.clients_by_id ≡ hub.clients_by_id)
unsubscribe_leaves_example = unsubscribe_leaves hub ann lobby hub-IsAgreed

unregister_clears_example :
    (lookup ann.id (unregister hub ann).0.clients_by_id ≡ none)
    × ((x : Str) → in_rooms (unregister hub ann).0.subscribers_by_room x ann.id ≡ false)
    × ((x : Str) → has_subscribed (unregister hub ann).0 x ann.id ≡ false)
    × ((x y : Str)
        → y ≢ ann.id
        → in_rooms (unregister hub ann).0.subscribers_by_room x y
          ≡ in_rooms hub.subscribers_by_room x y)
unregister_clears_example = unregister_clears hub ann hub-IsAgreed

-- A payload is the name of a channel, and nobody stops typing.
abbrev reader : PayloadReader
reader = record { channel_id = λ s. s; typing = λ s. (s, true) }

abbrev typing : Envelope
typing = record { type = str "chat.typing.update"; request_id = str "r"; payload = lobby }

both_are_in : in_rooms hub.subscribers_by_room lobby ann.id ≡ true
unfolding strings run step new_hub register subscribe lookup insert
both_are_in = refl

named : is_nil (trim_space lobby) ≡ false
unfolding strings
named = refl

abbrev typing_event : Event
typing_event = typing_updated (trim_space lobby) (presence_member_from_client ann) true

abbrev lobby_room : List Client
lobby_room = values (get_or (trim_space lobby) hub.subscribers_by_room [])

handle_envelope_typing_example :
    ((handle_envelope reader (str "now") hub ann typing).0 ≡ hub)
    × (in_rooms hub.subscribers_by_room (trim_space lobby) ann.id ≡ true
        → All
            (IsNotice typing_event ann.id lobby_room)
            (handle_envelope reader (str "now") hub ann typing).1
          × ((member : Client)
              → Mem member lobby_room
              → member.id ≢ ann.id
              → Mem
                  (notice typing_event member)
                  (handle_envelope reader (str "now") hub ann typing).1))
    × (in_rooms hub.subscribers_by_room (trim_space lobby) ann.id ≡ false
        → (handle_envelope reader (str "now") hub ann typing).1
          ≡ reply ann typing (chat_error (str "chat_not_subscribed")) ∷ [])
handle_envelope_typing_example =
    handle_envelope_typing reader (str "now") hub ann typing lobby true hub-IsAgreed refl refl named
