-- ===== src/Realtime/Hub.antt =====
-- internal/realtime/chat_hub.go: the hub and its clients.
-- A client object is named by its id, so that its field `subscriptions` stands in the hub, under that
-- id. A Go map is an association list: the order of its entries is one of those in which Go may
-- iterate. Every operation holds the lock of the hub from its first access to its last.
pub mod Membership
pub mod Agreement
pub mod History
use openchat_backend.Strings.{trim_space}
use openchat_backend.Base.{
  ℕ, zero, suc, ◌+◌, ◌-◌, ◌*◌, ◌≤◌, ◌<◌, min, ◌≡◌, refl, sym, ap, ◌∙◌, subst, ◌≢◌, ◌↔◌, ◌⊎◌, inl,
  inr, Bool, true, false, not, ◌&&◌, ◌||◌, Option, none, some, List, [], ◌∷◌, ◌++◌, map, append-nil,
  append_assoc, arith, ltb, leb, eqb, if◌then◌else◌, Bool-cases, Option-cases, is_some, is_nil,
  length, take, drop, length-append, length-take, length-drop, take-append-drop, map_self, All,
  All-append, All-mono, Str, str, ◌==◌, ==_iff, ==_refl, ==_ne, ==_cases, ℤ, pos, negsuc, ◌+ℤ◌,
  ◌≤ℤ◌, ◌<ℤ◌, leb_ℤ, ltb_ℤ, eqb_ℤ, floor_div, int_suc, max_int, ◌%◌, ◌/◌, Result, ok, err,
  Result-cases,
}
use openchat_backend.Base.Map.{
  Map, lookup, insert, delete, get_or, lookup-insert, lookup-insert_self, lookup-insert_ne,
  lookup-delete,
}

-- The fields of a client that do not change, without the connection.
pub record Client : Type 0 where
  pub id : Str
  pub user_uid : Str
  pub device_id : Str

pub record PresenceMember : Type 0 where
  pub client_id : Str
  pub user_uid : Str
  pub device_id : Str

pub record ChannelDeparture : Type 0 where
  pub channel_id : Str
  pub peers : List Client

pub record Hub : Type 0 where
  pub clients_by_id : Map Client
  pub subscribers_by_room : Map (Map Client)
  pub subscriptions : Map (Map (Unit {0}))

unfoldable pub new_hub : Hub
new_hub = record { clients_by_id = []; subscribers_by_room = []; subscriptions = [] }

abbrev pub subscriptions_of : Hub → Str → Map (Unit {0})
subscriptions_of h client_id = get_or client_id h.subscriptions []

unfoldable pub presence_member_from_client : Client → PresenceMember
presence_member_from_client c = record {
  client_id = c.id;
  user_uid = c.user_uid;
  device_id = c.device_id;
}

unfoldable pub register : Hub → Client → Hub
register h c = record h { clients_by_id = insert c.id c h.clients_by_id }

-- The values of a map, and its keys.
abbrev pub values {ℓ} : {V : Type ℓ} → Map V → List V
values m = map (λ e. e.1) m

abbrev pub keys {ℓ} : {V : Type ℓ} → Map V → List Str
keys m = map (λ e. e.0) m

-- The members of a room that have another id.
unfoldable pub others : Str → List Client → List Client
others client_id [] = []
others client_id (member ∷ members) =
    let rest = others client_id members in if member.id == client_id then rest else member ∷ rest

-- The hub, the snapshot, the peers, and whether the client has just joined.
unfoldable pub subscribe : Hub → Client → Str → Hub × List PresenceMember × List Client × Bool
subscribe h c channel_id =
    let room = insert c.id c (get_or channel_id h.subscribers_by_room []) in
    let own = subscriptions_of h c.id in
    (
      record h {
        subscribers_by_room = insert channel_id room h.subscribers_by_room;
        subscriptions = insert c.id (insert channel_id tt own) h.subscriptions;
      },
      map presence_member_from_client (values room),
      others c.id (values room),
      not (is_some (lookup channel_id own)),
    )

-- The rooms after a client has been taken out of one, which is dropped when nobody is left.
unfoldable pub remove_member : Str → Str → Map Client → Map (Map Client) → Map (Map Client)
remove_member client_id channel_id room rooms =
    let left = delete client_id room in
    if is_nil left then delete channel_id rooms else insert channel_id left rooms

unfoldable pub unsubscribe : Hub → Client → Str → Hub × List Client × Bool
unfolding remove_member
unsubscribe h c channel_id =
    let own = subscriptions_of h c.id in
    let subscriptions = insert c.id (delete channel_id own) h.subscriptions in
    if not (is_some (lookup channel_id own))
    then (h, [], false)
    else elim (lookup channel_id h.subscribers_by_room) [
      | none ↦ (record h { subscriptions = subscriptions }, [], true)
      | some room ↦ (
        record h {
          subscribers_by_room = remove_member c.id channel_id room h.subscribers_by_room;
          subscriptions = subscriptions;
        },
        values (delete c.id room),
        true,
      )
    ]

-- One round of the loop of unregister: the rooms, and the departure if there is one.
unfoldable pub depart : Str → Str → Map (Map Client) → Map (Map Client) × List ChannelDeparture
unfolding remove_member
depart client_id channel_id rooms = elim (lookup channel_id rooms) [
  | none ↦ (rooms, [])
  | some room ↦
      if is_some (lookup client_id room)
      then (
        remove_member client_id channel_id room rooms,
        record { channel_id = channel_id; peers = values (delete client_id room) } ∷ [],
      )
      else (rooms, [])
]

unfoldable pub depart_all :
    Str → List Str → Map (Map Client) → Map (Map Client) × List ChannelDeparture
unfolding depart
depart_all client_id [] rooms = (rooms, [])
depart_all client_id (channel_id ∷ channel_ids) rooms =
    let (left, first) = depart client_id channel_id rooms in
    let rest = depart_all client_id channel_ids left in (rest.0, first ++ rest.1)

unfoldable pub unregister : Hub → Client → Hub × List ChannelDeparture
unfolding depart_all
unregister h c =
    let (rooms, departures) =
      depart_all c.id (keys (subscriptions_of h c.id)) h.subscribers_by_room in
    (
      record {
        clients_by_id = delete c.id h.clients_by_id;
        subscribers_by_room = rooms;
        subscriptions = insert c.id [] h.subscriptions;
      },
      departures,
    )

unfoldable pub typing_peers : Hub → Client → Str → List Client × Bool
typing_peers h c channel_id =
    let room = get_or channel_id h.subscribers_by_room [] in
    if not (is_some (lookup channel_id (subscriptions_of h c.id)))
    then ([], false)
    else if is_nil room
    then ([], true)
    else (others c.id (values room), true)

-- The clients whose queues BroadcastMessage and BroadcastProfileUpdated write to.
unfoldable pub message_recipients : Hub → Str → List Client
message_recipients h channel_id =
    let room = get_or channel_id h.subscribers_by_room [] in if is_nil room then [] else values room

unfoldable pub profile_recipients : Hub → List Client
profile_recipients h = values h.clients_by_id
