-- ===== src/Rtc/Rooms/Entries.antt =====
-- What holds of every entry of every room of roomHub (internal/rtc/signaling_service.go), after the
-- rooms change.
use openchat_backend.Rtc.Rooms.{RoomHub, register, unregister, broadcast, except_member}
use openchat_backend.Rtc.Types.{Participant}
use openchat_backend.Base.{
  ◌≡◌, refl, sym, subst, ◌≢◌, inl, inr, not, ◌&&◌, some, [], ◌∷◌, arith, if◌then◌else◌, Bool-cases,
  Option-cases, is_nil, All, Str, ◌==◌, ==_iff, ==_refl, ==_ne, ==_cases,
}
use openchat_backend.Base.Map.{
  Map, lookup, insert, delete, get_or, lookup-delete, get_or-insert_self, get_or-insert_ne,
}

All-insert {ℓ} :
    {V : Type ℓ} (P : Str × V → Type 0) (k : Str) (v : V) (m : Map V)
    → P (k, v)
    → All P m
    → All P (insert k v m)
unfolding insert
All-insert P k v [] p h = (p, tt)
All-insert P k v (e ∷ m) p (q, h) = elim (Bool-cases (e.0 == k)) [
  | inl same ↦ rw (same, insert) (p, h)
  | inr other ↦ rw (other, insert) (q, All-insert P k v m p h)
]

All-delete {ℓ} :
    {V : Type ℓ} (P : Str × V → Type 0) (k : Str) (m : Map V) → All P m → All P (delete k m)
unfolding delete
All-delete P k [] h = tt
All-delete P k (e ∷ m) (q, h) = elim (Bool-cases (e.0 == k)) [
  | inl same ↦ rw (same, delete) (All-delete P k m h)
  | inr other ↦ rw (other, delete) (q, All-delete P k m h)
]

abbrev pub Rooms : Type 0
Rooms = Map (Map Participant)

-- Every entry of the room of every channel.
abbrev pub Every : (Str → Str × Participant → Type 0) → Rooms → Type 0
Every P rooms = (c : Str) → All (P c) (get_or c rooms [])

get_or-delete :
    (k c : Str) (rooms : Rooms)
    → get_or c (delete k rooms) [] ≡ (if k == c then [] else get_or c rooms [])
get_or-delete k c rooms = ground (arith, lookup-delete k c rooms)

module _ (P : Str → Str × Participant → Type 0) where
  Every-insert :
      (k : Str) (room : Map Participant) (rooms : Rooms)
      → All (P k) room
      → Every P rooms
      → Every P (insert k room rooms)
  Every-insert k room rooms new old c = elim (==_cases k c) [
    | inl same ↦
        subst (λ x. All (P x) (get_or x (insert k room rooms) [])) same
          (rw (get_or-insert_self k room [] rooms) new)
    | inr other ↦ rw (get_or-insert_ne k c room [] rooms (λ e. other (sym e))) (old c)
  ]

  Every-delete : (k : Str) (rooms : Rooms) → Every P rooms → Every P (delete k rooms)
  Every-delete k rooms old c = elim (Bool-cases (k == c)) [
    | inl same ↦ rw (get_or-delete k c rooms) (rw same tt)
    | inr other ↦ rw (get_or-delete k c rooms) (rw other (old c))
  ]

  pub register-Every :
      (h : RoomHub) (client : Participant)
      → P client.channel_id (client.participant_id, client)
      → Every P h.rooms
      → Every P (register h client).0.rooms
  unfolding register
  register-Every h client new old =
      Every-insert client.channel_id _ h.rooms
        (All-insert (P client.channel_id) client.participant_id client _ new
          (old client.channel_id))
        old

  room-All :
      (h : RoomHub) (k : Str) (room : Map Participant)
      → Every P h.rooms
      → lookup k h.rooms ≡ some room
      → All (P k) room
  room-All h k room old e = subst (All (P k)) (rw (e, get_or) refl) (old k)

  pub unregister-Every :
      (h : RoomHub) (k id : Str) → Every P h.rooms → Every P (unregister h k id).rooms
  unfolding unregister
  unregister-Every h k id old = elim (Option-cases (lookup k h.rooms)) [
    | inl e ↦ rw (e, unregister) old
    | inr (room, e) ↦ elim (Bool-cases (is_nil (delete id room))) [
      | inl nobody ↦ rw (e, unregister) (rw (nobody, unregister) (Every-delete k h.rooms old))
      | inr somebody ↦
          rw (e, unregister)
            (rw (somebody, unregister)
              (Every-insert k (delete id room) h.rooms
                (All-delete (P k) id room (room-All h k room old e)) old))
    ]
  ]

  except_member-Every :
      (channel_id except_id : Str) (room : Map Participant)
      → All (P channel_id) room
      → All (λ (p : Participant). (id : Str) × P channel_id (id, p)) (except_member except_id room)
  unfolding except_member
  except_member-Every channel_id except_id [] h = tt
  except_member-Every channel_id except_id ((id, client) ∷ room) (q, h) =
      elim (Bool-cases (not (is_nil except_id) && id == except_id)) [
        | inl out ↦ rw (out, except_member) (except_member-Every channel_id except_id room h)
        | inr stays ↦
            rw (stays, except_member) ((id, q), except_member-Every channel_id except_id room h)
      ]

  -- What holds of every entry holds of whom a broadcast goes to.
  pub broadcast-Every :
      (h : RoomHub) (channel_id except_id : Str)
      → Every P h.rooms
      → All
          (λ (p : Participant). (id : Str) × P channel_id (id, p))
          (broadcast h channel_id except_id)
  unfolding broadcast
  broadcast-Every h channel_id except_id old =
      except_member-Every channel_id except_id (get_or channel_id h.rooms []) (old channel_id)

delete-Lacks :
    (id : Str) (room : Map Participant) → All (λ (e : Str × Participant). e.0 ≢ id) (delete id room)
unfolding delete
delete-Lacks id [] = tt
delete-Lacks id (e ∷ room) = elim (==_cases e.0 id) [
  | inl same ↦ rw ((==_iff e.0 id).1 same, delete) (delete-Lacks id room)
  | inr other ↦ rw (==_ne e.0 id other, delete) (other, delete-Lacks id room)
]

-- After a participant is unregistered from a channel nothing stands under the id there.
pub unregister-Lacks :
    (h : RoomHub) (k id : Str)
    → All (λ (e : Str × Participant). e.0 ≢ id) (get_or k (unregister h k id).rooms [])
unfolding unregister
unregister-Lacks h k id = elim (Option-cases (lookup k h.rooms)) [
  | inl e ↦ rw (e, unregister) (rw (e, get_or) tt)
  | inr (room, e) ↦ elim (Bool-cases (is_nil (delete id room))) [
    | inl nobody ↦
        rw (e, unregister)
          (rw (nobody, unregister) (rw (get_or-delete k k h.rooms) (rw (==_refl k) tt)))
    | inr somebody ↦
        rw (e, unregister)
          (rw (somebody, unregister)
            (rw (get_or-insert_self k (delete id room) [] h.rooms) (delete-Lacks id room)))
  ]
]
