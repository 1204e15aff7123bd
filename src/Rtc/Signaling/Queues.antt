-- ===== src/Rtc/Signaling/Queues.antt =====
-- Sends change queues only, and a send to a client that is open does not panic
-- (internal/rtc/signaling_service.go).
use openchat_backend.Rtc.Signaling.{Connection, Outgoing, Phase, push, enqueue, enqueue_all}
use openchat_backend.Rtc.Types.{Participant}
use openchat_backend.Base.{
  some_eq, ◌≡◌, refl, sym, ap, ◌∙◌, inl, inr, true, false, Option, none, some, List, [], ◌∷◌, arith,
  if◌then◌else◌, Bool-cases, Option-cases, All, All-mono, Str, ==_iff, ==_ne, ==_cases,
}
use openchat_backend.Base.Map.{Map, lookup, insert, lookup-insert}

-- A connection without its queue.
abbrev pub shape : Connection → Connection
shape c = record c { send = [] }

abbrev pub shape_of : Option Connection → Option Connection
shape_of none = none
shape_of (some c) = some (shape c)

abbrev pub view : Map Connection → Str → Option Connection
view connections id = shape_of (lookup id connections)

abbrev pub SameView : Map Connection → Map Connection → Type 0
SameView a b = (id : Str) → view b id ≡ view a id

abbrev pub open_shape : Participant → Phase → Connection
open_shape p phase = record { participant = p; phase = phase; closed = false; send = [] }

-- A client is open, as a participant.
abbrev pub IsOpen : Map Connection → Str → Participant → Type 0
IsOpen connections id p = (phase : Phase) × (view connections id ≡ some (open_shape p phase))

pub IsOpen-view :
    (a b : Map Connection) (id : Str) (p : Participant)
    → SameView a b
    → IsOpen a id p
    → IsOpen b id p
IsOpen-view a b id p same (phase, e) = (phase, same id ∙ e)

shape-push : (c : Connection) (message : Outgoing) → shape (push c message) ≡ shape c
shape-push c message = ground arith

view-insert_same :
    (connections : Map Connection) (id : Str) (c d : Connection)
    → lookup id connections ≡ some c
    → shape d ≡ shape c
    → SameView connections (insert id d connections)
view-insert_same connections id c d e same k =
    ap shape_of (lookup-insert id k d connections) ∙ elim (==_cases id k) [
      | inl here ↦
          rw ((==_iff id k).1 here)
            (ap some same ∙ ap shape_of (sym e) ∙ ap (view connections) here)
      | inr other ↦ rw (==_ne id k other) refl
    ]

module _ (a : Map Connection) (id : Str) (message : Outgoing) where
  pub enqueue_unknown : lookup id a ≡ none → enqueue a id message ≡ some a
  unfolding enqueue
  enqueue_unknown e = rw (e, enqueue) refl

  pub enqueue_live :
      (c : Connection)
      → lookup id a ≡ some c
      → c.closed ≡ false
      → enqueue a id message ≡ some (insert id (push c message) a)
  unfolding enqueue
  enqueue_live c e live =
      rw (e, enqueue)
        (ap {B = Option (Map Connection)}
          (λ b. if b then none else some (insert id (push c message) a)) live)

  pub enqueue_shut :
      (c : Connection) → lookup id a ≡ some c → c.closed ≡ true → enqueue a id message ≡ none
  unfolding enqueue
  enqueue_shut c e shut =
      rw (e, enqueue)
        (ap {B = Option (Map Connection)}
          (λ b. if b then none else some (insert id (push c message) a)) shut)

pub enqueue-view :
    (a b : Map Connection) (id : Str) (message : Outgoing)
    → enqueue a id message ≡ some b
    → SameView a b
enqueue-view a b id message h k = elim (Option-cases (lookup id a)) [
  | inl e ↦ ap (λ x. view x k) (some_eq (sym h ∙ enqueue_unknown a id message e))
  | inr (c, e) ↦ elim (Bool-cases c.closed) [
    | inl shut ↦ absurd (cc (sym h ∙ enqueue_shut a id message c e shut))
    | inr live ↦
        ap (λ x. view x k) (some_eq (sym h ∙ enqueue_live a id message c e live))
        ∙ view-insert_same a id c (push c message) e (shape-push c message) k
  ]
]

pub enqueue_all-view :
    (a b : Map Connection) (message : Outgoing) (peers : List Participant)
    → enqueue_all a message peers ≡ some b
    → SameView a b
unfolding enqueue_all
enqueue_all-view a b message [] h k = ap (λ x. view x k) (sym (some_eq h))
enqueue_all-view a b message (peer ∷ peers) h k =
    elim (Option-cases (enqueue a peer.participant_id message)) [
      | inl e ↦ absurd (cc (rw (e, enqueue_all) at h))
      | inr (c, e) ↦
          enqueue_all-view c b message peers (rw (e, enqueue_all) at h) k
          ∙ enqueue-view a c peer.participant_id message e k
    ]

-- What goes out to a client that is open does not panic.
pub enqueue_open :
    (a : Map Connection) (id : Str) (p : Participant) (message : Outgoing)
    → IsOpen a id p
    → (b : Map Connection) × (enqueue a id message ≡ some b)
enqueue_open a id p message (phase, h) = elim (Option-cases (lookup id a)) [
  | inl e ↦ absurd (cc (rw e at h))
  | inr (c, e) ↦ elim (Bool-cases c.closed) [
    | inl shut ↦ absurd (cc (ap (λ (x : Connection). x.closed) (some_eq (rw e at h))))
    | inr live ↦ (insert id (push c message) a, enqueue_live a id message c e live)
  ]
]

pub enqueue_all_open :
    (a : Map Connection) (message : Outgoing) (peers : List Participant)
    → All (λ (p : Participant). IsOpen a p.participant_id p) peers
    → (b : Map Connection) × (enqueue_all a message peers ≡ some b)
unfolding enqueue_all
enqueue_all_open a message [] h = (a, refl)
enqueue_all_open a message (peer ∷ peers) (here, h) =
    let (c, e) = enqueue_open a peer.participant_id peer message here in
    let (b, d) = enqueue_all_open c message peers (
      All-mono _ _
        (λ p. IsOpen-view a c p.participant_id p (enqueue-view a c peer.participant_id message e))
        peers h) in
    (b, rw (e, enqueue_all) d)
