-- ===== src/Rtc/Joining/Once.antt =====
-- A ticket lets at most one client into a call (internal/rtc/signaling_service.go).
use openchat_backend.Rtc.Joining.{
  SignalingService, JoinError, Joined, wait_for_join, join_room, new_participant, refused_ticket,
  TokenService, Error, Participant,
}
use openchat_backend.Rtc.Tokens.Once.{parse_and_consume_once, run, IsOrdered}
use openchat_backend.Rtc.Tokens.{Codec, parse_and_consume, expired_ticket, replay_ticket, unix}
use openchat_backend.Rtc.Types.{TicketClaims}
use openchat_backend.Strings.{trim_space}
use openchat_backend.Base.{
  ◌≡◌, refl, sym, ap, ◌∙◌, ◌⊎◌, inl, inr, true, Option, some, List, Bool-cases, Str, str, ◌==◌,
  ==_refl, ℤ, leb_ℤ, Result, ok, err, Result-cases,
}

joined_eq : {m n : Joined} → ◌≡◌ {A = Result JoinError Joined} (ok m) (ok n) → m ≡ n
joined_eq h = cc

module _ (codec : Codec) (read_ticket : Str → Option Str) where
  module _ (s : SignalingService) (id type payload ticket : Str) (now joined_at : ℤ)
      (joins : (type == str "rtc.join") ≡ true) (reads : read_ticket payload ≡ some ticket) where
    abbrev parsed : TokenService × Result Error TicketClaims
    parsed = parse_and_consume codec s.tokens (trim_space ticket) now

    wait_for_join_refused :
        (e : Error)
        → parsed.1 ≡ err e
        → wait_for_join codec read_ticket s id type payload now joined_at
          ≡ (record s { tokens = parsed.0 }, err (refused_ticket e))
    unfolding wait_for_join
    wait_for_join_refused e h =
        rw (joins, wait_for_join) (rw (reads, wait_for_join) (rw (h, wait_for_join) refl))

    pub wait_for_join_accepted :
        (claims : TicketClaims)
        → parsed.1 ≡ ok claims
        → wait_for_join codec read_ticket s id type payload now joined_at
          ≡ join_room (record s { tokens = parsed.0 }) (new_participant id claims joined_at)
    unfolding wait_for_join
    wait_for_join_accepted claims h =
        rw (joins, wait_for_join) (rw (reads, wait_for_join) (rw (h, wait_for_join) refl))

  join_room_lem :
      (s : SignalingService) (p : Participant) (j : Joined)
      → (join_room s p).1 ≡ ok j
      → (j.participant ≡ p) × ((join_room s p).0.tokens ≡ s.tokens)
  unfolding join_room
  join_room_lem s p j h = (ap (λ (x : Joined). x.participant) (sym (joined_eq h)), refl)

  -- What a call that lets a client in has read.
  let_in :
      (s : SignalingService) (id type payload ticket : Str) (now joined_at : ℤ) (j : Joined)
      → read_ticket payload ≡ some ticket
      → (wait_for_join codec read_ticket s id type payload now joined_at).1 ≡ ok j
      → (claims : TicketClaims) × ((parse_and_consume codec s.tokens (trim_space ticket) now).1
          ≡ ok claims)
        × (j.participant ≡ new_participant id claims joined_at)
        × ((wait_for_join codec read_ticket s id type payload now joined_at).0.tokens
            ≡ (parse_and_consume codec s.tokens (trim_space ticket) now).0)
  let_in s id type payload ticket now joined_at j reads h =
      elim (Bool-cases (type == str "rtc.join")) [
        | inr other ↦ absurd (unfold wait_for_join in (cc (rw (other, wait_for_join) at h)))
        | inl joins ↦
            elim (Result-cases (parse_and_consume codec s.tokens (trim_space ticket) now).1) [
              | inr (e, d) ↦ absurd (
                  cc (
                    sym (
                      ap (λ (x : SignalingService × Result JoinError Joined). x.1)
                        (wait_for_join_refused s id type payload ticket now joined_at joins reads e
                          d))
                    ∙ h))
              | inl (claims, e) ↦
                  let o =
                    wait_for_join_accepted s id type payload ticket now joined_at joins reads claims
                      e in
                  let (same, kept) =
                    join_room_lem _ _ j
                      (sym (ap (λ (x : SignalingService × Result JoinError Joined). x.1) o) ∙ h) in
                  (
                    claims,
                    e,
                    same,
                    ap (λ (x : SignalingService × Result JoinError Joined). x.0.tokens) o ∙ kept,
                  )
            ]
      ]

  -- After a client was let into a call with a ticket, no client is let in with that ticket any more:
  -- whatever tickets the service has parsed since, and while the clock does not go back, a join with
  -- it is refused as expired or as replayed and the rooms stay as they are.
  pub wait_for_join_once :
      (s after : SignalingService) (id type payload ticket : Str) (now joined_at : ℤ) (j : Joined)
      (calls : List (Str × ℤ)) (next_id next_payload : Str) (later next_joined_at : ℤ)
      → read_ticket payload ≡ some ticket
      → read_ticket next_payload ≡ some ticket
      → (wait_for_join codec read_ticket s id type payload now joined_at).1 ≡ ok j
      → after.tokens
        ≡ run codec (wait_for_join codec read_ticket s id type payload now joined_at).0.tokens calls
      → IsOrdered codec now calls later
      → let next =
          wait_for_join codec read_ticket after next_id
            (str "rtc.join")
            next_payload
            later
            next_joined_at in
        (next.0.rooms ≡ after.rooms)
        × ((next.1 ≡ err (refused_ticket expired_ticket))
            ⊎ (next.1 ≡ err (refused_ticket replay_ticket)))
  wait_for_join_once s after id type payload ticket now joined_at j calls next_id next_payload later
        next_joined_at reads again h since ordered =
      let (claims, accepted, _, tokens) = let_in s id type payload ticket now joined_at j reads h in
      let seen =
        ap (λ x. (parse_and_consume codec x (trim_space ticket) later).1)
          (since ∙ ap (λ x. run codec x calls) tokens)
        ∙ parse_and_consume_once codec s.tokens (trim_space ticket) claims now later calls accepted
            ordered in
      elim (Bool-cases (leb_ℤ claims.expires_at (unix later))) [
        | inl old ↦
            let o =
              wait_for_join_refused after next_id (str "rtc.join") next_payload ticket later
                next_joined_at (==_refl (str "rtc.join")) again expired_ticket
                (seen ∙ rw old refl) in
            (
              ap (λ (x : SignalingService × Result JoinError Joined). x.0.rooms) o,
              inl (ap (λ (x : SignalingService × Result JoinError Joined). x.1) o),
            )
        | inr young ↦
            let o =
              wait_for_join_refused after next_id (str "rtc.join") next_payload ticket later
                next_joined_at (==_refl (str "rtc.join")) again replay_ticket
                (seen ∙ rw young refl) in
            (
              ap (λ (x : SignalingService × Result JoinError Joined). x.0.rooms) o,
              inr (ap (λ (x : SignalingService × Result JoinError Joined). x.1) o),
            )
      ]
