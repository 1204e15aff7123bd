-- ===== src/Api/Tickets/Joins.antt =====
-- A join ticket from the API lets its requester into the call (internal/api/handlers_rtc.go with
-- internal/rtc/token_service.go and internal/rtc/signaling_service.go).
use openchat_backend.Chat
use openchat_backend.Api.Tickets.{
  Context, issue_join_ticket, ticket_input, ticket_answer, server_of,
}
use openchat_backend.Api.Types.{Requester, Server, Body, JoinTicket, join_ticket}
use openchat_backend.Rtc.Joining.{
  SignalingService, Joined, JoinError, wait_for_join, join_room, new_participant,
}
use openchat_backend.Rtc.Joining.Once.{wait_for_join_accepted}
use openchat_backend.Rtc.Rooms.{send_to_participant}
use openchat_backend.Rtc.Rooms.Reach.{send_to_participant-register}
use openchat_backend.Rtc.Tokens.RoundTrip.{IsCodec, parse_and_consume-issue}
use openchat_backend.Rtc.Tokens.{
  IssueTicketInput, Codec, Error, TokenService, new_claims, unix, issue, parse_and_consume,
}
use openchat_backend.Rtc.Types.{TicketClaims}
use openchat_backend.Strings.{trim_space}
use openchat_backend.Base.{
  if◌then◌else◌, ◌==◌, ◌&&◌, ◌≡◌, sym, ap, ◌∙◌, inl, inr, true, false, Option, none, some, arith,
  Bool-cases, is_nil, Str, str, ==_refl, ℤ, ◌+ℤ◌, ◌<ℤ◌, Result, ok, Result-cases, some_eq,
}
use openchat_backend.Base.Map.{lookup}

abbrev ticket_in : Body → Option JoinTicket
ticket_in (join_ticket t) = some t
ticket_in body = none

module _ (x : Context) (s : Server) (requester : Requester) (raw_channel server_id : Str)
    (now issued_at : ℤ) (uuid : Str) where
  abbrev channel : Str
  channel = trim_space raw_channel

  abbrev server : Str
  server = server_of x now server_id s

  abbrev issued : Result Error (Str × TicketClaims)
  issued =
      issue x.codec s.signaling.service.tokens (ticket_input server channel requester) issued_at
        uuid

  -- A ticket was issued for a voice channel and a server that exist.
  abbrev IsIssued : JoinTicket → Type 0
  IsIssued t =
      (is_nil channel ≡ false)
      × (Chat.Directory.channel_exists s.chat channel ≡ true)
      × (Chat.Directory.is_voice_channel s.chat channel ≡ true)
      × (Chat.Directory.server_exists s.chat server ≡ true)
      × (claims : TicketClaims) × (issued ≡ ok (t.ticket, claims))

  issue_join_ticket-IsIssued :
      (t : JoinTicket)
      → (issue_join_ticket x raw_channel server_id now issued_at uuid (some requester) s).body
        ≡ join_ticket t
      → IsIssued t
  unfolding issue_join_ticket
  issue_join_ticket-IsIssued t h = elim (Bool-cases (is_nil channel)) [
    | inl a ↦ absurd (cc (ap ticket_in (rw a at h)))
    | inr a ↦ elim (Bool-cases (Chat.Directory.channel_exists s.chat channel)) [
      | inr b ↦ absurd (cc (ap ticket_in (rw b at (rw a at h))))
      | inl b ↦ elim (Bool-cases (Chat.Directory.is_voice_channel s.chat channel)) [
        | inr c ↦ absurd (cc (ap ticket_in (rw c at (rw b at (rw a at h)))))
        | inl c ↦ elim (Bool-cases (Chat.Directory.server_exists s.chat server)) [
          | inr d ↦ absurd (cc (ap ticket_in (rw d at (rw c at (rw b at (rw a at h))))))
          | inl d ↦ elim (Result-cases issued) [
            | inr (e, f) ↦
                absurd (cc (ap ticket_in (rw f at (rw d at (rw c at (rw b at (rw a at h)))))))
            | inl ((ticket, claims), f) ↦
                let same : ticket_answer x now s ticket claims ≡ t =
                  some_eq (ap ticket_in (rw f at (rw d at (rw c at (rw b at (rw a at h)))))) in
                (a, b, c, d, claims, f ∙ ap (λ (t : JoinTicket). ok (t.ticket, claims)) same)
          ]
        ]
      ]
    ]
  ]

issue_claims :
    (codec : Codec) (tokens : TokenService) (input : IssueTicketInput) (now : ℤ) (uuid ticket : Str)
    (claims : TicketClaims)
    → issue codec tokens input now uuid ≡ ok (ticket, claims)
    → claims ≡ new_claims codec tokens input now uuid
unfolding issue
issue_claims codec tokens input now uuid ticket claims h = ground arith

-- A ticket that the API answers with is for a voice channel that exists; and a client that joins with
-- it on the same signaling service before it expires, its id still unused, joins as the
-- requester with the requester's device: afterwards that channel's room has that participant under the
-- client's id, and every other address reaches whom it reached before, if JSON reads back what it
-- wrote for the claims.
pub issue_join_ticket_joins :
    (x : Context) (laws : IsCodec x.codec) (s : Server) (requester : Requester)
    (raw_channel server_id : Str) (now issued_at : ℤ) (uuid payload : Str) (t : JoinTicket)
    (service : SignalingService) (read_ticket : Str → Option Str) (id message ticket : Str)
    (later joined_at : ℤ)
    → (issue_join_ticket x raw_channel server_id now issued_at uuid (some requester) s).body
      ≡ join_ticket t
    → x.codec.marshal (
        new_claims x.codec s.signaling.service.tokens
          (ticket_input (server_of x now server_id s) (trim_space raw_channel) requester)
          issued_at
          uuid)
      ≡ some payload
    → x.codec.unmarshal payload
      ≡ some (
          new_claims x.codec s.signaling.service.tokens
            (ticket_input (server_of x now server_id s) (trim_space raw_channel) requester)
            issued_at
            uuid)
    → service.tokens.secret ≡ s.signaling.service.tokens.secret
    → lookup uuid service.tokens.used_jtis ≡ none
    → unix later <ℤ unix (issued_at +ℤ s.signaling.service.tokens.ttl)
    → read_ticket message ≡ some ticket
    → trim_space ticket ≡ t.ticket
    → (Chat.Directory.channel_exists s.chat (trim_space raw_channel) ≡ true)
      × (Chat.Directory.is_voice_channel s.chat (trim_space raw_channel) ≡ true)
      × (joined : Joined) × ((wait_for_join x.codec read_ticket service id
            (str "rtc.join")
            message
            later
            joined_at).1
          ≡ ok joined)
      × (joined.participant ≡ record {
        participant_id = id;
        channel_id = trim_space raw_channel;
        user_uid = requester.user_uid;
        device_id = requester.device_id;
        permissions = record { speak = true; video = true; screenshare = true };
        joined_at = joined_at;
      })
      × ((channel_id participant_id : Str)
          → send_to_participant
              (wait_for_join x.codec read_ticket service id
                (str "rtc.join")
                message
                later
                joined_at).0.rooms
              channel_id
              participant_id
            ≡ (if trim_space raw_channel == channel_id && id == participant_id
                then some joined.participant
                else send_to_participant service.rooms channel_id participant_id))
unfolding join_room
issue_join_ticket_joins x laws s requester raw_channel server_id now issued_at uuid payload t
      service read_ticket id message ticket later joined_at h m u same fresh early reads trimmed =
    let (named, exists', voice, server, claims, issued) =
      issue_join_ticket-IsIssued x s requester raw_channel server_id now issued_at uuid t h in
    let input = ticket_input (server_of x now server_id s) (trim_space raw_channel) requester in
    let own : claims ≡ new_claims x.codec s.signaling.service.tokens input issued_at uuid =
      issue_claims x.codec s.signaling.service.tokens input issued_at uuid t.ticket claims issued in
    let (_, accepted) =
      parse_and_consume-issue x.codec laws s.signaling.service.tokens service.tokens input issued_at
        later uuid t.ticket payload claims issued (ap x.codec.marshal own ∙ m)
        (u ∙ ap some (sym own)) same fresh early in
    let claimed : (parse_and_consume x.codec service.tokens (trim_space ticket) later).1
        ≡ ok claims =
      ap (λ k. (parse_and_consume x.codec service.tokens k later).1) trimmed ∙ accepted in
    (
      exists',
      voice,
      _,
      ap (λ (o : SignalingService × Result JoinError Joined). o.1)
          (wait_for_join_accepted x.codec read_ticket service id (str "rtc.join") message ticket
            later joined_at (==_refl (str "rtc.join")) reads claims claimed),
      ap (λ (c : TicketClaims). new_participant id c joined_at) own,
      λ channel_id participant_id.
          ap
            (λ (o : SignalingService × Result JoinError Joined).
              send_to_participant o.0.rooms channel_id participant_id)
            (wait_for_join_accepted x.codec read_ticket service id (str "rtc.join") message ticket
              later joined_at (==_refl (str "rtc.join")) reads claims claimed)
          ∙ send_to_participant-register service.rooms (new_participant id claims joined_at)
              channel_id participant_id
          ∙ ap
              (λ (c : TicketClaims).
                if c.channel_id == channel_id && id == participant_id
                then some (new_participant id claims joined_at)
                else send_to_participant service.rooms channel_id participant_id)
              own,
    )
