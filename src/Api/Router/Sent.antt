-- ===== src/Api/Router/Sent.antt =====
-- Whose a message is that a request sends (internal/api/handlers_channels.go).
use openchat_backend.Chat.Sending.{messages_of}
use openchat_backend.Chat.Sending.Results.{create_message_sent}
use openchat_backend.Chat.Types.{Message}
use openchat_backend.Api.Router.Identity.{unauthorized, served, serve-IsServedFor, named}
use openchat_backend.Api.Types.{message}
use openchat_backend.Chat
use openchat_backend.Api
use openchat_backend.Api.Router.{create_message, authed, handle_authed, serve}
use openchat_backend.Api.Types.{Requester, Server, Served, Body}
use openchat_backend.Api.Requester.{Headers}
use openchat_backend.Api.Tickets.{Context}
use openchat_backend.Strings.{trim_space}
use openchat_backend.Base.{
  ℕ, ◌≡◌, refl, sym, ap, ◌∙◌, subst, ◌≢◌, inl, inr, Option, none, some, [], ◌∷◌, ◌++◌, Bool-cases,
  is_nil, Str, ℤ, ok, Result-cases, some_eq,
}

abbrev message_in : Body → Option Message
message_in (message m) = some m
message_in body = none

-- What a request that is answered with a message has done.
abbrev pub IsSent : Server → Str → Str → Message → Served → Type 0
IsSent s channel_id author_uid m o =
    (m.author_uid ≡ author_uid)
    × (m.channel_id ≡ channel_id)
    × (messages_of o.state.chat channel_id ≡ messages_of s.chat channel_id ++ m ∷ [])
    × ((c : Str) → c ≢ channel_id → messages_of o.state.chat c ≡ messages_of s.chat c)
    × (o.notice ≡ Api.Channels.message_notice (Chat.Messages.to_broadcaster s.chat.broadcaster m))

message_refused_empty :
    (e : Chat.Types.Error) → message_in (Api.Channels.message_refused e).body ≡ none
unfolding Api.Channels.message_refused
message_refused_empty (Chat.Types.unknown_server s) = refl
message_refused_empty (Chat.Types.unknown_channel s) = refl
message_refused_empty Chat.Types.not_a_text_channel = refl
message_refused_empty Chat.Types.server_id_required = refl
message_refused_empty Chat.Types.user_uid_required = refl
message_refused_empty Chat.Types.message_empty = refl
message_refused_empty Chat.Types.attachment_too_large = refl
message_refused_empty Chat.Types.attachment_type_unsupported = refl
message_refused_empty Chat.Types.attachment_image_invalid = refl
message_refused_empty Chat.Types.too_many_attachments = refl
message_refused_empty Chat.Types.attachment_not_found = refl
message_refused_empty Chat.Types.reply_target_not_found = refl

payload_refused_empty :
    (e : Api.Channels.PayloadError) → message_in (Api.Channels.payload_refused e).body ≡ none
unfolding Api.Channels.payload_refused
payload_refused_empty Api.Channels.invalid_message_payload = refl
payload_refused_empty Api.Channels.invalid_multipart_payload = refl
payload_refused_empty Api.Channels.attachment_read_failed = refl
payload_refused_empty Api.Channels.attachment_too_large = refl
payload_refused_empty Api.Channels.attachment_count_exceeded = refl

module _ (x : Context) (s : Server) (requester : Requester) (m : Message) where
  created-IsSent :
      (channel_id : Str) (payload : Api.Channels.MessagePayload) (ids : ℕ → Str) (now : ℤ)
      → (Api.Channels.created s (
          Chat.Messages.create_message x.platform s.chat channel_id requester.user_uid payload.body
            payload.uploads payload.reply_to_message_id ids now)).response.body
        ≡ message m
      → IsSent s channel_id requester.user_uid m (
          Api.Channels.created s (
            Chat.Messages.create_message x.platform s.chat channel_id requester.user_uid
              payload.body payload.uploads payload.reply_to_message_id ids now))
  created-IsSent channel_id payload ids now h =
      let call =
        Chat.Messages.create_message x.platform s.chat channel_id requester.user_uid payload.body
          payload.uploads payload.reply_to_message_id ids now in
      elim (Result-cases call.result) [
        | inl (n, ok_n) ↦
            let same : n ≡ m = some_eq (ap message_in (rw ok_n at h)) in
            let (stored, others, told, channel, author, _, _) =
              create_message_sent x.platform s.chat channel_id requester.user_uid payload.body
                payload.uploads payload.reply_to_message_id ids now m (ok_n ∙ ap ok same) in
            (author, channel, stored, others, ap Api.Channels.message_notice told)
        | inr (error, err_e) ↦
            absurd (cc (sym (message_refused_empty error) ∙ ap message_in (rw err_e at h)))
      ]

  create_message-IsSent :
      (raw_channel : Str) (r : Api.Channels.MessageRequest) (ids : ℕ → Str) (now : ℤ)
      → (Api.Channels.create_message x.platform raw_channel r ids now
          (some requester)
          s).response.body
        ≡ message m
      → IsSent s
          (trim_space raw_channel)
          requester.user_uid
          m
          (Api.Channels.create_message x.platform raw_channel r ids now (some requester) s)
  unfolding Api.Channels.create_message
  create_message-IsSent raw_channel r ids now h =
      elim (Bool-cases (is_nil (trim_space raw_channel))) [
        | inl blank ↦ absurd (cc (ap message_in (rw blank at h)))
        | inr channel ↦
            elim (Result-cases (Api.Channels.parse_create_message_payload x.platform s.chat r)) [
              | inl (payload, e) ↦ rw channel (
                  rw e (
                    created-IsSent (trim_space raw_channel) payload ids now
                      (rw e at (rw channel at h))))
              | inr (e, d) ↦
                  absurd
                    (cc (sym (payload_refused_empty e) ∙ ap message_in (rw d at (rw channel at h))))
            ]
      ]

-- A request that is answered with a new message has stored it at the end of its channel, under the
-- requester that the headers name, and announced it if there is a broadcaster; the other channels are as
-- they were.
pub serve-IsSent :
    (x : Context) (headers : Headers) (raw_channel : Str) (r : Api.Channels.MessageRequest)
    (ids : ℕ → Str) (now : ℤ) (s : Server) (m : Message)
    → (serve x (authed headers (create_message raw_channel r ids now)) s).response.body ≡ message m
    → IsSent s
        (trim_space raw_channel)
        (named x.platform headers).user_uid
        m
        (serve x (authed headers (create_message raw_channel r ids now)) s)
unfolding handle_authed
serve-IsSent x headers raw_channel r ids now s m h =
    elim (serve-IsServedFor x headers (create_message raw_channel r ids now) s) [
      | unauthorized strict blank d ↦
          absurd (cc (ap message_in (ap (λ (x : Served). x.response.body) (sym d) ∙ h)))
      | served requester user device own strict same d ↦
          subst (IsSent s (trim_space raw_channel) (named x.platform headers).user_uid m) (sym d) (
            subst
              (λ (q : Requester).
                IsSent s (trim_space raw_channel) q.user_uid m
                  (handle_authed x (create_message raw_channel r ids now) (some requester) s))
              same
              (create_message-IsSent x s requester m raw_channel r ids now
                (ap (λ (x : Served). x.response.body) (sym d) ∙ h)))
    ]
