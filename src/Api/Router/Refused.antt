-- ===== src/Api/Router/Refused.antt =====
-- What a request that is answered with an error leaves (internal/api/handlers_*.go).
use openchat_backend.Base.Map.{get_or}
use openchat_backend.Chat.Sending.{messages_of}
use openchat_backend.Chat.Sending.Results.{create_message_refused}
use openchat_backend.Profile.Operations.Results.{update_refused}
use openchat_backend.Chat.Types.{Message}
use openchat_backend.Profile.Types.{CanonicalProfile}
use openchat_backend.Api.Router.Identity.{unauthorized, served, serve-IsServedFor}
use openchat_backend.Api.Router.Cases.{
  IsHandled, answered, sent, departed, looked_up, changed, stored, listed, handle_authed-IsHandled,
}
use openchat_backend.Api.Types.{ApiError, failure}
use openchat_backend.Profile
use openchat_backend.Chat
use openchat_backend.Api
use openchat_backend.Api.Router.{
  Request, options, healthz, get_capabilities, list_servers, list_channel_groups, list_members,
  list_messages, get_message_attachment, get_profile_avatar, authed, handle_authed, serve,
}
use openchat_backend.Api.Types.{Server, Served, Body}
use openchat_backend.Api.Requester.{with_requester_context, uid_of}
use openchat_backend.Api.Tickets.{Context}
use openchat_backend.Base.{
  ℕ, ◌≡◌, refl, sym, ap, ◌∙◌, subst, inl, inr, Bool, true, false, Option, none, some, [], arith,
  Bool-cases, is_nil, Str, ℤ, Result-cases,
}

-- Nobody is told of anything, and every channel has the messages it had.
abbrev pub IsSilent : Server → Served → Type 0
IsSilent s o = (o.notice ≡ none) × ((c : Str) → messages_of o.state.chat c ≡ messages_of s.chat c)

abbrev is_failure : Body → Bool
is_failure (failure e) = true
is_failure body = false

leave_server-messages :
    (s : Chat.Types.Service) (server_id user_uid : Str) (now : ℤ)
    → (Chat.Directory.leave_server s server_id user_uid now).0.messages_by_channel
      ≡ s.messages_by_channel
unfolding Chat.Directory.leave_server
leave_server-messages s server_id user_uid now = ground arith

module _ (x : Context) (s : Server) (user_uid : Str) (e : ApiError) where
  sent-IsSilent :
      (channel_id : Str) (payload : Api.Channels.MessagePayload) (ids : ℕ → Str) (now : ℤ)
      → (Api.Channels.created s (
          Chat.Messages.create_message x.platform s.chat channel_id user_uid payload.body
            payload.uploads payload.reply_to_message_id ids now)).response.body
        ≡ failure e
      → IsSilent s (
          Api.Channels.created s (
            Chat.Messages.create_message x.platform s.chat channel_id user_uid payload.body
              payload.uploads payload.reply_to_message_id ids now))
  sent-IsSilent channel_id payload ids now h =
      let call =
        Chat.Messages.create_message x.platform s.chat channel_id user_uid payload.body
          payload.uploads payload.reply_to_message_id ids now in
      elim (Result-cases call.result) [
        | inl (m, ok_m) ↦ absurd (cc (ap is_failure (rw ok_m at h)))
        | inr (error, err_e) ↦
            let (same, quiet) =
              create_message_refused x.platform s.chat channel_id user_uid payload.body
                payload.uploads payload.reply_to_message_id ids now error err_e in
            (
              ap Api.Channels.message_notice quiet,
              λ c. ap (λ (z : Chat.Types.Service). messages_of z c) same,
            )
      ]

  changed_quiet :
      (input : Profile.Types.UpdateInput) (version : Option ℤ) (now : ℤ)
      → (Api.Profiles.updated s (
          Profile.Operations.update x.platform s.profiles user_uid input version now)).response.body
        ≡ failure e
      → (Api.Profiles.updated s
          (Profile.Operations.update x.platform s.profiles user_uid input version now)).notice
        ≡ none
  changed_quiet input version now h =
      elim (Result-cases
        (Profile.Operations.update x.platform s.profiles user_uid input version now).result) [
          | inl (q, ok_q) ↦ absurd (cc (ap is_failure (rw ok_q at h)))
          | inr (error, err_e) ↦
              ap Api.Profiles.profile_notice
                (update_refused x.platform s.profiles user_uid input version now error err_e).1
        ]

  IsHandled-IsSilent :
      (o : Served) → IsHandled x s user_uid o → o.response.body ≡ failure e → IsSilent s o
  IsHandled-IsSilent o (answered response d) h = rw d (refl, λ c. refl)
  IsHandled-IsSilent o (sent channel_id payload ids now d) h =
      subst (IsSilent s) (sym d) (
        sent-IsSilent channel_id payload ids now (ap (λ (x : Served). x.response.body) (sym d) ∙ h))
  IsHandled-IsSilent o (departed server_id now response d) h =
      rw d
        (refl, λ c. ap (λ z. get_or c z []) (leave_server-messages s.chat server_id user_uid now))
  IsHandled-IsSilent o (looked_up now response d) h = rw d (refl, λ c. refl)
  IsHandled-IsSilent o (changed input version now d) h = subst (IsSilent s) (sym d) (
    changed_quiet input version now (ap (λ (x : Served). x.response.body) (sym d) ∙ h),
    λ c. refl,
  )
  IsHandled-IsSilent o (stored content_type bytes uuid d) h = rw d (refl, λ c. refl)
  IsHandled-IsSilent o (listed user_uids clock response d) h = rw d (refl, λ c. refl)

-- A request that is answered with an error is announced to nobody and changes no channel's messages.
pub serve-IsSilent :
    (x : Context) (request : Request) (s : Server) (e : ApiError)
    → (serve x request s).response.body ≡ failure e
    → IsSilent s (serve x request s)
unfolding serve with_requester_context Api.Channels.list_servers
serve-IsSilent x options s e h = (refl, λ c. refl)
serve-IsSilent x healthz s e h = (refl, λ c. refl)
serve-IsSilent x (get_capabilities now) s e h = (refl, λ c. refl)
serve-IsSilent x (list_servers headers) s e h =
    elim (Bool-cases (is_nil (uid_of x.platform headers))) [
      | inl blank ↦ rw blank (refl, λ c. refl)
      | inr own ↦ rw own (refl, λ c. refl)
    ]
serve-IsSilent x (list_channel_groups server_id) s e h = (refl, λ c. refl)
serve-IsSilent x (list_members server_id) s e h = (refl, λ c. refl)
serve-IsSilent x (list_messages channel_id limit) s e h = (refl, λ c. refl)
serve-IsSilent x (get_message_attachment channel_id attachment_id) s e h = (refl, λ c. refl)
serve-IsSilent x (get_profile_avatar asset_id) s e h = (refl, λ c. refl)
serve-IsSilent x (authed headers request) s e h = elim (serve-IsServedFor x headers request s) [
  | unauthorized strict blank d ↦ subst (IsSilent s) (sym d) (refl, λ c. refl)
  | served requester user device own strict same d ↦ subst (IsSilent s) (sym d) (
      IsHandled-IsSilent x s requester.user_uid e (handle_authed x request (some requester) s)
        (handle_authed-IsHandled x s (some requester) request)
        (ap (λ (x : Served). x.response.body) (sym d) ∙ h))
]
