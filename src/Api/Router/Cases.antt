-- ===== src/Api/Router/Cases.antt =====
-- What a handler does to the services, whatever it answers (internal/api/handlers_*.go).
use openchat_backend.Profile
use openchat_backend.Chat
use openchat_backend.Api
use openchat_backend.Api.Router.{
  Authed, issue_join_ticket, create_message, leave_server_membership, get_my_profile,
  update_my_profile, upload_profile_avatar, batch_profiles, handle_authed,
}
use openchat_backend.Api.Types.{Requester, Server, Served, Response, answer}
use openchat_backend.Api.Requester.{requester_from_context}
use openchat_backend.Api.Tickets.{Context}
use openchat_backend.Strings.{trim_space}
use openchat_backend.Base.{
  ℕ, suc, ◌≡◌, refl, inl, inr, Option, none, some, List, ltb, Bool-cases, is_nil, length, take, Str,
  ℤ, Result-cases,
}

-- The calls of the services that a request comes to.
pub data IsHandled (x : Context) (s : Server) (user_uid : Str) (o : Served) : Type 0 where
  answered : (response : Response) → o ≡ answer s response → IsHandled x s user_uid o
  sent :
      (channel_id : Str) (payload : Api.Channels.MessagePayload) (ids : ℕ → Str) (now : ℤ)
      → o
        ≡ Api.Channels.created s (
            Chat.Messages.create_message x.platform s.chat channel_id user_uid payload.body
              payload.uploads payload.reply_to_message_id ids now)
      → IsHandled x s user_uid o
  departed :
      (server_id : Str) (now : ℤ) (response : Response)
      → o ≡ record {
        state = record s { chat = (Chat.Directory.leave_server s.chat server_id user_uid now).0 };
        response = response;
        notice = none;
      }
      → IsHandled x s user_uid o
  looked_up :
      (now : ℤ) (response : Response)
      → o ≡ record {
        state = record s {
          profiles = (Profile.Operations.get_or_create x.platform s.profiles user_uid now).0;
        };
        response = response;
        notice = none;
      }
      → IsHandled x s user_uid o
  changed :
      (input : Profile.Types.UpdateInput) (version : Option ℤ) (now : ℤ)
      → o
        ≡ Api.Profiles.updated s
            (Profile.Operations.update x.platform s.profiles user_uid input version now)
      → IsHandled x s user_uid o
  stored :
      (content_type bytes uuid : Str)
      → o
        ≡ Api.Profiles.uploaded s
            (Profile.Operations.upload_avatar x.platform s.profiles content_type bytes uuid)
      → IsHandled x s user_uid o
  listed :
      (user_uids : List Str) (clock : ℕ → ℤ) (response : Response)
      → o ≡ record {
        state = record s {
          profiles = (Profile.Operations.batch_get x.platform s.profiles user_uids clock).0;
        };
        response = response;
        notice = none;
      }
      → IsHandled x s user_uid o

module _ (x : Context) (s : Server) (context : Option Requester) where
  abbrev user_uid : Str
  user_uid = (requester_from_context context).user_uid

  create_message-IsHandled :
      (raw_channel : Str) (r : Api.Channels.MessageRequest) (ids : ℕ → Str) (now : ℤ)
      → IsHandled x s user_uid
          (Api.Channels.create_message x.platform raw_channel r ids now context s)
  unfolding Api.Channels.create_message
  create_message-IsHandled raw_channel r ids now =
      elim (Bool-cases (is_nil (trim_space raw_channel))) [
        | inl blank ↦ rw blank (answered _ refl)
        | inr channel ↦
            elim (Result-cases (Api.Channels.parse_create_message_payload x.platform s.chat r)) [
              | inl (payload, e) ↦
                  rw channel (rw e (sent (trim_space raw_channel) payload ids now refl))
              | inr (e, d) ↦ rw channel (rw d (answered _ refl))
            ]
      ]

  leave_server_membership-IsHandled :
      (raw_server : Str) (now left_at : ℤ)
      → IsHandled x s user_uid
          (Api.Channels.leave_server_membership x.platform raw_server now left_at context s)
  unfolding Api.Channels.leave_server_membership
  leave_server_membership-IsHandled raw_server now left_at =
      elim (Bool-cases (is_nil (trim_space raw_server))) [
        | inl blank ↦ rw blank (answered _ refl)
        | inr server ↦ rw server (departed (trim_space raw_server) now _ refl)
      ]

  get_my_profile-IsHandled :
      (now : ℤ) → IsHandled x s user_uid (Api.Profiles.get_my_profile x.platform now context s)
  unfolding Api.Profiles.get_my_profile
  get_my_profile-IsHandled now = looked_up now _ refl

  -- The part after the form is parsed.
  update_my_profile-IsHandled :
      (decoded : Option Profile.Types.UpdateInput) (if_match : Str) (now : ℤ)
      → IsHandled x s user_uid
          (Api.Profiles.update_my_profile x.platform decoded if_match now context s)
  unfolding Api.Profiles.update_my_profile
  update_my_profile-IsHandled none if_match now = answered _ refl
  update_my_profile-IsHandled (some input) if_match now =
      elim (Result-cases (Api.Profiles.parse_if_match_version if_match)) [
        | inl (version, e) ↦
            rw (e, Api.Profiles.update_my_profile)
              (changed (record input { avatar_mode = trim_space input.avatar_mode }) version now
                refl)
        | inr (e, d) ↦ rw (d, Api.Profiles.update_my_profile) (answered _ refl)
      ]

  upload_file-IsHandled :
      (uuid : Str) (max_bytes : ℕ) (form : Api.Profiles.AvatarForm)
      → IsHandled x s user_uid (Api.Profiles.upload_file x.platform uuid s max_bytes form)
  unfolding Api.Profiles.upload_file
  upload_file-IsHandled uuid max_bytes Api.Profiles.too_many_bytes = answered _ refl
  upload_file-IsHandled uuid max_bytes Api.Profiles.no_file = answered _ refl
  upload_file-IsHandled uuid max_bytes Api.Profiles.unreadable_file = answered _ refl
  upload_file-IsHandled uuid max_bytes (Api.Profiles.file content_type bytes) =
      elim (Bool-cases (ltb max_bytes (length (take (suc max_bytes) bytes)))) [
        | inl large ↦ rw large (answered _ refl)
        | inr fits ↦
            rw fits (stored (trim_space content_type) (take (suc max_bytes) bytes) uuid refl)
      ]

  upload_profile_avatar-IsHandled :
      (parse_form : ℕ → Api.Profiles.AvatarForm) (uuid : Str)
      → IsHandled x s user_uid (Api.Profiles.upload_profile_avatar x.platform parse_form uuid s)
  unfolding Api.Profiles.upload_profile_avatar
  upload_profile_avatar-IsHandled parse_form uuid = upload_file-IsHandled uuid _ (parse_form _)

  batch_profiles-IsHandled :
      (user_uids : List Str) (clock : ℕ → ℤ)
      → IsHandled x s user_uid (Api.Profiles.batch_profiles x.platform user_uids clock s)
  unfolding Api.Profiles.batch_profiles
  batch_profiles-IsHandled user_uids clock = elim (Bool-cases (is_nil user_uids)) [
    | inl nobody ↦ rw nobody (answered _ refl)
    | inr some_user ↦
        elim (Bool-cases (ltb Api.Profiles.max_profile_batch_size (length user_uids))) [
          | inl many ↦ rw some_user (rw many (answered _ refl))
          | inr few ↦ rw some_user (rw few (listed user_uids clock _ refl))
        ]
  ]

  pub handle_authed-IsHandled :
      (request : Authed) → IsHandled x s user_uid (handle_authed x request context s)
  unfolding handle_authed
  handle_authed-IsHandled (issue_join_ticket channel_id server_id now issued_at uuid) =
      answered _ refl
  handle_authed-IsHandled (create_message channel_id r ids now) =
      create_message-IsHandled channel_id r ids now
  handle_authed-IsHandled (leave_server_membership server_id now left_at) =
      leave_server_membership-IsHandled server_id now left_at
  handle_authed-IsHandled (get_my_profile now) = get_my_profile-IsHandled now
  handle_authed-IsHandled (update_my_profile decoded if_match now) =
      update_my_profile-IsHandled decoded if_match now
  handle_authed-IsHandled (upload_profile_avatar parse_form uuid) =
      upload_profile_avatar-IsHandled parse_form uuid
  handle_authed-IsHandled (batch_profiles user_uids clock) =
      batch_profiles-IsHandled user_uids clock
