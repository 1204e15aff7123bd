-- ===== src/Api/Router.antt =====
-- internal/api/router.go and middleware_cors.go: the server, its routes, and what they ask of a requester.
-- Matching a path is chi's; a request is a constructor for each route, with its parameters.
pub mod Advertised
pub mod Cases
pub mod Identity
pub mod History
pub mod Sent
pub mod Refused
pub mod Tests
use openchat_backend.Profile
use openchat_backend.Capabilities
use openchat_backend.Chat
use openchat_backend.Realtime
use openchat_backend.Api
use openchat_backend.Api.Types.{Requester, Server, Served, answer, write_json, health, nothing}
use openchat_backend.Api.Requester.{Headers, with_requester_context}
use openchat_backend.Api.Channels.{MessageRequest}
use openchat_backend.Api.Profiles.{AvatarForm}
use openchat_backend.Api.Tickets.{Context}
use openchat_backend.App.Config.{Config, is_production}
use openchat_backend.Rtc.Reader.{new_signaling_service}
use openchat_backend.Rtc.Tokens.{new_token_service}
use openchat_backend.Profile.Types.{UpdateInput}
use openchat_backend.Base.{ℕ, false, Option, some, List, Str, ℤ}

-- `now` is the time that chat.NewService takes for its first messages, `asked` that of Build.
unfoldable pub new_server : Context → Config → (now asked : ℤ) → Server
new_server x cfg now asked =
    let cap_svc = Capabilities.Build.new_service cfg in
    let snapshot = Capabilities.Build.build x.platform x.urls x.info cap_svc asked in
    record {
      cfg = cfg;
      capabilities = cap_svc;
      signaling = new_signaling_service (new_token_service cfg.ticket_secret cfg.ticket_ttl);
      chat =
          Chat.Directory.set_broadcaster (Chat.Seed.new_service x.platform cfg.public_base_url now)
            (some Chat.Types.realtime_hub);
      realtime = Realtime.Hub.new_hub;
      profiles =
          Profile.Operations.set_broadcaster
            (Profile.Operations.new_service cfg.public_base_url snapshot.server_id)
            (some Profile.Types.realtime_hub);
    }

-- The routes that need a requester.
pub data Authed : Type 0 where
  issue_join_ticket : (channel_id server_id : Str) → (now issued_at : ℤ) → (uuid : Str) → Authed
  create_message : (channel_id : Str) → MessageRequest → (ids : ℕ → Str) → (now : ℤ) → Authed
  leave_server_membership : (server_id : Str) → (now left_at : ℤ) → Authed
  get_my_profile : (now : ℤ) → Authed
  update_my_profile : Option UpdateInput → (if_match : Str) → (now : ℤ) → Authed
  upload_profile_avatar : (parse_form : ℕ → AvatarForm) → (uuid : Str) → Authed
  batch_profiles : List Str → (clock : ℕ → ℤ) → Authed

pub data Request : Type 0 where
  options healthz : Request
  get_capabilities : (now : ℤ) → Request
  list_servers : Headers → Request
  list_channel_groups list_members : (server_id : Str) → Request
  list_messages : (channel_id limit : Str) → Request
  get_message_attachment : (channel_id attachment_id : Str) → Request
  get_profile_avatar : (asset_id : Str) → Request
  authed : Headers → Authed → Request

unfoldable pub handle_authed : Context → Authed → Option Requester → Server → Served
handle_authed x (issue_join_ticket channel_id server_id now issued_at uuid) context s =
    answer s (Api.Tickets.issue_join_ticket x channel_id server_id now issued_at uuid context s)
handle_authed x (create_message channel_id r ids now) context s =
    Api.Channels.create_message x.platform channel_id r ids now context s
handle_authed x (leave_server_membership server_id now left_at) context s =
    Api.Channels.leave_server_membership x.platform server_id now left_at context s
handle_authed x (get_my_profile now) context s =
    Api.Profiles.get_my_profile x.platform now context s
handle_authed x (update_my_profile decoded if_match now) context s =
    Api.Profiles.update_my_profile x.platform decoded if_match now context s
handle_authed x (upload_profile_avatar parse_form uuid) context s =
    Api.Profiles.upload_profile_avatar x.platform parse_form uuid s
handle_authed x (batch_profiles user_uids clock) context s =
    Api.Profiles.batch_profiles x.platform user_uids clock s

-- withCORS answers every OPTIONS request.
unfoldable pub serve : Context → Request → Server → Served
serve x options s = answer s (write_json 204 nothing)
serve x healthz s = answer s (write_json 200 health)
serve x (get_capabilities now) s = answer s (Api.Tickets.get_capabilities x now s)
serve x (list_servers headers) s =
    with_requester_context x.platform Api.Channels.list_servers false headers s
serve x (list_channel_groups server_id) s = answer s (Api.Channels.list_channel_groups s server_id)
serve x (list_members server_id) s = answer s (Api.Channels.list_members s server_id)
serve x (list_messages channel_id limit) s =
    answer s (Api.Channels.list_messages s channel_id limit)
serve x (get_message_attachment channel_id attachment_id) s =
    answer s (Api.Channels.get_message_attachment s channel_id attachment_id)
serve x (get_profile_avatar asset_id) s = answer s (Api.Profiles.get_profile_avatar s asset_id)
serve x (authed headers request) s =
    with_requester_context x.platform (handle_authed x request) (is_production s.cfg) headers s
