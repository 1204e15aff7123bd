-- ===== src/Api/Router/Tests.antt =====
-- Tests of the API and of the configuration, and their theorems at a new server.
use openchat_backend.Rtc.Rooms.{send_to_participant}
use openchat_backend.Chat.Tests.{platform}
use openchat_backend.Rtc.Tokens.Tests.{codec, codec-IsCodec}
use openchat_backend.Rtc.Tokens.RoundTrip.{IsCodec}
use openchat_backend.Rtc.Tokens.{sign, ticket_of, unix, issue, new_claims, new_token_service}
use openchat_backend.Rtc.Types.{TicketClaims}
use openchat_backend.Rtc.Joining.{Joined, wait_for_join}
use openchat_backend.Rtc.Reader.{new_signaling_service}
use openchat_backend.Api.Router.Identity.{IsServedFor, serve-IsServedFor, named}
use openchat_backend.Api.Router.History.{run, IsOrderly, run-new_server-IsOrderly}
use openchat_backend.Api.Router.Advertised.{run-new_server-IsAdvertised, IsAdvertised, advertised}
use openchat_backend.Capabilities.Types.{ProfileCapabilitiesResponse}
use openchat_backend.Api.Router.Refused.{IsSilent, serve-IsSilent}
use openchat_backend.Api.Router.Sent.{IsSent, serve-IsSent}
use openchat_backend.Api.Tickets.Joins.{issue_join_ticket_joins}
use openchat_backend.Api.Tickets.{ticket_answer, ticket_input, server_of}
use openchat_backend.Api.Profiles.{parse_if_match_version}
use openchat_backend.Api.Profiles.Versions.{parse_if_match_version-itoa, quoted, weak}
use openchat_backend.App.Config.Ttl.{ticket_ttl_set}
use openchat_backend.App.Config.{load_config_from_env}
use openchat_backend.App.BuildInfo.{BuildInfo}
use openchat_backend.Api.Types.{failure, message, join_ticket, JoinTicket}
use openchat_backend.Strconv.{digits, itoa}
use openchat_backend.Strings.{strings}
use openchat_backend.Chat.Types.{Message}
use openchat_backend.Chat
use openchat_backend.Api
use openchat_backend.Capabilities
use openchat_backend.Api.Router.{
  Request, create_message, get_my_profile, authed, handle_authed, serve, new_server,
}
use openchat_backend.Api.Types.{Requester, Server}
use openchat_backend.Api.Requester.{Headers, with_requester_context, uid_of}
use openchat_backend.Api.Tickets.{Context}
use openchat_backend.App.Config.{Config, is_production}
use openchat_backend.Strings.{trim_space}
use openchat_backend.Base.{
  ◌*◌, ◌≡◌, refl, sym, ap, true, false, none, some, [], ◌∷◌, arith, if◌then◌else◌, Str, str, ◌==◌,
  pos, ◌+ℤ◌, ◌<ℤ◌, floor_div, ok, ◌&&◌,
}
use openchat_backend.Base.Map.{lookup, insert}

-- The environment gives tickets 90 seconds, and nothing else.
abbrev environment : Str → Str
environment key = if key == str "OPENCHAT_JOIN_TICKET_TTL_SECONDS" then str "90" else []

ninety : environment (str "OPENCHAT_JOIN_TICKET_TTL_SECONDS") ≡ itoa 90
unfolding str ◌==◌ digits
ninety = refl

ticket_ttl_set_example : (load_config_from_env environment).ticket_ttl ≡ pos (90 * 1000000000)
ticket_ttl_set_example = ticket_ttl_set environment 90 (omega arith) (omega arith) ninety

parse_if_match_version-itoa_example :
    (parse_if_match_version (itoa 12) ≡ ok (some (pos 12)))
    × (parse_if_match_version (quoted 12) ≡ ok (some (pos 12)))
    × (parse_if_match_version (weak 12) ≡ ok (some (pos 12)))
parse_if_match_version-itoa_example = parse_if_match_version-itoa 12 (omega arith) (omega arith)

abbrev cfg : Config
cfg = record {
  http_addr = str ":8080";
  public_base_url = str "http://localhost:8080";
  signaling_path = str "/v1/rtc/signaling";
  ticket_ttl = pos 60000000000;
  ticket_secret = str "k";
  environment = str "Production";
}

abbrev info : BuildInfo
info = record {
  version = str "main";
  commit = str "unknown";
  commit_short = str "unknown";
  build_time = str "unknown";
  vcs_modified = str "unknown";
}

-- The claims of the ticket that is issued below.
abbrev claims : TicketClaims
claims = record {
  server_id = str "srv_harbor";
  channel_id = str "vc_general";
  user_uid = str "ann";
  device_id = str "phone";
  permissions = record { speak = true; video = true; screenshare = true };
  expires_at = pos 62;
  issued_at = pos 2;
  jti = str "id1";
}

abbrev x : Context
x = record {
  platform = platform;
  codec = record codec { unmarshal = λ s. some claims };
  urls = record { parse = λ s. none; print = λ u. [] };
  info = info;
}

x-IsCodec : IsCodec x.codec
x-IsCodec = record { decoded = codec-IsCodec.decoded; no_stop = codec-IsCodec.no_stop }

abbrev server : Server
server = new_server x cfg (pos 0) (pos 0)

abbrev ann : Requester
ann = record { user_uid = str "ann"; device_id = str "phone" }

abbrev bearer : Headers
bearer = record { user_uid = []; device_id = str "phone"; authorization = str "Bearer ann" }

abbrev hello : Api.Channels.MessageRequest
hello = record {
  content_type = str "application/json";
  parse_multipart_form = λ n. Api.Channels.form_error;
  decoded = some (str " hi ", []);
}

abbrev says : Str → Request
says channel_id = authed bearer (create_message channel_id hello (λ n. str "id7") (pos 1))

serve-IsServedFor_example :
    IsServedFor x bearer
      (get_my_profile (pos 1))
      server
      (serve x (authed bearer (get_my_profile (pos 1))) server)
serve-IsServedFor_example = serve-IsServedFor x bearer (get_my_profile (pos 1)) server

run-new_server-IsOrderly_example :
    IsOrderly (run x server (says (str "ch_general") ∷ says (str "nowhere") ∷ []))
run-new_server-IsOrderly_example =
    run-new_server-IsOrderly x cfg (pos 0) (pos 0)
      (says (str "ch_general") ∷ says (str "nowhere") ∷ [])

run-new_server-IsAdvertised_example :
    (c : ProfileCapabilitiesResponse) × (advertised x cfg (pos 9) ≡ some c)
    × IsAdvertised x.platform c (run x server (says (str "ch_general") ∷ [])).profiles
run-new_server-IsAdvertised_example =
    run-new_server-IsAdvertised x cfg (pos 0) (pos 0) (pos 9) (says (str "ch_general") ∷ [])

unfoldable api : Unit {0}
unfolding strings serve with_requester_context uid_of handle_authed Api.Channels.create_message
    Api.Channels.parse_create_message_payload Chat.Attachments.attachment_upload_rules
    Api.Channels.message_refused Api.Channels.payload_refused new_server is_production
    Chat.Messages.create_message Chat.Messages.upload_and_finish Chat.Messages.store_uploads
    Chat.Messages.finish_message Chat.Messages.append_message Chat.Messages.clone_message
    Chat.Messages.resolve_reply Chat.Seed.new_service Chat.Directory.set_broadcaster
    Chat.Directory.index_channels lookup insert Capabilities.Build.build
    Api.Tickets.issue_join_ticket server_of sign issue Chat.Directory.channel_exists
    Chat.Directory.is_voice_channel Chat.Directory.server_exists floor_div ◌+ℤ◌
    new_signaling_service new_token_service
api = tt

refused :
    (serve x (says (str "nowhere")) server).response.body
    ≡ failure (record { code = str "message_create_failed"; retryable = false })
unfolding api
refused = refl

serve-IsSilent_example : IsSilent server (serve x (says (str "nowhere")) server)
serve-IsSilent_example =
    serve-IsSilent x (says (str "nowhere")) server
      (record { code = str "message_create_failed"; retryable = false }) refused

abbrev greeting : Message
greeting = record {
  id = str "msg_id7";
  channel_id = str "ch_general";
  author_uid = str "ann";
  body = str "hi";
  created_at = str "noon";
  reply_to = none;
  attachments = [];
}

sent : (serve x (says (str "ch_general")) server).response.body ≡ message greeting
unfolding api
sent = refl

serve-IsSent_example :
    IsSent server
      (trim_space (str "ch_general"))
      (named platform bearer).user_uid
      greeting
      (serve x (says (str "ch_general")) server)
serve-IsSent_example =
    serve-IsSent x bearer (str "ch_general") hello (λ n. str "id7") (pos 1) server greeting sent

abbrev voice : Str
voice = str "vc_general"

abbrev ticket : JoinTicket
ticket =
    ticket_answer x (pos 0) server (ticket_of x.codec server.signaling.service.tokens (str "json"))
      claims

issued :
    (Api.Tickets.issue_join_ticket x voice []
      (pos 0)
      (pos 2000000000)
      (str "id1")
      (some ann)
      server).body
    ≡ join_ticket ticket
unfolding api
issued = refl

own :
    new_claims x.codec server.signaling.service.tokens
      (ticket_input (server_of x (pos 0) [] server) (trim_space voice) ann)
      (pos 2000000000)
      (str "id1")
    ≡ claims
unfolding api
own = refl

unused : lookup (str "id1") server.signaling.service.tokens.used_jtis ≡ none
unfolding api
unused = refl

in_time : unix (pos 5000000000) <ℤ unix (pos 2000000000 +ℤ server.signaling.service.tokens.ttl)
unfolding api
in_time = omega arith

trimmed : trim_space ticket.ticket ≡ ticket.ticket
unfolding api
trimmed = refl

issue_join_ticket_joins_example :
    (Chat.Directory.channel_exists server.chat (trim_space voice) ≡ true)
    × (Chat.Directory.is_voice_channel server.chat (trim_space voice) ≡ true)
    × (joined : Joined) × ((wait_for_join x.codec
          (λ m. some m)
          server.signaling.service
          (str "p1")
          (str "rtc.join")
          ticket.ticket
          (pos 5000000000)
          (pos 5)).1
        ≡ ok joined)
    × (joined.participant ≡ record {
      participant_id = str "p1";
      channel_id = trim_space voice;
      user_uid = str "ann";
      device_id = str "phone";
      permissions = record { speak = true; video = true; screenshare = true };
      joined_at = pos 5;
    })
    × ((channel_id participant_id : Str)
        → send_to_participant
            (wait_for_join x.codec
              (λ m. some m)
              server.signaling.service
              (str "p1")
              (str "rtc.join")
              ticket.ticket
              (pos 5000000000)
              (pos 5)).0.rooms
            channel_id
            participant_id
          ≡ (if trim_space voice == channel_id && str "p1" == participant_id
              then some joined.participant
              else send_to_participant server.signaling.service.rooms channel_id participant_id))
issue_join_ticket_joins_example =
    issue_join_ticket_joins x x-IsCodec server ann voice [] (pos 0) (pos 2000000000) (str "id1")
      (str "json") ticket server.signaling.service (λ m. some m) (str "p1") ticket.ticket
      ticket.ticket (pos 5000000000) (pos 5) issued refl (ap some (sym own)) refl unused in_time
      refl trimmed
