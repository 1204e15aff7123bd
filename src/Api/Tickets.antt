-- ===== src/Api/Tickets.antt =====
-- internal/api/handlers_rtc.go and handlers_capabilities.go
pub mod Joins
use openchat_backend.Chat
use openchat_backend.Capabilities
use openchat_backend.Api.Types.{
  Requester, Server, Response, write_error, write_json, JoinTicket, join_ticket, capabilities,
}
use openchat_backend.Api.Requester.{requester_from_context}
use openchat_backend.App.Config.{UrlPackage, signaling_url}
use openchat_backend.App.BuildInfo.{BuildInfo}
use openchat_backend.Capabilities.Types.{CapabilitiesResponse, RtcIceServerResponse}
use openchat_backend.Rtc.Tokens.{Codec, IssueTicketInput, issue}
use openchat_backend.Rtc.Types.{TicketClaims}
use openchat_backend.Strings.{trim_space}
use openchat_backend.Platform.{Platform}
use openchat_backend.Base.{
  suc, ◌-◌, ◌*◌, true, false, not, Option, none, some, List, [], if◌then◌else◌, is_nil, Str, str, ℤ,
  pos, negsuc, ok, err,
}

-- The packages that the handlers use, and what the server says of its build.
pub record Context : Type 0 where
  pub platform : Platform
  pub codec : Codec
  pub urls : UrlPackage
  pub info : BuildInfo

unfoldable pub get_capabilities : Context → (now : ℤ) → Server → Response
get_capabilities x now s =
    write_json 200
      (capabilities (Capabilities.Build.build x.platform x.urls x.info s.capabilities now))

-- The ICE servers that are advertised; empty fields are left out of their JSON.
unfoldable pub ice_servers_of : CapabilitiesResponse → List RtcIceServerResponse
ice_servers_of c = elim c.rtc [ none ↦ [] | some rtc ↦ rtc.ice_servers ]

-- The server of a request that names none is the one of the capabilities.
unfoldable pub server_of : Context → (now : ℤ) → Str → Server → Str
server_of x now raw_server s =
    let server_id = trim_space raw_server in
    if is_nil server_id
    then (Capabilities.Build.build x.platform x.urls x.info s.capabilities now).server_id
    else server_id

abbrev pub ticket_input : (server_id channel_id : Str) → Requester → IssueTicketInput
ticket_input server_id channel_id requester = record {
  server_id = server_id;
  channel_id = channel_id;
  user_uid = requester.user_uid;
  device_id = requester.device_id;
  permissions = record { speak = true; video = true; screenshare = true };
}

-- time.Unix(n, 0), in nanoseconds
abbrev pub from_unix : ℤ → ℤ
from_unix (pos n) = pos (n * 1000000000)
from_unix (negsuc n) = negsuc (suc n * 1000000000 - 1)

abbrev pub ticket_answer : Context → (now : ℤ) → Server → Str → TicketClaims → JoinTicket
ticket_answer x now s ticket claims = record {
  ticket = ticket;
  channel_id = claims.channel_id;
  server_id = claims.server_id;
  user_uid = claims.user_uid;
  device_id = claims.device_id;
  expires_at = x.platform.rfc3339 (from_unix claims.expires_at);
  signaling_url = signaling_url x.urls s.cfg;
  ice_servers =
      ice_servers_of (Capabilities.Build.build x.platform x.urls x.info s.capabilities now);
  permissions = claims.permissions;
}

-- `server_id` is what the body as JSON names, empty where it names none or is no JSON. The calls of
-- Build read the clock at `now`, Issue at `issued_at`.
unfoldable pub issue_join_ticket :
    Context
    → (raw_channel server_id : Str) → (now issued_at : ℤ) → (uuid : Str)
    → (context : Option Requester) → Server
    → Response
issue_join_ticket x raw_channel server_id now issued_at uuid context s =
    let channel_id = trim_space raw_channel in
    let server = server_of x now server_id s in
    if is_nil channel_id
    then write_error 400 (str "invalid_channel") false
    else if not (Chat.Directory.channel_exists s.chat channel_id)
    then write_error 404 (str "channel_not_found") false
    else if not (Chat.Directory.is_voice_channel s.chat channel_id)
    then write_error 400 (str "invalid_channel_type") false
    else if not (Chat.Directory.server_exists s.chat server)
    then write_error 404 (str "server_not_found") false
    else elim (issue x.codec s.signaling.service.tokens
        (ticket_input server channel_id (requester_from_context context)) issued_at uuid) [
          | err e ↦ write_error 400 (str "rtc_ticket_issue_failed") false
          | ok (ticket, claims) ↦ write_json 200 (join_ticket (ticket_answer x now s ticket claims))
        ]
