-- ===== src/Api/Types.antt =====
-- internal/api/types.go and helpers.go, and the server that the handlers share. The texts of errors are
-- not modelled. The body of an answer is a constructor with the fields of its JSON.
use openchat_backend.Capabilities
use openchat_backend.Chat
use openchat_backend.Profile
use openchat_backend.App.Config.{Config}
use openchat_backend.Capabilities.Types.{CapabilitiesResponse, RtcIceServerResponse}
use openchat_backend.Chat.Types.{ChannelGroup, Member, Message, ServerDirectoryEntry}
use openchat_backend.Profile.Types.{CanonicalProfile, AvatarAsset}
use openchat_backend.Realtime.Hub.{Hub}
use openchat_backend.Rtc.Signaling.{Signaling}
use openchat_backend.Rtc.Types.{Permissions}
use openchat_backend.Base.{ℕ, Bool, Option, none, List, Str}

pub record ApiError : Type 0 where
  pub code : Str
  pub retryable : Bool

pub record Requester : Type 0 where
  pub user_uid : Str
  pub device_id : Str

-- What issueJoinTicket answers.
pub record JoinTicket : Type 0 where
  pub ticket : Str
  pub channel_id : Str
  pub server_id : Str
  pub user_uid : Str
  pub device_id : Str
  pub expires_at : Str
  pub signaling_url : Str
  pub ice_servers : List RtcIceServerResponse
  pub permissions : Permissions

pub data Body : Type 0 where
  failure : ApiError → Body
  health : Body
  nothing : Body
  capabilities : CapabilitiesResponse → Body
  servers : List ServerDirectoryEntry → Body
  groups : (server_id : Str) → List ChannelGroup → Body
  members : (server_id : Str) → List Member → Body
  messages : (channel_id : Str) → List Message → Body
  message : Message → Body
  content : (content_type bytes : Str) → Body
  left : (server_id user_uid left_at : Str) → Body
  profile : CanonicalProfile → Body
  profiles : List CanonicalProfile → Body
  asset : AvatarAsset → Body
  join_ticket : JoinTicket → Body

pub record Response : Type 0 where
  pub status : ℕ
  pub body : Body

abbrev pub write_json : ℕ → Body → Response
write_json status body = record { status = status; body = body }

abbrev pub write_error : ℕ → Str → Bool → Response
write_error status code retryable =
    write_json status (failure (record { code = code; retryable = retryable }))

-- The token service of the server is the one of the signaling service.
pub record Server : Type 0 where
  pub cfg : Config
  pub capabilities : Capabilities.Build.Service
  pub signaling : Signaling
  pub chat : Chat.Types.Service
  pub realtime : Hub
  pub profiles : Profile.Types.Service

-- What a service hands to the realtime hub.
pub data Notice : Type 0 where
  message_created : Message → Notice
  profile_updated : CanonicalProfile → Notice

-- What a handler leaves.
pub record Served : Type 0 where
  pub state : Server
  pub response : Response
  pub notice : Option Notice

-- A handler that changes nothing.
abbrev pub answer : Server → Response → Served
answer s response = record { state = s; response = response; notice = none }
