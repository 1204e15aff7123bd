-- ===== src/Capabilities/Types.antt =====
-- The types of internal/capabilities/service.go.
use openchat_backend.Base.{ℕ, Bool, List, Option, Str}

pub record TransportCapabilitiesResponse : Type 0 where
  pub web_socket : Bool
  pub sse : Bool
  pub polling : Bool

pub record CoreFeatureFlagsResponse : Type 0 where
  pub messaging : Bool
  pub presence : Bool
  pub attachments : Bool
  pub notifications : Bool

pub record CapabilityLimitsResponse : Type 0 where
  pub max_message_bytes : ℕ
  pub max_upload_bytes : ℕ
  pub rate_limit_per_minute : ℕ
  pub max_call_participants : ℕ

pub record SecurityCapabilitiesResponse : Type 0 where
  pub https_required : Bool
  pub certificate_pinning : Str

pub record RtcFeatureFlagsResponse : Type 0 where
  pub voice : Bool
  pub video : Bool
  pub screenshare : Bool
  pub simulcast : Bool

pub record RtcIceServerResponse : Type 0 where
  pub urls : List Str
  pub username : Str
  pub credential : Str
  pub credential_type : Str
  pub expires_at : Str

pub record RtcConnectionPolicyResponse : Type 0 where
  pub join_timeout_ms : ℕ
  pub answer_timeout_ms : ℕ
  pub ice_restart_enabled : Bool
  pub reconnect_backoff_ms : List ℕ

pub record RtcCapabilitiesResponse : Type 0 where
  pub protocol_version : Str
  pub signaling_url : Str
  pub signaling_transport : Str
  pub topologies : List Str
  pub features : RtcFeatureFlagsResponse
  pub ice_servers : List RtcIceServerResponse
  pub connection_policy : RtcConnectionPolicyResponse

pub record ModerationActionSets : Type 0 where
  pub immediate : List Str
  pub vote_required : List Str

pub record ModerationVotePolicy : Type 0 where
  pub threshold : ℕ
  pub quorum : ℕ
  pub window_seconds : ℕ

pub record ModerationEvidencePolicy : Type 0 where
  pub report_bundle_required : Bool
  pub plaintext_disclosure_optional : Bool

pub record ModerationCapabilities : Type 0 where
  pub enabled : Bool
  pub actions : ModerationActionSets
  pub vote_policy : ModerationVotePolicy
  pub evidence_policy : ModerationEvidencePolicy

pub record ProfileDisplayNameRulesResponse : Type 0 where
  pub min_length : ℕ
  pub max_length : ℕ
  pub pattern : Str

pub record ProfileAvatarUploadRulesResponse : Type 0 where
  pub max_bytes : ℕ
  pub mime_types : List Str
  pub max_width : ℕ
  pub max_height : ℕ

pub record ProfileCapabilitiesResponse : Type 0 where
  pub enabled : Bool
  pub scope : Str
  pub fields : List Str
  pub avatar_modes : List Str
  pub display_name : ProfileDisplayNameRulesResponse
  pub avatar_upload : Option ProfileAvatarUploadRulesResponse
  pub realtime_event : Str
  pub message_author_profile_mode : Str

pub record CapabilitiesResponse : Type 0 where
  pub server_name : Str
  pub server_id : Str
  pub api_version : Str
  pub build_version : Str
  pub build_commit : Str
  pub identity_handshake_modes : List Str
  pub user_uid_policy : Str
  pub profile_data_policy : Str
  pub transport : TransportCapabilitiesResponse
  pub features : CoreFeatureFlagsResponse
  pub limits : CapabilityLimitsResponse
  pub security : SecurityCapabilitiesResponse
  pub rtc : Option RtcCapabilitiesResponse
  pub moderation : Option ModerationCapabilities
  pub profile : Option ProfileCapabilitiesResponse
