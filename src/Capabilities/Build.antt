-- ===== src/Capabilities/Build.antt =====
-- internal/capabilities/service.go: NewService and Build. The time of a call is the argument `now`, in
-- nanoseconds.
use openchat_backend.Capabilities.Types.{CapabilitiesResponse}
use openchat_backend.App.Config.{Config, UrlPackage, is_production, signaling_url}
use openchat_backend.App.BuildInfo.{BuildInfo}
use openchat_backend.Platform.{Platform}
use openchat_backend.Base.{◌*◌, true, false, some, [], ◌∷◌, str, ℤ, pos, ◌+ℤ◌}

pub record Service : Type 0 where
  pub cfg : Config

unfoldable pub new_service : Config → Service
new_service cfg = record { cfg = cfg }

-- 30 minutes, in nanoseconds
abbrev pub turn_lifetime : ℤ
turn_lifetime = pos 1800000000000

-- `info` is what CurrentBuildInfo returns.
unfoldable pub build : Platform → UrlPackage → BuildInfo → Service → ℤ → CapabilitiesResponse
build p urls info s now = record {
  server_name = str "OpenChat Harbor";
  server_id = str "srv_harbor";
  api_version = str "2026-02-14";
  build_version = info.version;
  build_commit = info.commit;
  identity_handshake_modes = str "challenge_signature" ∷ str "token_proof" ∷ [];
  user_uid_policy = str "server_scoped";
  profile_data_policy = str "uid_only";
  transport = record { web_socket = true; sse = false; polling = false };
  features = record { messaging = true; presence = true; attachments = true; notifications = true };
  limits = record {
    max_message_bytes = 65536;
    max_upload_bytes = 52428800;
    rate_limit_per_minute = 180;
    max_call_participants = 200;
  };
  security = record { https_required = is_production s.cfg; certificate_pinning = str "optional" };
  rtc = some (record {
    protocol_version = str "1.0";
    signaling_url = signaling_url urls s.cfg;
    signaling_transport = str "websocket";
    topologies = str "p2p" ∷ [];
    features = record { voice = true; video = true; screenshare = true; simulcast = true };
    ice_servers =
        record {
          urls = str "stun:stun.l.google.com:19302" ∷ [];
          username = [];
          credential = [];
          credential_type = [];
          expires_at = [];
        }
        ∷ record {
          urls = str "turns:turn.example.invalid:5349" ∷ [];
          username = str "dev-user";
          credential = str "dev-secret";
          credential_type = str "ephemeral";
          expires_at = p.rfc3339 (now +ℤ turn_lifetime);
        }
        ∷ [];
    connection_policy = record {
      join_timeout_ms = 12000;
      answer_timeout_ms = 10000;
      ice_restart_enabled = true;
      reconnect_backoff_ms = 250 ∷ 500 ∷ 1000 ∷ 2000 ∷ 5000 ∷ [];
    };
  });
  moderation = some (record {
    enabled = true;
    actions = record {
      immediate = str "kick" ∷ str "timeout_short" ∷ str "channel_lock" ∷ [];
      vote_required = str "ban" ∷ str "timeout_long" ∷ str "role_remove" ∷ [];
    };
    vote_policy = record { threshold = 2; quorum = 3; window_seconds = 86400 };
    evidence_policy = record {
      report_bundle_required = true;
      plaintext_disclosure_optional = true;
    };
  });
  profile = some (record {
    enabled = true;
    scope = str "global";
    fields = str "display_name" ∷ str "avatar" ∷ [];
    avatar_modes = str "generated" ∷ str "uploaded" ∷ [];
    display_name = record { min_length = 2; max_length = 32; pattern = [] };
    avatar_upload = some (record {
      max_bytes = 2 * 1024 * 1024;
      mime_types = str "image/png" ∷ str "image/jpeg" ∷ [];
      max_width = 1024;
      max_height = 1024;
    });
    realtime_event = str "profile_updated";
    message_author_profile_mode = str "snapshot";
  });
}
