-- ===== src/Chat/Seed.antt =====
-- internal/chat/service.go: the data that a new service starts with.
use openchat_backend.Base.{ℕ, ◌-◌, ◌*◌, List, [], ◌∷◌, none, Str, str, ℤ, pos, negsuc, ◌+ℤ◌}
use Prim.Native.String.{String}
use openchat_backend.Base.Map.{Map}
use openchat_backend.Strings.{trim_space, trim_suffix}
use openchat_backend.Platform.{Platform}
use openchat_backend.Chat.Types.{
  channel_type_text, channel_type_voice, ChannelGroup, Member, Message, ServerDirectoryEntry,
  Service,
}
use openchat_backend.Chat.Directory.{index_channels}

unfoldable pub seed_server_directory : List ServerDirectoryEntry
seed_server_directory =
    record {
      server_id = str "srv_harbor";
      display_name = str "Harbor Guild";
      icon_text = str "HG";
      trust_state = str "verified";
      identity_handshake_strategy = str "challenge_signature";
      user_identifier_policy = str "server_scoped";
    }
    ∷ record {
      server_id = str "srv_testlab";
      display_name = str "TestLab Server";
      icon_text = str "TL";
      trust_state = str "verified";
      identity_handshake_strategy = str "challenge_signature";
      user_identifier_policy = str "server_scoped";
    }
    ∷ []

unfoldable pub seed_channel_groups : Map (List ChannelGroup)
seed_channel_groups =
    (
      str "srv_harbor",
      record {
        id = str "grp_general";
        label = str "general";
        kind = str "text";
        channels =
            record {
              id = str "ch_general";
              name = str "general";
              type = channel_type_text;
              unread_count = pos 0;
            }
            ∷ record {
              id = str "ch_design";
              name = str "design";
              type = channel_type_text;
              unread_count = pos 0;
            }
            ∷ record {
              id = str "ch_release";
              name = str "release-notes";
              type = channel_type_text;
              unread_count = pos 0;
            }
            ∷ [];
      }
          ∷ record {
            id = str "grp_ops";
            label = str "ops";
            kind = str "text";
            channels =
                record {
                  id = str "ch_outage";
                  name = str "outage-watch";
                  type = channel_type_text;
                  unread_count = pos 0;
                }
                ∷ [];
          }
          ∷ record {
            id = str "grp_voice";
            label = str "Voice Channels";
            kind = str "voice";
            channels =
                record {
                  id = str "vc_general";
                  name = str "General Voice";
                  type = channel_type_voice;
                  unread_count = pos 0;
                }
                ∷ record {
                  id = str "vc_party";
                  name = str "Party Chat";
                  type = channel_type_voice;
                  unread_count = pos 0;
                }
                ∷ [];
          }
          ∷ [],
    )
    ∷ (
      str "srv_testlab",
      record {
        id = str "grp_test_text";
        label = str "test boards";
        kind = str "text";
        channels =
            record {
              id = str "tl_ch_general";
              name = str "test-general";
              type = channel_type_text;
              unread_count = pos 0;
            }
            ∷ record {
              id = str "tl_ch_qa";
              name = str "qa-playground";
              type = channel_type_text;
              unread_count = pos 0;
            }
            ∷ [];
      }
          ∷ record {
            id = str "grp_test_voice";
            label = str "Voice Channels";
            kind = str "voice";
            channels =
                record {
                  id = str "tl_vc_huddle";
                  name = str "Huddle Room";
                  type = channel_type_voice;
                  unread_count = pos 0;
                }
                ∷ record {
                  id = str "tl_vc_pairing";
                  name = str "Pairing Booth";
                  type = channel_type_voice;
                  unread_count = pos 0;
                }
                ∷ [];
          }
          ∷ [],
    )
    ∷ []

unfoldable pub seed_members : Map (List Member)
seed_members =
    (
      str "srv_harbor",
      record { id = str "mem_1"; name = str "Lyra"; status = str "online" }
          ∷ record { id = str "mem_2"; name = str "Orin"; status = str "idle" }
          ∷ record { id = str "mem_3"; name = str "Mira"; status = str "online" }
          ∷ record { id = str "mem_4"; name = str "Calix"; status = str "dnd" }
          ∷ [],
    )
    ∷ (
      str "srv_testlab",
      record { id = str "mem_t1"; name = str "Devon"; status = str "online" }
          ∷ record { id = str "mem_t2"; name = str "Rhea"; status = str "idle" }
          ∷ record { id = str "mem_t3"; name = str "Pax"; status = str "online" }
          ∷ [],
    )
    ∷ []

-- now.Add(-n * time.Minute)
abbrev minutes_before : ℤ → ℕ → ℤ
minutes_before now n = now +ℤ negsuc (n * 60000000000 - 1)

abbrev seed_message : Platform → ℤ → String → String → String → String → ℕ → Message
seed_message p now id channel_id author_uid body minutes = record {
  id = str id;
  channel_id = str channel_id;
  author_uid = str author_uid;
  body = str body;
  created_at = p.rfc3339 (minutes_before now minutes);
  reply_to = none;
  attachments = [];
}

unfoldable pub seed_messages : Platform → ℤ → Map (List Message)
seed_messages p now =
    (
      str "ch_general",
      seed_message p now "msg_seed_01" "ch_general" "uid_seed_1" "Welcome to OpenChat Harbor." 30
          ∷ seed_message p now "msg_seed_02" "ch_general" "uid_seed_2"
              "Realtime messaging is enabled." 24
          ∷ [],
    )
    ∷ (
      str "ch_design",
      seed_message p now "msg_seed_11" "ch_design" "uid_seed_3"
            "Design channel ready for discussion." 18
          ∷ [],
    )
    ∷ (str "ch_release", [])
    ∷ (str "ch_outage", [])
    ∷ (str "vc_general", [])
    ∷ (str "vc_party", [])
    ∷ (
      str "tl_ch_general",
      seed_message p now "msg_tl_01" "tl_ch_general" "uid_tl_1" "TestLab server online." 22
          ∷ seed_message p now "msg_tl_02" "tl_ch_general" "uid_tl_2"
              "Use this channel for integration testing." 15
          ∷ [],
    )
    ∷ (
      str "tl_ch_qa",
      seed_message p now "msg_tl_11" "tl_ch_qa" "uid_tl_3" "QA board ready for smoke checks." 9
          ∷ [],
    )
    ∷ (str "tl_vc_huddle", [])
    ∷ (str "tl_vc_pairing", [])
    ∷ []

unfoldable pub new_service : Platform → Str → ℤ → Service
unfolding seed_server_directory seed_channel_groups seed_members seed_messages index_channels
new_service p public_base_url now = index_channels (record {
  public_base_url = trim_suffix b'/' (trim_space public_base_url);
  servers = seed_server_directory;
  channel_groups_by_server = seed_channel_groups;
  members_by_server = seed_members;
  messages_by_channel = seed_messages p now;
  attachments_by_id = [];
  channel_server_by_id = [];
  channel_type_by_id = [];
  left_servers_by_user = [];
  max_attachment_bytes = 50 * 1024 * 1024;
  max_attachments_per_message = 4;
  allowed_attachment_types = str "image/png" ∷ str "image/jpeg" ∷ str "image/gif" ∷ [];
  broadcaster = none;
})
