-- ===== src/Chat/Types.antt =====
-- The types of internal/chat/service.go.
use openchat_backend.Base.{ℕ, Bool, List, Option, Str, str, ℤ}
use openchat_backend.Base.Map.{Map}

abbrev pub ChannelType : Type 0
ChannelType = Str

abbrev pub channel_type_text : ChannelType
channel_type_text = str "text"

abbrev pub channel_type_voice : ChannelType
channel_type_voice = str "voice"

pub record Channel : Type 0 where
  pub id : Str
  pub name : Str
  pub type : ChannelType
  pub unread_count : ℤ

pub record ChannelGroup : Type 0 where
  pub id : Str
  pub label : Str
  pub kind : Str
  pub channels : List Channel

pub record Member : Type 0 where
  pub id : Str
  pub name : Str
  pub status : Str

pub record MessageReplyReference : Type 0 where
  pub message_id : Str
  pub author_uid : Str
  pub author_display_name : Str
  pub preview_text : Str
  pub is_unavailable : Bool

pub record MessageAttachment : Type 0 where
  pub attachment_id : Str
  pub file_name : Str
  pub url : Str
  pub width : ℤ
  pub height : ℤ
  pub content_type : Str
  pub bytes : ℕ

pub record Message : Type 0 where
  pub id : Str
  pub channel_id : Str
  pub author_uid : Str
  pub body : Str
  pub created_at : Str
  pub reply_to : Option MessageReplyReference
  pub attachments : List MessageAttachment

pub record AttachmentUploadInput : Type 0 where
  pub file_name : Str
  pub content_type : Str
  pub content : Str

pub record ServerDirectoryEntry : Type 0 where
  pub server_id : Str
  pub display_name : Str
  pub icon_text : Str
  pub trust_state : Str
  pub identity_handshake_strategy : Str
  pub user_identifier_policy : Str

pub record AttachmentBlob : Type 0 where
  pub metadata : MessageAttachment
  pub channel_id : Str
  pub content : Str

-- The one implementation of MessageBroadcaster is the realtime hub.
pub data Broadcaster : Type 0 where
  realtime_hub : Broadcaster

pub record Service : Type 0 where
  pub public_base_url : Str
  pub servers : List ServerDirectoryEntry
  pub channel_groups_by_server : Map (List ChannelGroup)
  pub members_by_server : Map (List Member)
  pub messages_by_channel : Map (List Message)
  pub attachments_by_id : Map AttachmentBlob
  pub channel_server_by_id : Map Str
  pub channel_type_by_id : Map ChannelType
  pub left_servers_by_user : Map (Map ℤ)
  pub max_attachment_bytes : ℕ
  pub max_attachments_per_message : ℕ
  pub allowed_attachment_types : List Str
  pub broadcaster : Option Broadcaster

pub data Error : Type 0 where
  unknown_server unknown_channel : Str → Error
  not_a_text_channel server_id_required user_uid_required : Error
  message_empty attachment_too_large attachment_type_unsupported : Error
  attachment_image_invalid too_many_attachments attachment_not_found : Error
  reply_target_not_found : Error
