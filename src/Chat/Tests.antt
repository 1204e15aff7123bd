-- ===== src/Chat/Tests.antt =====
-- Tests of the modules of internal/chat/service.go, and its theorems at a small server.
use openchat_backend.Chat.Sending.Leaks.{create_message_leaks}
use openchat_backend.Utf8.{rune_count}
use openchat_backend.Chat.Directory.{
  leave_server, list_servers_for_user, channel_exists, server_exists, index_channels,
}
use openchat_backend.Chat.Seed.{new_service}
use openchat_backend.Chat.Sending.{messages_of, SameButAttachments}
use openchat_backend.Chat.Sending.Results.{create_message_sent, create_message_refused}
use openchat_backend.Chat.Sending.Valid.{IsValid}
use openchat_backend.Chat.Sending.History.{run-new_service-IsValid, run, create, leave}
use openchat_backend.Chat.Sending.Storage.{create_message-Readable, Readable, attachment_id_of}
use openchat_backend.Chat.Messages.Reading.{list_messages_recent, list_messages-create_message}
use openchat_backend.Chat.Directory.Leaving.{
  list_servers_for_user-leave_server, leave_server_iff, without,
}
use openchat_backend.Chat.Directory.Index.{channel_exists-index_channels, is_declared}
use openchat_backend.Chat.Preview.Bounds.{rune_count-build_reply_preview_text-le}
use openchat_backend.Chat.Preview.{build_reply_preview_text, max_preview_runes}
use openchat_backend.Chat.Attachments.{
  build_attachment, normalize_attachment_content_type, normalize_attachment_file_name,
  attachment_url,
}
use openchat_backend.Strings.{strings, trim_space}
use openchat_backend.Chat.Messages.{
  Outcome, create_message, upload_and_finish, store_uploads, store_attachment, finish_message,
  resolve_reply, find_message_by_id, find_message, clone_message, append_message, list_messages,
  to_broadcaster, clone_messages,
}
use openchat_backend.Chat.Types.{
  Message, Service, AttachmentUploadInput, MessageAttachment, channel_type_text, realtime_hub,
  reply_target_not_found, Error,
}
use openchat_backend.Platform.{Platform}
use openchat_backend.Base.{
  ℕ, zero, suc, ◌+◌, ◌≤◌, ◌<◌, min, ◌≡◌, refl, ◌≢◌, ◌↔◌, true, false, ◌&&◌, ◌||◌, Option, none,
  some, List, [], ◌∷◌, ◌++◌, arith, leb, if◌then◌else◌, is_nil, length, Str, str, ◌==◌, ℤ, pos, ok,
  err,
}
use openchat_backend.Base.Map.{lookup}

abbrev ascii_lower : ℕ → ℕ
ascii_lower r = if leb 65 r && leb r 90 then r + 32 else r

-- An image is any content, of two pixels by three.
abbrev image_size : Str → Option (ℤ × ℤ)
image_size [] = none
image_size (b ∷ s) = some (pos 2, pos 3)

abbrev pub platform : Platform
platform = record {
  lower = ascii_lower;
  is_letter = λ r. leb 97 r;
  is_number = λ r. false;
  decode_config = image_size;
  detect_content_type = λ s. str "image/png";
  rfc3339 = λ t. str "noon";
}

abbrev lobby : Str
lobby = str "lobby"

abbrev attic : Str
attic = str "attic"

abbrev harbor : Str
harbor = str "harbor"

abbrev ann : Str
ann = str "ann"

abbrev old_message : Message
old_message = record {
  id = str "msg_1";
  channel_id = lobby;
  author_uid = ann;
  body = str "hello";
  created_at = str "dawn";
  reply_to = none;
  attachments = [];
}

abbrev service : Service
service = record {
  public_base_url = [];
  servers =
      record {
        server_id = harbor;
        display_name = harbor;
        icon_text = [];
        trust_state = [];
        identity_handshake_strategy = [];
        user_identifier_policy = [];
      }
      ∷ [];
  channel_groups_by_server = (harbor, []) ∷ [];
  members_by_server = [];
  messages_by_channel = (lobby, old_message ∷ []) ∷ [];
  attachments_by_id = [];
  channel_server_by_id = (lobby, harbor) ∷ [];
  channel_type_by_id = (lobby, channel_type_text) ∷ [];
  left_servers_by_user = [];
  max_attachment_bytes = 8;
  max_attachments_per_message = 2;
  allowed_attachment_types = str "image/png" ∷ [];
  broadcaster = some realtime_hub;
}

-- The UUIDs of a call.
abbrev ids : ℕ → Str
ids i = str "aaaa-bb" ++ (97 + i) ∷ []

abbrev picture : AttachmentUploadInput
picture = record {
  file_name = str "dir/cat.png";
  content_type = str "image/png";
  content = str "pic";
}

abbrev stored_picture : MessageAttachment
stored_picture = record {
  attachment_id = str "att_aaaabba";
  file_name = str "cat.png";
  url = str "/v1/channels/lobby/attachments/att_aaaabba";
  width = pos 2;
  height = pos 3;
  content_type = str "image/png";
  bytes = 3;
}

abbrev new_text : Message
new_text = record {
  id = str "msg_aaaabbb";
  channel_id = lobby;
  author_uid = ann;
  body = str "hi";
  created_at = str "noon";
  reply_to = some (record {
    message_id = str "msg_1";
    author_uid = ann;
    author_display_name = ann;
    preview_text = str "hello";
    is_unavailable = false;
  });
  attachments = stored_picture ∷ [];
}

abbrev sent_call : Outcome
sent_call =
    create_message platform service lobby ann (str " hi ") (picture ∷ []) (str "msg_1") ids (pos 7)

-- The UUIDs of two uploads and of the message would be three; of one upload, two.
sent_call_result : sent_call.result ≡ ok new_text
unfolding strings create_message lookup upload_and_finish store_uploads build_attachment
    normalize_attachment_content_type normalize_attachment_file_name attachment_url store_attachment
    finish_message resolve_reply find_message_by_id find_message clone_message
    build_reply_preview_text append_message
sent_call_result = refl

create_message_sent_example :
    (messages_of sent_call.state lobby ≡ messages_of service lobby ++ new_text ∷ [])
    × ((c : Str) → c ≢ lobby → messages_of sent_call.state c ≡ messages_of service c)
    × (sent_call.broadcast ≡ to_broadcaster service.broadcaster new_text)
    × (new_text.channel_id ≡ lobby)
    × (new_text.author_uid ≡ ann)
    × (new_text.body ≡ trim_space (str " hi "))
    × (length new_text.attachments ≡ length (picture ∷ []))
create_message_sent_example =
    create_message_sent platform service lobby ann (str " hi ") (picture ∷ []) (str "msg_1") ids
      (pos 7) new_text sent_call_result

-- A reply to a message that is not there.
abbrev refused_call : Outcome
refused_call =
    create_message platform service lobby ann (str "hi") (picture ∷ []) (str "msg_9") ids (pos 7)

refused_call_result : refused_call.result ≡ err reply_target_not_found
unfolding strings create_message lookup upload_and_finish store_uploads build_attachment
    normalize_attachment_content_type normalize_attachment_file_name attachment_url store_attachment
    finish_message resolve_reply find_message_by_id find_message
refused_call_result = refl

create_message_refused_example :
    SameButAttachments service refused_call.state × (refused_call.broadcast ≡ none)
create_message_refused_example =
    create_message_refused platform service lobby ann (str "hi") (picture ∷ []) (str "msg_9") ids
      (pos 7) reply_target_not_found refused_call_result

run-new_service-IsValid_example : IsValid (
    run platform (new_service platform [] (pos 7)) (
      create (str "ch_general") ann (str "hi") [] [] ids (pos 8)
      ∷ leave (str "srv_harbor") ann (pos 9)
      ∷ []))
run-new_service-IsValid_example = run-new_service-IsValid platform [] (pos 7) (
    create (str "ch_general") ann (str "hi") [] [] ids (pos 8)
    ∷ leave (str "srv_harbor") ann (pos 9)
    ∷ [])

-- The names that the UUIDs of one upload give.
no_spaces : (i : ℕ) → i < 1 → trim_space (attachment_id_of (ids i)) ≡ attachment_id_of (ids i)
unfolding strings
no_spaces zero h = refl
no_spaces (suc i) h = absurd (omega arith)

one_name : (i j : ℕ) → i < j → j < 1 → attachment_id_of (ids i) ≢ attachment_id_of (ids j)
one_name i j h k = absurd (omega arith)

trimmed_lobby : trim_space lobby ≡ lobby
unfolding strings
trimmed_lobby = refl

create_message-Readable_example : Readable sent_call.state lobby new_text.attachments (picture ∷ [])
create_message-Readable_example =
    create_message-Readable platform service lobby ann (str " hi ") (picture ∷ []) (str "msg_1") ids
      (pos 7) new_text trimmed_lobby (unfold str in refl) no_spaces one_name sent_call_result

picture_built :
    build_attachment platform service lobby picture (ids 0) ≡ ok (stored_picture, str "pic")
unfolding strings build_attachment normalize_attachment_content_type normalize_attachment_file_name
    attachment_url
picture_built = refl

not_found : find_message_by_id service lobby (trim_space (str "msg_9")) ≡ none
unfolding strings find_message_by_id find_message lookup
not_found = refl

create_message_leaks_example :
    (refused_call.result ≡ err reply_target_not_found)
    × (lookup stored_picture.attachment_id refused_call.state.attachments_by_id
        ≡ some (record { metadata = stored_picture; channel_id = lobby; content = str "pic" }))
create_message_leaks_example =
    create_message_leaks platform service lobby ann (str "hi") picture (str "msg_9") ids (pos 7)
      stored_picture (str "pic") (unfold lookup ◌==◌ str in refl) (omega arith) picture_built
      (unfold strings in refl) not_found

listed : list_messages service lobby (pos 5) ≡ ok (old_message ∷ [])
unfolding strings list_messages clone_messages clone_message lookup
listed = refl

list_messages_recent_example :
    (length (old_message ∷ []) ≡ min 5 (length (messages_of service lobby)))
    × (older : List Message) × (older ++ old_message ∷ [] ≡ messages_of service lobby)
list_messages_recent_example =
    list_messages_recent service lobby 5 (old_message ∷ []) (omega arith) listed

list_messages-create_message_example :
    (list_messages sent_call.state lobby (pos 1) ≡ ok (new_text ∷ []))
    × (before : List Message) × (list_messages service lobby (pos 1) ≡ ok before)
    × (list_messages sent_call.state lobby (pos 2) ≡ ok (before ++ new_text ∷ []))
list_messages-create_message_example =
    list_messages-create_message platform service lobby ann (str " hi ") (picture ∷ [])
      (str "msg_1") ids (pos 7) new_text 1 (omega arith) sent_call_result

left_ok : (leave_server service (str " harbor") ann (pos 3)).1 ≡ ok tt
unfolding strings leave_server lookup
left_ok = refl

list_servers_for_user-leave_server_example :
    list_servers_for_user (leave_server service (str " harbor") ann (pos 3)).0 ann ≡ (
      if trim_space ann == trim_space ann
      then without (trim_space (str " harbor")) (list_servers_for_user service ann)
      else list_servers_for_user service ann)
list_servers_for_user-leave_server_example =
    list_servers_for_user-leave_server service (str " harbor") ann (pos 3) left_ok ann

leave_server_iff_example :
    (((leave_server service harbor [] (pos 3)).1 ≡ ok tt) ↔ (
      (is_nil (trim_space harbor) ≡ false)
      × (is_nil (trim_space []) ≡ false)
      × (server_exists service (trim_space harbor) ≡ true)))
    × ((e : Error)
        → (leave_server service harbor [] (pos 3)).1 ≡ err e
        → (leave_server service harbor [] (pos 3)).0 ≡ service)
leave_server_iff_example = leave_server_iff service harbor [] (pos 3)

channel_exists-index_channels_example :
    channel_exists (index_channels service) attic
    ≡ (is_declared service.channel_groups_by_server attic || channel_exists service attic)
channel_exists-index_channels_example = channel_exists-index_channels service attic

rune_count-build_reply_preview_text-le_example :
    rune_count (build_reply_preview_text (str "one  two")) ≤ max_preview_runes
rune_count-build_reply_preview_text-le_example =
    rune_count-build_reply_preview_text-le (str "one  two")
