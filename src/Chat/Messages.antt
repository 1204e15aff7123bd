-- ===== src/Chat/Messages.antt =====
-- internal/chat/service.go: sending a message to a channel, and reading the messages back.
pub mod Reading
use openchat_backend.Base.{
  ℕ, suc, ◌-◌, Bool, not, ◌&&◌, List, [], ◌∷◌, ◌++◌, map, Option, none, some, leb, ltb,
  if◌then◌else◌, is_nil, length, drop, Str, str, ◌==◌, ℤ, pos, negsuc, Result, ok, err,
}
use openchat_backend.Base.Map.{lookup, insert, get_or}
use openchat_backend.Strings.{trim_space}
use openchat_backend.Platform.{Platform}
use openchat_backend.Chat.Types.{
  channel_type_text, MessageReplyReference, MessageAttachment, Message, AttachmentUploadInput,
  Broadcaster, Service, Error, unknown_channel, not_a_text_channel, message_empty,
  too_many_attachments, reply_target_not_found,
}
use openchat_backend.Chat.Attachments.{short_id, build_attachment}
use openchat_backend.Chat.Preview.{build_reply_preview_text}

unfoldable pub clone_message_attachment : MessageAttachment → MessageAttachment
clone_message_attachment attachment = attachment

unfoldable pub clone_message_reply_reference :
    Option MessageReplyReference → Option MessageReplyReference
clone_message_reply_reference none = none
clone_message_reply_reference (some reply) = some reply

unfoldable pub clone_message : Message → Message
unfolding clone_message_attachment clone_message_reply_reference
clone_message message = record message {
  reply_to = clone_message_reply_reference message.reply_to;
  attachments = map clone_message_attachment message.attachments;
}

unfoldable pub clone_messages : List Message → List Message
clone_messages messages = map clone_message messages

-- How many of `n` messages a limit lets through.
abbrev pub shown : ℤ → ℕ → ℕ
shown (pos limit) n = if leb limit 0 then n else if ltb n limit then n else limit
shown (negsuc limit) n = n

unfoldable pub list_messages : Service → Str → ℤ → Result Error (List Message)
list_messages s channel_id limit =
    let messages = get_or channel_id s.messages_by_channel [] in
    let start = length messages - shown limit (length messages) in
    elim (lookup channel_id s.channel_type_by_id) [
      | none ↦ err (unknown_channel channel_id)
      | some type ↦ ok (clone_messages (drop start messages))
    ]

unfoldable pub find_message : Str → List Message → Option Message
find_message message_id [] = none
find_message message_id (message ∷ messages) =
    if message.id == message_id
    then some (clone_message message)
    else find_message message_id messages

unfoldable pub find_message_by_id : Service → Str → Str → Option Message
unfolding find_message
find_message_by_id s channel_id message_id =
    find_message message_id (get_or channel_id s.messages_by_channel [])

-- `s.attachmentsByID[attachment.AttachmentID] = attachmentBlob{...}`
unfoldable pub store_attachment : Service → Str → MessageAttachment → Str → Service
store_attachment s channel_id attachment content = record s {
  attachments_by_id =
      insert attachment.attachment_id
        (record { metadata = attachment; channel_id = channel_id; content = content })
        s.attachments_by_id;
}

-- The loop over the uploads: each that is accepted is stored at once, with the next UUID.
unfoldable pub store_uploads :
    Platform
    → Service
    → Str
    → (ℕ → Str)
    → ℕ
    → List MessageAttachment
    → List AttachmentUploadInput
    → Service × Result Error (List MessageAttachment)
store_uploads p s channel_id ids n attachments [] = (s, ok attachments)
store_uploads p s channel_id ids n attachments (upload ∷ uploads) =
    elim (build_attachment p s channel_id upload (ids n)) [
      | err e ↦ (s, err e)
      | ok (attachment, content) ↦
          store_uploads p (store_attachment s channel_id attachment content) channel_id ids (suc n)
            (attachments ++ attachment ∷ []) uploads
    ]

abbrev pub reply_reference : Message → MessageReplyReference
reply_reference message = record {
  message_id = message.id;
  author_uid = message.author_uid;
  author_display_name = message.author_uid;
  preview_text = build_reply_preview_text message.body;
  is_unavailable = Bool.false;
}

unfoldable pub resolve_reply : Service → Str → Str → Result Error (Option MessageReplyReference)
resolve_reply s channel_id reply_to_message_id =
    if is_nil reply_to_message_id
    then ok none
    else elim (find_message_by_id s channel_id reply_to_message_id) [
      | none ↦ err reply_target_not_found
      | some message ↦ ok (some (reply_reference message))
    ]

-- What a call of CreateMessage leaves: the state, what it returns, and the message that it hands to
-- the broadcaster after unlocking, if it does.
pub record Outcome : Type 0 where
  pub state : Service
  pub result : Result Error Message
  pub broadcast : Option (Broadcaster × Message)

abbrev pub failed : Service → Error → Outcome
failed s e = record { state = s; result = err e; broadcast = none }

abbrev pub to_broadcaster : Option Broadcaster → Message → Option (Broadcaster × Message)
to_broadcaster none message = none
to_broadcaster (some b) message = some (b, message)

unfoldable pub append_message : Service → Str → Message → Outcome
append_message s channel_id message = record {
  state = record s {
    messages_by_channel =
        insert channel_id (get_or channel_id s.messages_by_channel [] ++ clone_message message ∷ [])
          s.messages_by_channel;
  };
  result = ok (clone_message message);
  broadcast = to_broadcaster s.broadcaster (clone_message message);
}

abbrev pub new_message :
    Platform
    → Str
    → Str
    → Str
    → List MessageAttachment
    → Option MessageReplyReference
    → Str
    → ℤ
    → Message
new_message p channel_id author_uid body attachments reply_to uuid now = record {
  id = short_id (str "msg_") uuid;
  channel_id = channel_id;
  author_uid = author_uid;
  body = body;
  created_at = p.rfc3339 now;
  reply_to = clone_message_reply_reference reply_to;
  attachments = attachments;
}

-- The part after the uploads are stored.
unfoldable pub finish_message :
    Platform → Service → Str → Str → Str → List MessageAttachment → Str → Str → ℤ → Outcome
finish_message p s channel_id author_uid body attachments reply_to_message_id uuid now =
    if is_nil body && is_nil attachments
    then failed s message_empty
    else elim (resolve_reply s channel_id reply_to_message_id) [
      | err e ↦ failed s e
      | ok reply_to ↦
          append_message s channel_id
            (new_message p channel_id author_uid body attachments reply_to uuid now)
    ]

-- The part after the checks of the channel and of the number of uploads.
unfoldable pub upload_and_finish :
    Platform
    → Service
    → Str
    → Str
    → Str
    → List AttachmentUploadInput
    → Str
    → (ℕ → Str)
    → ℤ
    → Outcome
upload_and_finish p s channel_id author_uid body uploads reply_to_message_id ids now =
    let (stored, attached) = store_uploads p s channel_id ids 0 [] uploads in
    elim attached [
      | err e ↦ failed stored e
      | ok attachments ↦
          finish_message p stored channel_id author_uid body attachments reply_to_message_id
            (ids (length attachments)) now
    ]

unfoldable pub create_message :
    Platform
    → Service
    → Str
    → Str
    → Str
    → List AttachmentUploadInput
    → Str
    → (ℕ → Str)
    → ℤ
    → Outcome
create_message p s channel_id author_uid body uploads reply_to_message_id ids now =
    elim (lookup channel_id s.channel_type_by_id) [
      | none ↦ failed s (unknown_channel channel_id)
      | some type ↦
          if not (type == channel_type_text)
          then failed s not_a_text_channel
          else if ltb s.max_attachments_per_message (length uploads)
          then failed s too_many_attachments
          else upload_and_finish p s channel_id author_uid (trim_space body) uploads
              (trim_space reply_to_message_id) ids now
    ]
