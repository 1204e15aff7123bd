-- ===== src/Api/Channels.antt =====
-- internal/api/handlers_channels.go and handlers_servers.go
use openchat_backend.Chat
use openchat_backend.Api.Types.{
  Requester, Server, Served, Response, answer, write_error, write_json, groups, members, messages,
  message, content, left, servers, message_created, Notice,
}
use openchat_backend.Api.Requester.{requester_from_context}
use openchat_backend.Chat.Types.{AttachmentUploadInput, Message}
use openchat_backend.Strings.{trim_space, has_prefix, to_lower}
use openchat_backend.Strconv.{atoi}
use openchat_backend.Platform.{Platform}
use openchat_backend.Base.{
  ℕ, suc, ◌+◌, ◌*◌, false, Option, none, some, List, [], ◌∷◌, ◌++◌, ltb, if◌then◌else◌, is_nil,
  length, take, Str, str, ℤ, pos, ltb_ℤ, Result, ok, err,
}

unfoldable pub list_channel_groups : Server → Str → Response
list_channel_groups s raw_server =
    let server_id = trim_space raw_server in
    elim (Chat.Directory.list_channel_groups s.chat server_id) [
      | err e ↦ write_error 404 (str "server_not_found") false
      | ok found ↦ write_json 200 (groups server_id found)
    ]

unfoldable pub list_members : Server → Str → Response
list_members s raw_server =
    let server_id = trim_space raw_server in
    elim (Chat.Directory.list_members s.chat server_id) [
      | err e ↦ write_error 404 (str "server_not_found") false
      | ok found ↦ write_json 200 (members server_id found)
    ]

-- The limit that a query asks for.
unfoldable pub limit_of : Str → ℤ
limit_of query =
    let raw_limit = trim_space query in
    if is_nil raw_limit then pos 100 else elim (atoi raw_limit) [
      | none ↦ pos 100
      | some parsed ↦ if ltb_ℤ (pos 0) parsed then parsed else pos 100
    ]

unfoldable pub list_messages : Server → Str → (query : Str) → Response
list_messages s raw_channel query =
    let channel_id = trim_space raw_channel in
    elim (Chat.Messages.list_messages s.chat channel_id (limit_of query)) [
      | err e ↦ write_error 404 (str "channel_not_found") false
      | ok found ↦ write_json 200 (messages channel_id found)
    ]

-- A file of a form; `bytes` is what it holds, unless it cannot be opened, read or closed.
pub record FileHeader : Type 0 where
  pub file_name : Str
  pub content_type : Str
  pub bytes : Option Str

pub record Form : Type 0 where
  pub files : List FileHeader
  pub body : Str
  pub reply_to_message_id : Str

-- ParseMultipartForm: an error, or the form, if there is one.
pub data ParsedForm : Type 0 where
  form_error no_form : ParsedForm
  parsed : Form → ParsedForm

-- A request to send a message. The body as a form depends on the bytes that are read at most, as JSON
-- it is the fields `body` and `reply_to_message_id`, or an error.
pub record MessageRequest : Type 0 where
  pub content_type : Str
  pub parse_multipart_form : ℕ → ParsedForm
  pub decoded : Option (Str × Str)

pub data PayloadError : Type 0 where
  invalid_message_payload invalid_multipart_payload attachment_read_failed : PayloadError
  attachment_too_large attachment_count_exceeded : PayloadError

abbrev pub multipart_body_slack_bytes : ℕ
multipart_body_slack_bytes = 16 * 1024

pub record MessagePayload : Type 0 where
  pub body : Str
  pub reply_to_message_id : Str
  pub uploads : List AttachmentUploadInput

-- The loop over the files of a form.
unfoldable pub read_files :
    ℕ
    → List AttachmentUploadInput
    → List FileHeader
    → Result PayloadError (List AttachmentUploadInput)
read_files max_bytes uploads [] = ok uploads
read_files max_bytes uploads (header ∷ headers) = elim header.bytes [
  | none ↦ err attachment_read_failed
  | some bytes ↦
      let content = take (suc max_bytes) bytes in
      let rest =
        read_files max_bytes
          (uploads
            ++ record {
              file_name = header.file_name;
              content_type = trim_space header.content_type;
              content = content;
            }
              ∷ [])
          headers in
      if ltb max_bytes (length content) then err attachment_too_large else rest
]

abbrev pub with_uploads :
    Form → Result PayloadError (List AttachmentUploadInput) → Result PayloadError MessagePayload
with_uploads form (err e) = err e
with_uploads form (ok uploads) = ok (record {
  body = form.body;
  reply_to_message_id = trim_space form.reply_to_message_id;
  uploads = uploads;
})

unfoldable pub parse_create_message_payload :
    Platform → Chat.Types.Service → MessageRequest → Result PayloadError MessagePayload
parse_create_message_payload p chat r =
    let (max_bytes, max_files, types) = Chat.Attachments.attachment_upload_rules chat in
    if has_prefix (to_lower p.lower (trim_space r.content_type)) (str "multipart/form-data")
    then elim (r.parse_multipart_form (max_bytes * max_files + multipart_body_slack_bytes)) [
      | form_error ↦ err invalid_multipart_payload
      | no_form ↦ err invalid_multipart_payload
      | parsed form ↦
          if ltb max_files (length form.files)
          then err attachment_count_exceeded
          else with_uploads form (read_files max_bytes [] form.files)
    ]
    else elim r.decoded [
      | none ↦ err invalid_message_payload
      | some (body, reply_to_message_id) ↦ ok (record {
        body = body;
        reply_to_message_id = trim_space reply_to_message_id;
        uploads = [];
      })
    ]

unfoldable pub payload_refused : PayloadError → Response
payload_refused attachment_too_large = write_error 413 (str "attachment_too_large") false
payload_refused attachment_count_exceeded = write_error 400 (str "attachment_count_exceeded") false
payload_refused attachment_read_failed = write_error 400 (str "invalid_payload") false
payload_refused invalid_multipart_payload = write_error 400 (str "invalid_payload") false
payload_refused invalid_message_payload = write_error 400 (str "invalid_payload") false

unfoldable pub message_refused : Chat.Types.Error → Response
message_refused Chat.Types.message_empty = write_error 400 (str "message_empty") false
message_refused Chat.Types.reply_target_not_found =
    write_error 400 (str "reply_target_not_found") false
message_refused Chat.Types.too_many_attachments =
    write_error 400 (str "attachment_count_exceeded") false
message_refused Chat.Types.attachment_too_large = write_error 413 (str "attachment_too_large") false
message_refused Chat.Types.attachment_type_unsupported =
    write_error 415 (str "attachment_type_unsupported") false
message_refused Chat.Types.attachment_image_invalid =
    write_error 400 (str "attachment_invalid_image") false
message_refused e = write_error 400 (str "message_create_failed") false

abbrev pub message_notice : Option (Chat.Types.Broadcaster × Message) → Option Notice
message_notice none = none
message_notice (some (b, m)) = some (message_created m)

-- What createMessage answers to what CreateMessage leaves.
abbrev pub created : Server → Chat.Messages.Outcome → Served
created s outcome = record {
  state = record s { chat = outcome.state };
  response = elim outcome.result [ err e ↦ message_refused e | ok m ↦ write_json 201 (message m) ];
  notice = message_notice outcome.broadcast;
}

unfoldable pub create_message :
    Platform
    → Str
    → MessageRequest
    → (ids : ℕ → Str) → (now : ℤ) → (context : Option Requester) → Server
    → Served
create_message p raw_channel r ids now context s =
    let channel_id = trim_space raw_channel in
    if is_nil channel_id
    then answer s (write_error 400 (str "invalid_channel") false)
    else elim (parse_create_message_payload p s.chat r) [
      | err e ↦ answer s (payload_refused e)
      | ok payload ↦ created s (
          Chat.Messages.create_message p s.chat channel_id (requester_from_context context).user_uid
            payload.body payload.uploads payload.reply_to_message_id ids now)
    ]

unfoldable pub get_message_attachment : Server → Str → Str → Response
get_message_attachment s raw_channel raw_attachment =
    elim (Chat.Attachments.attachment_content s.chat (trim_space raw_channel)
      (trim_space raw_attachment)) [
        | err e ↦ write_error 404 (str "attachment_not_found") false
        | ok (attachment, bytes) ↦ write_json 200 (content attachment.content_type bytes)
      ]

unfoldable pub list_servers : Option Requester → Server → Served
list_servers context s = answer s (
    write_json 200 (
      servers
        (Chat.Directory.list_servers_for_user s.chat (requester_from_context context).user_uid)))

-- `now` is the time that LeaveServer takes, `left_at` that of the answer.
unfoldable pub leave_server_membership :
    Platform → Str → (now left_at : ℤ) → Option Requester → Server → Served
leave_server_membership p raw_server now left_at context s =
    let server_id = trim_space raw_server in
    let requester = requester_from_context context in
    let (chat, result) = Chat.Directory.leave_server s.chat server_id requester.user_uid now in
    if is_nil server_id then answer s (write_error 400 (str "invalid_server") false) else record {
      state = record s { chat = chat };
      response = elim result [
        | err e ↦ write_error 404 (str "server_not_found") false
        | ok done ↦ write_json 200 (left server_id requester.user_uid (p.rfc3339 left_at))
      ];
      notice = none;
    }
