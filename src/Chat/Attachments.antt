-- ===== src/Chat/Attachments.antt =====
-- internal/chat/service.go: what is made of an upload, and how its content is read back.
use openchat_backend.Base.{
  ℕ, not, ◌&&◌, ◌||◌, List, ◌++◌, none, some, ltb, if◌then◌else◌, is_nil, length, take, Str, str,
  ◌==◌, ℤ, pos, leb_ℤ, Result, ok, err,
}
use openchat_backend.Base.Map.{lookup}
use openchat_backend.Strings.{
  trim_space, remove_byte, before_byte, to_lower, base, contains, sort_strings,
}
use openchat_backend.Platform.{Platform}
use openchat_backend.Chat.Types.{
  MessageAttachment, AttachmentUploadInput, Service, Error, attachment_too_large,
  attachment_type_unsupported, attachment_image_invalid, attachment_not_found,
}

-- A prefix, and the first eight digits of a UUID.
abbrev pub short_id : Str → Str → Str
short_id prefix uuid = prefix ++ remove_byte b'-' (take 8 uuid)

unfoldable pub attachment_url : Service → Str → Str → Str
attachment_url s channel_id attachment_id =
    let path = str "/v1/channels/" ++ (channel_id ++ (str "/attachments/" ++ attachment_id)) in
    if is_nil s.public_base_url then path else s.public_base_url ++ path

abbrev generic_type : Str
generic_type = str "application/octet-stream"

-- Without what follows a semicolon.
abbrev strip_parameters : Str → Str
strip_parameters content_type = elim (before_byte b';' content_type) [
  | none ↦ content_type
  | some type ↦ trim_space type
]

unfoldable pub normalize_attachment_content_type : Platform → Str → Str → Str
normalize_attachment_content_type p content_type body =
    let given = trim_space (to_lower p.lower content_type) in
    let plain = if is_nil given then given else strip_parameters given in
    let detected = to_lower p.lower (p.detect_content_type body) in
    if not (is_nil body) && (is_nil plain || plain == generic_type) then detected else plain

abbrev by_content_type : Str → Str
by_content_type content_type =
    if content_type == str "image/jpeg"
    then str "image.jpg"
    else if content_type == str "image/gif"
    then str "image.gif"
    else str "image.png"

unfoldable pub normalize_attachment_file_name : Str → Str → Str
normalize_attachment_file_name file_name content_type =
    let trimmed = trim_space file_name in
    if is_nil trimmed then by_content_type content_type else base trimmed

abbrev pub new_attachment :
    Service → Str → AttachmentUploadInput → Str → Str → ℤ → ℤ → MessageAttachment
new_attachment s channel_id upload content_type uuid width height = record {
  attachment_id = short_id (str "att_") uuid;
  file_name = normalize_attachment_file_name upload.file_name content_type;
  url = attachment_url s channel_id (short_id (str "att_") uuid);
  width = width;
  height = height;
  content_type = content_type;
  bytes = length upload.content;
}

unfoldable pub build_attachment :
    Platform → Service → Str → AttachmentUploadInput → Str → Result Error (MessageAttachment × Str)
build_attachment p s channel_id upload uuid =
    let content_type = normalize_attachment_content_type p upload.content_type upload.content in
    if is_nil upload.content
    then err attachment_image_invalid
    else if ltb s.max_attachment_bytes (length upload.content)
    then err attachment_too_large
    else if not (contains s.allowed_attachment_types content_type)
    then err attachment_type_unsupported
    else elim (p.decode_config upload.content) [
      | none ↦ err attachment_image_invalid
      | some (width, height) ↦
          if leb_ℤ width (pos 0) || leb_ℤ height (pos 0)
          then err attachment_image_invalid
          else ok
              (new_attachment s channel_id upload content_type uuid width height, upload.content)
    ]

-- The metadata of an attachment and its bytes.
unfoldable pub attachment_content : Service → Str → Str → Result Error (MessageAttachment × Str)
attachment_content s channel_id attachment_id =
    let channel = trim_space channel_id in
    let attachment = trim_space attachment_id in
    if is_nil channel || is_nil attachment
    then err attachment_not_found
    else elim (lookup attachment s.attachments_by_id) [
      | none ↦ err attachment_not_found
      | some blob ↦
          if blob.channel_id == channel
          then ok (blob.metadata, blob.content)
          else err attachment_not_found
    ]

unfoldable pub attachment_upload_rules : Service → ℕ × ℕ × List Str
attachment_upload_rules s =
    (s.max_attachment_bytes, s.max_attachments_per_message, sort_strings s.allowed_attachment_types)
