-- ===== src/Chat/Sending/Leaks.antt =====
-- What a refused call of CreateMessage leaves stored (internal/chat/service.go).
use openchat_backend.Chat.Sending.Storage.{lookup-store_attachment, store_uploads_step}
use openchat_backend.Chat.Sending.{channel_type_text}
use openchat_backend.Strings.{trim_space}
use openchat_backend.Platform.{Platform}
use openchat_backend.Chat.Messages.{
  store_attachment, store_uploads, finish_message, resolve_reply, upload_and_finish, create_message,
  find_message_by_id, Outcome, failed,
}
use openchat_backend.Chat.Types.{
  Service, AttachmentUploadInput, MessageAttachment, reply_target_not_found,
}
use openchat_backend.Chat.Attachments.{build_attachment}
use openchat_backend.Base.{
  ℕ, ◌<◌, ◌≡◌, refl, ◌∙◌, false, some, [], ◌∷◌, arith, is_nil, Str, ==_refl, ok, ℤ, ap, err, none,
}
use openchat_backend.Base.Map.{lookup}

leak_finished :
    (p : Platform) (s : Service) (channel_id author_uid body reply uuid : Str) (now : ℤ)
    (a : MessageAttachment)
    → is_nil reply ≡ false
    → find_message_by_id s channel_id reply ≡ none
    → finish_message p s channel_id author_uid body (a ∷ []) reply uuid now
      ≡ failed s reply_target_not_found
unfolding finish_message resolve_reply
leak_finished p s channel_id author_uid body reply uuid now a r f = ground arith

leak_stored :
    (p : Platform) (s : Service) (channel_id author_uid body : Str) (upload : AttachmentUploadInput)
    (reply : Str) (ids : ℕ → Str) (now : ℤ) (a : MessageAttachment) (content : Str)
    → build_attachment p s channel_id upload (ids 0) ≡ ok (a, content)
    → is_nil reply ≡ false
    → find_message_by_id s channel_id reply ≡ none
    → upload_and_finish p s channel_id author_uid body (upload ∷ []) reply ids now
      ≡ failed (store_attachment s channel_id a content) reply_target_not_found
unfolding upload_and_finish
leak_stored p s channel_id author_uid body upload reply ids now a content e r f =
    rw (stored, upload_and_finish)
      (rw stored (
        leak_finished p (store_attachment s channel_id a content) channel_id author_uid body reply
          (ids 1) now a r (unfold find_message_by_id store_attachment in f)))
  where
    stored :
        store_uploads p s channel_id ids 0 [] (upload ∷ [])
        ≡ (store_attachment s channel_id a content, ok (a ∷ []))
    stored =
        store_uploads_step p channel_id ids [] s 0 [] upload a content e
        ∙ unfold store_uploads in refl

leak_checked :
    (p : Platform) (s : Service) (channel_id author_uid body : Str) (upload : AttachmentUploadInput)
    (reply_to_message_id : Str) (ids : ℕ → Str) (now : ℤ)
    → lookup channel_id s.channel_type_by_id ≡ some channel_type_text
    → 0 < s.max_attachments_per_message
    → create_message p s channel_id author_uid body (upload ∷ []) reply_to_message_id ids now
      ≡ upload_and_finish p s channel_id author_uid
          (trim_space body)
          (upload ∷ [])
          (trim_space reply_to_message_id)
          ids
          now
unfolding create_message
leak_checked p s channel_id author_uid body upload reply_to_message_id ids now t few =
    ground (arith, ==_refl channel_type_text)

-- A message with one good upload that replies to a message which is not in the channel is refused,
-- and the upload stays stored under the name that the UUID gives.
pub create_message_leaks :
    (p : Platform) (s : Service) (channel_id author_uid body : Str) (upload : AttachmentUploadInput)
    (reply_to_message_id : Str) (ids : ℕ → Str) (now : ℤ) (a : MessageAttachment) (content : Str)
    → lookup channel_id s.channel_type_by_id ≡ some channel_type_text
    → 0 < s.max_attachments_per_message
    → build_attachment p s channel_id upload (ids 0) ≡ ok (a, content)
    → is_nil (trim_space reply_to_message_id) ≡ false
    → find_message_by_id s channel_id (trim_space reply_to_message_id) ≡ none
    → let o =
        create_message p s channel_id author_uid body (upload ∷ []) reply_to_message_id ids now in
      (o.result ≡ err reply_target_not_found)
      × (lookup a.attachment_id o.state.attachments_by_id
          ≡ some (record { metadata = a; channel_id = channel_id; content = content }))
create_message_leaks p s channel_id author_uid body upload reply_to_message_id ids now a content t
      few e r f =
    let o =
      leak_checked p s channel_id author_uid body upload reply_to_message_id ids now t few
      ∙ leak_stored p s channel_id author_uid (trim_space body) upload
          (trim_space reply_to_message_id) ids now a content e r f in
    (
      ap (λ (x : Outcome). x.result) o,
      ap (λ (x : Outcome). lookup a.attachment_id x.state.attachments_by_id) o
          ∙ lookup-store_attachment s channel_id a content a.attachment_id
          ∙ rw (==_refl a.attachment_id),
    )
