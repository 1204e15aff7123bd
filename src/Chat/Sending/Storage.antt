-- ===== src/Chat/Sending/Storage.antt =====
-- The attachments that CreateMessage stores, against AttachmentContent (internal/chat/service.go).
use openchat_backend.Chat.Sending.{
  ok-injective, clone_message_lem, Error, create_message-Checked, turned_away, let_through,
}
use openchat_backend.Strings.{trim_space}
use openchat_backend.Platform.{Platform}
use openchat_backend.Chat.Messages.{
  store_attachment, store_uploads, finish_message, append_message, resolve_reply, upload_and_finish,
  create_message, Outcome,
}
use openchat_backend.Chat.Types.{
  Service, AttachmentUploadInput, MessageAttachment, Message, attachment_not_found,
}
use openchat_backend.Chat.Attachments.{short_id, build_attachment, attachment_content}
use openchat_backend.Base.{
  ℕ, suc, ◌+◌, ◌≤◌, ◌<◌, ◌≡◌, refl, sym, ◌∙◌, ◌≢◌, inl, inr, false, some, List, [], ◌∷◌, ◌++◌,
  arith, if◌then◌else◌, is_nil, length, Str, str, ◌==◌, ==_refl, ==_ne, ok, Result-cases,
  append-nil, append_assoc, subst, ℤ, Bool-cases, ◌&&◌, ap, Result, err, ==_iff,
}
use openchat_backend.Base.Map.{lookup, lookup-insert}

abbrev pub attachment_id_of : Str → Str
attachment_id_of uuid = short_id (str "att_") uuid

-- An upload that is accepted gets its name from the UUID and keeps its bytes.
build_attachment_lem :
    (p : Platform) (s : Service) (channel_id : Str) (upload : AttachmentUploadInput) (uuid : Str)
    (a : MessageAttachment) (content : Str)
    → build_attachment p s channel_id upload uuid ≡ ok (a, content)
    → (a.attachment_id ≡ attachment_id_of uuid) × (content ≡ upload.content)
unfolding build_attachment
build_attachment_lem p s channel_id upload uuid a content h = ground arith

-- Each attachment is read back from the channel with the bytes of its upload, and not found in any
-- other channel.
abbrev pub IsRead : Service → Str → MessageAttachment → Str → Type 0
IsRead s channel_id a content =
    (attachment_content s channel_id a.attachment_id ≡ ok (a, content))
    × ((c : Str)
        → trim_space c ≢ channel_id
        → attachment_content s c a.attachment_id ≡ err attachment_not_found)

abbrev pub Readable : Service → Str → List MessageAttachment → List AttachmentUploadInput → Type 0
Readable s channel_id [] [] = Unit
Readable s channel_id (a ∷ as') (u ∷ us) =
    IsRead s channel_id a u.content × Readable s channel_id as' us
Readable s channel_id _ _ = ⊥

pub lookup-store_attachment :
    (s : Service) (channel_id : Str) (a : MessageAttachment) (content k : Str)
    → lookup k (store_attachment s channel_id a content).attachments_by_id ≡ (
        if a.attachment_id == k
        then some (record { metadata = a; channel_id = channel_id; content = content })
        else lookup k s.attachments_by_id)
unfolding store_attachment
lookup-store_attachment s channel_id a content k =
    lookup-insert a.attachment_id k _ s.attachments_by_id

module _ (p : Platform) (channel_id : Str) (ids : ℕ → Str) where
  -- An attachment whose name is none of the new ones stays as it is.
  store_uploads-lookup :
      (uploads : List AttachmentUploadInput) (s : Service) (n : ℕ)
      (attachments : List MessageAttachment) (k : Str)
      → ((i : ℕ) → n ≤ i → i < n + length uploads → attachment_id_of (ids i) ≢ k)
      → lookup k (store_uploads p s channel_id ids n attachments uploads).0.attachments_by_id
        ≡ lookup k s.attachments_by_id
  unfolding store_uploads
  store_uploads-lookup [] s n attachments k h = refl
  store_uploads-lookup (upload ∷ uploads) s n attachments k h =
      elim (Result-cases (build_attachment p s channel_id upload (ids n))) [
        | inl ((a, content), e) ↦
            let (named, _) = build_attachment_lem p s channel_id upload (ids n) a content e in
            rw (e, store_uploads)
              (store_uploads-lookup uploads (store_attachment s channel_id a content) (suc n)
                  (attachments ++ a ∷ []) k (λ i l r. h i (omega arith) (omega arith))
                ∙ lookup-store_attachment s channel_id a content k
                ∙ rw (
                    ==_ne a.attachment_id k (λ q. h n (omega arith) (omega arith) (sym named ∙ q))))
        | inr (e, d) ↦ rw (d, store_uploads)
      ]

  IsRead_lem :
      (s : Service) (a : MessageAttachment) (content : Str)
      → trim_space channel_id ≡ channel_id
      → is_nil channel_id ≡ false
      → trim_space a.attachment_id ≡ a.attachment_id
      → is_nil a.attachment_id ≡ false
      → lookup a.attachment_id s.attachments_by_id
        ≡ some (record { metadata = a; channel_id = channel_id; content = content })
      → IsRead s channel_id a content
  unfolding attachment_content
  IsRead_lem s a content tc nc ta na h = (
    ground (arith, ==_refl channel_id),
    λ c d.
        ground
          (arith, ==_iff channel_id (trim_space c), λ (e : channel_id ≡ trim_space c). d (sym e)),
  )

  pub store_uploads_step :
      (uploads : List AttachmentUploadInput) (s : Service) (n : ℕ)
      (attachments : List MessageAttachment) (upload : AttachmentUploadInput)
      (a : MessageAttachment) (content : Str)
      → build_attachment p s channel_id upload (ids n) ≡ ok (a, content)
      → store_uploads p s channel_id ids n attachments (upload ∷ uploads)
        ≡ store_uploads p
            (store_attachment s channel_id a content)
            channel_id
            ids
            (suc n)
            (attachments ++ a ∷ [])
            uploads
  unfolding store_uploads
  store_uploads_step uploads s n attachments upload a content e = rw (e, store_uploads)

  store_uploads-Readable :
      (uploads : List AttachmentUploadInput) (s : Service) (n : ℕ)
      (attachments all : List MessageAttachment)
      → trim_space channel_id ≡ channel_id
      → is_nil channel_id ≡ false
      → ((i : ℕ)
          → i < n + length uploads
          → trim_space (attachment_id_of (ids i)) ≡ attachment_id_of (ids i))
      → ((i j : ℕ)
          → i < j
          → j < n + length uploads
          → attachment_id_of (ids i) ≢ attachment_id_of (ids j))
      → (store_uploads p s channel_id ids n attachments uploads).1 ≡ ok all
      → (new : List MessageAttachment) × (all ≡ attachments ++ new)
        × Readable (store_uploads p s channel_id ids n attachments uploads).0 channel_id new uploads
  unfolding store_uploads
  store_uploads-Readable [] s n attachments all tc nc ti d h =
      ([], ground (arith, append-nil attachments), tt)
  store_uploads-Readable (upload ∷ uploads) s n attachments all tc nc ti d h =
      elim (Result-cases (build_attachment p s channel_id upload (ids n))) [
        | inl ((a, content), e) ↦
            let (named, bytes) = build_attachment_lem p s channel_id upload (ids n) a content e in
            let (new, whole, rest) =
              store_uploads-Readable uploads (store_attachment s channel_id a content) (suc n)
                (attachments ++ a ∷ []) all tc nc (λ i l. ti i (omega arith))
                (λ i j l r. d i j l (omega arith)) (rw (e, store_uploads) at h) in
            (
              a ∷ new,
              whole ∙ append_assoc attachments (a ∷ []) new,
              subst
                  (λ (r : Service × Result Error (List MessageAttachment)).
                    Readable r.0 channel_id (a ∷ new) (upload ∷ uploads))
                  (sym (store_uploads_step uploads s n attachments upload a content e))
                  (
                    subst
                        (IsRead
                          (store_uploads p (store_attachment s channel_id a content) channel_id ids
                            (suc n) (attachments ++ a ∷ []) uploads).0
                          channel_id a)
                        bytes
                        (IsRead_lem _ a content tc nc (rw named (ti n (omega arith)))
                          (rw named (unfold str in refl))
                          (store_uploads-lookup uploads (store_attachment s channel_id a content)
                              (suc n) (attachments ++ a ∷ []) a.attachment_id
                              (λ i l r q. d n i (omega arith) (omega arith) (sym named ∙ sym q))
                            ∙ lookup-store_attachment s channel_id a content a.attachment_id
                            ∙ rw (==_refl a.attachment_id))),
                    rest,
                  ),
            )
        | inr (e, w) ↦ absurd (cc (rw (w, store_uploads) at h))
      ]

finish_message_ok :
    (p : Platform) (s : Service) (channel_id author_uid body : Str)
    (attachments : List MessageAttachment) (reply_to_message_id uuid : Str) (now : ℤ) (m : Message)
    → let o =
        finish_message p s channel_id author_uid body attachments reply_to_message_id uuid now in
      o.result ≡ ok m
      → (m.attachments ≡ attachments) × (o.state.attachments_by_id ≡ s.attachments_by_id)
unfolding finish_message append_message
finish_message_ok p s channel_id author_uid body attachments reply_to_message_id uuid now m h =
    elim (Bool-cases (is_nil body && is_nil attachments)) [
      | inl empty ↦ absurd (cc (rw (empty, finish_message) at h))
      | inr full ↦ elim (Result-cases (resolve_reply s channel_id reply_to_message_id)) [
        | inl (reply, e) ↦
            let k = (rw (e, finish_message) at (rw (full, finish_message) at h)) in
            (
              ap (λ (x : Message). x.attachments)
                  (sym (ok-injective (sym (ap ok (clone_message_lem _)) ∙ k))),
              rw (full, finish_message) (rw (e, finish_message)),
            )
        | inr (e, d) ↦ absurd (cc (rw (d, finish_message) at (rw (full, finish_message) at h)))
      ]
    ]

IsRead-same :
    (s t : Service) (channel_id : Str) (a : MessageAttachment) (content : Str)
    → t.attachments_by_id ≡ s.attachments_by_id
    → IsRead s channel_id a content
    → IsRead t channel_id a content
unfolding attachment_content
IsRead-same s t channel_id a content e (here, others) = (rw e here, λ c d. rw e (others c d))

Readable-same :
    (s t : Service) (channel_id : Str) (as' : List MessageAttachment)
    (us : List AttachmentUploadInput)
    → t.attachments_by_id ≡ s.attachments_by_id
    → Readable s channel_id as' us
    → Readable t channel_id as' us
Readable-same s t channel_id [] [] e r = tt
Readable-same s t channel_id (a ∷ as') (u ∷ us) e (r, rs) =
    (IsRead-same s t channel_id a u.content e r, Readable-same s t channel_id as' us e rs)
Readable-same s t channel_id [] (u ∷ us) e r = r
Readable-same s t channel_id (a ∷ as') [] e r = r

upload_and_finish-Readable :
    (p : Platform) (s : Service) (channel_id author_uid body : Str)
    (uploads : List AttachmentUploadInput) (reply_to_message_id : Str) (ids : ℕ → Str) (now : ℤ)
    (m : Message)
    → ((stored : List MessageAttachment)
        → (store_uploads p s channel_id ids 0 [] uploads).1 ≡ ok stored
        → Readable (store_uploads p s channel_id ids 0 [] uploads).0 channel_id stored uploads)
    → (upload_and_finish p s channel_id author_uid body uploads reply_to_message_id ids now).result
      ≡ ok m
    → Readable
        (upload_and_finish p s channel_id author_uid body uploads reply_to_message_id ids now).state
        channel_id
        m.attachments
        uploads
unfolding upload_and_finish
upload_and_finish-Readable p s channel_id author_uid body uploads reply_to_message_id ids now m r
      h =
    elim (Result-cases (store_uploads p s channel_id ids 0 [] uploads).1) [
      | inl (stored, e) ↦
          let (same, kept) =
            finish_message_ok p (store_uploads p s channel_id ids 0 [] uploads).0 channel_id
              author_uid body stored reply_to_message_id (ids (length stored)) now m
              (rw (e, upload_and_finish) at h) in
          rw (e, upload_and_finish)
            (rw same (
              Readable-same (store_uploads p s channel_id ids 0 [] uploads).0 _ channel_id stored
                uploads kept (r stored e)))
      | inr (e, d) ↦ absurd (cc (rw (d, upload_and_finish) at h))
    ]

-- Where the UUIDs give names that are distinct and have no spaces around them, each attachment of a
-- message that was sent to a channel whose id is not blank and has no spaces around it is read back
-- from that channel, with its metadata and the bytes of its upload, in order, and from no other.
pub create_message-Readable :
    (p : Platform) (s : Service) (channel_id author_uid body : Str)
    (uploads : List AttachmentUploadInput) (reply_to_message_id : Str) (ids : ℕ → Str) (now : ℤ)
    (m : Message)
    → trim_space channel_id ≡ channel_id
    → is_nil channel_id ≡ false
    → ((i : ℕ)
        → i < length uploads
        → trim_space (attachment_id_of (ids i)) ≡ attachment_id_of (ids i))
    → ((i j : ℕ) → i < j → j < length uploads → attachment_id_of (ids i) ≢ attachment_id_of (ids j))
    → (create_message p s channel_id author_uid body uploads reply_to_message_id ids now).result
      ≡ ok m
    → Readable
        (create_message p s channel_id author_uid body uploads reply_to_message_id ids now).state
        channel_id
        m.attachments
        uploads
create_message-Readable p s channel_id author_uid body uploads reply_to_message_id ids now m tc nc
      ti d h =
    elim (create_message-Checked p s channel_id author_uid body uploads reply_to_message_id ids
      now) [
        | turned_away e o ↦ absurd (cc (sym (ap (λ (x : Outcome). x.result) o) ∙ h))
        | let_through _ _ o ↦ rw o (
            upload_and_finish-Readable p s channel_id author_uid (trim_space body) uploads
              (trim_space reply_to_message_id) ids now m
              (λ stored e.
                let (new, whole, r) =
                  store_uploads-Readable p channel_id ids uploads s 0 [] stored tc nc
                    (λ i l. ti i (omega arith)) (λ i j l k. d i j l (omega arith)) e in
                rw whole r)
              (sym (ap (λ (x : Outcome). x.result) o) ∙ h))
      ]
