-- ===== src/Chat/Sending.antt =====
-- What CreateMessage of internal/chat/service.go does to the messages of the channels.
pub mod Results
pub mod Valid
pub mod History
pub mod Storage
pub mod Leaks
use openchat_backend.Strings.{trim_space}
use openchat_backend.Base.{
  ℕ, suc, ◌≡◌, refl, ap, ◌∙◌, ◌≢◌, inl, inr, false, List, [], ◌∷◌, ◌++◌, Option, none, some, arith,
  is_nil, length, map_self, Str, ℤ, ok, Result-cases, Bool-cases, length-append, ◌&&◌, ◌+◌, subst,
  sym, Option-cases, ◌≤◌, ◌==◌, ltb, Result, ==_iff,
}
use openchat_backend.Base.Map.{get_or, get_or-insert_self, get_or-insert_ne, lookup}
use openchat_backend.Platform.{Platform}
use openchat_backend.Chat.Types.{
  MessageAttachment, Message, MessageReplyReference, AttachmentUploadInput, Service, Error,
  message_empty, channel_type_text, unknown_channel, not_a_text_channel, too_many_attachments,
}
use openchat_backend.Chat.Attachments.{build_attachment}
use openchat_backend.Chat.Messages.{
  clone_message_attachment, clone_message_reply_reference, clone_message, clone_messages, Outcome,
  failed, store_attachment, store_uploads, resolve_reply, to_broadcaster, append_message,
  finish_message, new_message, upload_and_finish, create_message,
}

clone_message_attachment_lem : (a : MessageAttachment) → clone_message_attachment a ≡ a
unfolding clone_message_attachment
clone_message_attachment_lem a = refl

clone_message_reply_reference_lem :
    (r : Option MessageReplyReference) → clone_message_reply_reference r ≡ r
unfolding clone_message_reply_reference
clone_message_reply_reference_lem none = refl
clone_message_reply_reference_lem (some r) = refl

-- A copy has the content of the message.
pub clone_message_lem : (m : Message) → clone_message m ≡ m
unfolding clone_message
clone_message_lem m = λ i. record m {
  reply_to = clone_message_reply_reference_lem m.reply_to i;
  attachments = map_self clone_message_attachment clone_message_attachment_lem m.attachments i;
}

pub clone_messages_lem : (ms : List Message) → clone_messages ms ≡ ms
unfolding clone_messages
clone_messages_lem ms = map_self clone_message clone_message_lem ms

abbrev pub messages_of : Service → Str → List Message
messages_of s channel_id = get_or channel_id s.messages_by_channel []

-- Storing uploads changes the attachments only.
abbrev pub SameButAttachments : Service → Service → Type 0
SameButAttachments s t = t ≡ record s { attachments_by_id = t.attachments_by_id }

SameButAttachments-trans :
    (s t u : Service) → SameButAttachments s t → SameButAttachments t u → SameButAttachments s u
SameButAttachments-trans s t u h k =
    k ∙ ap {B = Service} (λ r. record r { attachments_by_id = u.attachments_by_id }) h

pub store_uploads_keeps :
    (p : Platform) (s : Service) (channel_id : Str) (ids : ℕ → Str) (n : ℕ)
    (attachments : List MessageAttachment) (uploads : List AttachmentUploadInput)
    → SameButAttachments s (store_uploads p s channel_id ids n attachments uploads).0
unfolding store_uploads
store_uploads_keeps p s channel_id ids n attachments [] = refl
store_uploads_keeps p s channel_id ids n attachments (upload ∷ uploads) =
    elim (Result-cases (build_attachment p s channel_id upload (ids n))) [
      | inl ((a, content), e) ↦
          rw (e, store_uploads)
            (SameButAttachments-trans s (store_attachment s channel_id a content) _
              (unfold store_attachment in refl)
              (store_uploads_keeps p (store_attachment s channel_id a content) channel_id ids
                (suc n) (attachments ++ a ∷ []) uploads))
      | inr (e, h) ↦ rw (h, store_uploads)
    ]

pub append_message_lem :
    (s : Service) (channel_id : Str) (m : Message) → (append_message s channel_id m).result ≡ ok m
unfolding append_message
append_message_lem s channel_id m = ap ok (clone_message_lem m)

module _ (s : Service) (channel_id : Str) where
  messages_of-append_message :
      (m : Message)
      → messages_of (append_message s channel_id m).state channel_id
        ≡ messages_of s channel_id ++ m ∷ []
  unfolding append_message
  messages_of-append_message m =
      rw (clone_message_lem m) (
        get_or-insert_self channel_id (messages_of s channel_id ++ m ∷ []) [] s.messages_by_channel)

  messages_of-append_message_ne :
      (m : Message) (c : Str)
      → c ≢ channel_id
      → messages_of (append_message s channel_id m).state c ≡ messages_of s c
  unfolding append_message
  messages_of-append_message_ne m c d = get_or-insert_ne channel_id c _ [] s.messages_by_channel d

  append_message-broadcast :
      (m : Message) → (append_message s channel_id m).broadcast ≡ to_broadcaster s.broadcaster m
  unfolding append_message
  append_message-broadcast m = rw (clone_message_lem m)

pub length-store_uploads :
    (p : Platform) (s : Service) (channel_id : Str) (ids : ℕ → Str) (n : ℕ)
    (attachments : List MessageAttachment) (uploads : List AttachmentUploadInput)
    (stored : List MessageAttachment)
    → (store_uploads p s channel_id ids n attachments uploads).1 ≡ ok stored
    → length stored ≡ length attachments + length uploads
unfolding store_uploads
length-store_uploads p s channel_id ids n attachments [] stored h = ground arith
length-store_uploads p s channel_id ids n attachments (upload ∷ uploads) stored h =
    elim (Result-cases (build_attachment p s channel_id upload (ids n))) [
      | inl ((a, content), e) ↦ omega (
        arith,
        length-append attachments (a ∷ []),
        length-store_uploads p (store_attachment s channel_id a content) channel_id ids (suc n)
            (attachments ++ a ∷ []) uploads stored (rw (e, store_uploads) at h),
      )
      | inr (e, d) ↦ absurd (cc (rw (d, store_uploads) at h))
    ]

-- The two ways in which a call ends. In both the uploads that were accepted stay stored.
module _ (s : Service) (channel_id author_uid body : Str) (files : ℕ) where
  pub data Ends (o : Outcome) : Type 0 where
    refused : (t : Service) (e : Error) → SameButAttachments s t → o ≡ failed t e → Ends o
    sent :
        (t : Service) (m : Message)
        → SameButAttachments s t
        → o ≡ append_message t channel_id m
        → m.channel_id ≡ channel_id
        → m.author_uid ≡ author_uid
        → m.body ≡ body
        → length m.attachments ≡ files
        → (is_nil m.body && is_nil m.attachments) ≡ false
        → Ends o

finish_message-Ends :
    (p : Platform) (s t : Service) (channel_id author_uid body : Str)
    (attachments : List MessageAttachment) (reply_to_message_id uuid : Str) (now : ℤ)
    → SameButAttachments s t
    → Ends s channel_id author_uid body
        (length attachments)
        (finish_message p t channel_id author_uid body attachments reply_to_message_id uuid now)
unfolding finish_message
finish_message-Ends p s t channel_id author_uid body attachments reply_to_message_id uuid now h =
    elim (Bool-cases (is_nil body && is_nil attachments)) [
      | inl empty ↦ refused t message_empty h (rw (empty, finish_message))
      | inr full ↦ elim (Result-cases (resolve_reply t channel_id reply_to_message_id)) [
        | inl (reply, e) ↦
            sent t (new_message p channel_id author_uid body attachments reply uuid now) h
              (rw (full, finish_message) (rw (e, finish_message))) refl refl refl refl full
        | inr (e, d) ↦ refused t e h (rw (full, finish_message) (rw (d, finish_message)))
      ]
    ]

upload_and_finish-Ends :
    (p : Platform) (s : Service) (channel_id author_uid body : Str)
    (uploads : List AttachmentUploadInput) (reply_to_message_id : Str) (ids : ℕ → Str) (now : ℤ)
    → Ends s channel_id author_uid body
        (length uploads)
        (upload_and_finish p s channel_id author_uid body uploads reply_to_message_id ids now)
unfolding upload_and_finish
upload_and_finish-Ends p s channel_id author_uid body uploads reply_to_message_id ids now =
    elim (Result-cases (store_uploads p s channel_id ids 0 [] uploads).1) [
      | inl (attachments, e) ↦
          rw (e, upload_and_finish)
            (subst
              (λ n. Ends s channel_id author_uid body n (
                finish_message p (store_uploads p s channel_id ids 0 [] uploads).0 channel_id
                  author_uid body attachments reply_to_message_id (ids (length attachments)) now))
              (length-store_uploads p s channel_id ids 0 [] uploads attachments e ∙ omega arith)
              (finish_message-Ends p s _ channel_id author_uid body attachments reply_to_message_id
                _ now (store_uploads_keeps p s channel_id ids 0 [] uploads)))
      | inr (e, d) ↦
          refused _ e (store_uploads_keeps p s channel_id ids 0 [] uploads)
            (rw (d, upload_and_finish))
    ]

module _ (p : Platform) (s : Service) (channel_id author_uid body : Str)
    (uploads : List AttachmentUploadInput) (reply_to_message_id : Str) (ids : ℕ → Str)
    (now : ℤ) where
  -- What is checked before anything is stored.
  pub data Checked (o : Outcome) : Type 0 where
    turned_away : (e : Error) → o ≡ failed s e → Checked o
    let_through :
        lookup channel_id s.channel_type_by_id ≡ some channel_type_text
        → length uploads ≤ s.max_attachments_per_message
        → o
          ≡ upload_and_finish p s channel_id author_uid
              (trim_space body)
              uploads
              (trim_space reply_to_message_id)
              ids
              now
        → Checked o

  pub create_message-Checked :
      Checked (create_message p s channel_id author_uid body uploads reply_to_message_id ids now)
  unfolding create_message
  create_message-Checked = elim (Option-cases (lookup channel_id s.channel_type_by_id)) [
    | inl e ↦ turned_away (unknown_channel channel_id) (rw (e, create_message))
    | inr (type, e) ↦ elim (Bool-cases (type == channel_type_text)) [
      | inr other ↦
          turned_away not_a_text_channel (rw (e, create_message) (rw (other, create_message)))
      | inl text ↦ elim (Bool-cases (ltb s.max_attachments_per_message (length uploads))) [
        | inl many ↦
            turned_away too_many_attachments
              (rw (e, create_message) (rw (text, create_message) (rw (many, create_message))))
        | inr few ↦
            let_through (e ∙ ap some ((==_iff type channel_type_text).0 text)) (ground arith)
              (rw (e, create_message) (rw (text, create_message) (rw (few, create_message))))
      ]
    ]
  ]

  pub create_message-Ends :
      Ends s channel_id author_uid
        (trim_space body)
        (length uploads)
        (create_message p s channel_id author_uid body uploads reply_to_message_id ids now)
  create_message-Ends = elim create_message-Checked [
    | turned_away e h ↦ refused s e refl h
    | let_through type few h ↦ rw h (
        upload_and_finish-Ends p s channel_id author_uid (trim_space body) uploads
          (trim_space reply_to_message_id) ids now)
  ]

pub ok-injective : {m n : Message} → ◌≡◌ {A = Result Error Message} (ok m) (ok n) → m ≡ n
ok-injective h = cc

-- The state, the result and the broadcast of a call that appends a message.
pub sent_lem :
    (s t : Service) (channel_id : Str) (m n : Message) (o : Outcome)
    → SameButAttachments s t
    → o ≡ append_message t channel_id m
    → o.result ≡ ok n
    → (m ≡ n)
      × (messages_of o.state channel_id ≡ messages_of s channel_id ++ m ∷ [])
      × ((c : Str) → c ≢ channel_id → messages_of o.state c ≡ messages_of s c)
      × (o.broadcast ≡ to_broadcaster s.broadcaster m)
sent_lem s t channel_id m n o keep h r = (
  ok-injective (sym (ap (λ (x : Outcome). x.result) h ∙ append_message_lem t channel_id m) ∙ r),
  ap (λ (x : Outcome). messages_of x.state channel_id) h
      ∙ messages_of-append_message t channel_id m
      ∙ ap (λ x. messages_of x channel_id ++ m ∷ []) keep,
  λ c d.
      ap (λ (x : Outcome). messages_of x.state c) h
      ∙ messages_of-append_message_ne t channel_id m c d
      ∙ ap (λ x. messages_of x c) keep,
  ap (λ (x : Outcome). x.broadcast) h
      ∙ append_message-broadcast t channel_id m
      ∙ ap (λ (x : Service). to_broadcaster x.broadcaster m) keep,
)

-- Sending touches the messages only.
pub append_message-keeps :
    (s t : Service) (channel_id : Str) (m : Message) (o : Outcome)
    → SameButAttachments s t
    → o ≡ append_message t channel_id m
    → o.state ≡ record s {
      messages_by_channel = o.state.messages_by_channel;
      attachments_by_id = o.state.attachments_by_id;
    }
unfolding append_message
append_message-keeps s t channel_id m o keep h = rw (h, keep)
