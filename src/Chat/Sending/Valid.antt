-- ===== src/Chat/Sending/Valid.antt =====
-- The invariant of internal/chat/service.go, over every history of calls from a new service.
use openchat_backend.Chat.Sending.{
  messages_of, lookup, channel_type_text, Platform, AttachmentUploadInput, create_message, Outcome,
  Ends, trim_space, refused, sent, sent_lem, create_message-Checked, turned_away, let_through,
  upload_and_finish-Ends, append_message_lem, append_message-keeps,
}
use openchat_backend.Chat.Directory.{leave_server, set_broadcaster}
use openchat_backend.Chat.Types.{Service, Message, Broadcaster}
use openchat_backend.Base.{
  ℕ, Str, All, ℤ, Option, arith, ◌≡◌, ◌≢◌, is_nil, [], some, ◌∙◌, ◌&&◌, false, length, ◌≤◌, inl,
  inr, ◌++◌, List, ◌∷◌, ==_cases, All-append, ap,
}

-- A message of the channel `c` names it, says something, and keeps to the limit of attachments.
pub record IsProper (most : ℕ) (c : Str) (m : Message) : Type 0 where
  pub channel : m.channel_id ≡ c
  pub full : (is_nil m.body && is_nil m.attachments) ≡ false
  pub few : length m.attachments ≤ most

-- The limit of attachments is four, all messages are proper, and only text channels have any.
pub record IsValid (s : Service) : Type 0 where
  pub limit : s.max_attachments_per_message ≡ 4
  pub proper : (c : Str) → All (IsProper 4 c) (messages_of s c)
  pub in_text :
      (c : Str) → messages_of s c ≢ [] → lookup c s.channel_type_by_id ≡ some channel_type_text

-- What the invariant reads of a service.
IsValid-keep :
    (s t : Service)
    → ((c : Str) → messages_of t c ≡ messages_of s c)
    → t.max_attachments_per_message ≡ s.max_attachments_per_message
    → t.channel_type_by_id ≡ s.channel_type_by_id
    → IsValid s
    → IsValid t
IsValid-keep s t same most types v = record {
  limit = most ∙ v.limit;
  proper = λ c. rw (same c) (v.proper c);
  in_text = λ c h. rw types (v.in_text c (λ e. h (same c ∙ e)));
}

pub leave_server-IsValid :
    (s : Service) (server_id user_uid : Str) (now : ℤ)
    → IsValid s
    → IsValid (leave_server s server_id user_uid now).0
unfolding leave_server
leave_server-IsValid s server_id user_uid now v =
    IsValid-keep s _ (λ c. ground arith) (ground arith) (ground arith) v

pub set_broadcaster-IsValid :
    (s : Service) (b : Option Broadcaster) → IsValid s → IsValid (set_broadcaster s b)
unfolding set_broadcaster
set_broadcaster-IsValid s b v = record { limit = v.limit; proper = v.proper; in_text = v.in_text }

-- A proper message at the end of a text channel keeps the invariant.
IsValid-append :
    (s t : Service) (channel_id : Str) (m : Message)
    → messages_of t channel_id ≡ messages_of s channel_id ++ m ∷ []
    → ((c : Str) → c ≢ channel_id → messages_of t c ≡ messages_of s c)
    → t.max_attachments_per_message ≡ s.max_attachments_per_message
    → t.channel_type_by_id ≡ s.channel_type_by_id
    → lookup channel_id s.channel_type_by_id ≡ some channel_type_text
    → IsProper 4 channel_id m
    → IsValid s
    → IsValid t
IsValid-append s t channel_id m here others most types text fits v = record {
  limit = most ∙ v.limit;
  proper = λ c. elim (==_cases c channel_id) [
    | inl e ↦
        rw (e, here)
          (All-append (IsProper 4 channel_id) (messages_of s channel_id) (m ∷ [])
            (v.proper channel_id) (fits, tt))
    | inr d ↦ rw (others c d) (v.proper c)
  ];
  in_text = λ c h. elim (==_cases c channel_id) [
    | inl e ↦ rw (types, e) text
    | inr d ↦ rw types (v.in_text c (λ e. h (others c d ∙ e)))
  ];
}

-- Whatever the arguments, a call of CreateMessage keeps the invariant, also when it fails.
pub create_message-IsValid :
    (p : Platform) (s : Service) (channel_id author_uid body : Str)
    (uploads : List AttachmentUploadInput) (reply_to_message_id : Str) (ids : ℕ → Str) (now : ℤ)
    → IsValid s
    → IsValid
        (create_message p s channel_id author_uid body uploads reply_to_message_id ids now).state
create_message-IsValid p s channel_id author_uid body uploads reply_to_message_id ids now v =
    elim (create_message-Checked p s channel_id author_uid body uploads reply_to_message_id ids
      now) [
        | turned_away e o ↦ rw o v
        | let_through text few o ↦ rw o (
            go
              (upload_and_finish-Ends p s channel_id author_uid (trim_space body) uploads
                (trim_space reply_to_message_id) ids now)
              text few)
      ]
  where
    go :
        {o : Outcome}
        → Ends s channel_id author_uid (trim_space body) (length uploads) o
        → lookup channel_id s.channel_type_by_id ≡ some channel_type_text
        → length uploads ≤ s.max_attachments_per_message
        → IsValid o.state
    go (refused t e keep o) text few = rw o (
        IsValid-keep s t (λ c. ap (λ x. messages_of x c) keep)
          (ap (λ (x : Service). x.max_attachments_per_message) keep)
          (ap (λ (x : Service). x.channel_type_by_id) keep) v)
    go (sent t m keep o channel author text' files full) text few =
        let done = ap (λ (x : Outcome). x.result) o ∙ append_message_lem t channel_id m in
        let (_, here, others, _) = sent_lem s t channel_id m m _ keep o done in
        let rest = append_message-keeps s t channel_id m _ keep o in
        IsValid-append s _ channel_id m here others
          (ap (λ (x : Service). x.max_attachments_per_message) rest)
          (ap (λ (x : Service). x.channel_type_by_id) rest) text
          (record { channel = channel; full = full; few = rw (files, ← v.limit) few }) v
