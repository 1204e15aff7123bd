-- ===== src/Chat/Sending/Results.antt =====
-- What a call of CreateMessage returns, against the state that it leaves.
use openchat_backend.Chat.Sending.{
  messages_of, SameButAttachments, create_message-Ends, refused, sent, append_message_lem,
  trim_space, sent_lem, lookup, channel_type_text, create_message-Checked, turned_away, let_through,
  append_message-keeps,
}
use openchat_backend.Chat.Messages.{Outcome, create_message, to_broadcaster}
use openchat_backend.Chat.Types.{Service, AttachmentUploadInput, Message, Error}
use openchat_backend.Platform.{Platform}
use openchat_backend.Base.{
  ℕ, Str, List, ℤ, ◌≡◌, ok, err, none, subst, sym, ap, ◌++◌, ◌∙◌, ◌∷◌, [], ◌≢◌, length, some,
}

module _ (p : Platform) (s : Service) (channel_id author_uid body : Str)
    (uploads : List AttachmentUploadInput) (reply_to_message_id : Str) (ids : ℕ → Str)
    (now : ℤ) where
  abbrev call : Outcome
  call = create_message p s channel_id author_uid body uploads reply_to_message_id ids now

  -- A message that is returned stands at the end of its channel, behind the messages that were there,
  -- the other channels are as before, it carries the channel, the author and the trimmed body of the
  -- call and as many attachments as there were uploads, and it is what the broadcaster gets if one is
  -- set.
  pub create_message_sent :
      (m : Message)
      → call.result ≡ ok m
      → (messages_of call.state channel_id ≡ messages_of s channel_id ++ m ∷ [])
        × ((c : Str) → c ≢ channel_id → messages_of call.state c ≡ messages_of s c)
        × (call.broadcast ≡ to_broadcaster s.broadcaster m)
        × (m.channel_id ≡ channel_id)
        × (m.author_uid ≡ author_uid)
        × (m.body ≡ trim_space body)
        × (length m.attachments ≡ length uploads)
  create_message_sent m h =
      elim (create_message-Ends p s channel_id author_uid body uploads reply_to_message_id ids
        now) [
          | refused t e _ o ↦ absurd (cc)
          | sent t n keep o channel author text files full ↦
              let (same, here, others, told) = sent_lem s t channel_id n m call keep o h in
              (
                here ∙ ap (λ x. messages_of s channel_id ++ x ∷ []) same,
                others,
                told ∙ ap (to_broadcaster s.broadcaster) same,
                subst (λ (x : Message). x.channel_id ≡ channel_id) same channel,
                subst (λ (x : Message). x.author_uid ≡ author_uid) same author,
                subst (λ (x : Message). x.body ≡ trim_space body) same text,
                subst (λ (x : Message). length x.attachments ≡ length uploads) same files,
              )
        ]

  -- A call that fails leaves every part of the service but the attachments as it was, and nothing
  -- is broadcast.
  pub create_message_refused :
      (e : Error) → call.result ≡ err e → SameButAttachments s call.state × (call.broadcast ≡ none)
  create_message_refused e h =
      elim (create_message-Ends p s channel_id author_uid body uploads reply_to_message_id ids
        now) [
          | refused t _ keep o ↦ (
            subst (λ (x : Outcome). SameButAttachments s x.state) (sym o) keep,
            ap (λ (x : Outcome). x.broadcast) o,
          )
          | sent t n keep o _ _ _ _ _ ↦
              absurd (
                cc (sym (ap (λ (x : Outcome). x.result) o ∙ append_message_lem t channel_id n) ∙ h))
        ]

  -- The channel of a message that was sent is a text channel, before and after.
  pub create_message-channel :
      (m : Message)
      → call.result ≡ ok m
      → (lookup channel_id call.state.channel_type_by_id ≡ some channel_type_text)
        × (lookup channel_id s.channel_type_by_id ≡ some channel_type_text)
  create_message-channel m h =
      elim (create_message-Checked p s channel_id author_uid body uploads reply_to_message_id ids
        now) [
          | turned_away e o ↦ absurd (cc (sym (ap (λ (x : Outcome). x.result) o) ∙ h))
          | let_through text _ _ ↦
              elim (create_message-Ends p s channel_id author_uid body uploads reply_to_message_id
                ids now) [
                  | refused t e keep o ↦ absurd (cc (sym (ap (λ (x : Outcome). x.result) o) ∙ h))
                  | sent t n keep o _ _ _ _ _ ↦ (
                    rw
                        (ap (λ (x : Service). x.channel_type_by_id)
                          (append_message-keeps s t channel_id n call keep o))
                        text,
                    text,
                  )
                ]
        ]
