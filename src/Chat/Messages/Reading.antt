-- ===== src/Chat/Messages/Reading.antt =====
-- What ListMessages shows of a channel (internal/chat/service.go).
use openchat_backend.Chat.Sending.Results.{create_message_sent, create_message-channel}
use openchat_backend.Base.{
  refl, zero, ℕ, ◌-◌, ◌<◌, min, ◌≡◌, sym, ap, ◌∙◌, List, ◌++◌, arith, length, take, drop,
  length-drop, take-append-drop, Str, pos, ok, ℤ, suc, ◌∷◌, [], ◌≤◌, some, length-append,
}
use openchat_backend.Chat.Sending.{messages_of, clone_messages_lem}
use openchat_backend.Chat.Messages.{
  list_messages, Service, Message, shown, Platform, AttachmentUploadInput, create_message, lookup,
  channel_type_text,
}

-- With a positive limit the newest messages are shown, oldest first, as many as the limit allows.
pub list_messages_recent :
    (s : Service) (channel_id : Str) (n : ℕ) (shown_messages : List Message)
    → 0 < n
    → list_messages s channel_id (pos n) ≡ ok shown_messages
    → (length shown_messages ≡ min n (length (messages_of s channel_id)))
      × (older : List Message) × (older ++ shown_messages ≡ messages_of s channel_id)
unfolding list_messages
list_messages_recent s channel_id n shown_messages pos_n h =
    let all = messages_of s channel_id in
    let start = length all - shown (pos n) (length all) in
    let same : drop start all ≡ shown_messages = sym (clone_messages_lem _) ∙ ground arith in
    (
      ap length (sym same) ∙ length-drop start all ∙ ground arith,
      take start all,
      ap (λ ms. take start all ++ ms) (sym same) ∙ take-append-drop start all,
    )

drop_all : (xs : List Message) → drop (length xs) xs ≡ []
drop_all [] = refl
drop_all (x ∷ xs) = drop_all xs

none_left : (xs : List Message) → length xs - 0 ≡ length xs
none_left xs = omega arith

drop-append_one :
    (k : ℕ) (xs : List Message) (m : Message)
    → k ≤ length xs
    → drop k (xs ++ m ∷ []) ≡ drop k xs ++ m ∷ []
drop-append_one zero xs m h = refl
drop-append_one (suc k) [] m h = absurd (omega arith)
drop-append_one (suc k) (x ∷ xs) m h = drop-append_one k xs m (omega arith)

list_messages_last :
    (s : Service) (channel_id : Str) (ms : List Message) (m : Message) (n : ℕ)
    → messages_of s channel_id ≡ ms ++ m ∷ []
    → lookup channel_id s.channel_type_by_id ≡ some channel_type_text
    → list_messages s channel_id (pos (suc n)) ≡ ok (drop (length ms - n) ms ++ m ∷ [])
unfolding list_messages
list_messages_last s channel_id ms m n e t =
    rw (t, list_messages)
      (ap ok (
        clone_messages_lem _
        ∙ rw e (rw (start_lem) (drop-append_one (length ms - n) ms m (omega arith)))))
  where
    start_lem : length (ms ++ m ∷ []) - shown (pos (suc n)) (length (ms ++ m ∷ [])) ≡ length ms - n
    start_lem = ground (arith, length-append ms (m ∷ []))

-- Of a text channel ListMessages shows the last messages, for a limit that is not zero.
list_messages_shown :
    (s : Service) (channel_id : Str) (n : ℕ)
    → lookup channel_id s.channel_type_by_id ≡ some channel_type_text
    → 0 < n
    → list_messages s channel_id (pos n)
      ≡ ok (drop (length (messages_of s channel_id) - n) (messages_of s channel_id))
unfolding list_messages
list_messages_shown s channel_id n t some_limit =
    rw (t, list_messages)
      (ap ok (clone_messages_lem _ ∙ ap (λ k. drop k (messages_of s channel_id)) start_lem))
  where
    start_lem :
        length (messages_of s channel_id) - shown (pos n) (length (messages_of s channel_id))
        ≡ length (messages_of s channel_id) - n
    start_lem = ground arith

-- After a message was sent, a limit of one shows that message alone, and a limit one higher than a
-- positive one shows what that one showed before, followed by the message.
pub list_messages-create_message :
    (p : Platform) (s : Service) (channel_id author_uid body : Str)
    (uploads : List AttachmentUploadInput) (reply_to_message_id : Str) (ids : ℕ → Str) (now : ℤ)
    (m : Message) (n : ℕ)
    → 0 < n
    → (create_message p s channel_id author_uid body uploads reply_to_message_id ids now).result
      ≡ ok m
    → (list_messages
          (create_message p s channel_id author_uid body uploads reply_to_message_id ids now).state
          channel_id
          (pos 1)
        ≡ ok (m ∷ []))
      × (before : List Message) × (list_messages s channel_id (pos n) ≡ ok before)
      × (list_messages
            (create_message p s channel_id author_uid body uploads reply_to_message_id ids
              now).state
            channel_id
            (pos (suc n))
          ≡ ok (before ++ m ∷ []))
list_messages-create_message p s channel_id author_uid body uploads reply_to_message_id ids now m n
      some_limit h =
    let call = create_message p s channel_id author_uid body uploads reply_to_message_id ids now in
    let sent =
      create_message_sent p s channel_id author_uid body uploads reply_to_message_id ids now m h in
    let (text, text_before) =
      create_message-channel p s channel_id author_uid body uploads reply_to_message_id ids now m
        h in
    let old = messages_of s channel_id in
    (
      list_messages_last call.state channel_id old m 0 sent.0 text
          ∙ ap (λ ms. ok (ms ++ m ∷ [])) (ap (λ k. drop k old) (none_left old) ∙ drop_all old),
      drop (length old - n) old,
      list_messages_shown s channel_id n text_before some_limit,
      list_messages_last call.state channel_id old m n sent.0 text,
    )
