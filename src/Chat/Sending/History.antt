-- ===== src/Chat/Sending/History.antt =====
-- Histories of calls of internal/chat/service.go that change its state.
use openchat_backend.Chat.Directory.{leave_server, set_broadcaster}
use openchat_backend.Base.Map.{lookup, insert, get_or-All}
use openchat_backend.Chat.Sending.Valid.{
  IsValid, create_message-IsValid, leave_server-IsValid, set_broadcaster-IsValid, IsProper,
}
use openchat_backend.Chat.Messages.{create_message}
use openchat_backend.Strings.{strings}
use openchat_backend.Chat.Types.{Service, AttachmentUploadInput, Broadcaster, channel_type_text}
use openchat_backend.Chat.Seed.{new_service, seed_messages}
use openchat_backend.Platform.{Platform}
use openchat_backend.Base.{refl, ℕ, Str, List, ℤ, ◌∷◌, Option, All, [], ◌≢◌, ◌≡◌, some, arith}

pub data Call : Type 0 where
  create :
      (channel_id author_uid body : Str)
      → List AttachmentUploadInput
      → (reply_to_message_id : Str) → (ids : ℕ → Str) → (now : ℤ) → Call
  leave : (server_id user_uid : Str) → (now : ℤ) → Call
  broadcast_to : Option Broadcaster → Call

unfoldable pub step : Platform → Service → Call → Service
step p s (create channel_id author_uid body uploads reply_to_message_id ids now) =
    (create_message p s channel_id author_uid body uploads reply_to_message_id ids now).state
step p s (leave server_id user_uid now) = (leave_server s server_id user_uid now).0
step p s (broadcast_to b) = set_broadcaster s b

unfoldable pub run : Platform → Service → List Call → Service
unfolding step
run p s [] = s
run p s (c ∷ cs) = run p (step p s c) cs

step-IsValid : (p : Platform) (s : Service) (c : Call) → IsValid s → IsValid (step p s c)
unfolding step
step-IsValid p s (create channel_id author_uid body uploads reply_to_message_id ids now) v =
    create_message-IsValid p s channel_id author_uid body uploads reply_to_message_id ids now v
step-IsValid p s (leave server_id user_uid now) v = leave_server-IsValid s server_id user_uid now v
step-IsValid p s (broadcast_to b) v = set_broadcaster-IsValid s b v

run-IsValid : (p : Platform) (s : Service) (cs : List Call) → IsValid s → IsValid (run p s cs)
unfolding run
run-IsValid p s [] v = v
run-IsValid p s (c ∷ cs) v = run-IsValid p (step p s c) cs (step-IsValid p s c v)

pub new_service-IsValid : (p : Platform) (url : Str) (now : ℤ) → IsValid (new_service p url now)
unfolding new_service strings lookup insert
new_service-IsValid p url now = record {
  limit = refl;
  proper =
      get_or-All (λ c ms. All (IsProper 4 c) ms) (seed_messages p now) []
        (unfold seed_messages in
          (
            (
              record { channel = refl; full = refl; few = omega arith },
              (record { channel = refl; full = refl; few = omega arith }, tt),
            ),
            (
              (record { channel = refl; full = refl; few = omega arith }, tt),
              (
                tt,
                (
                  tt,
                  (
                    tt,
                    (
                      tt,
                      (
                        (
                          record { channel = refl; full = refl; few = omega arith },
                          (record { channel = refl; full = refl; few = omega arith }, tt),
                        ),
                        (
                          (record { channel = refl; full = refl; few = omega arith }, tt),
                          (tt, (tt, tt)),
                        ),
                      ),
                    ),
                  ),
                ),
              ),
            ),
          ))
        (λ k. tt);
  in_text =
      get_or-All
        (λ c ms.
          ms ≢ [] → lookup c (new_service p url now).channel_type_by_id ≡ some channel_type_text)
        (seed_messages p now) []
        (unfold seed_messages in
          (
            (λ h. refl),
            (
              (λ h. refl),
              (
                (λ h. absurd (h refl)),
                (
                  (λ h. absurd (h refl)),
                  (
                    (λ h. absurd (h refl)),
                    (
                      (λ h. absurd (h refl)),
                      (
                        (λ h. refl),
                        ((λ h. refl), ((λ h. absurd (h refl)), ((λ h. absurd (h refl)), tt))),
                      ),
                    ),
                  ),
                ),
              ),
            ),
          ))
        (λ k h. absurd (h refl));
}

-- After any history of calls on a new service, each message stands in the channel that it names, is
-- not empty and has at most four attachments, and only text channels have messages.
pub run-new_service-IsValid :
    (p : Platform) (url : Str) (now : ℤ) (cs : List Call)
    → IsValid (run p (new_service p url now) cs)
run-new_service-IsValid p url now cs = run-IsValid p _ cs (new_service-IsValid p url now)
