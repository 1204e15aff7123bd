-- ===== src/Rtc/Events/Media.antt =====
-- What a participant may publish (relayMediaState of internal/rtc/signaling_service.go).
use openchat_backend.Rtc.Events.{
  PayloadReader, relay_media_state, media_denied, payload_object, text_at,
}
use openchat_backend.Rtc.Signaling.Queues.{enqueue_live}
use openchat_backend.Rtc.Signaling.{
  Signaling, Connection, Envelope, Outgoing, error, with_connections, push, send_own, send_error,
}
use openchat_backend.Rtc.Types.{Participant, Permissions}
use openchat_backend.Strings.{trim_space, has_prefix}
use openchat_backend.Base.{
  ◌≡◌, refl, sym, ap, ◌∙◌, subst, ◌≢◌, inl, inr, true, false, not, some, [], ◌∷◌, is_nil, Str, str,
  ◌==◌, ==_ne, ==_cases,
}
use openchat_backend.Base.Map.{lookup, insert, lookup-insert_ne}

-- The kinds of stream that need a permission that is missing.
pub data IsForbidden (permissions : Permissions) (stream_kind : Str) : Type 0 where
  camera :
      stream_kind ≡ str "video_camera"
      → permissions.video ≡ false
      → IsForbidden permissions stream_kind
  screen :
      stream_kind ≡ str "video_screen"
      → permissions.screenshare ≡ false
      → IsForbidden permissions stream_kind
  audio :
      has_prefix stream_kind (str "audio") ≡ true
      → permissions.speak ≡ false
      → IsForbidden permissions stream_kind

camera_is_video : has_prefix (str "video_camera") (str "audio") ≡ false
unfolding has_prefix str
camera_is_video = refl

screen_is_video : has_prefix (str "video_screen") (str "audio") ≡ false
unfolding has_prefix str
screen_is_video = refl

audio_is_named : (s : Str) → has_prefix s (str "audio") ≡ true → is_nil s ≡ false
unfolding has_prefix str
audio_is_named [] h = absurd (cc h)
audio_is_named (b ∷ s) h = refl

camera_denied :
    (permissions : Permissions)
    → media_denied permissions (str "video_camera") ≡ not permissions.video
unfolding media_denied str ◌==◌
camera_denied permissions = refl

screen_denied :
    (permissions : Permissions)
    → media_denied permissions (str "video_screen") ≡ not permissions.screenshare
unfolding media_denied str ◌==◌
screen_denied permissions = refl

denied :
    (permissions : Permissions) (stream_kind : Str)
    → IsForbidden permissions stream_kind
    → media_denied permissions stream_kind ≡ true
unfolding media_denied
denied permissions stream_kind (camera e f) =
    subst (λ k. media_denied permissions k ≡ true) (sym e) (camera_denied permissions ∙ ap not f)
denied permissions stream_kind (screen e f) =
    subst (λ k. media_denied permissions k ≡ true) (sym e) (screen_denied permissions ∙ ap not f)
denied permissions stream_kind (audio e f) = elim (==_cases stream_kind (str "video_camera")) [
  | inl b ↦ absurd (cc (sym e ∙ ap (λ k. has_prefix k (str "audio")) b ∙ camera_is_video))
  | inr b ↦ elim (==_cases stream_kind (str "video_screen")) [
    | inl c ↦ absurd (cc (sym e ∙ ap (λ k. has_prefix k (str "audio")) c ∙ screen_is_video))
    | inr c ↦
        rw (audio_is_named stream_kind e) (rw (==_ne _ _ b) (rw (==_ne _ _ c) (rw e (rw f refl))))
  ]
]

-- A media state for a stream that its sender may not publish, while the sender is open, changes no
-- queue but the sender's own, and no room.
pub relay_media_state_silent :
    (r : PayloadReader) (s : Signaling) (id : Str) (self : Participant) (envelope : Envelope)
    (c : Connection)
    → lookup id s.connections ≡ some c
    → c.closed ≡ false
    → IsForbidden self.permissions
        (trim_space (text_at (str "stream_kind") (payload_object r envelope.payload)))
    → (t : Signaling) × (relay_media_state r s id self envelope ≡ some t)
      × (t.service ≡ s.service)
      × ((k : Str) → id ≢ k → lookup k t.connections ≡ lookup k s.connections)
unfolding relay_media_state send_error send_own
relay_media_state_silent r s id self envelope c known live forbidden =
    let message : Outgoing = record {
      type = str "rtc.error";
      channel_id = self.channel_id;
      request_id = envelope.request_id;
      payload = error (str "rtc_media_denied") false;
    } in
    (
      record s { connections = insert id (push c message) s.connections },
      rw (denied self.permissions _ forbidden, relay_media_state)
          (ap (with_connections s) (enqueue_live s.connections id message c known live)),
      refl,
      λ k other. lookup-insert_ne id k (push c message) s.connections other,
    )
