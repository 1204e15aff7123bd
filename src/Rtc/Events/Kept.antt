-- ===== src/Rtc/Events/Kept.antt =====
-- A message of any client, open or closed, leaves a sound state sound, unless it panics
-- (internal/rtc/signaling_service.go).
use openchat_backend.Rtc.Events.Dispatch.{handle_envelope-cases}
use openchat_backend.Rtc.Events.Safety.{
  Keeps, Goes-Keeps, send_own-Keeps, send_error-Keeps, send_room-Keeps,
}
use openchat_backend.Rtc.Events.{
  PayloadReader, relay_media_state, forward_signal, handle_envelope, media_denied, payload_object,
  text_at,
}
use openchat_backend.Rtc.Signaling.Closing.{IsBusy, close_connection-IsSound}
use openchat_backend.Rtc.Signaling.Sound.{IsSound}
use openchat_backend.Rtc.Signaling.{Signaling, Envelope, text, close_connection}
use openchat_backend.Rtc.Rooms.{send_to_participant}
use openchat_backend.Rtc.Types.{Participant}
use openchat_backend.Strings.{trim_space}
use openchat_backend.Base.{inl, inr, true, false, [], Bool-cases, Option-cases, is_nil, Str, str}
use openchat_backend.Base.Map.{insert}

module _ (r : PayloadReader) (s : Signaling) (id : Str) (self : Participant)
    (sound : IsSound s) where
  relay_media_state-Keeps : (envelope : Envelope) → Keeps (relay_media_state r s id self envelope)
  unfolding relay_media_state
  relay_media_state-Keeps envelope =
      elim (Bool-cases (
        media_denied self.permissions
          (trim_space (text_at (str "stream_kind") (payload_object r envelope.payload))))) [
            | inl denied ↦
                rw (denied, relay_media_state)
                  (send_error-Keeps s id self envelope.request_id (str "rtc_media_denied") false
                    sound)
            | inr allowed ↦
                rw (allowed, relay_media_state) (send_room-Keeps s self.channel_id [] _ sound)
          ]

  forward_signal-Keeps : (envelope : Envelope) → Keeps (forward_signal r s id self envelope)
  unfolding forward_signal
  forward_signal-Keeps envelope =
      let target_id = trim_space (
        text_at (str "target_participant_id") (
          insert (str "from_participant_id") (text self.participant_id)
            (payload_object r envelope.payload))) in
      elim (Bool-cases (is_nil target_id)) [
        | inl blank ↦
            rw (blank, forward_signal)
              (send_room-Keeps s self.channel_id self.participant_id _ sound)
        | inr named ↦
            elim (Option-cases (send_to_participant s.service.rooms self.channel_id target_id)) [
              | inl e ↦
                  rw (named, forward_signal)
                    (rw (e, forward_signal)
                      (send_error-Keeps s id self envelope.request_id (str "rtc_target_not_found")
                        true sound))
              | inr (target, e) ↦
                  rw (named, forward_signal)
                    (rw (e, forward_signal) (send_own-Keeps s target.participant_id _ sound))
            ]
      ]

  pub handle_envelope-Keeps :
      (ts : Str) (envelope : Envelope)
      → IsBusy s.connections id
      → Keeps (handle_envelope r ts s id self envelope)
  handle_envelope-Keeps ts envelope busy =
      handle_envelope-cases Keeps r ts s id self envelope (send_own-Keeps s id _ sound)
        (Goes-Keeps (close_connection s id) (close_connection-IsSound s id sound busy))
        (relay_media_state-Keeps envelope) (λ _. forward_signal-Keeps envelope)
        (send_error-Keeps s id self envelope.request_id (str "rtc_unknown_event") false sound)
