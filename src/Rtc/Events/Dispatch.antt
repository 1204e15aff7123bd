-- ===== src/Rtc/Events/Dispatch.antt =====
-- A case for every type of message (internal/rtc/signaling_service.go).
use openchat_backend.Rtc.Events.{
  PayloadReader, relay_media_state, forward_signal, handle_envelope, is_signal,
}
use openchat_backend.Rtc.Signaling.{
  Signaling, Envelope, pong, send_own, send_error, close_connection,
}
use openchat_backend.Rtc.Types.{Participant}
use openchat_backend.Base.{◌≡◌, inl, inr, true, false, Option, Bool-cases, Str, str, ◌==◌}

-- What holds of every branch of the switch holds of the handler.
pub handle_envelope-cases :
    (P : Option Signaling → Type 0) (r : PayloadReader) (ts : Str) (s : Signaling) (id : Str)
    (self : Participant) (envelope : Envelope)
    → P (
        send_own s id (record {
          type = str "rtc.pong";
          channel_id = self.channel_id;
          request_id = envelope.request_id;
          payload = pong ts;
        }))
    → P (close_connection s id)
    → P (relay_media_state r s id self envelope)
    → (is_signal envelope.type ≡ true → P (forward_signal r s id self envelope))
    → P (send_error s id self envelope.request_id (str "rtc_unknown_event") false)
    → P (handle_envelope r ts s id self envelope)
unfolding handle_envelope
handle_envelope-cases P r ts s id self envelope ping leave media signal unknown =
    elim (Bool-cases (envelope.type == str "rtc.ping")) [
      | inl a ↦ rw (a, handle_envelope) ping
      | inr a ↦ elim (Bool-cases (envelope.type == str "rtc.leave")) [
        | inl b ↦ rw (a, handle_envelope) (rw (b, handle_envelope) leave)
        | inr b ↦ elim (Bool-cases (envelope.type == str "rtc.media.state")) [
          | inl c ↦
              rw (a, handle_envelope) (rw (b, handle_envelope) (rw (c, handle_envelope) media))
          | inr c ↦ elim (Bool-cases (is_signal envelope.type)) [
            | inl d ↦
                rw (a, handle_envelope)
                  (rw (b, handle_envelope)
                    (rw (c, handle_envelope) (rw (d, handle_envelope) (signal d))))
            | inr d ↦
                rw (a, handle_envelope)
                  (rw (b, handle_envelope)
                    (rw (c, handle_envelope) (rw (d, handle_envelope) unknown)))
          ]
        ]
      ]
    ]
