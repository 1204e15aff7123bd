-- ===== src/Rtc/Reader/Relay.antt =====
-- What one client's messages make the others see (internal/rtc/signaling_service.go).
use openchat_backend.Rtc.Events.Dispatch.{handle_envelope-cases}
use openchat_backend.Rtc.Signaling.Deliveries.{
  Delivers, send_own-Delivers, send_room-Delivers, close_connection-Delivers,
}
use openchat_backend.Rtc.Signaling.{
  Signaling, Connection, Envelope, Outgoing, Payload, Value, text, object, participant_left,
  send_error,
}
use openchat_backend.Rtc.Events.{
  PayloadReader, relay_media_state, forward_signal, handle_envelope, media_denied, payload_object,
  text_at, signed_fields, forwarded, is_signal,
}
use openchat_backend.Rtc.Rooms.{send_to_participant}
use openchat_backend.Rtc.Types.{Participant}
use openchat_backend.Strings.{trim_space}
use openchat_backend.Base.{
  some_eq, ◌≡◌, refl, sym, ap, ◌∙◌, ◌≢◌, inl, inr, Bool, true, false, some, [], Bool-cases,
  Option-cases, is_nil, Str, str, ◌==◌,
}
use openchat_backend.Base.Map.{Map, lookup, insert, lookup-insert_self, lookup-insert_ne}

-- A message that speaks for a participant: media states name the participant and the user, forwarded
-- signals name the participant, and a departure is the participant's own.
abbrev pub SpeaksFor : Participant → Str → Payload → Type 0
SpeaksFor self type (object fields) =
    (type ≡ str "rtc.media.state"
      → (lookup (str "participant_id") fields ≡ some (text self.participant_id))
        × (lookup (str "user_uid") fields ≡ some (text self.user_uid)))
    × (type ≢ str "rtc.media.state"
        → lookup (str "from_participant_id") fields ≡ some (text self.participant_id))
SpeaksFor self type (participant_left p) = p ≡ self
SpeaksFor self type _ = Unit {0}

abbrev pub IsAuthentic : Participant → Outgoing → Type 0
IsAuthentic self m = SpeaksFor self m.type m.payload

other_key : str "user_uid" ≢ str "participant_id"
unfolding str
other_key e = cc e

signed_fields_lem :
    (self : Participant) (fields : Map Value)
    → (lookup (str "participant_id") (signed_fields self fields) ≡ some (text self.participant_id))
      × (lookup (str "user_uid") (signed_fields self fields) ≡ some (text self.user_uid))
unfolding signed_fields
signed_fields_lem self fields = (
  lookup-insert_ne (str "user_uid") (str "participant_id") _ _ other_key
      ∙ lookup-insert_self (str "participant_id") _ fields,
  lookup-insert_self (str "user_uid") _ _,
)

not_media : (type : Str) → is_signal type ≡ true → type ≢ str "rtc.media.state"
unfolding str ◌==◌
not_media type s e = cc (rw e at s)

module _ (r : PayloadReader) (s : Signaling) (id : Str) (self : Participant) where
  send_error-Delivers :
      (request_id code : Str) (retryable : Bool)
      → Delivers (IsAuthentic self) s (send_error s id self request_id code retryable)
  unfolding send_error
  send_error-Delivers request_id code retryable = send_own-Delivers (IsAuthentic self) s id _ tt

  relay_media_state-Delivers :
      (envelope : Envelope) → Delivers (IsAuthentic self) s (relay_media_state r s id self envelope)
  unfolding relay_media_state
  relay_media_state-Delivers envelope =
      elim (Bool-cases (
        media_denied self.permissions
          (trim_space (text_at (str "stream_kind") (payload_object r envelope.payload))))) [
            | inl denied ↦
                rw (denied, relay_media_state)
                  (send_error-Delivers envelope.request_id (str "rtc_media_denied") false)
            | inr allowed ↦
                rw (allowed, relay_media_state)
                  (send_room-Delivers (IsAuthentic self) s self.channel_id [] _ (
                    (λ _. signed_fields_lem self (payload_object r envelope.payload)),
                    λ other. absurd (other refl),
                  ))
          ]

  forward_signal-Delivers :
      (envelope : Envelope)
      → is_signal envelope.type ≡ true
      → Delivers (IsAuthentic self) s (forward_signal r s id self envelope)
  unfolding forward_signal
  forward_signal-Delivers envelope signal =
      let authentic : IsAuthentic self
          (forwarded self envelope (payload_object r envelope.payload)) =
        (
          (λ e. absurd (not_media envelope.type signal e)),
          λ _.
              lookup-insert_self (str "from_participant_id") (text self.participant_id)
                (payload_object r envelope.payload),
        ) in
      let target_id = trim_space (
        text_at (str "target_participant_id") (
          insert (str "from_participant_id") (text self.participant_id)
            (payload_object r envelope.payload))) in
      elim (Bool-cases (is_nil target_id)) [
        | inl blank ↦
            rw (blank, forward_signal)
              (send_room-Delivers (IsAuthentic self) s self.channel_id self.participant_id _
                authentic)
        | inr named ↦
            elim (Option-cases (send_to_participant s.service.rooms self.channel_id target_id)) [
              | inl e ↦
                  rw (named, forward_signal)
                    (rw (e, forward_signal)
                      (send_error-Delivers envelope.request_id (str "rtc_target_not_found") true))
              | inr (target, e) ↦
                  rw (named, forward_signal)
                    (rw (e, forward_signal)
                      (send_own-Delivers (IsAuthentic self) s target.participant_id _ authentic))
            ]
      ]

  -- Whatever a client that has joined sends, and to whomever it goes, it is seen under that client's
  -- own ids: each client's queue grows at its end, within its capacity, by messages that speak for the
  -- sender, whatever ids the payload held.
  pub handle_envelope-Delivers :
      (ts : Str) (envelope : Envelope) (c : Connection)
      → lookup id s.connections ≡ some c
      → c.participant ≡ self
      → Delivers (IsAuthentic self) s (handle_envelope r ts s id self envelope)
  handle_envelope-Delivers ts envelope me known same =
      handle_envelope-cases (Delivers (IsAuthentic self) s) r ts s id self envelope
        (send_own-Delivers (IsAuthentic self) s id _ tt)
        (close_connection-Delivers (IsAuthentic self) s id
          (λ x e. ap (λ (y : Connection). y.participant) (some_eq (sym e ∙ known)) ∙ same))
        (relay_media_state-Delivers envelope) (forward_signal-Delivers envelope)
        (send_error-Delivers envelope.request_id (str "rtc_unknown_event") false)
