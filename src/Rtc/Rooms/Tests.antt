-- ===== src/Rtc/Rooms/Tests.antt =====
-- Tests of roomHub (internal/rtc/signaling_service.go), and its theorems at a call of two.
use openchat_backend.Rtc.Rooms.Filed.{
  IsFiled, run, join, Call, run-new_room_hub-IsFiled, broadcast-All, step,
}
use openchat_backend.Rtc.Rooms.{RoomHub, new_room_hub, register, broadcast, except_member}
use openchat_backend.Rtc.Types.{Participant}
use openchat_backend.Strings.{strings}
use openchat_backend.Base.{◌≡◌, refl, ◌≢◌, true, false, List, [], ◌∷◌, is_nil, All, Str, str, pos}
use openchat_backend.Base.Map.{lookup, insert}

abbrev voice : Str
voice = str "voice"

abbrev member : Str → Participant
member id = record {
  participant_id = id;
  channel_id = voice;
  user_uid = id;
  device_id = str "d";
  permissions = record { speak = true; video = true; screenshare = false };
  joined_at = pos 0;
}

abbrev calls : List Call
calls = join (member (str "p1")) ∷ join (member (str "p2")) ∷ []

abbrev hub : RoomHub
hub = run new_room_hub calls

run-new_room_hub-IsFiled_example : IsFiled hub
run-new_room_hub-IsFiled_example = run-new_room_hub-IsFiled calls

hub-IsFiled : IsFiled hub
hub-IsFiled = run-new_room_hub-IsFiled calls

named : is_nil (str "p1") ≡ false
unfolding str
named = refl

broadcast-All_example :
    All
      (λ (p : Participant). (p.channel_id ≡ voice) × (p.participant_id ≢ str "p1"))
      (broadcast hub voice (str "p1"))
broadcast-All_example = broadcast-All hub voice (str "p1") hub-IsFiled named

only_the_other : broadcast hub voice (str "p1") ≡ member (str "p2") ∷ []
unfolding strings broadcast except_member run step new_room_hub register lookup insert
only_the_other = refl
