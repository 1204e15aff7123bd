-- ===== src/Api/Router/History.antt =====
-- What every history of requests keeps true (internal/api/router.go).
use openchat_backend.Chat.Sending.Valid.{
  IsValid, create_message-IsValid, leave_server-IsValid, set_broadcaster-IsValid,
}
use openchat_backend.Chat.Sending.History.{new_service-IsValid}
use openchat_backend.Profile.Operations.History.{new_service-IsConsistent}
use openchat_backend.Profile.Operations.Consistent.{
  IsConsistent, get_or_create_locked-IsConsistent, update-IsConsistent, batch_from-IsConsistent,
  same_profiles-IsConsistent, upload_avatar-IsConsistent,
}
use openchat_backend.Api.Router.Identity.{unauthorized, served, serve-IsServedFor}
use openchat_backend.Api.Router.Cases.{
  IsHandled, answered, sent, departed, looked_up, changed, stored, listed, handle_authed-IsHandled,
}
use openchat_backend.Profile
use openchat_backend.Api
use openchat_backend.Api.Router.{
  Request, options, healthz, get_capabilities, list_servers, list_channel_groups, list_members,
  list_messages, get_message_attachment, get_profile_avatar, authed, serve, new_server,
}
use openchat_backend.Api.Types.{Server, Served}
use openchat_backend.Api.Requester.{with_requester_context, uid_of}
use openchat_backend.Api.Tickets.{Context}
use openchat_backend.App.Config.{Config}
use openchat_backend.Base.{refl, inl, inr, some, List, [], ◌∷◌, Bool-cases, is_nil, Str, ℤ}

-- The messages and the profiles of a server are in order.
pub record IsOrderly (s : Server) : Type 0 where
  pub chat : IsValid s.chat
  pub profiles : IsConsistent s.profiles

module _ (x : Context) (s : Server) (h : IsOrderly s) where
  IsHandled-IsOrderly : (user_uid : Str) (o : Served) → IsHandled x s user_uid o → IsOrderly o.state
  unfolding Profile.Operations.get_or_create Profile.Operations.batch_get
  IsHandled-IsOrderly user_uid o (answered response e) = rw e h
  IsHandled-IsOrderly user_uid o (sent channel_id payload ids now e) = rw e (record {
    chat =
        create_message-IsValid x.platform s.chat channel_id user_uid payload.body payload.uploads
          payload.reply_to_message_id ids now h.chat;
    profiles = h.profiles;
  })
  IsHandled-IsOrderly user_uid o (departed server_id now response e) = rw e (record {
    chat = leave_server-IsValid s.chat server_id user_uid now h.chat;
    profiles = h.profiles;
  })
  IsHandled-IsOrderly user_uid o (looked_up now response e) = rw e (record {
    chat = h.chat;
    profiles = get_or_create_locked-IsConsistent x.platform s.profiles _ now h.profiles;
  })
  IsHandled-IsOrderly user_uid o (changed input version now e) = rw e (record {
    chat = h.chat;
    profiles = update-IsConsistent x.platform s.profiles user_uid input version now h.profiles;
  })
  IsHandled-IsOrderly user_uid o (stored content_type bytes uuid e) = rw e (record {
    chat = h.chat;
    profiles = upload_avatar-IsConsistent x.platform s.profiles content_type bytes uuid h.profiles;
  })
  IsHandled-IsOrderly user_uid o (listed user_uids clock response e) = rw e (record {
    chat = h.chat;
    profiles = batch_from-IsConsistent x.platform s.profiles [] clock 0 user_uids h.profiles;
  })

  serve-IsOrderly : (request : Request) → IsOrderly (serve x request s).state
  unfolding serve with_requester_context Api.Channels.list_servers
  serve-IsOrderly options = h
  serve-IsOrderly healthz = h
  serve-IsOrderly (get_capabilities now) = h
  serve-IsOrderly (list_servers headers) = elim (Bool-cases (is_nil (uid_of x.platform headers))) [
    | inl blank ↦ rw blank h
    | inr own ↦ rw own h
  ]
  serve-IsOrderly (list_channel_groups server_id) = h
  serve-IsOrderly (list_members server_id) = h
  serve-IsOrderly (list_messages channel_id limit) = h
  serve-IsOrderly (get_message_attachment channel_id attachment_id) = h
  serve-IsOrderly (get_profile_avatar asset_id) = h
  serve-IsOrderly (authed headers request) = elim (serve-IsServedFor x headers request s) [
    | unauthorized strict blank e ↦ rw e h
    | served requester user device own strict same e ↦ rw e (
        IsHandled-IsOrderly requester.user_uid _
          (handle_authed-IsHandled x s (some requester) request))
  ]

unfoldable pub run : Context → Server → List Request → Server
run x s [] = s
run x s (request ∷ requests) = run x (serve x request s).state requests

run-IsOrderly :
    (x : Context) (s : Server) (requests : List Request)
    → IsOrderly s
    → IsOrderly (run x s requests)
unfolding run
run-IsOrderly x s [] h = h
run-IsOrderly x s (request ∷ requests) h =
    run-IsOrderly x (serve x request s).state requests (serve-IsOrderly x s h request)

new-IsOrderly :
    (x : Context) (cfg : Config) (now asked : ℤ) → IsOrderly (new_server x cfg now asked)
unfolding new_server Profile.Operations.set_broadcaster
new-IsOrderly x cfg now asked = record {
  chat = set_broadcaster-IsValid _ _ (new_service-IsValid x.platform cfg.public_base_url now);
  profiles =
      same_profiles-IsConsistent _ _ refl refl refl
        (new_service-IsConsistent cfg.public_base_url _);
}

-- After any history of requests to a new server, whoever makes them, the messages and the profiles are
-- in order: each message stands in the text channel that it names, is not empty and has at most four
-- attachments, and each profile stands under its own user, with either a preset or an uploaded asset
-- that the service stores and its URL.
pub run-new_server-IsOrderly :
    (x : Context) (cfg : Config) (now asked : ℤ) (requests : List Request)
    → IsOrderly (run x (new_server x cfg now asked) requests)
run-new_server-IsOrderly x cfg now asked requests =
    run-IsOrderly x _ requests (new-IsOrderly x cfg now asked)
