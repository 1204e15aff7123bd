-- ===== src/Chat/Directory/Leaving.antt =====
-- Leaving a server, against the directory that a user sees (internal/chat/service.go).
use openchat_backend.Base.{
  ◌≡◌, refl, ◌↔◌, true, false, List, [], ◌∷◌, arith, if◌then◌else◌, is_nil, Str, ◌==◌, ==_iff, ℤ,
  ok, err,
}
use openchat_backend.Base.Map.{Map, insert, get_or, lookup-insert}
use openchat_backend.Chat.Types.{Service}
use openchat_backend.Chat.Directory.{
  not_left, ServerDirectoryEntry, Map, leave_server, insert, list_servers_for_user, server_exists,
  trim_space, Error,
}

-- The directory without one server.
pub without : Str → List ServerDirectoryEntry → List ServerDirectoryEntry
without server_id [] = []
without server_id (server ∷ servers) =
    let rest = without server_id servers in
    if server_id == server.server_id then rest else server ∷ rest

not_left-insert :
    (k : Str) (t : ℤ) (left : Map ℤ) (servers : List ServerDirectoryEntry)
    → not_left (insert k t left) servers ≡ without k (not_left left servers)
unfolding not_left without
not_left-insert k t left [] = refl
not_left-insert k t left (server ∷ servers) =
    ground (arith, lookup-insert k server.server_id t left, not_left-insert k t left servers)

module _ (s : Service) (server_id user_uid : Str) (now : ℤ) where
  -- After a user has left a server, the user's directory is the one of before without that server,
  -- and every other user's directory is the one of before.
  pub list_servers_for_user-leave_server :
      (leave_server s server_id user_uid now).1 ≡ ok tt
      → (viewer : Str)
      → list_servers_for_user (leave_server s server_id user_uid now).0 viewer ≡ (
          if trim_space user_uid == trim_space viewer
          then without (trim_space server_id) (list_servers_for_user s viewer)
          else list_servers_for_user s viewer)
  unfolding leave_server list_servers_for_user
  list_servers_for_user-leave_server h viewer = ground (
    arith,
    lookup-insert (trim_space user_uid) (trim_space viewer)
        (insert (trim_space server_id) now (get_or (trim_space user_uid) s.left_servers_by_user []))
        s.left_servers_by_user,
    ==_iff (trim_space user_uid) (trim_space viewer),
    not_left-insert (trim_space server_id) now
        (get_or (trim_space user_uid) s.left_servers_by_user []) s.servers,
  )

  -- Leaving succeeds exactly when both names are not blank and the server has channels, and a call
  -- that fails changes nothing.
  pub leave_server_iff :
      (((leave_server s server_id user_uid now).1 ≡ ok tt) ↔ (
        (is_nil (trim_space server_id) ≡ false)
        × (is_nil (trim_space user_uid) ≡ false)
        × (server_exists s (trim_space server_id) ≡ true)))
      × ((e : Error)
          → (leave_server s server_id user_uid now).1 ≡ err e
          → (leave_server s server_id user_uid now).0 ≡ s)
  unfolding leave_server server_exists
  leave_server_iff = (ground arith, λ e h. ground arith)
