-- ===== src/Chat/Directory.antt =====
-- internal/chat/service.go: the servers, their channels and members, and who has left a server.
pub mod Leaving
pub mod Index
use openchat_backend.Base.{
  Bool, true, false, List, [], ◌∷◌, map, Option, none, some, if◌then◌else◌, is_nil, is_some, Str,
  ◌==◌, ℤ, Result, ok, err,
}
use openchat_backend.Base.Map.{Map, lookup, insert, get_or}
use openchat_backend.Strings.{trim_space}
use openchat_backend.Chat.Types.{
  ChannelType, channel_type_voice, Channel, ChannelGroup, Member, ServerDirectoryEntry, Broadcaster,
  Service, Error, unknown_server, server_id_required, user_uid_required,
}

unfoldable pub list_servers : Service → List ServerDirectoryEntry
list_servers s = s.servers

-- The servers that are no key of `left`.
unfoldable pub not_left : Map ℤ → List ServerDirectoryEntry → List ServerDirectoryEntry
not_left left [] = []
not_left left (server ∷ servers) =
    let rest = not_left left servers in
    if is_some (lookup server.server_id left) then rest else server ∷ rest

unfoldable pub list_servers_for_user : Service → Str → List ServerDirectoryEntry
list_servers_for_user s user_uid =
    not_left (get_or (trim_space user_uid) s.left_servers_by_user []) s.servers

unfoldable pub set_broadcaster : Service → Option Broadcaster → Service
set_broadcaster s b = record s { broadcaster = b }

unfoldable pub clone_groups : List ChannelGroup → List ChannelGroup
clone_groups [] = []
clone_groups (group ∷ groups) =
    record { id = group.id; label = group.label; kind = group.kind; channels = group.channels }
    ∷ clone_groups groups

unfoldable pub list_channel_groups : Service → Str → Result Error (List ChannelGroup)
unfolding clone_groups
list_channel_groups s server_id = elim (lookup server_id s.channel_groups_by_server) [
  | none ↦ err (unknown_server server_id)
  | some groups ↦ ok (clone_groups groups)
]

unfoldable pub list_members : Service → Str → Result Error (List Member)
list_members s server_id = elim (lookup server_id s.members_by_server) [
  | none ↦ err (unknown_server server_id)
  | some members ↦ ok members
]

unfoldable pub server_exists : Service → Str → Bool
server_exists s server_id = is_some (lookup server_id s.channel_groups_by_server)

unfoldable pub channel_exists : Service → Str → Bool
channel_exists s channel_id = is_some (lookup channel_id s.channel_type_by_id)

unfoldable pub is_voice_channel : Service → Str → Bool
is_voice_channel s channel_id = get_or channel_id s.channel_type_by_id [] == channel_type_voice

-- The state after a call, and its error if it fails.
unfoldable pub leave_server : Service → Str → Str → ℤ → Service × Result Error (Unit {0})
leave_server s server_id user_uid now =
    let server = trim_space server_id in
    let user = trim_space user_uid in
    let left = get_or user s.left_servers_by_user [] in
    if is_nil server
    then (s, err server_id_required)
    else if is_nil user
    then (s, err user_uid_required)
    else if is_some (lookup server s.channel_groups_by_server)
    then (
      record s {
        left_servers_by_user = insert user (insert server now left) s.left_servers_by_user;
      },
      ok tt,
    )
    else (s, err (unknown_server server))

-- The loops of indexChannels, innermost first.
unfoldable pub index_group : Str → List Channel → Service → Service
index_group server_id [] s = s
index_group server_id (channel ∷ channels) s = index_group server_id channels (record s {
  channel_server_by_id = insert channel.id server_id s.channel_server_by_id;
  channel_type_by_id = insert channel.id channel.type s.channel_type_by_id;
})

unfoldable pub index_groups : Str → List ChannelGroup → Service → Service
unfolding index_group
index_groups server_id [] s = s
index_groups server_id (group ∷ groups) s =
    index_groups server_id groups (index_group server_id group.channels s)

unfoldable pub index_servers : Map (List ChannelGroup) → Service → Service
unfolding index_groups
index_servers [] s = s
index_servers ((server_id, groups) ∷ rest) s = index_servers rest (index_groups server_id groups s)

unfoldable pub index_channels : Service → Service
unfolding index_servers
index_channels s = index_servers s.channel_groups_by_server s
