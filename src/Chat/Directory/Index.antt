-- ===== src/Chat/Directory/Index.antt =====
-- The index of the channels against the groups that declare them (internal/chat/service.go).
use openchat_backend.Base.{
  ◌≡◌, refl, ap, ◌∙◌, Bool, true, false, ◌||◌, List, [], ◌∷◌, arith, Str, ◌==◌,
}
use openchat_backend.Base.Map.{Map, insert, lookup-insert}
use openchat_backend.Chat.Directory.{
  index_group, index_groups, index_servers, index_channels, Channel, ChannelGroup, channel_exists,
  Service,
}

-- Whether a list of channels, of groups, of servers declares a channel.
abbrev pub lists : List Channel → Str → Bool
lists [] c = false
lists (channel ∷ channels) c = channel.id == c || lists channels c

abbrev pub declares : List ChannelGroup → Str → Bool
declares [] c = false
declares (group ∷ groups) c = lists group.channels c || declares groups c

abbrev pub is_declared : Map (List ChannelGroup) → Str → Bool
is_declared [] c = false
is_declared ((server_id, groups) ∷ rest) c = declares groups c || is_declared rest c

channel_exists-index_group :
    (server_id : Str) (channels : List Channel) (s : Service) (c : Str)
    → channel_exists (index_group server_id channels s) c ≡ (lists channels c || channel_exists s c)
unfolding index_group channel_exists
channel_exists-index_group server_id [] s c = refl
channel_exists-index_group server_id (channel ∷ channels) s c = ground (
  arith,
  channel_exists-index_group server_id channels
      (record s {
        channel_server_by_id = insert channel.id server_id s.channel_server_by_id;
        channel_type_by_id = insert channel.id channel.type s.channel_type_by_id;
      })
      c,
  lookup-insert channel.id c channel.type s.channel_type_by_id,
)

or_swap : (a b c : Bool) → (b || (a || c)) ≡ ((a || b) || c)
or_swap true true c = refl
or_swap true false c = refl
or_swap false b c = refl

channel_exists-index_groups :
    (server_id : Str) (groups : List ChannelGroup) (s : Service) (c : Str)
    → channel_exists (index_groups server_id groups s) c ≡ (declares groups c || channel_exists s c)
unfolding index_groups
channel_exists-index_groups server_id [] s c = refl
channel_exists-index_groups server_id (group ∷ groups) s c =
    channel_exists-index_groups server_id groups (index_group server_id group.channels s) c
    ∙ ap (λ b. declares groups c || b) (channel_exists-index_group server_id group.channels s c)
    ∙ or_swap (lists group.channels c) (declares groups c) (channel_exists s c)

channel_exists-index_servers :
    (servers : Map (List ChannelGroup)) (s : Service) (c : Str)
    → channel_exists (index_servers servers s) c ≡ (is_declared servers c || channel_exists s c)
unfolding index_servers
channel_exists-index_servers [] s c = refl
channel_exists-index_servers ((server_id, groups) ∷ rest) s c =
    channel_exists-index_servers rest (index_groups server_id groups s) c
    ∙ ap (λ b. is_declared rest c || b) (channel_exists-index_groups server_id groups s c)
    ∙ or_swap (declares groups c) (is_declared rest c) (channel_exists s c)

-- After indexing, the channels that exist are those that existed and those that some group of some
-- server declares.
pub channel_exists-index_channels :
    (s : Service) (c : Str)
    → channel_exists (index_channels s) c
      ≡ (is_declared s.channel_groups_by_server c || channel_exists s c)
unfolding index_channels
channel_exists-index_channels s c = channel_exists-index_servers s.channel_groups_by_server s c
