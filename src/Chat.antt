-- ===== src/Chat.antt =====
-- The channels of the chat: src/chat.cpp, src/chat.h, with the requests of src/game.cpp on them.
mod Kept
mod Changes
mod Access
mod Exclusion
mod Runs
mod Tests
use theforgottenserver.Prelude.{
  ℕ, zero, suc, Bool, true, false, not, ◌||◌, ◌&&◌, Option, none, some, List, [], ◌∷◌, ◌==◌,
  if◌then◌else◌, contains, without,
}

-- A private channel. Users are known by their ids, those who are invited and the owner by guids.
pub record PrivateChatChannel : Type 0 where
  pub users : List ℕ
  pub invites : List ℕ
  pub owner : ℕ

-- The four maps of channels. Of a channel that is not private only the users change.
pub record Chat : Type 0 where
  pub normal_channels : ℕ → Option (List ℕ)
  pub private_channels : ℕ → Option PrivateChatChannel
  pub party_channels : ℕ → Option (List ℕ)
  pub guild_channels : ℕ → Option (List ℕ)

-- What the game and the scripts answer of a player, and of a channel and a player.
pub record Env : Type 0 where
  pub is_player : ℕ → Bool
  pub is_premium : ℕ → Bool
  pub guild_of : ℕ → Option ℕ
  pub party_of : ℕ → Option ℕ
  pub can_join : ℕ → ℕ → Bool
  pub on_join : ℕ → ℕ → Bool
  pub on_speak : ℕ → ℕ → Bool

-- A pointer to a channel: its map and its key.
pub data ChatChannel : Type 0 where
  normal_channel private_channel party_channel guild_channel : ℕ → ChatChannel

unfoldable pub update {ℓ} : {A : Type ℓ} → ℕ → A → (ℕ → A) → ℕ → A
update k x f j = if j == k then x else f j

unfoldable pub is_some {ℓ} : {A : Type ℓ} → Option A → Bool
is_some none = false
is_some (some x) = true

-- The first number from `n` on, among so many, for which the test holds.
unfoldable pub first : (ℕ → Bool) → ℕ → ℕ → Option ℕ
first test n zero = none
first test n (suc count) = let rest = first test (suc n) count in if test n then some n else rest

unfoldable pub is_invited : ℕ → PrivateChatChannel → Bool
is_invited guid c = if guid == c.owner then true else contains guid c.invites

unfoldable pub is_owned : ℕ → Option PrivateChatChannel → Bool
is_owned guid none = false
is_owned guid (some c) = c.owner == guid

unfoldable pub is_admitted : ℕ → Option PrivateChatChannel → Bool
is_admitted guid none = false
is_admitted guid (some c) = is_invited guid c

-- `getPrivateChannel`: the keys of private channels are the numbers from 100 on, below 10000.
unfoldable pub get_private_channel : ℕ → Chat → Option ℕ
get_private_channel guid chat = first (λ k. is_owned guid (chat.private_channels k)) 100 9900

unfoldable pub keyed : (ℕ → ChatChannel) → (ℕ → Option (List ℕ)) → Option ℕ → Option ChatChannel
keyed kind channels none = none
keyed kind channels (some k) = if is_some (channels k) then some (kind k) else none

unfoldable pub owned_by : ℕ → PrivateChatChannel
owned_by guid = record { users = []; invites = []; owner = guid }

-- Only normal channels have scripts.
unfoldable pub may_join : Env → ℕ → ChatChannel → Bool
may_join env p (normal_channel k) = env.on_join k p
may_join env p (private_channel k) = true
may_join env p (party_channel k) = true
may_join env p (guild_channel k) = true

unfoldable pub may_speak : Env → ℕ → ChatChannel → Bool
may_speak env p (normal_channel k) = env.on_speak k p
may_speak env p (private_channel k) = true
may_speak env p (party_channel k) = true
may_speak env p (guild_channel k) = true

module _ (guid_of : ℕ → ℕ) where
  -- `getChannel`
  unfoldable pub get_channel : Env → ℕ → ℕ → Chat → Option ChatChannel
  get_channel env p id chat =
      if id == 0
      then keyed guild_channel chat.guild_channels (env.guild_of p)
      else if id == 1
      then keyed party_channel chat.party_channels (env.party_of p)
      else if is_some (chat.normal_channels id)
      then (if env.can_join id p then some (normal_channel id) else none)
      else if is_admitted (guid_of p) (chat.private_channels id)
      then some (private_channel id)
      else none

  unfoldable pub new_private_channel : ℕ → Chat → Option ℕ → Option ChatChannel × Chat
  new_private_channel p chat none = (none, chat)
  new_private_channel p chat (some k) = (
    some (private_channel k),
    record chat { private_channels = update k (some (owned_by (guid_of p))) chat.private_channels },
  )

  unfoldable pub new_guild_channel : Chat → Option ℕ → Option ChatChannel × Chat
  new_guild_channel chat none = (none, chat)
  new_guild_channel chat (some g) = (
    some (guild_channel g),
    if is_some (chat.guild_channels g)
        then chat
        else record chat { guild_channels = update g (some []) chat.guild_channels },
  )

  unfoldable pub new_party_channel : Chat → Option ℕ → Option ChatChannel × Chat
  new_party_channel chat none = (none, chat)
  new_party_channel chat (some q) = (
    some (party_channel q),
    if is_some (chat.party_channels q)
        then chat
        else record chat { party_channels = update q (some []) chat.party_channels },
  )

  -- `createChannel`
  unfoldable pub create_channel : Env → ℕ → ℕ → Chat → Option ChatChannel × Chat
  create_channel env p id chat =
      if is_some (get_channel env p id chat)
      then (none, chat)
      else if id == 0
      then new_guild_channel chat (env.guild_of p)
      else if id == 1
      then new_party_channel chat (env.party_of p)
      else if id == 65535
      then if not (env.is_premium p) || is_some (get_private_channel (guid_of p) chat)
        then (none, chat)
        else new_private_channel p chat
            (first (λ k. not (is_some (chat.private_channels k))) 100 9900)
      else (none, chat)

  unfoldable pub erase_key : (ℕ → Option (List ℕ)) → Option ℕ → ℕ → Option (List ℕ)
  erase_key channels none = channels
  erase_key channels (some k) = update k none channels

  -- `deleteChannel`
  unfoldable pub delete_channel : Env → ℕ → ℕ → Chat → Chat
  delete_channel env p id chat =
      if id == 0
      then record chat { guild_channels = erase_key chat.guild_channels (env.guild_of p) }
      else if id == 1
      then record chat { party_channels = erase_key chat.party_channels (env.party_of p) }
      else record chat { private_channels = update id none chat.private_channels }

  -- A user joins a list, unless it is there or the script refuses.
  unfoldable pub join : Bool → ℕ → List ℕ → List ℕ
  join allowed p users = if contains p users || not allowed then users else p ∷ users

  unfoldable pub with_users : (List ℕ → List ℕ) → Option (List ℕ) → Option (List ℕ)
  with_users f none = none
  with_users f (some users) = some (f users)

  unfoldable pub with_private_users :
      (List ℕ → List ℕ) → Option PrivateChatChannel → Option PrivateChatChannel
  with_private_users f none = none
  with_private_users f (some c) = some (record c { users = f c.users })

  unfoldable pub change_users : (List ℕ → List ℕ) → ChatChannel → Chat → Chat
  change_users f (normal_channel k) chat = record chat {
    normal_channels = update k (with_users f (chat.normal_channels k)) chat.normal_channels;
  }
  change_users f (private_channel k) chat = record chat {
    private_channels =
        update k (with_private_users f (chat.private_channels k)) chat.private_channels;
  }
  change_users f (party_channel k) chat = record chat {
    party_channels = update k (with_users f (chat.party_channels k)) chat.party_channels;
  }
  change_users f (guild_channel k) chat = record chat {
    guild_channels = update k (with_users f (chat.guild_channels k)) chat.guild_channels;
  }

  unfoldable pub users_of : Option (List ℕ) → List ℕ
  users_of none = []
  users_of (some users) = users

  unfoldable pub private_users : Option PrivateChatChannel → List ℕ
  private_users none = []
  private_users (some c) = c.users

  unfoldable pub get_users : ChatChannel → Chat → List ℕ
  get_users (normal_channel k) chat = users_of (chat.normal_channels k)
  get_users (private_channel k) chat = private_users (chat.private_channels k)
  get_users (party_channel k) chat = users_of (chat.party_channels k)
  get_users (guild_channel k) chat = users_of (chat.guild_channels k)

  -- `getOwner`, which is 0 for a channel that is not private, is compared with a guid.
  unfoldable pub has_owner : ℕ → ChatChannel → Chat → Bool
  has_owner guid (normal_channel k) chat = 0 == guid
  has_owner guid (private_channel k) chat = is_owned guid (chat.private_channels k)
  has_owner guid (party_channel k) chat = 0 == guid
  has_owner guid (guild_channel k) chat = 0 == guid

  -- `addUser` of a channel that may be there.
  unfoldable pub add_user : Env → ℕ → Option ChatChannel → Chat → Chat
  add_user env p none chat = chat
  add_user env p (some c) chat = change_users (join (may_join env p c) p) c chat

  -- `addUserToChannel`
  unfoldable pub add_user_to_channel : Env → ℕ → ℕ → Chat → Chat
  add_user_to_channel env p id chat = add_user env p (get_channel env p id chat) chat

  -- `removeUserFromChannel` below its search of the channel.
  unfoldable pub remove_from : Env → ℕ → ℕ → Option ChatChannel → Chat → Chat
  remove_from env p id none chat = chat
  remove_from env p id (some c) chat =
      let chat' = change_users (without p) c chat in
      if not (contains p (get_users c chat))
      then chat
      else if has_owner (guid_of p) c chat'
      then delete_channel env p id chat'
      else chat'

  unfoldable pub remove_user_from_channel : Env → ℕ → ℕ → Chat → Chat
  remove_user_from_channel env p id chat = remove_from env p id (get_channel env p id chat) chat

  -- What `removeUserFromAllChannels` does to a private channel.
  unfoldable pub leave_private : ℕ → Option PrivateChatChannel → Option PrivateChatChannel
  leave_private p none = none
  leave_private p (some c) =
      if c.owner == guid_of p
      then none
      else some (record c { users = without p c.users; invites = without (guid_of p) c.invites })

  unfoldable pub remove_user_from_all_channels : ℕ → Chat → Chat
  remove_user_from_all_channels p chat = record {
    normal_channels = λ k. with_users (without p) (chat.normal_channels k);
    private_channels = λ k. leave_private p (chat.private_channels k);
    party_channels = λ k. with_users (without p) (chat.party_channels k);
    guild_channels = λ k. with_users (without p) (chat.guild_channels k);
  }

  unfoldable pub invite : ℕ → Option PrivateChatChannel → Option PrivateChatChannel
  invite q none = none
  invite q (some c) =
      if contains (guid_of q) c.invites
      then some c
      else some (record c { invites = guid_of q ∷ c.invites })

  unfoldable pub exclude : ℕ → Option PrivateChatChannel → Option PrivateChatChannel
  exclude q none = none
  exclude q (some c) =
      if contains (guid_of q) c.invites
      then some (record c { users = without q c.users; invites = without (guid_of q) c.invites })
      else some c

  -- A change of the private channel with that key, if there is one.
  unfoldable pub change_private :
      (Option PrivateChatChannel → Option PrivateChatChannel) → Option ℕ → Chat → Chat
  change_private f none chat = chat
  change_private f (some k) chat = record chat {
    private_channels = update k (f (chat.private_channels k)) chat.private_channels;
  }

  unfoldable pub player_create_private_channel : Env → ℕ → Chat → Chat
  player_create_private_channel env p chat =
      let (channel, chat') = create_channel env p 65535 chat in
      if not (env.is_player p) || not (env.is_premium p) then chat else add_user env p channel chat'

  -- `playerChannelInvite` and `playerChannelExclude`, with the player of that name.
  unfoldable pub player_channel_invite : Env → ℕ → ℕ → Chat → Chat
  player_channel_invite env p q chat =
      if not (env.is_player p) || not (env.is_player q) || (p == q)
      then chat
      else change_private (invite q) (get_private_channel (guid_of p) chat) chat

  unfoldable pub player_channel_exclude : Env → ℕ → ℕ → Chat → Chat
  player_channel_exclude env p q chat =
      if not (env.is_player p) || not (env.is_player q) || (p == q)
      then chat
      else change_private (exclude q) (get_private_channel (guid_of p) chat) chat

  unfoldable pub player_open_channel : Env → ℕ → ℕ → Chat → Chat
  player_open_channel env p id chat =
      if not (env.is_player p) then chat else add_user_to_channel env p id chat

  unfoldable pub player_close_channel : Env → ℕ → ℕ → Chat → Chat
  player_close_channel env p id chat =
      if not (env.is_player p) then chat else remove_user_from_channel env p id chat

  -- `talkToChannel`: whether the users of the channel hear the player.
  unfoldable pub talk : Env → ℕ → Option ChatChannel → Chat → Bool
  talk env p none chat = false
  talk env p (some c) chat = may_speak env p c && contains p (get_users c chat)

  unfoldable pub talk_to_channel : Env → ℕ → ℕ → Chat → Bool
  talk_to_channel env p id chat = talk env p (get_channel env p id chat) chat
