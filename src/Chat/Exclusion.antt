-- ===== src/Chat/Exclusion.antt =====
-- A player that is excluded from a private channel.
use theforgottenserver.Prelude.{
  ℕ, ◌≡◌, refl, ap, ◌∙◌, true, false, some, ◌==◌, contains, without, contains-without, ==-refl,
}
use theforgottenserver.Chat.{
  PrivateChatChannel, Chat, Env, private_channel, update, is_invited, is_admitted,
  get_private_channel, private_users, get_users, exclude, change_private, player_channel_exclude,
  talk, may_speak,
}

module _ (guid_of : ℕ → ℕ) (env : Env) (p q k : ℕ) (c : PrivateChatChannel) (chat : Chat) where
  excluded : PrivateChatChannel
  excluded = record c { users = without q c.users; invites = without (guid_of q) c.invites }

  at_excluded :
      env.is_player p ≡ true
      → env.is_player q ≡ true
      → (p == q) ≡ false
      → get_private_channel (guid_of p) chat ≡ some k
      → chat.private_channels k ≡ some c
      → contains (guid_of q) c.invites ≡ true
      → (player_channel_exclude guid_of env p q chat).private_channels k ≡ some excluded
  unfolding player_channel_exclude change_private update exclude excluded
  at_excluded hp hq e found h i = rw (hp, hq, e, found) (rw (==-refl k) (rw h (rw i refl)))

  gone : contains q (private_users guid_of (some excluded)) ≡ false
  unfolding private_users excluded
  gone = contains-without q q c.users ∙ rw (==-refl q) refl

  shut_out : (guid_of q == c.owner) ≡ false → is_admitted (guid_of q) (some excluded) ≡ false
  unfolding is_admitted is_invited excluded
  shut_out h =
      rw h (contains-without (guid_of q) (guid_of q) c.invites ∙ rw (==-refl (guid_of q)) refl)

  -- After the owner of a private channel has excluded another player that was invited, that player is
  -- no user of the channel, is not admitted to it, and nobody in it hears the player.
  pub player_channel_exclude_lem :
      env.is_player p ≡ true
      → env.is_player q ≡ true
      → (p == q) ≡ false
      → get_private_channel (guid_of p) chat ≡ some k
      → chat.private_channels k ≡ some c
      → contains (guid_of q) c.invites ≡ true
      → (guid_of q == c.owner) ≡ false
      → (let chat' = player_channel_exclude guid_of env p q chat in
          (contains q (get_users guid_of (private_channel k) chat') ≡ false)
          × (is_admitted (guid_of q) (chat'.private_channels k) ≡ false)
          × (talk guid_of env q (some (private_channel k)) chat' ≡ false))
  unfolding talk may_speak get_users
  player_channel_exclude_lem hp hq e found h i o =
      let at = at_excluded hp hq e found h i in
      let out = ap (λ x. contains q (private_users guid_of x)) at ∙ gone in
      (out, ap (is_admitted (guid_of q)) at ∙ shut_out o, out)
