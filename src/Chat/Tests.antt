-- ===== src/Chat/Tests.antt =====
-- A private channel, from its making to the logout of its owner.
use theforgottenserver.Prelude.{
  ℕ, ◌+◌, ◌%◌, subst, ◌≡◌, refl, true, false, some, none, ◌==◌, if◌then◌else◌, contains, List, [],
  ◌∷◌, arith,
}
use theforgottenserver.Chat.Exclusion.{player_channel_exclude_lem}
use theforgottenserver.Chat.{
  get_private_channel, first, is_owned, get_users, private_channel, player_channel_exclude,
  is_admitted, talk, PrivateChatChannel, Chat, Env, is_some, update,
}
use theforgottenserver.Chat.Kept.{IsAlone, none-IsClosed}
use theforgottenserver.Chat.Runs.{
  Event, World, creates, opens, closes, invites, excludes, logs_in, logs_out, run, handle, AreFresh,
  IsFresh, IsOrderly, run-IsOrderly,
}

abbrev guid_of : ℕ → ℕ
guid_of p = p % 2000 + 1000

abbrev quiet : Chat
quiet = record {
  normal_channels = λ k. none;
  private_channels = λ k. none;
  party_channels = λ k. none;
  guild_channels = λ k. none;
}

abbrev env : Env
env = record {
  is_player = λ p. true;
  is_premium = λ p. true;
  guild_of = λ p. none;
  party_of = λ p. none;
  can_join = λ k p. true;
  on_join = λ k p. true;
  on_speak = λ k p. true;
}

abbrev nobody : World
nobody = record { online = λ p. false; chat = quiet }

nobody-IsOrderly : IsOrderly guid_of nobody
unfolding is_some is_owned
nobody-IsOrderly = record {
  well_kept = record {
    closed = λ k. none-IsClosed guid_of (λ p. false);
    keys = λ k h. cc;
    one_each = λ j k g a b. cc;
  };
  distinct = λ p h. cc;
}

-- Player 1 comes back at the end, under the same guid.
abbrev evening : List (Env × Event)
evening =
    (env, logs_in 1)
    ∷ (env, logs_in 2)
    ∷ (env, creates 1)
    ∷ (env, invites 1 2)
    ∷ (env, opens 2 100)
    ∷ (env, excludes 1 2)
    ∷ (env, closes 2 100)
    ∷ (env, logs_out 1)
    ∷ (env, logs_in 2001)
    ∷ []

only_first : (u : ℕ) → update 1 true nobody.online u ≡ true → u ≡ 1
unfolding update
only_first u h = ground (arith, h)

only_second :
    (u : ℕ) → update 1 false (update 2 true (update 1 true nobody.online)) u ≡ true → u ≡ 2
unfolding update
only_second u h = ground (arith, h)

evening-AreFresh : AreFresh guid_of nobody evening
unfolding AreFresh IsFresh IsAlone handle update
evening-AreFresh = (
  λ u h e. cc,
  (
    λ u h e.
        let e' : (1001 == 1002) ≡ true =
          subst (λ v. (guid_of v == 1002) ≡ true) (only_first u h) e in
        cc,
    (
      tt,
      (
        tt,
        (
          tt,
          (
            tt,
            (
              tt,
              (
                tt,
                (
                  λ u h e.
                      let e' : (1002 == 1001) ≡ true =
                        subst (λ v. (guid_of v == 1001) ≡ true) (only_second u h) e in
                      cc,
                  tt,
                ),
              ),
            ),
          ),
        ),
      ),
    ),
  ),
)

run-IsOrderly_example : IsOrderly guid_of (run guid_of nobody evening)
run-IsOrderly_example = run-IsOrderly guid_of nobody evening evening-AreFresh nobody-IsOrderly

-- A channel of player 1 to which player 2 has been invited.
abbrev room : PrivateChatChannel
room = record { users = 2 ∷ 1 ∷ []; invites = 1002 ∷ []; owner = 1001 }

abbrev one_room : Chat
one_room = record quiet { private_channels = λ k. if k == 100 then some room else none }

finds_room : get_private_channel 1001 one_room ≡ some 100
unfolding get_private_channel first is_owned
finds_room = refl

player_channel_exclude_lem_example :
    (contains 2
        (get_users guid_of (private_channel 100) (player_channel_exclude guid_of env 1 2 one_room))
      ≡ false)
    × (is_admitted 1002 ((player_channel_exclude guid_of env 1 2 one_room).private_channels 100)
        ≡ false)
    × (talk guid_of env 2
          (some (private_channel 100))
          (player_channel_exclude guid_of env 1 2 one_room)
        ≡ false)
player_channel_exclude_lem_example =
    player_channel_exclude_lem guid_of env 1 2 100 room one_room refl refl refl finds_room refl refl
      refl
