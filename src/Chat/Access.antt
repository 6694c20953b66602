-- ===== src/Chat/Access.antt =====
-- Who gets into a channel, and that each operation keeps private channels closed to all others.
use theforgottenserver.Prelude.{
  ℕ, ◌≡◌, refl, sym, ap, ◌∙◌, Bool, true, false, not, Option, none, some, List, ◌==◌, if◌then◌else◌,
  contains, without, inl, inr, Bool-cases, ==-refl, subst,
}
use mathlib.Core.Option.{some-injective}
use theforgottenserver.Chat.{
  PrivateChatChannel, Chat, Env, ChatChannel, normal_channel, private_channel, party_channel,
  guild_channel, update, is_some, first, is_invited, is_owned, is_admitted, get_private_channel,
  keyed, get_channel, owned_by, may_join, new_private_channel, create_channel, erase_key,
  delete_channel, join, change_users, get_users, has_owner, add_user, remove_from,
  player_create_private_channel,
}
use theforgottenserver.Chat.Kept.{
  IsClosed, IsWellKept, changed-IsWellKept, none-IsClosed, join-IsClosed, without-IsClosed,
}
use theforgottenserver.Chat.Changes.{
  update-IsWellKept, new_private_channel-IsWellKept, change_users-IsWellKept,
}

-- One of two values is chosen, and the property holds of both.
pub choose {ℓ} :
    {A : Type ℓ} (P : A → Type 0) (b : Bool) (x y : A) → P x → P y → P (if b then x else y)
choose P true x y f g = f
choose P false x y f g = g

no_channel : is_some {A = PrivateChatChannel} none ≡ true → ⊥
unfolding is_some
no_channel h = cc

no_owner : (g : ℕ) → is_owned g none ≡ true → ⊥
unfolding is_owned
no_owner g h = cc

own_channel :
    (g k : ℕ) (f : ℕ → Option PrivateChatChannel)
    → is_admitted g (update k (some (owned_by g)) f k) ≡ true
unfolding update is_admitted is_invited owned_by
own_channel g k f = rw (==-refl k) (rw (==-refl g) refl)

is_some-none : (o : Option ℕ) → is_some o ≡ false → o ≡ none
unfolding is_some
is_some-none none h = refl
is_some-none (some k) h = cc

module _ (guid_of : ℕ → ℕ) (online : ℕ → Bool) where
  -- If it is a private channel, the player is its owner or invited.
  pub IsEntitled : Chat → ℕ → Option ChatChannel → Type 0
  IsEntitled chat p o =
      (k : ℕ)
      → o ≡ some (private_channel k)
      → is_admitted (guid_of p) (chat.private_channels k) ≡ true

  none-IsEntitled : (chat : Chat) (p : ℕ) → IsEntitled chat p none
  unfolding IsEntitled
  none-IsEntitled chat p k e = cc

  keyed_guild :
      (chat : Chat) (p : ℕ) (channels : ℕ → Option (List ℕ)) (o : Option ℕ)
      → IsEntitled chat p (keyed guild_channel channels o)
  unfolding IsEntitled keyed
  keyed_guild chat p channels none = none-IsEntitled chat p
  keyed_guild chat p channels (some g) =
      choose (IsEntitled chat p) (is_some (channels g)) (some (guild_channel g)) none (λ k e. cc)
        (λ k e. cc)

  keyed_party :
      (chat : Chat) (p : ℕ) (channels : ℕ → Option (List ℕ)) (o : Option ℕ)
      → IsEntitled chat p (keyed party_channel channels o)
  unfolding IsEntitled keyed
  keyed_party chat p channels none = none-IsEntitled chat p
  keyed_party chat p channels (some g) =
      choose (IsEntitled chat p) (is_some (channels g)) (some (party_channel g)) none (λ k e. cc)
        (λ k e. cc)

  key : ChatChannel → ℕ
  key (normal_channel k) = k
  key (private_channel k) = k
  key (party_channel k) = k
  key (guild_channel k) = k

  normal-IsEntitled : (chat : Chat) (p i : ℕ) → IsEntitled chat p (some (normal_channel i))
  unfolding IsEntitled
  normal-IsEntitled chat p i k e = cc

  admitted-IsEntitled :
      (chat : Chat) (p i : ℕ)
      → is_admitted (guid_of p) (chat.private_channels i) ≡ true
      → IsEntitled chat p (some (private_channel i))
  unfolding IsEntitled key
  admitted-IsEntitled chat p i h k e =
      subst (λ j. is_admitted (guid_of p) (chat.private_channels j) ≡ true)
        (ap key (some-injective (private_channel i) (private_channel k) e)) h

  pub get_channel-IsEntitled :
      (env : Env) (p id : ℕ) (chat : Chat) → IsEntitled chat p (get_channel guid_of env p id chat)
  unfolding get_channel
  get_channel-IsEntitled env p id chat =
      let P = IsEntitled chat p in
      elim (Bool-cases (id == 0)) [
        | inl e ↦ rw e (keyed_guild chat p chat.guild_channels (env.guild_of p))
        | inr e ↦ rw e (elim (Bool-cases (id == 1)) [
          | inl f ↦ rw f (keyed_party chat p chat.party_channels (env.party_of p))
          | inr f ↦ rw f (elim (Bool-cases (is_some (chat.normal_channels id))) [
            | inl g ↦ rw g (
                choose P (env.can_join id p) (some (normal_channel id)) none
                  (normal-IsEntitled chat p id) (none-IsEntitled chat p))
            | inr g ↦ rw g (elim (Bool-cases (is_admitted (guid_of p) (chat.private_channels id))) [
              | inl h ↦ rw h (admitted-IsEntitled chat p id h)
              | inr h ↦ rw h (none-IsEntitled chat p)
            ])
          ])
        ])
      ]

  pub add_user-IsWellKept :
      (env : Env) (p : ℕ) (o : Option ChatChannel) (chat : Chat)
      → IsWellKept guid_of online chat
      → IsEntitled chat p o
      → online p ≡ true
      → IsWellKept guid_of online (add_user guid_of env p o chat)
  unfolding add_user IsEntitled
  add_user-IsWellKept env p none chat w e l = w
  add_user-IsWellKept env p (some c) chat w e l =
      change_users-IsWellKept guid_of online (join guid_of (may_join env p c) p) c chat w (λ k f.
        join-IsClosed guid_of online (may_join env p c) p (chat.private_channels k) (w.closed k)
          (e k (ap (λ d. some d) f)) l)

  -- A change of the channels that are not private.
  same-IsWellKept :
      (chat chat' : Chat)
      → chat'.private_channels ≡ chat.private_channels
      → IsWellKept guid_of online chat
      → IsWellKept guid_of online chat'
  same-IsWellKept chat chat' e w =
      changed-IsWellKept guid_of online chat chat' w
        (subst (λ f. (k : ℕ) → IsClosed guid_of online (f k)) (sym e) w.closed)
        (λ k h. sym (ap (λ f. is_some (f k)) e) ∙ h)
        (λ k g h. sym (ap (λ f. is_owned g (f k)) e) ∙ h)

  delete_channel-IsWellKept :
      (env : Env) (p id : ℕ) (chat : Chat)
      → IsWellKept guid_of online chat
      → IsWellKept guid_of online (delete_channel guid_of env p id chat)
  unfolding delete_channel
  delete_channel-IsWellKept env p id chat w =
      let guild = record chat {
        guild_channels = erase_key guid_of chat.guild_channels (env.guild_of p);
      } in
      let party = record chat {
        party_channels = erase_key guid_of chat.party_channels (env.party_of p);
      } in
      let private = record chat { private_channels = update id none chat.private_channels } in
      choose (IsWellKept guid_of online) (id == 0) guild (if id == 1 then party else private)
        (same-IsWellKept chat guild refl w)
        (choose (IsWellKept guid_of online) (id == 1) party private
          (same-IsWellKept chat party refl w)
          (update-IsWellKept guid_of online chat id none w (none-IsClosed guid_of online)
            (λ h. absurd (no_channel h)) (λ g h. absurd (no_owner g h))))

  pub remove_from-IsWellKept :
      (env : Env) (p id : ℕ) (o : Option ChatChannel) (chat : Chat)
      → IsWellKept guid_of online chat
      → IsWellKept guid_of online (remove_from guid_of env p id o chat)
  unfolding remove_from
  remove_from-IsWellKept env p id none chat w = w
  remove_from-IsWellKept env p id (some c) chat w =
      let chat' = change_users guid_of (without p) c chat in
      let w' =
        change_users-IsWellKept guid_of online (without p) c chat w
          (λ k e. without-IsClosed guid_of online p (chat.private_channels k) (w.closed k)) in
      let deleted = delete_channel guid_of env p id chat' in
      choose (IsWellKept guid_of online) (not (contains p (get_users guid_of c chat))) chat
        (if has_owner guid_of (guid_of p) c chat' then deleted else chat') w
        (choose (IsWellKept guid_of online) (has_owner guid_of (guid_of p) c chat') deleted chat'
          (delete_channel-IsWellKept env p id chat' w') w')

  -- The new channel, and that its owner is admitted.
  new_private_channel-IsEntitled :
      (p : ℕ) (o : Option ℕ) (chat : Chat)
      → IsEntitled
          (new_private_channel guid_of p chat o).1
          p
          (new_private_channel guid_of p chat o).0
  unfolding new_private_channel
  new_private_channel-IsEntitled p none chat = none-IsEntitled chat p
  new_private_channel-IsEntitled p (some k) chat =
      admitted-IsEntitled
        (record chat {
          private_channels = update k (some (owned_by (guid_of p))) chat.private_channels;
        })
        p k (own_channel (guid_of p) k chat.private_channels)

  -- `playerCreatePrivateChannel`
  created :
      (env : Env) (p : ℕ) (chat : Chat)
      → IsWellKept guid_of online chat
      → (let made = create_channel guid_of env p 65535 chat in
          IsWellKept guid_of online made.1 × IsEntitled made.1 p made.0)
  unfolding create_channel
  created env p chat w =
      let free = first (λ k. not (is_some (chat.private_channels k))) 100 9900 in
      elim (Bool-cases (is_some (get_channel guid_of env p 65535 chat))) [
        | inl e ↦ rw e (w, none-IsEntitled chat p)
        | inr e ↦ rw e (elim (Bool-cases (not (env.is_premium p))) [
          | inl f ↦ rw f (w, none-IsEntitled chat p)
          | inr f ↦ rw f (elim (Bool-cases (is_some (get_private_channel (guid_of p) chat))) [
            | inl g ↦ rw g (w, none-IsEntitled chat p)
            | inr g ↦ rw g (
              new_private_channel-IsWellKept guid_of online chat p free w
                  (is_some-none (get_private_channel (guid_of p) chat) g) refl,
              new_private_channel-IsEntitled p free chat,
            )
          ])
        ])
      ]

  pub player_create_private_channel-IsWellKept :
      (env : Env) (p : ℕ) (chat : Chat)
      → IsWellKept guid_of online chat
      → (env.is_player p ≡ true → online p ≡ true)
      → IsWellKept guid_of online (player_create_private_channel guid_of env p chat)
  unfolding player_create_private_channel
  player_create_private_channel-IsWellKept env p chat w l =
      let made = create_channel guid_of env p 65535 chat in
      let (w', e) = created env p chat w in
      elim (Bool-cases (env.is_player p)) [
        | inl a ↦ elim (Bool-cases (env.is_premium p)) [
          | inl b ↦ rw (a, b) (add_user-IsWellKept env p made.0 made.1 w' e (l a))
          | inr b ↦ rw (a, b) w
        ]
        | inr a ↦ rw a w
      ]
