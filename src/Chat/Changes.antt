-- ===== src/Chat/Changes.antt =====
-- Changes of channels that keep private channels closed to those not invited.
use theforgottenserver.Prelude.{
  ℕ, ◌+◌, ◌≤◌, ◌<◌, ◌≡◌, refl, sym, ◌∙◌, Bool, true, false, not, Option, none, some, List, ◌==◌,
  inl, inr, Bool-cases, arith, ==→eq, subst, ◌⊎◌,
}
use theforgottenserver.Chat.{
  PrivateChatChannel, Chat, ChatChannel, normal_channel, private_channel, party_channel,
  guild_channel, update, is_some, first, is_owned, get_private_channel, owned_by,
  new_private_channel, with_private_users, change_users, change_private,
}
use theforgottenserver.Chat.Kept.{
  IsClosed, IsWellKept, changed-IsWellKept, owned_by-IsClosed, first-some, first-none,
}

abbrev Channels : Type 0
Channels = ℕ → Option PrivateChatChannel

-- What holds of a changed key and of the others holds of all.
update_all :
    (P : ℕ → Option PrivateChatChannel → Type 0) (k : ℕ) (x : Option PrivateChatChannel)
    (f : Channels)
    → P k x
    → ((j : ℕ) → P j (f j))
    → (j : ℕ) → P j (update k x f j)
unfolding update
update_all P k x f px pf j = elim (Bool-cases (j == k)) [
  | inl e ↦ rw e (subst (λ i. P i x) (sym (==→eq j k e)) px)
  | inr e ↦ rw e (pf j)
]

pub apart : {b : Bool} → b ≡ true → b ≡ false → ⊥
apart h f = cc

owned_some : (g : ℕ) (o : Option PrivateChatChannel) → is_owned g o ≡ true → is_some o ≡ true
unfolding is_owned is_some
owned_some g none h = cc
owned_some g (some c) h = refl

owner_guid : (a g : ℕ) → is_owned g (some (owned_by a)) ≡ true → a ≡ g
unfolding is_owned owned_by
owner_guid a g h = ==→eq a g h

module _ (guid_of : ℕ → ℕ) (online : ℕ → Bool) where
  same_some :
      (f : List ℕ → List ℕ) (o : Option PrivateChatChannel)
      → is_some (with_private_users guid_of f o) ≡ true
      → is_some o ≡ true
  unfolding with_private_users is_some
  same_some f none h = h
  same_some f (some c) h = h

  same_owner :
      (f : List ℕ → List ℕ) (o : Option PrivateChatChannel) (g : ℕ)
      → is_owned g (with_private_users guid_of f o) ≡ true
      → is_owned g o ≡ true
  unfolding with_private_users is_owned
  same_owner f none g h = h
  same_owner f (some c) g h = h

  -- A change of one channel that neither makes it nor changes its owner.
  pub update-IsWellKept :
      (chat : Chat) (k : ℕ) (x : Option PrivateChatChannel)
      → IsWellKept guid_of online chat
      → IsClosed guid_of online x
      → (is_some x ≡ true → is_some (chat.private_channels k) ≡ true)
      → ((g : ℕ) → is_owned g x ≡ true → is_owned g (chat.private_channels k) ≡ true)
      → IsWellKept guid_of online
          (record chat { private_channels = update k x chat.private_channels })
  update-IsWellKept chat k x w c s o =
      changed-IsWellKept guid_of online chat
        (record chat { private_channels = update k x chat.private_channels }) w
        (update_all (λ j y. IsClosed guid_of online y) k x chat.private_channels c w.closed)
        (update_all (λ j y. is_some y ≡ true → is_some (chat.private_channels j) ≡ true) k x
          chat.private_channels s (λ j h. h))
        (update_all
          (λ j y. (g : ℕ) → is_owned g y ≡ true → is_owned g (chat.private_channels j) ≡ true) k x
          chat.private_channels o (λ j g h. h))

  -- A new channel, if the player has none.
  new-IsWellKept :
      (chat : Chat) (p k : ℕ)
      → IsWellKept guid_of online chat
      → get_private_channel (guid_of p) chat ≡ none
      → first (λ j. not (is_some (chat.private_channels j))) 100 9900 ≡ some k
      → IsWellKept guid_of online (record chat {
        private_channels = update k (some (owned_by (guid_of p))) chat.private_channels;
      })
  unfolding get_private_channel
  new-IsWellKept chat p k w h f = record {
    closed =
        update_all (λ j y. IsClosed guid_of online y) k (some (owned_by (guid_of p)))
          chat.private_channels (owned_by-IsClosed guid_of online (guid_of p)) w.closed;
    keys =
        update_all (λ j y. is_some y ≡ true → (100 ≤ j) × (j < 10000)) k
          (some (owned_by (guid_of p))) chat.private_channels
          (λ e. in_range (first-some (λ j. not (is_some (chat.private_channels j))) 100 9900 k f))
          w.keys;
    one_each = λ i j g a b. elim (owner_of i g a) [
      | inl (ei, eg) ↦ elim (owner_of j g b) [
        | inl (ej, eh) ↦ ei ∙ sym ej
        | inr m ↦
            absurd (nobody j (subst (λ x. is_owned x (chat.private_channels j) ≡ true) (sym eg) m))
      ]
      | inr m ↦ elim (owner_of j g b) [
        | inl (ej, eg) ↦
            absurd (nobody i (subst (λ x. is_owned x (chat.private_channels i) ≡ true) (sym eg) m))
        | inr n ↦ w.one_each i j g m n
      ]
    ];
  }
    where
      in_range :
          (not (is_some (chat.private_channels k)) ≡ true) × (100 ≤ k) × (k < 100 + 9900)
          → (100 ≤ k) × (k < 10000)
      in_range (a, b, c) = (b, omega (arith, c))

      nobody : (j : ℕ) → is_owned (guid_of p) (chat.private_channels j) ≡ true → ⊥
      nobody j m =
          let (a, b) = w.keys j (owned_some (guid_of p) (chat.private_channels j) m) in
          apart m (
            first-none (λ i. is_owned (guid_of p) (chat.private_channels i)) 100 9900 j h a
              (omega (arith, b)))

      owner_of :
          (j g : ℕ)
          → is_owned g (update k (some (owned_by (guid_of p))) chat.private_channels j) ≡ true
          → ((j ≡ k) × (guid_of p ≡ g)) ⊎ (is_owned g (chat.private_channels j) ≡ true)
      owner_of j g =
          update_all
            (λ i y.
              is_owned g y ≡ true
              → ((i ≡ k) × (guid_of p ≡ g)) ⊎ (is_owned g (chat.private_channels i) ≡ true))
            k (some (owned_by (guid_of p))) chat.private_channels
            (λ e. inl (refl, owner_guid (guid_of p) g e)) (λ i m. inr m) j

  -- `createChannel` of a private channel.
  pub new_private_channel-IsWellKept :
      (chat : Chat) (p : ℕ) (o : Option ℕ)
      → IsWellKept guid_of online chat
      → get_private_channel (guid_of p) chat ≡ none
      → first (λ j. not (is_some (chat.private_channels j))) 100 9900 ≡ o
      → IsWellKept guid_of online (new_private_channel guid_of p chat o).1
  unfolding new_private_channel
  new_private_channel-IsWellKept chat p none w h f = w
  new_private_channel-IsWellKept chat p (some k) w h f = new-IsWellKept chat p k w h f

  -- A function of a private channel that keeps it closed and keeps its owner.
  pub change_private-IsWellKept :
      (f : Option PrivateChatChannel → Option PrivateChatChannel) (o : Option ℕ) (chat : Chat)
      → IsWellKept guid_of online chat
      → ((x : Option PrivateChatChannel)
          → IsClosed guid_of online x
          → IsClosed guid_of online (f x))
      → ((x : Option PrivateChatChannel) → is_some (f x) ≡ true → is_some x ≡ true)
      → ((x : Option PrivateChatChannel) (g : ℕ) → is_owned g (f x) ≡ true → is_owned g x ≡ true)
      → IsWellKept guid_of online (change_private guid_of f o chat)
  unfolding change_private
  change_private-IsWellKept f none chat w c s o = w
  change_private-IsWellKept f (some k) chat w c s o =
      update-IsWellKept chat k (f (chat.private_channels k)) w
        (c (chat.private_channels k) (w.closed k)) (s (chat.private_channels k))
        (o (chat.private_channels k))

  -- The users of a channel change.
  pub change_users-IsWellKept :
      (f : List ℕ → List ℕ) (c : ChatChannel) (chat : Chat)
      → IsWellKept guid_of online chat
      → ((k : ℕ)
          → c ≡ private_channel k
          → IsClosed guid_of online (with_private_users guid_of f (chat.private_channels k)))
      → IsWellKept guid_of online (change_users guid_of f c chat)
  unfolding change_users
  change_users-IsWellKept f (normal_channel k) chat w h =
      changed-IsWellKept guid_of online chat (change_users guid_of f (normal_channel k) chat) w
        w.closed (λ j e. e) (λ j g e. e)
  change_users-IsWellKept f (private_channel k) chat w h =
      update-IsWellKept chat k (with_private_users guid_of f (chat.private_channels k)) w (h k refl)
        (same_some f (chat.private_channels k)) (same_owner f (chat.private_channels k))
  change_users-IsWellKept f (party_channel k) chat w h =
      changed-IsWellKept guid_of online chat (change_users guid_of f (party_channel k) chat) w
        w.closed (λ j e. e) (λ j g e. e)
  change_users-IsWellKept f (guild_channel k) chat w h =
      changed-IsWellKept guid_of online chat (change_users guid_of f (guild_channel k) chat) w
        w.closed (λ j e. e) (λ j g e. e)
