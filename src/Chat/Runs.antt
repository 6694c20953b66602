-- ===== src/Chat/Runs.antt =====
-- The requests on channels in any order: private channels stay closed to those not invited.
use theforgottenserver.Prelude.{
  ℕ, arith, ◌⊎◌, subst, ◌≡◌, refl, sym, ap, ◌∙◌, Bool, true, false, not, ◌||◌, Option, none, some,
  List, [], ◌∷◌, ◌==◌, if◌then◌else◌, contains, inl, inr, Bool-cases, ==→eq,
}
use theforgottenserver.Chat.{
  PrivateChatChannel, Chat, Env, update, is_some, is_owned, get_private_channel, get_channel,
  add_user_to_channel, remove_user_from_channel, leave_private, remove_user_from_all_channels,
  invite, exclude, change_private, player_create_private_channel, player_channel_invite,
  player_channel_exclude, player_open_channel, player_close_channel,
}
use theforgottenserver.Chat.Kept.{
  IsAlone, IsWellKept, logged_in-IsClosed, invite-IsClosed, exclude-IsClosed,
  leave_private-IsClosed,
}
use theforgottenserver.Chat.Changes.{change_private-IsWellKept}
use theforgottenserver.Chat.Access.{
  choose, get_channel-IsEntitled, add_user-IsWellKept, remove_from-IsWellKept,
  player_create_private_channel-IsWellKept,
}

-- What clients and the game do to channels.
pub data Event : Type 0 where
  creates : ℕ → Event
  opens closes invites excludes : ℕ → ℕ → Event
  logs_in logs_out : ℕ → Event

-- The players that are online, and the channels.
pub record World : Type 0 where
  pub online : ℕ → Bool
  pub chat : Chat

module _ (guid_of : ℕ → ℕ) where
  -- The game finds the players that are online; the rest of `env` is what scripts and the game answer.
  unfoldable pub handle : Env → World → Event → World
  handle env w (creates p) = record w {
    chat = player_create_private_channel guid_of (record env { is_player = w.online }) p w.chat;
  }
  handle env w (opens p id) = record w {
    chat = player_open_channel guid_of (record env { is_player = w.online }) p id w.chat;
  }
  handle env w (closes p id) = record w {
    chat = player_close_channel guid_of (record env { is_player = w.online }) p id w.chat;
  }
  handle env w (invites p q) = record w {
    chat = player_channel_invite guid_of (record env { is_player = w.online }) p q w.chat;
  }
  handle env w (excludes p q) = record w {
    chat = player_channel_exclude guid_of (record env { is_player = w.online }) p q w.chat;
  }
  handle env w (logs_in p) = record w { online = update p true w.online }
  handle env w (logs_out p) =
      if w.online p
      then record {
        online = update p false w.online;
        chat = remove_user_from_all_channels guid_of p w.chat;
      }
      else w

  -- Events in their order, each with what is answered then.
  unfoldable pub run : World → List (Env × Event) → World
  run w [] = w
  run w ((env, e) ∷ rest) = run (handle env w e) rest

  -- No player logs in while another with its guid is online.
  unfoldable pub IsFresh : World → Event → Type 0
  IsFresh w (logs_in p) = IsAlone guid_of w.online p
  IsFresh w (creates p) = Unit
  IsFresh w (opens p id) = Unit
  IsFresh w (closes p id) = Unit
  IsFresh w (invites p q) = Unit
  IsFresh w (excludes p q) = Unit
  IsFresh w (logs_out p) = Unit

  unfoldable pub AreFresh : World → List (Env × Event) → Type 0
  AreFresh w [] = Unit
  AreFresh w ((env, e) ∷ rest) = IsFresh w e × AreFresh (handle env w e) rest

  -- The private channels are well kept, and players online have different guids.
  pub record IsOrderly (w : World) : Type 0 where
    pub well_kept : IsWellKept guid_of w.online w.chat
    pub distinct : (p : ℕ) → w.online p ≡ true → IsAlone guid_of w.online p

  invite_keeps :
      (q : ℕ) (x : Option PrivateChatChannel)
      → (is_some (invite guid_of q x) ≡ true → is_some x ≡ true)
        × ((g : ℕ) → is_owned g (invite guid_of q x) ≡ true → is_owned g x ≡ true)
  unfolding invite is_owned is_some
  invite_keeps q none = (λ h. h, λ g h. h)
  invite_keeps q (some c) = elim (Bool-cases (contains (guid_of q) c.invites)) [
    | inl e ↦ rw e (λ h. h, λ g h. h)
    | inr e ↦ rw e (λ h. h, λ g h. h)
  ]

  exclude_keeps :
      (q : ℕ) (x : Option PrivateChatChannel)
      → (is_some (exclude guid_of q x) ≡ true → is_some x ≡ true)
        × ((g : ℕ) → is_owned g (exclude guid_of q x) ≡ true → is_owned g x ≡ true)
  unfolding exclude is_owned is_some
  exclude_keeps q none = (λ h. h, λ g h. h)
  exclude_keeps q (some c) = elim (Bool-cases (contains (guid_of q) c.invites)) [
    | inl e ↦ rw e (λ h. h, λ g h. h)
    | inr e ↦ rw e (λ h. h, λ g h. h)
  ]

  leave_private_keeps :
      (p : ℕ) (x : Option PrivateChatChannel)
      → (is_some (leave_private guid_of p x) ≡ true → is_some x ≡ true)
        × ((g : ℕ) → is_owned g (leave_private guid_of p x) ≡ true → is_owned g x ≡ true)
  unfolding leave_private is_owned is_some
  leave_private_keeps p none = (λ h. h, λ g h. h)
  leave_private_keeps p (some c) = elim (Bool-cases (c.owner == guid_of p)) [
    | inl e ↦ rw e (λ h. refl, λ g h. cc)
    | inr e ↦ rw e (λ h. h, λ g h. h)
  ]

  orderly :
      (w : World) (chat : Chat)
      → IsOrderly w
      → IsWellKept guid_of w.online chat
      → IsOrderly (record w { chat = chat })
  orderly w chat o k = record { well_kept = k; distinct = o.distinct }

  opened :
      (env : Env) (w : World) (p id : ℕ)
      → IsOrderly w
      → IsWellKept guid_of w.online
          (player_open_channel guid_of (record env { is_player = w.online }) p id w.chat)
  unfolding player_open_channel add_user_to_channel
  opened env w p id o = elim (Bool-cases (w.online p)) [
    | inl e ↦
        let env' : Env = record env { is_player = w.online } in
        rw e (
          add_user-IsWellKept guid_of w.online env' p (get_channel guid_of env' p id w.chat) w.chat
            o.well_kept (get_channel-IsEntitled guid_of w.online env' p id w.chat) e)
    | inr e ↦ rw e o.well_kept
  ]

  closed_again :
      (env : Env) (w : World) (p id : ℕ)
      → IsOrderly w
      → IsWellKept guid_of w.online
          (player_close_channel guid_of (record env { is_player = w.online }) p id w.chat)
  unfolding player_close_channel remove_user_from_channel
  closed_again env w p id o =
      let env' : Env = record env { is_player = w.online } in
      choose (IsWellKept guid_of w.online) (not (w.online p)) w.chat
        (remove_user_from_channel guid_of env' p id w.chat) o.well_kept
        (remove_from-IsWellKept guid_of w.online env' p id (get_channel guid_of env' p id w.chat)
          w.chat o.well_kept)

  invited :
      (env : Env) (w : World) (p q : ℕ)
      → IsOrderly w
      → IsWellKept guid_of w.online
          (player_channel_invite guid_of (record env { is_player = w.online }) p q w.chat)
  unfolding player_channel_invite
  invited env w p q o =
      let found = get_private_channel (guid_of p) w.chat in
      choose (IsWellKept guid_of w.online) (not (w.online p) || not (w.online q) || (p == q)) w.chat
        (change_private guid_of (invite guid_of q) found w.chat) o.well_kept
        (change_private-IsWellKept guid_of w.online (invite guid_of q) found w.chat o.well_kept
          (invite-IsClosed guid_of w.online q) (λ x. (invite_keeps q x).0)
          (λ x. (invite_keeps q x).1))

  shut_out :
      (env : Env) (w : World) (p q : ℕ)
      → IsOrderly w
      → IsWellKept guid_of w.online
          (player_channel_exclude guid_of (record env { is_player = w.online }) p q w.chat)
  unfolding player_channel_exclude
  shut_out env w p q o =
      let found = get_private_channel (guid_of p) w.chat in
      elim (Bool-cases (not (w.online p) || not (w.online q) || (p == q))) [
        | inl e ↦ rw e o.well_kept
        | inr e ↦ rw e (
            change_private-IsWellKept guid_of w.online (exclude guid_of q) found w.chat o.well_kept
              (λ x.
                exclude-IsClosed guid_of w.online q x
                  (o.distinct q (found_online (w.online p) (w.online q) (p == q) e)))
              (λ x. (exclude_keeps q x).0) (λ x. (exclude_keeps q x).1))
      ]
    where
      found_online : (a b c : Bool) → (not a || not b || c) ≡ false → b ≡ true
      found_online true true c h = refl
      found_online true false c h = cc
      found_online false b c h = cc

  logged_in :
      (w : World) (p : ℕ)
      → IsOrderly w
      → IsAlone guid_of w.online p
      → IsOrderly (record w { online = update p true w.online })
  unfolding IsAlone update
  logged_in w p o alone = record {
    well_kept = record {
      closed = λ k.
          logged_in-IsClosed guid_of w.online p (w.chat.private_channels k) (o.well_kept.closed k);
      keys = o.well_kept.keys;
      one_each = o.well_kept.one_each;
    };
    distinct = λ q hq u hu e. apart q u (Bool-cases (q == p)) (Bool-cases (u == p)) hq hu e;
  }
    where
      apart :
          (q u : ℕ)
          → ((q == p) ≡ true) ⊎ ((q == p) ≡ false)
          → ((u == p) ≡ true) ⊎ ((u == p) ≡ false)
          → (if q == p then true else w.online q) ≡ true
          → (if u == p then true else w.online u) ≡ true
          → (guid_of u == guid_of q) ≡ true
          → u ≡ q
      apart q u (inl a) (inl b) hq hu e = ==→eq u p b ∙ sym (==→eq q p a)
      apart q u (inl a) (inr b) hq hu e =
          alone u (sym (ap (λ c. if c then true else w.online u) b) ∙ hu)
            (subst (λ v. (guid_of u == guid_of v) ≡ true) (==→eq q p a) e)
          ∙ sym (==→eq q p a)
      apart q u (inr a) (inl b) hq hu e =
          let e' = subst (λ v. (guid_of v == guid_of q) ≡ true) (==→eq u p b) e in
          ==→eq u p b
          ∙ sym
              (alone q (sym (ap (λ c. if c then true else w.online q) a) ∙ hq) (ground (arith, e')))
      apart q u (inr a) (inr b) hq hu e =
          o.distinct q (sym (ap (λ c. if c then true else w.online q) a) ∙ hq) u
            (sym (ap (λ c. if c then true else w.online u) b) ∙ hu) e

  logged_out :
      (w : World) (p : ℕ)
      → IsOrderly w
      → w.online p ≡ true
      → IsOrderly (record {
        online = update p false w.online;
        chat = remove_user_from_all_channels guid_of p w.chat;
      })
  unfolding remove_user_from_all_channels IsAlone update
  logged_out w p o here = record {
    well_kept = record {
      closed = λ k.
          leave_private-IsClosed guid_of w.online p (w.chat.private_channels k) (o.distinct p here)
            (o.well_kept.closed k);
      keys = λ k h. o.well_kept.keys k ((leave_private_keeps p (w.chat.private_channels k)).0 h);
      one_each = λ i j g a b.
          o.well_kept.one_each i j g ((leave_private_keeps p (w.chat.private_channels i)).1 g a)
            ((leave_private_keeps p (w.chat.private_channels j)).1 g b);
    };
    distinct = λ q hq u hu e.
        o.distinct q (before (q == p) (w.online q) hq) u (before (u == p) (w.online u) hu) e;
  }
    where
      before : (a b : Bool) → (if a then false else b) ≡ true → b ≡ true
      before true b h = cc
      before false b h = h

  handle-IsOrderly :
      (env : Env) (w : World) (e : Event) → IsFresh w e → IsOrderly w → IsOrderly (handle env w e)
  unfolding handle IsFresh
  handle-IsOrderly env w (creates p) f o =
      orderly w
        (player_create_private_channel guid_of (record env { is_player = w.online }) p w.chat) o
        (player_create_private_channel-IsWellKept guid_of w.online
          (record env { is_player = w.online }) p w.chat o.well_kept (λ h. h))
  handle-IsOrderly env w (opens p id) f o =
      orderly w (player_open_channel guid_of (record env { is_player = w.online }) p id w.chat) o
        (opened env w p id o)
  handle-IsOrderly env w (closes p id) f o =
      orderly w (player_close_channel guid_of (record env { is_player = w.online }) p id w.chat) o
        (closed_again env w p id o)
  handle-IsOrderly env w (invites p q) f o =
      orderly w (player_channel_invite guid_of (record env { is_player = w.online }) p q w.chat) o
        (invited env w p q o)
  handle-IsOrderly env w (excludes p q) f o =
      orderly w (player_channel_exclude guid_of (record env { is_player = w.online }) p q w.chat) o
        (shut_out env w p q o)
  handle-IsOrderly env w (logs_in p) f o = logged_in w p o f
  handle-IsOrderly env w (logs_out p) f o = elim (Bool-cases (w.online p)) [
    | inl e ↦ rw e (logged_out w p o e)
    | inr e ↦ rw e o
  ]

  -- Whatever the players request and the scripts answer, in any order, and whoever logs in and out: all
  -- users of a private channel are online, and its owner or invited; private channels have keys from
  -- 100 on, below 10000, and no two have the same owner; and players online have different guids. This
  -- is so if it is so before, and if no player logs in while another with its guid is online.
  pub run-IsOrderly :
      (w : World) (events : List (Env × Event))
      → AreFresh w events
      → IsOrderly w
      → IsOrderly (run w events)
  unfolding run AreFresh
  run-IsOrderly w [] f o = o
  run-IsOrderly w ((env, e) ∷ rest) (f, fs) o =
      run-IsOrderly (handle env w e) rest fs (handle-IsOrderly env w e f o)
