-- ===== src/Chat/Kept.antt =====
-- Private channels: who is in them, whose they are, and their keys.
use theforgottenserver.Prelude.{
  ℕ, zero, suc, ◌+◌, ◌≤◌, ◌<◌, ◌≡◌, refl, sym, ap, ◌∙◌, Bool, true, false, not, ◌||◌, Option, none,
  some, ◌∷◌, ◌==◌, if◌then◌else◌, contains, without, contains-without, inl, inr, Bool-cases, arith,
  ==→eq, subst,
}
use mathlib.Core.Option.{some-injective}
use theforgottenserver.Chat.{
  update, PrivateChatChannel, Chat, is_some, first, is_invited, is_owned, is_admitted, join,
  with_private_users, private_users, leave_private, invite, exclude, owned_by,
}

-- The first number that passes a test, and that none does.
pub first-some :
    (test : ℕ → Bool) (n count k : ℕ)
    → first test n count ≡ some k
    → (test k ≡ true) × (n ≤ k) × (k < n + count)
unfolding first
first-some test n zero k h = cc
first-some test n (suc count) k h = elim (Bool-cases (test n)) [
  | inl e ↦
      let at =
        some-injective n k (sym (ap (λ b. if b then some n else first test (suc n) count) e) ∙ h) in
      (subst (λ j. test j ≡ true) at e, omega (arith, at), omega (arith, at))
  | inr e ↦
      let (t, a, b) =
        first-some test (suc n) count k
          (sym (ap (λ b. if b then some n else first test (suc n) count) e) ∙ h) in
      (t, omega (arith, a), omega (arith, b))
]

pub first-none :
    (test : ℕ → Bool) (n count k : ℕ)
    → first test n count ≡ none
    → n ≤ k
    → k < n + count
    → test k ≡ false
unfolding first
first-none test n zero k h a b = absurd (omega (arith, a, b))
first-none test n (suc count) k h a b = elim (Bool-cases (test n)) [
  | inl e ↦ absurd (not_some (sym (ap (λ b. if b then some n else first test (suc n) count) e) ∙ h))
  | inr e ↦ elim (Bool-cases (n == k)) [
    | inl f ↦ subst (λ j. test j ≡ false) (==→eq n k f) e
    | inr f ↦
        first-none test (suc n) count k
          (sym (ap (λ b. if b then some n else first test (suc n) count) e) ∙ h) (later n k f a)
          (omega (arith, b))
  ]
]
  where
    not_some : some n ≡ none → ⊥
    not_some e = cc

    later : (n k : ℕ) → (n == k) ≡ false → n ≤ k → suc n ≤ k
    later n k f a = ground arith

module _ (guid_of : ℕ → ℕ) (online : ℕ → Bool) where
  -- All users of a private channel are online, and its owner or invited.
  unfoldable pub IsClosed : Option PrivateChatChannel → Type 0
  IsClosed o =
      (u : ℕ)
      → contains u (private_users guid_of o) ≡ true
      → (is_admitted (guid_of u) o ≡ true) × (online u ≡ true)

  -- All private channels are closed to others, have keys from 100 on, below 10000, and no two have
  -- the same owner.
  pub record IsWellKept (chat : Chat) : Type 0 where
    pub closed : (k : ℕ) → IsClosed (chat.private_channels k)
    pub keys : (k : ℕ) → is_some (chat.private_channels k) ≡ true → (100 ≤ k) × (k < 10000)
    pub one_each :
        (j k g : ℕ)
        → is_owned g (chat.private_channels j) ≡ true
        → is_owned g (chat.private_channels k) ≡ true
        → j ≡ k

  -- A change that makes no channel and changes no owner.
  pub changed-IsWellKept :
      (chat chat' : Chat)
      → IsWellKept chat
      → ((k : ℕ) → IsClosed (chat'.private_channels k))
      → ((k : ℕ)
          → is_some (chat'.private_channels k) ≡ true
          → is_some (chat.private_channels k) ≡ true)
      → ((k g : ℕ)
          → is_owned g (chat'.private_channels k) ≡ true
          → is_owned g (chat.private_channels k) ≡ true)
      → IsWellKept chat'
  changed-IsWellKept chat chat' w c s o = record {
    closed = c;
    keys = λ k h. w.keys k (s k h);
    one_each = λ j k g a b. w.one_each j k g (o j g a) (o k g b);
  }

  pub none-IsClosed : IsClosed none
  unfolding IsClosed private_users
  none-IsClosed u h = cc

  pub owned_by-IsClosed : (g : ℕ) → IsClosed (some (owned_by g))
  unfolding IsClosed private_users owned_by
  owned_by-IsClosed g u h = cc

  -- Who is admitted and online may join.
  pub join-IsClosed :
      (allowed : Bool) (p : ℕ) (o : Option PrivateChatChannel)
      → IsClosed o
      → is_admitted (guid_of p) o ≡ true
      → online p ≡ true
      → IsClosed (with_private_users guid_of (join guid_of allowed p) o)
  unfolding IsClosed private_users with_private_users join is_admitted is_invited
  join-IsClosed allowed p none c a l u h = cc
  join-IsClosed allowed p (some ch) c a l u h = elim (Bool-cases (p == u)) [
    | inl e ↦
        let at : p ≡ u = ==→eq p u e in
        (subst (λ v. is_invited (guid_of v) ch ≡ true) at a, subst (λ v. online v ≡ true) at l)
    | inr e ↦ c u (stays (contains p ch.users || not allowed) e h)
  ]
    where
      stays :
          (b : Bool)
          → (p == u) ≡ false
          → contains u (if b then ch.users else p ∷ ch.users) ≡ true
          → contains u ch.users ≡ true
      stays true e h = h
      stays false e h = sym (ap (λ b. if b then true else contains u ch.users) e) ∙ h

  pub without-IsClosed :
      (p : ℕ) (o : Option PrivateChatChannel)
      → IsClosed o
      → IsClosed (with_private_users guid_of (without p) o)
  unfolding IsClosed private_users with_private_users is_admitted is_invited
  without-IsClosed p none c u h = cc
  without-IsClosed p (some ch) c u h = c u (ground (arith, contains-without p u ch.users))

  pub invite-IsClosed :
      (q : ℕ) (o : Option PrivateChatChannel) → IsClosed o → IsClosed (invite guid_of q o)
  unfolding IsClosed private_users invite is_admitted is_invited
  invite-IsClosed q none c = none-IsClosed
  invite-IsClosed q (some ch) c = elim (Bool-cases (contains (guid_of q) ch.invites)) [
    | inl e ↦ rw e c
    | inr e ↦ rw e (λ u h. (ground (arith, (c u h).0), (c u h).1))
  ]

  -- No other player online has the guid of this one.
  unfoldable pub IsAlone : ℕ → Type 0
  IsAlone q = (u : ℕ) → online u ≡ true → (guid_of u == guid_of q) ≡ true → u ≡ q

  still_admitted :
      (q u : ℕ) (ch : PrivateChatChannel)
      → IsAlone q
      → IsClosed (some ch)
      → contains u (without q ch.users) ≡ true
      → ((u == q) ≡ false)
        × (is_invited
              (guid_of u)
              (record ch { users = without q ch.users; invites = without (guid_of q) ch.invites })
            ≡ true)
        × (online u ≡ true)
  unfolding IsClosed private_users is_admitted is_invited IsAlone
  still_admitted q u ch alone c h =
      let there : contains u ch.users ≡ true = ground (arith, contains-without q u ch.users) in
      let other : (u == q) ≡ false = ground (arith, contains-without q u ch.users) in
      let (a, l) = c u there in
      let apart = alone u l in
      (other, ground (arith, contains-without (guid_of q) (guid_of u) ch.invites, a, apart), l)

  pub exclude-IsClosed :
      (q : ℕ) (o : Option PrivateChatChannel)
      → IsAlone q
      → IsClosed o
      → IsClosed (exclude guid_of q o)
  unfolding exclude IsClosed private_users is_admitted
  exclude-IsClosed q none alone c = none-IsClosed
  exclude-IsClosed q (some ch) alone c = elim (Bool-cases (contains (guid_of q) ch.invites)) [
    | inl e ↦ rw e (λ u h. let (other, a, l) = still_admitted q u ch alone c h in (a, l))
    | inr e ↦ rw e c
  ]

module _ (guid_of : ℕ → ℕ) (online : ℕ → Bool) (p : ℕ) where
  -- A player that logs out is online no more.
  pub leave_private-IsClosed :
      (o : Option PrivateChatChannel)
      → IsAlone guid_of online p
      → IsClosed guid_of online o
      → IsClosed guid_of (update p false online) (leave_private guid_of p o)
  unfolding leave_private IsClosed private_users is_admitted update
  leave_private-IsClosed none alone c = none-IsClosed guid_of (update p false online)
  leave_private-IsClosed (some ch) alone c = elim (Bool-cases (ch.owner == guid_of p)) [
    | inl e ↦ rw e (λ u h. cc)
    | inr e ↦ rw e (λ u h.
        let (other, a, l) = still_admitted guid_of online p u ch alone c h in
        (a, ap (λ b. if b then false else online u) other ∙ l))
  ]

  -- A player that logs in is online too.
  pub logged_in-IsClosed :
      (o : Option PrivateChatChannel)
      → IsClosed guid_of online o
      → IsClosed guid_of (update p true online) o
  unfolding IsClosed update
  logged_in-IsClosed o c u h = ((c u h).0, stays (u == p) (online u) (c u h).1)
    where
      stays : (a b : Bool) → b ≡ true → (if a then true else b) ≡ true
      stays true b e = refl
      stays false b e = e
