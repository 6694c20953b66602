-- ===== src/Trade/Pairs.antt =====
-- The two sides of a trade agree, and an operation on them keeps this for all players.
use theforgottenserver.Prelude.{
  ℕ, ◌≡◌, ◌⊎◌, refl, inl, inr, Bool, true, false, Option, none, some, List, ◌==◌, arith, Bool-cases,
  ==-refl, ==→eq, ap, sym, ◌∙◌, subst,
}
use mathlib.Core.Option.{some-injective}
use theforgottenserver.Trade.{
  TradeState, no_trade, initiated, accept, acknowledge, transfer, Trader, is_accept, set_trader,
  find_item,
}

-- What goes together in the fields of one player. Between two requests nobody is transferring.
abbrev pub IsLegal : TradeState → Option ℕ → Option ℕ → Type 0
IsLegal no_trade partner item = (partner ≡ none) × (item ≡ none)
IsLegal initiated partner item = ((q : ℕ) × (partner ≡ some q)) × ((i : ℕ) × (item ≡ some i))
IsLegal acknowledge partner item = ((q : ℕ) × (partner ≡ some q)) × (item ≡ none)
IsLegal accept partner item = (q : ℕ) × (partner ≡ some q)
IsLegal transfer partner item = ⊥

-- The partner of a partner is the player itself, which is another; of two partners one has accepted
-- at most; and the items that are being traded are those that players offer, each of one player.
pub record IsConsistent (players : ℕ → Trader) (items : List (ℕ × ℕ)) : Type 0 where
  pub legal : (p : ℕ) → IsLegal (players p).state (players p).partner (players p).item
  pub both_ways : (p q : ℕ) → (players p).partner ≡ some q → (players q).partner ≡ some p
  pub apart : (p q : ℕ) → (players p).partner ≡ some q → (p == q) ≡ false
  pub one_accepts :
      (p q : ℕ)
      → (players p).partner ≡ some q
      → is_accept (players p).state ≡ true
      → is_accept (players q).state ≡ false
  pub offered : (i p : ℕ) → find_item i items ≡ some p → (players p).item ≡ some i
  pub listed : (i p : ℕ) → (players p).item ≡ some i → find_item i items ≡ some p

-- Two players after an operation: both are free, or they are each other's partners and not both have
-- accepted.
abbrev pub AreSettled : ℕ → ℕ → Trader → Trader → Type 0
AreSettled p q x y =
    ((x.partner ≡ none) × (y.partner ≡ none))
    ⊎ ((x.partner ≡ some q)
        × (y.partner ≡ some p)
        × (is_accept x.state ≡ true → is_accept y.state ≡ false)
        × (is_accept y.state ≡ true → is_accept x.state ≡ false))

module _ (players : ℕ → Trader) (items items' : List (ℕ × ℕ)) (p q : ℕ) (x y : Trader)
    (c : IsConsistent players items) (apart : (p == q) ≡ false)
    (p_before : ((players p).partner ≡ none) ⊎ ((players p).partner ≡ some q))
    (q_before : ((players q).partner ≡ none) ⊎ ((players q).partner ≡ some p))
    (p_legal : IsLegal x.state x.partner x.item) (q_legal : IsLegal y.state y.partner y.item)
    (settled : AreSettled p q x y) where
  abbrev after : ℕ → Trader
  after = set_trader q y (set_trader p x players)

  at_q : after q ≡ y
  unfolding set_trader
  at_q = rw (==-refl q) refl

  at_p : after p ≡ x
  unfolding set_trader
  at_p = rw (apart, ==-refl p) refl

  -- A statement on every player is one on the two and on all others as they were.
  after_cases :
      (P : ℕ → Trader → Type 0)
      → P p x
      → P q y
      → ((r : ℕ) → (r == p) ≡ false → (r == q) ≡ false → P r (players r))
      → (r : ℕ) → P r (after r)
  unfolding set_trader
  after_cases P hp hq other r = elim (Bool-cases (r == q)) [
    | inl e ↦ subst (λ k. P k (after k)) (sym (==→eq r q e)) (subst (P q) (sym at_q) hq)
    | inr e ↦ elim (Bool-cases (r == p)) [
      | inl f ↦ subst (λ k. P k (after k)) (sym (==→eq r p f)) (subst (P p) (sym at_p) hp)
      | inr f ↦ rw (e, f) (other r f e)
    ]
  ]

  -- Another player's partner is none of the two.
  not_these :
      (r s : ℕ)
      → (r == p) ≡ false
      → (r == q) ≡ false
      → (players r).partner ≡ some s
      → ((s == p) ≡ false) × ((s == q) ≡ false)
  not_these r s np nq h = (
    elim (Bool-cases (s == p)) [
      | inl e ↦
          not_back p q p_before nq
            (subst (λ k. (players k).partner ≡ some r) (==→eq s p e) (c.both_ways r s h))
      | inr e ↦ e
    ],
    elim (Bool-cases (s == q)) [
      | inl e ↦
          not_back q p q_before np
            (subst (λ k. (players k).partner ≡ some r) (==→eq s q e) (c.both_ways r s h))
      | inr e ↦ e
    ],
  )
    where
      not_back :
          {b : Bool} (p q : ℕ)
          → ((players p).partner ≡ none) ⊎ ((players p).partner ≡ some q)
          → (r == q) ≡ false
          → (players p).partner ≡ some r
          → b ≡ false
      not_back p q (inl e) n g = cc
      not_back p q (inr e) n g =
          cc (subst (λ k. (r == k) ≡ false) (some-injective q r (sym e ∙ g)) n, ==-refl r)

  -- The two agree with each other.
  both_ways_here : (r s : ℕ) → (after r).partner ≡ some s → (after s).partner ≡ some r
  both_ways_here r s =
      after_cases (λ r x'. x'.partner ≡ some s → (after s).partner ≡ some r) (from_p settled)
        (from_q settled) (λ r np nq h. let (n, m) = not_these r s np nq h in others r h n m) r
    where
      from_p : AreSettled p q x y → x.partner ≡ some s → (after s).partner ≡ some p
      from_p (inl (a, b)) h = cc
      from_p (inr (a, b, d, e)) h =
          subst (λ k. (after k).partner ≡ some p) (some-injective q s (sym a ∙ h))
            (ap (λ z. z.partner) at_q ∙ b)

      from_q : AreSettled p q x y → y.partner ≡ some s → (after s).partner ≡ some q
      from_q (inl (a, b)) h = cc
      from_q (inr (a, b, d, e)) h =
          subst (λ k. (after k).partner ≡ some q) (some-injective p s (sym b ∙ h))
            (ap (λ z. z.partner) at_p ∙ a)

      others :
          (r : ℕ)
          → (players r).partner ≡ some s
          → (s == p) ≡ false
          → (s == q) ≡ false
          → (after s).partner ≡ some r
      others r h n m =
          after_cases
            (λ s z.
              (s == p) ≡ false
              → (s == q) ≡ false
              → (players r).partner ≡ some s
              → z.partner ≡ some r)
            (λ n m h. cc (==-refl p)) (λ n m h. cc (==-refl q)) (λ s np nq n m h. c.both_ways r s h)
            s n m h

  apart_p : (s : ℕ) → AreSettled p q x y → x.partner ≡ some s → (p == s) ≡ false
  apart_p s (inl (a, b)) h = cc
  apart_p s (inr (a, b, d, e)) h =
      subst (λ k. (p == k) ≡ false) (some-injective q s (sym a ∙ h)) apart

  apart_q : (s : ℕ) → AreSettled p q x y → y.partner ≡ some s → (q == s) ≡ false
  apart_q s (inl (a, b)) h = cc
  apart_q s (inr (a, b, d, e)) h =
      subst (λ k. (q == k) ≡ false) (some-injective p s (sym b ∙ h)) (ground arith)

  one_accepts_here :
      (r s : ℕ)
      → (after r).partner ≡ some s
      → is_accept (after r).state ≡ true
      → is_accept (after s).state ≡ false
  one_accepts_here r s =
      after_cases
        (λ r z. z.partner ≡ some s → is_accept z.state ≡ true → is_accept (after s).state ≡ false)
        (from_p settled) (from_q settled)
        (λ r np nq h k. let (n, m) = not_these r s np nq h in others r h k n m) r
    where
      from_p :
          AreSettled p q x y
          → x.partner ≡ some s
          → is_accept x.state ≡ true
          → is_accept (after s).state ≡ false
      from_p (inl (a, b)) h k = cc
      from_p (inr (a, b, d, e)) h k =
          subst (λ j. is_accept (after j).state ≡ false) (some-injective q s (sym a ∙ h))
            (ap (λ z. is_accept z.state) at_q ∙ d k)

      from_q :
          AreSettled p q x y
          → y.partner ≡ some s
          → is_accept y.state ≡ true
          → is_accept (after s).state ≡ false
      from_q (inl (a, b)) h k = cc
      from_q (inr (a, b, d, e)) h k =
          subst (λ j. is_accept (after j).state ≡ false) (some-injective p s (sym b ∙ h))
            (ap (λ z. is_accept z.state) at_p ∙ e k)

      others :
          (r : ℕ)
          → (players r).partner ≡ some s
          → is_accept (players r).state ≡ true
          → (s == p) ≡ false
          → (s == q) ≡ false
          → is_accept (after s).state ≡ false
      others r h k n m =
          after_cases
            (λ s z.
              (s == p) ≡ false
              → (s == q) ≡ false
              → (players r).partner ≡ some s
              → is_accept z.state ≡ false)
            (λ n m h. cc (==-refl p)) (λ n m h. cc (==-refl q))
            (λ s np nq n m h. c.one_accepts r s h k) s n m h

  pub settled-IsConsistent :
      ((i r : ℕ) → find_item i items' ≡ some r → (after r).item ≡ some i)
      → ((i r : ℕ) → (after r).item ≡ some i → find_item i items' ≡ some r)
      → IsConsistent after items'
  settled-IsConsistent off list = record {
    legal =
        after_cases (λ r z. IsLegal z.state z.partner z.item) p_legal q_legal
          (λ r np nq. c.legal r);
    both_ways = both_ways_here;
    apart = λ r s.
        after_cases (λ r z. z.partner ≡ some s → (r == s) ≡ false) (apart_p s settled)
          (apart_q s settled) (λ r np nq. c.apart r s) r;
    one_accepts = one_accepts_here;
    offered = off;
    listed = list;
  }
