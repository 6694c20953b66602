-- ===== src/Trade/Closing.antt =====
-- A trade that is closed or accepted keeps the two sides of every trade in agreement.
use theforgottenserver.Prelude.{
  ℕ, ◌≡◌, refl, inl, inr, true, false, ◌||◌, Option, none, some, ◌==◌, if◌then◌else◌, arith,
  Bool-cases, ==-refl, ==→eq, ap, sym, ◌∙◌, subst, fun_ext,
}
use mathlib.Core.Option.{some-injective}
use theforgottenserver.Trade.{
  TradeState, no_trade, initiated, accept, acknowledge, transfer, Trader, Trades, idle, is_accept,
  is_acknowledge, is_initiated, is_transfer, refers_to, set_trader, find_item, release_item, free,
  free_partner, is_transferring, internal_close_trade,
}
use theforgottenserver.Trade.Ledger.{find_item-release_item}
use theforgottenserver.Trade.Pairs.{IsLegal, IsConsistent, settled-IsConsistent}
use theforgottenserver.Trade.Starting.{AreConsistent, refers_to-eq, offer_of}
use theforgottenserver.Trade.Requests.{Env, complete_trade, accept_with, player_accept_trade}

-- What is written twice at a player is what was written last.
pub set_trader-set_trader :
    (p : ℕ) (x y : Trader) (players : ℕ → Trader)
    → set_trader p x (set_trader p y players) ≡ set_trader p x players
unfolding set_trader
set_trader-set_trader p x y players =
    fun_ext (λ r. elim (Bool-cases (r == p)) [ inl e ↦ rw e refl | inr e ↦ rw e refl ])

pub set_trader_same :
    (p : ℕ) (x : Trader) (players : ℕ → Trader) → players p ≡ x → set_trader p x players ≡ players
unfolding set_trader
set_trader_same p x players h = fun_ext (λ r. elim (Bool-cases (r == p)) [
  | inl e ↦ rw e (sym h ∙ ap players (sym (==→eq r p e)))
  | inr e ↦ rw e refl
])

pub set_trader_other :
    (p r : ℕ) (x : Trader) (players : ℕ → Trader)
    → (r == p) ≡ false
    → set_trader p x players r ≡ players r
unfolding set_trader
set_trader_other p r x players e = rw e refl

refers_to_self : (o : Option ℕ) (p : ℕ) → o ≡ some p → refers_to o p ≡ true
unfolding refers_to
refers_to_self none p h = cc
refers_to_self (some k) p h = ground (arith, some-injective k p h)

-- The items that are left in the map.
left_items :
    (w : Trades) (p q j : ℕ)
    → find_item j (release_item (w.players q).item (release_item (w.players p).item w.trade_items))
      ≡ (if refers_to (w.players q).item j
          then none
          else if refers_to (w.players p).item j
          then none
          else find_item j w.trade_items)
left_items w p q j =
    find_item-release_item (w.players q).item j (release_item (w.players p).item w.trade_items)
    ∙ ap (λ o. if refers_to (w.players q).item j then none else o)
        (find_item-release_item (w.players p).item j w.trade_items)

module _ (w : Trades) (p q j r : ℕ) (c : AreConsistent w) where
  freed_offered :
      (if refers_to (w.players q).item j
          then none
          else if refers_to (w.players p).item j
          then none
          else find_item j w.trade_items)
        ≡ some r
      → (if r == q then none else if r == p then none else (w.players r).item) ≡ some j
  freed_offered h = ground (
    arith,
    c.offered j r,
    refers_to_self (w.players p).item j,
    refers_to_self (w.players q).item j,
  )

  freed_listed :
      (if r == q then none else if r == p then none else (w.players r).item) ≡ some j
      → (if refers_to (w.players q).item j
          then none
          else if refers_to (w.players p).item j
          then none
          else find_item j w.trade_items)
        ≡ some r
  freed_listed h = ground (
    arith,
    c.listed j r,
    c.listed j p,
    c.listed j q,
    refers_to-eq (w.players p).item j,
    refers_to-eq (w.players q).item j,
  )

-- Two partners that are both set free.
freed-IsConsistent :
    (w : Trades) (p q : ℕ)
    → AreConsistent w
    → (w.players p).partner ≡ some q
    → IsConsistent
        (set_trader q idle (set_trader p idle w.players))
        (release_item (w.players q).item (release_item (w.players p).item w.trade_items))
freed-IsConsistent w p q c partners =
    settled-IsConsistent w.players w.trade_items
      (release_item (w.players q).item (release_item (w.players p).item w.trade_items)) p q idle
      idle c (c.apart p q partners) (inr partners) (inr (c.both_ways p q partners)) (refl, refl)
      (refl, refl) (inl (refl, refl))
      (λ j r h.
        offer_of w.players p q idle idle r
        ∙ freed_offered w p q j r c (sym (left_items w p q j) ∙ h))
      (λ j r h.
        left_items w p q j
        ∙ freed_listed w p q j r c (sym (offer_of w.players p q idle idle r) ∙ h))

pub freed-AreConsistent :
    (w : Trades) (p q : ℕ)
    → AreConsistent w
    → (w.players p).partner ≡ some q
    → AreConsistent (free q (free p w))
unfolding free
freed-AreConsistent w p q c partners =
    subst
      (λ x.
        IsConsistent (set_trader q idle (set_trader p idle w.players))
          (release_item x (release_item (w.players p).item w.trade_items)))
      (ap (λ x. x.item) (sym (set_trader_other p q idle w.players (apart (c.apart p q partners)))))
      (freed-IsConsistent w p q c partners)
  where
    apart : (p == q) ≡ false → (q == p) ≡ false
    apart e = ground arith

-- A player without a partner has nothing else either.
lonely-idle :
    (s : TradeState) (partner item : Option ℕ)
    → IsLegal s partner item
    → partner ≡ none
    → (s ≡ no_trade) × (item ≡ none)
lonely-idle no_trade partner item (a, b) h = (refl, b)
lonely-idle initiated partner item ((q, a), b) h = cc
lonely-idle acknowledge partner item ((q, a), b) h = cc
lonely-idle accept partner item (q, a) h = cc
lonely-idle transfer partner item l h = elim l [ ]

lonely-AreConsistent :
    (w : Trades) (p : ℕ) → AreConsistent w → (w.players p).partner ≡ none → AreConsistent (free p w)
unfolding free release_item
lonely-AreConsistent w p c h =
    let (s, i) =
      lonely-idle (w.players p).state (w.players p).partner (w.players p).item (c.legal p) h in
    subst (λ x. IsConsistent x (release_item (w.players p).item w.trade_items))
      (sym (set_trader_same p idle w.players (is_idle s i)))
      (subst (λ o. IsConsistent w.players (release_item o w.trade_items)) (sym i) c)
  where
    is_idle : (w.players p).state ≡ no_trade → (w.players p).item ≡ none → w.players p ≡ idle
    is_idle s i = λ k. record { state = s k; partner = h k; item = i k }

closed-AreConsistent :
    (w : Trades) (p : ℕ) (o : Option ℕ)
    → AreConsistent w
    → (w.players p).partner ≡ o
    → AreConsistent (free_partner o (free p w))
unfolding free_partner
closed-AreConsistent w p none c h = lonely-AreConsistent w p c h
closed-AreConsistent w p (some q) c h = freed-AreConsistent w p q c h

pub internal_close_trade-AreConsistent :
    (w : Trades) (p : ℕ) → AreConsistent w → AreConsistent (internal_close_trade p w)
unfolding internal_close_trade
internal_close_trade-AreConsistent w p c =
    elim (Bool-cases (is_transferring w (w.players p).partner || is_transfer (w.players p).state)) [
      | inl e ↦ rw e c
      | inr e ↦ rw e (closed-AreConsistent w p (w.players p).partner c refl)
    ]

-- A player with a partner accepts, the other not having done so.
accepted-AreConsistent :
    (w : Trades) (p q : ℕ)
    → AreConsistent w
    → (w.players p).partner ≡ some q
    → is_accept (w.players q).state ≡ false
    → AreConsistent
        (record w { players = set_trader p (record (w.players p) { state = accept }) w.players })
unfolding is_accept
accepted-AreConsistent w p q c partners other =
    subst (λ f. IsConsistent f w.trade_items)
      (set_trader_same q (w.players q) (set_trader p x w.players)
        (set_trader_other p q x w.players (flip (c.apart p q partners))))
      (settled-IsConsistent w.players w.trade_items w.trade_items p q x (w.players q) c
        (c.apart p q partners) (inr partners) (inr (c.both_ways p q partners)) (q, partners)
        (c.legal q) (inr (partners, c.both_ways p q partners, λ h. other, λ h. cc))
        (λ j r h. offers r ∙ c.offered j r h) (λ j r h. c.listed j r (sym (offers r) ∙ h)))
  where
    x : Trader
    x = record (w.players p) { state = accept }

    flip : (p == q) ≡ false → (q == p) ≡ false
    flip e = ground arith

    offers :
        (r : ℕ)
        → (set_trader q (w.players q) (set_trader p x w.players) r).item ≡ (w.players r).item
    offers r = offer_of w.players p q x (w.players q) r ∙ elim (Bool-cases (r == q)) [
      | inl e ↦ rw e (ap (λ k. (w.players k).item) (sym (==→eq r q e)))
      | inr e ↦ elim (Bool-cases (r == p)) [
        | inl f ↦ rw (e, f) (ap (λ k. (w.players k).item) (sym (==→eq r p f)))
        | inr f ↦ rw (e, f) refl
      ]
    ]

accept-not_transfer : (s : TradeState) → is_accept s ≡ true → is_transfer s ≡ false
unfolding is_accept is_transfer
accept-not_transfer no_trade h = refl
accept-not_transfer initiated h = refl
accept-not_transfer accept h = refl
accept-not_transfer acknowledge h = refl
accept-not_transfer transfer h = cc

-- Closing a trade that is not being transferred frees both.
pub internal_close_trade-eq :
    (w : Trades) (p q : ℕ)
    → (w.players p).partner ≡ some q
    → is_transfer (w.players p).state ≡ false
    → is_transfer (w.players q).state ≡ false
    → internal_close_trade p w ≡ free q (free p w)
unfolding internal_close_trade is_transferring free_partner
internal_close_trade-eq w p q h own other = simp (h, own, other)

-- A player that accepts.
abbrev pub accepting : ℕ → Trades → Trades
accepting p w = record w {
  players = set_trader p (record (w.players p) { state = accept }) w.players;
}

pub at_accepting :
    (w : Trades) (p : ℕ) → (accepting p w).players p ≡ record (w.players p) { state = accept }
unfolding set_trader
at_accepting w p = rw (==-refl p) refl

free-accepting : (w : Trades) (p : ℕ) → free p (accepting p w) ≡ free p w
unfolding free
free-accepting w p = λ k. record {
  players = set_trader-set_trader p idle (record (w.players p) { state = accept }) w.players k;
  trade_items = release_item (ap (λ x. x.item) (at_accepting w p) k) w.trade_items;
}

-- Both have accepted: whatever the scripts and the tests answer, both are free afterwards.
pub complete_trade-frees :
    (env : Env) (w : Trades) (p q : ℕ)
    → (w.players p).partner ≡ some q
    → (p == q) ≡ false
    → is_accept (w.players q).state ≡ true
    → (complete_trade env p q (accepting p w)).1 ≡ free q (free p w)
unfolding complete_trade is_accept
complete_trade-frees env w p q partners apart other = elim (Bool-cases env.on_trade_accept) [
  | inl e ↦ rw e (ap (free q) (free-accepting w p))
  | inr e ↦ rw e (
      internal_close_trade-eq (accepting p w) p q
        (ap (λ x. x.partner) (at_accepting w p) ∙ partners)
        (ap (λ x. is_transfer x.state) (at_accepting w p) ∙ accept-not_transfer accept refl)
        (ap (λ x. is_transfer x.state)
            (set_trader_other p q (record (w.players p) { state = accept }) w.players (flip apart))
          ∙ accept-not_transfer (w.players q).state other)
      ∙ ap (free q) (free-accepting w p))
]
  where
    flip : (p == q) ≡ false → (q == p) ≡ false
    flip e = ground arith

accept_with-AreConsistent :
    (env : Env) (w : Trades) (p : ℕ) (o : Option ℕ)
    → AreConsistent w
    → (w.players p).partner ≡ o
    → AreConsistent (accept_with env p o w).1
unfolding accept_with
accept_with-AreConsistent env w p none c h = c
accept_with-AreConsistent env w p (some q) c h =
    elim (Bool-cases (env.can_throw_object_to (env.position q) (env.position p))) [
      | inl e ↦ elim (Bool-cases (is_accept ((accepting p w).players q).state)) [
        | inl f ↦
            rw (e, f)
              (subst AreConsistent
                (sym (complete_trade-frees env w p q h (c.apart p q h) (sym (other q h) ∙ f)))
                (freed-AreConsistent w p q c h))
        | inr f ↦ rw (e, f) (accepted-AreConsistent w p q c h (sym (other q h) ∙ f))
      ]
      | inr e ↦ rw e c
    ]
  where
    flip : (q : ℕ) → (p == q) ≡ false → (q == p) ≡ false
    flip q e = ground arith

    other :
        (q : ℕ)
        → (w.players p).partner ≡ some q
        → is_accept ((accepting p w).players q).state ≡ is_accept (w.players q).state
    other q h =
        ap (λ x. is_accept x.state)
          (set_trader_other p q (record (w.players p) { state = accept }) w.players
            (flip q (c.apart p q h)))

pub player_accept_trade-AreConsistent :
    (env : Env) (w : Trades) (p : ℕ)
    → AreConsistent w
    → AreConsistent (player_accept_trade env p w).1
unfolding player_accept_trade
player_accept_trade-AreConsistent env w p c = elim (Bool-cases (env.is_player p)) [
  | inl e ↦
      elim (Bool-cases (is_acknowledge (w.players p).state || is_initiated (w.players p).state)) [
        | inl f ↦ rw (e, f) (accept_with-AreConsistent env w p (w.players p).partner c refl)
        | inr f ↦ rw (e, f) c
      ]
  | inr e ↦ rw e c
]
