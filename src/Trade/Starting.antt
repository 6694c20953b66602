-- ===== src/Trade/Starting.antt =====
-- A trade that begins keeps the two sides of every trade in agreement.
use theforgottenserver.Prelude.{
  ℕ, ◌≡◌, ◌⊎◌, refl, inl, inr, Bool, true, false, ◌&&◌, not, Option, none, some, ◌==◌,
  if◌then◌else◌, arith, Bool-cases, ==→eq, ap, sym, ◌∙◌,
}
use theforgottenserver.Trade.{
  TradeState, no_trade, initiated, accept, acknowledge, transfer, Trader, Trades, is_no_trade,
  is_accept, is_acknowledge, refers_to, set_trader, find_item, assign_item, acknowledged,
  internal_start_trade,
}
use theforgottenserver.Trade.Ledger.{find_item-assign_item}
use theforgottenserver.Trade.Pairs.{IsLegal, IsConsistent, settled-IsConsistent}

-- A state of trades in which the two sides agree.
abbrev pub AreConsistent : Trades → Type 0
AreConsistent w = IsConsistent w.players w.trade_items

-- A player that may begin a trade with another has no partner or this one, and offers nothing yet.
may_start :
    (q : ℕ) (s : TradeState) (partner item : Option ℕ)
    → IsLegal s partner item
    → (not (is_no_trade s) && not (is_acknowledge s && refers_to partner q)) ≡ false
    → ((partner ≡ none) ⊎ (partner ≡ some q)) × (item ≡ none)
unfolding is_no_trade is_acknowledge refers_to
may_start q no_trade partner item (a, b) h = (inl a, b)
may_start q initiated partner item l h = cc
may_start q accept partner item l h = cc
may_start q acknowledge none item ((r, a), b) h = cc
may_start q acknowledge (some k) item (a, b) h =
    (inr (elim (Bool-cases (k == q)) [ inl e ↦ ap some (==→eq k q e) | inr e ↦ cc (differs e) ]), b)
  where
    differs : (k == q) ≡ false → true ≡ false
    differs e = sym (rw e refl) ∙ h
may_start q transfer partner item l h = elim l [ ]

pub refers_to-eq : (o : Option ℕ) (p : ℕ) → refers_to o p ≡ true → o ≡ some p
unfolding refers_to
refers_to-eq none p h = cc
refers_to-eq (some k) p h = ap some (==→eq k p h)

not-false : (b : Bool) → not b ≡ false → b ≡ true
not-false true h = refl
not-false false h = cc

-- The other is free, or it is trading with this player.
abbrev Joins : ℕ → Trader → Trader → Type 0
Joins p y y' =
    ((y.partner ≡ none) ⊎ (y.partner ≡ some p))
    × (y'.partner ≡ some p)
    × (y'.item ≡ y.item)
    × IsLegal y'.state y'.partner y'.item

same-Joins :
    (p : ℕ) (y : Trader)
    → IsLegal y.state y.partner y.item
    → not (refers_to y.partner p) ≡ false
    → Joins p y y
same-Joins p y l h =
    let e = refers_to-eq y.partner p (not-false (refers_to y.partner p) h) in (inr e, e, refl, l)

may_join_from :
    (p : ℕ) (s : TradeState) (partner item : Option ℕ)
    → IsLegal s partner item
    → (not (is_no_trade s) && not (refers_to partner p)) ≡ false
    → let y : Trader = record { state = s; partner = partner; item = item } in
      Joins p y (acknowledged p y)
unfolding is_no_trade acknowledged
may_join_from p no_trade partner item (a, b) h = (inl a, refl, refl, ((p, refl), b))
may_join_from p initiated partner item l h =
    same-Joins p (record { state = initiated; partner = partner; item = item }) l h
may_join_from p accept partner item l h =
    same-Joins p (record { state = accept; partner = partner; item = item }) l h
may_join_from p acknowledge partner item l h =
    same-Joins p (record { state = acknowledge; partner = partner; item = item }) l h
may_join_from p transfer partner item l h = elim l [ ]

may_join :
    (p : ℕ) (y : Trader)
    → IsLegal y.state y.partner y.item
    → (not (is_no_trade y.state) && not (refers_to y.partner p)) ≡ false
    → Joins p y (acknowledged p y)
may_join p y = may_join_from p y.state y.partner y.item

-- The offers after two players have been written.
pub offer_of :
    (players : ℕ → Trader) (p q : ℕ) (x y : Trader) (r : ℕ)
    → (set_trader q y (set_trader p x players) r).item
      ≡ (if r == q then y.item else if r == p then x.item else (players r).item)
unfolding set_trader
offer_of players p q x y r = elim (Bool-cases (r == q)) [
  | inl e ↦ rw e refl
  | inr e ↦ elim (Bool-cases (r == p)) [ inl f ↦ rw (e, f) refl | inr f ↦ rw (e, f) refl ]
]

module _ (w : Trades) (p i j r : ℕ) (c : AreConsistent w) where
  begun_offered :
      (w.players p).item ≡ none
      → find_item j (assign_item i p w.trade_items) ≡ some r
      → (if r == p then some i else (w.players r).item) ≡ some j
  begun_offered empty h = ground (arith, find_item-assign_item i j p w.trade_items, c.offered j r)

  begun_listed :
      find_item i w.trade_items ≡ none
      → (if r == p then some i else (w.players r).item) ≡ some j
      → find_item j (assign_item i p w.trade_items) ≡ some r
  begun_listed new h = ground (arith, find_item-assign_item i j p w.trade_items, c.listed j r)

-- A trade that may begin begins, and the two are each other's partners.
begin-AreConsistent :
    (w : Trades) (p q i : ℕ)
    → AreConsistent w
    → (p == q) ≡ false
    → find_item i w.trade_items ≡ none
    → (not (is_no_trade (w.players p).state)
        && not (is_acknowledge (w.players p).state && refers_to (w.players p).partner q))
      ≡ false
    → (not (is_no_trade (w.players q).state) && not (refers_to (w.players q).partner p)) ≡ false
    → IsConsistent
        (set_trader q (acknowledged p (w.players q)) (
          set_trader p
            (record (w.players p) { partner = some q; item = some i; state = initiated })
            w.players))
        (assign_item i p w.trade_items)
unfolding is_accept
begin-AreConsistent w p q i c apart new may_p may_q =
    let (p_before, empty) =
      may_start q (w.players p).state (w.players p).partner (w.players p).item (c.legal p) may_p in
    let (q_before, back, same, legal) = may_join p (w.players q) (c.legal q) may_q in
    settled-IsConsistent w.players w.trade_items (assign_item i p w.trade_items) p q
      (record (w.players p) { partner = some q; item = some i; state = initiated })
      (acknowledged p (w.players q)) c apart p_before q_before ((q, refl), (i, refl)) legal
      (inr (refl, back, λ h. cc, λ h. refl)) (λ j r h. offers r ∙ begun_offered w p i j r c empty h)
      (λ j r h. begun_listed w p i j r c new (sym (offers r) ∙ h))
  where
    not_p : (r : ℕ) → (r == q) ≡ true → (r == p) ≡ false
    not_p r e = ground arith

    offers :
        (r : ℕ)
        → (set_trader q
            (acknowledged p (w.players q))
            (set_trader p
              (record (w.players p) { partner = some q; item = some i; state = initiated })
              w.players)
            r).item
          ≡ (if r == p then some i else (w.players r).item)
    offers r =
        let (before, back, same, legal) = may_join p (w.players q) (c.legal q) may_q in
        offer_of w.players p q
          (record (w.players p) { partner = some q; item = some i; state = initiated })
          (acknowledged p (w.players q)) r
        ∙ elim (Bool-cases (r == q)) [
          | inl e ↦ rw (e, not_p r e) (same ∙ ap (λ k. (w.players k).item) (sym (==→eq r q e)))
          | inr e ↦ rw e refl
        ]

pub internal_start_trade-AreConsistent :
    (w : Trades) (p q i : ℕ)
    → AreConsistent w
    → (p == q) ≡ false
    → find_item i w.trade_items ≡ none
    → AreConsistent (internal_start_trade p q i w).1
unfolding internal_start_trade
internal_start_trade-AreConsistent w p q i c apart new =
    elim (Bool-cases (
      not (is_no_trade (w.players p).state)
      && not (is_acknowledge (w.players p).state && refers_to (w.players p).partner q))) [
        | inl e ↦ rw e c
        | inr e ↦
            elim (Bool-cases
              (not (is_no_trade (w.players q).state) && not (refers_to (w.players q).partner p))) [
                | inl f ↦ rw (e, f) c
                | inr f ↦ rw (e, f) (begin-AreConsistent w p q i c apart new e f)
              ]
      ]
