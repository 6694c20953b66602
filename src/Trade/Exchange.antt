-- ===== src/Trade/Exchange.antt =====
-- When items change hands in a trade.
use theforgottenserver.Prelude.{
  ℕ, ◌≡◌, refl, inl, inr, Bool, true, false, ◌||◌, ◌&&◌, not, Option, none, some, List, [], ◌∷◌,
  ◌==◌, if◌then◌else◌, arith, Bool-cases, ==-refl, ap, sym, ◌∙◌, subst,
}
use theforgottenserver.Trade.{
  Trades, idle, accept, is_accept, is_acknowledge, is_initiated, set_trader, find_item, free,
  refers_to, release_item,
}
use theforgottenserver.Trade.Ledger.{find_item-release_item}
use theforgottenserver.Trade.Starting.{AreConsistent}
use theforgottenserver.Trade.Closing.{
  accepting, at_accepting, set_trader_other, complete_trade-frees,
}
use theforgottenserver.Trade.Requests.{
  Env, Move, move, allowed, moves_to, exchange, complete_trade, accept_with, player_accept_trade,
}

-- Two players exchange items: each offers one, the other has accepted, and the scripts and the tests
-- of the game agree. The first item goes to the other; the second comes back if its own move
-- succeeds.
pub record IsExchange (env : Env) (w : Trades) (p q i j : ℕ) (moves : List Move) : Type 0 where
  pub partners : ((w.players p).partner ≡ some q) × ((w.players q).partner ≡ some p)
  pub offers : ((w.players p).item ≡ some i) × ((w.players q).item ≡ some j)
  pub accepted : is_accept (w.players q).state ≡ true
  pub agreed : env.on_trade_accept ≡ true
  pub fits : (env.add_item q i ≡ true) × (env.add_item p j ≡ true)
  pub moved : moves ≡ move i q ∷ (if env.move_item j p then move j p ∷ [] else [])

all_passed :
    (a b c d e : Bool) (xs : List Move) (m : Move) (ms : List Move)
    → (if a && b && c && d && e then xs else []) ≡ m ∷ ms
    → (a ≡ true) × (b ≡ true) × (xs ≡ m ∷ ms)
all_passed a b c d e xs m ms h = ground arith

exchange_lem :
    (env : Env) (p q : ℕ) (item1 item2 : Option ℕ) (m : Move) (ms : List Move)
    → exchange env p q item1 item2 ≡ m ∷ ms
    → (i : ℕ) × (j : ℕ) × (item1 ≡ some i)
      × (item2 ≡ some j)
      × (env.add_item q i ≡ true)
      × (env.add_item p j ≡ true)
      × (m ∷ ms ≡ move i q ∷ (if env.move_item j p then move j p ∷ [] else []))
unfolding exchange allowed moves_to
exchange_lem env p q none item2 m ms h = cc
exchange_lem env p q (some i) none m ms h =
    let (a, b, c) =
      all_passed (env.add_item q i) false (env.remove_item i) false (env.move_item i q)
        (move i q ∷ []) m ms h in
    cc
exchange_lem env p q (some i) (some j) m ms h =
    let (a, b, c) =
      all_passed (env.add_item q i) (env.add_item p j) (env.remove_item i) (env.remove_item j)
        (env.move_item i q) (move i q ∷ (if env.move_item j p then move j p ∷ [] else [])) m ms h in
    (i, j, refl, refl, a, b, sym c)

complete_trade_lem :
    (env : Env) (p q : ℕ) (w : Trades) (m : Move) (ms : List Move)
    → (complete_trade env p q w).0 ≡ m ∷ ms
    → (env.on_trade_accept ≡ true)
      × (exchange env p q (w.players p).item (w.players q).item ≡ m ∷ ms)
unfolding complete_trade
complete_trade_lem env p q w m ms h = elim (Bool-cases (not env.on_trade_accept)) [
  | inl e ↦ cc (nothing e)
  | inr e ↦ (yes_then env.on_trade_accept e, chosen e)
]
  where
    yes_then : (b : Bool) → not b ≡ false → b ≡ true
    yes_then true e = refl
    yes_then false e = cc

    nothing : (not env.on_trade_accept) ≡ true → [] ≡ m ∷ ms
    nothing e = sym (rw e refl) ∙ h

    chosen :
        (not env.on_trade_accept) ≡ false
        → exchange env p q (w.players p).item (w.players q).item ≡ m ∷ ms
    chosen e = sym (rw e refl) ∙ h

abbrev Result : Type 0
Result = List Move × Trades

else_branch :
    (b : Bool) (x y : Result) (m : Move) (ms : List Move)
    → x.0 ≡ []
    → (if b then x else y).0 ≡ m ∷ ms
    → ((if b then x else y) ≡ y) × (y.0 ≡ m ∷ ms)
else_branch true x y m ms e h = cc
else_branch false x y m ms e h = (refl, h)

then_branch :
    (b : Bool) (x y : Result) (m : Move) (ms : List Move)
    → y.0 ≡ []
    → (if b then x else y).0 ≡ m ∷ ms
    → ((if b then x else y) ≡ x) × (b ≡ true)
then_branch true x y m ms e h = (refl, refl)
then_branch false x y m ms e h = cc

accept_with-completes :
    (env : Env) (p : ℕ) (o : Option ℕ) (w : Trades) (m : Move) (ms : List Move)
    → (accept_with env p o w).0 ≡ m ∷ ms
    → (q : ℕ) × (o ≡ some q)
      × (is_accept ((accepting p w).players q).state ≡ true)
      × (accept_with env p o w ≡ complete_trade env p q (accepting p w))
unfolding accept_with
accept_with-completes env p none w m ms h = cc
accept_with-completes env p (some q) w m ms h =
    let done : Result = complete_trade env p q (accepting p w) in
    let waits : Result = ([], accepting p w) in
    let b = is_accept ((accepting p w).players q).state in
    let (e, h1) =
      else_branch (not (env.can_throw_object_to (env.position q) (env.position p))) ([], w)
        (if b then done else waits) m ms refl h in
    let (f, a) = then_branch b done waits m ms refl h1 in (q, refl, a, e ∙ f)

player_accept_trade-completes :
    (env : Env) (p : ℕ) (w : Trades) (m : Move) (ms : List Move)
    → (player_accept_trade env p w).0 ≡ m ∷ ms
    → (q : ℕ) × ((w.players p).partner ≡ some q)
      × (is_accept ((accepting p w).players q).state ≡ true)
      × (player_accept_trade env p w ≡ complete_trade env p q (accepting p w))
unfolding player_accept_trade
player_accept_trade-completes env p w m ms h =
    let o = (w.players p).partner in
    let b = not (is_acknowledge (w.players p).state || is_initiated (w.players p).state) in
    let (e, h1) =
      else_branch (not (env.is_player p)) ([], w) (if b then ([], w) else accept_with env p o w) m
        ms refl h in
    let (f, h2) = else_branch b ([], w) (accept_with env p o w) m ms refl h1 in
    let (q, r, a, g) = accept_with-completes env p o w m ms h2 in (q, r, a, e ∙ f ∙ g)

-- Of two partners that have been freed neither is in a trade, nor is what they offered.
freed_lem :
    (w : Trades) (p q i j : ℕ)
    → AreConsistent w
    → (w.players p).partner ≡ some q
    → (w.players p).item ≡ some i
    → (w.players q).item ≡ some j
    → ((free q (free p w)).players p ≡ idle)
      × ((free q (free p w)).players q ≡ idle)
      × (find_item i (free q (free p w)).trade_items ≡ none)
      × (find_item j (free q (free p w)).trade_items ≡ none)
unfolding free set_trader refers_to
freed_lem w p q i j c partners hi hj = (
  at_p,
  at_q,
  gone_i,
  find_item-release_item ((free p w).players q).item j
        (release_item (w.players p).item w.trade_items)
      ∙ gone_j,
)
  where
    apart : (p == q) ≡ false
    apart = c.apart p q partners

    flip : (p == q) ≡ false → (q == p) ≡ false
    flip e = ground arith

    at_p : (free q (free p w)).players p ≡ idle
    at_p = rw (apart, ==-refl p) refl

    at_q : (free q (free p w)).players q ≡ idle
    at_q = rw (==-refl q) refl

    offer_q : ((free p w).players q).item ≡ some j
    offer_q = ap (λ x. x.item) (set_trader_other p q idle w.players (flip apart)) ∙ hj

    gone_j :
        (if refers_to ((free p w).players q).item j
          then none
          else find_item j (release_item (w.players p).item w.trade_items))
        ≡ none
    gone_j =
        ap (λ b. if b then none else find_item j (release_item (w.players p).item w.trade_items))
          (ap (λ o. refers_to o j) offer_q ∙ ==-refl j)

    gone_p : find_item i (release_item (w.players p).item w.trade_items) ≡ none
    gone_p =
        find_item-release_item (w.players p).item i w.trade_items
        ∙ ap (λ b. if b then none else find_item i w.trade_items)
            (ap (λ o. refers_to o i) hi ∙ ==-refl i)

    both :
        (b : Bool)
        → (if b then none else find_item i (release_item (w.players p).item w.trade_items)) ≡ none
    both true = refl
    both false = gone_p

    gone_i : find_item i (free q (free p w)).trade_items ≡ none
    gone_i =
        find_item-release_item ((free p w).players q).item i
          (release_item (w.players p).item w.trade_items)
        ∙ both (refers_to ((free p w).players q).item i)

-- Something changes hands when a player accepts only if the player and its partner each offer an
-- item, the partner has accepted, the scripts agree, and each item fits with the other player; and
-- then the first item goes to the partner, the second comes back exactly if its own move succeeds, so
-- that the first one may change hands alone, both players are free, and neither item is being traded
-- any more, if the two sides of all trades agree before.
pub player_accept_trade-IsExchange :
    (env : Env) (p : ℕ) (w : Trades) (m : Move) (ms : List Move)
    → AreConsistent w
    → (player_accept_trade env p w).0 ≡ m ∷ ms
    → (q : ℕ) × (i : ℕ) × (j : ℕ) × IsExchange env w p q i j (m ∷ ms)
      × (((player_accept_trade env p w).1.players p ≡ idle)
          × ((player_accept_trade env p w).1.players q ≡ idle)
          × (find_item i (player_accept_trade env p w).1.trade_items ≡ none)
          × (find_item j (player_accept_trade env p w).1.trade_items ≡ none))
player_accept_trade-IsExchange env p w m ms c h =
    let (q, partners, a, e) = player_accept_trade-completes env p w m ms h in
    let apart = c.apart p q partners in
    let at_q =
      set_trader_other p q (record (w.players p) { state = accept }) w.players (flip q apart) in
    let other = ap (λ x. is_accept x.state) (sym at_q) ∙ a in
    let (agreed, ex) =
      complete_trade_lem env p q (accepting p w) m ms (ap (λ r. r.0) (sym e) ∙ h) in
    let (i, j, hi, hj, fi, fj, moved) =
      exchange_lem env p q ((accepting p w).players p).item ((accepting p w).players q).item m ms
        ex in
    let hi' = ap (λ x. x.item) (sym (at_accepting w p)) ∙ hi in
    let hj' = ap (λ x. x.item) (sym at_q) ∙ hj in
    let after = ap (λ r. r.1) e ∙ complete_trade-frees env w p q partners apart other in
    (
      q,
      i,
      j,
      record {
        partners = (partners, c.both_ways p q partners);
        offers = (hi', hj');
        accepted = other;
        agreed = agreed;
        fits = (fi, fj);
        moved = moved;
      },
      subst
          (λ t.
            (t.players p ≡ idle)
            × (t.players q ≡ idle)
            × (find_item i t.trade_items ≡ none)
            × (find_item j t.trade_items ≡ none))
          (sym after) (freed_lem w p q i j c partners hi' hj'),
    )
  where
    flip : (q : ℕ) → (p == q) ≡ false → (q == p) ≡ false
    flip q e = ground arith
