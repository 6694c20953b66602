-- ===== src/Trade/Runs.antt =====
-- The requests on trades in any order: the two sides of every trade agree throughout.
use theforgottenserver.Prelude.{
  ℕ, ◌≡◌, refl, inl, inr, Bool, true, false, ◌||◌, not, Option, none, some, List, [], ◌∷◌, ◌==◌,
  if◌then◌else◌, arith, Bool-cases,
}
use theforgottenserver.Trade.{Trades, find_item, internal_close_trade, refers_to, is_transfer}
use theforgottenserver.Trade.Starting.{AreConsistent, internal_start_trade-AreConsistent}
use theforgottenserver.Trade.Closing.{
  internal_close_trade-AreConsistent, player_accept_trade-AreConsistent,
}
use theforgottenserver.Trade.Requests.{
  Env, are_in_range, are_in_range_z, is_being_traded, is_too_many, request_item, request_thing,
  player_request_trade, player_accept_trade, player_close_trade, is_among, check_trade_state,
  is_out_of_range, is_away, on_creature_move, close_with, log_out,
}

-- An item that is not being traded is not in the map of those that are.
is_being_traded-find_item :
    (env : Env) (i : ℕ) (items : List (ℕ × ℕ))
    → is_being_traded env i items ≡ false
    → find_item i items ≡ none
unfolding is_being_traded find_item
is_being_traded-find_item env i [] h = refl
is_being_traded-find_item env i ((j, p) ∷ rest) h =
    ground (arith, is_being_traded-find_item env i rest)

request_item-AreConsistent :
    (env : Env) (p q i : ℕ) (w : Trades)
    → (p == q) ≡ false
    → AreConsistent w
    → AreConsistent (request_item env p q i w).1
unfolding request_item
request_item-AreConsistent env p q i w apart c =
    elim (Bool-cases (not ((env.position p).z == (env.item_position i).z))) [
      | inl e ↦ rw e c
      | inr e ↦
          rw e (elim (Bool-cases (not (are_in_range 1 1 (env.item_position i) (env.position p)))) [
            | inl f ↦ rw f c
            | inr f ↦ rw f (elim (Bool-cases (is_being_traded env i w.trade_items)) [
              | inl g ↦ rw g c
              | inr g ↦ rw g (elim (Bool-cases (is_too_many (env.item_holding_count i))) [
                | inl h ↦ rw h c
                | inr h ↦ rw h (elim (Bool-cases (not env.on_trade_request)) [
                  | inl k ↦ rw k c
                  | inr k ↦ rw k (
                      internal_start_trade-AreConsistent w p q i c apart
                        (is_being_traded-find_item env i w.trade_items g))
                ])
              ])
            ])
          ])
    ]

request_thing-AreConsistent :
    (env : Env) (p q : ℕ) (thing : Option ℕ) (sprite : ℕ) (w : Trades)
    → (p == q) ≡ false
    → AreConsistent w
    → AreConsistent (request_thing env p q thing sprite w).1
unfolding request_thing
request_thing-AreConsistent env p q none sprite w apart c = c
request_thing-AreConsistent env p q (some i) sprite w apart c =
    elim (Bool-cases
      (not (env.client_id i == sprite) || not (env.is_pickupable i) || env.has_unique_id i)) [
        | inl e ↦ rw e c
        | inr e ↦ rw e (request_item-AreConsistent env p q i w apart c)
      ]

player_request_trade-AreConsistent :
    (env : Env) (p q : ℕ) (thing : Option ℕ) (sprite : ℕ) (w : Trades)
    → AreConsistent w
    → AreConsistent (player_request_trade env p q thing sprite w).1
unfolding player_request_trade
player_request_trade-AreConsistent env p q thing sprite w c =
    elim (Bool-cases (not (env.is_player p))) [
      | inl e ↦ rw e c
      | inr e ↦ rw e (elim (Bool-cases (not (env.is_player q) || (q == p))) [
        | inl f ↦ rw f c
        | inr f ↦
            rw f (elim (Bool-cases (not (are_in_range_z 2 2 0 (env.position q) (env.position p)))) [
              | inl g ↦ rw g c
              | inr g ↦
                  rw g
                    (elim (Bool-cases
                      (not (env.can_throw_object_to (env.position q) (env.position p)))) [
                        | inl h ↦ rw h c
                        | inr h ↦ rw h (
                            request_thing-AreConsistent env p q thing sprite w
                              (other (not (env.is_player q)) f) c)
                      ])
            ])
      ])
    ]
  where
    other : (x : Bool) → (x || (q == p)) ≡ false → (p == q) ≡ false
    other true h = cc
    other false h = ground arith

-- One of two states is chosen, and both are consistent.
choose :
    (b : Bool) (x y : Trades)
    → AreConsistent x
    → AreConsistent y
    → AreConsistent (if b then x else y)
choose true x y f g = f
choose false x y f g = g

check_trade_state-AreConsistent :
    (p i : ℕ) (around : List ℕ) (w : Trades)
    → AreConsistent w
    → AreConsistent (check_trade_state p i around w)
unfolding check_trade_state
check_trade_state-AreConsistent p i around w c =
    let closed = internal_close_trade-AreConsistent w p c in
    let x = w.players p in
    let inner = if is_among x.item around then internal_close_trade p w else w in
    choose (is_transfer x.state) w (if refers_to x.item i then internal_close_trade p w else inner)
      c
      (choose (refers_to x.item i) (internal_close_trade p w) inner closed
        (choose (is_among x.item around) (internal_close_trade p w) w closed c))

on_creature_move-AreConsistent :
    (env : Env) (p : ℕ) (w : Trades) → AreConsistent w → AreConsistent (on_creature_move env p w)
unfolding on_creature_move
on_creature_move-AreConsistent env p w c =
    let x = w.players p in
    let w' = if is_out_of_range env p x.item then internal_close_trade p w else w in
    let first =
      choose (is_out_of_range env p x.item) (internal_close_trade p w) w
        (internal_close_trade-AreConsistent w p c) c in
    choose (is_transfer x.state) w
      (if is_away env p (w'.players p).partner then internal_close_trade p w' else w') c
      (choose (is_away env p (w'.players p).partner) (internal_close_trade p w') w'
        (internal_close_trade-AreConsistent w' p first) first)

close_with-AreConsistent :
    (o : Option ℕ) (p : ℕ) (w : Trades) → AreConsistent w → AreConsistent (close_with o p w)
unfolding close_with
close_with-AreConsistent none p w c = c
close_with-AreConsistent (some q) p w c = internal_close_trade-AreConsistent w p c

-- What can happen to trades: requests of clients, and events of the game.
pub data Event : Type 0 where
  request : ℕ → ℕ → Option ℕ → ℕ → Event
  accepts : ℕ → Event
  closes : ℕ → Event
  moves : ℕ → Event
  item_changes : ℕ → ℕ → List ℕ → Event
  logs_out : ℕ → Event

unfoldable pub handle : Env → Trades → Event → Trades
handle env w (request p q thing sprite) = (player_request_trade env p q thing sprite w).1
handle env w (accepts p) = (player_accept_trade env p w).1
handle env w (closes p) = player_close_trade env p w
handle env w (moves p) = on_creature_move env p w
handle env w (item_changes p i around) = check_trade_state p i around w
handle env w (logs_out p) = log_out p w

-- Events in their order, each with the game as it then is.
unfoldable pub run : Trades → List (Env × Event) → Trades
run w [] = w
run w ((env, e) ∷ rest) = run (handle env w e) rest

handle-AreConsistent :
    (env : Env) (w : Trades) (e : Event) → AreConsistent w → AreConsistent (handle env w e)
unfolding handle player_close_trade log_out
handle-AreConsistent env w (request p q thing sprite) c =
    player_request_trade-AreConsistent env p q thing sprite w c
handle-AreConsistent env w (accepts p) c = player_accept_trade-AreConsistent env w p c
handle-AreConsistent env w (closes p) c =
    choose (not (env.is_player p)) w (internal_close_trade p w) c
      (internal_close_trade-AreConsistent w p c)
handle-AreConsistent env w (moves p) c = on_creature_move-AreConsistent env p w c
handle-AreConsistent env w (item_changes p i around) c =
    check_trade_state-AreConsistent p i around w c
handle-AreConsistent env w (logs_out p) c = close_with-AreConsistent (w.players p).partner p w c

-- Whatever the clients request and the game does, in any order: the partner of a partner is the
-- player itself, and partners are two different players; a player offers an item only in a trade; of two partners one has
-- accepted at most; and the items that are being traded are those that players offer, each of one
-- player, if all this is so before.
pub run-AreConsistent :
    (w : Trades) (events : List (Env × Event)) → AreConsistent w → AreConsistent (run w events)
unfolding run
run-AreConsistent w [] c = c
run-AreConsistent w ((env, e) ∷ rest) c =
    run-AreConsistent (handle env w e) rest (handle-AreConsistent env w e c)
