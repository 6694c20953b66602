-- ===== src/Trade/Tests.antt =====
-- A trade of two players, step by step, and the theorems at it.
use theforgottenserver.Prelude.{ℕ, ◌≡◌, refl, true, false, none, some, List, [], ◌∷◌, ltb}
use theforgottenserver.Trade.{
  Trades, idle, set_trader, find_item, erase_item, assign_item, is_no_trade, is_accept,
  is_acknowledge, is_initiated, refers_to, acknowledged, internal_start_trade,
}
use theforgottenserver.Trade.Requests.{
  Env, move, player_request_trade, request_thing, request_item, is_being_traded, is_too_many,
  distance, are_in_range, are_in_range_z, player_accept_trade, accept_with, complete_trade,
  exchange, allowed, moves_to,
}
use theforgottenserver.Trade.Starting.{AreConsistent}
use theforgottenserver.Trade.Runs.{Event, request, accepts, handle, run, run-AreConsistent}
use theforgottenserver.Trade.Exchange.{IsExchange, player_accept_trade-IsExchange}

abbrev env : Env
env = record {
  is_player = λ p. ltb p 5;
  position = λ p. record { x = 10; y = 10; z = 7 };
  item_position = λ i. record { x = 10; y = 10; z = 7 };
  can_throw_object_to = λ a b. true;
  client_id = λ i. i;
  is_pickupable = λ i. true;
  has_unique_id = λ i. false;
  holds = λ i j. false;
  item_holding_count = λ i. none;
  has_path = true;
  on_trade_request = true;
  on_trade_accept = true;
  add_item = λ p i. true;
  remove_item = λ i. true;
  move_item = λ i p. true;
}

abbrev nobody : Trades
nobody = record { players = λ p. idle; trade_items = [] }

nobody-AreConsistent : AreConsistent nobody
unfolding find_item
nobody-AreConsistent = record {
  legal = λ p. (refl, refl);
  both_ways = λ p q h. cc;
  apart = λ p q h. cc;
  one_accepts = λ p q h k. cc;
  offered = λ i p h. cc;
  listed = λ i p h. cc;
}

-- Player 1 offers item 50 to player 2, which offers item 60 and accepts.
abbrev offers : List (Env × Event)
offers = (env, request 1 2 (some 50) 50) ∷ (env, request 2 1 (some 60) 60) ∷ (env, accepts 2) ∷ []

run-AreConsistent_example : AreConsistent (run nobody offers)
run-AreConsistent_example = run-AreConsistent nobody offers nobody-AreConsistent

-- Then player 1 accepts.
exchanged : (player_accept_trade env 1 (run nobody offers)).0 ≡ move 50 2 ∷ move 60 1 ∷ []
unfolding run handle player_request_trade request_thing request_item is_being_traded is_too_many
    are_in_range are_in_range_z distance internal_start_trade acknowledged set_trader assign_item
    erase_item is_no_trade is_accept is_acknowledge is_initiated refers_to player_accept_trade
    accept_with complete_trade exchange allowed moves_to
exchanged = refl

player_accept_trade-IsExchange_example :
    (q : ℕ) × (i : ℕ) × (j : ℕ) × IsExchange env
      (run nobody offers)
      1
      q
      i
      j
      (move 50 2 ∷ move 60 1 ∷ [])
    × (((player_accept_trade env 1 (run nobody offers)).1.players 1 ≡ idle)
        × ((player_accept_trade env 1 (run nobody offers)).1.players q ≡ idle)
        × (find_item i (player_accept_trade env 1 (run nobody offers)).1.trade_items ≡ none)
        × (find_item j (player_accept_trade env 1 (run nobody offers)).1.trade_items ≡ none))
player_accept_trade-IsExchange_example =
    player_accept_trade-IsExchange env 1 (run nobody offers) (move 50 2) (move 60 1 ∷ [])
      (run-AreConsistent nobody offers nobody-AreConsistent) exchanged
