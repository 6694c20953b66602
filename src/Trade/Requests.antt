-- ===== src/Trade/Requests.antt =====
-- The requests of the clients on trades, and what else closes one.
use theforgottenserver.Prelude.{
  ℕ, ◌+◌, ◌-◌, Bool, true, false, ◌||◌, ◌&&◌, not, Option, none, some, List, [], ◌∷◌, ◌++◌, ltb,
  leb, ◌==◌, if◌then◌else◌,
}
use theforgottenserver.Network.Message.{Position}
use theforgottenserver.Trade.{
  accept, Trades, is_accept, is_acknowledge, is_initiated, is_transfer, refers_to, set_trader,
  Started, internal_start_trade, free, internal_close_trade,
}

-- What the handlers read of the game. `holds` is `Container::isHoldingItem` of the first, which is
-- false of an object that is no container. The tests of a transfer, from `add_item` on, are what
-- these functions of the game return: that there was no error.
pub record Env : Type 0 where
  pub is_player : ℕ → Bool
  pub position : ℕ → Position
  pub item_position : ℕ → Position
  pub can_throw_object_to : Position → Position → Bool
  pub client_id : ℕ → ℕ
  pub is_pickupable : ℕ → Bool
  pub has_unique_id : ℕ → Bool
  pub holds : ℕ → ℕ → Bool
  pub item_holding_count : ℕ → Option ℕ
  pub has_path : Bool
  pub on_trade_request : Bool
  pub on_trade_accept : Bool
  pub add_item : ℕ → ℕ → Bool
  pub remove_item : ℕ → Bool
  pub move_item : ℕ → ℕ → Bool

-- How a request of `playerRequestTrade` ends.
pub data Answer : Type 0 where
  ignored sorry_not_possible move_closer not_reachable not_possible : Answer
  first_go_upstairs first_go_downstairs walk_there there_is_no_way : Answer
  already_being_traded more_than_100_items refused_by_script : Answer
  answered : Started → Answer

unfoldable pub distance : ℕ → ℕ → ℕ
distance a b = (a - b) + (b - a)

-- `Position::areInRange`, with and without the floor.
unfoldable pub are_in_range : ℕ → ℕ → Position → Position → Bool
are_in_range dx dy p q = leb (distance p.x q.x) dx && leb (distance p.y q.y) dy

unfoldable pub are_in_range_z : ℕ → ℕ → ℕ → Position → Position → Bool
are_in_range_z dx dy dz p q = are_in_range dx dy p q && leb (distance p.z q.z) dz

-- The loops over the items that are being traded: the item itself, an item in it, or one it is in.
unfoldable pub is_being_traded : Env → ℕ → List (ℕ × ℕ) → Bool
is_being_traded env i [] = false
is_being_traded env i ((j, p) ∷ rest) =
    let others = is_being_traded env i rest in
    if (j == i) || env.holds i j || env.holds j i then true else others

unfoldable pub is_too_many : Option ℕ → Bool
is_too_many none = false
is_too_many (some n) = ltb 100 (n + 1)

-- `playerRequestTrade`, from the test of the item's place on.
unfoldable pub request_item : Env → ℕ → ℕ → ℕ → Trades → Answer × Trades
request_item env p q i w =
    let here = env.position p in
    let there = env.item_position i in
    let (s, w') = internal_start_trade p q i w in
    if not (here.z == there.z)
    then (if ltb there.z here.z then first_go_upstairs else first_go_downstairs, w)
    else if not (are_in_range 1 1 there here)
    then (if env.has_path then walk_there else there_is_no_way, w)
    else if is_being_traded env i w.trade_items
    then (already_being_traded, w)
    else if is_too_many (env.item_holding_count i)
    then (more_than_100_items, w)
    else if not env.on_trade_request
    then (refused_by_script, w)
    else (answered s, w')

-- What `internalGetThing` has found.
unfoldable pub request_thing : Env → ℕ → ℕ → Option ℕ → ℕ → Trades → Answer × Trades
request_thing env p q none sprite w = (not_possible, w)
request_thing env p q (some i) sprite w =
    if not (env.client_id i == sprite) || not (env.is_pickupable i) || env.has_unique_id i
    then (not_possible, w)
    else request_item env p q i w

-- `playerRequestTrade`.
unfoldable pub player_request_trade : Env → ℕ → ℕ → Option ℕ → ℕ → Trades → Answer × Trades
player_request_trade env p q thing sprite w =
    if not (env.is_player p)
    then (ignored, w)
    else if not (env.is_player q) || q == p
    then (sorry_not_possible, w)
    else if not (are_in_range_z 2 2 0 (env.position q) (env.position p))
    then (move_closer, w)
    else if not (env.can_throw_object_to (env.position q) (env.position p))
    then (not_reachable, w)
    else request_thing env p q thing sprite w

-- An item that goes to a player.
pub data Move : Type 0 where
  move : ℕ → ℕ → Move

-- A test on an item that may be missing: without one it is an error.
unfoldable pub allowed : (ℕ → Bool) → Option ℕ → Bool
allowed test none = false
allowed test (some i) = test i

unfoldable pub moves_to : ℕ → (ℕ → Bool) → Option ℕ → List Move
moves_to p test none = []
moves_to p test (some i) = if test i then move i p ∷ [] else []

-- The transfer itself: the items of the two are tested, and moved to each other. The second move is
-- made whatever its result.
unfoldable pub exchange : Env → ℕ → ℕ → Option ℕ → Option ℕ → List Move
exchange env p q item1 item2 =
    if allowed (env.add_item q) item1
      && allowed (env.add_item p) item2
      && allowed env.remove_item item1
      && allowed env.remove_item item2
      && allowed (λ i. env.move_item i q) item1
    then moves_to q (λ i. true) item1 ++ moves_to p (λ i. env.move_item i p) item2
    else []

-- Both have accepted.
unfoldable pub complete_trade : Env → ℕ → ℕ → Trades → List Move × Trades
complete_trade env p q w =
    let item1 = (w.players p).item in
    let item2 = (w.players q).item in
    if not env.on_trade_accept
    then ([], internal_close_trade p w)
    else (exchange env p q item1 item2, free q (free p w))

-- `playerAcceptTrade` of a player with a partner.
unfoldable pub accept_with : Env → ℕ → Option ℕ → Trades → List Move × Trades
accept_with env p none w = ([], w)
accept_with env p (some q) w =
    let x = record (w.players p) { state = accept } in
    let w' = record w { players = set_trader p x w.players } in
    let done = complete_trade env p q w' in
    if not (env.can_throw_object_to (env.position q) (env.position p))
    then ([], w)
    else if is_accept (w'.players q).state
    then done
    else ([], w')

unfoldable pub player_accept_trade : Env → ℕ → Trades → List Move × Trades
player_accept_trade env p w =
    let x = w.players p in
    if not (env.is_player p)
    then ([], w)
    else if not (is_acknowledge x.state || is_initiated x.state)
    then ([], w)
    else accept_with env p x.partner w

-- `playerCloseTrade`.
unfoldable pub player_close_trade : Env → ℕ → Trades → Trades
player_close_trade env p w = if not (env.is_player p) then w else internal_close_trade p w

-- `Player::checkTradeState` when an item is taken away or changed. `around` are the containers that
-- it is in.
unfoldable pub is_among : Option ℕ → List ℕ → Bool
is_among item [] = false
is_among item (c ∷ cs) = let rest = is_among item cs in if refers_to item c then true else rest

unfoldable pub check_trade_state : ℕ → ℕ → List ℕ → Trades → Trades
check_trade_state p i around w =
    let x = w.players p in
    if is_transfer x.state
    then w
    else if refers_to x.item i
    then internal_close_trade p w
    else if is_among x.item around
    then internal_close_trade p w
    else w

unfoldable pub is_out_of_range : Env → ℕ → Option ℕ → Bool
is_out_of_range env p none = false
is_out_of_range env p (some i) = not (are_in_range_z 1 1 0 (env.item_position i) (env.position p))

unfoldable pub is_away : Env → ℕ → Option ℕ → Bool
is_away env p none = false
is_away env p (some q) = not (are_in_range_z 2 2 0 (env.position q) (env.position p))

-- `Player::onCreatureMove` of a player that has moved: first its item may be out of reach, then the
-- partner that it still has.
unfoldable pub on_creature_move : Env → ℕ → Trades → Trades
on_creature_move env p w =
    let x = w.players p in
    let w' = if is_out_of_range env p x.item then internal_close_trade p w else w in
    if is_transfer x.state
    then w
    else if is_away env p (w'.players p).partner
    then internal_close_trade p w'
    else w'

-- `Player::onCreatureDisappear` of a player that logs out.
unfoldable pub close_with : Option ℕ → ℕ → Trades → Trades
close_with none p w = w
close_with (some q) p w = internal_close_trade p w

unfoldable pub log_out : ℕ → Trades → Trades
log_out p w = close_with (w.players p).partner p w
