-- ===== src/Trade.antt =====
-- Trades between players: the requests of src/game.cpp, from `playerRequestTrade` to
-- `internalCloseTrade`, and the places of src/player.cpp that close a trade. Players and items are
-- numbers; what a trade needs of the rest of the game is the record `Env`.
pub mod Requests
pub mod Ledger
pub mod Pairs
pub mod Starting
pub mod Closing
pub mod Exchange
pub mod Runs
mod Tests
use theforgottenserver.Prelude.{
  ℕ, ◌+◌, ◌-◌, Bool, true, false, ◌||◌, ◌&&◌, not, Option, none, some, List, [], ◌∷◌, ltb, leb,
  ◌==◌, if◌then◌else◌,
}
use theforgottenserver.Network.Message.{Position}

-- `tradestate_t`.
pub data TradeState : Type 0 where
  no_trade initiated accept acknowledge transfer : TradeState

-- The fields of a player that a trade changes.
pub record Trader : Type 0 where
  pub state : TradeState
  pub partner : Option ℕ
  pub item : Option ℕ

-- The players, and the items that are being traded with the players that offer them.
pub record Trades : Type 0 where
  pub players : ℕ → Trader
  pub trade_items : List (ℕ × ℕ)

abbrev pub idle : Trader
idle = record { state = no_trade; partner = none; item = none }

unfoldable pub is_no_trade : TradeState → Bool
is_no_trade no_trade = true
is_no_trade initiated = false
is_no_trade accept = false
is_no_trade acknowledge = false
is_no_trade transfer = false

unfoldable pub is_accept : TradeState → Bool
is_accept accept = true
is_accept no_trade = false
is_accept initiated = false
is_accept acknowledge = false
is_accept transfer = false

unfoldable pub is_acknowledge : TradeState → Bool
is_acknowledge acknowledge = true
is_acknowledge no_trade = false
is_acknowledge initiated = false
is_acknowledge accept = false
is_acknowledge transfer = false

unfoldable pub is_initiated : TradeState → Bool
is_initiated initiated = true
is_initiated no_trade = false
is_initiated accept = false
is_initiated acknowledge = false
is_initiated transfer = false

unfoldable pub is_transfer : TradeState → Bool
is_transfer transfer = true
is_transfer no_trade = false
is_transfer initiated = false
is_transfer accept = false
is_transfer acknowledge = false

-- The comparison of a pointer with a player or an item.
unfoldable pub refers_to : Option ℕ → ℕ → Bool
refers_to none q = false
refers_to (some p) q = p == q

-- A field of a player is written.
unfoldable pub set_trader : ℕ → Trader → (ℕ → Trader) → ℕ → Trader
set_trader p x players r = if r == p then x else players r

-- `tradeItems`: the search, the assignment at a key, and the removal of a key.
unfoldable pub find_item : ℕ → List (ℕ × ℕ) → Option ℕ
find_item i [] = none
find_item i ((j, p) ∷ rest) = let found = find_item i rest in if j == i then some p else found

unfoldable pub erase_item : ℕ → List (ℕ × ℕ) → List (ℕ × ℕ)
erase_item i [] = []
erase_item i ((j, p) ∷ rest) =
    let left = erase_item i rest in if j == i then left else (j, p) ∷ left

unfoldable pub assign_item : ℕ → ℕ → List (ℕ × ℕ) → List (ℕ × ℕ)
assign_item i p items = (i, p) ∷ erase_item i items

-- The item of a player is taken from the items that are being traded, if it is there.
unfoldable pub release_item : Option ℕ → List (ℕ × ℕ) → List (ℕ × ℕ)
release_item none items = items
release_item (some i) items = erase_item i items

-- What `internalStartTrade` answers.
pub data Started : Type 0 where
  you_are_already_trading this_player_is_already_trading started : Started

-- The partner of a player that has begun a trade: it is told, if it is not trading yet.
unfoldable pub acknowledged : ℕ → Trader → Trader
acknowledged p y =
    if is_no_trade y.state then record y { state = acknowledge; partner = some p } else y

-- `internalStartTrade`.
unfoldable pub internal_start_trade : ℕ → ℕ → ℕ → Trades → Started × Trades
internal_start_trade p q i w =
    let x = w.players p in
    let y = w.players q in
    if not (is_no_trade x.state) && not (is_acknowledge x.state && refers_to x.partner q)
    then (you_are_already_trading, w)
    else if not (is_no_trade y.state) && not (refers_to y.partner p)
    then (this_player_is_already_trading, w)
    else let x' = record x { partner = some q; item = some i; state = initiated } in
      (
        started,
        record w {
          players = set_trader q (acknowledged p y) (set_trader p x' w.players);
          trade_items = assign_item i p w.trade_items;
        },
      )

-- A player has neither trade nor partner nor item.
unfoldable pub free : ℕ → Trades → Trades
free p w = record w {
  players = set_trader p idle w.players;
  trade_items = release_item (w.players p).item w.trade_items;
}

unfoldable pub free_partner : Option ℕ → Trades → Trades
free_partner none w = w
free_partner (some q) w = free q w

unfoldable pub is_transferring : Trades → Option ℕ → Bool
is_transferring w none = false
is_transferring w (some q) = is_transfer (w.players q).state

-- `internalCloseTrade`.
unfoldable pub internal_close_trade : ℕ → Trades → Trades
internal_close_trade p w =
    let x = w.players p in
    if is_transferring w x.partner || is_transfer x.state
    then w
    else free_partner x.partner (free p w)
