-- ===== src/OnlinePlayers.antt =====
-- The players online as src/game.cpp keeps them: `addPlayer`, `removePlayer`, `getPlayerByName` and
-- `getPlayerByNameWildcard`, and `asLowerCaseString` of src/tools.cpp. `tolower` of the C library is
-- an argument.
pub mod Online
pub mod Search
mod Tests
use theforgottenserver.Prelude.{
  ℕ, ◌-◌, Bool, true, false, ◌||◌, Option, none, some, List, [], ◌∷◌, map, ltb, ◌==◌, if◌then◌else◌,
  ◌>>=◌, length, take, get_elem?,
}
use theforgottenserver.WildcardTree.{
  WildcardTreeNode, node, no_child, insert, remove, find_one, Found, ReturnValue, no_error,
  player_with_this_name_is_not_online, name_is_too_ambigious,
}
use theforgottenserver.WildcardTree.Names.{same_name}

pub record Player : Type 0 where
  pub id : ℕ
  pub name : List ℕ

-- The fields of `Game` that hold players. A map is the list of its entries; the newest value of a key
-- stands first.
pub record Game : Type 0 where
  pub mapped_player_names : List (List ℕ × Player)
  pub wildcard_tree : WildcardTreeNode
  pub players : List (ℕ × Player)

unfoldable pub find_name : List ℕ → List (List ℕ × Player) → Option Player
find_name n [] = none
find_name n ((m, p) ∷ rest) =
    let found = find_name n rest in if same_name m n then some p else found

unfoldable pub erase_name : List ℕ → List (List ℕ × Player) → List (List ℕ × Player)
erase_name n [] = []
erase_name n ((m, p) ∷ rest) =
    let left = erase_name n rest in if same_name m n then left else (m, p) ∷ left

unfoldable pub erase_id : ℕ → List (ℕ × Player) → List (ℕ × Player)
erase_id i [] = []
erase_id i ((j, p) ∷ rest) = let left = erase_id i rest in if i == j then left else (j, p) ∷ left

unfoldable pub as_lower_case_string : (ℕ → ℕ) → List ℕ → List ℕ
as_lower_case_string tolower s = map tolower s

-- `Game::addPlayer`. There is no result when the insertion into the tree is undefined.
unfoldable pub add_player : (ℕ → ℕ) → Player → Game → Option Game
add_player tolower p g = do
  let lowercase_name = as_lower_case_string tolower p.name
  tree ← insert lowercase_name g.wildcard_tree
  some (record {
    mapped_player_names = (lowercase_name, p) ∷ erase_name lowercase_name g.mapped_player_names;
    wildcard_tree = tree;
    players = (p.id, p) ∷ erase_id p.id g.players;
  })

-- `Game::removePlayer`.
unfoldable pub remove_player : (ℕ → ℕ) → Player → Game → Game
remove_player tolower p g =
    let lowercase_name = as_lower_case_string tolower p.name in
    record {
      mapped_player_names = erase_name lowercase_name g.mapped_player_names;
      wildcard_tree = remove lowercase_name g.wildcard_tree;
      players = erase_id p.id g.players;
    }

-- `Game::getPlayerByName`.
unfoldable pub get_player_by_name : (ℕ → ℕ) → Game → List ℕ → Option Player
get_player_by_name tolower g [] = none
get_player_by_name tolower g (c ∷ s) =
    find_name (as_lower_case_string tolower (c ∷ s)) g.mapped_player_names

-- The player that has been found, and what the search returns with it.
unfoldable pub found_player : Option Player → ReturnValue × Option Player
found_player none = (player_with_this_name_is_not_online, none)
found_player (some p) = (no_error, some p)

-- After `findOne`.
unfoldable pub by_result :
    (ℕ → ℕ) → Game → Option Player → ReturnValue → List ℕ → ReturnValue × Option Player
by_result tolower g player no_error result = found_player (get_player_by_name tolower g result)
by_result tolower g player player_with_this_name_is_not_online result =
    (player_with_this_name_is_not_online, player)
by_result tolower g player name_is_too_ambigious result = (name_is_too_ambigious, player)

abbrev pub tilde : ℕ
tilde = 126

unfoldable pub is_tilde : Option ℕ → Bool
is_tilde none = false
is_tilde (some c) = c == tilde

-- `Game::getPlayerByNameWildcard`, with the value of its argument `player` before.
unfoldable pub get_player_by_name_wildcard :
    (ℕ → ℕ) → Game → List ℕ → Option Player → ReturnValue × Option Player
get_player_by_name_wildcard tolower g s player =
    let strlen = length s in
    let query = as_lower_case_string tolower (take (strlen - 1) s) in
    let found = find_one query [] g.wildcard_tree in
    if (strlen == 0) || ltb 20 strlen
    then (player_with_this_name_is_not_online, player)
    else if is_tilde (get_elem? s (strlen - 1))
    then by_result tolower g player found.ret found.result
    else found_player (get_player_by_name tolower g s)
