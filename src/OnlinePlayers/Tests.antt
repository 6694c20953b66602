-- ===== src/OnlinePlayers/Tests.antt =====
-- Players at concrete names, and the theorem on searches for them.
use theforgottenserver.Prelude.{
  ℕ, ◌+◌, ◌≡◌, refl, ◌&&◌, ltb, if◌then◌else◌, none, some, List, [], ◌∷◌, arith,
}
use theforgottenserver.WildcardTree.Names.{same_name}
use theforgottenserver.OnlinePlayers.{Player, Game, get_player_by_name_wildcard, tilde}
use theforgottenserver.OnlinePlayers.Online.{
  Command, add, del, no_players, offline, run, all_after, after,
}
use theforgottenserver.OnlinePlayers.Search.{Finds, search-Finds}

-- `tolower` of the letters.
abbrev lower : ℕ → ℕ
lower c = if ltb 64 c && ltb c 91 then c + 32 else c

lower_once : (c : ℕ) → lower (lower c) ≡ lower c
lower_once c = ground arith

abbrev anna : Player
anna = record { id = 1; name = 65 ∷ 110 ∷ 110 ∷ 97 ∷ [] }

abbrev ann : Player
ann = record { id = 2; name = 65 ∷ 110 ∷ 110 ∷ [] }

abbrev coming_and_going : List Command
coming_and_going = add anna ∷ add ann ∷ del ann ∷ []

search-Finds_example :
    (g : Game) × ((run lower coming_and_going no_players ≡ some g)
      × Finds
          (all_after lower coming_and_going offline)
          (97 ∷ 110 ∷ [])
          (get_player_by_name_wildcard lower g (65 ∷ 110 ∷ tilde ∷ []) none))
unfolding all_after after same_name
search-Finds_example =
    search-Finds lower lower_once coming_and_going (65 ∷ 110 ∷ []) none (97 ∷ 110 ∷ 110 ∷ 97 ∷ [])
      anna ((λ e. cc), ((λ e. cc), (tt, tt))) refl (omega arith)
