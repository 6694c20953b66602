-- ===== src/OnlinePlayers/Search.antt =====
-- What `getPlayerByNameWildcard` finds among the players online.
use theforgottenserver.Prelude.{
  ℕ, ◌-◌, ◌≤◌, ◌≡◌, ◌≢◌, refl, true, false, Option, none, some, List, [], ◌∷◌, ◌++◌, map, ltb, ◌==◌,
  length, get_elem?, suc, length-append, take-append, ne→==, arith, subst, ap, sym, ◌∙◌,
}
use theforgottenserver.WildcardTree.{
  find_one, ReturnValue, no_error, player_with_this_name_is_not_online, name_is_too_ambigious,
}
use theforgottenserver.WildcardTree.Names.{has}
use theforgottenserver.WildcardTree.Search.{IsAnswer, find_one-IsAnswer}
use theforgottenserver.OnlinePlayers.{
  Player, Game, find_name, as_lower_case_string, get_player_by_name, found_player, by_result,
  get_player_by_name_wildcard, tilde, is_tilde,
}
use theforgottenserver.OnlinePlayers.Online.{
  Online, is_some, Command, no_players, offline, IsOf, HaveNames, run, all_after, run-IsOf,
  no_players-IsOf,
}

-- What a search among the players online is to find for a beginning.
abbrev pub Finds : Online → List ℕ → ReturnValue × Option Player → Type 0
Finds f q (no_error, found) =
    (p : Player) × (s : List ℕ) × (found ≡ some p)
    × (f (q ++ s) ≡ some p)
    × ((t : List ℕ) (r : Player) → f (q ++ t) ≡ some r → q ++ t ≡ q ++ s)
Finds f q (player_with_this_name_is_not_online, found) = (s : List ℕ) → f (q ++ s) ≡ none
Finds f q (name_is_too_ambigious, found) =
    (s : List ℕ) × (t : List ℕ) × (p : Player) × (r : Player) × (f (q ++ s) ≡ some p)
    × (f (q ++ t) ≡ some r)
    × (q ++ s ≢ q ++ t)

is_some-eq : (o : Option Player) → is_some o ≡ true → (p : Player) × (o ≡ some p)
unfolding is_some
is_some-eq none h = cc
is_some-eq (some p) h = (p, refl)

is_some-none : (o : Option Player) → is_some o ≡ false → o ≡ none
unfolding is_some
is_some-none none h = refl
is_some-none (some p) h = cc

module _ (tolower : ℕ → ℕ) (once : (c : ℕ) → tolower (tolower c) ≡ tolower c) where
  get_player_by_name-eq :
      (g : Game) (f : Online) (n : List ℕ) (p : Player)
      → IsOf tolower g f
      → f n ≡ some p
      → get_player_by_name tolower g n ≡ some p
  unfolding get_player_by_name as_lower_case_string
  get_player_by_name-eq g f [] p i h = cc (i.named)
  get_player_by_name-eq g f (c ∷ s) p i h =
      subst (λ n. find_name n g.mapped_player_names ≡ some p) (sym (i.lowered (c ∷ s) p h))
        (i.by_name (c ∷ s) ∙ h)

  by_result-Finds :
      (g : Game) (f : Online) (q : List ℕ) (player : Option Player) (ret : ReturnValue)
      (result : List ℕ)
      → IsOf tolower g f
      → IsAnswer (has g.wildcard_tree) q ret result
      → Finds f q (by_result tolower g player ret result)
  unfolding by_result found_player is_some
  by_result-Finds g f q player no_error result i (a, (s, b), c) =
      let (p, h) = is_some-eq (f result) (sym (i.in_tree result) ∙ a) in
      rw (get_player_by_name-eq g f result p i h) (
        p,
        s,
        refl,
        subst (λ n. f n ≡ some p) b h,
        λ t r e. c t (i.in_tree (q ++ t) ∙ ap is_some e) ∙ b,
      )
  by_result-Finds g f q player player_with_this_name_is_not_online result i a =
      λ s. is_some-none (f (q ++ s)) (sym (i.in_tree (q ++ s)) ∙ a s)
  by_result-Finds g f q player name_is_too_ambigious result i (s, t, a, b, c) =
      let (p, h) = is_some-eq (f (q ++ s)) (sym (i.in_tree (q ++ s)) ∙ a) in
      let (r, k) = is_some-eq (f (q ++ t)) (sym (i.in_tree (q ++ t)) ∙ b) in (s, t, p, r, h, k, c)

  -- With some player online, a search for a beginning of at most 19 characters with a tilde behind
  -- it finds the one player whose name in lower case begins so, or answers that there is none, or
  -- that there are several.
  pub get_player_by_name_wildcard-Finds :
      (g : Game) (f : Online) (q : List ℕ) (player : Option Player) (n : List ℕ) (p : Player)
      → IsOf tolower g f
      → f n ≡ some p
      → length q ≤ 19
      → Finds f (map tolower q) (get_player_by_name_wildcard tolower g (q ++ (tilde ∷ [])) player)
  unfolding get_player_by_name_wildcard as_lower_case_string is_tilde is_some
  get_player_by_name_wildcard-Finds g f q player n p i h short =
      rw (size, not_short, not_long, one_less, take-append q (tilde ∷ []) (length q) refl, last q)
        (by_result-Finds g f (map tolower q) player
          (find_one (map tolower q) [] g.wildcard_tree).ret
          (find_one (map tolower q) [] g.wildcard_tree).result i
          (find_one-IsAnswer (map tolower q) [] g.wildcard_tree n i.ordered
            (i.in_tree n ∙ ap is_some h)))
    where
      size : length (q ++ (tilde ∷ [])) ≡ suc (length q)
      size = length-append q (tilde ∷ []) ∙ omega arith

      not_short : (suc (length q) == 0) ≡ false
      not_short = ne→== (suc (length q)) 0 (omega arith)

      not_long : ltb 20 (suc (length q)) ≡ false
      not_long = ground arith

      one_less : suc (length q) - 1 ≡ length q
      one_less = omega arith

      last : (q : List ℕ) → get_elem? (q ++ (tilde ∷ [])) (length q) ≡ some tilde
      last [] = refl
      last (x ∷ q) = last q

  -- Players with names have come and gone in any order, and one is online at least. Then no step was
  -- undefined, and a search for a beginning of at most 19 characters with a tilde behind it finds the
  -- one player online whose name in lower case begins so, or answers that there is none, or that
  -- there are several, where `tolower` of a lower case character is itself.
  pub search-Finds :
      (cs : List Command) (q : List ℕ) (player : Option Player) (n : List ℕ) (p : Player)
      → HaveNames cs
      → all_after tolower cs offline n ≡ some p
      → length q ≤ 19
      → (g : Game) × ((run tolower cs no_players ≡ some g)
          × Finds
              (all_after tolower cs offline)
              (map tolower q)
              (get_player_by_name_wildcard tolower g (q ++ (tilde ∷ [])) player))
  search-Finds cs q player n p named online short =
      let (g, (e, i)) =
        run-IsOf tolower once cs no_players offline named (no_players-IsOf tolower once) in
      (
        g,
        (
          e,
          get_player_by_name_wildcard-Finds g (all_after tolower cs offline) q player n p i online
              short,
        ),
      )
