-- ===== src/OnlinePlayers/Online.antt =====
-- The maps and the tree of `Game` over any sequence of players that come and go.
use theforgottenserver.Prelude.{
  ℕ, ◌≡◌, ◌≢◌, ◌⊎◌, refl, inl, inr, Bool, true, false, ◌||◌, ◌&&◌, not, Option, none, some, List,
  [], ◌∷◌, map, if◌then◌else◌, ◌>>=◌, arith, Bool-cases, subst, ap, sym, ◌∙◌,
}
use theforgottenserver.WildcardTree.{WildcardTreeNode, node, no_child, insert, insert_from}
use theforgottenserver.WildcardTree.Names.{
  has, same_name, same_name-eq, has-insert_from, insert_from-IsOrdered, remove-IsWithout,
  has-nothing,
}
use theforgottenserver.WildcardTree.Ordered.{IsOrdered}
use theforgottenserver.OnlinePlayers.{
  Player, Game, find_name, erase_name, erase_id, as_lower_case_string, add_player, remove_player,
}

-- The players online by their names in lower case.
abbrev pub Online : Type 0
Online = List ℕ → Option Player

unfoldable pub is_some : Option Player → Bool
is_some none = false
is_some (some p) = true

pub data Command : Type 0 where
  add del : Player → Command

-- A game without players.
abbrev pub no_players : Game
no_players = record { mapped_player_names = []; wildcard_tree = node false no_child; players = [] }

abbrev pub offline : Online
offline n = none

-- The maps and the tree are those of the players online.
pub record IsOf (tolower : ℕ → ℕ) (g : Game) (f : Online) : Type 0 where
  pub by_name : (n : List ℕ) → find_name n g.mapped_player_names ≡ f n
  pub in_tree : (n : List ℕ) → has g.wildcard_tree n ≡ is_some (f n)
  pub ordered : IsOrdered g.wildcard_tree
  pub named : f [] ≡ none
  pub lowered : (n : List ℕ) (p : Player) → f n ≡ some p → map tolower n ≡ n

same_name_apart :
    (k m n : List ℕ) → same_name k m ≡ false → same_name k n ≡ true → same_name m n ≡ false
same_name_apart k m n e h = elim (Bool-cases (same_name m n)) [
  | inl g ↦ cc (subst (λ x. same_name k x ≡ true) (sym (same_name-eq m n g)) h)
  | inr g ↦ g
]

find-erase_name :
    (m n : List ℕ) (l : List (List ℕ × Player))
    → find_name n (erase_name m l) ≡ (if same_name m n then none else find_name n l)
unfolding find_name erase_name
find-erase_name m n [] = ground arith
find-erase_name m n ((k, p) ∷ l) = elim (Bool-cases (same_name k m)) [
  | inl e ↦ rw e (find-erase_name m n l ∙ erased (same_name-eq k m e))
  | inr e ↦ rw e (rw (find-erase_name m n l) (kept e))
]
  where
    erased :
        k ≡ m
        → (if same_name m n then none else find_name n l)
          ≡ (if same_name m n then none else (if same_name k n then some p else find_name n l))
    erased e = elim (Bool-cases (same_name m n)) [ inl g ↦ rw g refl | inr g ↦ rw e (rw g refl) ]

    kept :
        same_name k m ≡ false
        → (if same_name k n then some p else (if same_name m n then none else find_name n l))
          ≡ (if same_name m n then none else (if same_name k n then some p else find_name n l))
    kept e = elim (Bool-cases (same_name k n)) [
      | inl g ↦ rw g (rw (same_name_apart k m n e g) refl)
      | inr g ↦ rw g refl
    ]

-- The players online after one has come or gone.
unfoldable pub after : (ℕ → ℕ) → Command → Online → Online
after tolower (add p) f n = if same_name (map tolower p.name) n then some p else f n
after tolower (del p) f n = if same_name (map tolower p.name) n then none else f n

unfoldable pub step : (ℕ → ℕ) → Command → Game → Option Game
step tolower (add p) g = add_player tolower p g
step tolower (del p) g = some (remove_player tolower p g)

abbrev pub HasName : Command → Type 0
HasName (add p) = p.name ≢ []
HasName (del p) = Unit {0}

abbrev pub HaveNames : List Command → Type 0
HaveNames [] = Unit {0}
HaveNames (c ∷ cs) = HasName c × HaveNames cs

unfoldable pub run : (ℕ → ℕ) → List Command → Game → Option Game
run tolower [] g = some g
run tolower (c ∷ cs) g = do g' ← step tolower c g; run tolower cs g'

unfoldable pub all_after : (ℕ → ℕ) → List Command → Online → Online
all_after tolower [] f = f
all_after tolower (c ∷ cs) f = all_after tolower cs (after tolower c f)

list_cases : (l : List ℕ) → (l ≡ []) ⊎ ((c : ℕ) × ((s : List ℕ) × (l ≡ c ∷ s)))
list_cases [] = inl refl
list_cases (c ∷ s) = inr (c, (s, refl))

module _ (tolower : ℕ → ℕ) (once : (c : ℕ) → tolower (tolower c) ≡ tolower c) where
  map_once : (s : List ℕ) → map tolower (map tolower s) ≡ map tolower s
  map_once [] = refl
  map_once (c ∷ s) = rw (once c) (ap (λ x. tolower c ∷ x) (map_once s))

  taken : (b : Bool) (o : Option Player) → not b && is_some o ≡ is_some (if b then none else o)
  unfolding is_some
  taken true o = refl
  taken false o = refl

  given :
      (b : Bool) (p : Player) (o : Option Player)
      → b || is_some o ≡ is_some (if b then some p else o)
  unfolding is_some
  given true p o = refl
  given false p o = refl

  still :
      (b : Bool) (o : Option Player) (n : List ℕ) (q : Player)
      → (o ≡ some q → map tolower n ≡ n)
      → (if b then none else o) ≡ some q
      → map tolower n ≡ n
  still true o n q h e = cc
  still false o n q h e = h e

  remove_player-IsOf :
      (p : Player) (g : Game) (f : Online)
      → IsOf tolower g f
      → IsOf tolower (remove_player tolower p g) (after tolower (del p) f)
  unfolding remove_player after as_lower_case_string
  remove_player-IsOf p g f i = record {
    by_name =
        λ n. find-erase_name (map tolower p.name) n g.mapped_player_names ∙ rw (i.by_name n) refl;
    in_tree = λ n.
        let (o, h) = remove-IsWithout (map tolower p.name) g.wildcard_tree i.ordered in
        h n ∙ rw (i.in_tree n) (taken (same_name (map tolower p.name) n) (f n));
    ordered = let (o, h) = remove-IsWithout (map tolower p.name) g.wildcard_tree i.ordered in o;
    named = elim (Bool-cases (same_name (map tolower p.name) [])) [
      | inl e ↦ rw e refl
      | inr e ↦ rw e i.named
    ];
    lowered = λ n q. still (same_name (map tolower p.name) n) (f n) n q (i.lowered n q);
  }

  -- A game with one more name in its maps and its tree.
  added : List ℕ → Player → WildcardTreeNode → Game → Game
  added low p tree g = record {
    mapped_player_names = (low, p) ∷ erase_name low g.mapped_player_names;
    wildcard_tree = tree;
    players = (p.id, p) ∷ erase_id p.id g.players;
  }

  added-IsOf :
      (c : ℕ) (s : List ℕ) (p : Player) (g : Game) (f : Online)
      → map tolower (c ∷ s) ≡ c ∷ s
      → IsOf tolower g f
      → IsOf tolower
          (added (c ∷ s) p (insert_from c s g.wildcard_tree) g)
          (λ n. if same_name (c ∷ s) n then some p else f n)
  unfolding added find_name same_name
  added-IsOf c s p g f e i = record {
    by_name = λ n. rw (find-erase_name (c ∷ s) n g.mapped_player_names) (
        replaced (find_name n g.mapped_player_names) (same_name (c ∷ s) n) ∙ rw (i.by_name n) refl);
    in_tree = λ n.
        has-insert_from c s g.wildcard_tree n
        ∙ rw (i.in_tree n) (given (same_name (c ∷ s) n) p (f n));
    ordered = let (o, l) = insert_from-IsOrdered c s g.wildcard_tree i.ordered in o;
    named = i.named;
    lowered = λ n q. lower (f n) n q (i.lowered n q);
  }
    where
      replaced :
          (x : Option Player) (b : Bool)
          → (if b then some p else (if b then none else x)) ≡ (if b then some p else x)
      replaced x true = refl
      replaced x false = refl

      lower :
          (o : Option Player) (n : List ℕ) (q : Player)
          → (o ≡ some q → map tolower n ≡ n)
          → (if same_name (c ∷ s) n then some p else o) ≡ some q
          → map tolower n ≡ n
      lower o n q h k = elim (Bool-cases (same_name (c ∷ s) n)) [
        | inl r ↦ subst (λ x. map tolower x ≡ x) (same_name-eq (c ∷ s) n r) e
        | inr r ↦ h (sym (rw r refl) ∙ k)
      ]

  add_player-IsOf :
      (c : ℕ) (s : List ℕ) (p : Player) (g : Game) (f : Online)
      → p.name ≡ c ∷ s
      → IsOf tolower g f
      → (g' : Game) × ((add_player tolower p g ≡ some g')
          × IsOf tolower g' (after tolower (add p) f))
  unfolding add_player after as_lower_case_string insert added
  add_player-IsOf c s p g f e i =
      subst
        (λ low.
          (g' : Game) × (((insert low g.wildcard_tree >>= λ tree. some (added low p tree g))
              ≡ some g')
            × IsOf tolower g' (λ n. if same_name low n then some p else f n)))
        (sym (ap (map tolower) e))
        (
          added (map tolower (c ∷ s)) p (insert_from (tolower c) (map tolower s) g.wildcard_tree) g,
          (refl, added-IsOf (tolower c) (map tolower s) p g f (map_once (c ∷ s)) i),
        )

  step-IsOf :
      (c : Command) (g : Game) (f : Online)
      → HasName c
      → IsOf tolower g f
      → (g' : Game) × ((step tolower c g ≡ some g') × IsOf tolower g' (after tolower c f))
  unfolding step
  step-IsOf (del p) g f h i = (remove_player tolower p g, (refl, remove_player-IsOf p g f i))
  step-IsOf (add p) g f h i = elim (list_cases p.name) [
    | inl e ↦ elim (h e) [ ]
    | inr (c, (s, e)) ↦ add_player-IsOf c s p g f e i
  ]

  -- After any players with names have come and gone, the maps and the tree of the game are those of
  -- the players online.
  pub run-IsOf :
      (cs : List Command) (g : Game) (f : Online)
      → HaveNames cs
      → IsOf tolower g f
      → (g' : Game) × ((run tolower cs g ≡ some g') × IsOf tolower g' (all_after tolower cs f))
  unfolding run all_after
  run-IsOf [] g f h i = (g, (refl, i))
  run-IsOf (c ∷ cs) g f (h, hs) i =
      let (g1, (e, i1)) = step-IsOf c g f h i in
      let (g2, (e2, i2)) = run-IsOf cs g1 (after tolower c f) hs i1 in (g2, (rw e e2, i2))

  pub no_players-IsOf : IsOf tolower no_players offline
  unfolding is_some find_name IsOrdered
  no_players-IsOf = record {
    by_name = λ n. refl;
    in_tree = λ n. has-nothing n;
    ordered = tt;
    named = refl;
    lowered = λ n p h. cc;
  }
