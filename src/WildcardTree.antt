-- ===== src/WildcardTree.antt =====
-- src/wildcardtree.h and src/wildcardtree.cpp: the tree of the names of the players online, in which
-- a name is found by its beginning. A name is the list of its characters, `std::map` the list of its
-- entries in the order of their keys.
pub mod Ordered
pub mod Names
pub mod Search
use theforgottenserver.Prelude.{
  ℕ, Bool, true, false, ◌||◌, ◌&&◌, not, Option, none, some, List, [], ◌∷◌, ◌++◌, ltb, ◌==◌,
  if◌then◌else◌, suc, ◌>>=◌,
}

mutual
  pub data WildcardTreeNode : Type 0 where
    node : Bool → Children → WildcardTreeNode

  pub data Children : Type 0 where
    no_child : Children
    child : ℕ → WildcardTreeNode → Children → Children

unfoldable pub breakpoint : WildcardTreeNode → Bool
breakpoint (node b c) = b

unfoldable pub children : WildcardTreeNode → Children
children (node b c) = c

-- `children.find`.
unfoldable pub find : ℕ → Children → Option WildcardTreeNode
find ch no_child = none
find ch (child k t cs) = let rest = find ch cs in if k == ch then some t else rest

unfoldable pub get_child : ℕ → WildcardTreeNode → Option WildcardTreeNode
get_child ch t = find ch (children t)

-- `children` with another node at a key, which goes to its place in the order if it is new.
unfoldable pub put : ℕ → WildcardTreeNode → Children → Children
put ch t no_child = child ch t no_child
put ch t (child k u cs) =
    let rest = put ch t cs in
    if k == ch then child k t cs else if ltb ch k then child ch t (child k u cs) else child k u rest

-- `children.erase` of the entry at a key.
unfoldable pub take_out : ℕ → Children → Children
take_out ch no_child = no_child
take_out ch (child k u cs) = let rest = take_out ch cs in if k == ch then cs else child k u rest

-- The tree with another node in place of a child.
unfoldable pub with_child : ℕ → WildcardTreeNode → WildcardTreeNode → WildcardTreeNode
with_child ch u t = node (breakpoint t) (put ch u (children t))

-- The child that `addChild` returns: the one that is there, which becomes the end of a name if it is
-- to be one, or a new one.
unfoldable pub child_or_new : Bool → Option WildcardTreeNode → WildcardTreeNode
child_or_new b none = node b no_child
child_or_new b (some u) = if b && not (breakpoint u) then node true (children u) else u

unfoldable pub add_child : ℕ → Bool → WildcardTreeNode → WildcardTreeNode
add_child ch b t = child_or_new b (get_child ch t)

-- The loop of `insert` over a name that has a first character.
unfoldable pub insert_from : ℕ → List ℕ → WildcardTreeNode → WildcardTreeNode
insert_from c [] t = with_child c (add_child c true t) t
insert_from c (d ∷ s) t = with_child c (insert_from d s (add_child c false t)) t

-- The length of the empty name less one is the largest number, so that the loop reads beyond the end
-- of the name: nothing is defined then.
unfoldable pub insert : List ℕ → WildcardTreeNode → Option WildcardTreeNode
insert [] t = none
insert (c ∷ s) t = some (insert_from c s t)

-- The way down that `remove` and `findOne` have in common.
unfoldable pub walk : List ℕ → WildcardTreeNode → Option WildcardTreeNode
walk [] t = some t
walk (c ∷ s) t = do u ← get_child c t; walk s u

unfoldable pub is_unused : WildcardTreeNode → Bool
is_unused (node b no_child) = not b
is_unused (node b (child k u cs)) = false

-- The way back up at one node: a child that is left without children and is no end of a name is
-- taken out.
unfoldable pub without_child : ℕ → WildcardTreeNode → WildcardTreeNode → WildcardTreeNode
without_child c v t =
    if is_unused v then node (breakpoint t) (take_out c (children t)) else with_child c v t

-- The way down and back up again; the stack of the nodes on the path is the recursion. The source's
-- loop ends at the first node that stays: the nodes above it have it as a child, so they stay too.
unfoldable pub remove_below : List ℕ → WildcardTreeNode → Option WildcardTreeNode
remove_below [] t = some (node false (children t))
remove_below (c ∷ s) t = do u ← get_child c t; v ← remove_below s u; some (without_child c v t)

-- The tree stays as it is if the path of the name is not there.
unfoldable pub or_unchanged : WildcardTreeNode → Option WildcardTreeNode → WildcardTreeNode
or_unchanged t none = t
or_unchanged t (some u) = u

unfoldable pub remove : List ℕ → WildcardTreeNode → WildcardTreeNode
remove s t = or_unchanged t (remove_below s t)

pub data ReturnValue : Type 0 where
  no_error player_with_this_name_is_not_online name_is_too_ambigious : ReturnValue

-- What `findOne` returns, and what stands in its argument `result` afterwards.
pub record Found : Type 0 where
  pub ret : ReturnValue
  pub result : List ℕ

-- The second loop of `findOne`, with what it appends to `result`.
unfoldable mutual
  pub extend : WildcardTreeNode → Found
  extend (node b cs) = extend_by b cs

  pub extend_by : Bool → Children → Found
  extend_by b no_child = record { ret = no_error; result = [] }
  extend_by b (child k u no_child) =
      let rest = extend u in
      if b
      then record { ret = name_is_too_ambigious; result = [] }
      else record { ret = rest.ret; result = k ∷ rest.result }
  extend_by b (child k u (child l v cs)) = record { ret = name_is_too_ambigious; result = [] }

-- What comes after the first loop.
unfoldable pub answer : List ℕ → List ℕ → Option WildcardTreeNode → Found
answer query result none = record { ret = player_with_this_name_is_not_online; result = result }
answer query result (some u) = record { ret = (extend u).ret; result = query ++ (extend u).result }

unfoldable pub find_one : List ℕ → List ℕ → WildcardTreeNode → Found
find_one query result t = answer query result (walk query t)
