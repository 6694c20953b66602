-- ===== src/WildcardTree/Search.antt =====
-- What `findOne` answers, by the names that the tree holds.
use theforgottenserver.Prelude.{
  ℕ, ◌≡◌, ◌≢◌, refl, inl, inr, Bool, true, false, Option, none, some, List, [], ◌∷◌, ◌++◌, ◌==◌,
  ◌>>=◌, if◌then◌else◌, arith, ◌<◌, Bool-cases, Option-cases, ==-refl, ==→eq, ne→==, ap, ◌∙◌, sym,
}
use theforgottenserver.WildcardTree.{
  WildcardTreeNode, node, Children, no_child, child, find, get_child, is_unused, breakpoint,
  children, walk, extend, extend_by, answer, find_one, ReturnValue, no_error,
  player_with_this_name_is_not_online, name_is_too_ambigious,
}
use theforgottenserver.WildcardTree.Ordered.{IsOrdered, AreOrdered, IsFine}
use theforgottenserver.WildcardTree.Names.{has, ends_name, get_child-IsFine, used-has}

-- What a search for a beginning is to answer when the names are those of `names`.
abbrev pub IsAnswer : (List ℕ → Bool) → List ℕ → ReturnValue → List ℕ → Type 0
IsAnswer names query no_error result =
    (names result ≡ true)
    × ((s : List ℕ) × (result ≡ query ++ s))
    × ((s : List ℕ) → names (query ++ s) ≡ true → query ++ s ≡ result)
IsAnswer names query player_with_this_name_is_not_online result =
    (s : List ℕ) → names (query ++ s) ≡ false
IsAnswer names query name_is_too_ambigious result =
    (s : List ℕ) × (t : List ℕ) × (names (query ++ s) ≡ true)
    × (names (query ++ t) ≡ true)
    × (query ++ s ≢ query ++ t)

has-walk : (q s : List ℕ) (t : WildcardTreeNode) → has t (q ++ s) ≡ ends_name (walk q t >>= walk s)
unfolding has walk
has-walk [] s t = refl
has-walk (c ∷ q) s t = elim (Option-cases (get_child c t)) [
  | inl e ↦ rw e refl
  | inr (u, e) ↦ rw e (has-walk q s u)
]

pub has-walk-some :
    (q s : List ℕ) (t u : WildcardTreeNode) → walk q t ≡ some u → has t (q ++ s) ≡ has u s
unfolding has
has-walk-some q s t u w = has-walk q s t ∙ rw w refl

has-head :
    (b : Bool) (k : ℕ) (u : WildcardTreeNode) (cs : Children) (n : List ℕ)
    → has (node b (child k u cs)) (k ∷ n) ≡ has u n
unfolding has walk get_child children find
has-head b k u cs n = rw (==-refl k) refl

has-second :
    (b : Bool) (k : ℕ) (u : WildcardTreeNode) (l : ℕ) (v : WildcardTreeNode) (cs : Children)
    (n : List ℕ)
    → k ≢ l
    → has (node b (child k u (child l v cs))) (l ∷ n) ≡ has v n
unfolding has walk get_child children find
has-second b k u l v cs n d = rw (ne→== k l d, ==-refl l) refl

has-only :
    (b : Bool) (k : ℕ) (u : WildcardTreeNode) (d : ℕ) (n : List ℕ)
    → has (node b (child k u no_child)) (d ∷ n) ≡ (if k == d then has u n else false)
unfolding has walk get_child children find ends_name
has-only b k u d n = elim (Bool-cases (k == d)) [ inl e ↦ rw e refl | inr e ↦ rw e refl ]

has-end : (b : Bool) (cs : Children) → has (node b cs) [] ≡ b
unfolding has walk ends_name breakpoint
has-end b cs = refl

-- Every node of use has a name below it.
name_under :
    (b : Bool) (cs : Children)
    → AreOrdered cs
    → is_unused (node b cs) ≡ false
    → (s : List ℕ) × (has (node b cs) s ≡ true)
unfolding IsOrdered AreOrdered is_unused
name_under true cs a l = ([], has-end true cs)
name_under false no_child a l = cc
name_under false (child k (node x ds) cs) (p, (q, (r, s))) l =
    let (n, h) = name_under x ds p q in (k ∷ n, has-head false k (node x ds) cs n ∙ h)

name_below :
    (t : WildcardTreeNode) → IsOrdered t → is_unused t ≡ false → (s : List ℕ) × (has t s ≡ true)
unfolding IsOrdered
name_below (node b cs) o l = name_under b cs o l

tail_of : List ℕ → List ℕ
tail_of [] = []
tail_of (x ∷ xs) = xs

tail-eq : {x y : ℕ} {xs ys : List ℕ} → (x ∷ xs) ≡ (y ∷ ys) → xs ≡ ys
unfolding tail_of
tail-eq e = ap tail_of e

append_cancel : (q s t : List ℕ) → q ++ s ≡ q ++ t → s ≡ t
append_cancel [] s t e = e
append_cancel (x ∷ q) s t e = append_cancel q s t (tail-eq e)

-- The names of a node with one child that is no end of a name itself.
only_names :
    (k : ℕ) (u : WildcardTreeNode) (n : List ℕ)
    → has (node false (child k u no_child)) n ≡ true
    → (m : List ℕ) × ((n ≡ k ∷ m) × (has u m ≡ true))
only_names k u [] h = cc (has-end false (child k u no_child))
only_names k u (d ∷ n) h = elim (Bool-cases (k == d)) [
  | inl e ↦ (
    n,
    (
      ap (λ x. x ∷ n) (sym (==→eq k d e)),
      ap (λ b. if b then has u n else false) (sym e) ∙ sym (has-only false k u d n) ∙ h,
    ),
  )
  | inr e ↦ cc (only_key e)
]
  where
    only_key : (k == d) ≡ false → false ≡ true
    only_key e = ap (λ b. if b then has u n else false) (sym e) ∙ sym (has-only false k u d n) ∙ h

no_only_names :
    (k : ℕ) (u : WildcardTreeNode)
    → ((n : List ℕ) → has u n ≡ false)
    → (n : List ℕ) → has (node false (child k u no_child)) n ≡ false
no_only_names k u h [] = has-end false (child k u no_child)
no_only_names k u h (d ∷ n) =
    has-only false k u d n ∙ elim (Bool-cases (k == d)) [ inl e ↦ rw e (h n) | inr e ↦ rw e refl ]

-- An answer below an only child is one at its parent, with the key before it.
lift-IsAnswer :
    (k : ℕ) (u : WildcardTreeNode) (ret : ReturnValue) (result : List ℕ)
    → IsAnswer (has u) [] ret result
    → IsAnswer (has (node false (child k u no_child))) [] ret (k ∷ result)
lift-IsAnswer k u no_error result (a, b, c) = (
  has-head false k u no_child result ∙ a,
  (k ∷ result, refl),
  λ s h. let (m, (e, g)) = only_names k u s h in e ∙ ap (λ x. k ∷ x) (c m g),
)
lift-IsAnswer k u player_with_this_name_is_not_online result a = no_only_names k u a
lift-IsAnswer k u name_is_too_ambigious result (s, t, a, b, c) = (
  k ∷ s,
  k ∷ t,
  has-head false k u no_child s ∙ a,
  has-head false k u no_child t ∙ b,
  λ e. c (tail-eq e),
)

no_children : (b : Bool) (d : ℕ) (s : List ℕ) → has (node b no_child) (d ∷ s) ≡ false
unfolding has walk get_child children find ends_name
no_children b d s = refl

extend_by-IsAnswer :
    (b : Bool) (cs : Children)
    → AreOrdered cs
    → is_unused (node b cs) ≡ false
    → IsAnswer (has (node b cs)) [] (extend_by b cs).ret (extend_by b cs).result
unfolding extend extend_by AreOrdered IsOrdered is_unused
extend_by-IsAnswer false no_child a l = cc
extend_by-IsAnswer true no_child a l = (has-end true no_child, ([], refl), alone)
  where
    alone : (s : List ℕ) → has (node true no_child) s ≡ true → s ≡ []
    alone [] h = refl
    alone (d ∷ s) h = cc (no_children true d s)
extend_by-IsAnswer true (child k u no_child) (p, (q, (r, s))) l =
    let (n, h) = name_below u p q in
    ([], k ∷ n, has-end true (child k u no_child), has-head true k u no_child n ∙ h, λ e. cc)
extend_by-IsAnswer false (child k (node x ds) no_child) (p, (q, (r, s))) l =
    lift-IsAnswer k (node x ds) (extend_by x ds).ret (extend_by x ds).result
      (extend_by-IsAnswer x ds p q)
extend_by-IsAnswer b (child k u (child j v cs)) (p, (q, ((r, r'), (p', (q', (r'', s)))))) l =
    let (n, h) = name_below u p q in
    let (m, g) = name_below v p' q' in
    (
      k ∷ n,
      j ∷ m,
      has-head b k u (child j v cs) n ∙ h,
      has-second b k u j v cs m (below k j r) ∙ g,
      λ e. below k j r (head-eq e),
    )
  where
    below : (k j : ℕ) → k < j → k ≢ j
    below k j r e = omega arith

    head_of : List ℕ → ℕ
    head_of [] = 0
    head_of (x ∷ xs) = x

    head-eq : {x y : ℕ} {xs ys : List ℕ} → (x ∷ xs) ≡ (y ∷ ys) → x ≡ y
    head-eq e = ap head_of e

IsFine-step :
    (u : Option WildcardTreeNode) (go : WildcardTreeNode → Option WildcardTreeNode)
    → ((v : WildcardTreeNode) → IsOrdered v → is_unused v ≡ false → IsFine (go v))
    → IsFine u
    → IsFine (u >>= go)
IsFine-step none go h f = tt
IsFine-step (some u) go h (p, m) = h u p m

walk-IsFine :
    (q : List ℕ) (t : WildcardTreeNode) → IsOrdered t → is_unused t ≡ false → IsFine (walk q t)
unfolding walk
walk-IsFine [] t o l = (o, l)
walk-IsFine (c ∷ q) t o l =
    IsFine-step (get_child c t) (walk q) (λ v p m. walk-IsFine q v p m) (get_child-IsFine c t o)

-- An answer at the node that a walk leads to is one from its start.
IsAnswer-from :
    (names below : List ℕ → Bool) (q : List ℕ) (ret : ReturnValue) (result : List ℕ)
    → ((s : List ℕ) → names (q ++ s) ≡ below s)
    → IsAnswer below [] ret result
    → IsAnswer names q ret (q ++ result)
IsAnswer-from names below q no_error result f (a, b, c) =
    (f result ∙ a, (result, refl), λ s h. ap (λ x. q ++ x) (c s (sym (f s) ∙ h)))
IsAnswer-from names below q player_with_this_name_is_not_online result f a = λ s. f s ∙ a s
IsAnswer-from names below q name_is_too_ambigious result f (s, t, a, b, c) =
    (s, t, f s ∙ a, f t ∙ b, λ e. c (append_cancel q s t e))

answer-IsAnswer :
    (q result : List ℕ) (t : WildcardTreeNode) (o : Option WildcardTreeNode)
    → walk q t ≡ o
    → IsFine o
    → IsAnswer (has t) q (answer q result o).ret (answer q result o).result
unfolding answer extend IsOrdered ends_name
answer-IsAnswer q result t none w f = λ s. has-walk q s t ∙ rw w refl
answer-IsAnswer q result t (some (node b cs)) w (p, l) =
    IsAnswer-from (has t) (has (node b cs)) q (extend_by b cs).ret (extend_by b cs).result
      (λ s. has-walk-some q s t (node b cs) w) (extend_by-IsAnswer b cs p l)

-- The answer of a search, if the tree has a name at all.
pub find_one-IsAnswer :
    (q result : List ℕ) (t : WildcardTreeNode) (n : List ℕ)
    → IsOrdered t
    → has t n ≡ true
    → IsAnswer (has t) q (find_one q result t).ret (find_one q result t).result
unfolding find_one
find_one-IsAnswer q result t n o h =
    answer-IsAnswer q result t (walk q t) refl (walk-IsFine q t o (used-has t n h))
