-- ===== src/WildcardTree/Names.antt =====
-- The names that a tree holds, and what `insert`, `remove` and `walk` do to them.
use theforgottenserver.Prelude.{
  ℕ, ◌≡◌, ◌≢◌, refl, inl, inr, Bool, true, false, ◌||◌, ◌&&◌, not, Option, none, some, List, [],
  ◌∷◌, ◌==◌, ◌>>=◌, if◌then◌else◌, arith, Bool-cases, Option-cases, ==-refl, ==→eq, subst, ap, ◌∙◌,
  sym,
}
use theforgottenserver.WildcardTree.{
  WildcardTreeNode, node, Children, no_child, child, find, get_child, put, take_out, is_unused,
  breakpoint, children, with_child, without_child, child_or_new, add_child, insert_from, walk,
  remove_below, or_unchanged, remove,
}
use theforgottenserver.WildcardTree.Ordered.{
  IsOrdered, AreOrdered, IsFine, put-AreOrdered, take_out-AreOrdered, find-IsFine, find-put,
  find-put_other, find-take_out, find-take_out_other,
}

-- The end of the path is the end of a name.
unfoldable pub ends_name : Option WildcardTreeNode → Bool
ends_name none = false
ends_name (some t) = breakpoint t

-- Whether a tree has a name.
unfoldable pub has : WildcardTreeNode → List ℕ → Bool
has t s = ends_name (walk s t)

unfoldable pub has_under : Option WildcardTreeNode → List ℕ → Bool
has_under o s = ends_name (o >>= walk s)

unfoldable pub same_name : List ℕ → List ℕ → Bool
same_name [] [] = true
same_name [] (d ∷ t) = false
same_name (c ∷ s) [] = false
same_name (c ∷ s) (d ∷ t) = let rest = same_name s t in if c == d then rest else false

pub same_name-eq : (s t : List ℕ) → same_name s t ≡ true → s ≡ t
unfolding same_name
same_name-eq [] [] h = refl
same_name-eq [] (d ∷ t) h = cc
same_name-eq (c ∷ s) [] h = cc
same_name-eq (c ∷ s) (d ∷ t) h = ground (arith, same_name-eq s t, ==→eq c d)

pub same_name_refl : (s : List ℕ) → same_name s s ≡ true
unfolding same_name
same_name_refl [] = refl
same_name_refl (c ∷ s) = rw (==-refl c) (same_name_refl s)

-- A child in place of another changes the names that begin with its key, and no others.
has-with_child :
    (c : ℕ) (u t : WildcardTreeNode) (d : ℕ) (s : List ℕ)
    → has (with_child c u t) (d ∷ s) ≡ (if c == d then has u s else has t (d ∷ s))
unfolding has walk get_child with_child children
has-with_child c u t d s = elim (Bool-cases (c == d)) [
  | inl e ↦ rw e (
      subst (λ x. ends_name (find x (put c u (children t)) >>= walk s) ≡ has u s) (==→eq c d e)
        (rw (find-put c u (children t)) refl))
  | inr e ↦ rw e (rw (find-put_other c d u (children t) (neq c d e)) refl)
]
  where
    neq : (c d : ℕ) → (c == d) ≡ false → c ≢ d
    neq c d e = ground arith

has-child_or_new :
    (b : Bool) (o : Option WildcardTreeNode) (s : List ℕ)
    → has (child_or_new b o) s ≡ (b && same_name [] s) || has_under o s
unfolding child_or_new has_under has walk get_child children find ends_name breakpoint same_name
has-child_or_new b none [] = ground arith
has-child_or_new b none (c ∷ s) = ground arith
has-child_or_new b (some (node x cs)) [] = ground arith
has-child_or_new b (some (node x cs)) (c ∷ s) = ground arith

-- The empty name is none that is put under a child.
with_child_root :
    (c : ℕ) (u t : WildcardTreeNode) (s : List ℕ)
    → has (with_child c u t) [] ≡ same_name (c ∷ s) [] || has t []
unfolding has walk with_child ends_name breakpoint same_name
with_child_root c u t s = refl

with_child_below :
    (c d : ℕ) (u t : WildcardTreeNode) (s n : List ℕ)
    → has u n ≡ same_name s n || has_under (get_child c t) n
    → has (with_child c u t) (d ∷ n) ≡ same_name (c ∷ s) (d ∷ n) || has t (d ∷ n)
unfolding has has_under walk same_name
with_child_below c d u t s n h = has-with_child c u t d n ∙ elim (Bool-cases (c == d)) [
  | inl e ↦
      rw e (subst (λ x. has u n ≡ same_name s n || has_under (get_child x t) n) (==→eq c d e) h)
  | inr e ↦ rw e refl
]

-- Inserting a name adds this name and no other.
pub has-insert_from :
    (c : ℕ) (s : List ℕ) (t : WildcardTreeNode) (n : List ℕ)
    → has (insert_from c s t) n ≡ same_name (c ∷ s) n || has t n
unfolding insert_from add_child
has-insert_from c [] t [] = with_child_root c (add_child c true t) t []
has-insert_from c [] t (d ∷ n) =
    with_child_below c d (add_child c true t) t [] n (has-child_or_new true (get_child c t) n)
has-insert_from c (e ∷ s) t [] = with_child_root c (insert_from e s (add_child c false t)) t (e ∷ s)
has-insert_from c (e ∷ s) t (d ∷ n) =
    with_child_below c d (insert_from e s (add_child c false t)) t (e ∷ s) n (
      has-insert_from e s (add_child c false t) n
      ∙ ap (λ x. same_name (e ∷ s) n || x) (has-child_or_new false (get_child c t) n))

-- The invariant at a child that is there or new.
child_or_new-IsOrdered :
    (b : Bool) (o : Option WildcardTreeNode)
    → IsFine o
    → IsOrdered (child_or_new b o) × (b ≡ true → is_unused (child_or_new b o) ≡ false)
unfolding child_or_new IsOrdered AreOrdered is_unused breakpoint children
child_or_new-IsOrdered b none f = (tt, λ e. ap not e)
child_or_new-IsOrdered true (some (node false no_child)) (o, l) = (o, λ e. refl)
child_or_new-IsOrdered true (some (node false (child k u cs))) (o, l) = (o, λ e. refl)
child_or_new-IsOrdered true (some (node true cs)) (o, l) = (o, λ e. l)
child_or_new-IsOrdered false (some (node x cs)) (o, l) = (o, λ e. l)

put_used :
    (c : ℕ) (b : Bool) (u : WildcardTreeNode) (cs : Children)
    → is_unused (node b (put c u cs)) ≡ false
unfolding put is_unused
put_used c b u no_child = refl
put_used c b u (child k v cs) = ground arith

with_child-IsOrdered :
    (c : ℕ) (u t : WildcardTreeNode)
    → IsOrdered t
    → IsOrdered u
    → is_unused u ≡ false
    → IsOrdered (with_child c u t) × (is_unused (with_child c u t) ≡ false)
unfolding with_child children IsOrdered breakpoint
with_child-IsOrdered c u (node b cs) o p l = (put-AreOrdered c u cs p l o, put_used c b u cs)

pub get_child-IsFine : (c : ℕ) (t : WildcardTreeNode) → IsOrdered t → IsFine (get_child c t)
unfolding get_child children IsOrdered
get_child-IsFine c (node b cs) o = find-IsFine c cs o

pub insert_from-IsOrdered :
    (c : ℕ) (s : List ℕ) (t : WildcardTreeNode)
    → IsOrdered t
    → IsOrdered (insert_from c s t) × (is_unused (insert_from c s t) ≡ false)
unfolding insert_from add_child
insert_from-IsOrdered c [] t o =
    let (p, l) = child_or_new-IsOrdered true (get_child c t) (get_child-IsFine c t o) in
    with_child-IsOrdered c (add_child c true t) t o p (l refl)
insert_from-IsOrdered c (e ∷ s) t o =
    let (p, l) = child_or_new-IsOrdered false (get_child c t) (get_child-IsFine c t o) in
    let (q, m) = insert_from-IsOrdered e s (add_child c false t) p in
    with_child-IsOrdered c (insert_from e s (add_child c false t)) t o q m

pub has-nothing : (s : List ℕ) → has (node false no_child) s ≡ false
unfolding has walk get_child children find ends_name breakpoint
has-nothing [] = refl
has-nothing (c ∷ s) = refl

unused-has : (v : WildcardTreeNode) (s : List ℕ) → is_unused v ≡ true → has v s ≡ false
unfolding is_unused
unused-has (node false no_child) s l = has-nothing s
unused-has (node true no_child) s l = cc
unused-has (node b (child k u cs)) s l = cc

pub used-has : (v : WildcardTreeNode) (s : List ℕ) → has v s ≡ true → is_unused v ≡ false
used-has v s h = elim (Bool-cases (is_unused v)) [ inl e ↦ cc (unused-has v s e) | inr e ↦ e ]

distinct : (c d : ℕ) → (c == d) ≡ false → c ≢ d
distinct c d e = ground arith

-- A child that is taken out leaves none of the names that begin with its key.
has-take_out :
    (c d : ℕ) (t : WildcardTreeNode) (s : List ℕ)
    → IsOrdered t
    → has (node (breakpoint t) (take_out c (children t))) (d ∷ s)
      ≡ (if c == d then false else has t (d ∷ s))
unfolding has walk get_child children ends_name IsOrdered
has-take_out c d (node b cs) s o = elim (Bool-cases (c == d)) [
  | inl e ↦ rw e (
      subst (λ x. ends_name (find x (take_out c cs) >>= walk s) ≡ false) (==→eq c d e)
        (rw (find-take_out c cs o) refl))
  | inr e ↦ rw e (rw (find-take_out_other c d cs (distinct c d e)) refl)
]

without_child-IsOrdered :
    (c : ℕ) (v t : WildcardTreeNode) → IsOrdered t → IsOrdered v → IsOrdered (without_child c v t)
unfolding without_child IsOrdered children
without_child-IsOrdered c v (node b cs) o p = elim (Bool-cases (is_unused v)) [
  | inl e ↦ rw e (take_out-AreOrdered c cs o)
  | inr e ↦ rw e (let (q, l) = with_child-IsOrdered c v (node b cs) o p e in q)
]

without_child_root :
    (c : ℕ) (s : List ℕ) (t v : WildcardTreeNode)
    → has (without_child c v t) [] ≡ not (same_name (c ∷ s) []) && has t []
unfolding without_child with_child has walk ends_name breakpoint same_name
without_child_root c s t v = ground arith

-- The names below a child without one of them are those of the tree without it.
without_name_below :
    (c d : ℕ) (s : List ℕ) (t u : WildcardTreeNode) (n : List ℕ) (x : Bool)
    → get_child c t ≡ some u
    → x ≡ not (same_name s n) && has u n
    → (if c == d then x else has t (d ∷ n)) ≡ not (same_name (c ∷ s) (d ∷ n)) && has t (d ∷ n)
unfolding same_name has walk
without_name_below c d s t u n x g h = elim (Bool-cases (c == d)) [
  | inl e ↦ rw e (
      subst (λ k. x ≡ not (same_name s n) && ends_name (get_child k t >>= walk n)) (==→eq c d e)
        (rw g h))
  | inr e ↦ rw e refl
]

has-without_child :
    (c : ℕ) (s : List ℕ) (t u v : WildcardTreeNode) (n : List ℕ)
    → IsOrdered t
    → get_child c t ≡ some u
    → ((n : List ℕ) → has v n ≡ not (same_name s n) && has u n)
    → has (without_child c v t) n ≡ not (same_name (c ∷ s) n) && has t n
unfolding without_child
has-without_child c s t u v [] o g h = without_child_root c s t v
has-without_child c s t u v (d ∷ n) o g h = elim (Bool-cases (is_unused v)) [
  | inl e ↦ rw e (
      has-take_out c d t n o
      ∙ without_name_below c d s t u n false g (sym (unused-has v n e) ∙ h n))
  | inr e ↦ rw e (has-with_child c v t d n ∙ without_name_below c d s t u n (has v n) g (h n))
]

-- A path that is missing, or the tree without its name.
abbrev pub IsWithout : List ℕ → WildcardTreeNode → Option WildcardTreeNode → Type 0
IsWithout s t none = has t s ≡ false
IsWithout s t (some v) = IsOrdered v × ((n : List ℕ) → has v n ≡ not (same_name s n) && has t n)

fine_child : (c : ℕ) (t u : WildcardTreeNode) → IsOrdered t → get_child c t ≡ some u → IsOrdered u
fine_child c t u o g = let (p, l) = subst IsFine g (get_child-IsFine c t o) in p

missing_child :
    (c : ℕ) (s : List ℕ) (t : WildcardTreeNode) → get_child c t ≡ none → has t (c ∷ s) ≡ false
unfolding has walk ends_name
missing_child c s t g = rw g refl

child_has :
    (c : ℕ) (s : List ℕ) (t u : WildcardTreeNode) → get_child c t ≡ some u → has t (c ∷ s) ≡ has u s
unfolding has walk
child_has c s t u g = rw g refl

-- The way back over a child, whatever came of it.
IsWithout-below :
    (c : ℕ) (s : List ℕ) (t u : WildcardTreeNode) (below : Option WildcardTreeNode)
    → IsOrdered t
    → get_child c t ≡ some u
    → IsWithout s u below
    → IsWithout (c ∷ s) t (below >>= λ v. some (without_child c v t))
IsWithout-below c s t u none o g h = child_has c s t u g ∙ h
IsWithout-below c s t u (some v) o g (p, h) =
    (without_child-IsOrdered c v t o p, λ n. has-without_child c s t u v n o g h)

remove_below-IsWithout :
    (s : List ℕ) (t : WildcardTreeNode) → IsOrdered t → IsWithout s t (remove_below s t)
unfolding remove_below IsOrdered children has walk get_child ends_name breakpoint same_name
remove_below-IsWithout [] (node b cs) o = (o, at_end)
  where
    at_end : (n : List ℕ) → has (node false cs) n ≡ not (same_name [] n) && has (node b cs) n
    at_end [] = refl
    at_end (d ∷ n) = refl
remove_below-IsWithout (c ∷ s) t o = elim (Option-cases (get_child c t)) [
  | inl g ↦ rw g (missing_child c s t g)
  | inr (u, g) ↦ rw g (
      IsWithout-below c s t u (remove_below s u) o g
        (remove_below-IsWithout s u (fine_child c t u o g)))
]

or_unchanged-IsWithout :
    (s : List ℕ) (t : WildcardTreeNode) (below : Option WildcardTreeNode)
    → IsOrdered t
    → IsWithout s t below
    → IsWithout s t (some (or_unchanged t below))
unfolding or_unchanged
or_unchanged-IsWithout s t (some v) o h = h
or_unchanged-IsWithout s t none o h = (o, unchanged)
  where
    unchanged : (n : List ℕ) → has t n ≡ not (same_name s n) && has t n
    unchanged n = elim (Bool-cases (same_name s n)) [
      | inl e ↦ rw e (subst (λ x. has t x ≡ false) (same_name-eq s n e) h)
      | inr e ↦ rw e refl
    ]

-- Removing a name takes out this name and no other.
pub remove-IsWithout :
    (s : List ℕ) (t : WildcardTreeNode) → IsOrdered t → IsWithout s t (some (remove s t))
unfolding remove
remove-IsWithout s t o =
    or_unchanged-IsWithout s t (remove_below s t) o (remove_below-IsWithout s t o)
