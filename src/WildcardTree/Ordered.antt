-- ===== src/WildcardTree/Ordered.antt =====
-- The invariant of the tree, and what `put`, `take_out` and `find` do to entries that are in order.
use theforgottenserver.Prelude.{
  ℕ, ◌<◌, ◌≡◌, ◌≢◌, refl, inl, inr, false, Option, none, some, ltb, ◌==◌, arith, Bool-cases,
  ==-refl, ==→eq, ne→==, ltb→lt, subst,
}
use theforgottenserver.WildcardTree.{
  WildcardTreeNode, node, Children, no_child, child, find, put, take_out, is_unused,
}

-- All keys are above a key.
abbrev pub IsAbove : ℕ → Children → Type 0
IsAbove k no_child = Unit {0}
IsAbove k (child l u cs) = (k < l) × IsAbove k cs

-- The keys of each node are in order, and no node but the root is without use.
unfoldable mutual
  pub IsOrdered : WildcardTreeNode → Type 0
  IsOrdered (node b cs) = AreOrdered cs

  pub AreOrdered : Children → Type 0
  AreOrdered no_child = Unit {0}
  AreOrdered (child k u cs) = IsOrdered u × ((is_unused u ≡ false) × (IsAbove k cs × AreOrdered cs))

IsAbove-trans : (j k : ℕ) (cs : Children) → j < k → IsAbove k cs → IsAbove j cs
IsAbove-trans j k no_child h a = tt
IsAbove-trans j k (child l u cs) h (p, a) = (omega arith, IsAbove-trans j k cs h a)

IsAbove-put :
    (j c : ℕ) (u : WildcardTreeNode) (cs : Children) → j < c → IsAbove j cs → IsAbove j (put c u cs)
unfolding put
IsAbove-put j c u no_child h a = (h, tt)
IsAbove-put j c u (child k v cs) h (p, a) = elim (Bool-cases (k == c)) [
  | inl e ↦ rw e (p, a)
  | inr e ↦ elim (Bool-cases (ltb c k)) [
    | inl l ↦ rw e (rw l (h, (p, a)))
    | inr l ↦ rw e (rw l (p, IsAbove-put j c u cs h a))
  ]
]

above : (k c : ℕ) → (k == c) ≡ false → ltb c k ≡ false → k < c
above k c e h = ground arith

pub put-AreOrdered :
    (c : ℕ) (u : WildcardTreeNode) (cs : Children)
    → IsOrdered u
    → is_unused u ≡ false
    → AreOrdered cs
    → AreOrdered (put c u cs)
unfolding put AreOrdered
put-AreOrdered c u no_child o l a = (o, (l, (tt, tt)))
put-AreOrdered c u (child k v cs) o l (p, (q, (r, s))) = elim (Bool-cases (k == c)) [
  | inl e ↦ rw e (o, (l, (r, s)))
  | inr e ↦ elim (Bool-cases (ltb c k)) [
    | inl h ↦
        rw e
          (rw h (o, (l, ((ltb→lt c k h, IsAbove-trans c k cs (ltb→lt c k h) r), (p, (q, (r, s)))))))
    | inr h ↦
        rw e (rw h (p, (q, (IsAbove-put k c u cs (above k c e h) r, put-AreOrdered c u cs o l s))))
  ]
]

IsAbove-find : (c : ℕ) (cs : Children) → IsAbove c cs → find c cs ≡ none
unfolding find
IsAbove-find c no_child a = refl
IsAbove-find c (child k u cs) (p, a) = rw (ne→== k c (omega arith)) (IsAbove-find c cs a)

IsAbove-take_out : (j c : ℕ) (cs : Children) → IsAbove j cs → IsAbove j (take_out c cs)
unfolding take_out
IsAbove-take_out j c no_child a = tt
IsAbove-take_out j c (child k u cs) (p, a) = elim (Bool-cases (k == c)) [
  | inl e ↦ rw e a
  | inr e ↦ rw e (p, IsAbove-take_out j c cs a)
]

pub take_out-AreOrdered : (c : ℕ) (cs : Children) → AreOrdered cs → AreOrdered (take_out c cs)
unfolding take_out AreOrdered
take_out-AreOrdered c no_child a = tt
take_out-AreOrdered c (child k u cs) (p, (q, (r, s))) = elim (Bool-cases (k == c)) [
  | inl e ↦ rw e s
  | inr e ↦ rw e (p, (q, (IsAbove-take_out k c cs r, take_out-AreOrdered c cs s)))
]

-- What is found is in order and of use.
abbrev pub IsFine : Option WildcardTreeNode → Type 0
IsFine none = Unit {0}
IsFine (some u) = IsOrdered u × (is_unused u ≡ false)

pub find-IsFine : (c : ℕ) (cs : Children) → AreOrdered cs → IsFine (find c cs)
unfolding find AreOrdered
find-IsFine c no_child a = tt
find-IsFine c (child k v cs) (p, (q, (r, s))) = elim (Bool-cases (k == c)) [
  | inl e ↦ rw e (p, q)
  | inr e ↦ rw e (find-IsFine c cs s)
]

pub find-put : (c : ℕ) (u : WildcardTreeNode) (cs : Children) → find c (put c u cs) ≡ some u
unfolding find put
find-put c u no_child = rw (==-refl c) refl
find-put c u (child k v cs) = elim (Bool-cases (k == c)) [
  | inl e ↦ rw e (rw e refl)
  | inr e ↦ elim (Bool-cases (ltb c k)) [
    | inl l ↦ rw e (rw l (rw (==-refl c) refl))
    | inr l ↦ rw e (rw l (rw e (find-put c u cs)))
  ]
]

pub find-put_other :
    (c d : ℕ) (u : WildcardTreeNode) (cs : Children) → c ≢ d → find d (put c u cs) ≡ find d cs
unfolding find put
find-put_other c d u no_child n = rw (ne→== c d n) refl
find-put_other c d u (child k v cs) n = elim (Bool-cases (k == c)) [
  | inl e ↦ rw e (rw (==→eq k c e) (rw (ne→== c d n) refl))
  | inr e ↦ elim (Bool-cases (ltb c k)) [
    | inl l ↦ rw e (rw l (rw (ne→== c d n) refl))
    | inr l ↦ rw e (rw l (rw (find-put_other c d u cs n) refl))
  ]
]

pub find-take_out : (c : ℕ) (cs : Children) → AreOrdered cs → find c (take_out c cs) ≡ none
unfolding find take_out AreOrdered
find-take_out c no_child a = refl
find-take_out c (child k v cs) (p, (q, (r, s))) = elim (Bool-cases (k == c)) [
  | inl e ↦ rw e (IsAbove-find c cs (subst (λ x. IsAbove x cs) (==→eq k c e) r))
  | inr e ↦ rw e (rw e (find-take_out c cs s))
]

pub find-take_out_other : (c d : ℕ) (cs : Children) → c ≢ d → find d (take_out c cs) ≡ find d cs
unfolding find take_out
find-take_out_other c d no_child n = refl
find-take_out_other c d (child k v cs) n = elim (Bool-cases (k == c)) [
  | inl e ↦ rw e (rw (==→eq k c e) (rw (ne→== c d n) refl))
  | inr e ↦ rw e (rw (find-take_out_other c d cs n) refl)
]
