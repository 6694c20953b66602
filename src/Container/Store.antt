-- ===== src/Container/Store.antt =====
-- What the invariant of the store says, and how it changes by one container whose own weight is off.
use theforgottenserver.Prelude.{
  ℕ, ◌+◌, ◌<◌, ◌≡◌, ◌≢◌, refl, inl, inr, true, false, Option, none, some, List, [], ◌∷◌, ◌==◌,
  if◌then◌else◌, wrap32, arith, Bool-cases, ==→eq, contains, subst, ap, sym, ◌∙◌,
}
use theforgottenserver.Container.{ItemTypes, Thing, World, write, get_weight}

-- The weights of some objects, added up.
unfoldable pub sum : ItemTypes → World → List ℕ → ℕ
sum types w [] = 0
sum types w (i ∷ is) = get_weight types (w i) + sum types w is

abbrev pub IsOnce : List ℕ → Type 0
IsOnce [] = Unit {0}
IsOnce (i ∷ is) = (contains i is ≡ false) × IsOnce is

-- The weight that one container is behind, in which `diff` has yet to be added.
unfoldable pub owed : ℕ → Option ℕ → ℕ → ℕ
owed diff none d = 0
owed diff (some c) d = if d == c then diff else 0

abbrev pub Lists : Type 0
Lists = ℕ → List ℕ

-- By the lists `held`, an object is in a container exactly if that is its parent, and once; but one
-- object may be `absent` from the lists. Containers are deeper than those around them.
pub record IsStore (depth : ℕ → ℕ) (held : Lists) (w : World) (absent : Option ℕ) : Type 0 where
  pub in_parent :
      (d i : ℕ) → (w d).is_container ≡ true → contains i (held d) ≡ true → (w i).parent ≡ some d
  pub parent_has :
      (d i : ℕ)
      → (w d).is_container ≡ true
      → (w i).parent ≡ some d
      → absent ≢ some i
      → contains i (held d) ≡ true
  pub once : (d : ℕ) → IsOnce (held d)
  pub ranked :
      (d i : ℕ)
      → (w d).is_container ≡ true
      → (w i).is_container ≡ true
      → (w i).parent ≡ some d
      → depth d < depth i

-- Each container's own count of weight is the sum of what is in it, but for `diff` at one.
abbrev pub IsBalancedBut : ItemTypes → Lists → World → ℕ → Option ℕ → Type 0
IsBalancedBut types held w diff o =
    (d : ℕ)
    → (w d).is_container ≡ true
    → wrap32 (sum types w (held d)) ≡ wrap32 ((w d).total_weight + owed diff o d)

-- Nothing but counts of weight has changed.
pub record IsSame (w w' : World) : Type 0 where
  pub parent : (i : ℕ) → (w' i).parent ≡ (w i).parent
  pub is_container : (i : ℕ) → (w' i).is_container ≡ (w i).is_container
  pub itemlist : (i : ℕ) → (w' i).itemlist ≡ (w i).itemlist

pub IsSame-refl : (w : World) → IsSame w w
IsSame-refl w = record { parent = λ i. refl; is_container = λ i. refl; itemlist = λ i. refl }

pub IsSame-trans : (w w' w'' : World) → IsSame w w' → IsSame w' w'' → IsSame w w''
IsSame-trans w w' w'' s t = record {
  parent = λ i. t.parent i ∙ s.parent i;
  is_container = λ i. t.is_container i ∙ s.is_container i;
  itemlist = λ i. t.itemlist i ∙ s.itemlist i;
}

pub IsStore-same :
    (depth : ℕ → ℕ) (held : Lists) (w w' : World) (absent : Option ℕ)
    → IsSame w w'
    → IsStore depth held w absent
    → IsStore depth held w' absent
IsStore-same depth held w w' absent s t = record {
  in_parent = λ d i c h. s.parent i ∙ t.in_parent d i (sym (s.is_container d) ∙ c) h;
  parent_has = λ d i c p n. t.parent_has d i (sym (s.is_container d) ∙ c) (sym (s.parent i) ∙ p) n;
  once = t.once;
  ranked = λ d i c c' p.
      t.ranked d i (sym (s.is_container d) ∙ c) (sym (s.is_container i) ∙ c')
        (sym (s.parent i) ∙ p);
}

pub add_wrap32 :
    (a b c d : ℕ) → wrap32 a ≡ wrap32 b → wrap32 c ≡ wrap32 d → wrap32 (a + c) ≡ wrap32 (b + d)
add_wrap32 a b c d h k = omega arith

reassoc : (a b c : ℕ) → a + (b + c) ≡ a + b + c
reassoc a b c = omega arith

regroup : (a b c : ℕ) → a + b + c ≡ a + c + b
regroup a b c = omega arith

-- An object outside a list has no part in its sum.
pub sum-write_outside :
    (types : ItemTypes) (w : World) (c : ℕ) (x : Thing) (l : List ℕ)
    → contains c l ≡ false
    → sum types (write c x w) l ≡ sum types w l
unfolding sum write
sum-write_outside types w c x [] n = refl
sum-write_outside types w c x (i ∷ is) n = elim (Bool-cases (i == c)) [
  | inl h ↦ cc (only_true h)
  | inr h ↦ rw h (
      ap (λ s. get_weight types (w i) + s) (sum-write_outside types w c x is (sym (rw h refl) ∙ n)))
]
  where
    only_true : (i == c) ≡ true → true ≡ false
    only_true h = sym (rw h refl) ∙ n

-- An object that changes its weight changes the sum of the lists that it is in.
pub sum-write :
    (types : ItemTypes) (w : World) (c : ℕ) (x : Thing) (diff : ℕ) (l : List ℕ)
    → IsOnce l
    → wrap32 (get_weight types x) ≡ wrap32 (get_weight types (w c) + diff)
    → wrap32 (sum types (write c x w) l)
      ≡ wrap32 (sum types w l + (if contains c l then diff else 0))
unfolding sum write
sum-write types w c x diff [] o e = refl
sum-write types w c x diff (i ∷ is) (n, o) e = elim (Bool-cases (i == c)) [
  | inl h ↦ rw h (
      rw (sum-write_outside types w c x is (subst (λ k. contains k is ≡ false) (==→eq i c h) n)) (
        add_wrap32 (get_weight types x) (get_weight types (w c) + diff) (sum types w is)
          (sum types w is) e refl
        ∙ ap wrap32 (
            regroup (get_weight types (w c)) diff (sum types w is)
            ∙ ap (λ k. get_weight types (w k) + sum types w is + diff) (sym (==→eq i c h)))))
  | inr h ↦ rw h (
      add_wrap32 (get_weight types (w i)) (get_weight types (w i)) (sum types (write c x w) is)
        (sum types w is + (if contains c is then diff else 0)) refl
        (sum-write types w c x diff is o e)
      ∙ ap wrap32
          (reassoc (get_weight types (w i)) (sum types w is) (if contains c is then diff else 0)))
]
