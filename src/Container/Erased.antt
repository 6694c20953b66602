-- ===== src/Container/Erased.antt =====
-- Lists of items without one of them, and their weights.
use theforgottenserver.Prelude.{
  ℕ, suc, ◌+◌, ◌≡◌, ◌≢◌, refl, inl, inr, true, false, some, List, [], ◌∷◌, ◌==◌, arith, Bool-cases,
  ==→eq, ne→==, contains, erase, erase_idx, subst, ap, sym, ◌∙◌,
}
use mathlib.Core.Option.{some-injective}
use theforgottenserver.Container.{ItemTypes, World, get_weight, index_from}
use theforgottenserver.Container.Store.{sum, IsOnce}

pub erase_idx-index_from :
    (n k thing : ℕ) (l : List ℕ)
    → index_from n thing l ≡ some k
    → (m : ℕ) × ((k ≡ n + m) × (erase_idx l m ≡ erase thing l))
unfolding index_from
erase_idx-index_from n k thing [] h = cc
erase_idx-index_from n k thing (i ∷ is) h = elim (Bool-cases (i == thing)) [
  | inl e ↦ (0, (at_once (some-injective n k (sym (rw e refl) ∙ h)), sym (rw e refl)))
  | inr e ↦
      let (m, (q, r)) = erase_idx-index_from (suc n) k thing is (sym (rw e refl) ∙ h) in
      (suc m, (one_on m q, ap (λ l. i ∷ l) r ∙ sym (rw e refl)))
]
  where
    at_once : n ≡ k → k ≡ n + 0
    at_once e = omega arith

    one_on : (m : ℕ) → k ≡ suc n + m → k ≡ n + suc m
    one_on m e = omega arith

pub sum-erase :
    (types : ItemTypes) (w : World) (thing : ℕ) (l : List ℕ)
    → contains thing l ≡ true
    → sum types w l ≡ get_weight types (w thing) + sum types w (erase thing l)
unfolding sum
sum-erase types w thing [] h = cc
sum-erase types w thing (i ∷ is) h = elim (Bool-cases (i == thing)) [
  | inl e ↦ rw e (ap (λ k. get_weight types (w k) + sum types w is) (==→eq i thing e))
  | inr e ↦ rw e (
      ap (λ n. get_weight types (w i) + n) (sum-erase types w thing is (sym (rw e refl) ∙ h))
      ∙ swap (get_weight types (w i)) (get_weight types (w thing)) (sum types w (erase thing is)))
]
  where
    swap : (a b c : ℕ) → a + (b + c) ≡ b + (a + c)
    swap a b c = omega arith

pub contains-erase :
    (thing i : ℕ) (l : List ℕ) → contains i (erase thing l) ≡ true → contains i l ≡ true
contains-erase thing i [] h = cc
contains-erase thing i (j ∷ js) h = elim (Bool-cases (j == i)) [
  | inl e ↦ rw e refl
  | inr e ↦ elim (Bool-cases (j == thing)) [
    | inl g ↦ rw e (sym (rw g refl) ∙ h)
    | inr g ↦ rw e (contains-erase thing i js (sym (rw (g, e) refl) ∙ h))
  ]
]

pub contains-erase_other :
    (thing i : ℕ) (l : List ℕ) → i ≢ thing → contains i l ≡ true → contains i (erase thing l) ≡ true
contains-erase_other thing i [] n h = cc
contains-erase_other thing i (j ∷ js) n h = elim (Bool-cases (j == thing)) [
  | inl g ↦ rw g (sym (rw (ne→== j i (λ e. n (sym e ∙ ==→eq j thing g))) refl) ∙ h)
  | inr g ↦ elim (Bool-cases (j == i)) [
    | inl e ↦ rw g (rw e refl)
    | inr e ↦ rw g (rw e (contains-erase_other thing i js n (sym (rw e refl) ∙ h)))
  ]
]

pub erase-IsOnce :
    (thing : ℕ) (l : List ℕ)
    → IsOnce l
    → IsOnce (erase thing l) × (contains thing (erase thing l) ≡ false)
erase-IsOnce thing [] o = (tt, refl)
erase-IsOnce thing (j ∷ js) (n, o) = elim (Bool-cases (j == thing)) [
  | inl g ↦ rw g (o, subst (λ k. contains k js ≡ false) (==→eq j thing g) n)
  | inr g ↦ let (p, q) = erase-IsOnce thing js o in rw g ((not_there, p), rw g q)
]
  where
    not_there : contains j (erase thing js) ≡ false
    not_there = elim (Bool-cases (contains j (erase thing js))) [
      | inl h ↦ cc (n, contains-erase thing j js h)
      | inr h ↦ h
    ]
