-- ===== src/Container/Changing.antt =====
-- The weights after an item of a container has changed in place.
use theforgottenserver.Prelude.{
  ℕ, suc, ◌+◌, ◌<◌, ◌≡◌, refl, inl, inr, true, false, not, none, some, List, [], ◌∷◌, ◌==◌,
  if◌then◌else◌, wrap32, arith, Bool-cases, ==-refl, ==→eq, contains, subst, ap, sym, ◌∙◌, fun_ext,
  Option-cases,
}
use mathlib.Core.Option.{some-injective}
use theforgottenserver.Container.{
  ItemTypes, Thing, World, write, difference, get_weight, set_sub_type, set_id, reweigh,
  update_found, update_thing, index_from, get_thing_index,
}
use theforgottenserver.Container.Store.{
  sum, owed, IsStore, IsBalancedBut, IsSame, IsStore-same, sum-write, add_wrap32,
}
use theforgottenserver.Container.Adding.{contents, IsHealthy, settle}

-- Another thing in the same place, with the same things in it.
pub record IsInPlace (x y : Thing) : Type 0 where
  pub parent : y.parent ≡ x.parent
  pub is_container : y.is_container ≡ x.is_container
  pub itemlist : y.itemlist ≡ x.itemlist
  pub total_weight : y.total_weight ≡ x.total_weight

module _ (w : World) (thing : ℕ) (x : Thing) (place : IsInPlace (w thing) x) where
  after_write :
      (P : ℕ → Thing → Type 0)
      → P thing x
      → ((j : ℕ) → P j (w j))
      → (j : ℕ) → P j (write thing x w j)
  unfolding write
  after_write P at_thing at_other j = elim (Bool-cases (j == thing)) [
    | inl h ↦
        subst (λ k. P k (if k == thing then x else w k)) (sym (==→eq j thing h))
          (rw (==-refl thing) at_thing)
    | inr h ↦ rw h (at_other j)
  ]

  write-IsSame : IsSame w (write thing x w)
  write-IsSame = record {
    parent = after_write (λ j y. y.parent ≡ (w j).parent) place.parent (λ j. refl);
    is_container =
        after_write (λ j y. y.is_container ≡ (w j).is_container) place.is_container (λ j. refl);
    itemlist = after_write (λ j y. y.itemlist ≡ (w j).itemlist) place.itemlist (λ j. refl);
  }

  written_total : (j : ℕ) → (write thing x w j).total_weight ≡ (w j).total_weight
  written_total =
      after_write (λ j y. y.total_weight ≡ (w j).total_weight) place.total_weight (λ j. refl)

  module _ (types : ItemTypes) (depth : ℕ → ℕ) (c : ℕ) (healthy : IsHealthy types depth w)
      (holds : (w c).is_container ≡ true) (inside : (w thing).parent ≡ some c) where
    change : ℕ
    change = difference (get_weight types x) (get_weight types (w thing))

    difference-adds : (new old : ℕ) → wrap32 new ≡ wrap32 (old + difference new old)
    unfolding difference
    difference-adds new old = omega arith

    owed-contains :
        (d : ℕ)
        → (w d).is_container ≡ true
        → (if contains thing (contents w d) then change else 0) ≡ owed change (some c) d
    unfolding owed
    owed-contains d k = elim (Bool-cases (d == c)) [
      | inl e ↦ rw (e, ==→eq d c e, healthy.store.parent_has c thing holds inside (λ q. cc)) refl
      | inr e ↦ elim (Bool-cases (contains thing (contents w d))) [
        | inl h ↦ cc (
          subst (λ y. (y == c) ≡ false)
              (some-injective d c (sym (healthy.store.in_parent d thing k h) ∙ inside)) e,
          ==-refl c,
        )
        | inr h ↦ rw (e, h) refl
      ]
    ]

    write-IsBalancedBut : IsBalancedBut types (contents w) (write thing x w) change (some c)
    unfolding change owed
    write-IsBalancedBut d k =
        sum-write types w thing x change (contents w d) (healthy.store.once d)
          (difference-adds (get_weight types x) (get_weight types (w thing)))
        ∙ add_wrap32 (sum types w (contents w d)) ((w d).total_weight + 0) held held
            (healthy.balanced d was_container) refl
        ∙ ap wrap32 (plus_zero (w d).total_weight held)
        ∙ ap (λ n. wrap32 (n + held)) (sym (written_total d))
        ∙ ap (λ n. wrap32 ((write thing x w d).total_weight + n)) (owed-contains d was_container)
      where
        held : ℕ
        held = if contains thing (contents w d) then change else 0

        was_container : (w d).is_container ≡ true
        was_container = sym (write-IsSame.is_container d) ∙ k

        plus_zero : (a b : ℕ) → a + 0 + b ≡ a + b
        plus_zero a b = omega arith

    pub reweigh-IsHealthy :
        (fuel : ℕ) → depth c < fuel → IsHealthy types depth (reweigh fuel types c thing x w)
    unfolding reweigh change
    reweigh-IsHealthy fuel f =
        settle types depth fuel change c (write thing x w)
          (subst (λ h. IsStore depth h (write thing x w) none) lists
            (IsStore-same depth (contents w) w (write thing x w) none write-IsSame healthy.store))
          (subst (λ h. IsBalancedBut types h (write thing x w) change (some c)) lists
            write-IsBalancedBut)
          (write-IsSame.is_container c ∙ holds) f
      where
        lists : contents w ≡ contents (write thing x w)
        lists = fun_ext (λ d. sym (write-IsSame.itemlist d))

set_sub_type-IsInPlace :
    (types : ItemTypes) (n item_id : ℕ) (x : Thing)
    → IsInPlace x (set_sub_type types n (set_id item_id x))
unfolding set_sub_type set_id
set_sub_type-IsInPlace types n item_id x = record {
  parent = ground arith;
  is_container = ground arith;
  itemlist = ground arith;
  total_weight = ground arith;
}

-- An index is found only for what is in the list.
pub index_from-contains :
    (n k thing : ℕ) (l : List ℕ) → index_from n thing l ≡ some k → contains thing l ≡ true
unfolding index_from
index_from-contains n k thing [] h = cc
index_from-contains n k thing (i ∷ is) h = elim (Bool-cases (i == thing)) [
  | inl e ↦ rw e refl
  | inr e ↦ rw e (index_from-contains (suc n) k thing is (sym (rw e refl) ∙ h))
]

-- In a store where each container's count of weight is the sum of what is in it, and each object is
-- in its parent once: giving an object a new type and count through a container keeps this for all
-- containers, if the fuel is above the depth of the container.
pub update_thing-IsHealthy :
    (types : ItemTypes) (depth : ℕ → ℕ) (w : World) (c thing item_id count fuel : ℕ)
    → IsHealthy types depth w
    → (w c).is_container ≡ true
    → depth c < fuel
    → IsHealthy types depth (update_thing fuel types c thing item_id count w)
unfolding update_thing update_found get_thing_index
update_thing-IsHealthy types depth w c thing item_id count fuel healthy holds f =
    elim (Option-cases (index_from 0 thing (w c).itemlist)) [
      | inl h ↦ rw h healthy
      | inr (k, h) ↦ rw h (elim (Bool-cases (w thing).is_item) [
        | inl e ↦
            subst (λ b. IsHealthy types depth (if not b then w else changed)) (sym e) (right k h)
        | inr e ↦ subst (λ b. IsHealthy types depth (if not b then w else changed)) (sym e) healthy
      ])
    ]
  where
    changed : World
    changed = reweigh fuel types c thing (set_sub_type types count (set_id item_id (w thing))) w

    right : (k : ℕ) → index_from 0 thing (w c).itemlist ≡ some k → IsHealthy types depth changed
    right k h =
        reweigh-IsHealthy w thing (set_sub_type types count (set_id item_id (w thing)))
          (set_sub_type-IsInPlace types count item_id (w thing)) types depth c healthy holds
          (healthy.store.in_parent c thing holds (index_from-contains 0 k thing (w c).itemlist h))
          fuel f
