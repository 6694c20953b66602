-- ===== src/Container/Removing.antt =====
-- The weights after an item has been taken out of a container, whole or in part.
use theforgottenserver.Prelude.{
  ℕ, ◌+◌, ◌-◌, ◌^◌, ◌<◌, ◌≡◌, ◌≢◌, refl, inl, inr, Bool, true, false, ◌&&◌, not, none, some, ◌==◌,
  if◌then◌else◌, wrap32, arith, Bool-cases, Option-cases, ==-refl, ==→eq, contains, erase,
  erase_idx, subst, ap, sym, ◌∙◌, fun_ext,
}
use mathlib.Core.Option.{some-injective}
use theforgottenserver.Container.{
  ItemTypes, Thing, World, difference, get_weight, update_item_weight, index_from, get_thing_index,
  new_count, reweigh, take_thing, remove_found, remove_thing,
}
use theforgottenserver.Container.Store.{sum, IsOnce, owed, Lists, IsStore, IsBalancedBut, IsSame}
use theforgottenserver.Container.Weights.{update_item_weight-Balances}
use theforgottenserver.Container.Adding.{contents, IsHealthy, sum_cong, unequal}
use theforgottenserver.Container.Changing.{reweigh-IsHealthy, index_from-contains}
use theforgottenserver.Container.Erased.{
  erase_idx-index_from, sum-erase, contains-erase, contains-erase_other, erase-IsOnce,
}
use theforgottenserver.Container.Taken.{
  taken_out, taken_parent, taken_list, taken_container, taken_total, taken_weight,
}

-- The lists without the thing.
unfoldable left_over : World → ℕ → ℕ → Lists
left_over w c thing d = if d == c then erase thing (w d).itemlist else (w d).itemlist

module _ (types : ItemTypes) (depth : ℕ → ℕ) (w : World) (c thing : ℕ)
    (healthy : IsHealthy types depth w) (holds : (w c).is_container ≡ true)
    (inside : contains thing (w c).itemlist ≡ true) where
  held_thing : (w thing).parent ≡ some c
  held_thing = healthy.store.in_parent c thing holds inside

  left_over-contains :
      (d i : ℕ) → contains i (left_over w c thing d) ≡ true → contains i (w d).itemlist ≡ true
  unfolding left_over
  left_over-contains d i h = elim (Bool-cases (d == c)) [
    | inl e ↦ contains-erase thing i (w d).itemlist (sym (rw e refl) ∙ h)
    | inr e ↦ sym (rw e refl) ∙ h
  ]

  left_over-has :
      (d i : ℕ)
      → i ≢ thing
      → contains i (w d).itemlist ≡ true
      → contains i (left_over w c thing d) ≡ true
  unfolding left_over
  left_over-has d i n h = elim (Bool-cases (d == c)) [
    | inl e ↦ rw e (contains-erase_other thing i (w d).itemlist n h)
    | inr e ↦ rw e h
  ]

  left_over-without :
      (d : ℕ) → (w d).is_container ≡ true → contains thing (left_over w c thing d) ≡ false
  unfolding left_over
  left_over-without d k = elim (Bool-cases (d == c)) [
    | inl e ↦ rw e (let (p, q) = erase-IsOnce thing (w d).itemlist (healthy.store.once d) in q)
    | inr e ↦ rw e (elim (Bool-cases (contains thing (w d).itemlist)) [
      | inl h ↦ cc (
        subst (λ y. (y == c) ≡ false)
            (some-injective d c (sym (healthy.store.in_parent d thing k h) ∙ held_thing)) e,
        ==-refl c,
      )
      | inr h ↦ h
    ])
  ]

  left_over-IsStore : IsStore depth (left_over w c thing) w (some thing)
  unfolding left_over
  left_over-IsStore = record {
    in_parent = λ d i k h. healthy.store.in_parent d i k (left_over-contains d i h);
    parent_has = λ d i k p n.
        left_over-has d i (λ e. n (ap some (sym e))) (healthy.store.parent_has d i k p (λ e. cc));
    once = once_left;
    ranked = healthy.store.ranked;
  }
    where
      once_left : (d : ℕ) → IsOnce (left_over w c thing d)
      once_left d = elim (Bool-cases (d == c)) [
        | inl e ↦ rw e (let (p, q) = erase-IsOnce thing (w d).itemlist (healthy.store.once d) in p)
        | inr e ↦ rw e (healthy.store.once d)
      ]

  left_over-IsBalancedBut :
      IsBalancedBut types
        (left_over w c thing)
        w
        (difference 0 (get_weight types (w thing)))
        (some c)
  unfolding left_over owed difference
  left_over-IsBalancedBut d k = elim (Bool-cases (d == c)) [
    | inl e ↦ rw e (
        minus (get_weight types (w thing)) (sum types w (erase thing (w d).itemlist))
          (w d).total_weight
          (ap wrap32 (
              sym (
                sum-erase types w thing (w d).itemlist
                  (subst (λ x. contains thing (w x).itemlist ≡ true) (sym (==→eq d c e)) inside)))
            ∙ healthy.balanced d k))
    | inr e ↦ rw e (healthy.balanced d k)
  ]
    where
      minus :
          (g s t : ℕ)
          → wrap32 (g + s) ≡ wrap32 (t + 0)
          → wrap32 s ≡ wrap32 (t + wrap32 (0 + (2 ^ 32 - wrap32 g)))
      minus g s t h = omega arith

  module _ (w' : World) (k : ℕ) (apart : c ≢ thing) (same : IsSame w w')
      (settled : IsBalancedBut types (left_over w c thing) w' 0 none)
      (found : erase_idx (w c).itemlist k ≡ erase thing (w c).itemlist) where
    left_lists : (d : ℕ) → contents (taken_out w' c thing k apart) d ≡ left_over w c thing d
    unfolding left_over
    left_lists d = taken_list w' c thing k apart d ∙ elim (Bool-cases (d == c)) [
      | inl e ↦ rw e (
          subst (λ x. erase_idx (w' x).itemlist k ≡ erase thing (w x).itemlist) (sym (==→eq d c e))
            (ap (λ l. erase_idx l k) (same.itemlist c) ∙ found))
      | inr e ↦ rw e (same.itemlist d)
    ]

    was_container :
        (d : ℕ) → (taken_out w' c thing k apart d).is_container ≡ true → (w d).is_container ≡ true
    was_container d l = sym (taken_container w' c thing k apart d ∙ same.is_container d) ∙ l

    parent_before :
        (i : ℕ)
        → (taken_out w' c thing k apart i).parent ≡ (if i == thing then none else (w i).parent)
    parent_before i =
        taken_parent w' c thing k apart i ∙ ap (λ o. if i == thing then none else o) (same.parent i)

    not_thing :
        (d i : ℕ)
        → (w d).is_container ≡ true
        → contains i (left_over w c thing d) ≡ true
        → (i == thing) ≡ false
    not_thing d i l h = elim (Bool-cases (i == thing)) [
      | inl e ↦ cc (
        left_over-without d l,
        subst (λ x. contains x (left_over w c thing d) ≡ true) (==→eq i thing e) h,
      )
      | inr e ↦ e
    ]

    in_parent_before :
        (i d : ℕ)
        → (if i == thing then none else (w i).parent) ≡ some d
        → (i ≢ thing) × ((w i).parent ≡ some d)
    in_parent_before i d p = elim (Bool-cases (i == thing)) [
      | inl e ↦ cc (gone e)
      | inr e ↦ (unequal i thing e, sym (rw e refl) ∙ p)
    ]
      where
        gone : (i == thing) ≡ true → none ≡ some d
        gone e = sym (rw e refl) ∙ p

    taken_out-IsStore : IsStore depth (left_over w c thing) (taken_out w' c thing k apart) none
    taken_out-IsStore = record {
      in_parent = λ d i l h.
          parent_before i
          ∙ rw (not_thing d i (was_container d l) h)
              (left_over-IsStore.in_parent d i (was_container d l) h);
      parent_has = λ d i l p n.
          let (m, q) = in_parent_before i d (sym (parent_before i) ∙ p) in
          left_over-IsStore.parent_has d i (was_container d l) q
            (λ e. m (sym (some-injective thing i e)));
      once = left_over-IsStore.once;
      ranked = λ d i l l' p.
          let (m, q) = in_parent_before i d (sym (parent_before i) ∙ p) in
          healthy.store.ranked d i (was_container d l) (was_container i l') q;
    }

    taken_out-IsHealthy : IsHealthy types depth (taken_out w' c thing k apart)
    taken_out-IsHealthy =
        let lists = fun_ext (λ d. sym (left_lists d)) in
        record {
          store =
              subst (λ h. IsStore depth h (taken_out w' c thing k apart) none) lists
                taken_out-IsStore;
          balanced =
              subst (λ h. IsBalancedBut types h (taken_out w' c thing k apart) 0 none) lists
                (λ d l.
                  ap wrap32 (
                    sum_cong types w' (taken_out w' c thing k apart) (left_over w c thing d)
                      (taken_weight w' c thing k apart types))
                  ∙ settled d (same.is_container d ∙ was_container d l)
                  ∙ ap (λ n. wrap32 (n + owed 0 none d)) (sym (taken_total w' c thing k apart d)));
        }

  take_thing-IsHealthy :
      (fuel k : ℕ)
      → index_from 0 thing (w c).itemlist ≡ some k
      → depth c < fuel
      → IsHealthy types depth (take_thing fuel types c k thing w)
  unfolding take_thing taken_out
  take_thing-IsHealthy fuel k found f =
      let (same, settled) =
        update_item_weight-Balances types depth (left_over w c thing) (some thing) fuel w
          (difference 0 (get_weight types (w thing))) c left_over-IsStore deeper holds f
          left_over-IsBalancedBut in
      taken_out-IsHealthy (update_item_weight fuel (difference 0 (get_weight types (w thing))) c w)
        k apart same settled at_index
    where
      below_self : (n : ℕ) → n < n → ⊥
      below_self n h = absurd (omega arith)

      apart : c ≢ thing
      apart e = below_self (depth c) (
          subst (λ x. depth c < depth x) (sym e)
            (healthy.store.ranked c thing holds (subst (λ x. (w x).is_container ≡ true) e holds)
              held_thing))

      deeper : (i : ℕ) → some thing ≡ some i → (w i).is_container ≡ true → depth c < depth i
      deeper i e l =
          healthy.store.ranked c i holds l
            (subst (λ x. (w x).parent ≡ some c) (some-injective thing i e) held_thing)

      from_zero : (m : ℕ) → k ≡ 0 + m → k ≡ m
      from_zero m q = omega arith

      at_index : erase_idx (w c).itemlist k ≡ erase thing (w c).itemlist
      at_index =
          let (m, (q, r)) = erase_idx-index_from 0 k thing (w c).itemlist found in
          ap (erase_idx (w c).itemlist) (from_zero m q) ∙ r

remove_found-IsHealthy :
    (types : ItemTypes) (depth : ℕ → ℕ) (w : World) (c thing count fuel k : ℕ)
    → IsHealthy types depth w
    → (w c).is_container ≡ true
    → depth c < fuel
    → index_from 0 thing (w c).itemlist ≡ some k
    → IsHealthy types depth (remove_found fuel types c thing count (some k) w)
unfolding remove_found
remove_found-IsHealthy types depth w c thing count fuel k healthy holds f found =
    elim (Bool-cases (w thing).is_item) [
      | inl e ↦ subst (λ b. IsHealthy types depth (if not b then w else taken)) (sym e) taking
      | inr e ↦ subst (λ b. IsHealthy types depth (if not b then w else taken)) (sym e) healthy
    ]
  where
    is_part : Bool
    is_part = types.stackable (w thing).item_id && not (count == (w thing).count)

    fewer : Thing
    fewer = record (w thing) { count = new_count (w thing).count count }

    part : World
    part = reweigh fuel types c thing fewer w

    taken : World
    taken = if is_part then part else take_thing fuel types c k thing w

    inside : contains thing (w c).itemlist ≡ true
    inside = index_from-contains 0 k thing (w c).itemlist found

    taking : IsHealthy types depth taken
    taking = elim (Bool-cases is_part) [
      | inl e ↦
          subst (λ b. IsHealthy types depth (if b then part else take_thing fuel types c k thing w))
            (sym e)
            (reweigh-IsHealthy w thing fewer
              (record { parent = refl; is_container = refl; itemlist = refl; total_weight = refl })
              types depth c healthy holds (healthy.store.in_parent c thing holds inside) fuel f)
      | inr e ↦
          subst (λ b. IsHealthy types depth (if b then part else take_thing fuel types c k thing w))
            (sym e) (take_thing-IsHealthy types depth w c thing healthy holds inside fuel k found f)
    ]

-- In a store where each container's count of weight is the sum of what is in it, and each object is
-- in its parent once: removing an object, or some of a stack, from a container keeps this for all
-- containers, if the fuel is above the depth of the container.
pub remove_thing-IsHealthy :
    (types : ItemTypes) (depth : ℕ → ℕ) (w : World) (c thing count fuel : ℕ)
    → IsHealthy types depth w
    → (w c).is_container ≡ true
    → depth c < fuel
    → IsHealthy types depth (remove_thing fuel types c thing count w)
unfolding remove_thing get_thing_index remove_found
remove_thing-IsHealthy types depth w c thing count fuel healthy holds f =
    elim (Option-cases (index_from 0 thing (w c).itemlist)) [
      | inl h ↦ rw h healthy
      | inr (k, h) ↦
          subst (λ o. IsHealthy types depth (remove_found fuel types c thing count o w)) (sym h)
            (remove_found-IsHealthy types depth w c thing count fuel k healthy holds f h)
    ]
