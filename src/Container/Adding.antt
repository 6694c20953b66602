-- ===== src/Container/Adding.antt =====
-- The weights after an item has been added to a container.
use theforgottenserver.Prelude.{
  ℕ, ◌+◌, ◌<◌, ◌≡◌, ◌≢◌, refl, inl, inr, Bool, true, false, not, Option, none, some, List, [], ◌∷◌,
  ◌==◌, if◌then◌else◌, wrap32, arith, Bool-cases, ==-refl, ==→eq, ne→==, contains, subst, ap, sym,
  ◌∙◌, fun_ext,
}
use mathlib.Core.Option.{some-injective}
use theforgottenserver.Container.{
  ItemTypes, Thing, World, write, set_parent, get_weight, item_weight, base_weight,
  update_item_weight, push_front, internal_add_thing, add_thing, is_beyond,
}
use theforgottenserver.Container.Store.{
  sum, IsOnce, owed, Lists, IsStore, IsBalancedBut, IsStore-same,
}
use theforgottenserver.Container.Weights.{update_item_weight-Balances}

abbrev pub contents : World → Lists
contents w d = (w d).itemlist

-- Every container weighs what is in it, and every item is in its parent.
pub record IsHealthy (types : ItemTypes) (depth : ℕ → ℕ) (w : World) : Type 0 where
  pub store : IsStore depth (contents w) w none
  pub balanced : IsBalancedBut types (contents w) w 0 none

pub sum_cong :
    (types : ItemTypes) (w w' : World) (l : List ℕ)
    → ((i : ℕ) → get_weight types (w' i) ≡ get_weight types (w i))
    → sum types w' l ≡ sum types w l
unfolding sum
sum_cong types w w' [] e = refl
sum_cong types w w' (i ∷ is) e =
    ap (λ n. n + sum types w' is) (e i)
    ∙ ap (λ n. get_weight types (w i) + n) (sum_cong types w w' is e)

-- An update of the weights makes a store healthy in which one container is off by what it adds.
pub settle :
    (types : ItemTypes) (depth : ℕ → ℕ) (fuel diff c : ℕ) (w : World)
    → IsStore depth (contents w) w none
    → IsBalancedBut types (contents w) w diff (some c)
    → (w c).is_container ≡ true
    → depth c < fuel
    → IsHealthy types depth (update_item_weight fuel diff c w)
settle types depth fuel diff c w s b k f =
    let (same, balanced) =
      update_item_weight-Balances types depth (contents w) none fuel w diff c s (λ i e j. cc) k f
        b in
    let lists = fun_ext (λ d. same.itemlist d) in
    record {
      store =
          subst (λ h. IsStore depth h (update_item_weight fuel diff c w) none) (sym lists)
            (IsStore-same depth (contents w) w (update_item_weight fuel diff c w) none same s);
      balanced =
          subst (λ h. IsBalancedBut types h (update_item_weight fuel diff c w) 0 none) (sym lists)
            balanced;
    }

pub unequal : (a b : ℕ) → (a == b) ≡ false → a ≢ b
unequal a b e = ground arith

module _ (w : World) (c thing : ℕ) (apart : c ≢ thing) where
  -- What holds of the container with the new item, of the item with its new parent, and of all
  -- others as they were, holds of every object afterwards.
  after_push :
      (P : ℕ → Thing → Type 0)
      → P c (record (w c) { itemlist = thing ∷ (w c).itemlist })
      → P thing (record (w thing) { parent = some c })
      → ((j : ℕ) → j ≢ c → j ≢ thing → P j (w j))
      → (j : ℕ) → P j (push_front c thing w j)
  unfolding push_front set_parent write
  after_push P at_c at_thing at_other j = elim (Bool-cases (j == c)) [
    | inl h ↦
        subst (λ k. P k (push_front c thing w k)) (sym (==→eq j c h))
          (rw (==-refl c, ne→== c thing apart) at_c)
    | inr h ↦ elim (Bool-cases (j == thing)) [
      | inl g ↦
          subst (λ k. P k (push_front c thing w k)) (sym (==→eq j thing g))
            (rw (ne→== thing c (λ e. apart (sym e)), ==-refl thing) at_thing)
      | inr g ↦ rw (h, g) (at_other j (unequal j c h) (unequal j thing g))
    ]
  ]

  pushed_parent :
      (i : ℕ) → (push_front c thing w i).parent ≡ (if i == thing then some c else (w i).parent)
  pushed_parent =
      after_push (λ i x. x.parent ≡ (if i == thing then some c else (w i).parent))
        (rw (ne→== c thing apart) refl) (rw (==-refl thing) refl)
        (λ j n m. rw (ne→== j thing m) refl)

  pushed_list :
      (d : ℕ)
      → (push_front c thing w d).itemlist
        ≡ (if d == c then thing ∷ (w d).itemlist else (w d).itemlist)
  pushed_list =
      after_push (λ d x. x.itemlist ≡ (if d == c then thing ∷ (w d).itemlist else (w d).itemlist))
        (rw (==-refl c) refl) (rw (ne→== thing c (λ e. apart (sym e))) refl)
        (λ j n m. rw (ne→== j c n) refl)

  pushed_container : (i : ℕ) → (push_front c thing w i).is_container ≡ (w i).is_container
  pushed_container =
      after_push (λ i x. x.is_container ≡ (w i).is_container) refl refl (λ j n m. refl)

  pushed_total : (i : ℕ) → (push_front c thing w i).total_weight ≡ (w i).total_weight
  pushed_total = after_push (λ i x. x.total_weight ≡ (w i).total_weight) refl refl (λ j n m. refl)

  pushed_weight :
      (types : ItemTypes) (i : ℕ)
      → get_weight types (push_front c thing w i) ≡ get_weight types (w i)
  unfolding get_weight item_weight base_weight
  pushed_weight types =
      after_push (λ i x. get_weight types x ≡ get_weight types (w i)) refl refl (λ j n m. refl)

  module _ (types : ItemTypes) (depth : ℕ → ℕ) (healthy : IsHealthy types depth w)
      (holds : (w c).is_container ≡ true) (loose : (w thing).parent ≡ none)
      (deeper : (w thing).is_container ≡ true → depth c < depth thing) where
    not_held : (d : ℕ) → (w d).is_container ≡ true → contains thing (contents w d) ≡ false
    not_held d k = elim (Bool-cases (contains thing (contents w d))) [
      | inl h ↦ cc (healthy.store.in_parent d thing k h)
      | inr h ↦ h
    ]

    was_container :
        (d : ℕ) → (push_front c thing w d).is_container ≡ true → (w d).is_container ≡ true
    was_container d k = sym (pushed_container d) ∙ k

    -- Who is in a list afterwards.
    contains-pushed :
        (d i : ℕ)
        → contains i (contents (push_front c thing w) d) ≡ (
            if d == c
            then (if thing == i then true else contains i (contents w d))
            else contains i (contents w d))
    contains-pushed d i =
        ap (contains i) (pushed_list d)
        ∙ elim (Bool-cases (d == c)) [ inl h ↦ rw h refl | inr h ↦ rw h refl ]

    in_parent_after :
        (d i : ℕ)
        → (w d).is_container ≡ true
        → (if d == c
            then (if thing == i then true else contains i (contents w d))
            else contains i (contents w d))
          ≡ true
        → (if i == thing then some c else (w i).parent) ≡ some d
    in_parent_after d i k h = elim (Bool-cases (i == thing)) [
      | inl g ↦ elim (Bool-cases (d == c)) [
        | inl e ↦ rw g (ap some (sym (==→eq d c e)))
        | inr e ↦ cc (
          not_held d k,
          subst (λ x. contains x (contents w d) ≡ true) (==→eq i thing g) (sym (rw e refl) ∙ h),
        )
      ]
      | inr g ↦ rw g (
          healthy.store.in_parent d i k (elim (Bool-cases (d == c)) [
            | inl e ↦ sym (rw (e, ne→== thing i (λ q. unequal i thing g (sym q))) refl) ∙ h
            | inr e ↦ sym (rw e refl) ∙ h
          ]))
    ]

    parent_has_after :
        (d i : ℕ)
        → (w d).is_container ≡ true
        → (if i == thing then some c else (w i).parent) ≡ some d
        → (if d == c
            then (if thing == i then true else contains i (contents w d))
            else contains i (contents w d))
          ≡ true
    parent_has_after d i k p = elim (Bool-cases (i == thing)) [
      | inl g ↦
          rw (==→eq i thing g, ==-refl thing, same_container d (sym (rw g refl) ∙ p), ==-refl d)
            refl
      | inr g ↦
          rw (healthy.store.parent_has d i k (sym (rw g refl) ∙ p) (λ e. cc))
            (either (d == c) (thing == i))
    ]
      where
        same_container : (d : ℕ) → some c ≡ some d → c ≡ d
        same_container d e = some-injective c d e

        either : (a b : Bool) → (if a then (if b then true else true) else true) ≡ true
        either true true = refl
        either true false = refl
        either false b = refl

    push_front-IsStore : IsStore depth (contents (push_front c thing w)) (push_front c thing w) none
    push_front-IsStore = record {
      in_parent = λ d i k h.
          pushed_parent i ∙ in_parent_after d i (was_container d k) (sym (contains-pushed d i) ∙ h);
      parent_has = λ d i k p n.
          contains-pushed d i
          ∙ parent_has_after d i (was_container d k) (sym (pushed_parent i) ∙ p);
      once = λ d. subst IsOnce (sym (pushed_list d)) (once_after d);
      ranked = λ d i k l p.
          ranked_after d i (was_container d k) (was_container i l) (sym (pushed_parent i) ∙ p);
    }
      where
        once_after : (d : ℕ) → IsOnce (if d == c then thing ∷ (w d).itemlist else (w d).itemlist)
        once_after d = elim (Bool-cases (d == c)) [
          | inl e ↦ rw e (
            subst (λ x. contains thing (contents w x) ≡ false) (sym (==→eq d c e))
                (not_held c holds),
            healthy.store.once d,
          )
          | inr e ↦ rw e (healthy.store.once d)
        ]

        ranked_after :
            (d i : ℕ)
            → (w d).is_container ≡ true
            → (w i).is_container ≡ true
            → (if i == thing then some c else (w i).parent) ≡ some d
            → depth d < depth i
        ranked_after d i k l p = elim (Bool-cases (i == thing)) [
          | inl g ↦
              subst (λ x. depth x < depth i) (some-injective c d (sym (rw g refl) ∙ p))
                (subst (λ x. depth c < depth x) (sym (==→eq i thing g))
                  (deeper (subst (λ x. (w x).is_container ≡ true) (==→eq i thing g) l)))
          | inr g ↦ healthy.store.ranked d i k l (sym (rw g refl) ∙ p)
        ]

    heavier :
        (d : ℕ)
        → (w d).is_container ≡ true
        → wrap32 (sum types w (if d == c then thing ∷ (w d).itemlist else (w d).itemlist))
          ≡ wrap32
              ((w d).total_weight + owed (get_weight types (push_front c thing w thing)) (some c) d)
    unfolding sum owed
    heavier d k = elim (Bool-cases (d == c)) [
      | inl e ↦
          rw (e, pushed_weight types thing)
            (plus (get_weight types (w thing)) (sum types w (w d).itemlist) (w d).total_weight
              (healthy.balanced d k))
      | inr e ↦ rw e (healthy.balanced d k)
    ]
      where
        plus : (a b t : ℕ) → wrap32 b ≡ wrap32 (t + 0) → wrap32 (a + b) ≡ wrap32 (t + a)
        plus a b t h = omega arith

    push_front-IsBalancedBut :
        IsBalancedBut types
          (contents (push_front c thing w))
          (push_front c thing w)
          (get_weight types (push_front c thing w thing))
          (some c)
    push_front-IsBalancedBut d k =
        ap wrap32 (
          sum_cong types w (push_front c thing w) (contents (push_front c thing w) d)
            (pushed_weight types)
          ∙ ap (sum types w) (pushed_list d))
        ∙ heavier d (was_container d k)
        ∙ ap (λ n. wrap32 (n + owed (get_weight types (push_front c thing w thing)) (some c) d))
            (sym (pushed_total d))

    internal_add_thing-IsHealthy :
        (fuel : ℕ)
        → depth c < fuel
        → IsHealthy types depth (internal_add_thing fuel types c thing w)
    unfolding internal_add_thing
    internal_add_thing-IsHealthy fuel f = elim (Bool-cases (w thing).is_item) [
      | inl h ↦ subst (λ b. IsHealthy types depth (if not b then w else added)) (sym h) settled
      | inr h ↦ subst (λ b. IsHealthy types depth (if not b then w else added)) (sym h) healthy
    ]
      where
        added : World
        added =
            update_item_weight fuel (get_weight types (push_front c thing w thing)) c
              (push_front c thing w)

        settled : IsHealthy types depth added
        settled =
            settle types depth fuel (get_weight types (push_front c thing w thing)) c
              (push_front c thing w) push_front-IsStore push_front-IsBalancedBut
              (pushed_container c ∙ holds) f

    -- In a store where each container's count of weight is the sum of what is in it, and each object
    -- is in its parent once: adding an object without a parent to a container keeps this for all
    -- containers, if the object is not that container and stands deeper than it when it is a
    -- container, and if the fuel is above the depth of the container.
    pub add_thing-IsHealthy :
        (fuel : ℕ) (index : Option ℕ)
        → depth c < fuel
        → IsHealthy types depth (add_thing fuel types c index thing w)
    unfolding add_thing
    add_thing-IsHealthy fuel index f = elim (Bool-cases (is_beyond (w c).max_size index)) [
      | inl h ↦ rw h healthy
      | inr h ↦ rw h (internal_add_thing-IsHealthy fuel f)
    ]
