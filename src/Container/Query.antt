-- ===== src/Container/Query.antt =====
-- `Container::queryAdd`, which is asked before an object is added.
use theforgottenserver.Prelude.{
  ℕ, zero, suc, ◌≤◌, ◌<◌, ◌≡◌, ◌≢◌, refl, inl, inr, Bool, true, false, not, Option, none, some, leb,
  ◌==◌, bit_and, if◌then◌else◌, length, arith, Bool-cases, ==-refl, subst, sym, ◌∙◌,
}
use theforgottenserver.Container.{ItemTypes, World}

pub data QueryResult : Type 0 where
  no_error not_possible cannot_pickup this_is_impossible container_not_enough_room : QueryResult

abbrev pub flag_no_limit : ℕ
flag_no_limit = 1

abbrev pub flag_child_is_owner : ℕ
flag_child_is_owner = 8

unfoldable pub has_bit_set : ℕ → ℕ → Bool
has_bit_set flag flags = not (bit_and flags flag == 0)

-- The loop over the cylinders around the container, which ends at the object that is to be added.
unfoldable pub meets : ℕ → World → ℕ → Option ℕ → Bool
meets zero w thing cylinder = false
meets (suc fuel) w thing none = false
meets (suc fuel) w thing (some p) =
    let rest = meets fuel w thing (w p).parent in if p == thing then true else rest

-- The test for room, which a flag leaves out.
unfoldable pub is_full : World → ℕ → Option ℕ → Bool
is_full w c none = leb (w c).max_size (length (w c).itemlist)
is_full w c (some index) = false

-- `queryAdd`. The index -1 of the source is none. `owner` is what the top parent answers: it is
-- another container, which has no objection, a tile or a creature.
unfoldable pub query_add : ℕ → ItemTypes → ℕ → Option ℕ → ℕ → ℕ → World → QueryResult → QueryResult
query_add fuel types c index thing flags w owner =
    let x = w thing in
    if has_bit_set flag_child_is_owner flags
    then no_error
    else if not (w c).unlocked
    then not_possible
    else if not x.is_item
    then not_possible
    else if not (types.pickupable x.item_id)
    then cannot_pickup
    else if thing == c
    then this_is_impossible
    else if meets fuel w thing (w c).parent
    then this_is_impossible
    else if has_bit_set flag_no_limit flags
    then owner
    else if is_full w c index
    then container_not_enough_room
    else owner

-- A cylinder that an object is in, directly or through others.
pub data IsAround (w : World) (p : ℕ) : ℕ → Type 0 where
  direct : {i : ℕ} → (w i).parent ≡ some p → IsAround w p i
  through : {i q : ℕ} → (w i).parent ≡ some q → IsAround w p q → IsAround w p i

meets-IsAround :
    (w : World) (depth : ℕ → ℕ) (p i fuel : ℕ)
    → ((j q : ℕ) → (w j).parent ≡ some q → depth q < depth j)
    → IsAround w p i
    → depth i ≤ fuel
    → meets fuel w p (w i).parent ≡ true
unfolding meets
meets-IsAround w depth p i zero deep (direct e) f = absurd (omega (arith, deep i p e))
meets-IsAround w depth p i zero deep (through {q = q} e a) f = absurd (omega (arith, deep i q e))
meets-IsAround w depth p i (suc fuel) deep (direct e) f =
    subst (λ o. meets (suc fuel) w p o ≡ true) (sym e) (rw (==-refl p) refl)
meets-IsAround w depth p i (suc fuel) deep (through {q = q} e a) f =
    subst (λ o. meets (suc fuel) w p o ≡ true) (sym e)
      (elim (Bool-cases (q == p)) [
        | inl h ↦ rw h refl
        | inr h ↦ rw h (meets-IsAround w depth p q fuel deep a (omega (arith, deep i q e)))
      ])

-- The tests in their order: the result without error has passed them all.
passed :
    (unlocked item light same around free full : Bool) (owner : QueryResult)
    → (if not unlocked
        then not_possible
        else if not item
        then not_possible
        else if not light
        then cannot_pickup
        else if same
        then this_is_impossible
        else if around
        then this_is_impossible
        else if free
        then owner
        else if full
        then container_not_enough_room
        else owner)
      ≡ no_error
    → (item ≡ true)
      × (light ≡ true)
      × (same ≡ false)
      × (around ≡ false)
      × (free ≡ false → full ≡ false)
passed false item light same around free full owner h = cc
passed true false light same around free full owner h = cc
passed true true false same around free full owner h = cc
passed true true true true around free full owner h = cc
passed true true true false true free full owner h = cc
passed true true true false false true full owner h = (refl, refl, refl, refl, λ e. cc)
passed true true true false false false true owner h = cc
passed true true true false false false false owner h = (refl, refl, refl, refl, λ e. refl)

-- An object that `queryAdd` lets into a container, other than for a child of its owner, is an item
-- that can be picked up, and it is neither the container nor anything that the container is in; and
-- there is room, if the container is to be added to anywhere and the limit holds. The fuel is to
-- reach the outermost cylinder.
pub query_add_lem :
    (fuel : ℕ) (types : ItemTypes) (c : ℕ) (index : Option ℕ) (thing flags : ℕ) (w : World)
    (owner : QueryResult) (depth : ℕ → ℕ)
    → ((j q : ℕ) → (w j).parent ≡ some q → depth q < depth j)
    → depth c ≤ fuel
    → has_bit_set flag_child_is_owner flags ≡ false
    → query_add fuel types c index thing flags w owner ≡ no_error
    → ((w thing).is_item ≡ true)
      × (types.pickupable (w thing).item_id ≡ true)
      × (thing ≢ c)
      × (IsAround w thing c → ⊥)
      × (has_bit_set flag_no_limit flags ≡ false → is_full w c index ≡ false)
unfolding query_add
query_add_lem fuel types c index thing flags w owner depth deep f own h =
    let (item, light, other, apart, room) =
      passed (w c).unlocked (w thing).is_item (types.pickupable (w thing).item_id) (thing == c)
        (meets fuel w thing (w c).parent) (has_bit_set flag_no_limit flags) (is_full w c index)
        owner (sym (rw own refl) ∙ h) in
    (
      item,
      light,
      λ e. true-ne-false (sym (subst (λ k. (thing == k) ≡ true) e (==-refl thing)) ∙ other),
      λ a. true-ne-false (sym (meets-IsAround w depth thing c fuel deep a f) ∙ apart),
      room,
    )
  where
    true-ne-false : true ≡ false → ⊥
    true-ne-false e = absurd cc
