-- ===== src/Container/Tests.antt =====
-- Two bags and a stack of gold, put into each other, changed and taken out.
use theforgottenserver.Prelude.{
  ℕ, ◌<◌, ◌≡◌, ◌≢◌, refl, true, false, none, some, [], ltb, ◌==◌, if◌then◌else◌, arith, Bool-cases,
  inl, inr, ==→eq, sym, ◌∙◌,
}
use mathlib.Core.Option.{some-injective}
use theforgottenserver.Container.{
  ItemTypes, World, write, set_parent, push_front, internal_add_thing, add_thing, add_weight,
  is_beyond, update_item_weight, update_parent, get_parent_container, container_at, get_weight,
  item_weight, base_weight, update_thing, remove_thing,
}
use theforgottenserver.Container.Store.{sum, owed}
use theforgottenserver.Container.Adding.{IsHealthy, add_thing-IsHealthy}
use theforgottenserver.Container.Changing.{update_thing-IsHealthy}
use theforgottenserver.Container.Removing.{remove_thing-IsHealthy}
use theforgottenserver.Container.Query.{
  no_error, has_bit_set, flag_no_limit, is_full, meets, query_add, IsAround, query_add_lem,
}

abbrev types : ItemTypes
types = record {
  weight = λ i. if i == 100 then 10 else 800;
  stackable = λ i. i == 100;
  pickupable = λ i. true;
  moveable = λ i. true;
  is_fluid = λ i. false;
  charges_of = λ i. 0;
}

-- The objects 0 and 1 are bags and all others are gold; they lie apart.
abbrev apart : World
apart j = record {
  is_item = true;
  is_container = ltb j 2;
  parent = none;
  item_id = if ltb j 2 then 200 else 100;
  count = 30;
  fluid_type = 0;
  charges = 0;
  weight_attribute = none;
  itemlist = [];
  max_size = 8;
  total_weight = 0;
  unlocked = true;
}

abbrev depth : ℕ → ℕ
depth j = j

apart-IsHealthy : IsHealthy types depth apart
unfolding sum owed
apart-IsHealthy = record {
  store = record {
    in_parent = λ d i k h. cc;
    parent_has = λ d i k p n. cc;
    once = λ d. tt;
    ranked = λ d i k l p. cc;
  };
  balanced = λ d k. refl;
}

-- One bag in the other.
abbrev nested : World
nested = add_thing 2 types 0 none 1 apart

zero_ne_one : ◌≢◌ {A = ℕ} 0 1
zero_ne_one e = absurd (omega arith)

one_ne_two : ◌≢◌ {A = ℕ} 1 2
one_ne_two e = absurd (omega arith)

add_thing-IsHealthy_example : IsHealthy types depth nested
add_thing-IsHealthy_example =
    add_thing-IsHealthy apart 0 1 zero_ne_one types depth apart-IsHealthy refl refl
      (λ k. omega arith) 2 none (omega arith)

-- The gold in the inner bag.
abbrev packed : World
packed = add_thing 2 types 1 none 2 nested

packed-IsHealthy : IsHealthy types depth packed
unfolding add_thing internal_add_thing is_beyond push_front set_parent write update_item_weight
    update_parent get_parent_container container_at add_weight
packed-IsHealthy =
    add_thing-IsHealthy nested 1 2 one_ne_two types depth
      (add_thing-IsHealthy apart 0 1 zero_ne_one types depth apart-IsHealthy refl refl
        (λ k. omega arith) 2 none (omega arith))
      refl refl (λ k. omega arith) 2 none (omega arith)

packed-holds : (packed 1).is_container ≡ true
unfolding add_thing internal_add_thing is_beyond push_front set_parent write update_item_weight
    update_parent get_parent_container container_at add_weight
packed-holds = refl

packed-total_weight : (packed 0).total_weight ≡ 1100
unfolding add_thing internal_add_thing is_beyond push_front set_parent write update_item_weight
    update_parent get_parent_container container_at add_weight get_weight item_weight base_weight
packed-total_weight = refl

update_thing-IsHealthy_example : IsHealthy types depth (update_thing 2 types 1 2 100 70 packed)
update_thing-IsHealthy_example =
    update_thing-IsHealthy types depth packed 1 2 100 70 2 packed-IsHealthy packed-holds
      (omega arith)

remove_thing-IsHealthy_example : IsHealthy types depth (remove_thing 2 types 1 2 30 packed)
remove_thing-IsHealthy_example =
    remove_thing-IsHealthy types depth packed 1 2 30 2 packed-IsHealthy packed-holds (omega arith)

-- The second bag lies in the first.
abbrev in_bag : World
in_bag j = record (apart j) { parent = if j == 1 then some 0 else none }

in_bag-deep : (j q : ℕ) → (in_bag j).parent ≡ some q → q < j
in_bag-deep j q e = elim (Bool-cases (j == 1)) [
  | inl h ↦ deeper (==→eq j 1 h) (some-injective 0 q (sym (rw h refl) ∙ e))
  | inr h ↦ cc (no_parent h)
]
  where
    deeper : j ≡ 1 → 0 ≡ q → q < j
    deeper a b = omega arith

    no_parent : (j == 1) ≡ false → none ≡ some q
    no_parent h = sym (rw h refl) ∙ e

query_add_lem_example :
    ((in_bag 2).is_item ≡ true)
    × (types.pickupable (in_bag 2).item_id ≡ true)
    × (◌≢◌ {A = ℕ} 2 1)
    × (IsAround in_bag 2 1 → ⊥)
    × (has_bit_set flag_no_limit 0 ≡ false → is_full in_bag 1 none ≡ false)
unfolding query_add has_bit_set meets is_full
query_add_lem_example =
    query_add_lem 2 types 1 none 2 0 in_bag no_error depth in_bag-deep (omega arith) refl refl
