-- ===== src/Container.antt =====
-- src/container.cpp and src/container.h, with what they use of src/item.cpp and src/item.h: the items
-- of containers, the rules for adding and removing, and the weights that each container keeps of what
-- is in it. Objects live in a store; a pointer is the number of its object.
pub mod Store
pub mod Weights
pub mod Adding
pub mod Changing
pub mod Erased
pub mod Taken
pub mod Removing
pub mod Query
mod Tests
use theforgottenserver.Prelude.{
  ℕ, zero, suc, ◌+◌, ◌-◌, ◌*◌, ◌^◌, ◌%◌, max, Bool, true, false, ◌||◌, ◌&&◌, not, Option, none,
  some, List, [], ◌∷◌, ltb, leb, ◌==◌, if◌then◌else◌, length, get_elem?, set, erase_idx, wrap32,
}

-- The fields of item types that are read here.
pub record ItemTypes : Type 0 where
  pub weight : ℕ → ℕ
  pub stackable : ℕ → Bool
  pub pickupable : ℕ → Bool
  pub moveable : ℕ → Bool
  pub is_fluid : ℕ → Bool
  pub charges_of : ℕ → ℕ

-- An object of the class `Item` or `Container`, or another thing or cylinder. The last four fields are
-- those of a container.
pub record Thing : Type 0 where
  pub is_item : Bool
  pub is_container : Bool
  pub parent : Option ℕ
  pub item_id : ℕ
  pub count : ℕ
  pub fluid_type : ℕ
  pub charges : ℕ
  pub weight_attribute : Option ℕ
  pub itemlist : List ℕ
  pub max_size : ℕ
  pub total_weight : ℕ
  pub unlocked : Bool

abbrev pub World : Type 0
World = ℕ → Thing

unfoldable pub write : ℕ → Thing → World → World
write i x w j = if j == i then x else w j

-- A difference of two `uint32_t` as it is added to a third.
unfoldable pub difference : ℕ → ℕ → ℕ
difference new old = wrap32 (new + (2 ^ 32 - wrap32 old))

unfoldable pub set_parent : Option ℕ → ℕ → World → World
set_parent p i w = write i (record (w i) { parent = p }) w

unfoldable pub base_weight : ItemTypes → Thing → ℕ
base_weight types x = elim x.weight_attribute [ none ↦ types.weight x.item_id | some n ↦ n ]

-- `Item::getWeight`.
unfoldable pub item_weight : ItemTypes → Thing → ℕ
item_weight types x =
    if types.stackable x.item_id
    then wrap32 (base_weight types x * max 1 x.count)
    else wrap32 (base_weight types x)

-- `Container::getWeight` for a container, `Item::getWeight` for another item.
unfoldable pub get_weight : ItemTypes → Thing → ℕ
get_weight types x =
    if x.is_container then wrap32 (item_weight types x + x.total_weight) else item_weight types x

-- `getParentContainer`.
unfoldable pub container_at : World → Option ℕ → Option ℕ
container_at w none = none
container_at w (some p) = if (w p).is_container then some p else none

unfoldable pub get_parent_container : World → ℕ → Option ℕ
get_parent_container w c = container_at w (w c).parent

unfoldable pub add_weight : ℕ → ℕ → World → World
add_weight diff c w = write c (record (w c) { total_weight = wrap32 ((w c).total_weight + diff) }) w

-- `updateItemWeight`, which goes from container to container; the fuel bounds their depth.
unfoldable pub update_parent : (ℕ → World → World) → Option ℕ → World → World
update_parent update none w = w
update_parent update (some p) w = update p w

unfoldable pub update_item_weight : ℕ → ℕ → ℕ → World → World
update_item_weight zero diff c w = w
update_item_weight (suc fuel) diff c w =
    update_parent (update_item_weight fuel diff) (get_parent_container w c) (add_weight diff c w)

-- `getThingIndex`; no index is -1 in the source.
unfoldable pub index_from : ℕ → ℕ → List ℕ → Option ℕ
index_from n thing [] = none
index_from n thing (i ∷ is) =
    let rest = index_from (suc n) thing is in if i == thing then some n else rest

unfoldable pub get_thing_index : World → ℕ → ℕ → Option ℕ
get_thing_index w c thing = index_from 0 thing (w c).itemlist

-- `itemlist.push_front` with `setParent` before it.
unfoldable pub push_front : ℕ → ℕ → World → World
push_front c thing w =
    let w1 = set_parent (some c) thing w in
    write c (record (w1 c) { itemlist = thing ∷ (w1 c).itemlist }) w1

-- `internalAddThing`.
unfoldable pub internal_add_thing : ℕ → ItemTypes → ℕ → ℕ → World → World
internal_add_thing fuel types c thing w =
    if not (w thing).is_item
    then w
    else let w1 = push_front c thing w in update_item_weight fuel (get_weight types (w1 thing)) c w1

-- The index -1 of the source, INDEX_WHEREEVER, is none here.
unfoldable pub is_beyond : ℕ → Option ℕ → Bool
is_beyond capacity none = false
is_beyond capacity (some index) = leb capacity index

-- `addThing`, with its index.
unfoldable pub add_thing : ℕ → ItemTypes → ℕ → Option ℕ → ℕ → World → World
add_thing fuel types c index thing w =
    if is_beyond (w c).max_size index then w else internal_add_thing fuel types c thing w

-- `Item::setSubType` and `Item::setID`, less the attributes of decay.
unfoldable pub set_sub_type : ItemTypes → ℕ → Thing → Thing
set_sub_type types n x =
    if types.is_fluid x.item_id
    then record x { fluid_type = n % 2 ^ 16 }
    else if types.stackable x.item_id
    then record x { count = n % 2 ^ 8 }
    else if not (types.charges_of x.item_id == 0)
    then record x { charges = n % 2 ^ 16 }
    else record x { count = n % 2 ^ 8 }

unfoldable pub set_id : ℕ → Thing → Thing
set_id item_id x = record x { item_id = item_id }

-- An item of a container becomes another in place, and the weights follow.
unfoldable pub reweigh : ℕ → ItemTypes → ℕ → ℕ → Thing → World → World
reweigh fuel types c thing x w =
    update_item_weight fuel (difference (get_weight types x) (get_weight types (w thing))) c
      (write thing x w)

-- `updateThing` after the search for the index.
unfoldable pub update_found : ℕ → ItemTypes → ℕ → ℕ → ℕ → ℕ → Option ℕ → World → World
update_found fuel types c thing item_id count none w = w
update_found fuel types c thing item_id count (some index) w =
    if not (w thing).is_item
    then w
    else reweigh fuel types c thing (set_sub_type types count (set_id item_id (w thing))) w

-- `updateThing`.
unfoldable pub update_thing : ℕ → ItemTypes → ℕ → ℕ → ℕ → ℕ → World → World
update_thing fuel types c thing item_id count w =
    update_found fuel types c thing item_id count (get_thing_index w c thing) w

-- The new count of a stack of which some are taken: the difference of 32 bits, read as a signed
-- number, or 0 if it is negative, as one byte.
unfoldable pub new_count : ℕ → ℕ → ℕ
new_count have taken =
    let rest = difference have taken in if ltb rest (2 ^ 31) then rest % 2 ^ 8 else 0

unfoldable pub erase_at : ℕ → ℕ → World → World
erase_at c index w = write c (record (w c) { itemlist = erase_idx (w c).itemlist index }) w

-- The removal of a whole item.
unfoldable pub take_thing : ℕ → ItemTypes → ℕ → ℕ → ℕ → World → World
take_thing fuel types c index thing w =
    let w1 = update_item_weight fuel (difference 0 (get_weight types (w thing))) c w in
    erase_at c index (set_parent none thing w1)

-- `removeThing` after the search for the index.
unfoldable pub remove_found : ℕ → ItemTypes → ℕ → ℕ → ℕ → Option ℕ → World → World
remove_found fuel types c thing count none w = w
remove_found fuel types c thing count (some index) w =
    let x = w thing in
    if not x.is_item
    then w
    else if types.stackable x.item_id && not (count == x.count)
    then reweigh fuel types c thing (record x { count = new_count x.count count }) w
    else take_thing fuel types c index thing w

-- `removeThing`.
unfoldable pub remove_thing : ℕ → ItemTypes → ℕ → ℕ → ℕ → World → World
remove_thing fuel types c thing count w =
    remove_found fuel types c thing count (get_thing_index w c thing) w
