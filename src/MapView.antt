-- ===== src/MapView.antt =====
-- What a client is shown of the map: src/protocolgame.cpp with the items of src/networkmessage.cpp.
-- The functions that describe give the calls that they make of the message, in their order, and the
-- message gets them one after the other, with the tests and the wrap-around that they have.
mod Seeing
mod Reading
mod Encoding
mod Bytes
mod Known
mod Creatures
mod Tiles
mod Stack
mod RoundTrip
mod Written
mod Format
mod Client
mod View
mod Tests
use theforgottenserver.Prelude.{
  ℕ, zero, suc, ◌+◌, ◌-◌, ◌/◌, ◌%◌, ◌≡◌, refl, Bool, true, false, not, ◌||◌, ◌&&◌, Option, none,
  some, List, [], ◌∷◌, ◌++◌, map, ◌==◌, ltb, if◌then◌else◌, length, contains, without, wrap16,
  add32, sub32, min,
}
use theforgottenserver.Network.Message.{
  Position, NetworkMessage, add_byte, add, add_string, add_position,
}
use theforgottenserver.MapView.Seeing.{Creature, Outfit, Viewer, can_see_creature, can_see}

-- The calls that a description makes of the message, with their arguments: `addByte`, `add<T>` for a
-- `T` of `size` bytes, `addString`.
pub data Call : Type 0 where
  byte : ℕ → Call
  word : ℕ → ℕ → Call
  string : List ℕ → Call

unfoldable pub make_call : Call → NetworkMessage → NetworkMessage
make_call (byte v) m = add_byte v m
make_call (word size v) m = add size v m
make_call (string s) m = add_string s m

-- Calls one after the other. Each of them leaves a message alone in which it has no room.
unfoldable pub make_calls : List Call → NetworkMessage → NetworkMessage
make_calls [] m = m
make_calls (c ∷ cs) m = make_calls cs (make_call c m)

pub record ItemType : Type 0 where
  pub client_id : ℕ
  pub is_stackable : Bool
  pub is_splash : Bool
  pub is_fluid_container : Bool

pub record TileItem : Type 0 where
  pub type_id : ℕ
  pub item_count : ℕ
  pub sub_type : ℕ

-- The table of fluids gives each of the eight kinds its own number.
unfoldable pub fluid_map : ℕ → ℕ
fluid_map kind = kind

-- `addItem`
unfoldable pub add_item : (ℕ → ItemType) → TileItem → List Call
add_item types item =
    let it = types item.type_id in
    word 2 it.client_id
    ∷ (if it.is_stackable
        then byte (min 255 item.item_count) ∷ []
        else if it.is_splash || it.is_fluid_container
        then byte (fluid_map (item.sub_type % 8)) ∷ []
        else [])

unfoldable pub add_outfit : (ℕ → ItemType) → Outfit → List Call
add_outfit types o =
    word 2 o.look_type
    ∷ (if o.look_type == 0
        then word 2 (types o.look_type_ex).client_id ∷ []
        else byte o.look_head ∷ byte o.look_body ∷ byte o.look_legs ∷ byte o.look_feet ∷ [])

-- `static Outfit_t outfit`
abbrev pub no_outfit : Outfit
no_outfit = record {
  look_type = 0;
  look_head = 0;
  look_body = 0;
  look_legs = 0;
  look_feet = 0;
  look_type_ex = 0;
}

-- The second half of `AddCreature`, the same for all creatures.
unfoldable pub add_looks : (ℕ → ItemType) → Viewer → Creature → List Call
add_looks types v c =
    byte (if c.is_health_hidden then 0 else c.health_percent)
    ∷ byte c.direction
    ∷ (add_outfit types
          (if not c.is_in_ghost_mode && not c.is_invisible then c.outfit else no_outfit)
        ++ (byte (if v.is_access_player then 255 else c.light_level)
            ∷ byte c.light_color
            ∷ word 2 c.step_speed
            ∷ byte c.skull
            ∷ byte c.shield
            ∷ []))

unfoldable pub add_creature : (ℕ → ItemType) → Viewer → Creature → Bool → ℕ → List Call
add_creature types v c known remove =
    (if known
      then word 2 98 ∷ word 4 c.id ∷ []
      else word 2 97 ∷ word 4 remove ∷ word 4 c.id ∷ string c.name ∷ [])
    ++ add_looks types v c

pub record Tile : Type 0 where
  pub ground : Option TileItem
  pub top_items : List TileItem
  pub creatures : List Creature
  pub down_items : List TileItem

-- What the code takes from the game: the table of items, the map, the creatures by their ids, and
-- the place at which the hash set of known creatures keeps a new id.
pub record Server : Type 0 where
  pub types : ℕ → ItemType
  pub get_tile : ℕ → ℕ → ℕ → Option Tile
  pub get_creature_by_id : ℕ → Option Creature
  pub place_of : ℕ → List ℕ → ℕ

unfoldable pub insert_at : ℕ → ℕ → List ℕ → List ℕ
insert_at zero x xs = x ∷ xs
insert_at (suc n) x [] = x ∷ []
insert_at (suc n) x (y ∷ ys) = y ∷ insert_at n x ys

pub record Checked : Type 0 where
  pub is_known : Bool
  pub removed_known : ℕ
  pub known_set : List ℕ

-- The loop that looks for a creature to remove.
unfoldable pub find_unseen : Server → Viewer → List ℕ → Option ℕ
find_unseen s v [] = none
find_unseen s v (x ∷ xs) =
    if not (can_see v (s.get_creature_by_id x)) then some x else find_unseen s v xs

-- The first id of the set, or the second if the first is the new one.
unfoldable pub anyone_but : ℕ → List ℕ → ℕ
anyone_but id [] = id
anyone_but id (x ∷ []) = x
anyone_but id (x ∷ y ∷ rest) = if x == id then y else x

unfoldable pub to_remove : Option ℕ → ℕ → List ℕ → ℕ
to_remove none id set = anyone_but id set
to_remove (some x) id set = x

unfoldable pub check_creature_as_known : Server → Viewer → ℕ → List ℕ → Checked
check_creature_as_known s v id set =
    let set' = insert_at (s.place_of id set) id set in
    let removed = to_remove (find_unseen s v set') id set' in
    if contains id set
    then record { is_known = true; removed_known = 0; known_set = set }
    else if ltb 150 (length set')
    then record { is_known = false; removed_known = removed; known_set = without removed set' }
    else record { is_known = false; removed_known = 0; known_set = set' }

unfoldable pub describe_ground : (ℕ → ItemType) → Option TileItem → List Call × ℕ
describe_ground types none = ([], 0)
describe_ground types (some item) = (add_item types item, 1)

-- The loops of `GetTileDescription` add nothing more once ten things have been counted, which is
-- when the source returns.
unfoldable pub describe_items : (ℕ → ItemType) → List TileItem → ℕ → List Call × ℕ
describe_items types [] count = ([], count)
describe_items types (item ∷ rest) count =
    let (added, count') = describe_items types rest (suc count) in
    if count == 10 then ([], count) else (add_item types item ++ added, count')

unfoldable pub describe_creatures :
    Server → Viewer → List Creature → List ℕ → ℕ → List Call × List ℕ × ℕ
describe_creatures s v [] known count = ([], known, count)
describe_creatures s v (c ∷ rest) known count =
    let checked = check_creature_as_known s v c.id known in
    let unseen = describe_creatures s v rest known count in
    let (added, known', count') = describe_creatures s v rest checked.known_set (suc count) in
    if count == 10
    then ([], known, count)
    else if not (can_see_creature v c)
    then unseen
    else (add_creature s.types v c checked.is_known checked.removed_known ++ added, known', count')

unfoldable pub backwards {ℓ} : {A : Type ℓ} → List A → List A
backwards [] = []
backwards (x ∷ xs) = backwards xs ++ (x ∷ [])

-- `GetTileDescription`: the calls, and the known creatures afterwards.
unfoldable pub get_tile_description : Server → Viewer → Tile → List ℕ → List Call × List ℕ
get_tile_description s v t known =
    let (ground, n) = describe_ground s.types t.ground in
    let (top, n') = describe_items s.types t.top_items n in
    let (creatures, known', n'') = describe_creatures s v (backwards t.creatures) known n' in
    let (down, n''') = describe_items s.types t.down_items n'' in
    (ground ++ (top ++ (creatures ++ down)), known')

-- The number of tiles to skip is `none` for the source's -1.
unfoldable pub skip_mark : Option ℕ → List Call
skip_mark none = []
skip_mark (some skip) = byte skip ∷ byte 255 ∷ []

unfoldable pub is_full_skip : Option ℕ → Bool
is_full_skip none = false
is_full_skip (some skip) = skip == 254

unfoldable pub next_skip : Option ℕ → Option ℕ
next_skip none = some 0
next_skip (some skip) = some (suc skip)

pub record Described : Type 0 where
  pub added : List Call
  pub known : List ℕ
  pub skip : Option ℕ

-- The body of the loops of `GetFloorDescription`.
unfoldable pub describe_cell : Server → Viewer → Option Tile → List ℕ → Option ℕ → Described
describe_cell s v (some t) known skip =
    let (added, known') = get_tile_description s v t known in
    record { added = skip_mark skip ++ added; known = known'; skip = some 0 }
describe_cell s v none known skip =
    if is_full_skip skip
    then record { added = byte 255 ∷ byte 255 ∷ []; known = known; skip = none }
    else record { added = []; known = known; skip = next_skip skip }

unfoldable pub describe_cells : Server → Viewer → List (Option Tile) → List ℕ → Option ℕ → Described
describe_cells s v [] known skip = record { added = []; known = known; skip = skip }
describe_cells s v (cell ∷ cells) known skip =
    let first = describe_cell s v cell known skip in
    let rest = describe_cells s v cells first.known first.skip in
    record rest { added = first.added ++ rest.added }

-- The numbers from `n` on, `count` of them.
unfoldable pub range : ℕ → ℕ → List ℕ
range n zero = []
range n (suc count) = n ∷ range (suc n) count

unfoldable pub flatten {ℓ} : {A : Type ℓ} → List (List A) → List A
flatten [] = []
flatten (xs ∷ xss) = xs ++ flatten xss

-- The positions that the two loops of `GetFloorDescription` go through; the coordinates are 32-bit
-- patterns, of which `getTile` takes the low 16 bits.
unfoldable pub floor_positions : ℕ → ℕ → ℕ → ℕ → ℕ → ℕ → List Position
floor_positions x y z width height offset = flatten (
    map
      (λ nx.
        map
          (λ ny. record {
            x = wrap16 (add32 (add32 x nx) offset);
            y = wrap16 (add32 (add32 y ny) offset);
            z = z;
          })
          (range 0 height))
      (range 0 width))

-- The floors from `startz` to `endz` of `GetMapDescription`.
unfoldable pub floors : ℕ → List ℕ
floors z =
    if ltb 7 z
    then range (z - 2) (min 15 (z + 2) + 1 - (z - 2))
    else 7 ∷ 6 ∷ 5 ∷ 4 ∷ 3 ∷ 2 ∷ 1 ∷ 0 ∷ []

unfoldable pub map_positions : ℕ → ℕ → ℕ → ℕ → ℕ → List Position
map_positions x y z width height =
    flatten (map (λ nz. floor_positions x y nz width height (sub32 z nz)) (floors z))

-- `GetMapDescription`: the message, and the known creatures afterwards.
unfoldable pub get_map_description :
    Server → Viewer → ℕ → ℕ → ℕ → ℕ → ℕ → List ℕ → NetworkMessage → NetworkMessage × List ℕ
get_map_description s v x y z width height known m =
    let cells = map (λ p. s.get_tile p.x p.y p.z) (map_positions x y z width height) in
    let described = describe_cells s v cells known none in
    (make_calls (described.added ++ skip_mark described.skip) m, described.known)

-- `sendMapDescription` up to the call of `writeToOutputBuffer`, with its new message.
unfoldable pub send_map_description :
    Server → Viewer → Position → List ℕ → NetworkMessage → NetworkMessage × List ℕ
send_map_description s v pos known msg =
    get_map_description s v (sub32 pos.x 8) (sub32 pos.y 6) pos.z 18 14 known
      (add_position v.position (add_byte 100 msg))
