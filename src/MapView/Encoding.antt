-- ===== src/MapView/Encoding.antt =====
-- The format of a description of the map, as a function into byte lists: what the message would hold
-- if it had no end. The code itself is in MapView.antt.
use theforgottenserver.Prelude.{
  ℕ, suc, ◌/◌, ◌%◌, Bool, not, ◌||◌, ◌&&◌, Option, none, some, List, [], ◌∷◌, ◌++◌, map, ◌==◌, ltb,
  if◌then◌else◌, length, min,
}
use theforgottenserver.MapView.{
  ItemType, TileItem, fluid_map, no_outfit, Server, Tile, check_creature_as_known, backwards,
  is_full_skip, next_skip, map_positions,
}
use theforgottenserver.MapView.Seeing.{Creature, Outfit, Viewer, can_see_creature}

-- Words of two and of four bytes, and a string behind its length.
unfoldable pub word16 : ℕ → List ℕ
word16 n = n % 256 ∷ n / 256 % 256 ∷ []

unfoldable pub word32 : ℕ → List ℕ
word32 n = n % 256 ∷ n / 256 % 256 ∷ n / 65536 % 256 ∷ n / 16777216 % 256 ∷ []

unfoldable pub string_bytes : List ℕ → List ℕ
string_bytes s = if ltb 8192 (length s) then [] else word16 (length s) ++ s

unfoldable pub item_bytes : (ℕ → ItemType) → TileItem → List ℕ
item_bytes types item =
    let it = types item.type_id in
    word16 it.client_id
    ++ (if it.is_stackable
        then min 255 item.item_count ∷ []
        else if it.is_splash || it.is_fluid_container
        then fluid_map (item.sub_type % 8) ∷ []
        else [])

unfoldable pub outfit_bytes : (ℕ → ItemType) → Outfit → List ℕ
outfit_bytes types o =
    word16 o.look_type
    ++ (if o.look_type == 0
        then word16 (types o.look_type_ex).client_id
        else o.look_head ∷ o.look_body ∷ o.look_legs ∷ o.look_feet ∷ [])

unfoldable pub looks_bytes : (ℕ → ItemType) → Viewer → Creature → List ℕ
looks_bytes types v c =
    (if c.is_health_hidden then 0 else c.health_percent)
    ∷ c.direction
    ∷ (outfit_bytes types
          (if not c.is_in_ghost_mode && not c.is_invisible then c.outfit else no_outfit)
        ++ ((if v.is_access_player then 255 else c.light_level)
            ∷ c.light_color
            ∷ (word16 c.step_speed ++ (c.skull ∷ c.shield ∷ []))))

unfoldable pub creature_bytes : (ℕ → ItemType) → Viewer → Creature → Bool → ℕ → List ℕ
creature_bytes types v c known remove =
    (if known
      then word16 98 ++ word32 c.id
      else word16 97 ++ (word32 remove ++ (word32 c.id ++ string_bytes c.name)))
    ++ looks_bytes types v c

unfoldable pub ground_bytes : (ℕ → ItemType) → Option TileItem → List ℕ × ℕ
ground_bytes types none = ([], 0)
ground_bytes types (some item) = (item_bytes types item, 1)

unfoldable pub items_bytes : (ℕ → ItemType) → List TileItem → ℕ → List ℕ × ℕ
items_bytes types [] count = ([], count)
items_bytes types (item ∷ rest) count =
    let (bytes, count') = items_bytes types rest (suc count) in
    if count == 10 then ([], count) else (item_bytes types item ++ bytes, count')

unfoldable pub creatures_bytes : Server → Viewer → List Creature → List ℕ → ℕ → List ℕ × List ℕ × ℕ
creatures_bytes s v [] known count = ([], known, count)
creatures_bytes s v (c ∷ rest) known count =
    let checked = check_creature_as_known s v c.id known in
    let unseen = creatures_bytes s v rest known count in
    let (bytes, known', count') = creatures_bytes s v rest checked.known_set (suc count) in
    if count == 10 then ([], known, count) else if not (can_see_creature v c) then unseen else (
      creature_bytes s.types v c checked.is_known checked.removed_known ++ bytes,
      known',
      count',
    )

unfoldable pub tile_bytes : Server → Viewer → Tile → List ℕ → List ℕ × List ℕ
tile_bytes s v t known =
    let (ground, n) = ground_bytes s.types t.ground in
    let (top, n') = items_bytes s.types t.top_items n in
    let (creatures, known', n'') = creatures_bytes s v (backwards t.creatures) known n' in
    let (down, n''') = items_bytes s.types t.down_items n'' in
    (ground ++ (top ++ (creatures ++ down)), known')

unfoldable pub mark_bytes : Option ℕ → List ℕ
mark_bytes none = []
mark_bytes (some skip) = skip ∷ 255 ∷ []

pub record Encoded : Type 0 where
  pub bytes : List ℕ
  pub known : List ℕ
  pub skip : Option ℕ

unfoldable pub cell_bytes : Server → Viewer → Option Tile → List ℕ → Option ℕ → Encoded
cell_bytes s v (some t) known skip =
    let (bytes, known') = tile_bytes s v t known in
    record { bytes = mark_bytes skip ++ bytes; known = known'; skip = some 0 }
cell_bytes s v none known skip =
    if is_full_skip skip
    then record { bytes = 255 ∷ 255 ∷ []; known = known; skip = none }
    else record { bytes = []; known = known; skip = next_skip skip }

unfoldable pub cells_bytes : Server → Viewer → List (Option Tile) → List ℕ → Option ℕ → Encoded
cells_bytes s v [] known skip = record { bytes = []; known = known; skip = skip }
cells_bytes s v (cell ∷ cells) known skip =
    let first = cell_bytes s v cell known skip in
    let rest = cells_bytes s v cells first.known first.skip in
    record rest { bytes = first.bytes ++ rest.bytes }

unfoldable pub map_bytes : Server → Viewer → ℕ → ℕ → ℕ → ℕ → ℕ → List ℕ → List ℕ × List ℕ
map_bytes s v x y z width height known =
    let cells = map (λ p. s.get_tile p.x p.y p.z) (map_positions x y z width height) in
    let described = cells_bytes s v cells known none in
    (described.bytes ++ mark_bytes described.skip, described.known)
