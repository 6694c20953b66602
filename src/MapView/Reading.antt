-- ===== src/MapView/Reading.antt =====
-- A client that reads the description of a map, written after the protocol and not after the server:
-- a tile is a row of things up to a mark, which says how many tiles to skip behind it.
use theforgottenserver.Prelude.{
  ℕ, zero, suc, ◌+◌, ◌*◌, ◌-◌, Bool, true, false, Option, none, some, List, [], ◌∷◌, ◌==◌, leb,
  if◌then◌else◌, length, take, drop, ◌>>=◌,
}

unfoldable pub read8 : List ℕ → Option (ℕ × List ℕ)
read8 [] = none
read8 (a ∷ rest) = some (a, rest)

unfoldable pub read16 : List ℕ → Option (ℕ × List ℕ)
read16 bytes = do (a, rest) ← read8 bytes; (b, rest) ← read8 rest; some (a + 256 * b, rest)

unfoldable pub read32 : List ℕ → Option (ℕ × List ℕ)
read32 bytes = do (a, rest) ← read16 bytes; (b, rest) ← read16 rest; some (a + 65536 * b, rest)

unfoldable pub read_chars : ℕ → List ℕ → Option (List ℕ × List ℕ)
read_chars n bytes = if leb n (length bytes) then some (take n bytes, drop n bytes) else none

unfoldable pub read_string : List ℕ → Option (List ℕ × List ℕ)
read_string bytes = do (n, rest) ← read16 bytes; read_chars n rest

pub data Shape : Type 0 where
  outfit_shape : ℕ → ℕ → ℕ → ℕ → ℕ → Shape
  item_shape : ℕ → Shape

pub record Looks : Type 0 where
  pub health : ℕ
  pub direction : ℕ
  pub shape : Shape
  pub light_level : ℕ
  pub light_color : ℕ
  pub speed : ℕ
  pub skull : ℕ
  pub shield : ℕ

-- An item by the number that the client gives its type, with its count or kind of fluid; a creature
-- by its id, its name and its looks.
pub data Thing : Type 0 where
  item_thing : ℕ → Option ℕ → Thing
  creature_thing : ℕ → List ℕ → Looks → Thing

-- The names of the creatures that the client knows.
abbrev pub Names : Type 0
Names = ℕ → Option (List ℕ)

unfoldable pub learn : ℕ → ℕ → List ℕ → Names → Names
learn removed id name names k =
    if k == id then some name else if k == removed then none else names k

unfoldable pub read_shape_of : ℕ → List ℕ → Option (Shape × List ℕ)
read_shape_of zero bytes = do (client_id, rest) ← read16 bytes; some (item_shape client_id, rest)
read_shape_of (suc kind) bytes = do
  (head, rest) ← read8 bytes
  (body, rest) ← read8 rest
  (legs, rest) ← read8 rest
  (feet, rest) ← read8 rest
  some (outfit_shape (suc kind) head body legs feet, rest)

unfoldable pub read_shape : List ℕ → Option (Shape × List ℕ)
read_shape bytes = do (kind, rest) ← read16 bytes; read_shape_of kind rest

unfoldable pub read_looks : List ℕ → Option (Looks × List ℕ)
read_looks bytes = do
  (health, rest) ← read8 bytes
  (direction, rest) ← read8 rest
  (shape, rest) ← read_shape rest
  (light_level, rest) ← read8 rest
  (light_color, rest) ← read8 rest
  (speed, rest) ← read16 rest
  (skull, rest) ← read8 rest
  (shield, rest) ← read8 rest
  some (
    record {
      health = health;
      direction = direction;
      shape = shape;
      light_level = light_level;
      light_color = light_color;
      speed = speed;
      skull = skull;
      shield = shield;
    },
    rest,
  )

unfoldable pub read_new_creature : Names → List ℕ → Option (Thing × Names × List ℕ)
read_new_creature names bytes = do
  (removed, rest) ← read32 bytes
  (id, rest) ← read32 rest
  (name, rest) ← read_string rest
  (looks, rest) ← read_looks rest
  some (creature_thing id name looks, learn removed id name names, rest)

unfoldable pub read_known_creature : Names → List ℕ → Option (Thing × Names × List ℕ)
read_known_creature names bytes = do
  (id, rest) ← read32 bytes
  name ← names id
  (looks, rest) ← read_looks rest
  some (creature_thing id name looks, names, rest)

unfoldable pub read_item : Bool → ℕ → Names → List ℕ → Option (Thing × Names × List ℕ)
read_item true tag names bytes = do
  (count, rest) ← read8 bytes
  some (item_thing tag (some count), names, rest)
read_item false tag names bytes = some (item_thing tag none, names, bytes)

-- `has_count` is what the client knows of its types of items.
unfoldable pub read_thing : (ℕ → Bool) → ℕ → Names → List ℕ → Option (Thing × Names × List ℕ)
read_thing has_count tag names bytes =
    if tag == 97
    then read_new_creature names bytes
    else if tag == 98
    then read_known_creature names bytes
    else read_item (has_count tag) tag names bytes

-- The things of a tile, what is known afterwards, and the number of the mark. A word from 65280 on is
-- a mark.
unfoldable pub read_tile :
    ℕ → (ℕ → Bool) → Names → List ℕ → Option (List Thing × Names × ℕ × List ℕ)
read_tile zero has_count names bytes = none
read_tile (suc room) has_count names bytes = do
  (tag, rest) ← read16 bytes
  let more = do
    (thing, names, rest) ← read_thing has_count tag names rest
    (things, names, skip, rest) ← read_tile room has_count names rest
    some (thing ∷ things, names, skip, rest)
  if leb 65280 tag then some ([], names, tag - 65280, rest) else more

-- That many tiles, of which the first ones may be skipped; a tile has room for ten things.
unfoldable pub read_tiles :
    ℕ → ℕ → (ℕ → Bool) → Names → List ℕ → Option (List (List Thing) × Names × List ℕ)
read_tiles zero skip has_count names bytes = some ([], names, bytes)
read_tiles (suc n) (suc skip) has_count names bytes = do
  (tiles, names, rest) ← read_tiles n skip has_count names bytes
  some ([] ∷ tiles, names, rest)
read_tiles (suc n) zero has_count names bytes = do
  (things, names, skip, rest) ← read_tile 11 has_count names bytes
  (tiles, names, rest) ← read_tiles n skip has_count names rest
  some (things ∷ tiles, names, rest)
