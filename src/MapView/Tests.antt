-- ===== src/MapView/Tests.antt =====
-- A small map, described and read.
use theforgottenserver.Prelude.{
  ℕ, ◌≡◌, ◌-◌, refl, Bool, true, false, ◌&&◌, none, some, List, [], ◌∷◌, ◌++◌, map, ◌==◌,
  if◌then◌else◌, length, arith, subst, Bool-cases, inl, inr, sub32, add32,
}
use mathlib.Core.Option.{some-injective}
use theforgottenserver.Network.Message.{Position, NetworkMessage}
use theforgottenserver.Network.Memory.{load_bytes}
use theforgottenserver.MapView.Encoding.{
  map_bytes, cells_bytes, cell_bytes, tile_bytes, items_bytes, creatures_bytes, ground_bytes,
  item_bytes, creature_bytes, looks_bytes, outfit_bytes, mark_bytes, string_bytes, word16, word32,
}
use theforgottenserver.MapView.{
  ItemType, Tile, Server, no_outfit, get_map_description, map_positions, check_creature_as_known,
  insert_at, find_unseen, to_remove, anyone_but, backwards, is_full_skip, next_skip, floors,
  floor_positions, flatten, range,
}
use theforgottenserver.MapView.Seeing.{
  Creature, Viewer, can_see, can_see_creature, can_see_position,
}
use theforgottenserver.MapView.Reading.{Names, read_tiles}
use theforgottenserver.MapView.Bytes.{IsReadable}
use theforgottenserver.MapView.Known.{IsKept, check_creature_as_known-IsKept}
use theforgottenserver.MapView.Creatures.{IsCreature, Agrees}
use theforgottenserver.MapView.Tiles.{AreCreatures}
use theforgottenserver.MapView.Client.{IsMap, shown_at, read_tiles-get_map_description}
use theforgottenserver.MapView.View.{IsInside, has_position, has_position-can_see_position}

-- Coins can be stacked, the rest cannot.
abbrev types : ℕ → ItemType
types i =
    if i == 1
    then record {
      client_id = 148;
      is_stackable = true;
      is_splash = false;
      is_fluid_container = false;
    }
    else record {
      client_id = 102;
      is_stackable = false;
      is_splash = false;
      is_fluid_container = false;
    }

abbrev has_count : ℕ → Bool
has_count client_id = client_id == 148

types-IsReadable : IsReadable types has_count
types-IsReadable = record {
  below_marks =
      λ i. elim (Bool-cases (i == 1)) [ inl e ↦ rw e (omega arith) | inr e ↦ rw e (omega arith) ];
  no_creature =
      λ i. elim (Bool-cases (i == 1)) [ inl e ↦ rw e (refl, refl) | inr e ↦ rw e (refl, refl) ];
  counted = λ i. elim (Bool-cases (i == 1)) [ inl e ↦ rw e refl | inr e ↦ rw e refl ];
}

abbrev here : Position
here = record { x = 100; y = 200; z = 7 }

abbrev rat : Creature
rat = record {
  id = 1073741824;
  name = 82 ∷ 97 ∷ 116 ∷ [];
  is_player = false;
  is_removed = false;
  is_health_hidden = false;
  health_percent = 100;
  direction = 2;
  is_in_ghost_mode = false;
  is_invisible = false;
  outfit = record no_outfit { look_type = 21 };
  light_level = 0;
  light_color = 0;
  step_speed = 134;
  skull = 0;
  shield = 0;
  position = here;
}

abbrev name_of : ℕ → List ℕ
name_of id = 82 ∷ 97 ∷ 116 ∷ []

rat-IsCreature : IsCreature name_of rat
rat-IsCreature = record {
  id_fits = omega arith;
  has_id = refl;
  is_named = refl;
  name_fits = omega arith;
  look_type_fits = omega arith;
  speed_fits = omega arith;
}

-- One tile of grass with coins and a rat.
abbrev grass : Tile
grass = record {
  ground = some (record { type_id = 0; item_count = 1; sub_type = 0 });
  top_items = [];
  creatures = rat ∷ [];
  down_items = record { type_id = 1; item_count = 50; sub_type = 0 } ∷ [];
}

abbrev server : Server
server = record {
  types = types;
  get_tile = λ x y z. if x == 100 && y == 200 && z == 7 then some grass else none;
  get_creature_by_id = λ id. if id == 1073741824 then some rat else none;
  place_of = λ id set. 0;
}

only_grass :
    (b : Bool) (t : Tile)
    → (if b then some grass else none) ≡ some t
    → AreCreatures name_of t.creatures
unfolding AreCreatures
only_grass true t h =
    subst (λ u. AreCreatures name_of u.creatures) (some-injective grass t h) (rat-IsCreature, tt)
only_grass false t h = cc

server-IsMap : IsMap name_of server
server-IsMap = record {
  creatures_of = λ x y z t h. only_grass (x == 100 && y == 200 && z == 7) t h;
}

abbrev viewer : Viewer
viewer = record {
  id = 268435456;
  position = here;
  is_access_player = false;
  can_see_invisibility = false;
}

abbrev no_names : Names
no_names id = none

nothing-Agrees : Agrees name_of [] no_names
nothing-Agrees = record {
  knows = λ k h. cc;
  known_fits = λ k h. cc;
  no_zero = refl;
  few = omega arith;
}

-- A message as its constructor leaves it.
abbrev blank : NetworkMessage
blank = record { length = 0; position = 4; overrun = false; buffer = λ _. 0 }

description_length : length (map_bytes server viewer 99 199 7 3 3 []).0 ≡ 38
unfolding map_bytes cells_bytes cell_bytes tile_bytes items_bytes creatures_bytes ground_bytes
    item_bytes creature_bytes looks_bytes outfit_bytes mark_bytes string_bytes word16 word32
    check_creature_as_known insert_at find_unseen to_remove anyone_but can_see can_see_creature
    can_see_position backwards is_full_skip next_skip map_positions floors floor_positions flatten
    range add32 sub32
description_length = refl

read_tiles-get_map_description_example :
    (let (m', known') = get_map_description server viewer 99 199 7 3 3 [] blank in
      let sent = load_bytes m'.buffer 4 (m'.position - 4) in
      let positions = map_positions 99 199 7 3 3 in
      (names' : Names) × Agrees name_of known' names'
      × ((tail : List ℕ)
          → read_tiles (length positions) 0 has_count no_names (sent ++ tail)
            ≡ some (map (shown_at server viewer) positions, names', tail)))
read_tiles-get_map_description_example =
    read_tiles-get_map_description server has_count viewer name_of 99 199 7 3 3 [] no_names blank
      (omega arith) (omega (arith, description_length)) types-IsReadable server-IsMap nothing-Agrees

viewer-IsInside : IsInside viewer
viewer-IsInside = record {
  x_from = omega arith;
  x_to = omega arith;
  y_from = omega arith;
  y_to = omega arith;
  on_map = omega arith;
}

abbrev up_there : Position
up_there = record { x = 109; y = 207; z = 6 }

has_position-can_see_position_example :
    has_position up_there (map_positions (sub32 100 8) (sub32 200 6) 7 18 14)
    ≡ can_see_position viewer up_there
has_position-can_see_position_example =
    has_position-can_see_position viewer viewer-IsInside up_there (omega arith)

check_creature_as_known-IsKept_example :
    IsKept server viewer 1073741824
      (5 ∷ [])
      (check_creature_as_known server viewer 1073741824 (5 ∷ []))
check_creature_as_known-IsKept_example =
    check_creature_as_known-IsKept server viewer 1073741824 (5 ∷ []) refl refl (omega arith)
