-- ===== src/Positions/Steps.antt =====
-- A step in a direction leads where `getDirectionTo` says.
use theforgottenserver.Prelude.{◌<◌, ◌≡◌, ◌≢◌, refl, arith}
use theforgottenserver.Network.Message.{Position}
use theforgottenserver.Positions.{
  Direction, north, east, south, west, southwest, southeast, northwest, northeast, no_direction,
  get_next_position, get_direction_to,
}

-- Not at the edge of the map.
abbrev pub IsInner : Position → Type 0
IsInner p = (0 < p.x) × (p.x < 65535) × (0 < p.y) × (p.y < 65535)

-- From a position that is not at the edge of the coordinates, the direction to the next position in
-- a direction is that direction.
pub get_direction_to-get_next_position :
    (d : Direction) (p : Position)
    → IsInner p
    → d ≢ no_direction
    → get_direction_to p (get_next_position d p) ≡ d
unfolding get_direction_to get_next_position
get_direction_to-get_next_position north p inner some_way = ground arith
get_direction_to-get_next_position east p inner some_way = ground arith
get_direction_to-get_next_position south p inner some_way = ground arith
get_direction_to-get_next_position west p inner some_way = ground arith
get_direction_to-get_next_position southwest p inner some_way = ground arith
get_direction_to-get_next_position southeast p inner some_way = ground arith
get_direction_to-get_next_position northwest p inner some_way = ground arith
get_direction_to-get_next_position northeast p inner some_way = ground arith
get_direction_to-get_next_position no_direction p inner some_way = absurd (some_way refl)
