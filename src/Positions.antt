-- ===== src/Positions.antt =====
-- src/position.h and the two functions of src/tools.cpp on directions.
pub mod Steps
pub mod Order
mod Tests
use theforgottenserver.Prelude.{
  ℕ, suc, ◌+◌, ◌-◌, Bool, true, false, ◌&&◌, not, ltb, leb, ◌==◌, if◌then◌else◌, wrap16,
}
use theforgottenserver.Network.Message.{Position}

-- The values of `Direction` that name a way to go, and `DIRECTION_NONE`.
pub data Direction : Type 0 where
  north : Direction
  east : Direction
  south : Direction
  west : Direction
  southwest : Direction
  southeast : Direction
  northwest : Direction
  northeast : Direction
  no_direction : Direction

-- `++` and `--` of a `uint16_t`.
abbrev pub inc16 : ℕ → ℕ
inc16 n = wrap16 (n + 1)

abbrev pub dec16 : ℕ → ℕ
dec16 n = wrap16 (n + 65535)

-- `getNextPosition`
unfoldable pub get_next_position : Direction → Position → Position
get_next_position north p = record p { y = dec16 p.y }
get_next_position south p = record p { y = inc16 p.y }
get_next_position west p = record p { x = dec16 p.x }
get_next_position east p = record p { x = inc16 p.x }
get_next_position southwest p = record p { x = dec16 p.x; y = inc16 p.y }
get_next_position northwest p = record p { x = dec16 p.x; y = dec16 p.y }
get_next_position northeast p = record p { x = inc16 p.x; y = dec16 p.y }
get_next_position southeast p = record p { x = inc16 p.x; y = inc16 p.y }
get_next_position no_direction p = p

-- The absolute value of an offset.
abbrev pub gap : ℕ → ℕ → ℕ
gap a b = if ltb a b then b - a else a - b

-- `getDirectionTo`: `x_offset < 0` and `y_offset >= 0` compare the coordinates.
unfoldable pub get_direction_to : Position → Position → Direction
get_direction_to from to =
    let x_offset = gap from.x to.x in
    let y_offset = gap from.y to.y in
    let is_east = ltb from.x to.x in
    if leb to.y from.y
    then (if ltb x_offset y_offset
        then north
        else if y_offset == x_offset
        then (if is_east then northeast else northwest)
        else if is_east
        then east
        else west)
    else if ltb x_offset y_offset
    then south
    else if y_offset == x_offset
    then (if is_east then southeast else southwest)
    else if is_east
    then east
    else west

-- `operator<`
unfoldable pub less_than : Position → Position → Bool
less_than a b =
    if ltb a.z b.z
    then true
    else if ltb b.z a.z
    then false
    else if ltb a.y b.y
    then true
    else if ltb b.y a.y
    then false
    else if ltb a.x b.x
    then true
    else false

-- `operator>`
unfoldable pub greater_than : Position → Position → Bool
greater_than a b = not (less_than a b)

-- `operator==`
unfoldable pub same_position : Position → Position → Bool
same_position a b = (b.x == a.x) && ((b.y == a.y) && (b.z == a.z))
