-- ===== src/MapView/Seeing.antt =====
-- What a player can see: `Player::canSeeCreature` of src/player.cpp, `canSee` of src/protocolgame.cpp.
use theforgottenserver.Prelude.{
  ℕ, ◌+◌, Bool, true, false, not, ◌||◌, ◌&&◌, Option, none, some, List, ◌==◌, ltb, leb,
  if◌then◌else◌,
}
use theforgottenserver.Network.Message.{Position}

pub record Outfit : Type 0 where
  pub look_type : ℕ
  pub look_head : ℕ
  pub look_body : ℕ
  pub look_legs : ℕ
  pub look_feet : ℕ
  pub look_type_ex : ℕ

-- A creature with what the game answers of it. The percentage of its health, which the source
-- computes in floating point, and the skull and shield that the viewer is shown are such answers.
pub record Creature : Type 0 where
  pub id : ℕ
  pub name : List ℕ
  pub is_player : Bool
  pub is_removed : Bool
  pub is_health_hidden : Bool
  pub health_percent : ℕ
  pub direction : ℕ
  pub is_in_ghost_mode : Bool
  pub is_invisible : Bool
  pub outfit : Outfit
  pub light_level : ℕ
  pub light_color : ℕ
  pub step_speed : ℕ
  pub skull : ℕ
  pub shield : ℕ
  pub position : Position

-- The player to whom the client belongs.
pub record Viewer : Type 0 where
  pub id : ℕ
  pub position : Position
  pub is_access_player : Bool
  pub can_see_invisibility : Bool

unfoldable pub can_see_creature : Viewer → Creature → Bool
can_see_creature v c =
    if c.id == v.id
    then true
    else if c.is_in_ghost_mode && not v.is_access_player
    then false
    else if not c.is_player && not v.can_see_invisibility && c.is_invisible
    then false
    else true

-- `canSee(x, y, z)`: a difference of the source stands on the other side as a sum.
unfoldable pub can_see_position : Viewer → Position → Bool
can_see_position v p =
    let my = v.position in
    let in_view =
      leb (my.x + my.z) (p.x + 8 + p.z)
      && leb (p.x + p.z) (my.x + 9 + my.z)
      && leb (my.y + my.z) (p.y + 6 + p.z)
      && leb (p.y + p.z) (my.y + 7 + my.z) in
    if leb my.z 7
    then (if ltb 7 p.z then false else in_view)
    else if ltb (my.z + 2) p.z || ltb (p.z + 2) my.z
    then false
    else in_view

unfoldable pub can_see : Viewer → Option Creature → Bool
can_see v none = false
can_see v (some c) =
    if c.is_removed || not (can_see_creature v c) then false else can_see_position v c.position
