-- ===== src/Positions/Tests.antt =====
-- The theorems on positions at concrete inputs.
use theforgottenserver.Prelude.{◌≡◌, true, not, arith}
use theforgottenserver.Network.Message.{Position}
use theforgottenserver.Positions.{
  southeast, get_next_position, get_direction_to, less_than, greater_than, same_position,
}
use theforgottenserver.Positions.Steps.{get_direction_to-get_next_position, IsInner}
use theforgottenserver.Positions.Order.{less_than_total, greater_than-eq}

abbrev here : Position
here = record { x = 100; y = 200; z = 7 }

abbrev there : Position
there = record { x = 99; y = 201; z = 7 }

abbrev below : Position
below = record { x = 1; y = 1; z = 8 }

here-IsInner : IsInner here
here-IsInner = omega arith

get_direction_to-get_next_position_example :
    get_direction_to here (get_next_position southeast here) ≡ southeast
get_direction_to-get_next_position_example =
    get_direction_to-get_next_position southeast here here-IsInner (λ e. absurd (cc))

less_than_total_example :
    (less_than here there ≡ true → less_than there below ≡ true → less_than here below ≡ true)
    × (less_than here there ≡ not (less_than there here))
unfolding same_position
less_than_total_example = less_than_total here there below

greater_than-eq_example : greater_than here here ≡ true
unfolding same_position
greater_than-eq_example = greater_than-eq here here
