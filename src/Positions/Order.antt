-- ===== src/Positions/Order.antt =====
-- The order of positions.
use theforgottenserver.Prelude.{◌≡◌, true, false, not, if◌then◌else◌, arith}
use theforgottenserver.Network.Message.{Position}
use theforgottenserver.Positions.{less_than, greater_than, same_position}

-- `operator<` is a strict total order whose equality is `operator==`: it is transitive, and of two
-- positions either they are equal and neither is less, or exactly one is less than the other.
pub less_than_total :
    (a b c : Position)
    → (less_than a b ≡ true → less_than b c ≡ true → less_than a c ≡ true)
      × (if same_position a b
          then (less_than a b ≡ false) × (less_than b a ≡ false)
          else less_than a b ≡ not (less_than b a))
unfolding less_than same_position
less_than_total a b c = ((λ h k. ground arith), ground arith)

-- `operator>` is the converse of `operator<` or equality: it holds of a position and itself.
pub greater_than-eq :
    (a b : Position) → greater_than a b ≡ (if same_position a b then true else less_than b a)
unfolding greater_than less_than same_position
greater_than-eq a b = ground arith
