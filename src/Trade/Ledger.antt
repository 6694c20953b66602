-- ===== src/Trade/Ledger.antt =====
-- The map of the items that are being traded.
use theforgottenserver.Prelude.{
  ℕ, ◌≡◌, refl, Option, none, some, List, [], ◌∷◌, ◌==◌, if◌then◌else◌, arith,
}
use theforgottenserver.Trade.{find_item, erase_item, assign_item, release_item, refers_to}

pub find_item-erase_item :
    (i j : ℕ) (items : List (ℕ × ℕ))
    → find_item j (erase_item i items) ≡ (if i == j then none else find_item j items)
unfolding find_item erase_item
find_item-erase_item i j [] = ground arith
find_item-erase_item i j ((k, p) ∷ rest) = ground (arith, find_item-erase_item i j rest)

pub find_item-assign_item :
    (i j p : ℕ) (items : List (ℕ × ℕ))
    → find_item j (assign_item i p items) ≡ (if i == j then some p else find_item j items)
unfolding find_item assign_item
find_item-assign_item i j p items = ground (arith, find_item-erase_item i j items)

pub find_item-release_item :
    (o : Option ℕ) (j : ℕ) (items : List (ℕ × ℕ))
    → find_item j (release_item o items) ≡ (if refers_to o j then none else find_item j items)
unfolding release_item refers_to
find_item-release_item none j items = refl
find_item-release_item (some i) j items = find_item-erase_item i j items
