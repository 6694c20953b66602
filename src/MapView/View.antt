-- ===== src/MapView/View.antt =====
-- The description of the map around a player holds exactly the positions that the player can see.
use theforgottenserver.Prelude.{
  ℕ, zero, suc, ◌+◌, ◌-◌, ◌≤◌, ◌<◌, ◌≡◌, refl, sym, ap, ◌∙◌, Bool, true, false, ◌||◌, ◌&&◌, List,
  [], ◌∷◌, ◌++◌, map, ◌==◌, ltb, leb, if◌then◌else◌, contains, arith, inl, inr, Bool-cases, wrap16,
  add32, sub32, ==→eq, min,
}
use theforgottenserver.Network.Message.{Position}
use theforgottenserver.MapView.{range, flatten, floor_positions, floors, map_positions}
use theforgottenserver.MapView.Seeing.{Viewer, can_see_position}

-- A position is in a list.
unfoldable pub has_position : Position → List Position → Bool
has_position p [] = false
has_position p (q ∷ qs) = (p.x == q.x && p.y == q.y && p.z == q.z) || has_position p qs

or_assoc : (a b c : Bool) → ((a || b) || c) ≡ (a || (b || c))
or_assoc true b c = refl
or_assoc false b c = refl

has_position-append :
    (p : Position) (xs ys : List Position)
    → has_position p (xs ++ ys) ≡ (has_position p xs || has_position p ys)
unfolding has_position
has_position-append p [] ys = refl
has_position-append p (q ∷ qs) ys =
    ap (λ b. (p.x == q.x && p.y == q.y && p.z == q.z) || b) (has_position-append p qs ys)
    ∙ sym
        (or_assoc (p.x == q.x && p.y == q.y && p.z == q.z) (has_position p qs) (has_position p ys))

contains-range : (k n count : ℕ) → contains k (range n count) ≡ (leb n k && ltb k (n + count))
unfolding range
contains-range k n zero = ground arith
contains-range k n (suc count) = ground (arith, contains-range k (suc n) count)

map-range {ℓ} :
    {A : Type ℓ} (f g : ℕ → A) (n count : ℕ)
    → ((k : ℕ) → k < n + count → f k ≡ g k)
    → map f (range n count) ≡ map g (range n count)
unfolding range
map-range f g n zero h = refl
map-range f g n (suc count) h =
    λ i. h n (omega arith) i ∷ map-range f g (suc n) count (λ k l. h k (omega (arith, l))) i

column : ℕ → ℕ → ℕ → ℕ → Position
column x y z ny = record { x = x; y = y + ny; z = z }

has_position-column :
    (p : Position) (x y z n count : ℕ)
    → has_position p (map (column x y z) (range n count))
      ≡ (p.x == x && p.z == z && leb (y + n) p.y && ltb p.y (y + n + count))
unfolding has_position range column
has_position-column p x y z n zero = ground arith
has_position-column p x y z n (suc count) =
    ground (arith, has_position-column p x y z (suc n) count)

has_position-rows :
    (p : Position) (x y z height n count : ℕ)
    → has_position p
        (flatten (map (λ nx. map (column (x + nx) y z) (range 0 height)) (range n count)))
      ≡ (p.z == z
          && leb (x + n) p.x
          && ltb p.x (x + n + count)
          && leb y p.y
          && ltb p.y (y + height))
unfolding has_position range flatten
has_position-rows p x y z height n zero = ground arith
has_position-rows p x y z height n (suc count) =
    has_position-append p (map (column (x + n) y z) (range 0 height))
      (flatten (map (λ nx. map (column (x + nx) y z) (range 0 height)) (range (suc n) count)))
    ∙ ground (
      arith,
      has_position-column p (x + n) y z 0 height,
      has_position-rows p x y z height (suc n) count,
    )

-- Where no coordinate leaves the map, none wraps.
no_wrap :
    (m less z nz k : ℕ)
    → less + nz ≤ m + z
    → less ≤ m
    → m + z + k < less + nz + 65536
    → m < 65536
    → z < 16
    → nz < 16
    → k < 18
    → wrap16 (add32 (add32 (sub32 m less) k) (sub32 z nz)) ≡ m + z - (less + nz) + k
unfolding add32 sub32
no_wrap m less z nz k h hl hu hm hz hn hk = omega arith

-- The player stands on a floor of the map, and its view stays off the edges.
pub record IsInside (v : Viewer) : Type 0 where
  pub x_from : 15 ≤ v.position.x
  pub x_to : v.position.x + 16 < 65536
  pub y_from : 13 ≤ v.position.y
  pub y_to : v.position.y + 14 < 65536
  pub on_map : v.position.z < 16

-- A floor of the description: at most seven above or below.
abbrev IsNear : Viewer → ℕ → Type 0
IsNear v nz = (nz < 16) × (nz ≤ v.position.z + 7) × (v.position.z ≤ nz + 7)

contains-floors :
    (k z : ℕ)
    → contains k (floors z)
      ≡ (if leb z 7 then leb k 7 else leb (z - 2) k && leb k (z + 2) && leb k 15)
unfolding floors
contains-floors k z = ground (arith, contains-range k (z - 2) (min 15 (z + 2) + 1 - (z - 2)))

-- A position is in the window of the player on its floor.
in_window : Viewer → Position → ℕ → Bool
in_window v p nz =
    let x = v.position.x + v.position.z - (8 + nz) in
    let y = v.position.y + v.position.z - (6 + nz) in
    leb (x + 0) p.x && ltb p.x (x + 0 + 18) && leb y p.y && ltb p.y (y + 14)

module _ (v : Viewer) (inside : IsInside v) where
  floor : ℕ → List Position
  floor nz =
      floor_positions (sub32 v.position.x 8) (sub32 v.position.y 6) nz 18 14 (sub32 v.position.z nz)

  floor-eq :
      (nz : ℕ)
      → IsNear v nz
      → floor nz
        ≡ flatten (
            map
              (λ nx.
                map
                  (column
                    (v.position.x + v.position.z - (8 + nz) + nx)
                    (v.position.y + v.position.z - (6 + nz))
                    nz)
                  (range 0 14))
              (range 0 18))
  unfolding floor floor_positions column
  floor-eq nz (a, b, c) =
      let my = v.position in
      ap flatten (
        map-range
          (λ nx.
            map
              (λ ny. record {
                x = wrap16 (add32 (add32 (sub32 my.x 8) nx) (sub32 my.z nz));
                y = wrap16 (add32 (add32 (sub32 my.y 6) ny) (sub32 my.z nz));
                z = nz;
              })
              (range 0 14))
          (λ nx.
            map (column (my.x + my.z - (8 + nz) + nx) (my.y + my.z - (6 + nz)) nz) (range 0 14))
          0 18
          (λ nx h.
            map-range
              (λ ny. record {
                x = wrap16 (add32 (add32 (sub32 my.x 8) nx) (sub32 my.z nz));
                y = wrap16 (add32 (add32 (sub32 my.y 6) ny) (sub32 my.z nz));
                z = nz;
              })
              (column (my.x + my.z - (8 + nz) + nx) (my.y + my.z - (6 + nz)) nz) 0 14
              (λ ny l i. record { x = wide nx h i; y = high ny l i; z = nz })))
    where
      wide :
          (nx : ℕ)
          → nx < 0 + 18
          → wrap16 (add32 (add32 (sub32 v.position.x 8) nx) (sub32 v.position.z nz))
            ≡ v.position.x + v.position.z - (8 + nz) + nx
      wide nx h =
          no_wrap v.position.x 8 v.position.z nz nx (omega (arith, b, c, inside.x_from))
            (omega (arith, inside.x_from)) (omega (arith, b, c, inside.x_to, h))
            (omega (arith, inside.x_to)) inside.on_map a (omega (arith, h))

      high :
          (ny : ℕ)
          → ny < 0 + 14
          → wrap16 (add32 (add32 (sub32 v.position.y 6) ny) (sub32 v.position.z nz))
            ≡ v.position.y + v.position.z - (6 + nz) + ny
      high ny h =
          no_wrap v.position.y 6 v.position.z nz ny (omega (arith, b, c, inside.y_from))
            (omega (arith, inside.y_from)) (omega (arith, b, c, inside.y_to, h))
            (omega (arith, inside.y_to)) inside.on_map a (omega (arith, h))

  has_position-floor :
      (p : Position) (nz : ℕ)
      → IsNear v nz
      → has_position p (floor nz) ≡ (p.z == nz && in_window v p p.z)
  unfolding in_window
  has_position-floor p nz near =
      ap (has_position p) (floor-eq nz near)
      ∙ has_position-rows p (v.position.x + v.position.z - (8 + nz))
          (v.position.y + v.position.z - (6 + nz)) nz 14 0 18
      ∙ elim (Bool-cases (p.z == nz)) [
        | inl e ↦ rw e (ap (λ k. in_window v p k) (sym (==→eq p.z nz e)))
        | inr e ↦ rw e refl
      ]

  has_position-floors :
      (p : Position) (zs : List ℕ)
      → ((k : ℕ) → contains k zs ≡ true → IsNear v k)
      → has_position p (flatten (map floor zs)) ≡ (contains p.z zs && in_window v p p.z)
  unfolding flatten has_position
  has_position-floors p [] near = refl
  has_position-floors p (nz ∷ zs) near =
      has_position-append p (floor nz) (flatten (map floor zs))
      ∙ (λ i.
          has_position-floor p nz (near nz first) i
          || has_position-floors p zs (λ k m. near k (later k m)) i)
      ∙ ground arith
    where
      first : contains nz (nz ∷ zs) ≡ true
      first = ground arith

      later : (k : ℕ) → contains k zs ≡ true → contains k (nz ∷ zs) ≡ true
      later k m = ground arith

  floors-IsNear : (k : ℕ) → contains k (floors v.position.z) ≡ true → IsNear v k
  floors-IsNear k m =
      let listed = sym (contains-floors k v.position.z) ∙ m in
      (ground (arith, inside.on_map), ground arith, ground (arith, inside.on_map))

  -- The positions of the description of the map around a player, away from the edges of the map, are
  -- exactly the positions of its floors that the player can see.
  pub has_position-can_see_position :
      (p : Position)
      → p.z < 16
      → has_position p
          (map_positions (sub32 v.position.x 8) (sub32 v.position.y 6) v.position.z 18 14)
        ≡ can_see_position v p
  unfolding map_positions can_see_position floor in_window
  has_position-can_see_position p hz =
      has_position-floors p (floors v.position.z) floors-IsNear
      ∙ ground (
        arith,
        contains-floors p.z v.position.z,
        inside.x_from,
        inside.x_to,
        inside.y_from,
        inside.y_to,
        inside.on_map,
      )
