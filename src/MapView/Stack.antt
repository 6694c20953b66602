-- ===== src/MapView/Stack.antt =====
-- A tile is read back as the first ten of its things, in the order of the stack.
use theforgottenserver.Prelude.{
  ℕ, zero, suc, ◌+◌, ◌*◌, ◌-◌, ◌≤◌, ◌≡◌, refl, sym, ap, ◌∙◌, Bool, true, Option, none, some, List,
  [], ◌∷◌, ◌++◌, map, append-nil, length, take, arith, subst, leb,
}
use theforgottenserver.MapView.{TileItem, ItemType, Server, Tile, backwards}
use theforgottenserver.MapView.Encoding.{ground_bytes, items_bytes, creatures_bytes, tile_bytes}
use theforgottenserver.MapView.Seeing.{Viewer}
use theforgottenserver.MapView.Reading.{Thing, Names, read_tile, read16, read8}
use theforgottenserver.MapView.Bytes.{IsReadable, shown_item}
use theforgottenserver.MapView.Creatures.{shown_creature, Agrees}
use theforgottenserver.MapView.Tiles.{
  Steps, nil-Steps, append-Steps, step_item, items_bytes-Steps, items_bytes-count,
  creatures_bytes-Steps, creatures_bytes-count, seen_ones, AreCreatures, prepend, with_room-eq,
}

take-append_any {ℓ} :
    {A : Type ℓ} (n : ℕ) (xs ys : List A) → take n (xs ++ ys) ≡ take n xs ++ take (n - length xs) ys
take-append_any zero xs ys = ap (λ n. take n ys) (sym (none_left (length xs)))
  where
    none_left : (n : ℕ) → 0 - n ≡ 0
    none_left n = omega arith
take-append_any (suc n) [] ys = ap (λ n. take n ys) (sym (all_left n))
  where
    all_left : (n : ℕ) → suc n - 0 ≡ suc n
    all_left n = omega arith
take-append_any (suc n) (x ∷ xs) ys =
    ap (λ l. x ∷ l) (take-append_any n xs ys)
    ∙ ap (λ m. (x ∷ take n xs) ++ take m ys) (one_less n (length xs))
  where
    one_less : (n m : ℕ) → n - m ≡ suc n - suc m
    one_less n m = omega arith

length-map {ℓ κ} :
    {A : Type ℓ} {B : Type κ} (f : A → B) (xs : List A) → length (map f xs) ≡ length xs
length-map f [] = refl
length-map f (x ∷ xs) = ap suc (length-map f xs)

length-take_le {ℓ} : {A : Type ℓ} (n : ℕ) (xs : List A) → length (take n xs) ≤ n
length-take_le zero xs = omega arith
length-take_le (suc n) [] = omega arith
length-take_le (suc n) (x ∷ xs) = omega (arith, length-take_le n xs)

eleven : (n : ℕ) → n ≤ 10 → n + suc (10 - n) ≡ 11
eleven n h = omega (arith, h)

prepend_lem :
    (things : List Thing) (names : Names) (skip : ℕ) (rest : List ℕ)
    → prepend things (some ([], names, skip, rest)) ≡ some (things, names, skip, rest)
unfolding prepend
prepend_lem things names skip rest = ap (λ l. some (l, names, skip, rest)) (append-nil things)

-- A mark is read as an empty tile.
pub read_mark :
    (has_count : ℕ → Bool) (room : ℕ) (names : Names) (skip : ℕ) (rest : List ℕ)
    → read_tile (suc room) has_count names (skip ∷ 255 ∷ rest) ≡ some ([], names, skip, rest)
unfolding read_tile read16 read8
read_mark has_count room names skip rest =
    rw (is_mark skip) (ap (λ n. some ([], names, n, rest)) (number skip))
  where
    is_mark : (n : ℕ) → leb 65280 (n + 256 * 255) ≡ true
    is_mark n = ground arith

    number : (n : ℕ) → n + 256 * 255 - 65280 ≡ n
    number n = omega arith

abbrev pub as_list {ℓ} : {A : Type ℓ} → Option A → List A
as_list none = []
as_list (some x) = x ∷ []

-- The stack of a tile from the ground up, as far as the player sees it.
unfoldable pub stack : (ℕ → ItemType) → Viewer → Tile → List Thing
stack types v t =
    map (shown_item types) (as_list t.ground)
    ++ (map (shown_item types) t.top_items
        ++ (map (shown_creature types v) (seen_ones v (backwards t.creatures))
            ++ map (shown_item types) t.down_items))

module _ (s : Server) (has_count : ℕ → Bool) (readable : IsReadable s.types has_count) where
  ground_bytes-Steps :
      (o : Option TileItem) (names : Names)
      → Steps has_count names
          (ground_bytes s.types o).0
          (map (shown_item s.types) (as_list o))
          names
        × ((ground_bytes s.types o).1 ≡ length (as_list o))
  unfolding ground_bytes
  ground_bytes-Steps none names = (nil-Steps has_count names, refl)
  ground_bytes-Steps (some item) names = (step_item s has_count readable item names, refl)

  ground_bytes-count :
      (o : Option TileItem) → (ground_bytes s.types o).1 + (10 - (ground_bytes s.types o).1) ≡ 10
  unfolding ground_bytes
  ground_bytes-count none = refl
  ground_bytes-count (some item) = refl

  take-ground :
      (o : Option TileItem)
      → take 10 (map (shown_item s.types) (as_list o)) ≡ map (shown_item s.types) (as_list o)
  take-ground none = refl
  take-ground (some item) = refl

  -- The tests of the count cut the stack after ten things.
  cut :
      (t : Tile) (v : Viewer) (n : ℕ)
      → n ≡ length (as_list t.ground)
      → map (shown_item s.types) (as_list t.ground)
          ++ (take (10 - n) (map (shown_item s.types) t.top_items)
              ++ (take
                    (10 - n - length t.top_items)
                    (map (shown_creature s.types v) (seen_ones v (backwards t.creatures)))
                  ++ take
                      (10 - n - length t.top_items - length (seen_ones v (backwards t.creatures)))
                      (map (shown_item s.types) t.down_items)))
        ≡ take 10 (stack s.types v t)
  unfolding stack
  cut t v n h =
      let ground = map (shown_item s.types) (as_list t.ground) in
      let top = map (shown_item s.types) t.top_items in
      let seen = seen_ones v (backwards t.creatures) in
      let creatures = map (shown_creature s.types v) seen in
      let down = map (shown_item s.types) t.down_items in
      sym (
        take-append_any 10 ground (top ++ (creatures ++ down))
        ∙ ap (λ l. l ++ take (10 - length ground) (top ++ (creatures ++ down)))
            (take-ground t.ground)
        ∙ ap (λ m. ground ++ take (10 - m) (top ++ (creatures ++ down)))
            (length-map (shown_item s.types) (as_list t.ground) ∙ sym h)
        ∙ ap (λ l. ground ++ l)
            (take-append_any (10 - n) top (creatures ++ down)
              ∙ ap (λ m. take (10 - n) top ++ take (10 - n - m) (creatures ++ down))
                  (length-map (shown_item s.types) t.top_items)
              ∙ ap (λ l. take (10 - n) top ++ l)
                  (take-append_any (10 - n - length t.top_items) creatures down
                    ∙ ap
                        (λ m.
                          take (10 - n - length t.top_items) creatures
                          ++ take (10 - n - length t.top_items - m) down)
                        (length-map (shown_creature s.types v) seen))))

  tile_bytes-Steps :
      (v : Viewer) (name_of : ℕ → List ℕ) (t : Tile) (known : List ℕ) (names : Names)
      → AreCreatures name_of (backwards t.creatures)
      → Agrees name_of known names
      → (names' : Names) × Steps has_count names
          (tile_bytes s v t known).0
          (take 10 (stack s.types v t))
          names'
        × Agrees name_of (tile_bytes s v t known).1 names'
  unfolding tile_bytes
  tile_bytes-Steps v name_of t known names w a =
      let (ground, one) = ground_bytes-Steps t.ground names in
      let n = (ground_bytes s.types t.ground).1 in
      let k = 10 - n in
      let all = ground_bytes-count t.ground in
      let top = items_bytes-Steps s has_count readable t.top_items names n k all in
      let all' = items_bytes-count s has_count readable t.top_items n k all in
      let n' = (items_bytes s.types t.top_items n).1 in
      let k' = k - length t.top_items in
      let cs = backwards t.creatures in
      let (names', middle, a') =
        creatures_bytes-Steps s has_count readable v name_of cs known names n' k' all' w a in
      let all'' = creatures_bytes-count s has_count readable v cs known n' k' all' in
      let ground_bytes = (ground_bytes s.types t.ground).0 in
      let top_bytes = (items_bytes s.types t.top_items n).0 in
      let (bytes, known', n'') = creatures_bytes s v cs known n' in
      let k'' = k' - length (seen_ones v cs) in
      let down = items_bytes-Steps s has_count readable t.down_items names' n'' k'' all'' in
      let ms = append-Steps has_count in
      let ts = map (shown_item s.types) in
      let shown = map (shown_creature s.types v) (seen_ones v cs) in
      let down_bytes = (items_bytes s.types t.down_items n'').0 in
      let last =
        ms names names' names' bytes down_bytes (take k' shown) (take k'' (ts t.down_items)) middle
          down in
      (
        names',
        subst (λ l. Steps has_count names (tile_bytes s v t known).0 l names') (cut t v n one)
            (ms names names names' ground_bytes (top_bytes ++ (bytes ++ down_bytes))
              (ts (as_list t.ground))
              (take k (ts t.top_items) ++ (take k' shown ++ take k'' (ts t.down_items))) ground
              (ms names names names' top_bytes (bytes ++ down_bytes) (take k (ts t.top_items))
                (take k' shown ++ take k'' (ts t.down_items)) top last)),
        a',
      )

  -- A tile and the mark behind it are read as the first ten things of its stack.
  pub read_tile-tile_bytes :
      (v : Viewer) (name_of : ℕ → List ℕ) (t : Tile) (known : List ℕ) (names : Names)
      → AreCreatures name_of (backwards t.creatures)
      → Agrees name_of known names
      → (names' : Names) × Agrees name_of (tile_bytes s v t known).1 names'
        × ((skip : ℕ) (rest : List ℕ)
            → read_tile 11 has_count names ((tile_bytes s v t known).0 ++ (skip ∷ 255 ∷ rest))
              ≡ some (take 10 (stack s.types v t), names', skip, rest))
  read_tile-tile_bytes v name_of t known names w a =
      let (names', steps, a') = tile_bytes-Steps v name_of t known names w a in
      let things = take 10 (stack s.types v t) in
      (
        names',
        a',
        λ skip rest.
            let room = 10 - length things in
            ap
              (λ n. read_tile n has_count names ((tile_bytes s v t known).0 ++ (skip ∷ 255 ∷ rest)))
              (sym (
                with_room-eq things (suc room)
                ∙ eleven (length things) (length-take_le 10 (stack s.types v t))))
            ∙ steps (suc room) (skip ∷ 255 ∷ rest)
            ∙ ap (prepend things) (read_mark has_count room names' skip rest)
            ∙ prepend_lem things names' skip rest,
      )
