-- ===== src/MapView/RoundTrip.antt =====
-- A client that reads the description of a map sees what the server has sent it.
use theforgottenserver.Prelude.{
  ℕ, suc, ◌-◌, ◌≤◌, ◌≡◌, refl, sym, ◌∙◌, Bool, true, false, Option, none, some, List, [], ◌∷◌, ◌++◌,
  map, append_assoc, ◌==◌, length, take, inl, inr, Bool-cases, arith, subst, ==→eq,
}
use theforgottenserver.MapView.{ItemType, Server, Tile, backwards, is_full_skip, next_skip}
use theforgottenserver.MapView.Encoding.{tile_bytes, mark_bytes, cell_bytes, cells_bytes}
use theforgottenserver.MapView.Seeing.{Viewer}
use theforgottenserver.MapView.Reading.{Thing, Names, read_tile, read_tiles}
use theforgottenserver.MapView.Bytes.{IsReadable}
use theforgottenserver.MapView.Creatures.{Agrees}
use theforgottenserver.MapView.Tiles.{AreCreatures}
use theforgottenserver.MapView.Stack.{stack, read_mark, read_tile-tile_bytes}

-- What a client is to see of a cell of the view: the first ten things of the stack of its tile.
unfoldable pub shown_cell : (ℕ → ItemType) → Viewer → Option Tile → List Thing
shown_cell types v none = []
shown_cell types v (some t) = take 10 (stack types v t)

unfoldable pub AreTiles : (ℕ → List ℕ) → List (Option Tile) → Type 0
AreTiles name_of [] = Unit
AreTiles name_of (none ∷ cells) = AreTiles name_of cells
AreTiles name_of (some t ∷ cells) =
    AreCreatures name_of (backwards t.creatures) × AreTiles name_of cells

module _ (s : Server) (v : Viewer) where
  -- The bytes of some cells with the mark behind them.
  out : List (Option Tile) → List ℕ → Option ℕ → List ℕ
  out cells known skip =
      (cells_bytes s v cells known skip).bytes ++ mark_bytes (cells_bytes s v cells known skip).skip

  out-cons :
      (cell : Option Tile) (cells : List (Option Tile)) (known : List ℕ) (skip : Option ℕ)
      → out (cell ∷ cells) known skip
        ≡ (cell_bytes s v cell known skip).bytes
          ++ out cells (cell_bytes s v cell known skip).known (cell_bytes s v cell known skip).skip
  unfolding out cells_bytes
  out-cons cell cells known skip =
      let first = cell_bytes s v cell known skip in
      let rest = cells_bytes s v cells first.known first.skip in
      append_assoc first.bytes rest.bytes (mark_bytes rest.skip)

module _ (s : Server) (has_count : ℕ → Bool) (readable : IsReadable s.types has_count) (v : Viewer)
    (name_of : ℕ → List ℕ) where
  -- The cells are read off the bytes, some of them being skipped, and then these names are known.
  IsReadOff : List (Option Tile) → ℕ → Names → List ℕ → Names → Type 0
  IsReadOff cells skip names bytes names' =
      (tail : List ℕ)
      → read_tiles (length cells) skip has_count names (bytes ++ tail)
        ≡ some (map (shown_cell s.types v) cells, names', tail)

  -- What holds of the bytes, when so many tiles are to be skipped.
  IsGood : List (Option Tile) → List ℕ → Names → Option ℕ → Names → Type 0
  IsGood cells known names none names' = IsReadOff cells 0 names (out s v cells known none) names'
  IsGood cells known names (some n) names' =
      (m : ℕ) × (bytes : List ℕ) × (out s v cells known (some n) ≡ m ∷ 255 ∷ bytes)
      × (n ≤ m)
      × IsReadOff cells (m - n) names bytes names'

  IsSent : List (Option Tile) → List ℕ → Names → Option ℕ → Type 0
  IsSent cells known names skip =
      (names' : Names) × Agrees name_of (cells_bytes s v cells known skip).known names'
      × IsGood cells known names skip names'

  Fits : Option ℕ → Type 0
  Fits none = Unit
  Fits (some n) = n ≤ 254

  -- A tile, the mark behind it, and the cells behind the mark.
  read_first :
      (cell : Option Tile) (cells : List (Option Tile)) (things : List ℕ) (m : ℕ) (bytes : List ℕ)
      (names names' names'' : Names)
      → ((rest : List ℕ)
          → read_tile 11 has_count names (things ++ (m ∷ 255 ∷ rest))
            ≡ some (shown_cell s.types v cell, names', m, rest))
      → IsReadOff cells m names' bytes names''
      → IsReadOff (cell ∷ cells) 0 names (things ++ (m ∷ 255 ∷ bytes)) names''
  unfolding IsReadOff read_tiles
  read_first cell cells things m bytes names names' names'' f g tail =
      rw (append_assoc things (m ∷ 255 ∷ bytes) tail) (rw (f (bytes ++ tail)) (rw (g tail) refl))

  -- A tile that is skipped.
  read_skipped :
      (cells : List (Option Tile)) (k : ℕ) (bytes : List ℕ) (names names' : Names)
      → IsReadOff cells k names bytes names'
      → IsReadOff (none ∷ cells) (suc k) names bytes names'
  unfolding IsReadOff read_tiles shown_cell
  read_skipped cells k bytes names names' g tail = rw (g tail) refl

  -- The mark of an empty tile.
  read_empty :
      (cells : List (Option Tile)) (m : ℕ) (bytes : List ℕ) (names names' : Names)
      → IsReadOff cells m names bytes names'
      → IsReadOff (none ∷ cells) 0 names (m ∷ 255 ∷ bytes) names'
  unfolding shown_cell
  read_empty cells m bytes names names' g =
      read_first none cells [] m bytes names names names'
        (λ rest. read_mark has_count 10 names m rest) g

  good_start :
      (cells : List (Option Tile)) (known : List ℕ) (names : Names)
      → IsSent cells known names (some 0)
      → IsSent (none ∷ cells) known names none
  unfolding IsSent IsGood cells_bytes cell_bytes is_full_skip next_skip
  good_start cells known names (names', a, (m, bytes, e, h, r)) = (
    names',
    a,
    subst (λ b. IsReadOff (none ∷ cells) 0 names b names')
        (sym (out-cons s v none cells known none ∙ e))
        (read_empty cells m bytes names names'
          (subst (λ k. IsReadOff cells k names bytes names') (omega arith) r)),
  )

  good_full :
      (cells : List (Option Tile)) (known : List ℕ) (names : Names) (n : ℕ)
      → n ≡ 254
      → IsSent cells known names none
      → IsSent (none ∷ cells) known names (some n)
  unfolding IsSent IsGood cells_bytes cell_bytes is_full_skip
  good_full cells known names n e (names', a, r) = (
    names',
    rw (is_full_at e) a,
    (
      255,
      out s v cells known none,
      out-cons s v none cells known (some n) ∙ rw (is_full_at e) refl,
      omega (arith, e),
      subst (λ k. IsReadOff (none ∷ cells) k names (out s v cells known none) names') (one_left e)
          (read_skipped cells 0 (out s v cells known none) names names' r),
    ),
  )
    where
      is_full_at : n ≡ 254 → (n == 254) ≡ true
      is_full_at e = ground arith

      one_left : n ≡ 254 → 1 ≡ 255 - n
      one_left e = omega (arith, e)

  good_next :
      (cells : List (Option Tile)) (known : List ℕ) (names : Names) (n : ℕ)
      → (n == 254) ≡ false
      → IsSent cells known names (some (suc n))
      → IsSent (none ∷ cells) known names (some n)
  unfolding IsSent IsGood cells_bytes cell_bytes is_full_skip next_skip
  good_next cells known names n e (names', a, (m, bytes, f, h, r)) = (
    names',
    rw e a,
    (
      m,
      bytes,
      out-cons s v none cells known (some n) ∙ rw e f,
      omega (arith, h),
      subst (λ k. IsReadOff (none ∷ cells) k names bytes names') (one_less m n h)
          (read_skipped cells (m - suc n) bytes names names' r),
    ),
  )
    where
      one_less : (m n : ℕ) → suc n ≤ m → suc (m - suc n) ≡ m - n
      one_less m n h = omega (arith, h)

  module _ (t : Tile) (cells : List (Option Tile)) (known : List ℕ) (names : Names)
      (w : AreCreatures name_of (backwards t.creatures)) (a : Agrees name_of known names)
      (ih : (names1 : Names)
        → Agrees name_of (tile_bytes s v t known).1 names1
        → IsSent cells (tile_bytes s v t known).1 names1 (some 0)) where
    -- The tile of a cell, with the cells behind it.
    tile_read :
        (names' : Names) × Agrees name_of
          (cells_bytes s v cells (tile_bytes s v t known).1 (some 0)).known
          names'
        × IsReadOff
            (some t ∷ cells)
            0
            names
            ((tile_bytes s v t known).0 ++ out s v cells (tile_bytes s v t known).1 (some 0))
            names'
    unfolding IsSent IsGood shown_cell
    tile_read =
        let (names1, a1, f) =
          read_tile-tile_bytes s has_count readable v name_of t known names w a in
        let (names', a', (m, bytes, e, h, r)) = ih names1 a1 in
        let things = (tile_bytes s v t known).0 in
        (
          names',
          a',
          subst (λ b. IsReadOff (some t ∷ cells) 0 names (things ++ b) names') (sym e)
              (read_first (some t) cells things m bytes names names1 names' (λ rest. f m rest)
                (subst (λ k. IsReadOff cells k names1 bytes names') (omega arith) r)),
        )

    good_tile : (skip : Option ℕ) → IsSent (some t ∷ cells) known names skip
    unfolding IsSent IsGood cells_bytes cell_bytes mark_bytes
    good_tile none =
        let (names', a', r) = tile_read in
        (
          names',
          a',
          subst (λ b. IsReadOff (some t ∷ cells) 0 names b names')
              (sym (out-cons s v (some t) cells known none)) r,
        )
    good_tile (some n) =
        let (names', a', r) = tile_read in
        let things = (tile_bytes s v t known).0 in
        let rest = out s v cells (tile_bytes s v t known).1 (some 0) in
        (
          names',
          a',
          (
            n,
            things ++ rest,
            out-cons s v (some t) cells known (some n),
            omega arith,
            subst (λ k. IsReadOff (some t ∷ cells) k names (things ++ rest) names') (omega arith) r,
          ),
        )

  good_end :
      (known : List ℕ) (names : Names) (skip : Option ℕ)
      → Agrees name_of known names
      → IsSent [] known names skip
  unfolding IsSent IsGood IsReadOff out cells_bytes mark_bytes read_tiles
  good_end known names none a = (names, a, λ tail. refl)
  good_end known names (some n) a = (names, a, (n, [], refl, omega arith, λ tail. refl))

  cells_bytes-IsSent :
      (cells : List (Option Tile)) (known : List ℕ) (names : Names) (skip : Option ℕ)
      → Fits skip
      → AreTiles name_of cells
      → Agrees name_of known names
      → IsSent cells known names skip
  unfolding AreTiles Fits
  cells_bytes-IsSent [] known names skip h w a = good_end known names skip a
  cells_bytes-IsSent (some t ∷ cells) known names skip h (w, ws) a =
      good_tile t cells known names w a
        (λ names1 a1.
          cells_bytes-IsSent cells (tile_bytes s v t known).1 names1 (some 0) (omega arith) ws a1)
        skip
  cells_bytes-IsSent (none ∷ cells) known names none h ws a =
      good_start cells known names
        (cells_bytes-IsSent cells known names (some 0) (omega arith) ws a)
  cells_bytes-IsSent (none ∷ cells) known names (some n) h ws a = elim (Bool-cases (n == 254)) [
    | inl e ↦
        good_full cells known names n (==→eq n 254 e)
          (cells_bytes-IsSent cells known names none tt ws a)
    | inr e ↦
        good_next cells known names n e
          (cells_bytes-IsSent cells known names (some (suc n)) (below n h e) ws a)
  ]
    where
      below : (n : ℕ) → n ≤ 254 → (n == 254) ≡ false → suc n ≤ 254
      below n h e = ground arith

  -- Cells are read as they are shown.
  pub read_tiles-cells_bytes :
      (cells : List (Option Tile)) (known : List ℕ) (names : Names)
      → AreTiles name_of cells
      → Agrees name_of known names
      → (let described = cells_bytes s v cells known none in
          (names' : Names) × Agrees name_of described.known names'
          × ((tail : List ℕ)
              → read_tiles
                  (length cells)
                  0
                  has_count
                  names
                  ((described.bytes ++ mark_bytes described.skip) ++ tail)
                ≡ some (map (shown_cell s.types v) cells, names', tail)))
  unfolding IsSent IsGood IsReadOff out Fits
  read_tiles-cells_bytes cells known names w a = cells_bytes-IsSent cells known names none tt w a
