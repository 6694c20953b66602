-- ===== src/MapView/Client.antt =====
-- A client that reads the description of a map sees what the server has sent it.
use theforgottenserver.Prelude.{
  ℕ, suc, ◌+◌, ◌-◌, ◌<◌, arith, ◌≡◌, refl, sym, ap, ◌∙◌, Bool, Option, none, some, List, [], ◌∷◌,
  ◌++◌, map, length,
}
use theforgottenserver.Network.Message.{Position, NetworkMessage, max_body_length}
use theforgottenserver.Network.Memory.{load_bytes, load_bytes-store_bytes}
use theforgottenserver.Network.Message.RoundTrip.{IsWriting}
use theforgottenserver.MapView.Format.{get_map_description_lem}
use theforgottenserver.MapView.{Server, Tile, backwards, map_positions, get_map_description}
use theforgottenserver.MapView.Encoding.{cells_bytes, map_bytes}
use theforgottenserver.MapView.Seeing.{Creature, Viewer}
use theforgottenserver.MapView.Reading.{Thing, Names, read_tiles}
use theforgottenserver.MapView.Bytes.{IsReadable}
use theforgottenserver.MapView.Creatures.{IsCreature, Agrees}
use theforgottenserver.MapView.Tiles.{AreCreatures}
use theforgottenserver.MapView.RoundTrip.{shown_cell, AreTiles, read_tiles-cells_bytes}

-- The creatures of the map are well-formed, and each id gives a name.
pub record IsMap (name_of : ℕ → List ℕ) (s : Server) : Type 0 where
  pub creatures_of :
      (x y z : ℕ) (t : Tile) → s.get_tile x y z ≡ some t → AreCreatures name_of t.creatures

snoc-AreCreatures :
    (name_of : ℕ → List ℕ) (cs : List Creature) (c : Creature)
    → AreCreatures name_of cs
    → IsCreature name_of c
    → AreCreatures name_of (cs ++ (c ∷ []))
unfolding AreCreatures
snoc-AreCreatures name_of [] c h w = (w, tt)
snoc-AreCreatures name_of (d ∷ cs) c (h, hs) w = (h, snoc-AreCreatures name_of cs c hs w)

backwards-AreCreatures :
    (name_of : ℕ → List ℕ) (cs : List Creature)
    → AreCreatures name_of cs
    → AreCreatures name_of (backwards cs)
unfolding backwards AreCreatures
backwards-AreCreatures name_of [] h = tt
backwards-AreCreatures name_of (c ∷ cs) (h, hs) =
    snoc-AreCreatures name_of (backwards cs) c (backwards-AreCreatures name_of cs hs) h

-- The tiles at some positions.
abbrev pub tiles_at : Server → List Position → List (Option Tile)
tiles_at s positions = map (λ p. s.get_tile p.x p.y p.z) positions

-- What a client is to see of a position.
abbrev pub shown_at : Server → Viewer → Position → List Thing
shown_at s v p = shown_cell s.types v (s.get_tile p.x p.y p.z)

cons-AreTiles :
    (name_of : ℕ → List ℕ) (o : Option Tile) (cells : List (Option Tile))
    → ((t : Tile) → o ≡ some t → AreCreatures name_of t.creatures)
    → AreTiles name_of cells
    → AreTiles name_of (o ∷ cells)
unfolding AreTiles
cons-AreTiles name_of none cells h hs = hs
cons-AreTiles name_of (some t) cells h hs =
    (backwards-AreCreatures name_of t.creatures (h t refl), hs)

tiles_at-AreTiles :
    (name_of : ℕ → List ℕ) (s : Server) (positions : List Position)
    → IsMap name_of s
    → AreTiles name_of (tiles_at s positions)
unfolding AreTiles
tiles_at-AreTiles name_of s [] m = tt
tiles_at-AreTiles name_of s (p ∷ ps) m =
    cons-AreTiles name_of (s.get_tile p.x p.y p.z) (tiles_at s ps) (m.creatures_of p.x p.y p.z)
      (tiles_at-AreTiles name_of s ps m)

length-tiles_at :
    (s : Server) (positions : List Position) → length (tiles_at s positions) ≡ length positions
length-tiles_at s [] = refl
length-tiles_at s (p ∷ ps) = ap suc (length-tiles_at s ps)

map-tiles_at :
    (s : Server) (v : Viewer) (positions : List Position)
    → map (shown_cell s.types v) (tiles_at s positions) ≡ map (shown_at s v) positions
map-tiles_at s v [] = refl
map-tiles_at s v (p ∷ ps) = ap (λ l. shown_at s v p ∷ l) (map-tiles_at s v ps)

-- The same of the bytes themselves.
read_tiles-map_bytes :
    (s : Server) (has_count : ℕ → Bool) (v : Viewer) (name_of : ℕ → List ℕ) (x y z width height : ℕ)
    (known : List ℕ) (names : Names)
    → IsReadable s.types has_count
    → IsMap name_of s
    → Agrees name_of known names
    → (let (bytes, known') = map_bytes s v x y z width height known in
        let positions = map_positions x y z width height in
        (names' : Names) × Agrees name_of known' names'
        × ((tail : List ℕ)
            → read_tiles (length positions) 0 has_count names (bytes ++ tail)
              ≡ some (map (shown_at s v) positions, names', tail)))
unfolding map_bytes
read_tiles-map_bytes s has_count v name_of x y z width height known names readable m a =
    let positions = map_positions x y z width height in
    let (names', a', f) =
      read_tiles-cells_bytes s has_count readable v name_of (tiles_at s positions) known names
        (tiles_at-AreTiles name_of s positions m) a in
    let described = cells_bytes s v (tiles_at s positions) known none in
    (
      names',
      a',
      λ tail.
          ap
            (λ n.
              read_tiles n 0 has_count names ((map_bytes s v x y z width height known).0 ++ tail))
            (sym (length-tiles_at s positions))
          ∙ f tail
          ∙ ap (λ l. some (l, names', tail)) (map-tiles_at s v positions),
    )

-- A client that reads a description of a map, in which each tile is a row of things up to a mark that
-- says how many tiles to skip, from the message it is written to, finds at each position of the
-- description the first ten things of the stack of its tile that the player sees, from the ground up,
-- each creature with its name, and nothing where there is no tile; it leaves what follows. It is left
-- with the names of the creatures that the server then takes as known. This is so if the message is
-- being written and has room for the whole description; if the table of items gives no item the number
-- of a mark or of a creature, and the client knows which items have a count; if the creatures of the
-- map have an id other than 0 that gives their name, a name of at most 8192 bytes, and numbers that
-- fit their widths; and if the client has the names of all creatures that the server takes as known,
-- at most 150 of them and none with the id 0.
pub read_tiles-get_map_description :
    (s : Server) (has_count : ℕ → Bool) (v : Viewer) (name_of : ℕ → List ℕ) (x y z width height : ℕ)
    (known : List ℕ) (names : Names) (m : NetworkMessage)
    → IsWriting m
    → m.position + length (map_bytes s v x y z width height known).0 < max_body_length
    → IsReadable s.types has_count
    → IsMap name_of s
    → Agrees name_of known names
    → (let (m', known') = get_map_description s v x y z width height known m in
        let sent = load_bytes m'.buffer m.position (m'.position - m.position) in
        let positions = map_positions x y z width height in
        (names' : Names) × Agrees name_of known' names'
        × ((tail : List ℕ)
            → read_tiles (length positions) 0 has_count names (sent ++ tail)
              ≡ some (map (shown_at s v) positions, names', tail)))
read_tiles-get_map_description s has_count v name_of x y z width height known names m w fits
      readable map_ok a =
    let b = (map_bytes s v x y z width height known).0 in
    let n : m.position + length b - m.position ≡ length b = omega arith in
    rw
      (
        get_map_description_lem s v x y z width height known m w fits,
        n,
        load_bytes-store_bytes m.buffer m.position b,
      )
      (read_tiles-map_bytes s has_count v name_of x y z width height known names readable map_ok a)
