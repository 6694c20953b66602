-- ===== src/MapView/Format.antt =====
-- The calls of each function of MapView.antt have the bytes that MapView/Encoding.antt gives.
use theforgottenserver.Prelude.{
  ℕ, suc, ◌+◌, ◌/◌, ◌%◌, ◌≡◌, refl, sym, ap, ◌∙◌, Bool, true, false, not, ◌||◌, ◌&&◌, Option, none,
  some, List, [], ◌∷◌, ◌++◌, ◌==◌, if◌then◌else◌, length, append_assoc, append-nil, map, ◌<◌, subst,
  arith, inl, inr, Bool-cases, min,
}
use theforgottenserver.Network.Memory.{le_bytes}
use theforgottenserver.MapView.{
  Call, byte, word, string, ItemType, TileItem, fluid_map, add_item, add_outfit, add_looks,
  add_creature, no_outfit, get_map_description, map_positions, Server, Tile,
  check_creature_as_known, describe_ground, describe_items, describe_creatures, backwards,
  get_tile_description, skip_mark, is_full_skip, next_skip, Described, describe_cell,
  describe_cells,
}
use theforgottenserver.MapView.Seeing.{Creature, Outfit, Viewer, can_see_creature}
use theforgottenserver.MapView.Encoding.{
  word16, word32, string_bytes, item_bytes, outfit_bytes, looks_bytes, creature_bytes, ground_bytes,
  items_bytes, creatures_bytes, tile_bytes, mark_bytes, Encoded, cell_bytes, cells_bytes, map_bytes,
}
use theforgottenserver.Network.Message.{NetworkMessage, max_body_length}
use theforgottenserver.Network.Message.RoundTrip.{IsWriting, wrote}
use theforgottenserver.MapView.Written.{call_bytes, bytes_of, calls_lem}

bytes_of-append : (cs ds : List Call) → bytes_of (cs ++ ds) ≡ bytes_of cs ++ bytes_of ds
unfolding bytes_of
bytes_of-append [] ds = refl
bytes_of-append (c ∷ cs) ds =
    ap (λ l. call_bytes c ++ l) (bytes_of-append cs ds)
    ∙ sym (append_assoc (call_bytes c) (bytes_of cs) (bytes_of ds))

bytes_of-if :
    (b : Bool) (cs ds : List Call)
    → bytes_of (if b then cs else ds) ≡ (if b then bytes_of cs else bytes_of ds)
bytes_of-if true cs ds = refl
bytes_of-if false cs ds = refl

le_bytes-word32 : (n : ℕ) → le_bytes 4 n ≡ word32 n
unfolding le_bytes word32
le_bytes-word32 n =
    let e : n / 256 / 256 ≡ n / 65536 = omega arith in
    let e' : n / 65536 / 256 ≡ n / 16777216 = omega arith in rw (e, e') refl

add_item_lem :
    (types : ℕ → ItemType) (item : TileItem)
    → bytes_of (add_item types item) ≡ item_bytes types item
unfolding add_item item_bytes bytes_of call_bytes le_bytes word16
add_item_lem types item =
    let it = types item.type_id in
    let n = min 255 item.item_count in
    let f = fluid_map (item.sub_type % 8) in
    let b = it.is_splash || it.is_fluid_container in
    ap (λ l. word16 it.client_id ++ l)
      (bytes_of-if it.is_stackable (byte n ∷ []) (if b then byte f ∷ [] else [])
        ∙ ap (λ l. if it.is_stackable then n ∷ [] else l) (bytes_of-if b (byte f ∷ []) []))

add_outfit_lem :
    (types : ℕ → ItemType) (o : Outfit) → bytes_of (add_outfit types o) ≡ outfit_bytes types o
unfolding add_outfit outfit_bytes bytes_of call_bytes le_bytes word16
add_outfit_lem types o =
    ap (λ l. word16 o.look_type ++ l)
      (bytes_of-if (o.look_type == 0) (word 2 (types o.look_type_ex).client_id ∷ [])
        (byte o.look_head ∷ byte o.look_body ∷ byte o.look_legs ∷ byte o.look_feet ∷ []))

add_looks_lem :
    (types : ℕ → ItemType) (v : Viewer) (c : Creature)
    → bytes_of (add_looks types v c) ≡ looks_bytes types v c
unfolding add_looks looks_bytes bytes_of call_bytes le_bytes word16
add_looks_lem types v c =
    let o = if not c.is_in_ghost_mode && not c.is_invisible then c.outfit else no_outfit in
    let rest =
      byte (if v.is_access_player then 255 else c.light_level)
      ∷ byte c.light_color
      ∷ word 2 c.step_speed
      ∷ byte c.skull
      ∷ byte c.shield
      ∷ [] in
    ap (λ l. (if c.is_health_hidden then 0 else c.health_percent) ∷ c.direction ∷ l)
      (bytes_of-append (add_outfit types o) rest
        ∙ ap (λ l. l ++ bytes_of rest) (add_outfit_lem types o))

-- The two halves of a description, each with its bytes.
join :
    (cs ds : List Call) (xs ys : List ℕ)
    → bytes_of cs ≡ xs
    → bytes_of ds ≡ ys
    → bytes_of (cs ++ ds) ≡ xs ++ ys
join cs ds xs ys e f = bytes_of-append cs ds ∙ ap (λ l. l ++ bytes_of ds) e ∙ ap (λ l. xs ++ l) f

head_bytes :
    (known : Bool) (id remove : ℕ) (name : List ℕ)
    → bytes_of (
        if known
        then word 2 98 ∷ word 4 id ∷ []
        else word 2 97 ∷ word 4 remove ∷ word 4 id ∷ string name ∷ [])
      ≡ (if known
          then word16 98 ++ word32 id
          else word16 97 ++ (word32 remove ++ (word32 id ++ string_bytes name)))
unfolding bytes_of call_bytes string_bytes le_bytes word16
head_bytes true id remove name =
    ap (λ l. word16 98 ++ l) (append-nil (le_bytes 4 id) ∙ le_bytes-word32 id)
head_bytes false id remove name =
    ap (λ l. word16 97 ++ l)
      (ap (λ l. l ++ (le_bytes 4 id ++ (string_bytes name ++ []))) (le_bytes-word32 remove)
        ∙ ap (λ l. word32 remove ++ (l ++ (string_bytes name ++ []))) (le_bytes-word32 id)
        ∙ ap (λ l. word32 remove ++ (word32 id ++ l)) (append-nil (string_bytes name)))

add_creature_lem :
    (types : ℕ → ItemType) (v : Viewer) (c : Creature) (known : Bool) (remove : ℕ)
    → bytes_of (add_creature types v c known remove) ≡ creature_bytes types v c known remove
unfolding add_creature creature_bytes
add_creature_lem types v c known remove =
    join _ _ _ _ (head_bytes known c.id remove c.name) (add_looks_lem types v c)

-- The bytes of a description beside what else it gives.
abbrev coded {ℓ} : {A : Type ℓ} → List Call × A → List ℕ × A
coded r = (bytes_of r.0, r.1)

coded_behind {ℓ} :
    {A : Type ℓ} (cs : List Call) (xs : List ℕ) (r : List Call × A) (r' : List ℕ × A)
    → bytes_of cs ≡ xs
    → coded r ≡ r'
    → coded (cs ++ r.0, r.1) ≡ (xs ++ r'.0, r'.1)
coded_behind cs xs r r' e f =
    ap (λ l. (l, r.1)) (join cs r.0 xs (bytes_of r.0) e refl) ∙ ap (λ q. (xs ++ q.0, q.1)) f

abbrev coded_known : List Call × List ℕ × ℕ → List ℕ × List ℕ × ℕ
coded_known r = (bytes_of r.0, r.1, r.2)

describe_ground_lem :
    (types : ℕ → ItemType) (o : Option TileItem)
    → coded (describe_ground types o) ≡ ground_bytes types o
unfolding describe_ground ground_bytes bytes_of
describe_ground_lem types none = refl
describe_ground_lem types (some item) = ap (λ l. (l, 1)) (add_item_lem types item)

describe_items_lem :
    (types : ℕ → ItemType) (items : List TileItem) (count : ℕ)
    → coded (describe_items types items count) ≡ items_bytes types items count
unfolding describe_items items_bytes bytes_of
describe_items_lem types [] count = refl
describe_items_lem types (item ∷ rest) count = elim (Bool-cases (count == 10)) [
  | inl e ↦ rw e refl
  | inr e ↦ rw e (
      coded_behind (add_item types item) (item_bytes types item)
        (describe_items types rest (suc count)) (items_bytes types rest (suc count))
        (add_item_lem types item) (describe_items_lem types rest (suc count)))
]

describe_creatures_lem :
    (s : Server) (v : Viewer) (cs : List Creature) (known : List ℕ) (count : ℕ)
    → coded_known (describe_creatures s v cs known count) ≡ creatures_bytes s v cs known count
unfolding describe_creatures creatures_bytes bytes_of
describe_creatures_lem s v [] known count = refl
describe_creatures_lem s v (c ∷ rest) known count = elim (Bool-cases (count == 10)) [
  | inl e ↦ rw e refl
  | inr e ↦ elim (Bool-cases (not (can_see_creature v c))) [
    | inl f ↦ rw (e, f) (describe_creatures_lem s v rest known count)
    | inr f ↦
        let ch = check_creature_as_known s v c.id known in
        rw (e, f)
          (let r = describe_creatures s v rest ch.known_set (suc count) in
            let added = add_creature s.types v c ch.is_known ch.removed_known in
            let xs = creature_bytes s.types v c ch.is_known ch.removed_known in
            let e0 = add_creature_lem s.types v c ch.is_known ch.removed_known in
            ap {B = List ℕ × List ℕ × ℕ} (λ l. (l, r.1, r.2))
              (join added r.0 xs (bytes_of r.0) e0 refl)
            ∙ ap {B = List ℕ × List ℕ × ℕ} (λ q. (xs ++ q.0, q.1, q.2))
                (describe_creatures_lem s v rest ch.known_set (suc count)))
  ]
]

get_tile_description_lem :
    (s : Server) (v : Viewer) (t : Tile) (known : List ℕ)
    → coded (get_tile_description s v t known) ≡ tile_bytes s v t known
unfolding get_tile_description tile_bytes
get_tile_description_lem s v t known =
    let g = describe_ground s.types t.ground in
    let g' = ground_bytes s.types t.ground in
    let eg : coded g ≡ g' = describe_ground_lem s.types t.ground in
    let top = describe_items s.types t.top_items g.1 in
    let top' = items_bytes s.types t.top_items g'.1 in
    let et : coded top ≡ top' =
      describe_items_lem s.types t.top_items g.1
      ∙ ap (λ r. items_bytes s.types t.top_items r.1) eg in
    let c = describe_creatures s v (backwards t.creatures) known top.1 in
    let c' = creatures_bytes s v (backwards t.creatures) known top'.1 in
    let ec : coded_known c ≡ c' =
      describe_creatures_lem s v (backwards t.creatures) known top.1
      ∙ ap (λ r. creatures_bytes s v (backwards t.creatures) known r.1) et in
    let down = describe_items s.types t.down_items c.2 in
    let down' = items_bytes s.types t.down_items c'.2 in
    let ed : coded down ≡ down' =
      describe_items_lem s.types t.down_items c.2
      ∙ ap (λ r. items_bytes s.types t.down_items r.2) ec in
    let all' = g'.0 ++ (top'.0 ++ (c'.0 ++ down'.0)) in
    ap (λ l. (l, c.1))
      (join g.0 (top.0 ++ (c.0 ++ down.0)) g'.0 (top'.0 ++ (c'.0 ++ down'.0)) (ap (λ r. r.0) eg) (
        join top.0 (c.0 ++ down.0) top'.0 (c'.0 ++ down'.0) (ap (λ r. r.0) et)
          (join c.0 down.0 c'.0 down'.0 (ap (λ r. r.0) ec) (ap (λ r. r.0) ed))))
    ∙ ap (λ r. (all', r.1)) ec

pub skip_mark_lem : (skip : Option ℕ) → bytes_of (skip_mark skip) ≡ mark_bytes skip
unfolding skip_mark mark_bytes bytes_of call_bytes
skip_mark_lem none = refl
skip_mark_lem (some skip) = refl

abbrev pub coded_cell : Described → Encoded
coded_cell d = record { bytes = bytes_of d.added; known = d.known; skip = d.skip }

describe_cell_lem :
    (s : Server) (v : Viewer) (o : Option Tile) (known : List ℕ) (skip : Option ℕ)
    → coded_cell (describe_cell s v o known skip) ≡ cell_bytes s v o known skip
unfolding describe_cell cell_bytes bytes_of call_bytes
describe_cell_lem s v (some t) known skip =
    ap {B = Encoded} (λ r. record { bytes = r.0; known = r.1; skip = some 0 })
      (coded_behind (skip_mark skip) (mark_bytes skip) (get_tile_description s v t known)
        (tile_bytes s v t known) (skip_mark_lem skip) (get_tile_description_lem s v t known))
describe_cell_lem s v none known skip = described_gap (is_full_skip skip)
  where
    described_gap :
        (b : Bool)
        → coded_cell (
            if b
            then record { added = byte 255 ∷ byte 255 ∷ []; known = known; skip = none }
            else record { added = []; known = known; skip = next_skip skip })
          ≡ (if b
              then record { bytes = 255 ∷ 255 ∷ []; known = known; skip = none }
              else record { bytes = []; known = known; skip = next_skip skip })
    described_gap true = refl
    described_gap false = refl

pub describe_cells_lem :
    (s : Server) (v : Viewer) (cells : List (Option Tile)) (known : List ℕ) (skip : Option ℕ)
    → coded_cell (describe_cells s v cells known skip) ≡ cells_bytes s v cells known skip
unfolding describe_cells cells_bytes bytes_of
describe_cells_lem s v [] known skip = refl
describe_cells_lem s v (cell ∷ cells) known skip =
    let first = describe_cell s v cell known skip in
    let first' = cell_bytes s v cell known skip in
    let ef : coded_cell first ≡ first' = describe_cell_lem s v cell known skip in
    let rest = describe_cells s v cells first.known first.skip in
    let rest' = cells_bytes s v cells first'.known first'.skip in
    let er : coded_cell rest ≡ rest' =
      describe_cells_lem s v cells first.known first.skip
      ∙ ap (λ f. cells_bytes s v cells f.known f.skip) ef in
    ap {B = Encoded} (λ l. record { bytes = l; known = rest.known; skip = rest.skip })
      (join first.added rest.added first'.bytes (bytes_of rest.added) (ap (λ f. f.bytes) ef) refl)
    ∙ ap {A = Encoded} {B = Encoded}
        (λ r. record { bytes = first'.bytes ++ r.bytes; known = r.known; skip = r.skip }) er

-- A description that fits is written whole.
pub get_map_description_lem :
    (s : Server) (v : Viewer) (x y z width height : ℕ) (known : List ℕ) (m : NetworkMessage)
    → IsWriting m
    → m.position + length (map_bytes s v x y z width height known).0 < max_body_length
    → get_map_description s v x y z width height known m ≡ (
      wrote (map_bytes s v x y z width height known).0 m,
      (map_bytes s v x y z width height known).1,
    )
unfolding get_map_description map_bytes
get_map_description_lem s v x y z width height known m w h =
    let cells : List (Option Tile) =
      map (λ p. s.get_tile p.x p.y p.z) (map_positions x y z width height) in
    let d = describe_cells s v cells known none in
    let e = cells_bytes s v cells known none in
    let same : coded_cell d ≡ e = describe_cells_lem s v cells known none in
    let cs = d.added ++ skip_mark d.skip in
    let bytes : bytes_of cs ≡ e.bytes ++ mark_bytes e.skip =
      join d.added (skip_mark d.skip) e.bytes (mark_bytes e.skip) (ap (λ f. f.bytes) same)
        (skip_mark_lem d.skip ∙ ap (λ f. mark_bytes f.skip) same) in
    ap (λ n. (n, d.known))
      (calls_lem cs m w (subst (λ l. m.position + length l < max_body_length) (sym bytes) h)
        ∙ ap (λ l. wrote l m) bytes)
    ∙ ap (λ f. (wrote (e.bytes ++ mark_bytes e.skip) m, f.known)) same
