-- ===== src/MapView/Bytes.antt =====
-- Words, strings, items and creatures are read back as they were written.
use theforgottenserver.Prelude.{
  ℕ, zero, suc, ◌+◌, ◌*◌, ◌/◌, ◌%◌, ◌^◌, ◌≤◌, ◌<◌, ◌≡◌, refl, ap, ◌∙◌, Bool, true, false, not, ◌||◌,
  ◌&&◌, none, some, List, [], ◌∷◌, ◌++◌, append_assoc, ◌==◌, ltb, leb, if◌then◌else◌, length, arith,
  length-append, take-append, drop-append, min, ne→==,
}
use theforgottenserver.MapView.{ItemType, TileItem, fluid_map, no_outfit}
use theforgottenserver.MapView.Encoding.{
  word16, word32, string_bytes, item_bytes, outfit_bytes, looks_bytes,
}
use theforgottenserver.MapView.Seeing.{Creature, Outfit, Viewer}
use theforgottenserver.MapView.Reading.{
  read8, read16, read32, read_chars, read_string, Shape, outfit_shape, item_shape, Looks, Thing,
  item_thing, Names, read_shape, read_shape_of, read_looks, read_item, read_thing,
}

pub read16-word16 : (n : ℕ) (rest : List ℕ) → n < 65536 → read16 (word16 n ++ rest) ≡ some (n, rest)
unfolding read16 word16 read8
read16-word16 n rest h = ap (λ k. some (k, rest)) (fits n h)
  where
    fits : (n : ℕ) → n < 65536 → n % 256 + 256 * (n / 256 % 256) ≡ n
    fits n h = omega arith

pub read32-word32 :
    (n : ℕ) (rest : List ℕ) → n < 2 ^ 32 → read32 (word32 n ++ rest) ≡ some (n, rest)
unfolding read32 read16 word32 read8
read32-word32 n rest h = ap (λ k. some (k, rest)) (fits n h)
  where
    fits :
        (n : ℕ)
        → n < 2 ^ 32
        → n % 256 + 256 * (n / 256 % 256) + 65536 * (n / 65536 % 256 + 256 * (n / 16777216 % 256))
          ≡ n
    fits n h = omega arith

read_chars-append : (s rest : List ℕ) → read_chars (length s) (s ++ rest) ≡ some (s, rest)
unfolding read_chars
read_chars-append s rest =
    rw (enough (length s) (length (s ++ rest)) (length-append s rest))
      (λ k. some (take-append s rest (length s) refl k, drop-append s rest (length s) refl k))
  where
    enough : (n m : ℕ) → m ≡ n + length rest → leb n m ≡ true
    enough n m e = ground arith

pub read_string-string_bytes :
    (s rest : List ℕ) → length s ≤ 8192 → read_string (string_bytes s ++ rest) ≡ some (s, rest)
unfolding read_string string_bytes
read_string-string_bytes s rest h = rw (fits (length s) h) (
    ap read_string (append_assoc (word16 (length s)) s rest)
    ∙ rw (read16-word16 (length s) (s ++ rest) (omega (arith, h))) (read_chars-append s rest))
  where
    fits : (n : ℕ) → n ≤ 8192 → ltb 8192 n ≡ false
    fits n h = ground arith

-- What the code relies on in the table of items: the client knows which types have a count, and the
-- numbers of types are neither marks nor those of creatures.
pub record IsReadable (types : ℕ → ItemType) (has_count : ℕ → Bool) : Type 0 where
  pub below_marks : (i : ℕ) → (types i).client_id < 65280
  pub no_creature :
      (i : ℕ) → ((types i).client_id == 97 ≡ false) × ((types i).client_id == 98 ≡ false)
  pub counted :
      (i : ℕ)
      → has_count (types i).client_id
        ≡ ((types i).is_stackable || (types i).is_splash || (types i).is_fluid_container)

-- What a client is to see of an item, and of the looks of a creature.
unfoldable pub shown_item : (ℕ → ItemType) → TileItem → Thing
shown_item types item =
    let it = types item.type_id in
    item_thing it.client_id (
      if it.is_stackable
      then some (min 255 item.item_count)
      else if it.is_splash || it.is_fluid_container
      then some (fluid_map (item.sub_type % 8))
      else none)

unfoldable pub shown_shape : (ℕ → ItemType) → Outfit → Shape
shown_shape types o =
    if o.look_type == 0
    then item_shape (types o.look_type_ex).client_id
    else outfit_shape o.look_type o.look_head o.look_body o.look_legs o.look_feet

unfoldable pub shown_looks : (ℕ → ItemType) → Viewer → Creature → Looks
shown_looks types v c = record {
  health = if c.is_health_hidden then 0 else c.health_percent;
  direction = c.direction;
  shape =
      shown_shape types
        (if not c.is_in_ghost_mode && not c.is_invisible then c.outfit else no_outfit);
  light_level = if v.is_access_player then 255 else c.light_level;
  light_color = c.light_color;
  speed = c.step_speed;
  skull = c.skull;
  shield = c.shield;
}

worn :
    (b : Bool) (o : Outfit) → o.look_type < 65536 → (if b then o else no_outfit).look_type < 65536
worn true o h = h
worn false o h = omega arith

read_item_lem :
    (stackable splash fluid : Bool) (count kind tag : ℕ) (names : Names) (rest : List ℕ)
    → read_item
        (stackable || splash || fluid)
        tag
        names
        ((if stackable then count ∷ [] else if splash || fluid then kind ∷ [] else []) ++ rest)
      ≡ some (
        item_thing tag
            (if stackable then some count else if splash || fluid then some kind else none),
        names,
        rest,
      )
unfolding read_item read8
read_item_lem true splash fluid count kind tag names rest = refl
read_item_lem false true fluid count kind tag names rest = refl
read_item_lem false false true count kind tag names rest = refl
read_item_lem false false false count kind tag names rest = refl

module _ (types : ℕ → ItemType) (has_count : ℕ → Bool) (readable : IsReadable types has_count) where
  shape_of :
      (t : ℕ) (o : Outfit) (rest : List ℕ)
      → read_shape_of t (
          (if t == 0
            then word16 (types o.look_type_ex).client_id
            else o.look_head ∷ o.look_body ∷ o.look_legs ∷ o.look_feet ∷ [])
          ++ rest)
        ≡ some (
          (if t == 0
              then item_shape (types o.look_type_ex).client_id
              else outfit_shape t o.look_head o.look_body o.look_legs o.look_feet),
          rest,
        )
  unfolding read_shape_of read8
  shape_of zero o rest =
      rw
        (read16-word16 (types o.look_type_ex).client_id rest
          (omega (arith, readable.below_marks o.look_type_ex)))
        refl
  shape_of (suc t) o rest = rw (ne→== (suc t) 0 (λ e. omega arith)) refl

  read_shape-outfit_bytes :
      (o : Outfit) (rest : List ℕ)
      → o.look_type < 65536
      → read_shape (outfit_bytes types o ++ rest) ≡ some (shown_shape types o, rest)
  unfolding read_shape outfit_bytes shown_shape
  read_shape-outfit_bytes o rest h =
      let x =
        if o.look_type == 0
        then word16 (types o.look_type_ex).client_id
        else o.look_head ∷ o.look_body ∷ o.look_legs ∷ o.look_feet ∷ [] in
      ap read_shape (append_assoc (word16 o.look_type) x rest)
      ∙ rw (read16-word16 o.look_type (x ++ rest) h) (shape_of o.look_type o rest)

  -- The numbers of an outfit have 16 bits.
  pub read_looks-looks_bytes :
      (v : Viewer) (c : Creature) (rest : List ℕ)
      → c.outfit.look_type < 65536
      → c.step_speed < 65536
      → read_looks (looks_bytes types v c ++ rest) ≡ some (shown_looks types v c, rest)
  unfolding read_looks looks_bytes shown_looks read8
  read_looks-looks_bytes v c rest h hs =
      let o = if not c.is_in_ghost_mode && not c.is_invisible then c.outfit else no_outfit in
      let light = if v.is_access_player then 255 else c.light_level in
      let after = light ∷ c.light_color ∷ (word16 c.step_speed ++ (c.skull ∷ c.shield ∷ [])) in
      rw (append_assoc (outfit_bytes types o) after rest) (
        rw
          (read_shape-outfit_bytes o (after ++ rest)
            (worn (not c.is_in_ghost_mode && not c.is_invisible) c.outfit h))
          (rw (append_assoc (word16 c.step_speed) (c.skull ∷ c.shield ∷ []) rest)
            (rw (read16-word16 c.step_speed (c.skull ∷ c.shield ∷ rest) hs) refl)))

  -- An item is read back.
  pub read_thing-item_bytes :
      (item : TileItem) (names : Names) (rest : List ℕ)
      → (tag : ℕ) × (more : List ℕ) × (read16 (item_bytes types item ++ rest) ≡ some (tag, more))
        × (leb 65280 tag ≡ false)
        × (read_thing has_count tag names more ≡ some (shown_item types item, names, rest))
  unfolding item_bytes read_thing shown_item
  read_thing-item_bytes item names rest =
      let it = types item.type_id in
      let (no_new, no_known) = readable.no_creature item.type_id in
      let kind = fluid_map (item.sub_type % 8) in
      let x =
        if it.is_stackable
        then min 255 item.item_count ∷ []
        else if it.is_splash || it.is_fluid_container
        then kind ∷ []
        else [] in
      let below = readable.below_marks item.type_id in
      (
        it.client_id,
        x ++ rest,
        ap read16 (append_assoc (word16 it.client_id) x rest)
            ∙ read16-word16 it.client_id (x ++ rest) (omega arith),
        ground arith,
        rw (no_new, no_known, readable.counted item.type_id)
            (read_item_lem it.is_stackable it.is_splash it.is_fluid_container
              (min 255 item.item_count) kind it.client_id names rest),
      )
