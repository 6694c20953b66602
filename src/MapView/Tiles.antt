-- ===== src/MapView/Tiles.antt =====
-- A tile is read back as the first ten of its things, in the order of the stack.
use theforgottenserver.Prelude.{
  ℕ, zero, suc, ◌+◌, ◌-◌, ◌≡◌, refl, sym, ap, ◌∙◌, Bool, true, false, Option, none, some, List, [],
  ◌∷◌, ◌++◌, map, append_assoc, ◌==◌, leb, if◌then◌else◌, length, take, ◌>>=◌, inl, inr, Bool-cases,
  arith, ==→eq,
}
use theforgottenserver.MapView.{TileItem, Server, check_creature_as_known}
use theforgottenserver.MapView.Encoding.{item_bytes, creature_bytes, items_bytes, creatures_bytes}
use theforgottenserver.MapView.Seeing.{Creature, Viewer, can_see_creature}
use theforgottenserver.MapView.Reading.{read16, Thing, Names, read_thing, read_tile}
use theforgottenserver.MapView.Bytes.{IsReadable, shown_item, read_thing-item_bytes}
use theforgottenserver.MapView.Creatures.{
  shown_creature, IsCreature, Agrees, names_after, read_thing-creature_bytes, names_after-Agrees,
  removed_known-lt, known_by_name,
}

abbrev pub Result : Type 0
Result = Option (List Thing × Names × ℕ × List ℕ)

unfoldable pub prepend : List Thing → Result → Result
prepend things none = none
prepend things (some (more, names, skip, rest)) = some (things ++ more, names, skip, rest)

prepend-prepend : (a b : List Thing) (r : Result) → prepend a (prepend b r) ≡ prepend (a ++ b) r
unfolding prepend
prepend-prepend a b none = refl
prepend-prepend a b (some (more, names, skip, rest)) =
    ap (λ l. some (l, names, skip, rest)) (sym (append_assoc a b more))

-- Room for these things and that many more.
abbrev pub with_room : List Thing → ℕ → ℕ
with_room [] room = room
with_room (t ∷ ts) room = suc (with_room ts room)

with_room-append :
    (a b : List Thing) (room : ℕ) → with_room (a ++ b) room ≡ with_room a (with_room b room)
with_room-append [] b room = refl
with_room-append (t ∷ ts) b room = ap suc (with_room-append ts b room)

pub with_room-eq : (a : List Thing) (room : ℕ) → with_room a room ≡ length a + room
with_room-eq [] room = omega arith
with_room-eq (t ∷ ts) room = omega (arith, with_room-eq ts room)

-- A client that has room reads these things off these bytes, and is left with these names.
abbrev pub Steps : (ℕ → Bool) → Names → List ℕ → List Thing → Names → Type 0
Steps has_count names bytes things names' =
    (room : ℕ) (rest : List ℕ)
    → read_tile (with_room things room) has_count names (bytes ++ rest)
      ≡ prepend things (read_tile room has_count names' rest)

module _ (has_count : ℕ → Bool) where
  prepend-nil : (r : Result) → r ≡ prepend [] r
  unfolding prepend
  prepend-nil none = refl
  prepend-nil (some r) = refl

  pub nil-Steps : (names : Names) → Steps has_count names [] [] names
  nil-Steps names room rest = prepend-nil (read_tile room has_count names rest)

  pub append-Steps :
      (names names' names'' : Names) (b b' : List ℕ) (t t' : List Thing)
      → Steps has_count names b t names'
      → Steps has_count names' b' t' names''
      → Steps has_count names (b ++ b') (t ++ t') names''
  append-Steps names names' names'' b b' t t' f g room rest =
      (λ k. read_tile (with_room-append t t' room k) has_count names (append_assoc b b' rest k))
      ∙ f (with_room t' room) (b' ++ rest)
      ∙ ap (prepend t) (g room rest)
      ∙ prepend-prepend t t' (read_tile room has_count names'' rest)

  one_more :
      (t : Thing) (r : Result)
      → (r >>= λ (things, names, skip, rest). some (t ∷ things, names, skip, rest))
        ≡ prepend (t ∷ []) r
  unfolding prepend
  one_more t none = refl
  one_more t (some (things, names, skip, rest)) = refl

  one_step :
      (names names' : Names) (bytes : List ℕ) (t : Thing)
      → ((rest : List ℕ)
          → (tag : ℕ) × (more : List ℕ) × (read16 (bytes ++ rest) ≡ some (tag, more))
            × (leb 65280 tag ≡ false)
            × (read_thing has_count tag names more ≡ some (t, names', rest)))
      → Steps has_count names bytes (t ∷ []) names'
  unfolding read_tile
  one_step names names' bytes t f room rest =
      let (tag, more, e, no_mark, r) = f rest in
      rw (e, no_mark, r) (one_more t (read_tile room has_count names' rest))

-- The creatures of a list that the player may see.
unfoldable pub seen_ones : Viewer → List Creature → List Creature
seen_ones v [] = []
seen_ones v (c ∷ cs) = let rest = seen_ones v cs in if can_see_creature v c then c ∷ rest else rest

unfoldable pub AreCreatures : (ℕ → List ℕ) → List Creature → Type 0
AreCreatures name_of [] = Unit
AreCreatures name_of (c ∷ cs) = IsCreature name_of c × AreCreatures name_of cs

-- The count is full exactly when there is no room left.
at_ten : (n : ℕ) → n + 0 ≡ 10 → (n == 10) ≡ true
at_ten n h = ground arith

not_ten : (n : ℕ) → (n == 10) ≡ false → (k : ℕ) → n + k ≡ 10 → suc n + (k - 1) ≡ 10
not_ten n e k h = ground arith

full : (n k : ℕ) → n + suc k ≡ 10 → (n == 10) ≡ false
full n k h = ground arith

module _ (s : Server) (has_count : ℕ → Bool) (readable : IsReadable s.types has_count) where
  pub step_item :
      (item : TileItem) (names : Names)
      → Steps has_count names (item_bytes s.types item) (shown_item s.types item ∷ []) names
  step_item item names =
      one_step has_count names names (item_bytes s.types item) (shown_item s.types item)
        (read_thing-item_bytes s.types has_count readable item names)

  pub items_bytes-Steps :
      (items : List TileItem) (names : Names) (n k : ℕ)
      → n + k ≡ 10
      → Steps has_count names
          (items_bytes s.types items n).0
          (take k (map (shown_item s.types) items))
          names
  unfolding items_bytes
  items_bytes-Steps [] names n zero h = nil-Steps has_count names
  items_bytes-Steps [] names n (suc k) h = nil-Steps has_count names
  items_bytes-Steps (item ∷ items) names n zero h = rw (at_ten n h) (nil-Steps has_count names)
  items_bytes-Steps (item ∷ items) names n (suc k) h = rw (full n k h) (
      append-Steps has_count names names names (item_bytes s.types item)
        (items_bytes s.types items (suc n)).0 (shown_item s.types item ∷ [])
        (take k (map (shown_item s.types) items)) (step_item item names)
        (items_bytes-Steps items names (suc n) k (omega (arith, h))))

  pub items_bytes-count :
      (items : List TileItem) (n k : ℕ)
      → n + k ≡ 10
      → (items_bytes s.types items n).1 + (k - length items) ≡ 10
  unfolding items_bytes
  items_bytes-count [] n k h = omega (arith, h)
  items_bytes-count (item ∷ items) n k h = elim (Bool-cases (n == 10)) [
    | inl e ↦ rw e (omega (arith, h, ==→eq n 10 e))
    | inr e ↦ rw e (omega (arith, items_bytes-count items (suc n) (k - 1) (not_ten n e k h)))
  ]

  module _ (v : Viewer) (name_of : ℕ → List ℕ) where
    step_creature :
        (c : Creature) (known : List ℕ) (names : Names)
        → IsCreature name_of c
        → Agrees name_of known names
        → (let ch = check_creature_as_known s v c.id known in
            Steps has_count names
              (creature_bytes s.types v c ch.is_known ch.removed_known)
              (shown_creature s.types v c ∷ [])
              (names_after c ch names))
    step_creature c known names w a =
        let ch = check_creature_as_known s v c.id known in
        one_step has_count names (names_after c ch names)
          (creature_bytes s.types v c ch.is_known ch.removed_known) (shown_creature s.types v c)
          (λ rest.
            read_thing-creature_bytes s has_count readable v c name_of names ch rest w
              (known_by_name name_of c known names w a s v)
              (removed_known-lt name_of c known names w a s v))

    pub creatures_bytes-Steps :
        (cs : List Creature) (known : List ℕ) (names : Names) (n k : ℕ)
        → n + k ≡ 10
        → AreCreatures name_of cs
        → Agrees name_of known names
        → (names' : Names) × Steps has_count names
            (creatures_bytes s v cs known n).0
            (take k (map (shown_creature s.types v) (seen_ones v cs)))
            names'
          × Agrees name_of (creatures_bytes s v cs known n).1 names'
    unfolding creatures_bytes seen_ones AreCreatures
    creatures_bytes-Steps [] known names n zero h w a = (names, nil-Steps has_count names, a)
    creatures_bytes-Steps [] known names n (suc k) h w a = (names, nil-Steps has_count names, a)
    creatures_bytes-Steps (c ∷ cs) known names n zero h w a =
        rw (at_ten n h) (names, nil-Steps has_count names, a)
    creatures_bytes-Steps (c ∷ cs) known names n (suc k) h (w, ws) a =
        let ch = check_creature_as_known s v c.id known in
        rw (full n k h) (elim (Bool-cases (can_see_creature v c)) [
          | inl e ↦
              let (names', st, a') =
                creatures_bytes-Steps cs ch.known_set (names_after c ch names) (suc n) k
                  (omega (arith, h)) ws (names_after-Agrees name_of c known names w a s v) in
              rw e (
                names',
                append-Steps has_count names (names_after c ch names) names'
                    (creature_bytes s.types v c ch.is_known ch.removed_known)
                    (creatures_bytes s v cs ch.known_set (suc n)).0
                    (shown_creature s.types v c ∷ [])
                    (take k (map (shown_creature s.types v) (seen_ones v cs)))
                    (step_creature c known names w a) st,
                a',
              )
          | inr e ↦ rw e (creatures_bytes-Steps cs known names n (suc k) h ws a)
        ])

  pub creatures_bytes-count :
      (v : Viewer) (cs : List Creature) (known : List ℕ) (n k : ℕ)
      → n + k ≡ 10
      → (creatures_bytes s v cs known n).2 + (k - length (seen_ones v cs)) ≡ 10
  unfolding creatures_bytes seen_ones
  creatures_bytes-count v [] known n k h = omega (arith, h)
  creatures_bytes-count v (c ∷ cs) known n k h =
      let ch = check_creature_as_known s v c.id known in
      elim (Bool-cases (n == 10)) [
        | inl e ↦ rw e (
            ended (==→eq n 10 e)
              (if can_see_creature v c then c ∷ seen_ones v cs else seen_ones v cs))
        | inr e ↦ elim (Bool-cases (can_see_creature v c)) [
          | inl f ↦
              rw (e, f)
                (omega (
                  arith,
                  creatures_bytes-count v cs ch.known_set (suc n) (k - 1) (not_ten n e k h),
                ))
          | inr f ↦ rw (e, f) (creatures_bytes-count v cs known n k h)
        ]
      ]
    where
      ended : n ≡ 10 → (xs : List Creature) → n + (k - length xs) ≡ 10
      ended e xs = omega (arith, h, e)
