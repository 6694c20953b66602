-- ===== src/MapView/Creatures.antt =====
-- A creature is read back with its name, whether the server takes it as known or not.
use theforgottenserver.Prelude.{
  ℕ, ◌^◌, ◌≤◌, ◌<◌, ◌≡◌, refl, sym, ap, ◌∙◌, Bool, true, false, some, List, ◌++◌, append_assoc,
  ◌==◌, leb, if◌then◌else◌, length, contains, inl, inr, Bool-cases, arith, ==→eq, ◌⊎◌, subst,
}
use theforgottenserver.MapView.{ItemType, Server, Checked, check_creature_as_known}
use theforgottenserver.MapView.Encoding.{word16, word32, string_bytes, looks_bytes, creature_bytes}
use theforgottenserver.MapView.Seeing.{Creature, Viewer}
use theforgottenserver.MapView.Reading.{
  read16, Thing, creature_thing, Names, learn, read_new_creature, read_known_creature, read_thing,
}
use theforgottenserver.MapView.Bytes.{
  read16-word16, read32-word32, read_string-string_bytes, IsReadable, shown_looks,
  read_looks-looks_bytes,
}
use theforgottenserver.MapView.Known.{check_creature_as_known-IsKept}

-- What a client is to see of a creature.
unfoldable pub shown_creature : (ℕ → ItemType) → Viewer → Creature → Thing
shown_creature types v c = creature_thing c.id c.name (shown_looks types v c)

-- The fields have the width of their types, the id is not zero, and it gives the name.
pub record IsCreature (name_of : ℕ → List ℕ) (c : Creature) : Type 0 where
  pub id_fits : c.id < 2 ^ 32
  pub has_id : (c.id == 0) ≡ false
  pub is_named : c.name ≡ name_of c.id
  pub name_fits : length c.name ≤ 8192
  pub look_type_fits : c.outfit.look_type < 65536
  pub speed_fits : c.step_speed < 65536

-- The client has the name of each creature that the server takes as known to it.
pub record Agrees (name_of : ℕ → List ℕ) (known : List ℕ) (names : Names) : Type 0 where
  pub knows : (k : ℕ) → contains k known ≡ true → names k ≡ some (name_of k)
  pub known_fits : (k : ℕ) → contains k known ≡ true → k < 2 ^ 32
  pub no_zero : contains 0 known ≡ false
  pub few : length known ≤ 150

-- The names after a creature.
unfoldable pub names_after : Creature → Checked → Names → Names
names_after c ch names = if ch.is_known then names else learn ch.removed_known c.id c.name names

module _ (s : Server) (has_count : ℕ → Bool) (readable : IsReadable s.types has_count) (v : Viewer)
    (c : Creature) where
  read_thing_known :
      (names : Names) (rest : List ℕ)
      → names c.id ≡ some c.name
      → c.id < 2 ^ 32
      → c.outfit.look_type < 65536
      → c.step_speed < 65536
      → read_thing has_count 98 names (word32 c.id ++ (looks_bytes s.types v c ++ rest))
        ≡ some (shown_creature s.types v c, names, rest)
  unfolding read_thing read_known_creature shown_creature
  read_thing_known names rest n hi hl hs =
      rw (read32-word32 c.id (looks_bytes s.types v c ++ rest) hi)
        (rw n (rw (read_looks-looks_bytes s.types has_count readable v c rest hl hs) refl))

  read_thing_new :
      (names : Names) (removed : ℕ) (rest : List ℕ)
      → removed < 2 ^ 32
      → c.id < 2 ^ 32
      → length c.name ≤ 8192
      → c.outfit.look_type < 65536
      → c.step_speed < 65536
      → read_thing has_count 97 names (
          word32 removed
          ++ (word32 c.id ++ (string_bytes c.name ++ (looks_bytes s.types v c ++ rest))))
        ≡ some (shown_creature s.types v c, learn removed c.id c.name names, rest)
  unfolding read_thing read_new_creature shown_creature
  read_thing_new names removed rest hr hi hn hl hs =
      let looks = looks_bytes s.types v c ++ rest in
      rw (read32-word32 removed (word32 c.id ++ (string_bytes c.name ++ looks)) hr) (
        rw (read32-word32 c.id (string_bytes c.name ++ looks) hi) (
          rw (read_string-string_bytes c.name looks hn)
            (rw (read_looks-looks_bytes s.types has_count readable v c rest hl hs) refl)))

  -- The bytes of a creature are read as that creature.
  pub read_thing-creature_bytes :
      (name_of : ℕ → List ℕ) (names : Names) (ch : Checked) (rest : List ℕ)
      → IsCreature name_of c
      → (ch.is_known ≡ true → names c.id ≡ some c.name)
      → ch.removed_known < 2 ^ 32
      → (tag : ℕ) × (more : List ℕ) × (read16
            (creature_bytes s.types v c ch.is_known ch.removed_known ++ rest)
          ≡ some (tag, more))
        × (leb 65280 tag ≡ false)
        × (read_thing has_count tag names more
            ≡ some (shown_creature s.types v c, names_after c ch names, rest))
  unfolding creature_bytes names_after
  read_thing-creature_bytes name_of names ch rest w n hr = elim (Bool-cases ch.is_known) [
    | inl e ↦ rw e (
        let looks = looks_bytes s.types v c in
        (
          98,
          word32 c.id ++ (looks ++ rest),
          ap read16 (
                append_assoc (word16 98 ++ word32 c.id) looks rest
                ∙ append_assoc (word16 98) (word32 c.id) (looks ++ rest))
              ∙ read16-word16 98 (word32 c.id ++ (looks ++ rest)) (omega arith),
          refl,
          read_thing_known names rest (n e) w.id_fits w.look_type_fits w.speed_fits,
        ))
    | inr e ↦ rw e (
        let looks = looks_bytes s.types v c in
        let r = word32 ch.removed_known in
        let i = word32 c.id in
        let x = string_bytes c.name in
        (
          97,
          r ++ (i ++ (x ++ (looks ++ rest))),
          ap read16 (
                append_assoc (word16 97 ++ (r ++ (i ++ x))) looks rest
                ∙ append_assoc (word16 97) (r ++ (i ++ x)) (looks ++ rest)
                ∙ ap (λ l. word16 97 ++ l)
                    (append_assoc r (i ++ x) (looks ++ rest)
                      ∙ ap (λ l. r ++ l) (append_assoc i x (looks ++ rest))))
              ∙ read16-word16 97 (r ++ (i ++ (x ++ (looks ++ rest)))) (omega arith),
          refl,
          read_thing_new names ch.removed_known rest hr w.id_fits w.name_fits w.look_type_fits
              w.speed_fits,
        ))
  ]

-- What the list of known creatures says of one of them.
split_listed :
    (a b m : Bool)
    → (if a then false else if b then true else m) ≡ true
    → (a ≡ false) × ((b ≡ true) ⊎ ((b ≡ false) × (m ≡ true)))
split_listed true b m h = cc
split_listed false true m h = (refl, inl refl)
split_listed false false m h = (refl, inr (refl, h))

module _ (name_of : ℕ → List ℕ) (c : Creature) (set : List ℕ) (names : Names)
    (w : IsCreature name_of c) (a : Agrees name_of set names) where
  knows_after :
      (ch : Checked)
      → ch.is_known ≡ contains c.id set
      → (k : ℕ) → (k == ch.removed_known) ≡ false
      → ((c.id == k) ≡ true) ⊎ (((c.id == k) ≡ false) × (contains k set ≡ true))
      → names_after c ch names k ≡ some (name_of k)
  unfolding names_after learn
  knows_after ch e k kept m = elim (Bool-cases ch.is_known) [
    | inl f ↦ rw f (
        a.knows k (elim m [
          | inl g ↦ subst (λ j. contains j set ≡ true) (==→eq c.id k g) (sym e ∙ f)
          | inr (g, h) ↦ h
        ]))
    | inr f ↦ rw f (elim m [
      | inl g ↦ rw (flip g) (ap (λ l. some l) (w.is_named ∙ ap name_of (==→eq c.id k g)))
      | inr (g, h) ↦ rw (flip' g, kept) (a.knows k h)
    ])
  ]
    where
      flip : (c.id == k) ≡ true → (k == c.id) ≡ true
      flip g = ground arith

      flip' : (c.id == k) ≡ false → (k == c.id) ≡ false
      flip' g = ground arith

  -- An id that is in the set after the new one has come in has 32 bits.
  set_fits : (k : ℕ) → (if c.id == k then true else contains k set) ≡ true → k < 2 ^ 32
  set_fits k h = elim (Bool-cases (c.id == k)) [
    | inl e ↦ subst (λ j. j < 2 ^ 32) (==→eq c.id k e) w.id_fits
    | inr e ↦ a.known_fits k (sym (ap (λ b. if b then true else contains k set) e) ∙ h)
  ]

  kept_fits :
      (a b m : Bool) (k : ℕ)
      → ((if b then true else m) ≡ true → k < 2 ^ 32)
      → (if a then false else if b then true else m) ≡ true
      → k < 2 ^ 32
  kept_fits true b m k f h = cc
  kept_fits false b m k f h = f h

  -- After a creature has been sent they agree again.
  pub names_after-Agrees :
      (s : Server) (v : Viewer)
      → Agrees name_of
          (check_creature_as_known s v c.id set).known_set
          (names_after c (check_creature_as_known s v c.id set) names)
  names_after-Agrees s v =
      let ch = check_creature_as_known s v c.id set in
      let kept = check_creature_as_known-IsKept s v c.id set w.has_id a.no_zero a.few in
      record {
        knows = λ k h.
            let (x, y) =
              split_listed (k == ch.removed_known) (c.id == k) (contains k set)
                (sym (kept.listed k) ∙ h) in
            knows_after ch kept.was_known k x y;
        known_fits = λ k h.
            kept_fits (k == ch.removed_known) (c.id == k) (contains k set) k (set_fits k)
              (sym (kept.listed k) ∙ h);
        no_zero = kept.listed 0 ∙ zero_out (0 == ch.removed_known);
        few = kept.bounded;
      }
    where
      zero_out :
          (b : Bool) → (if b then false else if c.id == 0 then true else contains 0 set) ≡ false
      zero_out true = refl
      zero_out false = rw (w.has_id) a.no_zero

  pub removed_known-lt :
      (s : Server) (v : Viewer) → (check_creature_as_known s v c.id set).removed_known < 2 ^ 32
  removed_known-lt s v =
      elim (check_creature_as_known-IsKept s v c.id set w.has_id a.no_zero a.few).from_set [
        | inl e ↦ omega (arith, e)
        | inr e ↦ set_fits (check_creature_as_known s v c.id set).removed_known e
      ]

  pub known_by_name :
      (s : Server) (v : Viewer)
      → (check_creature_as_known s v c.id set).is_known ≡ true
      → names c.id ≡ some c.name
  known_by_name s v e =
      let kept = check_creature_as_known-IsKept s v c.id set w.has_id a.no_zero a.few in
      a.knows c.id (sym kept.was_known ∙ e) ∙ ap (λ l. some l) (sym w.is_named)
