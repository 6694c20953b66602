-- ===== src/Progress/Levels/Exact.antt =====
-- The level of a player is the one that its experience gives, after gains and losses.
use theforgottenserver.Prelude.{
  ℕ, zero, suc, ◌+◌, ◌-◌, ◌*◌, ◌^◌, ◌≤◌, ◌<◌, ◌≡◌, refl, inl, inr, false, ltb, leb, ◌==◌,
  if◌then◌else◌, wrap32, wrap64, arith, Bool-cases, ==→eq, ==-refl, ap, ◌∙◌,
}
use theforgottenserver.Progress.Levels.{
  cubic, get_exp_for_level, Vocation, Character, level_up, raise_levels, settle_percent,
  add_experience, level_down, lower_levels, lose, restore, remove_experience,
}

-- Up to here the 64 bits of `getExpForLevel` suffice.
abbrev pub max_level : ℕ
max_level = 500000

square_suc : (l : ℕ) → suc l * suc l ≡ l * l + 2 * l + 1
square_suc l = grind arith

cube_suc : (l : ℕ) → suc l * (suc l * suc l) ≡ l * (l * l) + 3 * (l * l) + 3 * l + 1
cube_suc l = grind (arith, square_suc l)

le_square : (l : ℕ) → l ≤ l * l
le_square zero = omega arith
le_square (suc l) = omega (arith, square_suc l)

square_le_cube : (l : ℕ) → 3 * (l * l) ≤ l * (l * l) + 8 * l
square_le_cube zero = omega arith
square_le_cube (suc zero) = omega arith
square_le_cube (suc (suc zero)) = omega arith
square_le_cube (suc (suc (suc l))) = grind arith

cubic_step : (l : ℕ) → cubic l + 300 ≤ cubic (suc l)
cubic_step l =
    omega (arith, square_suc l, cube_suc l, square_le_cube l, square_le_cube (suc l), le_square l)

cubic_fits : (l : ℕ) → l ≤ max_level → cubic l < 2 ^ 64
cubic_fits l h =
    let a : l * l ≤ max_level * l = grind arith in
    let b : l * (l * l) ≤ max_level * (l * l) = grind arith in omega (arith, a, b)

-- Each level takes more experience.
exp_rises :
    (level : ℕ)
    → 0 < level
    → level < max_level
    → get_exp_for_level level < get_exp_for_level (suc level)
unfolding get_exp_for_level
exp_rises zero p h = absurd (omega arith)
exp_rises (suc l) p h =
    let p : suc l - 1 ≡ l = omega arith in
    let q : suc (suc l) - 1 ≡ suc l = omega arith in
    rw (p, q) (ground (arith, cubic_step l, cubic_fits l, cubic_fits (suc l)))

-- The level is the one that the experience gives.
pub record IsExact (c : Character) : Type 0 where
  pub positive : 0 < c.level
  pub in_range : c.level < max_level
  pub reached : get_exp_for_level c.level ≤ c.experience
  pub not_next : c.experience < get_exp_for_level (suc c.level)

-- Gained health, mana and capacity aside, what a change of level comes to.
abbrev pub SameExperience : Character → Character → Type 0
SameExperience c c' = c'.experience ≡ c.experience

raise_levels-IsExact :
    (fuel : ℕ) (v : Vocation) (c : Character)
    → 0 < c.level
    → c.level < max_level
    → get_exp_for_level c.level ≤ c.experience
    → c.experience < get_exp_for_level max_level
    → c.experience < fuel + get_exp_for_level c.level
    → IsExact (raise_levels fuel v c) × SameExperience c (raise_levels fuel v c)
unfolding raise_levels
raise_levels-IsExact zero v c pos range reached below enough = absurd (omega arith)
raise_levels-IsExact (suc fuel) v c pos range reached below enough =
    let w : wrap32 (c.level + 1) ≡ suc c.level = omega arith in
    elim (Bool-cases (ltb c.experience (get_exp_for_level (suc c.level)))) [
      | inl stay ↦
          rw (w, stay)
            (
              record {
                positive = pos;
                in_range = range;
                reached = reached;
                not_next = ground arith;
              },
              refl,
            )
      | inr go ↦
          let higher : suc c.level < max_level = elim (Bool-cases (suc c.level == max_level)) [
            | inl e ↦
                let h : get_exp_for_level (suc c.level) ≡ get_exp_for_level max_level =
                  ap get_exp_for_level (==→eq (suc c.level) max_level e) in
                absurd (ground arith)
            | inr e ↦ ground arith
          ] in
          let w2 : wrap32 (suc c.level + 1) ≡ suc (suc c.level) = omega arith in
          let up = exp_rises (suc c.level) (omega arith) higher in
          let rises = exp_rises c.level pos range in
          let more : leb (get_exp_for_level (suc (suc c.level))) (get_exp_for_level (suc c.level))
              ≡ false =
            ground arith in
          let ih =
            raise_levels-IsExact fuel v (record (level_up v c) { level = suc c.level })
              (omega arith) higher (ground arith) below (ground arith) in
          rw (w, go, w2, more) ih
    ]

exp_for_one : get_exp_for_level 1 ≡ 0
unfolding get_exp_for_level
exp_for_one = refl

lower_levels-IsExact :
    (fuel : ℕ) (v : Vocation) (c : Character)
    → 0 < c.level
    → c.level < max_level
    → c.experience < get_exp_for_level (suc c.level)
    → c.level ≤ fuel
    → IsExact (lower_levels fuel v c) × SameExperience c (lower_levels fuel v c)
unfolding lower_levels
lower_levels-IsExact zero v c pos range below enough = absurd (omega arith)
lower_levels-IsExact (suc fuel) v c pos range below enough = elim (Bool-cases (ltb 1 c.level)) [
  | inr one ↦
      let e : c.level ≡ 1 = ground arith in
      let reached : get_exp_for_level c.level ≤ c.experience = rw (e, exp_for_one) (omega arith) in
      rw one
        (record { positive = pos; in_range = range; reached = reached; not_next = below }, refl)
  | inl many ↦ elim (Bool-cases (ltb c.experience (get_exp_for_level c.level))) [
    | inr stay ↦
        rw (many, stay)
          (
            record { positive = pos; in_range = range; reached = ground arith; not_next = below },
            refl,
          )
    | inl down ↦
        let e : suc (c.level - 1) ≡ c.level = ground arith in
        let lower : c.experience < get_exp_for_level (suc (c.level - 1)) = rw e (ground arith) in
        rw (many, down)
          (lower_levels-IsExact fuel v (level_down v c) (ground arith) (omega arith) lower
            (omega arith))
  ]
]

settle_percent-IsExact : (c : Character) → IsExact c → IsExact (settle_percent c)
unfolding settle_percent
settle_percent-IsExact c x = record {
  positive = x.positive;
  in_range = x.in_range;
  reached = x.reached;
  not_next = x.not_next;
}

settle_percent_experience : (c : Character) → (settle_percent c).experience ≡ c.experience
unfolding settle_percent
settle_percent_experience c = refl

exp_for_max : get_exp_for_level max_level < 2 ^ 63
unfolding get_exp_for_level
exp_for_max = omega arith

-- After `addExperience` the level is the one that the experience gives, if it was before and the new
-- experience is below that of level 500000; the experience has grown by what the scripts make of the
-- gain.
pub add_experience-IsExact :
    (v : Vocation) (on_gain : ℕ → ℕ) (c : Character) (exp : ℕ)
    → IsExact c
    → c.experience + on_gain exp < get_exp_for_level max_level
    → IsExact (add_experience v on_gain c exp)
      × ((add_experience v on_gain c exp).experience ≡ c.experience + on_gain exp)
unfolding add_experience
add_experience-IsExact v on_gain c exp x below =
    let w : wrap32 (c.level + 1) ≡ suc c.level = omega (arith, x.in_range) in
    let rises = exp_rises c.level x.positive x.in_range in
    let more : leb (get_exp_for_level (suc c.level)) (get_exp_for_level c.level) ≡ false =
      ground arith in
    let sum : wrap64 (c.experience + on_gain exp) ≡ c.experience + on_gain exp =
      omega (arith, exp_for_max) in
    let total = c.experience + on_gain exp in
    elim (Bool-cases (on_gain exp == 0)) [
      | inl e ↦ rw (w, more, e) (x, ground arith)
      | inr e ↦
          let r =
            raise_levels-IsExact (suc total) v (record c { experience = total }) x.positive
              x.in_range (omega (arith, x.reached)) below (omega arith) in
          rw (w, more, sum, e) (settle_percent-IsExact _ r.0, settle_percent_experience _ ∙ r.1)
    ]

lose-eq-sub :
    (experience exp : ℕ)
    → experience < 2 ^ 63
    → exp < 2 ^ 63
    → lose experience exp ≡ experience - exp
unfolding lose
lose-eq-sub experience exp h k = ground arith

lower_levels_health :
    (fuel : ℕ) (v : Vocation) (c : Character)
    → ((lower_levels fuel v c).health ≡ c.health) × ((lower_levels fuel v c).mana ≡ c.mana)
unfolding lower_levels
lower_levels_health zero v c = (refl, refl)
lower_levels_health (suc fuel) v c = ground (arith, lower_levels_health fuel v (level_down v c))

-- Health and mana are full if the level has changed, and as before if not.
abbrev pub IsRestored : Character → Character → Type 0
IsRestored c c' =
    if c'.level == c.level
    then (c'.health ≡ c.health) × (c'.mana ≡ c.mana)
    else (c'.health ≡ c'.health_max) × (c'.mana ≡ c'.mana_max)

unchanged-IsRestored : (c : Character) → IsRestored c c
unchanged-IsRestored c = rw (==-refl c.level) (refl, refl)

restore_lem :
    (c d : Character)
    → d.health ≡ c.health
    → d.mana ≡ c.mana
    → IsExact d
    → let c' = settle_percent (restore c.level d) in
      IsExact c' × (c'.experience ≡ d.experience) × IsRestored c c'
unfolding settle_percent
restore_lem c d h m x = elim (Bool-cases (d.level == c.level)) [
  | inl e ↦ simp e (
    record {
      positive = x.positive;
      in_range = x.in_range;
      reached = x.reached;
      not_next = x.not_next;
    },
    refl,
    (h, m),
  )
  | inr e ↦ simp e (
    record {
      positive = x.positive;
      in_range = x.in_range;
      reached = x.reached;
      not_next = x.not_next;
    },
    refl,
    (refl, refl),
  )
]

-- After `removeExperience` the level is the one that the experience gives, if it was before; a player
-- with some experience has lost what the scripts make of the amount, down to none, if neither passes
-- 63 bits; and health and mana are full if the level has changed.
pub remove_experience-IsExact :
    (v : Vocation) (on_lose : ℕ → ℕ) (c : Character) (exp : ℕ)
    → IsExact c
    → c.experience < 2 ^ 63
    → on_lose exp < 2 ^ 63
    → let c' = remove_experience v on_lose c exp in
      IsExact c'
      × (c'.experience ≡ (if exp == 0 then c.experience else c.experience - on_lose exp))
      × IsRestored c c'
unfolding remove_experience
remove_experience-IsExact v on_lose c exp x fits fits' =
    let rest = on_lose exp in
    let lost : lose c.experience rest ≡ c.experience - rest =
      lose-eq-sub c.experience rest fits fits' in
    elim (Bool-cases (c.experience == 0)) [
      | inl e ↦ rw e (x, ground arith, unchanged-IsRestored c)
      | inr e ↦ elim (Bool-cases (exp == 0)) [
        | inl e' ↦ rw (e, e') (x, refl, unchanged-IsRestored c)
        | inr e' ↦ elim (Bool-cases (rest == 0)) [
          | inl e'' ↦ rw (e, e', e'') (x, ground arith, unchanged-IsRestored c)
          | inr e'' ↦
              let c1 = record c { experience = c.experience - rest } in
              let r =
                lower_levels-IsExact c.level v c1 x.positive x.in_range (omega (arith, x.not_next))
                  (omega arith) in
              let k = lower_levels_health c.level v c1 in
              let f = restore_lem c (lower_levels c.level v c1) k.0 k.1 r.0 in
              rw (e, e', e'', lost) (f.0, f.1 ∙ r.1, f.2)
        ]
      ]
    ]
