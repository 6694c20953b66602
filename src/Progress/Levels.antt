-- ===== src/Progress/Levels.antt =====
-- `addExperience` and `removeExperience` of src/player.cpp, with `getExpForLevel` of src/player.h. The
-- vocation's gains and what the scripts make of an amount are arguments; what is sent to clients and
-- the party's update are not modelled. Health, which is an `int32_t`, stays within its range.
pub mod Exact
use theforgottenserver.Prelude.{
  ℕ, zero, suc, ◌+◌, ◌-◌, ◌*◌, ◌/◌, ◌%◌, ◌^◌, Bool, true, false, not, ltb, leb, ◌==◌, if◌then◌else◌,
  wrap32, wrap64, max,
}
use theforgottenserver.Progress.{sub64, get_percent_level}

-- `50 l³ - 150 l² + 400 l`
abbrev pub cubic : ℕ → ℕ
cubic l = 50 * (l * (l * l)) + 400 * l - 150 * (l * l)

-- `Player::getExpForLevel`. Level 0 gives the unsigned value of -600.
unfoldable pub get_exp_for_level : ℕ → ℕ
get_exp_for_level lv = if lv == 0 then (2 ^ 64 - 600) / 3 else wrap64 (cubic (lv - 1)) / 3

pub record Vocation : Type 0 where
  pub gain_hp : ℕ
  pub gain_mana : ℕ
  pub gain_cap : ℕ

-- The fields of a `Player` that a change of level touches.
pub record Character : Type 0 where
  pub level : ℕ
  pub experience : ℕ
  pub level_percent : ℕ
  pub health : ℕ
  pub health_max : ℕ
  pub mana : ℕ
  pub mana_max : ℕ
  pub capacity : ℕ

-- One round of the loop of `addExperience`.
abbrev pub level_up : Vocation → Character → Character
level_up v c = record c {
  level = wrap32 (c.level + 1);
  health_max = c.health_max + v.gain_hp;
  health = c.health + v.gain_hp;
  mana_max = wrap32 (c.mana_max + v.gain_mana);
  mana = wrap32 (c.mana + v.gain_mana);
  capacity = wrap32 (c.capacity + v.gain_cap);
}

-- The loop, with fuel.
unfoldable pub raise_levels : ℕ → Vocation → Character → Character
raise_levels zero v c = c
raise_levels (suc fuel) v c =
    let next = get_exp_for_level (wrap32 (c.level + 1)) in
    let c' = level_up v c in
    let rest = raise_levels fuel v c' in
    if ltb c.experience next
    then c
    else if leb (get_exp_for_level (wrap32 (c'.level + 1))) next
    then c'
    else rest

-- The last part of both functions.
unfoldable pub settle_percent : Character → Character
settle_percent c =
    let curr = get_exp_for_level c.level in
    let next = get_exp_for_level (wrap32 (c.level + 1)) in
    record c {
      level_percent =
          if ltb curr next
          then get_percent_level (sub64 c.experience curr) (sub64 next curr)
          else 0;
    }

-- `Player::addExperience`
unfoldable pub add_experience : Vocation → (ℕ → ℕ) → Character → ℕ → Character
add_experience v on_gain c exp =
    if leb (get_exp_for_level (wrap32 (c.level + 1))) (get_exp_for_level c.level)
    then record c { level_percent = 0 }
    else if on_gain exp == 0
    then c
    else (let total = wrap64 (c.experience + on_gain exp) in
        settle_percent (raise_levels (suc total) v (record c { experience = total })))

-- One round of the loop of `removeExperience`; `-` stops at 0, as `std::max` does in the source.
abbrev pub level_down : Vocation → Character → Character
level_down v c = record c {
  level = c.level - 1;
  health_max = c.health_max - v.gain_hp;
  mana_max = c.mana_max - v.gain_mana;
  capacity = c.capacity - v.gain_cap;
}

-- The loop, by the level.
unfoldable pub lower_levels : ℕ → Vocation → Character → Character
lower_levels zero v c = c
lower_levels (suc fuel) v c =
    let rest = lower_levels fuel v (level_down v c) in
    if not (ltb 1 c.level)
    then c
    else if ltb c.experience (get_exp_for_level c.level)
    then rest
    else c

-- `std::max<int64_t>(0, experience - exp)`, the difference taken as an `int64_t`.
unfoldable pub lose : ℕ → ℕ → ℕ
lose experience exp = let d = sub64 experience exp in if leb (2 ^ 63) d then 0 else d

-- A change of level restores health and mana.
abbrev pub restore : ℕ → Character → Character
restore old_level c =
    if c.level == old_level then c else record c { health = c.health_max; mana = c.mana_max }

-- `Player::removeExperience`
unfoldable pub remove_experience : Vocation → (ℕ → ℕ) → Character → ℕ → Character
remove_experience v on_lose c exp =
    if c.experience == 0
    then c
    else if exp == 0
    then c
    else if on_lose exp == 0
    then c
    else (let c' = record c { experience = lose c.experience (on_lose exp) } in
        settle_percent (restore c.level (lower_levels c.level v c')))
