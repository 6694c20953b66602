-- ===== src/Progress.antt =====
-- The parts of src/player.cpp and src/player.h in which a player advances: skills, magic level,
-- experience. What the scripts make of a gain, and what the vocation requires, are arguments.
pub mod Loop
pub mod Skills
pub mod Offline
pub mod Levels
mod Tests
use theforgottenserver.Prelude.{
  ℕ, zero, suc, ◌+◌, ◌-◌, ◌*◌, ◌/◌, ◌%◌, ◌^◌, Bool, true, false, ◌&&◌, ◌||◌, not, Option, none,
  some, ltb, leb, ◌==◌, if◌then◌else◌, wrap16, wrap32, wrap64, max,
}

-- `a - b` of two `uint64_t`.
abbrev pub sub64 : ℕ → ℕ → ℕ
sub64 a b = wrap64 (a + 2 ^ 64 - b)

-- `Player::getPercentLevel`
unfoldable pub get_percent_level : ℕ → ℕ → ℕ
get_percent_level count next_level_count =
    if next_level_count == 0
    then 0
    else (let result = wrap64 (count * 100) / next_level_count % 2 ^ 8 in
        if ltb 100 result then 0 else result)

-- Where the loop of an advance has stopped: the level with what is counted towards the next one, what
-- is left of the gain, and whether there is no next level.
pub record Advance : Type 0 where
  pub level : ℕ
  pub tries : ℕ
  pub left : ℕ
  pub is_max : Bool

-- The loop of `addSkillAdvance` and `addManaSpent`, with fuel. A level is counted modulo `m`, and
-- `req` is what a level requires.
unfoldable pub advance : ℕ → (ℕ → ℕ) → ℕ → ℕ → ℕ → ℕ → Advance
advance zero req m level tries count = record {
  level = level;
  tries = tries;
  left = count;
  is_max = false;
}
advance (suc fuel) req m level tries count =
    let next = req ((level + 1) % m) in
    let level' = (level + 1) % m in
    let left = sub64 count (sub64 next tries) in
    let rest = advance fuel req m level' 0 left in
    if not (leb next (wrap64 (tries + count)))
    then record { level = level; tries = tries; left = count; is_max = false }
    else if leb (req ((level' + 1) % m)) next
    then record { level = level'; tries = 0; left = left; is_max = true }
    else rest

pub record Skill : Type 0 where
  pub tries : ℕ
  pub level : ℕ
  pub percent : ℕ

-- The last part of `addSkillAdvance`.
unfoldable pub settle_skill : (ℕ → ℕ) → Advance → Skill
settle_skill req a =
    if a.is_max
    then record { tries = 0; level = a.level; percent = 0 }
    else (let tries = wrap64 (a.tries + a.left) in
        let next = req (wrap16 (a.level + 1)) in
        record {
          tries = tries;
          level = a.level;
          percent = if ltb (req (wrap16 a.level)) next then get_percent_level tries next else 0;
        })

-- `Player::addSkillAdvance` for one skill, where the scripts make `on_gain count` of the gain.
unfoldable pub add_skill_advance : (ℕ → ℕ) → (ℕ → ℕ) → Skill → ℕ → Skill
add_skill_advance req on_gain s count =
    if leb (req (wrap16 (s.level + 1))) (req (wrap16 s.level))
    then s
    else if on_gain count == 0
    then s
    else settle_skill req
        (advance (suc (on_gain count)) req (2 ^ 16) s.level s.tries (on_gain count))

pub record Magic : Type 0 where
  pub mana_spent : ℕ
  pub mag_level : ℕ
  pub mag_level_percent : ℕ

-- The last part of `addManaSpent`. At the highest level the function returns from within the loop, and
-- the percentage stays as it was.
unfoldable pub settle_magic : (ℕ → ℕ) → ℕ → Advance → Magic
settle_magic req percent a =
    if a.is_max
    then record { mana_spent = 0; mag_level = a.level; mag_level_percent = percent }
    else (let spent = wrap64 (a.tries + a.left) in
        let next = req (wrap32 (a.level + 1)) in
        record {
          mana_spent = spent;
          mag_level = a.level;
          mag_level_percent =
              if ltb (req (wrap32 a.level)) next then get_percent_level spent next else 0;
        })

-- `Player::addManaSpent`, where `not_gain_mana` is the flag of the player's group.
unfoldable pub add_mana_spent : (ℕ → ℕ) → (ℕ → ℕ) → Bool → Magic → ℕ → Magic
add_mana_spent req on_gain not_gain_mana s amount =
    if not_gain_mana
    then s
    else if leb (req (wrap32 (s.mag_level + 1))) (req (wrap32 s.mag_level))
    then s
    else if on_gain amount == 0
    then s
    else settle_magic req s.mag_level_percent
        (advance (suc (on_gain amount)) req (2 ^ 32) s.mag_level s.mana_spent (on_gain amount))
