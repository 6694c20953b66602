-- ===== src/Progress/Tests.antt =====
-- The theorems on the advance of a player at concrete inputs.
use theforgottenserver.Prelude.{
  ℕ, ◌+◌, ◌*◌, ◌-◌, ◌^◌, ◌≤◌, ◌<◌, ◌≡◌, refl, leb, if◌then◌else◌, false, arith,
}
use theforgottenserver.Progress.{
  Skill, add_skill_advance, advance, settle_skill, get_percent_level, Magic, add_mana_spent,
  settle_magic,
}
use theforgottenserver.Progress.Loop.{HasCap}
use theforgottenserver.Progress.Skills.{
  IsGained, add_skill_advance-IsGained, add_mana_spent-IsGained,
}
use theforgottenserver.Progress.Offline.{
  Trainee, Requirements, fighting, add_offline_training_tries, offline_skill-eq,
}
use theforgottenserver.Progress.Levels.{
  Vocation, Character, add_experience, remove_experience, get_exp_for_level, raise_levels,
  settle_percent,
}
use theforgottenserver.Progress.Levels.Exact.{
  IsExact, IsRestored, add_experience-IsExact, remove_experience-IsExact,
}

-- Level n requires 10 n tries up to level 100, which is the highest.
abbrev table : ℕ → ℕ
table n = if leb n 100 then n * 10 else 0

abbrev sword : Skill
sword = record { tries = 5; level = 10; percent = 4 }

sword_advances :
    add_skill_advance table (λ n. n) sword 235 ≡ record { tries = 10; level = 12; percent = 7 }
unfolding add_skill_advance advance settle_skill get_percent_level
sword_advances = refl

table-HasCap16 : HasCap table (2 ^ 16) 100
table-HasCap16 = omega arith

table-HasCap32 : HasCap table (2 ^ 32) 100
table-HasCap32 = omega arith

add_skill_advance-IsGained_example :
    let s' = add_skill_advance table (λ n. n) sword 235 in
    IsGained table 100 10 5 235 s'.level s'.tries × (s'.percent ≤ 100)
add_skill_advance-IsGained_example =
    add_skill_advance-IsGained table 100 (λ n. n) sword 235 table-HasCap16 (omega arith)
      (omega arith) (omega arith)

abbrev magic : Magic
magic = record { mana_spent = 3; mag_level = 1; mag_level_percent = 15 }

add_mana_spent-IsGained_example :
    let s' = add_mana_spent table (λ n. n) false magic 40 in
    IsGained table 100 1 3 40 s'.mag_level s'.mana_spent
add_mana_spent-IsGained_example =
    add_mana_spent-IsGained table 100 (λ n. n) magic 40 table-HasCap32 (omega arith) (omega arith)

-- At the highest level the percentage of the level before stays.
magic_max :
    add_mana_spent table
      (λ n. n)
      false
      (record { mana_spent = 900; mag_level = 99; mag_level_percent = 90 })
      200
    ≡ record { mana_spent = 0; mag_level = 100; mag_level_percent = 90 }
unfolding add_mana_spent advance settle_magic
magic_max = refl

abbrev knight : Vocation
knight = record { gain_hp = 15; gain_mana = 5; gain_cap = 25 }

abbrev novice : Character
novice = record {
  level = 2;
  experience = 150;
  level_percent = 50;
  health = 100;
  health_max = 155;
  mana = 10;
  mana_max = 15;
  capacity = 420;
}

novice-IsExact : IsExact novice
unfolding get_exp_for_level
novice-IsExact = omega arith

exp_in_range : 150 + 300 < get_exp_for_level 500000
unfolding get_exp_for_level
exp_in_range = omega arith

-- Level 4 takes 400.
novice_level : (add_experience knight (λ n. n) novice 300).level ≡ 4
unfolding add_experience raise_levels get_exp_for_level settle_percent get_percent_level
novice_level = refl

add_experience-IsExact_example :
    IsExact (add_experience knight (λ n. n) novice 300)
    × ((add_experience knight (λ n. n) novice 300).experience ≡ 150 + 300)
add_experience-IsExact_example =
    add_experience-IsExact knight (λ n. n) novice 300 novice-IsExact exp_in_range

remove_experience-IsExact_example :
    IsExact (remove_experience knight (λ n. n) novice 60)
    × ((remove_experience knight (λ n. n) novice 60).experience ≡ 150 - 60)
    × IsRestored novice (remove_experience knight (λ n. n) novice 60)
remove_experience-IsExact_example =
    remove_experience-IsExact knight (λ n. n) novice 60 novice-IsExact (omega arith) (omega arith)

abbrev trainee : Trainee
trainee = record { skills = λ i. sword; magic = magic }

abbrev needs : Requirements
needs = record { req_skill_tries = λ i. table; req_mana = table }

offline_skill-eq_example :
    let t' = (add_offline_training_tries needs (λ n. n) trainee (fighting 2) 235).1 in
    (t'.skills 2 ≡ add_skill_advance table (λ n. n) sword 235) × (t'.magic ≡ magic)
offline_skill-eq_example =
    offline_skill-eq needs (λ n. n) trainee 2 2 235 (omega arith) (omega arith)
