-- ===== src/Progress/Skills.antt =====
-- `addSkillAdvance` and `addManaSpent` as a whole.
use theforgottenserver.Prelude.{
  ℕ, zero, suc, ◌+◌, ◌^◌, ◌≤◌, ◌<◌, ◌≡◌, inl, inr, false, leb, ◌==◌, if◌then◌else◌, wrap16, wrap32,
  wrap64, arith, Bool-cases, ==→eq,
}
use theforgottenserver.Progress.{
  get_percent_level, Advance, advance, Skill, settle_skill, add_skill_advance, Magic, settle_magic,
  add_mana_spent,
}
use theforgottenserver.Progress.Loop.{sum_req, HasCap, IsBetween, IsOutcome, advance_lem}

percent_bound : (count next : ℕ) → get_percent_level count next ≤ 100
unfolding get_percent_level
percent_bound count next = ground arith

-- What a gain of `gain` makes of a level and the tries towards the next one.
pub record IsGained (req : ℕ → ℕ) (cap level tries gain level' tries' : ℕ) : Type 0 where
  pub raised : level ≤ level'
  pub below_cap : level' ≤ cap
  pub settled :
      if leb (req (suc level')) (req level')
      then (tries' ≡ 0) × (sum_req req level' ≤ sum_req req level + tries + gain)
      else (tries' < req (suc level'))
        × (sum_req req level' + tries' ≡ sum_req req level + tries + gain)

sum_req_mono : (req : ℕ → ℕ) (l l' : ℕ) → l ≤ l' → sum_req req l ≤ sum_req req l'
sum_req_mono req l zero h = ground (arith)
sum_req_mono req l (suc l') h = elim (Bool-cases (l == suc l')) [
  | inl e ↦ rw (==→eq l (suc l') e) (omega arith)
  | inr e ↦ ground (arith, sum_req_mono req l l')
]

module _ (req : ℕ → ℕ) (cap : ℕ) where
  left_fits :
      (level tries gain : ℕ) (a : Advance)
      → IsOutcome req cap level tries gain a
      → tries + gain < 2 ^ 64
      → wrap64 (a.tries + a.left) ≡ a.tries + a.left
  left_fits level tries gain a o fits =
      omega (arith, o.kept, sum_req_mono req level a.level o.raised)

  settle_skill_lem :
      (level tries gain : ℕ) (a : Advance)
      → IsOutcome req cap level tries gain a
      → tries + gain < 2 ^ 64
      → let s = settle_skill req a in
        (s.level ≡ a.level)
        × (s.tries ≡ (if a.is_max then 0 else a.tries + a.left))
        × (s.percent ≤ 100)
  unfolding settle_skill
  settle_skill_lem level tries gain a o fits = ground (
    arith,
    left_fits level tries gain a o fits,
    percent_bound (wrap64 (a.tries + a.left)) (req (wrap16 (a.level + 1))),
  )

  outcome-IsGained :
      (level tries gain : ℕ) (a : Advance)
      → IsOutcome req cap level tries gain a
      → IsGained req cap level tries gain a.level (if a.is_max then 0 else a.tries + a.left)
  outcome-IsGained level tries gain a o = elim (Bool-cases a.is_max) [
    | inl e ↦
        let k : (a.tries ≡ 0) × (req (suc a.level) ≤ req a.level) = ground (arith, o.stopped) in
        rw e
          (record { raised = o.raised; below_cap = o.below_cap; settled = ground (arith, o.kept) })
    | inr e ↦
        let k : (a.tries + a.left < req (suc a.level)) × (req a.level < req (suc a.level)) =
          ground (arith, o.stopped) in
        rw e
          (record { raised = o.raised; below_cap = o.below_cap; settled = ground (arith, o.kept) })
  ]

  -- A skill below its highest level, with a gain that does not pass 64 bits: no try is lost. All that
  -- the levels so far have required, with the tries towards the next one, grows by what the scripts
  -- make of the gain, and what is left is less than the next level requires; unless the highest level
  -- is reached, where it is dropped. The percentage is one.
  pub add_skill_advance-IsGained :
      (on_gain : ℕ → ℕ) (s : Skill) (count : ℕ)
      → HasCap req (2 ^ 16) cap
      → IsBetween req cap s.level s.tries
      → s.tries + on_gain count < 2 ^ 64
      → s.percent ≤ 100
      → let s' = add_skill_advance req on_gain s count in
        IsGained req cap s.level s.tries (on_gain count) s'.level s'.tries × (s'.percent ≤ 100)
  unfolding add_skill_advance
  add_skill_advance-IsGained on_gain s count capped b fits pct =
      let w : wrap16 (s.level + 1) ≡ suc s.level = omega (arith, b.below_cap, capped.room) in
      let w0 : wrap16 s.level ≡ s.level = omega (arith, b.below_cap, capped.room) in
      let gain = on_gain count in
      let a = advance (suc gain) req (2 ^ 16) s.level s.tries gain in
      let o =
        advance_lem req (2 ^ 16) cap capped (suc gain) s.level s.tries gain b fits (omega arith) in
      let r = settle_skill_lem s.level s.tries gain a o fits in
      let below : leb (req (suc s.level)) (req s.level) ≡ false = ground (arith, b.rising) in
      elim (Bool-cases (gain == 0)) [
        | inl e ↦
            rw (w, w0, below, e)
              (
                record { raised = omega arith; below_cap = b.below_cap; settled = ground arith },
                pct,
              )
        | inr e ↦
            rw (w, w0, below, e) (rw (r.0, r.1) (outcome-IsGained s.level s.tries gain a o, r.2))
      ]

  settle_magic_lem :
      (level tries gain percent : ℕ) (a : Advance)
      → IsOutcome req cap level tries gain a
      → tries + gain < 2 ^ 64
      → let s = settle_magic req percent a in
        (s.mag_level ≡ a.level) × (s.mana_spent ≡ (if a.is_max then 0 else a.tries + a.left))
  unfolding settle_magic
  settle_magic_lem level tries gain percent a o fits =
      ground (arith, left_fits level tries gain a o fits)

  -- The same of the mana spent and the magic level, for a player whose group gains from mana.
  pub add_mana_spent-IsGained :
      (on_gain : ℕ → ℕ) (s : Magic) (amount : ℕ)
      → HasCap req (2 ^ 32) cap
      → IsBetween req cap s.mag_level s.mana_spent
      → s.mana_spent + on_gain amount < 2 ^ 64
      → let s' = add_mana_spent req on_gain false s amount in
        IsGained req cap s.mag_level s.mana_spent (on_gain amount) s'.mag_level s'.mana_spent
  unfolding add_mana_spent
  add_mana_spent-IsGained on_gain s amount capped b fits =
      let w : wrap32 (s.mag_level + 1) ≡ suc s.mag_level =
        omega (arith, b.below_cap, capped.room) in
      let w0 : wrap32 s.mag_level ≡ s.mag_level = omega (arith, b.below_cap, capped.room) in
      let gain = on_gain amount in
      let a = advance (suc gain) req (2 ^ 32) s.mag_level s.mana_spent gain in
      let o =
        advance_lem req (2 ^ 32) cap capped (suc gain) s.mag_level s.mana_spent gain b fits
          (omega arith) in
      let r = settle_magic_lem s.mag_level s.mana_spent gain s.mag_level_percent a o fits in
      let below : leb (req (suc s.mag_level)) (req s.mag_level) ≡ false =
        ground (arith, b.rising) in
      elim (Bool-cases (gain == 0)) [
        | inl e ↦
            rw (w, w0, below, e)
              (record { raised = omega arith; below_cap = b.below_cap; settled = ground arith })
        | inr e ↦
            rw (w, w0, below, e)
              (rw (r.0, r.1) (outcome-IsGained s.mag_level s.mana_spent gain a o))
      ]
