-- ===== src/Progress/Loop.antt =====
-- The loop of an advance ends, loses nothing of the gain, and stops below the next level.
use theforgottenserver.Prelude.{
  ℕ, zero, suc, ◌+◌, ◌-◌, ◌%◌, ◌^◌, ◌≤◌, ◌<◌, ◌≡◌, refl, inl, inr, leb, ◌==◌, if◌then◌else◌, wrap64,
  arith, Bool-cases, ==→eq,
}
use theforgottenserver.Progress.{sub64, Advance, advance}

-- All that is required up to a level.
abbrev pub sum_req : (ℕ → ℕ) → ℕ → ℕ
sum_req req zero = 0
sum_req req (suc level) = sum_req req level + req (suc level)

-- A table of requirements with a highest level, which the counter of levels can hold.
pub record HasCap (req : ℕ → ℕ) (m cap : ℕ) : Type 0 where
  pub top : req (suc cap) ≤ req cap
  pub room : suc cap < m

-- A player between two levels.
pub record IsBetween (req : ℕ → ℕ) (cap level tries : ℕ) : Type 0 where
  pub below_cap : level ≤ cap
  pub rising : req level < req (suc level)
  pub below_next : tries < req (suc level)

-- What the loop has made of a gain of `count`.
pub record IsOutcome (req : ℕ → ℕ) (cap level tries count : ℕ) (a : Advance) : Type 0 where
  pub kept : sum_req req a.level + a.tries + a.left ≡ sum_req req level + tries + count
  pub below_cap : a.level ≤ cap
  pub raised : level ≤ a.level
  pub stopped :
      if a.is_max
      then (a.tries ≡ 0) × (req (suc a.level) ≤ req a.level)
      else (a.tries + a.left < req (suc a.level)) × (req a.level < req (suc a.level))

module _ (req : ℕ → ℕ) (m cap : ℕ) (capped : HasCap req m cap) where
  step_level : (level tries : ℕ) → IsBetween req cap level tries → suc level ≤ cap
  step_level level tries b = elim (Bool-cases (level == cap)) [
    | inl e ↦
        let h : level ≡ cap = ==→eq level cap e in
        let top : req (suc level) ≤ req level = rw h capped.top in omega (arith, b.rising)
    | inr e ↦ ground arith
  ]

  step_mod : (level : ℕ) → level ≤ cap → (level + 1) % m ≡ suc level
  step_mod level h = grind (arith, capped.room)

  pub advance_lem :
      (fuel level tries count : ℕ)
      → IsBetween req cap level tries
      → tries + count < 2 ^ 64
      → count < fuel
      → IsOutcome req cap level tries count (advance fuel req m level tries count)
  unfolding advance
  advance_lem zero level tries count b fits enough = absurd (omega arith)
  advance_lem (suc fuel) level tries count b fits enough =
      let next = req (suc level) in
      let up : (level + 1) % m ≡ suc level = step_mod level b.below_cap in
      let up2 : (suc level + 1) % m ≡ suc (suc level) =
        step_mod (suc level) (step_level level tries b) in
      let sum : wrap64 (tries + count) ≡ tries + count = omega arith in
      elim (Bool-cases (leb next (tries + count))) [
        | inr stay ↦
            rw (up, sum, stay)
              (record {
                kept = refl;
                below_cap = b.below_cap;
                raised = omega arith;
                stopped = (ground arith, b.rising);
              })
        | inl go ↦
            let left : sub64 count (sub64 next tries) ≡ count + tries - next =
              ground (arith, b.below_next) in
            elim (Bool-cases (leb (req (suc (suc level))) next)) [
              | inl last ↦
                  rw (up, sum, go, left, up2, last)
                    (record {
                      kept = ground arith;
                      below_cap = step_level level tries b;
                      raised = omega arith;
                      stopped = (refl, ground arith);
                    })
              | inr more ↦
                  let o =
                    advance_lem fuel (suc level) 0 (count + tries - next)
                      (record {
                        below_cap = step_level level tries b;
                        rising = ground arith;
                        below_next = ground arith;
                      })
                      (ground arith) (ground arith) in
                  rw (up, sum, go, left, up2, more)
                    (record {
                      kept = ground (arith, o.kept);
                      below_cap = o.below_cap;
                      raised = omega (arith, o.raised);
                      stopped = o.stopped;
                    })
            ]
      ]
