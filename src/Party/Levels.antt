-- ===== src/Party/Levels.antt =====
-- What it takes for the members of a party to share their experience.
use theforgottenserver.Prelude.{
  ℕ, ◌*◌, ◌≤◌, ◌≡◌, inl, inr, true, List, [], ◌∷◌, ltb, ◌==◌, if◌then◌else◌, arith, Bool-cases,
  ==→eq,
}
use theforgottenserver.Party.Defs.{Party, Game, contains}
use theforgottenserver.Party.SharedExperience.{
  highest_level, are_in_range, can_use_shared_experience, all_can_use, can_enable_shared_experience,
}
use theforgottenserver.Party.Roster.{on_roster}

highest_level_start : (g : Game) (best : ℕ) (ps : List ℕ) → best ≤ highest_level g best ps
unfolding highest_level
highest_level_start g best [] = omega arith
highest_level_start g best (p ∷ ps) =
    ground (arith, highest_level_start g (if ltb best (g.level p) then g.level p else best) ps)

highest_level_bound :
    (g : Game) (best : ℕ) (ps : List ℕ) (p : ℕ)
    → contains p ps ≡ true
    → g.level p ≤ highest_level g best ps
unfolding highest_level
highest_level_bound g best [] p h = absurd (cc)
highest_level_bound g best (m ∷ ps) p h =
    let next = if ltb best (g.level m) then g.level m else best in
    elim (Bool-cases (m == p)) [
      | inl e ↦ ground (arith, highest_level_start g next ps, ==→eq m p e)
      | inr e ↦ ground (arith, highest_level_bound g next ps p)
    ]

all_can_use_each :
    (g : Game) (t : Party) (ps : List ℕ) (p : ℕ)
    → all_can_use g t ps ≡ true
    → contains p ps ≡ true
    → can_use_shared_experience g t p ≡ true
unfolding all_can_use
all_can_use_each g t [] p a h = absurd (cc)
all_can_use_each g t (m ∷ ps) p a h = ground (arith, all_can_use_each g t ps p, ==→eq m p)

can_use_level :
    (g : Game) (t : Party) (p : ℕ)
    → can_use_shared_experience g t p ≡ true
    → highest_level g (g.level t.leader) t.member_list * 2 ≤ g.level p * 3
unfolding can_use_shared_experience
can_use_level g t p h = ground arith

can_use_range :
    (g : Game) (t : Party) (p : ℕ)
    → can_use_shared_experience g t p ≡ true
    → are_in_range g t.leader p ≡ true
unfolding can_use_shared_experience
can_use_range g t p h = ground arith

-- When a party can share, the levels of any two in it are within a factor of one and a half, and
-- everyone is in range of the leader.
pub can_enable_shared_experience_lem :
    (g : Game) (t : Party) (p r : ℕ)
    → can_enable_shared_experience g t ≡ true
    → on_roster t p ≡ true
    → on_roster t r ≡ true
    → (g.level p * 2 ≤ g.level r * 3) × (are_in_range g t.leader r ≡ true)
unfolding can_enable_shared_experience
can_enable_shared_experience_lem g t p r h hp hr =
    let all = all_can_use_each g t (t.leader ∷ t.member_list) in
    let top : g.level p ≤ highest_level g (g.level t.leader) t.member_list = ground (
      arith,
      highest_level_bound g (g.level t.leader) t.member_list p,
      highest_level_start g (g.level t.leader) t.member_list,
      ==→eq t.leader p,
    ) in
    let k : can_use_shared_experience g t r ≡ true = ground (arith, all r h) in
    (omega (arith, can_use_level g t r k), can_use_range g t r k)
