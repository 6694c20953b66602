-- ===== src/Party/SharedExperience.antt =====
-- Shared experience of a party: who may share, when it is enabled, and the bonus for vocations.
use theforgottenserver.Prelude.{
  ℕ, ◌+◌, ◌-◌, ◌*◌, ◌/◌, ◌^◌, Bool, true, false, ◌&&◌, ◌||◌, not, Option, none, some, List, [], ◌∷◌,
  ltb, leb, ◌==◌, if◌then◌else◌, is_empty, length, wrap64,
}
use theforgottenserver.Party.Defs.{Party, Game, contains}

abbrev pub find_ticks : ℕ → List (ℕ × ℕ) → Option ℕ
find_ticks p [] = none
find_ticks p ((k, t) ∷ m) = if k == p then some t else find_ticks p m

abbrev pub set_ticks : ℕ → ℕ → List (ℕ × ℕ) → List (ℕ × ℕ)
set_ticks p t [] = (p, t) ∷ []
set_ticks p t ((k, u) ∷ m) = if k == p then (p, t) ∷ m else (k, u) ∷ set_ticks p t m

abbrev pub erase_ticks : ℕ → List (ℕ × ℕ) → List (ℕ × ℕ)
erase_ticks p [] = []
erase_ticks p ((k, u) ∷ m) = if k == p then m else (k, u) ∷ erase_ticks p m

-- The loop for the highest level.
unfoldable pub highest_level : Game → ℕ → List ℕ → ℕ
highest_level g best [] = best
highest_level g best (p ∷ ps) =
    highest_level g (if ltb best (g.level p) then g.level p else best) ps

abbrev pub distance : ℕ → ℕ → ℕ
distance a b = if ltb a b then b - a else a - b

-- `Position::areInRange<30, 30, 1>`
unfoldable pub are_in_range : Game → ℕ → ℕ → Bool
are_in_range g p q =
    leb (distance (g.x p) (g.x q)) 30
    && (leb (distance (g.y p) (g.y q)) 30 && leb (distance (g.z p) (g.z q)) 1)

-- `uint64_t timeDiff` wraps when the clock has been set back.
pub is_recent : Game → Party → ℕ → Bool
is_recent g t p = elim (find_ticks p t.ticks_map) [
  | none ↦ false
  | some last ↦ leb (wrap64 (g.now + 2 ^ 64 - last)) g.pz_locked
]

-- `std::ceil((highestLevel * 2) / 3)`
abbrev pub min_level : ℕ → ℕ
min_level highest = (highest * 2 + 2) / 3

-- `Party::canUseSharedExperience`
unfoldable pub can_use_shared_experience : Game → Party → ℕ → Bool
can_use_shared_experience g t p =
    if is_empty t.member_list
    then false
    else if ltb (g.level p) (min_level (highest_level g (g.level t.leader) t.member_list))
    then false
    else if not (are_in_range g t.leader p)
    then false
    else if g.not_gain_in_fight p
    then true
    else is_recent g t p

unfoldable pub all_can_use : Game → Party → List ℕ → Bool
all_can_use g t [] = true
all_can_use g t (p ∷ ps) = if can_use_shared_experience g t p then all_can_use g t ps else false

-- `Party::canEnableSharedExperience`
unfoldable pub can_enable_shared_experience : Game → Party → Bool
unfolding all_can_use
can_enable_shared_experience g t = all_can_use g t (t.leader ∷ t.member_list)

-- `Party::updateSharedExperience`
unfoldable pub update_shared_experience : Game → Party → Party
update_shared_experience g t =
    if t.shared_exp_active
    then record t { shared_exp_enabled = can_enable_shared_experience g t }
    else t

-- `std::set` of the vocations other than none.
pub vocation_ids : Game → List ℕ → List ℕ
vocation_ids g [] = []
vocation_ids g (p ∷ ps) =
    let rest = vocation_ids g ps in
    if g.from_vocation p == 0
    then rest
    else if contains (g.from_vocation p) rest
    then rest
    else g.from_vocation p ∷ rest

abbrev pub rate_of : ℕ → ℕ
rate_of size = if ltb 1 size then size * (10 + (size - 1) * 5) else 20

-- `Party::updateVocationsList`
unfoldable pub update_vocations_list : Game → Party → Party
update_vocations_list g t = record t {
  extra_exp_rate = rate_of (length (vocation_ids g (t.leader ∷ t.member_list)));
}

abbrev same : Bool → Bool → Bool
same true b = b
same false b = not b

-- `Party::setSharedExperience`
unfoldable pub set_shared_experience : Game → Party → ℕ → Bool → Bool × Party
set_shared_experience g t p active =
    if not (t.leader == p)
    then (false, t)
    else if same t.shared_exp_active active
    then (true, t)
    else if active
    then (
      true,
      record t {
        shared_exp_active = true;
        shared_exp_enabled = can_enable_shared_experience g (record t { shared_exp_active = true });
      },
    )
    else (true, record t { shared_exp_active = false })

-- `Party::updatePlayerTicks`
unfoldable pub update_player_ticks : Game → Party → ℕ → ℕ → Party
update_player_ticks g t p points =
    if points == 0 || g.not_gain_in_fight p
    then t
    else update_shared_experience g (record t { ticks_map = set_ticks p g.now t.ticks_map })

-- `Party::clearPlayerPoints`
unfoldable pub clear_player_points : Game → Party → ℕ → Party
clear_player_points g t p = elim (find_ticks p t.ticks_map) [
  | none ↦ t
  | some _ ↦ update_shared_experience g (record t { ticks_map = erase_ticks p t.ticks_map })
]
