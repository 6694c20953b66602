-- ===== src/Party/Tests.antt =====
-- The theorems on parties at concrete inputs: player 1 leads party 0 with the members 2 and 3, and
-- player 4 is invited.
use theforgottenserver.Prelude.{
  ℕ, zero, suc, map, ◌+◌, ◌≤◌, ◌*◌, ◌≡◌, refl, true, false, none, some, List, [], ◌∷◌, ◌==◌,
  if◌then◌else◌, arith,
}
use theforgottenserver.Party.Defs.{Party, World, Game, contains, refers_to}
use theforgottenserver.Party.SharedExperience.{
  are_in_range, can_enable_shared_experience, can_use_shared_experience, all_can_use, highest_level,
  update_shared_experience, update_vocations_list, clear_player_points,
}
use theforgottenserver.Party.Membership.{
  with_member, join_party, leave_party, hand_on, with_leader, without_member,
}
use theforgottenserver.Party.Roster.{on_roster, roster, IsConsistent}
use theforgottenserver.Party.Runs.{Request, invite, join, pass_on, logout, run, run-IsConsistent}
use theforgottenserver.Party.Levels.{can_enable_shared_experience_lem}
use theforgottenserver.Party.Effects.{join_party_lem, leave_party_leaves}

abbrev game : Game
game = record {
  is_online = λ p. true;
  is_in_fight = λ p. false;
  level = λ p. 20 + p;
  from_vocation = λ p. p;
  x = λ p. 100 + p;
  y = λ p. 100;
  z = λ p. 7;
  not_gain_in_fight = λ p. true;
  now = 1000;
  pz_locked = 60000;
  on_join = λ q p. true;
  on_leave = λ q p. true;
  on_disband = λ q. true;
}

abbrev trio : Party
trio = record {
  leader = 1;
  member_list = 2 ∷ 3 ∷ [];
  invite_list = 4 ∷ [];
  ticks_map = [];
  extra_exp_rate = 60;
  shared_exp_active = false;
  shared_exp_enabled = false;
}

abbrev town : World
town = record {
  players = λ p. record {
    party = if on_roster trio p then some 0 else none;
    invite_party_list = if p == 4 then 0 ∷ [] else [];
  };
  parties = λ q. if q == 0 then some trio else none;
  next_party = 1;
}

town_agrees : (p q : ℕ) → refers_to (town.players p).party q ≡ roster (town.parties q) p
town_agrees p zero = ground arith
town_agrees p (suc q) = ground arith

town-IsConsistent : IsConsistent town
town-IsConsistent = record {
  agrees = town_agrees;
  proper = λ q. ground arith;
  fresh = λ q h. ground arith;
}

abbrev requests : List (Game × Request)
requests =
    (game, invite 5 6)
    ∷ (game, join 6 5)
    ∷ (game, pass_on 5 6)
    ∷ (game, join 4 1)
    ∷ (game, logout 1)
    ∷ []

-- The first member leads once the leader has left.
next_leader :
    (map (roster ((leave_party game town 0 trio 1).1.parties 0)) (1 ∷ 2 ∷ 3 ∷ 4 ∷ [])
      ≡ false ∷ true ∷ true ∷ false ∷ [])
    × ((hand_on game town 0 trio 1 (2 ∷ 3 ∷ [])).1.leader ≡ 2)
unfolding leave_party hand_on with_leader without_member update_shared_experience
    update_vocations_list clear_player_points
next_leader = (refl, refl)

run-IsConsistent_example : IsConsistent (run town requests)
run-IsConsistent_example =
    run-IsConsistent town requests
      (λ q. refl, (λ q. refl, (λ q. refl, (λ q. refl, (λ q. refl, tt))))) town-IsConsistent

can_enable_shared_experience_example : can_enable_shared_experience game trio ≡ true
unfolding can_enable_shared_experience all_can_use can_use_shared_experience are_in_range
    highest_level
can_enable_shared_experience_example = refl

can_enable_shared_experience_lem_example :
    (game.level 3 * 2 ≤ game.level 2 * 3) × (are_in_range game 1 2 ≡ true)
can_enable_shared_experience_lem_example =
    can_enable_shared_experience_lem game trio 3 2 can_enable_shared_experience_example refl refl

join_party_lem_example :
    let r = join_party game town 0 trio 4 in
    (r.0 ≡ true)
    × ((r.1.players 4).party ≡ some 0)
    × (contains 0 (r.1.players 4).invite_party_list ≡ false)
    × (r.1.parties 0 ≡ some (with_member game trio 4))
    × ((with_member game trio 4).member_list ≡ 2 ∷ 3 ∷ 4 ∷ [])
    × ((with_member game trio 4).invite_list ≡ [])
join_party_lem_example = join_party_lem game town 0 trio 4

leader_leaves : (leave_party game town 0 trio 1).0 ≡ true
unfolding leave_party
leader_leaves = refl

leave_party_leaves_example :
    (((leave_party game town 0 trio 1).1.players 1).party ≡ none)
    × (roster ((leave_party game town 0 trio 1).1.parties 0) 1 ≡ false)
leave_party_leaves_example =
    leave_party_leaves game town 0 trio 1 refl town-IsConsistent refl leader_leaves
