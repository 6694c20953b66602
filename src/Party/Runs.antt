-- ===== src/Party/Runs.antt =====
-- The requests of the clients, in any order: the players and the parties never come to disagree about
-- who is in which party.
use theforgottenserver.Prelude.{ℕ, ◌≡◌, Bool, true, List, [], ◌∷◌}
use theforgottenserver.Party.Defs.{World, Game}
use theforgottenserver.Party.Handlers.{
  player_invite_to_party, player_join_party, player_revoke_party_invitation,
  player_pass_party_leadership, player_leave_party, player_enable_shared_party_experience, log_out,
}
use theforgottenserver.Party.Roster.{IsConsistent}
use theforgottenserver.Party.Requests.{
  player_invite_to_party-IsConsistent, player_join_party-IsConsistent,
  player_revoke_party_invitation-IsConsistent, player_pass_party_leadership-IsConsistent,
  player_leave_party-IsConsistent, player_enable_shared_party_experience-IsConsistent,
  log_out-IsConsistent,
}

-- The requests, and what the game does on each.
pub data Request : Type 0 where
  invite : ℕ → ℕ → Request
  join : ℕ → ℕ → Request
  revoke : ℕ → ℕ → Request
  pass_on : ℕ → ℕ → Request
  leave : ℕ → Request
  share : ℕ → Bool → Request
  logout : ℕ → Request

unfoldable pub handle : Game → World → Request → World
handle g w (invite p i) = player_invite_to_party g w p i
handle g w (join p l) = player_join_party g w p l
handle g w (revoke p i) = player_revoke_party_invitation g w p i
handle g w (pass_on p l) = player_pass_party_leadership g w p l
handle g w (leave p) = player_leave_party g w p
handle g w (share p b) = player_enable_shared_party_experience g w p b
handle g w (logout p) = log_out g w p

-- Requests in the order in which they come, each with the game as it then is.
unfoldable pub run : World → List (Game × Request) → World
run w [] = w
run w ((g, r) ∷ rs) = run (handle g w r) rs

handle-IsConsistent :
    (g : Game) (w : World) (r : Request)
    → ((q : ℕ) → g.on_disband q ≡ true)
    → IsConsistent w
    → IsConsistent (handle g w r)
unfolding handle
handle-IsConsistent g w (invite p i) ok c = player_invite_to_party-IsConsistent g w c p i
handle-IsConsistent g w (join p l) ok c = player_join_party-IsConsistent g w c p l
handle-IsConsistent g w (revoke p i) ok c = player_revoke_party_invitation-IsConsistent g w c ok p i
handle-IsConsistent g w (pass_on p l) ok c = player_pass_party_leadership-IsConsistent g w c p l
handle-IsConsistent g w (leave p) ok c = player_leave_party-IsConsistent g w c ok p
handle-IsConsistent g w (share p b) ok c =
    player_enable_shared_party_experience-IsConsistent g w c p b
handle-IsConsistent g w (logout p) ok c = log_out-IsConsistent g ok w p c

-- The scripts never refuse that a party is disbanded.
abbrev pub NeverRefuses : List (Game × Request) → Type 0
NeverRefuses [] = Unit {0}
NeverRefuses ((g, r) ∷ rs) = ((q : ℕ) → g.on_disband q ≡ true) × NeverRefuses rs

-- From a world where a player is in a party exactly when it is the leader or a member of that party,
-- any requests lead to such a world again, if the scripts never refuse that a party is disbanded.
-- The leader is then not among the members, and no member stands twice in the list.
pub run-IsConsistent :
    (w : World) (rs : List (Game × Request))
    → NeverRefuses rs
    → IsConsistent w
    → IsConsistent (run w rs)
unfolding run
run-IsConsistent w [] ok c = c
run-IsConsistent w ((g, r) ∷ rs) ok c =
    run-IsConsistent (handle g w r) rs ok.1 (handle-IsConsistent g w r ok.0 c)
