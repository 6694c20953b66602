-- ===== src/Party/Handlers.antt =====
-- The handlers of src/game.cpp for the party requests of a client, and the part of a logout in
-- src/player.cpp that takes the player out of its party. A player that is not online is a null
-- pointer; a `Party*` that is not in the store would dangle.
use theforgottenserver.Prelude.{
  ℕ, Bool, true, false, ◌&&◌, not, Option, none, some, List, [], ◌∷◌, ◌==◌, if◌then◌else◌,
}
use theforgottenserver.Party.Defs.{
  Party, World, Game, refers_to, store_party, is_player_invited, set_player,
}
use theforgottenserver.Party.SharedExperience.{set_shared_experience}
use theforgottenserver.Party.Membership.{
  new_party, pass_leadership, leave_party, join_party, remove_invite, revoke_invitation,
  invite_player,
}

-- The party that a player is in, as the pointer and the object behind it.
unfoldable pub party_of : World → ℕ → Option (ℕ × Party)
party_of w p = elim (w.players p).party [
  | none ↦ none
  | some q ↦ elim (w.parties q) [ none ↦ none | some t ↦ some (q, t) ]
]

-- The party that a player leads.
unfoldable pub led_by : World → ℕ → Option (ℕ × Party)
led_by w p = elim (party_of w p) [
  | none ↦ none
  | some (q, t) ↦ if t.leader == p then some (q, t) else none
]

-- `Player::isInviting`
unfoldable pub is_inviting : World → ℕ → ℕ → Bool
is_inviting w p invited = elim (led_by w p) [
  | none ↦ false
  | some (q, t) ↦ is_player_invited t invited
]

-- `Player::isPartner`
unfoldable pub is_partner : World → ℕ → ℕ → Bool
is_partner w p other = elim (w.players p).party [
  | none ↦ false
  | some q ↦ refers_to (w.players other).party q
]

unfoldable pub is_in_party : Option ℕ → Bool
is_in_party none = false
is_in_party (some q) = true

-- The last part of `playerInviteToParty`: a new party, or the one that the player leads.
unfoldable pub invite_from : World → ℕ → ℕ → Option ℕ → World
invite_from w p invited none =
    let (q, w') = new_party w p in
    elim (w'.parties q) [ none ↦ w' | some t ↦ (invite_player w' q t invited).1 ]
invite_from w p invited (some q) = elim (w.parties q) [
  | none ↦ w
  | some t ↦ if not (t.leader == p) then w else (invite_player w q t invited).1
]

-- `Game::playerInviteToParty`
unfoldable pub player_invite_to_party : Game → World → ℕ → ℕ → World
player_invite_to_party g w p invited =
    if not (g.is_online p && g.is_online invited)
    then w
    else if is_inviting w invited p
    then w
    else if is_in_party (w.players invited).party
    then w
    else invite_from w p invited (w.players p).party

-- `Game::playerJoinParty`
unfoldable pub player_join_party : Game → World → ℕ → ℕ → World
player_join_party g w p leader =
    if not (g.is_online p && g.is_online leader)
    then w
    else if not (is_inviting w leader p)
    then w
    else elim (led_by w leader) [
      | none ↦ w
      | some (q, t) ↦ if is_in_party (w.players p).party then w else (join_party g w q t p).1
    ]

-- `Game::playerRevokePartyInvitation`
unfoldable pub player_revoke_party_invitation : Game → World → ℕ → ℕ → World
player_revoke_party_invitation g w p invited =
    if not (g.is_online p && g.is_online invited) then w else elim (led_by w p) [
      | none ↦ w
      | some (q, t) ↦ if is_player_invited t invited then revoke_invitation g w q t invited else w
    ]

-- `Game::playerPassPartyLeadership`
unfoldable pub player_pass_party_leadership : Game → World → ℕ → ℕ → World
player_pass_party_leadership g w p new_leader =
    if not (g.is_online p && g.is_online new_leader) then w else elim (led_by w p) [
      | none ↦ w
      | some (q, t) ↦
          if is_partner w p new_leader then (pass_leadership g w q t new_leader).1 else w
    ]

-- `Game::playerLeaveParty`
unfoldable pub player_leave_party : Game → World → ℕ → World
player_leave_party g w p = if not (g.is_online p) then w else elim (party_of w p) [
  | none ↦ w
  | some (q, t) ↦ if g.is_in_fight p then w else (leave_party g w q t p).1
]

-- `Game::playerEnableSharedPartyExperience`
unfoldable pub player_enable_shared_party_experience : Game → World → ℕ → Bool → World
player_enable_shared_party_experience g w p active =
    if not (g.is_online p) then w else elim (party_of w p) [
      | none ↦ w
      | some (q, t) ↦
          if g.is_in_fight p
          then w
          else store_party w q (some (set_shared_experience g t p active).1)
    ]

-- The loop of `Player::clearPartyInvitations`.
unfoldable pub decline : Game → World → ℕ → List ℕ → World
decline g w p [] = w
decline g w p (q ∷ qs) = elim (w.parties q) [
  | none ↦ decline g w p qs
  | some t ↦ decline g (remove_invite g w q t p false).1 p qs
]

-- `Player::clearPartyInvitations`
unfoldable pub clear_party_invitations : Game → World → ℕ → World
clear_party_invitations g w p =
    let w' = decline g w p (w.players p).invite_party_list in
    set_player w' p (record (w'.players p) { invite_party_list = [] })

-- The part of `Player::onRemoveCreature` for a player that logs out.
unfoldable pub log_out : Game → World → ℕ → World
log_out g w p =
    let w' = clear_party_invitations g w p in
    elim (party_of w' p) [ none ↦ w' | some (q, t) ↦ (leave_party g w' q t p).1 ]
