-- ===== src/Party/Membership.antt =====
-- The operations of src/party.cpp on the members and invitations of a party. What they send to the
-- clients is not modelled. An operation takes the party's number `q` and its fields `t`; where it
-- stores the party again depends on whether it has deleted itself.
use theforgottenserver.Prelude.{
  ℕ, suc, Bool, true, false, ◌&&◌, ◌||◌, not, none, some, List, [], ◌∷◌, ◌++◌, ◌==◌, if◌then◌else◌,
  is_empty,
}
use theforgottenserver.Party.Defs.{
  Party, World, Game, contains, erase, refers_to, set_party, store_party, add_party_invitation,
  remove_party_invitation, is_player_invited, empty,
}
use theforgottenserver.Party.SharedExperience.{
  update_shared_experience, update_vocations_list, clear_player_points,
}

-- The constructor: `new Party(leader)`, and `leader->setParty(this)`.
unfoldable pub new_party : World → ℕ → ℕ × World
new_party w leader =
    let q = w.next_party in
    let t : Party = record {
      leader = leader;
      member_list = [];
      invite_list = [];
      ticks_map = [];
      extra_exp_rate = 20;
      shared_exp_active = false;
      shared_exp_enabled = false;
    } in
    (q, set_party (store_party (record w { next_party = suc q }) q (some t)) leader (some q))

-- The two loops of `disband`.
unfoldable pub forget_invitations : World → ℕ → List ℕ → World
unfolding remove_party_invitation
forget_invitations w q [] = w
forget_invitations w q (p ∷ ps) = forget_invitations (remove_party_invitation w p q) q ps

unfoldable pub clear_parties : World → List ℕ → World
clear_parties w [] = w
clear_parties w (p ∷ ps) = clear_parties (set_party w p none) ps

-- `Party::disband`; `delete this` takes the party out of the store.
unfoldable pub disband : Game → World → ℕ → Party → World
disband g w q t =
    if not (g.on_disband q)
    then store_party w q (some t)
    else store_party
        (clear_parties (forget_invitations (set_party w t.leader none) q t.invite_list)
          t.member_list)
        q none

-- The fields after the leadership has been passed to `p`.
unfoldable pub with_leader : Game → Party → ℕ → Party
unfolding update_shared_experience
with_leader g t p =
    update_shared_experience g
      (record t { leader = p; member_list = t.leader ∷ erase p t.member_list })

-- What `leaveParty` does about the leadership: whether the leader is missing, and the fields.
unfoldable pub hand_on : Game → World → ℕ → Party → ℕ → List ℕ → Bool × Party
unfolding with_leader
hand_on g w q t p [] = (t.leader == p, t)
hand_on g w q t p (m ∷ ms) =
    if not (t.leader == p)
    then (false, t)
    else if is_empty ms && is_empty t.invite_list
    then (true, t)
    else if t.leader == m || not (refers_to (w.players m).party q)
    then (false, t)
    else (false, with_leader g t m)

-- The fields once the player is out of the list.
unfoldable pub without_member : Game → Party → ℕ → Party
without_member g t p =
    clear_player_points g
      (update_vocations_list g
        (update_shared_experience g (record t { member_list = erase p t.member_list })))
      p

unfoldable pub leave_party : Game → World → ℕ → Party → ℕ → Bool × World
unfolding hand_on without_member
leave_party g w q t p =
    if not (refers_to (w.players p).party q) && not (t.leader == p)
    then (false, w)
    else if not (g.on_leave q p)
    then (false, w)
    else (let (missing_leader, t1) = hand_on g w q t p t.member_list in
        let t2 = without_member g t1 p in
        let w' = set_party w p none in
        (
          true,
          if missing_leader || empty t2 then disband g w' q t2 else store_party w' q (some t2),
        ))

-- `Party::passPartyLeadership`
unfoldable pub pass_leadership : Game → World → ℕ → Party → ℕ → Bool × World
unfolding with_leader
pass_leadership g w q t p =
    if t.leader == p || not (refers_to (w.players p).party q)
    then (false, w)
    else (true, store_party w q (some (with_leader g t p)))

-- The fields once the invitation is taken and the player is at the end of the list.
unfoldable pub with_member : Game → Party → ℕ → Party
with_member g t p = update_vocations_list g (
    update_shared_experience g
      (record t { invite_list = erase p t.invite_list; member_list = t.member_list ++ p ∷ [] }))

-- `Party::joinParty`
unfoldable pub join_party : Game → World → ℕ → Party → ℕ → Bool × World
unfolding with_member
join_party g w q t p =
    if not (g.on_join q p)
    then (false, w)
    else if not (contains p t.invite_list)
    then (false, w)
    else (let w' = set_party w p (some q) in
        (true, store_party (remove_party_invitation w' p q) q (some (with_member g t p))))

-- `Party::removeInvite`
unfoldable pub remove_invite : Game → World → ℕ → Party → ℕ → Bool → Bool × World
remove_invite g w q t p remove_from_player =
    if not (contains p t.invite_list)
    then (false, w)
    else (let t' = record t { invite_list = erase p t.invite_list } in
        let w' = if remove_from_player then remove_party_invitation w p q else w in
        (true, if empty t' then disband g w' q t' else store_party w' q (some t')))

-- `Party::revokeInvitation`
unfoldable pub revoke_invitation : Game → World → ℕ → Party → ℕ → World
unfolding remove_invite
revoke_invitation g w q t p = (remove_invite g w q t p true).1

-- `Party::invitePlayer`
unfoldable pub invite_player : World → ℕ → Party → ℕ → Bool × World
invite_player w q t p =
    if is_player_invited t p
    then (false, w)
    else (let t' = record t { invite_list = t.invite_list ++ p ∷ [] } in
        (true, add_party_invitation (store_party w q (some t')) p q))
