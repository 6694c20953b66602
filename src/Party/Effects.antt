-- ===== src/Party/Effects.antt =====
-- What a member and the others see of `joinParty` and `leaveParty`.
use theforgottenserver.Prelude.{
  ℕ, ◌≡◌, refl, inl, inr, true, false, ◌&&◌, ◌||◌, not, none, some, List, [], ◌∷◌, ◌++◌, ◌==◌,
  if◌then◌else◌, arith, Bool-cases, sym, ◌∙◌,
}
use theforgottenserver.Party.Defs.{
  Party, World, Game, contains, erase, remove, refers_to, set_party, remove_party_invitation, empty,
}
use theforgottenserver.Party.Membership.{
  disband, hand_on, without_member, with_member, leave_party, join_party,
}
use theforgottenserver.Party.Roster.{roster, IsConsistent, with_member-SameRoster, disband_lem}
use theforgottenserver.Party.Leave.{leave_party-IsConsistent}

contains-remove : (q : ℕ) (ps : List ℕ) → contains q (remove q ps) ≡ false
contains-remove q [] = refl
contains-remove q (p ∷ ps) = ground (arith, contains-remove q ps)

-- A player joins if and only if the scripts allow it and the party has invited the player. It is
-- then the last member of the list and points to the party; its list of invitations no longer
-- holds the party, and one entry of the player is gone from the party's invitations. Otherwise
-- nothing changes.
pub join_party_lem :
    (g : Game) (w : World) (q : ℕ) (t : Party) (p : ℕ)
    → let r = join_party g w q t p in
      if g.on_join q p && contains p t.invite_list
      then (r.0 ≡ true)
        × ((r.1.players p).party ≡ some q)
        × (contains q (r.1.players p).invite_party_list ≡ false)
        × (r.1.parties q ≡ some (with_member g t p))
        × ((with_member g t p).member_list ≡ t.member_list ++ p ∷ [])
        × ((with_member g t p).invite_list ≡ erase p t.invite_list)
      else (r.0 ≡ false) × (r.1 ≡ w)
unfolding join_party remove_party_invitation
join_party_lem g w q t p =
    let s = with_member-SameRoster g t p in
    elim (Bool-cases (g.on_join q p)) [
      | inl e ↦ elim (Bool-cases (contains p t.invite_list)) [
        | inl e' ↦
            rw (e, e')
              (
                refl,
                ground arith,
                ground (arith, contains-remove q (w.players p).invite_party_list),
                ground arith,
                s.members,
                s.invites,
              )
        | inr e' ↦ rw (e, e') (refl, refl)
      ]
      | inr e ↦ rw e (refl, refl)
    ]

disband_frees :
    (g : Game) (w : World) (q : ℕ) (t : Party) (p : ℕ)
    → g.on_disband q ≡ true
    → (w.players p).party ≡ none
    → ((disband g w q t).players p).party ≡ none
disband_frees g w q t p ok free = let d = disband_lem g w q t ok in d.2 p ∙ ground arith

leave_party_frees :
    (g : Game) (w : World) (q : ℕ) (t : Party) (p : ℕ)
    → g.on_disband q ≡ true
    → (leave_party g w q t p).0 ≡ true
    → ((leave_party g w q t p).1.players p).party ≡ none
unfolding leave_party
leave_party_frees g w q t p ok left =
    let r = hand_on g w q t p t.member_list in
    let t2 = without_member g r.1 p in
    elim (Bool-cases (not (refers_to (w.players p).party q) && not (t.leader == p))) [
      | inl e ↦ absurd (ground arith)
      | inr e ↦ elim (Bool-cases (g.on_leave q p)) [
        | inr e' ↦ absurd (ground arith)
        | inl e' ↦ elim (Bool-cases (r.0 || empty t2)) [
          | inl gone ↦
              rw (e, e', gone) (disband_frees g (set_party w p none) q t2 p ok (ground arith))
          | inr stays ↦ rw (e, e', stays) (ground arith)
        ]
      ]
    ]

-- In a consistent world and a game whose scripts let the party be disbanded: when `leaveParty`
-- succeeds, the player has no party, and the party, if it is still there, has the player neither as
-- its leader nor among its members.
pub leave_party_leaves :
    (g : Game) (w : World) (q : ℕ) (t : Party) (p : ℕ)
    → w.parties q ≡ some t
    → IsConsistent w
    → g.on_disband q ≡ true
    → (leave_party g w q t p).0 ≡ true
    → (((leave_party g w q t p).1.players p).party ≡ none)
      × (roster ((leave_party g w q t p).1.parties q) p ≡ false)
leave_party_leaves g w q t p stored c ok left =
    let free = leave_party_frees g w q t p ok left in
    let c' = leave_party-IsConsistent g w q t stored c p ok in
    (free, sym (c'.agrees p q) ∙ rw free refl)
