-- ===== src/Party/Roster.antt =====
-- Who is in a party, by the party and by the players: the two views agree.
use theforgottenserver.Prelude.{
  ℕ, ◌≤◌, ◌≡◌, refl, Bool, true, false, ◌&&◌, ◌||◌, not, Option, none, some, List, [], ◌∷◌, ◌++◌,
  ◌==◌, if◌then◌else◌, arith, ◌∙◌,
}
use theforgottenserver.Party.Defs.{
  Party, World, Game, contains, erase, refers_to, set_party, remove_party_invitation,
}
use theforgottenserver.Party.SharedExperience.{
  update_shared_experience, update_vocations_list, clear_player_points,
}
use theforgottenserver.Party.Membership.{
  forget_invitations, clear_parties, disband, without_member, with_member,
}

-- The leader and the members.
abbrev pub on_roster : Party → ℕ → Bool
on_roster t p = (t.leader == p) || contains p t.member_list

abbrev pub roster : Option Party → ℕ → Bool
roster none p = false
roster (some t) p = on_roster t p

abbrev pub Distinct : List ℕ → Type 0
Distinct [] = Unit {0}
Distinct (x ∷ xs) = (contains x xs ≡ false) × Distinct xs

-- The leader is not among the members, and no member stands twice.
abbrev pub IsProper : Option Party → Type 0
IsProper none = Unit {0}
IsProper (some t) = (contains t.leader t.member_list ≡ false) × Distinct t.member_list

pub record IsConsistent (w : World) : Type 0 where
  pub agrees : (p q : ℕ) → refers_to (w.players p).party q ≡ roster (w.parties q) p
  pub proper : (q : ℕ) → IsProper (w.parties q)
  pub fresh : (q : ℕ) → w.next_party ≤ q → w.parties q ≡ none

pub contains-snoc :
    (x p : ℕ) (ms : List ℕ) → contains x (ms ++ p ∷ []) ≡ (contains x ms || (p == x))
contains-snoc x p [] = ground arith
contains-snoc x p (m ∷ ms) = ground (arith, contains-snoc x p ms)

pub contains-erase :
    (x p : ℕ) (ms : List ℕ)
    → Distinct ms
    → contains x (erase p ms) ≡ (not (x == p) && contains x ms)
contains-erase x p [] d = ground arith
contains-erase x p (m ∷ ms) d = ground (arith, contains-erase x p ms d.1)

pub erase-Distinct : (p : ℕ) (ms : List ℕ) → Distinct ms → Distinct (erase p ms)
erase-Distinct p [] d = tt
erase-Distinct p (m ∷ ms) d = ground (arith, erase-Distinct p ms d.1, contains-erase m p ms d.1)

pub snoc-Distinct :
    (p : ℕ) (ms : List ℕ) → contains p ms ≡ false → Distinct ms → Distinct (ms ++ p ∷ [])
snoc-Distinct p [] e d = (refl, tt)
snoc-Distinct p (m ∷ ms) e d = ground (arith, snoc-Distinct p ms, contains-snoc m p ms)

-- What the updates of shared experience leave alone.
pub record SameRoster (t t' : Party) : Type 0 where
  pub leader : t'.leader ≡ t.leader
  pub members : t'.member_list ≡ t.member_list
  pub invites : t'.invite_list ≡ t.invite_list

pub update_shared_experience-SameRoster :
    (g : Game) (t : Party) → SameRoster t (update_shared_experience g t)
unfolding update_shared_experience
update_shared_experience-SameRoster g t = ground arith

pub update_vocations_list-SameRoster :
    (g : Game) (t : Party) → SameRoster t (update_vocations_list g t)
unfolding update_vocations_list
update_vocations_list-SameRoster g t = record { leader = refl; members = refl; invites = refl }

clear_player_points-SameRoster :
    (g : Game) (t : Party) (p : ℕ) → SameRoster t (clear_player_points g t p)
unfolding clear_player_points update_shared_experience
clear_player_points-SameRoster g t p = ground arith

pub without_member-SameRoster :
    (g : Game) (t : Party) (p : ℕ)
    → SameRoster (record t { member_list = erase p t.member_list }) (without_member g t p)
unfolding without_member
without_member-SameRoster g t p =
    let t0 : Party = record t { member_list = erase p t.member_list } in
    let t1 = update_shared_experience g t0 in
    let t2 = update_vocations_list g t1 in
    let a = update_shared_experience-SameRoster g t0 in
    let b = update_vocations_list-SameRoster g t1 in
    let c = clear_player_points-SameRoster g t2 p in
    record {
      leader = c.leader ∙ b.leader ∙ a.leader;
      members = c.members ∙ b.members ∙ a.members;
      invites = c.invites ∙ b.invites ∙ a.invites;
    }

pub with_member-SameRoster :
    (g : Game) (t : Party) (p : ℕ)
    → SameRoster
        (record t { invite_list = erase p t.invite_list; member_list = t.member_list ++ p ∷ [] })
        (with_member g t p)
unfolding with_member
with_member-SameRoster g t p =
    let t0 : Party = record t {
      invite_list = erase p t.invite_list;
      member_list = t.member_list ++ p ∷ [];
    } in
    let a = update_shared_experience-SameRoster g t0 in
    let b = update_vocations_list-SameRoster g (update_shared_experience g t0) in
    record {
      leader = b.leader ∙ a.leader;
      members = b.members ∙ a.members;
      invites = b.invites ∙ a.invites;
    }

-- The two loops of `disband`.
pub forget_invitations_parties :
    (w : World) (q : ℕ) (ps : List ℕ)
    → ((forget_invitations w q ps).parties ≡ w.parties)
      × ((forget_invitations w q ps).next_party ≡ w.next_party)
      × ((x : ℕ) → ((forget_invitations w q ps).players x).party ≡ (w.players x).party)
unfolding forget_invitations
forget_invitations_parties w q [] = (refl, refl, λ x. refl)
forget_invitations_parties w q (p ∷ ps) =
    let ih = forget_invitations_parties (remove_party_invitation w p q) q ps in
    (ih.0, ih.1, λ x. ih.2 x ∙ ground arith)

pub clear_parties_lem :
    (w : World) (ps : List ℕ)
    → ((clear_parties w ps).parties ≡ w.parties)
      × ((clear_parties w ps).next_party ≡ w.next_party)
      × ((x : ℕ)
          → ((clear_parties w ps).players x).party
            ≡ (if contains x ps then none else (w.players x).party))
unfolding clear_parties
clear_parties_lem w [] = (refl, refl, λ x. refl)
clear_parties_lem w (p ∷ ps) =
    let ih = clear_parties_lem (set_party w p none) ps in (ih.0, ih.1, λ x. ih.2 x ∙ ground arith)

-- Once a party is disbanded nobody is in it, and all else is as before.
pub disband_lem :
    (g : Game) (w : World) (q : ℕ) (t : Party)
    → g.on_disband q ≡ true
    → let w' = disband g w q t in
      (w'.next_party ≡ w.next_party)
      × ((r : ℕ) → w'.parties r ≡ (if r == q then none else w.parties r))
      × ((x : ℕ) → (w'.players x).party ≡ (if on_roster t x then none else (w.players x).party))
unfolding disband
disband_lem g w q t ok =
    let w1 = set_party w t.leader none in
    let f = forget_invitations_parties w1 q t.invite_list in
    let c = clear_parties_lem (forget_invitations w1 q t.invite_list) t.member_list in
    rw ok (c.1 ∙ f.1, λ r. rw (c.0, f.0), λ x. c.2 x ∙ ground (arith, f.2 x))
