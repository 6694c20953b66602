-- ===== src/Party/Consistent.antt =====
-- Every operation on a party keeps the two views of its members in agreement.
use theforgottenserver.Prelude.{
  ℕ, ◌<◌, ◌≡◌, refl, ◌⊎◌, inl, inr, Bool, true, false, ◌||◌, not, Option, none, some, [], ◌∷◌, ◌++◌,
  leb, leb→le, ◌==◌, if◌then◌else◌, arith, Bool-cases, ==→eq, ==-refl, ap, ◌∙◌, sym, subst,
}
use theforgottenserver.Party.Defs.{
  Party, World, Game, contains, erase, refers_to, store_party, add_party_invitation,
  remove_party_invitation, is_player_invited, empty,
}
use theforgottenserver.Party.SharedExperience.{update_shared_experience}
use theforgottenserver.Party.Membership.{
  disband, with_leader, with_member, pass_leadership, join_party, remove_invite, invite_player,
}
use theforgottenserver.Party.Roster.{
  on_roster, roster, IsProper, IsConsistent, contains-snoc, contains-erase, erase-Distinct,
  snoc-Distinct, with_member-SameRoster, disband_lem,
}

refers_to_one :
    (o : Option ℕ) (q r : ℕ) → refers_to o q ≡ true → (r == q) ≡ false → refers_to o r ≡ false
refers_to_one none q r h ne = cc
refers_to_one (some s) q r h ne = ground arith

pub refers_to_self : (o : Option ℕ) (q : ℕ) → refers_to o q ≡ true → o ≡ some q
refers_to_self none q h = cc
refers_to_self (some s) q h = ground arith

-- A change of one party: it becomes `o`, and exactly those that were in it or come into it are told.
pub record Settles (w w' : World) (q : ℕ) (o : Option Party) : Type 0 where
  pub kept : w'.next_party ≡ w.next_party
  pub parties_at : (r : ℕ) → w'.parties r ≡ (if r == q then o else w.parties r)
  pub players_at :
      (x : ℕ)
      → (w'.players x).party ≡ (
          if roster o x
          then some q
          else if roster (w.parties q) x
          then none
          else (w.players x).party)
  pub allowed :
      (x : ℕ) → roster o x ≡ true → (roster (w.parties q) x ≡ true) ⊎ ((w.players x).party ≡ none)
  pub proper_at : IsProper o
  pub known : q < w.next_party

module _ (w w' : World) (q : ℕ) (o : Option Party) (s : Settles w w' q o) (c : IsConsistent w) where
  elsewhere :
      (x r : ℕ)
      → (r == q) ≡ false
      → (roster o x ≡ true) ⊎ (roster (w.parties q) x ≡ true)
      → roster (w.parties r) x ≡ false
  elsewhere x r ne h =
      ground (arith, s.allowed x, c.agrees x r, c.agrees x q, refers_to_one (w.players x).party q r)

  Settles-agrees : (x r : ℕ) → refers_to (w'.players x).party r ≡ roster (w'.parties r) x
  Settles-agrees x r = elim (Bool-cases (r == q)) [
    | inl same ↦
        let e : r ≡ q = ==→eq r q same in
        rw (s.players_at x, s.parties_at r, e, ==-refl q) (ground (arith, c.agrees x q))
    | inr other ↦
        rw (s.players_at x, s.parties_at r, other)
          (ground (arith, c.agrees x r, elsewhere x r other))
  ]

  pub Settles-IsConsistent : IsConsistent w'
  Settles-IsConsistent = record {
    agrees = Settles-agrees;
    proper = λ r.
        rw (s.parties_at r)
          (elim (Bool-cases (r == q)) [ inl e ↦ rw e s.proper_at | inr e ↦ rw e (c.proper r) ]);
    fresh = λ r h.
        let k = s.known in
        let n = s.kept in
        let ne : (r == q) ≡ false = ground arith in
        rw (s.parties_at r, ne) (c.fresh r (omega arith));
  }

module _ (g : Game) (w : World) (q : ℕ) (t : Party) (stored : w.parties q ≡ some t)
    (c : IsConsistent w) where
  pub known_party : q < w.next_party
  known_party = elim (Bool-cases (leb w.next_party q)) [
    | inl e ↦ absurd (cc (c.fresh q (leb→le w.next_party q e)))
    | inr e ↦ ground arith
  ]

  pub before : (x : ℕ) → roster (w.parties q) x ≡ on_roster t x
  before x = ap (λ o. roster o x) stored

  pub is_proper : IsProper (some t)
  is_proper = subst IsProper stored (c.proper q)

  -- A change that leaves the roster and the players' parties alone.
  pub same-IsConsistent :
      (t' : Party) (w' : World)
      → w'.next_party ≡ w.next_party
      → ((r : ℕ) → w'.parties r ≡ (if r == q then some t' else w.parties r))
      → ((x : ℕ) → (w'.players x).party ≡ (w.players x).party)
      → ((x : ℕ) → on_roster t' x ≡ on_roster t x)
      → IsProper (some t')
      → IsConsistent w'
  same-IsConsistent t' w' n at_party at_player same ok =
      Settles-IsConsistent w w' q (some t')
        (record {
          kept = n;
          parties_at = at_party;
          players_at = λ x.
              at_player x
              ∙ ground
                  (arith, same x, before x, c.agrees x q, refers_to_self (w.players x).party q);
          allowed = λ x h. inl (before x ∙ sym (same x) ∙ h);
          proper_at = ok;
          known = known_party;
        })
        c

  -- The party is gone, whatever its last fields were.
  pub disband-IsConsistent :
      (t' : Party) (w1 : World)
      → g.on_disband q ≡ true
      → w1.next_party ≡ w.next_party
      → ((r : ℕ) → (r == q) ≡ false → w1.parties r ≡ w.parties r)
      → ((x : ℕ)
          → (if on_roster t' x then none else (w1.players x).party)
            ≡ (if on_roster t x then none else (w.players x).party))
      → IsConsistent (disband g w1 q t')
  disband-IsConsistent t' w1 ok same_next same_parties gone =
      let d = disband_lem g w1 q t' ok in
      Settles-IsConsistent w (disband g w1 q t') q none
        (record {
          kept = d.0 ∙ same_next;
          parties_at = λ r. d.1 r ∙ ground (arith, same_parties r);
          players_at = λ x. d.2 x ∙ gone x ∙ rw (before x);
          allowed = λ x h. absurd (cc);
          proper_at = tt;
          known = known_party;
        })
        c

  -- The roster and the shape of the party with a new member.
  with_member_roster : (p x : ℕ) → on_roster (with_member g t p) x ≡ (on_roster t x || (p == x))
  with_member_roster p x =
      let s = with_member-SameRoster g t p in
      rw (s.leader, s.members, contains-snoc x p t.member_list) (ground arith)

  with_member-IsProper : (p : ℕ) → on_roster t p ≡ false → IsProper (some (with_member g t p))
  with_member-IsProper p new =
      let s = with_member-SameRoster g t p in
      let k = is_proper in
      rw (s.leader, s.members)
        (
          ground (arith, contains-snoc t.leader p t.member_list),
          snoc-Distinct p t.member_list (ground arith) k.1,
        )

  -- `joinParty` of a player that is in no party.
  pub join_party-IsConsistent :
      (p : ℕ) → (w.players p).party ≡ none → IsConsistent (join_party g w q t p).1
  unfolding join_party remove_party_invitation
  join_party-IsConsistent p free =
      let new : on_roster t p ≡ false = ground (arith, before p, c.agrees p q) in
      elim (Bool-cases (g.on_join q p)) [
        | inl e ↦ elim (Bool-cases (contains p t.invite_list)) [
          | inl e' ↦
              rw (e, e')
                (Settles-IsConsistent w _ q (some (with_member g t p))
                  (record {
                    kept = refl;
                    parties_at = λ r. refl;
                    players_at = λ x. ground (
                      arith,
                      with_member_roster p x,
                      before x,
                      c.agrees x q,
                      refers_to_self (w.players x).party q,
                    );
                    allowed = λ x h. ground (arith, with_member_roster p x, before x);
                    proper_at = with_member-IsProper p new;
                    known = known_party;
                  })
                  c)
          | inr e' ↦ rw (e, e') c
        ]
        | inr e ↦ rw e c
      ]

  -- `invitePlayer`
  pub invite_player-IsConsistent : (p : ℕ) → IsConsistent (invite_player w q t p).1
  unfolding invite_player is_player_invited add_party_invitation
  invite_player-IsConsistent p = elim (Bool-cases (contains p t.invite_list)) [
    | inl e ↦ rw e c
    | inr e ↦
        let t' : Party = record t { invite_list = t.invite_list ++ p ∷ [] } in
        rw e (
          same-IsConsistent t' (add_party_invitation (store_party w q (some t')) p q) (ground arith)
            (λ r. ground arith) (λ x. ground arith) (λ x. refl) is_proper)
  ]

  -- `removeInvite`, with its disbanding of a party that is left empty.
  pub remove_invite-IsConsistent :
      (p : ℕ) (flag : Bool) → g.on_disband q ≡ true → IsConsistent (remove_invite g w q t p flag).1
  unfolding remove_invite remove_party_invitation
  remove_invite-IsConsistent p flag ok =
      let t' : Party = record t { invite_list = erase p t.invite_list } in
      let w' = if flag then remove_party_invitation w p q else w in
      elim (Bool-cases (contains p t.invite_list)) [
        | inl e ↦ elim (Bool-cases (empty t')) [
          | inl e' ↦
              rw (e, e')
                (disband-IsConsistent t' w' ok (ground arith) (λ r ne. ground arith)
                  (λ x. ground arith))
          | inr e' ↦
              rw (e, e')
                (same-IsConsistent t' (store_party w' q (some t')) (ground arith)
                  (λ r. ground arith) (λ x. ground arith) (λ x. refl) is_proper)
        ]
        | inr e ↦ rw e c
      ]

  -- The roster when the leadership goes to a member.
  pub with_leader_roster :
      (p x : ℕ) → contains p t.member_list ≡ true → on_roster (with_leader g t p) x ≡ on_roster t x
  unfolding with_leader update_shared_experience
  with_leader_roster p x h = ground (arith, contains-erase x p t.member_list is_proper.1)

  pub with_leader-IsProper :
      (p : ℕ) → contains p t.member_list ≡ true → IsProper (some (with_leader g t p))
  unfolding with_leader update_shared_experience
  with_leader-IsProper p h = ground (
    arith,
    is_proper.0,
    contains-erase p p t.member_list is_proper.1,
    contains-erase t.leader p t.member_list is_proper.1,
    erase-Distinct p t.member_list is_proper.1,
  )

  -- `passPartyLeadership`
  pub pass_leadership-IsConsistent : (p : ℕ) → IsConsistent (pass_leadership g w q t p).1
  unfolding pass_leadership
  pass_leadership-IsConsistent p =
      elim (Bool-cases (t.leader == p || not (refers_to (w.players p).party q))) [
        | inl e ↦ rw e c
        | inr e ↦
            let h : contains p t.member_list ≡ true = ground (arith, before p, c.agrees p q) in
            rw e (
              same-IsConsistent (with_leader g t p) (store_party w q (some (with_leader g t p)))
                refl (λ r. refl) (λ x. refl) (λ x. with_leader_roster p x h)
                (with_leader-IsProper p h))
      ]
