-- ===== src/Party/Leave.antt =====
-- `leaveParty` keeps the two views of the members in agreement, whoever leaves.
use theforgottenserver.Prelude.{
  ℕ, ◌≡◌, refl, ◌⊎◌, inl, inr, Bool, true, false, ◌&&◌, ◌||◌, not, none, some, List, [], ◌∷◌, ◌==◌,
  is_empty, arith, Bool-cases, ==-refl,
}
use theforgottenserver.Party.Defs.{
  Party, World, Game, contains, refers_to, set_party, store_party, empty,
}
use theforgottenserver.Party.SharedExperience.{update_shared_experience}
use theforgottenserver.Party.Membership.{with_leader, hand_on, without_member, leave_party}
use theforgottenserver.Party.Roster.{
  on_roster, IsProper, IsConsistent, contains-erase, erase-Distinct, without_member-SameRoster,
}
use theforgottenserver.Party.Consistent.{
  Settles-IsConsistent, before, is_proper, known_party, disband-IsConsistent, with_leader_roster,
  with_leader-IsProper, refers_to_self,
}

with_leader-leader : (g : Game) (t : Party) (p : ℕ) → (with_leader g t p).leader ≡ p
unfolding with_leader update_shared_experience
with_leader-leader g t p = ground arith

-- What `leaveParty` has when it comes to take the player out of the list.
record Handed (t : Party) (p : ℕ) (r : Bool × Party) : Type 0 where
  same : (x : ℕ) → on_roster r.1 x ≡ on_roster t x
  fine : IsProper (some r.1)
  led : (r.0 ≡ true) ⊎ ((r.1.leader == p) ≡ false)

module _ (g : Game) (w : World) (q : ℕ) (t : Party) (stored : w.parties q ≡ some t)
    (c : IsConsistent w) where
  keeps_leader : (p : ℕ) (b : Bool) → (b ≡ true) ⊎ ((t.leader == p) ≡ false) → Handed t p (b, t)
  keeps_leader p b h = record { same = λ x. refl; fine = is_proper g w q t stored c; led = h }

  hand_on-Handed : (p : ℕ) (ms : List ℕ) → t.member_list ≡ ms → Handed t p (hand_on g w q t p ms)
  unfolding hand_on
  hand_on-Handed p [] e = keeps_leader p (t.leader == p) (ground arith)
  hand_on-Handed p (m ∷ ms) e = elim (Bool-cases (t.leader == p)) [
    | inr other ↦ rw other (keeps_leader p false (inr other))
    | inl leads ↦ elim (Bool-cases (is_empty ms && is_empty t.invite_list)) [
      | inl last ↦ rw (leads, last) (keeps_leader p true (inl refl))
      | inr more ↦
          let member : contains m t.member_list ≡ true = rw (e, ==-refl m) in
          let fine = is_proper g w q t stored c in
          let apart : (t.leader == m) ≡ false = ground (arith, fine.0) in
          let told : refers_to (w.players m).party q ≡ true =
            ground (arith, before g w q t stored c m, c.agrees m q) in
          rw (leads, more, apart, told)
            (record {
              same = λ x. with_leader_roster g w q t stored c m x member;
              fine = with_leader-IsProper g w q t stored c m member;
              led = inr (rw (with_leader-leader g t m) (ground arith));
            })
    ]
  ]

without_member_roster :
    (g : Game) (t : Party) (p x : ℕ)
    → IsProper (some t)
    → on_roster (without_member g t p) x
      ≡ ((t.leader == x) || (not (x == p) && contains x t.member_list))
without_member_roster g t p x ok =
    let s = without_member-SameRoster g t p in
    rw (s.leader, s.members, contains-erase x p t.member_list ok.1)

without_member-IsProper :
    (g : Game) (t : Party) (p : ℕ) → IsProper (some t) → IsProper (some (without_member g t p))
without_member-IsProper g t p ok =
    let s = without_member-SameRoster g t p in
    rw (s.leader, s.members)
      (
        ground (arith, ok.0, contains-erase t.leader p t.member_list ok.1),
        erase-Distinct p t.member_list ok.1,
      )

module _ (g : Game) (w : World) (q : ℕ) (t : Party) (stored : w.parties q ≡ some t)
    (c : IsConsistent w) where
  -- `leaveParty`, where the scripts let the party be disbanded.
  pub leave_party-IsConsistent :
      (p : ℕ) → g.on_disband q ≡ true → IsConsistent (leave_party g w q t p).1
  unfolding leave_party
  leave_party-IsConsistent p ok =
      let r = hand_on g w q t p t.member_list in
      let h = hand_on-Handed g w q t stored c p t.member_list refl in
      let t2 = without_member g r.1 p in
      elim (Bool-cases (not (refers_to (w.players p).party q) && not (t.leader == p))) [
        | inl e ↦ rw e c
        | inr e ↦ elim (Bool-cases (g.on_leave q p)) [
          | inr e' ↦ rw (e, e') c
          | inl e' ↦
              let inside : on_roster t p ≡ true =
                ground (arith, before g w q t stored c p, c.agrees p q) in
              elim (Bool-cases (r.0 || empty t2)) [
                | inl gone ↦
                    rw (e, e', gone)
                      (disband-IsConsistent g w q t stored c t2 (set_party w p none) ok refl
                        (λ s ne. refl)
                        (λ x. ground (arith, h.same x, without_member_roster g r.1 p x h.fine)))
                | inr stays ↦
                    rw (e, e', stays)
                      (Settles-IsConsistent w (store_party (set_party w p none) q (some t2)) q
                        (some t2)
                        (record {
                          kept = refl;
                          parties_at = λ s. refl;
                          players_at = λ x. ground (
                            arith,
                            h.same x,
                            h.led,
                            without_member_roster g r.1 p x h.fine,
                            before g w q t stored c x,
                            c.agrees x q,
                            refers_to_self (w.players x).party q,
                            inside,
                          );
                          allowed = λ x k. ground (
                            arith,
                            h.same x,
                            without_member_roster g r.1 p x h.fine,
                            before g w q t stored c x,
                          );
                          proper_at = without_member-IsProper g r.1 p h.fine;
                          known = known_party g w q t stored c;
                        })
                        c)
              ]
        ]
      ]
