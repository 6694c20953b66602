-- ===== src/Party/Requests.antt =====
-- Each request handler of src/game.cpp for parties, and the logout of src/player.cpp, keeps the
-- players and the parties in agreement.
use theforgottenserver.Prelude.{
  ℕ, suc, ◌≡◌, refl, inl, inr, Bool, true, false, ◌&&◌, not, Option, none, some, List, [], ◌∷◌,
  ◌==◌, if◌then◌else◌, arith, Option-cases,
}
use theforgottenserver.Party.Defs.{Party, World, Game, store_party, is_player_invited}
use theforgottenserver.Party.SharedExperience.{set_shared_experience}
use theforgottenserver.Party.Membership.{new_party, remove_invite, revoke_invitation, invite_player}
use theforgottenserver.Party.Handlers.{
  party_of, led_by, is_inviting, is_partner, is_in_party, invite_from, player_invite_to_party,
  player_join_party, player_revoke_party_invitation, player_pass_party_leadership,
  player_leave_party, player_enable_shared_party_experience, decline, clear_party_invitations,
  log_out,
}
use theforgottenserver.Party.Roster.{SameRoster, IsConsistent}
use theforgottenserver.Party.Consistent.{
  Settles-IsConsistent, same-IsConsistent, join_party-IsConsistent, invite_player-IsConsistent,
  remove_invite-IsConsistent, pass_leadership-IsConsistent, is_proper,
}
use theforgottenserver.Party.Leave.{leave_party-IsConsistent}

-- What a pointer of a player leads to.
pub party_of_stored :
    (w : World) (p : ℕ) (v : ℕ × Party) → party_of w p ≡ some v → w.parties v.0 ≡ some v.1
unfolding party_of
party_of_stored w p v h = elim (Option-cases (w.players p).party) [
  | inl e ↦ ground arith
  | inr (q, e) ↦ elim (Option-cases (w.parties q)) [
    | inl e' ↦ ground arith
    | inr (t, e') ↦ ground arith
  ]
]

pub led_by_stored :
    (w : World) (p : ℕ) (v : ℕ × Party) → led_by w p ≡ some v → w.parties v.0 ≡ some v.1
unfolding led_by
led_by_stored w p v h = elim (Option-cases (party_of w p)) [
  | inl e ↦ ground arith
  | inr (r, e) ↦ ground (arith, party_of_stored w p r e)
]

-- A player that is in no party founds one.
new_party-IsConsistent :
    (w : World) (p : ℕ)
    → (w.players p).party ≡ none
    → IsConsistent w
    → IsConsistent (new_party w p).1
unfolding new_party
new_party-IsConsistent w p free c =
    let w1 : World = record w { next_party = suc w.next_party } in
    let gone : w.parties w.next_party ≡ none = c.fresh w.next_party (omega arith) in
    let c1 : IsConsistent w1 = record {
      agrees = c.agrees;
      proper = c.proper;
      fresh = λ q h. c.fresh q (omega arith);
    } in
    Settles-IsConsistent w1 _ w.next_party _
      (record {
        kept = refl;
        parties_at = λ r. refl;
        players_at = λ x. ground (arith, c.agrees x w.next_party);
        allowed = λ x h. ground arith;
        proper_at = (refl, tt);
        known = omega arith;
      })
      c1

-- A request that does nothing where there is no party.
either :
    {A : Type 0} (o : Option A) (w : World) (f : A → World)
    → IsConsistent w
    → ((v : A) → o ≡ some v → IsConsistent (f v))
    → IsConsistent (elim o [ none ↦ w | some v ↦ f v ])
either none w f c h = c
either (some v) w f c h = h v refl

-- A request that is turned down.
guarded :
    (b : Bool) (w w' : World)
    → IsConsistent w
    → (b ≡ false → IsConsistent w')
    → IsConsistent (if b then w else w')
guarded true w w' c h = c
guarded false w w' c h = h refl

accepted :
    (b : Bool) (w' w : World)
    → IsConsistent w'
    → IsConsistent w
    → IsConsistent (if b then w' else w)
accepted true w' w h c = h
accepted false w' w h c = c

not_in_party : (o : Option ℕ) → is_in_party o ≡ false → o ≡ none
unfolding is_in_party
not_in_party none h = refl
not_in_party (some q) h = absurd (cc)

set_shared_experience-SameRoster :
    (g : Game) (t : Party) (p : ℕ) (active : Bool)
    → SameRoster t (set_shared_experience g t p active).1
unfolding set_shared_experience
set_shared_experience-SameRoster g t p active = ground arith

module _ (g : Game) (w : World) (c : IsConsistent w) where
  invite_from-IsConsistent :
      (p invited : ℕ) (o : Option ℕ)
      → (w.players p).party ≡ o
      → IsConsistent (invite_from w p invited o)
  unfolding invite_from
  invite_from-IsConsistent p invited none e =
      let c' = new_party-IsConsistent w p e c in
      let r = new_party w p in
      either (r.1.parties r.0) r.1 (λ t. (invite_player r.1 r.0 t invited).1) c'
        (λ t e'. invite_player-IsConsistent g r.1 r.0 t e' c' invited)
  invite_from-IsConsistent p invited (some q) e =
      either (w.parties q) w
        (λ t. if not (t.leader == p) then w else (invite_player w q t invited).1) c
        (λ t e'.
          guarded (not (t.leader == p)) w (invite_player w q t invited).1 c
            (λ l. invite_player-IsConsistent g w q t e' c invited))

  pub player_invite_to_party-IsConsistent :
      (p invited : ℕ) → IsConsistent (player_invite_to_party g w p invited)
  unfolding player_invite_to_party
  player_invite_to_party-IsConsistent p invited =
      let k = invite_from-IsConsistent p invited (w.players p).party refl in ground (arith, c, k)

  pub player_join_party-IsConsistent :
      (p leader : ℕ) → IsConsistent (player_join_party g w p leader)
  unfolding player_join_party
  player_join_party-IsConsistent p leader =
      guarded (not (g.is_online p && g.is_online leader)) w _ c (λ e.
        guarded (not (is_inviting w leader p)) w _ c (λ e'. either (led_by w leader) w _ c (λ v h.
          guarded (is_in_party (w.players p).party) w _ c (λ busy.
            join_party-IsConsistent g w v.0 v.1 (led_by_stored w leader v h) c p
              (not_in_party (w.players p).party busy)))))

  pub player_pass_party_leadership-IsConsistent :
      (p new_leader : ℕ) → IsConsistent (player_pass_party_leadership g w p new_leader)
  unfolding player_pass_party_leadership
  player_pass_party_leadership-IsConsistent p new_leader = guarded _ w _ c (λ e.
      either (led_by w p) w _ c (λ v h.
        accepted (is_partner w p new_leader) _ w
          (pass_leadership-IsConsistent g w v.0 v.1 (led_by_stored w p v h) c new_leader) c))

  pub player_enable_shared_party_experience-IsConsistent :
      (p : ℕ) (active : Bool) → IsConsistent (player_enable_shared_party_experience g w p active)
  unfolding player_enable_shared_party_experience
  player_enable_shared_party_experience-IsConsistent p active = guarded _ w _ c (λ e.
      either (party_of w p) w _ c (λ v h. guarded (g.is_in_fight p) w _ c (λ calm.
        let t' = (set_shared_experience g v.1 p active).1 in
        let same = set_shared_experience-SameRoster g v.1 p active in
        let stored = party_of_stored w p v h in
        same-IsConsistent g w v.0 v.1 stored c t' (store_party w v.0 (some t')) refl (λ r. refl)
          (λ x. refl) (λ x. rw (same.leader, same.members) refl)
          (rw (same.leader, same.members) (is_proper g w v.0 v.1 stored c)))))

  module _ (ok : (q : ℕ) → g.on_disband q ≡ true) where
    pub player_revoke_party_invitation-IsConsistent :
        (p invited : ℕ) → IsConsistent (player_revoke_party_invitation g w p invited)
    unfolding player_revoke_party_invitation revoke_invitation
    player_revoke_party_invitation-IsConsistent p invited = guarded _ w _ c (λ e.
        either (led_by w p) w _ c (λ v h.
          accepted (is_player_invited v.1 invited) _ w
            (remove_invite-IsConsistent g w v.0 v.1 (led_by_stored w p v h) c invited true (ok v.0))
            c))

    pub player_leave_party-IsConsistent : (p : ℕ) → IsConsistent (player_leave_party g w p)
    unfolding player_leave_party
    player_leave_party-IsConsistent p = guarded _ w _ c (λ e. either (party_of w p) w _ c (λ v h.
        guarded (g.is_in_fight p) w _ c
          (λ calm. leave_party-IsConsistent g w v.0 v.1 (party_of_stored w p v h) c p (ok v.0))))

module _ (g : Game) (ok : (q : ℕ) → g.on_disband q ≡ true) where
  decline-IsConsistent :
      (w : World) (p : ℕ) (qs : List ℕ) → IsConsistent w → IsConsistent (decline g w p qs)
  unfolding decline
  decline-IsConsistent w p [] c = c
  decline-IsConsistent w p (q ∷ qs) c =
      either (w.parties q) (decline g w p qs)
        (λ t. decline g (remove_invite g w q t p false).1 p qs) (decline-IsConsistent w p qs c)
        (λ t e.
          decline-IsConsistent (remove_invite g w q t p false).1 p qs
            (remove_invite-IsConsistent g w q t e c p false (ok q)))

  clear_party_invitations-IsConsistent :
      (w : World) (p : ℕ) → IsConsistent w → IsConsistent (clear_party_invitations g w p)
  unfolding clear_party_invitations
  clear_party_invitations-IsConsistent w p c =
      let w' = decline g w p (w.players p).invite_party_list in
      let c' = decline-IsConsistent w p (w.players p).invite_party_list c in
      record { agrees = λ x q. ground (arith, c'.agrees x q); proper = c'.proper; fresh = c'.fresh }

  pub log_out-IsConsistent : (w : World) (p : ℕ) → IsConsistent w → IsConsistent (log_out g w p)
  unfolding log_out
  log_out-IsConsistent w p c =
      let w' = clear_party_invitations g w p in
      let c' = clear_party_invitations-IsConsistent w p c in
      either (party_of w' p) w' _ c'
        (λ v h. leave_party-IsConsistent g w' v.0 v.1 (party_of_stored w' p v h) c' p (ok v.0))
