-- ===== src/Party/Defs.antt =====
-- The state of src/party.h and of the players in it. A `Player*` is the player's number and a
-- `Party*` the party's; both objects live in the store `World`. The floating `extraExpRate` is kept in
-- hundredths, where all its values are whole.
pub use theforgottenserver.Prelude.{contains, erase}
use theforgottenserver.Prelude.{
  ℕ, Bool, false, ◌&&◌, Option, none, some, List, [], ◌∷◌, ◌==◌, if◌then◌else◌, is_empty,
}

pub record Party : Type 0 where
  pub leader : ℕ
  pub member_list : List ℕ
  pub invite_list : List ℕ
  pub ticks_map : List (ℕ × ℕ)
  pub extra_exp_rate : ℕ
  pub shared_exp_active : Bool
  pub shared_exp_enabled : Bool

-- The fields `party` and `invitePartyList` of a `Player`.
pub record Player : Type 0 where
  pub party : Option ℕ
  pub invite_party_list : List ℕ

pub record World : Type 0 where
  pub players : ℕ → Player
  pub parties : ℕ → Option Party
  pub next_party : ℕ

-- What the party code reads of the game: the level, position, vocation and flags of the players, the
-- clock, the setting `PZ_LOCKED`, and the answers of the scripts' event handlers.
pub record Game : Type 0 where
  pub is_online : ℕ → Bool
  pub is_in_fight : ℕ → Bool
  pub level : ℕ → ℕ
  pub from_vocation : ℕ → ℕ
  pub x : ℕ → ℕ
  pub y : ℕ → ℕ
  pub z : ℕ → ℕ
  pub not_gain_in_fight : ℕ → Bool
  pub now : ℕ
  pub pz_locked : ℕ
  pub on_join : ℕ → ℕ → Bool
  pub on_leave : ℕ → ℕ → Bool
  pub on_disband : ℕ → Bool

-- `std::forward_list::remove`
abbrev pub remove : ℕ → List ℕ → List ℕ
remove p [] = []
remove p (x ∷ xs) = if x == p then remove p xs else x ∷ remove p xs

abbrev pub refers_to : Option ℕ → ℕ → Bool
refers_to none q = false
refers_to (some r) q = r == q

-- Writes to one object of the store.
abbrev pub set_player : World → ℕ → Player → World
set_player w p v = record w { players = λ i. if i == p then v else w.players i }

abbrev pub set_party : World → ℕ → Option ℕ → World
set_party w p o = set_player w p (record (w.players p) { party = o })

abbrev pub store_party : World → ℕ → Option Party → World
store_party w q o = record w { parties = λ i. if i == q then o else w.parties i }

-- `Player::addPartyInvitation`
unfoldable pub add_party_invitation : World → ℕ → ℕ → World
add_party_invitation w p q =
    let v = w.players p in
    if contains q v.invite_party_list
    then w
    else set_player w p (record v { invite_party_list = q ∷ v.invite_party_list })

-- `Player::removePartyInvitation`
unfoldable pub remove_party_invitation : World → ℕ → ℕ → World
remove_party_invitation w p q =
    let v = w.players p in
    set_player w p (record v { invite_party_list = remove q v.invite_party_list })

unfoldable pub is_player_invited : Party → ℕ → Bool
is_player_invited t p = contains p t.invite_list

-- `Party::empty`
abbrev pub empty : Party → Bool
empty t = is_empty t.member_list && is_empty t.invite_list
