-- ===== src/Party.antt =====
-- src/party.h and src/party.cpp, with the handlers of src/game.cpp that the client's requests reach
-- and the invitations that src/player.cpp keeps: who belongs to which party.
mod Defs
pub mod Membership
pub mod Handlers
pub mod Roster
pub mod Consistent
pub mod Leave
pub mod SharedExperience
pub mod Requests
pub mod Runs
pub mod Levels
pub mod Effects
mod Tests
pub use Defs.{
  Party, Player, World, Game, contains, erase, remove, refers_to, set_player, set_party,
  store_party, is_player_invited, empty,
}
