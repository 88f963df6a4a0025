-- ===== src/World.antt =====
-- ssh-hunt/crates/world/src/lib.rs: the shared world of the players.
pub mod Records
pub mod State
pub mod Accounts
pub mod Auction
pub mod Daily
pub mod Duel
pub mod NetCity
pub mod Missions
pub mod NpcDuel
pub mod Board
pub mod Mail
pub mod Seeds
pub mod Tests
