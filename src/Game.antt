-- ===== src/Game.antt =====
-- The game engine, internal/game.
pub mod Data
pub mod Rating
pub mod Titles
pub mod Progress
pub mod Repository
pub mod Engine
pub mod Contract
pub mod Profile
pub mod Join
pub mod Leave
pub mod Rename
pub mod Views
pub mod Flavor
pub mod Start
pub mod World
pub mod Safe
pub mod Requests
