-- ===== src/Game/Engine.antt =====
-- The state of `Engine` (internal/game/game.go) and the actions on it. The mutex makes each method
-- run alone, so a method is a function of the state. A runner behind a `*Player` is the entry of
-- `users` under its key: a method that changes it writes the entry back at once.
pub mod Action
pub mod Users
pub mod Laws
pub mod Guards
pub mod Finds
pub mod Gives
pub mod Leaves
