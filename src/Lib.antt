-- ===== src/Lib.antt =====
-- NeonGrid is an IRC idle game: a bot turns what happens in a channel into calls of an engine, the
-- engine keeps the runners and the shared world and writes them to a store, and a web page shows them.
--
-- The parts, and where they stand here:
-- * internal/game (game.go, features.go), the engine. Game/Data has its structs, Game/Repository the
--   interface `Repository` that it writes to, Game/Rating its formulas (`PenaltySeconds`,
--   `iceWinChance`, `collisionPower`, `clampHeat` and the like), Game/Titles the titles
--   (`updateTitles`, `CurrentTitle`), Game/Progress `advancePlayer`. Game/Engine/Action is the state
--   of the engine and the way its methods are composed, Game/Engine/Users the lookups
--   (`findLocked`) and helpers (`advanceLocked`, `queueLocked`) that the methods share. Game/Start is
--   `New`. The methods
--   are in Game/Profile (`SetAlias`, `SetTitle`, `SetFaction`, `SetStance`, `Status`, `Activity`),
--   Game/Join (`joinLocked`, `Bind`), Game/Leave (`Disconnect`, `DisconnectAll`, `Reconcile`),
--   Game/Rename (`Rename`), Game/Contract (participants that drop or are renamed) and Game/Views
--   (`Top`, `Snapshot`, `RecentEvents`). Game/World/Tick is the scheduler's `Tick`, over what the other
--   modules of Game/World have: Game/World itself the faction windows and the event log, Artifacts the
--   unique items (`rareLootLocked`, `burnOutUniquesLocked`, `stealUniqueLocked`), Encounter and
--   Collision the fights, City and Contracts the city events and the jobs, Raid, DeadDrop, Week,
--   Bulletin and Streak what internal/game/features.go adds. Game/Flavor has the announcements of
--   internal/game/flavor.go. Game/Safe has the invariant and its proof for each method, Game/Requests
--   the histories of requests; Game/Engine/Guards, Game/Engine/Gives and Game/Engine/Leaves have the
--   rules by which something is shown of what an action keeps, of what it returns and of the engine
--   that it leaves.
-- * internal/irc/ratelimit.go, the cooldowns of commands: Irc/Limiter.
-- * internal/config/config.go, the configuration and the rules made from it: Config.
-- * internal/storage/storage.go, of which the merge of a guest into an account: Storage.
--
-- How the code is read. A method takes the lock of the engine for its whole run, so it is one step: a
-- function of the engine to a result and the engine after it, where an error keeps what was written
-- before. A method that changes a runner puts the changed runner back under its key. `int` and `int64`
-- are integers that wrap around at 64 bits; a time is its count of nanoseconds since the zero time. A
-- map is an association list with distinct keys, in any order, so that what holds of every list holds
-- of every order of a `range`. The random generator is the stream of numbers it will give. Text is
-- folded as ASCII. A nil map or slice is the empty one. An index out of range or a division by 0,
-- where Go panics, gives a default.
--
-- Bounds. The level-up loop runs on fuel: a level takes at least a second of progress, so a round more
-- than the progress has seconds is enough. `expectedGearRating` has
-- five rounds at most by its own condition, and a shuffle as many rounds as there are runners.
--
-- Not modelled: what is input and output alone, that is the SQL of internal/storage, the connection and
-- the command dispatch of internal/irc/bot.go, the page of internal/web, and cmd/neongrid/main.go. A
-- claim of a dead drop whose announcement cannot be saved gives the error here, where the code gives
-- the announcement beside it. `New` is
-- given its repository and random generator; its checks for a missing one are left out.
pub mod Base
pub mod Clock
pub mod Config
pub mod Examples
pub mod Game
pub mod Irc
pub mod Storage
