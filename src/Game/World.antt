-- ===== src/Game/World.antt =====
-- The shared world of internal/game/game.go: the log of events, and the days on which factions are
-- unlocked.
pub mod Windows
pub mod Steps
pub mod Gives
pub mod Keeps
pub mod Artifacts
pub mod Encounter
pub mod Collision
pub mod Contracts
pub mod City
pub mod DeadDrop
pub mod Raid
pub mod Week
pub mod Bulletin
pub mod Streak
pub mod Tick
use neongrid.Base.{List, String, [], drop, if◌then◌else◌, length, not, ◌&&◌, ◌*◌, ◌++◌, ◌-◌, ◌∷◌}
use neongrid.Base.Int.{pos, ◌⊕◌, ◌⊗◌}
use neongrid.Clock.{Duration, Time, add, before, hour, is_zero, zero_time}
use neongrid.Game.Engine.Action.{Action, intn, modify, pure, save_world, ◌>>=◌, ◌>>◌}
use neongrid.Game.Repository.{Repository}
use neongrid.Game.Views.{recent_events}

abbrev pub faction_swap_duration : Duration
faction_swap_duration = pos (24 * hour)

abbrev pub faction_swap_week : Duration
faction_swap_week = pos (7 * 24 * hour)

module _ {R : Type 0} where
  unfoldable pub next_faction_swap_at : Time → Action R Time
  next_faction_swap_at now = do
    days ← intn 7
    pure (add now (faction_swap_week ⊕ pos days ⊗ pos 24 ⊗ pos hour))

  -- The window that opens: from now, for a day.
  unfoldable pub open_window : Time → Time → Action R (Unit {0})
  open_window now next = modify λ e. record e {
    world = record e.world {
      faction_swap_started_at = now;
      faction_swap_until = add now faction_swap_duration;
      next_faction_swap_at = next;
    };
  }

  unfoldable pub close_window : Action R (Unit {0})
  close_window = modify λ e. record e { world = record e.world { faction_swap_until = zero_time } }

-- The last 20 events.
abbrev pub last_events : List String → List String
last_events events = drop (length events - 20) events

module _ {R : Type 0} ⦃repo : Repository R⦄ where
  unfoldable pub remember : List String → Action R (Unit {0})
  remember [] = pure tt
  remember (m ∷ ms) = do
    modify (λ e. record e {
      world = record e.world { recent_events = last_events (e.world.recent_events ++ m ∷ ms) };
    })
    save_world

  unfoldable pub restore_locks : Action R String
  restore_locks = do
    close_window
    save_world
    pure "[GRID] SYSTEM RESTORED: faction locks are back online."

  unfoldable pub crash_locks : Time → Action R String
  crash_locks now = do
    next ← next_faction_swap_at now
    open_window now next
    save_world
    pure
        "[GRID] SYSTEM CRASH: faction locks are unstable for 24 hours. Use !faction <name> to respec once, or stay the course."

  -- The announcement, or "" when nothing happens.
  unfoldable pub faction_swap_tick : Time → Action R String
  faction_swap_tick now e =
      let w = e.world in
      if not (is_zero w.faction_swap_until) && not (before now w.faction_swap_until)
      then restore_locks e
      else if is_zero w.faction_swap_until
          && not (is_zero w.next_faction_swap_at)
          && not (before now w.next_faction_swap_at)
      then crash_locks now e
      else pure "" e
