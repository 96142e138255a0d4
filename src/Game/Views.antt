-- ===== src/Game/Views.antt =====
-- The reads of internal/game/game.go: `Top`, `Snapshot` and `RecentEvents`.
use mathlib.Core.List.{reverse}
use neongrid.Base.{List, String, [], if◌then◌else◌, map, not, take, ◌∷◌}
use neongrid.Base.Int.{ltb_ℤ, pos, pos_part, ℤ}
use neongrid.Base.Map.{Map}
use neongrid.Clock.{Time}
use neongrid.Game.Data.{Player, WorldState}
use neongrid.Game.Engine.Action.{Action, Engine, call, gets, pure, save, ◌>>=◌, ◌>>◌}
use neongrid.Game.Engine.Users.{Entry, advance_locked}
use neongrid.Game.Progress.{advance_player}
use neongrid.Game.Repository.{Repository}

module _ {R : Type 0} ⦃repo : Repository R⦄ where
  unfoldable pub top_one : String → Player → Time → Action R (Unit {0})
  top_one key p now = if not p.connected then pure tt else do q ← advance_locked key p now; save q

  -- The loop of `Top`.
  unfoldable pub top_each : Map Player → Time → Action R (Unit {0})
  top_each [] now = pure tt
  top_each ((key, p) ∷ users) now = top_one key p now >> top_each users now

  unfoldable pub top : ℤ → Time → Action R (List Player)
  top limit now = do
    users ← gets (λ e. e.users)
    top_each users now
    call (repo.top (if ltb_ℤ limit (pos 1) then pos 10 else limit))

-- Views for the observer: runners are copies, advanced to now, and the engine stays as it is.
unfoldable pub snapshot : {R : Type 0} → Time → Engine R → List Player × WorldState
snapshot now e = (map (λ (x : Entry). (advance_player x.1 now e.rules).0) e.users, e.world)

-- `RecentEvents` gives the newest first.
unfoldable pub recent_events : {R : Type 0} → ℤ → Engine R → List String
recent_events limit e =
    take (if ltb_ℤ limit (pos 1) then 10 else pos_part limit) (reverse e.world.recent_events)
