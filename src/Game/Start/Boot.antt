-- ===== src/Game/Start/Boot.antt =====
-- `New` after its rules: the runners of the store are repaired and saved again, and the world gets the
-- timers that it does not have yet. The engine is filled step by step.
use neongrid.Base.{Bool, List, [], false, if◌then◌else◌, none, ℕ, ◌&&◌, ◌||◌, ◌∷◌}
use neongrid.Base.Int.{eqb_ℤ, ltb_ℤ, pos, ℤ, ◌⊕◌}
use neongrid.Base.Map.{Map}
use neongrid.Clock.{Time, add, is_zero, zero_time}
use neongrid.Config.Rules.{rules}
use neongrid.Game.Data.{Item, Player, Rules, district_neon_market}
use neongrid.Game.Engine.Action.{Action, Engine, call, gets, pure, save, save_world_if, ◌>>=◌, ◌>>◌}
use neongrid.Game.Engine.Users.{put_user}
use neongrid.Game.Rating.{clamp_heat, valid_district}
use neongrid.Game.Repository.{Repository, Result, err, ok}
use neongrid.Game.Start.{repaired_rules}
use neongrid.Game.World.{next_faction_swap_at}
use neongrid.Game.World.Artifacts.{unique_life_levels}
use neongrid.Game.World.Bulletin.{bulletin_interval}
use neongrid.Game.World.Steps.{edit_world}
use neongrid.Game.World.Week.{faction_week_length}

-- A time that has not been set.
abbrev pub or_time : Time → Time → Time
or_time t fallback = if is_zero t then fallback else t

-- What `New` sets before it looks at the equipment.
unfoldable pub unlinked_at : Time → Player → Player
unlinked_at now p = record p {
  level = if ltb_ℤ p.level (pos 1) then pos 1 else p.level;
  heat = clamp_heat p.heat;
  connected = false;
  last_progress_at = now;
  last_heat_at = now;
}

unfoldable pub on_time : Rules → Time → Player → Player
on_time rules now p = record p {
  district = if valid_district p.district then p.district else district_neon_market;
  next_district_at = or_time p.next_district_at (add now rules.district_interval);
  next_encounter_at = or_time p.next_encounter_at (add now rules.encounter_interval);
  next_collision_at = or_time p.next_collision_at (add now rules.collision_interval);
}

-- An artifact from before artifacts burned out.
abbrev pub is_ageless : Item → Bool
is_ageless item = item.unique && eqb_ℤ item.breaks_at (pos 0)

-- An engine that has not been filled.
unfoldable pub blank : {R : Type 0} → Rules → (ℕ → ℕ) → R → Engine R
unfolding repaired_rules
blank rules rng store = record {
  store = store;
  rules = repaired_rules rules;
  rng = rng;
  world = record {
    pirate_until = zero_time;
    next_city_event_at = zero_time;
    faction_swap_until = zero_time;
    faction_swap_started_at = zero_time;
    next_faction_swap_at = zero_time;
    recent_events = [];
    contract = none;
    faction_week = record { scores = []; ends_at = zero_time; champion = "" };
    dead_drop = "";
    raid = none;
    bulletin = record { next_at = zero_time; climbs = []; collision_wins = [] };
  };
  users = [];
  pending = [];
  missing_since = [];
}

module _ {R : Type 0} where
  -- The loop over the equipment.
  unfoldable pub age_each : ℤ → Map Item → Action R (Map Item)
  age_each level [] = pure []
  age_each level ((slot, item) ∷ equipment) = do
    life ← if is_ageless item then unique_life_levels else pure (pos 0)
    rest ← age_each level equipment
    let aged = if is_ageless item then record item { breaks_at = level ⊕ life } else item
    pure ((slot, aged) ∷ rest)

  unfoldable pub repair_runner : Time → Player → Action R Player
  unfolding unlinked_at on_time
  repair_runner now p = do
    let q = unlinked_at now p
    equipment ← age_each q.level q.equipment
    rules ← gets (λ e. e.rules)
    pure (on_time rules now (record q { equipment = equipment }))

module _ {R : Type 0} ⦃repo : Repository R⦄ where
  -- The loop over the runners of the store.
  unfoldable pub load_each : Time → List Player → Action R (Unit {0})
  load_each now [] = pure tt
  load_each now (p ∷ players) = do
    q ← repair_runner now p
    put_user q.identity q
    save q
    load_each now players

  -- The timers of the world; the world is saved if one was missing.
  unfoldable pub set_timers : Time → Action R (Unit {0})
  set_timers now = do
    rules ← gets (λ e. e.rules)
    world ← gets (λ e. e.world)
    swap ←
        if is_zero world.next_faction_swap_at
        then next_faction_swap_at now
        else pure world.next_faction_swap_at
    edit_world (λ w. record w {
      next_city_event_at = or_time w.next_city_event_at (add now rules.city_event_interval);
      next_faction_swap_at = swap;
      faction_week = record w.faction_week {
        ends_at = or_time w.faction_week.ends_at (add now faction_week_length);
      };
      bulletin = record w.bulletin {
        next_at = or_time w.bulletin.next_at (add now bulletin_interval);
      };
    })
    save_world_if (
        is_zero world.next_city_event_at
        || is_zero world.next_faction_swap_at
        || is_zero world.faction_week.ends_at
        || is_zero world.bulletin.next_at)

  unfoldable pub fill : Time → Action R (Unit {0})
  fill now = do
    players ← call repo.load_all
    load_each now players
    world ← call repo.load_world_state
    edit_world (λ w. world)
    set_timers now

  -- The engine, or the error of the store.
  unfoldable pub new : Rules → (ℕ → ℕ) → Time → R → Result (Engine R)
  unfolding fill blank
  new rules rng now store =
      let (r, e) = fill now (blank rules rng store) in elim r [ ok done ↦ ok e | err x ↦ err x ]
