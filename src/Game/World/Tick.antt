-- ===== src/Game/World/Tick.antt =====
-- The scheduler's tick: `Tick` of internal/game/game.go.
pub mod Delivery
use text.Mathlib.Text.{◌==◌ as text_eq}
use neongrid.Base.{Bool, List, String, [], if◌then◌else◌, not, ◌&&◌, ◌++◌, ◌∷◌}
use neongrid.Base.Int.{ltb_ℤ}
use neongrid.Base.Map.{Map}
use neongrid.Base.Text.{◌⧺◌}
use neongrid.Clock.{Time, add, is_zero, since}
use neongrid.Config.Rules.{rules}
use neongrid.Game.Data.{Player, Rules, districts}
use neongrid.Game.Engine.Action.{Action, call, gets, pure, save, save_world, ◌>>=◌, ◌>>◌}
use neongrid.Game.Engine.Users.{advance_locked, delete_user, take_pending}
use neongrid.Game.Flavor.{drift_templates, pick, render}
use neongrid.Game.Rating.{display_name}
use neongrid.Game.Repository.{Repository}
use neongrid.Game.World.{faction_swap_tick, remember}
use neongrid.Game.World.Artifacts.{burn_out_uniques, release_abandoned}
use neongrid.Game.World.Bulletin.{bulletin_tick}
use neongrid.Game.World.City.{city_event}
use neongrid.Game.World.Collision.{collision, is_due}
use neongrid.Game.World.Contracts.{resolve_contract}
use neongrid.Game.World.DeadDrop.{dead_drop_expiry}
use neongrid.Game.World.Encounter.{encounter}
use neongrid.Game.World.Raid.{resolve_raid}
use neongrid.Game.World.Steps.{edit_world, said, set_user}
use neongrid.Game.World.Streak.{streak_tick}
use neongrid.Game.World.Week.{faction_week_tick}

-- The districts other than the current one.
unfoldable pub other_districts : String → List String → List String
other_districts current [] = []
other_districts current (d ∷ ds) =
    let rest = other_districts current ds in if text_eq d current then rest else d ∷ rest

-- A guest that has been away for longer than guests are kept.
unfoldable pub is_expired : Rules → Time → Player → Bool
is_expired rules now p =
    p.guest
    && not p.connected
    && not (is_zero p.last_seen_at)
    && ltb_ℤ rules.guest_retention (since now p.last_seen_at)

-- A runner that has been away for so long that its artifacts go back.
unfoldable pub is_abandoned : Rules → Time → Player → Bool
is_abandoned rules now p =
    not (is_zero p.last_seen_at) && ltb_ℤ rules.artifact_offline_release (since now p.last_seen_at)

module _ {R : Type 0} where
  unfoldable pub random_district : String → Action R String
  unfolding other_districts
  random_district current = pick (other_districts current districts)

  -- A runner whose district timer is due drifts.
  unfoldable pub drift : Time → String → Player → Action R (List String × Player)
  drift now key p = if not (is_due p.next_district_at now) then pure ([], p) else do
    rules ← gets (λ e. e.rules)
    district ← random_district p.district
    q ←
        set_user key
          (record p { district = district; next_district_at = add now rules.district_interval })
    template ← pick drift_templates
    let pairs = ("runner", display_name q) ∷ ("from", p.district) ∷ ("to", district) ∷ []
    pure (("[GRID] " ⧺ render template pairs) ∷ [], q)

module _ {R : Type 0} ⦃repo : Repository R⦄ where
  -- A runner whose encounter timer is due meets ICE.
  unfoldable pub face_ice : Time → String → Player → Action R (List String × Player)
  face_ice now key p = if not (is_due p.next_encounter_at now) then pure ([], p) else do
    (message, q) ← encounter key p
    rules ← gets (λ e. e.rules)
    r ← set_user key (record q { next_encounter_at = add now rules.encounter_interval })
    s ← advance_locked key r now
    pure (message ∷ [], s)

  -- The part of the loop over the runners for one that is linked.
  unfoldable pub tick_linked : Time → String → Player → Action R (List String)
  tick_linked now key p = do
    q ← advance_locked key p now
    (streak, r) ← streak_tick now key q
    (drifted, s) ← drift now key r
    (met, t) ← face_ice now key s
    carried ← take_pending
    (burnouts, u) ← burn_out_uniques key t
    save u
    pure (said streak ++ (drifted ++ (met ++ (carried ++ burnouts))))

  unfoldable pub expire : String → Action R (List String)
  expire key = do call (repo.delete key); delete_user key; pure []

  -- One round of the loop.
  unfoldable pub tick_one : Time → String → Player → Action R (List String)
  tick_one now key p = do
    rules ← gets (λ e. e.rules)
    if is_expired rules now p
        then expire key
        else if p.connected
        then tick_linked now key p
        else if is_abandoned rules now p
        then release_abandoned key p
        else pure []

  unfoldable pub tick_each : Time → Map Player → Action R (List String)
  tick_each now [] = pure []
  tick_each now ((key, p) ∷ users) = do
    messages ← tick_one now key p
    rest ← tick_each now users
    pure (messages ++ rest)

  -- The city event, when its timer is due.
  unfoldable pub city_tick : Time → Action R (List String)
  city_tick now = do
    world ← gets (λ e. e.world)
    if not (is_due world.next_city_event_at now) then pure [] else do
      message ← city_event now
      rules ← gets (λ e. e.rules)
      edit_world (λ w. record w { next_city_event_at = add now rules.city_event_interval })
      save_world
      pure (message ∷ [])

  -- The tick, after the announcements that were waiting have been taken.
  unfoldable pub turn : Time → List String → Action R (List String)
  turn now carried = do
    locks ← faction_swap_tick now
    job ← resolve_contract now
    raid ← resolve_raid now
    decay ← dead_drop_expiry now
    week ← faction_week_tick now
    board ← bulletin_tick now
    city ← city_tick now
    users ← gets (λ e. e.users)
    news ← tick_each now users
    clash ← collision now
    pending ← take_pending
    let world_news =
        said locks ++ (said job ++ (said raid ++ (said decay ++ (said week ++ said board))))
    let messages = world_news ++ (city ++ (carried ++ (news ++ (said clash ++ pending))))
    remember messages
    pure messages

  -- What has been announced since the last tick follows the events of the world.
  unfoldable pub tick : Time → Action R (List String)
  unfolding turn
  tick now = do carried ← take_pending; turn now carried
