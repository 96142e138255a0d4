-- ===== src/Game/Safe/Tick.antt =====
-- The scheduler's tick keeps the invariant.
use neongrid.Base.{String, [], refl, ◌∷◌}
use neongrid.Base.Int.{ℤ}
use neongrid.Base.Map.{Each, Map}
use neongrid.Clock.{Time}
use neongrid.Config.Rules.{rules}
use neongrid.Game.Data.{Player, Rules, WorldState}
use neongrid.Game.Engine.Action.{modify}
use neongrid.Game.Repository.{Repository}
use neongrid.Game.Safe.{
  Any, IsRunner, Safe, Safe-bind, Safe-gets, Safe-if, Safe-modify, Safe-pure, Safe-read, Safe-step,
  Safe-then,
}
use neongrid.Game.Safe.Artifacts.{GoodBy, burn_out_uniques-Safe, release_abandoned-Safe, same_heat}
use neongrid.Game.Safe.City.{city_event-Safe}
use neongrid.Game.Safe.Collision.{collision-Safe, encounter-Safe}
use neongrid.Game.Safe.Contracts.{
  Safe-either, Safe-view, bulletin_tick-Safe, dead_drop_expiry-Safe, faction_week_tick-Safe,
  resolve_contract-Safe, resolve_raid-Safe,
}
use neongrid.Game.Safe.Join.{intn-Safe}
use neongrid.Game.Safe.Steps.{advance_locked-Safe, delete_user-Safe, save-Safe}
use neongrid.Game.Safe.World.{
  edit_world-Safe, pick-Safe, remember-Safe, repo_call-Safe, save_world-Safe, set_user-Safe,
  take_pending-Safe, update_titles_locked-Safe,
}
use neongrid.Game.World.{
  close_window, crash_locks, faction_swap_tick, next_faction_swap_at, open_window, restore_locks,
}
use neongrid.Game.World.Streak.{streak_paid, streak_tick}
use neongrid.Game.World.Tick.{
  city_tick, drift, expire, face_ice, random_district, tick, tick_each, tick_linked, tick_one, turn,
}

streak_paid-IsRunner :
    (rules : Rules) (days : ℤ) (key : String) (p : Player)
    → IsRunner key p
    → IsRunner key (streak_paid rules days p)
unfolding streak_paid
streak_paid-IsRunner rules days key p h = same_heat key p _ h refl refl

module _ {R : Type 0} where
  streak_tick-Safe :
      (now : Time) (key : String) (p : Player)
      → IsRunner key p
      → Safe {R = R} (GoodBy key) (streak_tick now key p)
  unfolding streak_tick
  streak_tick-Safe now key p h = Safe-read _ _ λ rules.
      Safe-if _ _ _ _
        (Safe-bind (IsRunner key) _ _ _ (set_user-Safe key _ (same_heat key p _ h refl refl))
          λ q k. Safe-pure _ _ k)
        (Safe-if _ _ _ _ (Safe-pure _ _ h) (
          Safe-bind (IsRunner key) _ _ _
            (set_user-Safe key _ (streak_paid-IsRunner rules _ key p h))
            λ q k.
              Safe-bind (IsRunner key) _ _ _ (update_titles_locked-Safe key q k)
                λ r m. Safe-pure _ _ m))

  drift-Safe :
      (now : Time) (key : String) (p : Player)
      → IsRunner key p
      → Safe {R = R} (GoodBy key) (drift now key p)
  unfolding drift random_district
  drift-Safe now key p h = Safe-if _ _ _ _ (Safe-pure _ _ h) (
      Safe-read _ _ λ rules. Safe-step _ _ (pick-Safe _) λ district.
        Safe-bind (IsRunner key) _ _ _ (set_user-Safe key _ (same_heat key p _ h refl refl))
          λ q k. Safe-step _ _ (pick-Safe _) λ template. Safe-pure _ _ k)

  -- The faction windows do not touch the runners.
  next_faction_swap_at-Safe : (now : Time) → Safe {R = R} Any (next_faction_swap_at now)
  unfolding next_faction_swap_at
  next_faction_swap_at-Safe now = Safe-step _ _ (intn-Safe 7) λ days. Safe-pure Any _ tt

  world_only :
      (f : WorldState → WorldState)
      → Safe {R = R} Any (modify (λ e. record e { world = f e.world }))
  world_only f =
      Safe-modify _
        λ e i. record { is_map = i.is_map; runners = i.runners; few_pending = i.few_pending }

module _ {R : Type 0} ⦃repo : Repository R⦄ where
  faction_swap_tick-Safe : (now : Time) → Safe {R = R} Any (faction_swap_tick now)
  unfolding faction_swap_tick restore_locks crash_locks open_window close_window
  faction_swap_tick-Safe now = Safe-view _ λ e.
      Safe-either _ _ _
        (Safe-then _ _ (world_only _) (Safe-then _ _ save_world-Safe (Safe-pure Any _ tt)))
        (Safe-either _ _ _
          (Safe-step _ _ (next_faction_swap_at-Safe now) λ next.
            Safe-then _ _ (world_only _) (Safe-then _ _ save_world-Safe (Safe-pure Any _ tt)))
          (Safe-pure Any "" tt))

  face_ice-Safe :
      (now : Time) (key : String) (p : Player)
      → IsRunner key p
      → Safe {R = R} (GoodBy key) (face_ice now key p)
  unfolding face_ice
  face_ice-Safe now key p h = Safe-if _ _ _ _ (Safe-pure _ _ h) (
      Safe-bind (GoodBy key) _ _ _ (encounter-Safe key p h) λ q k. Safe-read _ _ λ rules.
        Safe-bind (IsRunner key) _ _ _ (set_user-Safe key _ (same_heat key q.1 _ k refl refl))
          λ r m.
            Safe-bind (IsRunner key) _ _ _ (advance_locked-Safe key r now m) λ s n. Safe-pure _ _ n)

  tick_linked-Safe :
      (now : Time) (key : String) (p : Player)
      → IsRunner key p
      → Safe {R = R} Any (tick_linked now key p)
  unfolding tick_linked
  tick_linked-Safe now key p h =
      Safe-bind (IsRunner key) _ _ _ (advance_locked-Safe key p now h) λ q k.
        Safe-bind (GoodBy key) _ _ _ (streak_tick-Safe now key q k) λ r l.
          Safe-bind (GoodBy key) _ _ _ (drift-Safe now key r.1 l) λ s m.
            Safe-bind (GoodBy key) _ _ _ (face_ice-Safe now key s.1 m) λ t n.
              Safe-step _ _ take_pending-Safe λ carried.
                Safe-bind (GoodBy key) _ _ _ (burn_out_uniques-Safe key t.1 n)
                  λ u o. Safe-then _ _ (save-Safe u.1) (Safe-pure Any _ tt)

  tick_one-Safe :
      (now : Time) (key : String) (p : Player)
      → IsRunner key p
      → Safe {R = R} Any (tick_one now key p)
  unfolding tick_one expire
  tick_one-Safe now key p h = Safe-read _ _ λ rules.
      Safe-if Any _ _ _
        (Safe-then _ _ (repo_call-Safe _)
          (Safe-then _ _ (delete_user-Safe key) (Safe-pure Any _ tt)))
        (Safe-if Any _ _ _ (tick_linked-Safe now key p h)
          (Safe-if Any _ _ _ (release_abandoned-Safe key p h) (Safe-pure Any _ tt)))

  tick_each-Safe :
      (now : Time) (users : Map Player)
      → Each IsRunner users
      → Safe {R = R} Any (tick_each now users)
  unfolding tick_each
  tick_each-Safe now [] h = Safe-pure Any [] tt
  tick_each-Safe now ((key, p) ∷ users) h =
      Safe-step _ _ (tick_one-Safe now key p h.0)
        λ messages. Safe-step _ _ (tick_each-Safe now users h.1) λ rest. Safe-pure Any _ tt

  city_tick-Safe : (now : Time) → Safe {R = R} Any (city_tick now)
  unfolding city_tick
  city_tick-Safe now = Safe-read _ _ λ world. Safe-if Any _ _ _ (Safe-pure Any [] tt) (
      Safe-step _ _ (city_event-Safe now) λ message. Safe-read _ _ λ rules.
        Safe-then _ _ (edit_world-Safe _) (Safe-then _ _ save_world-Safe (Safe-pure Any _ tt)))

  pub tick-Safe : (now : Time) → Safe {R = R} Any (tick now)
  unfolding tick turn
  tick-Safe now = Safe-step _ _ take_pending-Safe λ carried.
      Safe-step _ _ (faction_swap_tick-Safe now) λ locks.
        Safe-step _ _ (resolve_contract-Safe now) λ job.
          Safe-step _ _ (resolve_raid-Safe now) λ raid.
            Safe-step _ _ (dead_drop_expiry-Safe now) λ decay.
              Safe-step _ _ (faction_week_tick-Safe now) λ week.
                Safe-step _ _ (bulletin_tick-Safe now) λ board.
                  Safe-step _ _ (city_tick-Safe now) λ city.
                    Safe-bind (Each IsRunner) _ _ _ (Safe-gets _ _ (λ e i. i.runners)) λ users h.
                      Safe-step _ _ (tick_each-Safe now users h) λ news.
                        Safe-step _ _ (collision-Safe now) λ clash.
                          Safe-step _ _ take_pending-Safe
                            λ pending. Safe-then _ _ (remember-Safe _) (Safe-pure Any _ tt)
