-- ===== src/Game/Safe/City.antt =====
-- City events keep the invariant.
use neongrid.Base.{String, [], false, if-both, refl, ◌==◌, ◌∷◌}
use neongrid.Base.Map.{Each, Map}
use neongrid.Clock.{Time}
use neongrid.Game.Data.{Player}
use neongrid.Game.Rating.Bounds.{add_heat-IsHeat}
use neongrid.Game.Repository.{Repository}
use neongrid.Game.Safe.{
  Any, IsRunner, Safe, Safe-bind, Safe-gets, Safe-if, Safe-pure, Safe-step, Safe-then,
}
use neongrid.Game.Safe.Artifacts.{GoodBy, same_heat}
use neongrid.Game.Safe.Contracts.{open_pirate_frequency-Safe, start_contract-Safe, start_raid-Safe}
use neongrid.Game.Safe.Join.{intn-Safe}
use neongrid.Game.Safe.Steps.{advance_locked-Safe, save-Safe}
use neongrid.Game.Safe.World.{
  pick-Safe, reheated, scar_if-IsRunner, set_user-Safe, update_titles_locked-Safe,
}
use neongrid.Game.World.City.{
  CityEvent, apply_city_event_gear, befall, city_event, city_event_each, city_event_one, hasten,
  is_leak, ordinary_event, run_or_befall, sweep_runner,
}

hasten-IsRunner :
    (now : Time) (event : CityEvent) (key : String) (p : Player)
    → IsRunner key p
    → IsRunner key (hasten now event p)
unfolding hasten
hasten-IsRunner now event key p h = if-both (IsRunner key) _ _ _ (same_heat key p _ h refl refl) h

gear-IsRunner :
    (event : CityEvent) (key : String) (p : Player)
    → IsRunner key p
    → IsRunner key (apply_city_event_gear event p)
unfolding apply_city_event_gear
gear-IsRunner event key p h =
    if-both (IsRunner key) (is_leak event.kind) _ _ (same_heat key p _ h refl refl) h

module _ {R : Type 0} where
  sweep_runner-Safe :
      (key : String) (p : Player) → IsRunner key p → Safe {R = R} (GoodBy key) (sweep_runner key p)
  unfolding sweep_runner
  sweep_runner-Safe key p h =
      Safe-bind (IsRunner key) _ _ _
        (set_user-Safe key _ (reheated key p _ h refl (add_heat-IsHeat _ _)))
        λ q k. Safe-step _ _ (intn-Safe 20) λ roll.
          Safe-bind (IsRunner key) _ _ _
            (set_user-Safe key _ (scar_if-IsRunner key q _ (roll == 0) k)) λ s m. Safe-pure _ _ m

module _ {R : Type 0} ⦃repo : Repository R⦄ where
  city_event_one-Safe :
      (now : Time) (event : CityEvent) (key : String) (p : Player)
      → IsRunner key p
      → Safe {R = R} Any (city_event_one now event key p)
  unfolding city_event_one
  city_event_one-Safe now event key p h =
      Safe-bind (IsRunner key) _ _ _ (advance_locked-Safe key p now h) λ q k.
        Safe-bind (IsRunner key) _ _ _ (set_user-Safe key _ (same_heat key q _ k refl refl)) λ r m.
          Safe-bind (GoodBy key) _ _ _
            (Safe-if _ _ _ _ (sweep_runner-Safe key r m) (Safe-pure _ _ m))
            λ s n.
              Safe-bind (IsRunner key) _ _ _
                (set_user-Safe key _
                  (hasten-IsRunner now event key _ (gear-IsRunner event key s.1 n)))
                λ t o.
                  Safe-bind (IsRunner key) _ _ _ (update_titles_locked-Safe key t o)
                    λ u v. Safe-then _ _ (save-Safe u) (Safe-pure Any _ tt)

  city_event_each-Safe :
      (now : Time) (event : CityEvent) (users : Map Player)
      → Each IsRunner users
      → Safe {R = R} Any (city_event_each now event users)
  unfolding city_event_each
  city_event_each-Safe now event [] h = Safe-pure Any [] tt
  city_event_each-Safe now event ((key, p) ∷ users) h =
      Safe-step _ _
        (Safe-if Any _ _ _ (city_event_one-Safe now event key p h.0) (Safe-pure Any [] tt))
        λ scars. Safe-step _ _ (city_event_each-Safe now event users h.1) λ rest. Safe-pure Any _ tt

  befall-Safe : (now : Time) (event : CityEvent) → Safe {R = R} Any (befall now event)
  unfolding befall
  befall-Safe now event =
      Safe-bind (Each IsRunner) _ _ _ (Safe-gets _ _ (λ e i. i.runners)) λ users h.
        Safe-step _ _ (city_event_each-Safe now event users h)
          λ scars. Safe-step _ _ (pick-Safe _) λ text. Safe-pure Any _ tt

  ordinary_event-Safe : (now : Time) → Safe {R = R} Any (ordinary_event now)
  unfolding ordinary_event run_or_befall
  ordinary_event-Safe now = Safe-step _ _ (intn-Safe _) λ i.
      Safe-step _ _ (Safe-if Any _ _ _ (start_contract-Safe now) (Safe-pure Any ("", false) tt))
        λ run. Safe-if Any _ _ _ (Safe-pure Any _ tt) (befall-Safe now _)

  pub city_event-Safe : (now : Time) → Safe {R = R} Any (city_event now)
  unfolding city_event
  city_event-Safe now = Safe-step _ _ (intn-Safe 10) λ pirate.
      Safe-if Any _ _ _ (open_pirate_frequency-Safe now) (
        Safe-step _ _ (intn-Safe 8) λ surfacing.
          Safe-step _ _ (Safe-if Any _ _ _ (start_raid-Safe now) (Safe-pure Any ("", false) tt))
            λ r. Safe-if Any _ _ _ (Safe-pure Any _ tt) (ordinary_event-Safe now))
