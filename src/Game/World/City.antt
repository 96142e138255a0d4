-- ===== src/Game/World/City.antt =====
-- City events: `cityEventLocked`, `cityEventProgressChange` and `applyCityEventGear`.
pub mod Sign
use text.Mathlib.Text.{◌==◌ as text_eq}
use neongrid.Base.{
  Bool, List, String, [], false, get_or, if◌then◌else◌, length, true, ◌&&◌, ◌*◌, ◌++◌, ◌==◌, ◌||◌,
  ◌∷◌,
}
use neongrid.Base.Int.{ltb_ℤ, negsuc, pos, quot, ℤ, ◌⊕◌, ◌⊖◌, ◌⊗◌}
use neongrid.Base.Map.{Map}
use neongrid.Base.Text.{contains, ◌⧺◌}
use neongrid.Clock.{Time, add, after, is_zero, minute, second}
use neongrid.Game.Data.{
  Item, Player, district_corporate_arcology, district_floodline, district_ghost_quarter,
  district_old_transit, faction_chrome, faction_ghostline, faction_nomad, scar_corporate_backdoor,
  slot_deck,
}
use neongrid.Game.Engine.Action.{Action, gets, intn, pure, save, ◌>>=◌, ◌>>◌}
use neongrid.Game.Engine.Users.{advance_locked}
use neongrid.Game.Flavor.{CityEventKind, city_event_texts, format_duration, pick}
use neongrid.Game.Rating.{add_heat, display_name, has_scar}
use neongrid.Game.Repository.{Repository}
use neongrid.Game.Titles.{add_scar}
use neongrid.Game.World.Artifacts.{equip, item_at}
use neongrid.Game.World.Contracts.{joined, start_contract}
use neongrid.Game.World.DeadDrop.{open_pirate_frequency}
use neongrid.Game.World.Raid.{start_raid}
use neongrid.Game.World.Steps.{set_user, update_titles_locked}

pub record CityEvent : Type 0 where
  pub kind : CityEventKind
  pub progress_change : ℤ

abbrev pub city_events : List CityEvent
city_events =
    record { kind = CityEventKind.blackout; progress_change = negsuc 59 }
    ∷ record { kind = CityEventKind.corporate_sweep; progress_change = negsuc 89 }
    ∷ record { kind = CityEventKind.data_leak; progress_change = pos 120 }
    ∷ record { kind = CityEventKind.gang_war; progress_change = negsuc 119 }
    ∷ record { kind = CityEventKind.bounty; progress_change = pos 90 }
    ∷ record { kind = CityEventKind.megacorp_run; progress_change = pos 180 }
    ∷ []

abbrev blackout_event : CityEvent
blackout_event = record { kind = CityEventKind.blackout; progress_change = negsuc 59 }

abbrev pub is_sweep : CityEventKind → Bool
is_sweep CityEventKind.corporate_sweep = true
is_sweep _ = false

abbrev pub is_leak : CityEventKind → Bool
is_leak CityEventKind.data_leak = true
is_leak _ = false

abbrev pub is_run : CityEventKind → Bool
is_run CityEventKind.megacorp_run = true
is_run _ = false

abbrev pub plus_if : Bool → ℤ → ℤ → ℤ
plus_if test amount change = if test then change ⊕ amount else change

unfoldable pub city_event_progress_change : CityEvent → Player → ℤ
city_event_progress_change event p =
    let change = event.progress_change in
    let lives_in = λ (d : String). text_eq p.district d in
    let serves = λ (f : String). text_eq p.faction f in
    elim event.kind [
      | CityEventKind.blackout ↦ plus_if (lives_in district_old_transit) (negsuc 59) change
      | CityEventKind.corporate_sweep ↦ plus_if (has_scar p scar_corporate_backdoor) (negsuc 29) (
          plus_if (lives_in district_corporate_arcology) (negsuc 29)
            (if serves faction_ghostline then quot change 2 else change))
      | CityEventKind.data_leak ↦ plus_if (lives_in district_floodline) (pos 60) change
      | CityEventKind.gang_war ↦
          plus_if (serves faction_nomad) (pos 30)
            (plus_if (lives_in district_ghost_quarter) (negsuc 89) change)
      | CityEventKind.bounty ↦ plus_if (serves faction_chrome) (pos 60) change
      | CityEventKind.megacorp_run ↦
          plus_if (lives_in district_corporate_arcology || serves faction_chrome) (pos 60) change
    ]

-- The deck of a runner after a data leak.
unfoldable pub overclocked : Item → Item
overclocked item =
    let name = if text_eq item.name "" then "Ghostline deck" else item.name in
    record item {
      rating = item.rating ⊕ pos 1;
      name = if contains name "leak-overclocked" then name else name ⧺ " [leak-overclocked]";
    }

unfoldable pub apply_city_event_gear : CityEvent → Player → Player
unfolding overclocked
apply_city_event_gear event p =
    if is_leak event.kind then equip slot_deck (overclocked (item_at p slot_deck)) p else p

-- Fresh intel draws the next encounter forward.
unfoldable pub hasten : Time → CityEvent → Player → Player
hasten now event p =
    let soon = add now (pos (15 * minute)) in
    if is_leak event.kind && (is_zero p.next_encounter_at || after p.next_encounter_at soon)
    then record p { next_encounter_at = soon }
    else p

unfoldable pub format_progress_change : ℤ → String
format_progress_change change =
    if ltb_ℤ change (pos 0)
    then "-" ⧺ format_duration ((pos 0 ⊖ change) ⊗ pos second) ⧺ " progress"
    else "+" ⧺ format_duration (change ⊗ pos second) ⧺ " progress"

module _ {R : Type 0} where
  -- A sweep heats the runner, and marks one in twenty.
  unfoldable pub sweep_runner : String → Player → Action R (List String × Player)
  sweep_runner key p = do
    q ← set_user key (record p { heat = add_heat p.heat (pos 10) })
    roll ← intn 20
    let (r, added) = if roll == 0 then add_scar q scar_corporate_backdoor else (q, false)
    s ← set_user key r
    pure (if added then (display_name s ⧺ " acquired " ⧺ scar_corporate_backdoor) ∷ [] else [], s)

module _ {R : Type 0} ⦃repo : Repository R⦄ where
  unfoldable pub city_event_one : Time → CityEvent → String → Player → Action R (List String)
  city_event_one now event key p = do
    q ← advance_locked key p now
    r ←
        set_user key
          (record q { progress_seconds = q.progress_seconds ⊕ city_event_progress_change event q })
    (scars, s) ← if is_sweep event.kind then sweep_runner key r else pure ([], r)
    t ← set_user key (hasten now event (apply_city_event_gear event s))
    u ← update_titles_locked key t
    save u
    pure scars

  unfoldable pub city_event_each : Time → CityEvent → Map Player → Action R (List String)
  city_event_each now event [] = pure []
  city_event_each now event ((key, p) ∷ users) = do
    scars ← if p.connected then city_event_one now event key p else pure []
    rest ← city_event_each now event users
    pure (scars ++ rest)

  unfoldable pub befall : Time → CityEvent → Action R String
  befall now event = do
    users ← gets (λ e. e.users)
    scars ← city_event_each now event users
    text ← pick (city_event_texts event.kind)
    let message =
        "[GRID] CITY EVENT: "
        ⧺ text
        ⧺ " Active runners "
        ⧺ format_progress_change event.progress_change
        ⧺ "."
    pure (if length scars == 0 then message else message ⧺ " " ⧺ joined "; " scars ⧺ ".")

  -- A megacorp run begins a contract where one can begin.
  unfoldable pub run_or_befall : Time → CityEvent → String × Bool → Action R String
  run_or_befall now event (message, started) = if started then pure message else befall now event

  unfoldable pub ordinary_event : Time → Action R String
  ordinary_event now = do
    i ← intn (length city_events)
    let event = get_or city_events i blackout_event
    run ← if is_run event.kind then start_contract now else pure ("", false)
    run_or_befall now event run

  unfoldable pub city_event : Time → Action R String
  city_event now = do
    pirate ← intn 10
    if pirate == 0 then open_pirate_frequency now else do
      surfacing ← intn 8
      (message, started) ← if surfacing == 0 then start_raid now else pure ("", false)
      if started then pure message else ordinary_event now
