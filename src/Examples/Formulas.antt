-- ===== src/Examples/Formulas.antt =====
-- The formulas, the titles and the level-up loop on a runner.
use neongrid.Base.{All, [], arith, not, refl, suc, true, ℕ, ◌+◌, ◌<◌, ◌^◌, ◌||◌, ◌∷◌, ◌≡◌}
use neongrid.Base.Int.{IsInt64, pos, pos_part, ◌+ℤ◌, ◌<ℤ◌, ◌≤ℤ◌}
use neongrid.Clock.{hour, minute, second}
use neongrid.Examples.{at, neo, runner, standard}
use neongrid.Game.Data.{Player, Rules}
use neongrid.Game.Join.{new_player}
use neongrid.Game.Progress.{advance_player, climb_all}
use neongrid.Game.Progress.Kept.{advance_player-IsHeat, advance_player_same}
use neongrid.Game.Progress.Loop.{climb_all_accounts, climb_all_ends, cost}
use neongrid.Game.Rating.{
  district_encounter_bonus, equipment_rating, expected_gear_rating, ice_win_chance, level_duration,
}
use neongrid.Game.Rating.Bounds.{IsHeat, ice_win_chance_on_level, ice_win_chance_range}
use neongrid.Game.Start.{repaired_rules}
use neongrid.Game.Start.Least.{repaired_rules_least}
use neongrid.Game.Titles.{has_title, title_rules, update_titles}
use neongrid.Game.Titles.Laws.{update_titles-keeps, update_titles_complete, update_titles_idem}

abbrev rich : Player
rich = record neo { progress_seconds = pos 5000; titles = "Ghost" ∷ [] }

abbrev cool : Player
cool = record (runner "guest:neo" "neo") { heat = pos 20 }

ice_win_chance_range_example :
    (pos 10 ≤ℤ ice_win_chance neo "chrome") × (ice_win_chance neo "chrome" ≤ℤ pos 95)
ice_win_chance_range_example = ice_win_chance_range neo "chrome"

even_gear : equipment_rating cool ≡ expected_gear_rating cool.level
unfolding equipment_rating expected_gear_rating new_player
even_gear = refl

calm_district : district_encounter_bonus cool.district ≡ pos 0
unfolding district_encounter_bonus new_player
calm_district = refl

plain : (cool.stance ≡ "") × (cool.faction ≡ "") × (cool.scars ≡ []) × (cool.heat ≡ pos 20)
unfolding new_player
plain = (refl, refl, refl, refl)

ice_win_chance_on_level_example : ice_win_chance cool "" ≡ pos 61
ice_win_chance_on_level_example =
    ice_win_chance_on_level cool "" 20 even_gear plain.0 plain.1 plain.2 calm_district plain.3
      (omega arith)

rich_facts : IsInt64 rich.progress_seconds × (rich.level ≡ pos 3)
rich_facts = ((omega arith, omega arith), refl)

rich_room : 3 + suc (pos_part rich.progress_seconds) < 2 ^ 63
rich_room = omega arith

climb_all_ends_example :
    let q = (climb_all standard rich).runner in
    q.progress_seconds <ℤ level_duration standard q.level
climb_all_ends_example = climb_all_ends standard rich rich_facts.0

climb_all_accounts_example :
    let q = (climb_all standard rich).runner in
    (n : ℕ) × (q.level ≡ pos (3 + n))
    × (rich.progress_seconds ≡ q.progress_seconds +ℤ cost standard 3 n)
climb_all_accounts_example = climb_all_accounts standard rich 3 rich_facts.0 rich_facts.1 rich_room

advance_player_same_example :
    let q = (advance_player rich (at 1200) standard).0 in
    (q.identity ≡ rich.identity)
    × (q.account ≡ rich.account)
    × (q.nick ≡ rich.nick)
    × (q.alias ≡ rich.alias)
    × (q.guest ≡ rich.guest)
    × (q.connected ≡ rich.connected)
    × (q.faction ≡ rich.faction)
    × (q.last_faction_swap_at ≡ rich.last_faction_swap_at)
    × (q.stance ≡ rich.stance)
    × (q.chosen_title ≡ rich.chosen_title)
    × (q.streak_since ≡ rich.streak_since)
    × (q.streak_days ≡ rich.streak_days)
advance_player_same_example = advance_player_same rich (at 1200) standard

advance_player-IsHeat_example : IsHeat (advance_player rich (at 1200) standard).0.heat
advance_player-IsHeat_example =
    advance_player-IsHeat rich (at 1200) standard (omega arith, omega arith)

rich_ghost : has_title rich "Ghost" ≡ true
unfolding has_title
rich_ghost = refl

update_titles-keeps_example : has_title (update_titles rich).0 "Ghost" ≡ true
update_titles-keeps_example = update_titles-keeps rich "Ghost" rich_ghost

update_titles_complete_example :
    All (λ r. (not (r.earned rich) || has_title (update_titles rich).0 r.name) ≡ true) title_rules
update_titles_complete_example = update_titles_complete rich

update_titles_idem_example : update_titles (update_titles rich).0 ≡ ((update_titles rich).0, [])
update_titles_idem_example = update_titles_idem rich

-- Rules without a Heat decay.
abbrev broken : Rules
broken = record standard { heat_decay_interval = pos 0; contract_max_participants = pos 0 }

repaired_rules_least_example :
    (pos second ≤ℤ (repaired_rules broken).heat_decay_interval)
    × (pos 1 ≤ℤ (repaired_rules broken).base_level_seconds)
    × (pos second ≤ℤ (repaired_rules broken).encounter_interval)
    × (pos second ≤ℤ (repaired_rules broken).city_event_interval)
    × (pos second ≤ℤ (repaired_rules broken).district_interval)
    × (pos minute ≤ℤ (repaired_rules broken).contract_duration)
    × (pos 1 ≤ℤ (repaired_rules broken).contract_max_participants)
    × (pos minute ≤ℤ (repaired_rules broken).collision_interval)
    × (pos second ≤ℤ (repaired_rules broken).pirate_duration)
    × (pos hour ≤ℤ (repaired_rules broken).guest_retention)
    × (pos hour ≤ℤ (repaired_rules broken).artifact_offline_release)
repaired_rules_least_example = repaired_rules_least broken
