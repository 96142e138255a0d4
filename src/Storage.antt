-- ===== src/Storage.antt =====
-- The store, internal/storage/storage.go: how the runner of a guest is merged into an account's.
pub mod Merge
use text.Mathlib.Text.{◌==◌ as text_eq}
use neongrid.Base.{Bool, List, String, [], any, if◌then◌else◌, not, ◌&&◌, ◌++◌, ◌||◌, ◌∷◌}
use neongrid.Base.Int.{eqb_ℤ, ltb_ℤ, pos, ℤ, ◌⊕◌}
use neongrid.Base.Map.{Map, get_default, put}
use neongrid.Clock.{Time}
use neongrid.Game.Data.{Item, Player, RunnerStats}
use neongrid.Game.Rating.{no_item}

-- `value` is among the values.
abbrev pub is_among : String → List String → Bool
is_among value values = any (λ v. text_eq v value) values

unfoldable pub append_unique : List String → List String → List String
append_unique values [] = values
append_unique values (addition ∷ additions) =
    append_unique
      (if not (is_among addition values) && not (text_eq addition "")
        then values ++ addition ∷ []
        else values)
      additions

-- The guest's progress replaces the account's where it is further.
unfoldable pub is_further : Player → Player → Bool
is_further guest account =
    ltb_ℤ account.level guest.level
    || (eqb_ℤ guest.level account.level && ltb_ℤ account.progress_seconds guest.progress_seconds)

abbrev pub later : Time → Time → Time
later mine other = if ltb_ℤ mine other then other else mine

abbrev pub or_else_text : String → String → String
or_else_text mine other = if text_eq mine "" then other else mine

-- The loop over the guest's gear: in each slot the better item stays.
unfoldable pub better_gear : Map Item → Map Item → Map Item
better_gear mine [] = mine
better_gear mine ((slot, item) ∷ gear) =
    better_gear
      (if ltb_ℤ (get_default no_item slot mine).rating item.rating
        then put slot item mine
        else mine)
      gear

-- The loop over the guest's rivals.
unfoldable pub add_bouts : Map ℤ → Map ℤ → Map ℤ
add_bouts mine [] = mine
add_bouts mine ((identity, bouts) ∷ rivals) =
    add_bouts (put identity (get_default (pos 0) identity mine ⊕ bouts) mine) rivals

unfoldable pub merge_stats : RunnerStats → RunnerStats → RunnerStats
merge_stats guest mine = record {
  ice_wins = mine.ice_wins ⊕ guest.ice_wins;
  collision_wins = mine.collision_wins ⊕ guest.collision_wins;
  contracts = mine.contracts ⊕ guest.contracts;
  uniques = mine.uniques ⊕ guest.uniques;
  thefts = mine.thefts ⊕ guest.thefts;
  dead_drops = mine.dead_drops ⊕ guest.dead_drops;
  raid_wins = mine.raid_wins ⊕ guest.raid_wins;
  longest_streak =
      if ltb_ℤ mine.longest_streak guest.longest_streak
      then guest.longest_streak
      else mine.longest_streak;
}

-- The guest is the live connection, so its streak is the current one.
unfoldable pub merge : Player → Player → Player
unfolding append_unique is_further better_gear add_bouts merge_stats
merge guest account =
    let further = is_further guest account in
    let seen_later = ltb_ℤ account.last_seen_at guest.last_seen_at in
    record account {
      level = if further then guest.level else account.level;
      progress_seconds = if further then guest.progress_seconds else account.progress_seconds;
      last_seen_at = later account.last_seen_at guest.last_seen_at;
      last_progress_at = later account.last_progress_at guest.last_progress_at;
      district = if seen_later then guest.district else account.district;
      next_district_at = if seen_later then guest.next_district_at else account.next_district_at;
      next_collision_at = if seen_later then guest.next_collision_at else account.next_collision_at;
      heat = if ltb_ℤ account.heat guest.heat then guest.heat else account.heat;
      last_heat_at = later account.last_heat_at guest.last_heat_at;
      last_faction_swap_at = later account.last_faction_swap_at guest.last_faction_swap_at;
      alias = or_else_text account.alias guest.alias;
      equipment = better_gear account.equipment guest.equipment;
      scars = append_unique account.scars guest.scars;
      titles = append_unique account.titles guest.titles;
      chosen_title = or_else_text account.chosen_title guest.chosen_title;
      stats = merge_stats guest.stats account.stats;
      stance = or_else_text account.stance guest.stance;
      streak_since = guest.streak_since;
      streak_days = guest.streak_days;
      rivals = add_bouts account.rivals guest.rivals;
    }
