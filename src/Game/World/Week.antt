-- ===== src/Game/World/Week.antt =====
-- Faction weeks of internal/game/features.go.
pub mod Champion
use Prim.Native.Char.{Char, code}
use Prim.Native.String.{char_at}
use neongrid.Base.{
  Bool, List, String, [], false, if◌then◌else◌, leb, map, true, ◌&&◌, ◌*◌, ◌-◌, ◌||◌, ◌∷◌,
}
use neongrid.Base.Int.{eqb_ℤ, ltb_ℤ, pos, ℤ}
use neongrid.Base.Map.{Map, get_default}
use neongrid.Base.Text.{show, ◌⧺◌}
use neongrid.Clock.{Duration, Time, add, before, hour, is_zero}
use neongrid.Game.Data.{FactionWeek, faction_chrome, faction_ghostline, faction_nomad}
use neongrid.Game.Engine.Action.{Action, gets, pure, ◌>>=◌, ◌>>◌}
use neongrid.Game.World.Contracts.{joined}
use neongrid.Game.World.Steps.{edit_world}

abbrev pub faction_week_length : Duration
faction_week_length = pos (7 * 24 * hour)

abbrev pub faction_order : List String
faction_order = faction_ghostline ∷ faction_chrome ∷ faction_nomad ∷ []

abbrev pub score_of : Map ℤ → String → ℤ
score_of scores faction = get_default (pos 0) faction scores

-- The variables of the loop that finds the winner.
pub record Race : Type 0 where
  pub winner : String
  pub best : ℤ
  pub tied : Bool

unfoldable pub race_step : String → ℤ → Race → Race
race_step faction score r =
    if ltb_ℤ r.best score
    then record { winner = faction; best = score; tied = false }
    else if eqb_ℤ score r.best && ltb_ℤ (pos 0) score
    then record r { tied = true }
    else r

unfoldable pub race_from : Map ℤ → List String → Race → Race
unfolding race_step
race_from scores [] r = r
race_from scores (faction ∷ factions) r =
    race_from scores factions (race_step faction (score_of scores faction) r)

abbrev pub race_start : Race
race_start = record { winner = ""; best = pos 0; tied = false }

unfoldable pub race : Map ℤ → Race
unfolding race_from
race scores = race_from scores faction_order race_start

-- The winner, or "" where there is none.
unfoldable pub crowned : Race → String
crowned r = if eqb_ℤ r.best (pos 0) || r.tied then "" else r.winner

unfoldable pub champion_of : Map ℤ → String
unfolding race crowned
champion_of scores = crowned (race scores)

-- A stable sort by score, the highest first.
unfoldable pub insert_faction : Map ℤ → String → List String → List String
insert_faction scores f [] = f ∷ []
insert_faction scores f (g ∷ gs) =
    let rest = insert_faction scores f gs in
    if ltb_ℤ (score_of scores f) (score_of scores g) then g ∷ rest else f ∷ g ∷ gs

unfoldable pub sort_factions : Map ℤ → List String → List String
unfolding insert_faction
sort_factions scores [] = []
sort_factions scores (f ∷ fs) = insert_faction scores f (sort_factions scores fs)

-- The upper case of an ASCII letter.
upper_char : Char → Char
upper_char c =
    if leb b'a' (code c) && leb (code c) b'z'
    then char_at "ABCDEFGHIJKLMNOPQRSTUVWXYZ" (code c - b'a')
    else c

unfoldable pub faction_label : String → String
unfolding upper_char
faction_label String.[] = "unaffiliated"
faction_label (String.◌∷◌ c s) = String.◌∷◌ (upper_char c) s

unfoldable pub faction_standings : Map ℤ → String
unfolding sort_factions faction_label
faction_standings scores = joined " · " (
    map (λ f. faction_label f ⧺ " " ⧺ show (score_of scores f))
      (sort_factions scores faction_order))

unfoldable pub week_message : Map ℤ → String
unfolding race faction_standings
week_message scores =
    let r = race scores in
    if eqb_ℤ r.best (pos 0)
    then ""
    else if r.tied
    then "[GRID] FACTION WEEK ends in a dead heat ("
      ⧺ faction_standings scores
      ⧺ "). Nobody gets the edge this week."
    else "[GRID] FACTION WEEK: "
      ⧺ faction_label r.winner
      ⧺ " takes it ("
      ⧺ faction_standings scores
      ⧺ "). "
      ⧺ faction_label r.winner
      ⧺ " runners get an edge on ICE until next week."

abbrev pub next_week : Time → FactionWeek → FactionWeek
next_week now week = record {
  scores = [];
  ends_at = add now faction_week_length;
  champion = champion_of week.scores;
}

module _ {R : Type 0} where
  unfoldable pub faction_week_tick : Time → Action R String
  unfolding week_message
  faction_week_tick now = do
    world ← gets (λ e. e.world)
    let week = world.faction_week
    if is_zero week.ends_at
        then (do
          edit_world (λ w. record w {
            faction_week = record w.faction_week { ends_at = add now faction_week_length };
          })
          pure "")
        else if before now week.ends_at
        then pure ""
        else do
          edit_world (λ w. record w { faction_week = next_week now w.faction_week })
          pure (week_message week.scores)
