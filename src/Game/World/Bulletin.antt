-- ===== src/Game/World/Bulletin.antt =====
-- The daily bulletin of internal/game/features.go.
pub mod Best
use neongrid.Base.{
  List, Option, String, [], if◌then◌else◌, length, ltb, none, some, ◌*◌, ◌++◌, ◌==◌, ◌∷◌,
}
use neongrid.Base.Int.{eqb_ℤ, ltb_ℤ, pos, ℤ}
use neongrid.Base.Map.{Map, get}
use neongrid.Base.Text.{show, text_ltb, ◌⧺◌}
use neongrid.Clock.{Duration, Time, add, before, hour, is_zero}
use neongrid.Game.Data.{Bulletin, Player, WorldState}
use neongrid.Game.Engine.Action.{Action, gets, pure, ◌>>=◌, ◌>>◌}
use neongrid.Game.Rating.{display_name}
use neongrid.Game.World.Contracts.{joined}
use neongrid.Game.World.Steps.{edit_world}
use neongrid.Game.World.Week.{faction_standings}

abbrev pub bulletin_interval : Duration
bulletin_interval = pos (24 * hour)

-- `sort.Strings` on the identities of a map of counts.
unfoldable pub insert_count : String → ℤ → Map ℤ → Map ℤ
insert_count identity n [] = (identity, n) ∷ []
insert_count identity n ((other, m) ∷ counts) =
    let rest = insert_count identity n counts in
    if text_ltb other identity then (other, m) ∷ rest else (identity, n) ∷ (other, m) ∷ counts

unfoldable pub sort_counts : Map ℤ → Map ℤ
unfolding insert_count
sort_counts [] = []
sort_counts ((identity, n) ∷ counts) = insert_count identity n (sort_counts counts)

-- The leader so far, and its count.
abbrev pub Leader : Type 0
Leader = Option Player × ℤ

-- A count above the best so far makes its runner the leader, if there is one.
abbrev pub lead_by : Option Player → ℤ → Leader → Leader
lead_by none n l = l
lead_by (some p) n (leader, best) = if ltb_ℤ best n then (some p, n) else (leader, best)

unfoldable pub lead_step : Map Player → String → ℤ → Leader → Leader
lead_step users identity n l = lead_by (get identity users) n l

unfoldable pub lead_from : Map Player → Map ℤ → Leader → Leader
unfolding lead_step
lead_from users [] l = l
lead_from users ((identity, n) ∷ counts) l = lead_from users counts (lead_step users identity n l)

unfoldable pub leader : Map Player → Map ℤ → Leader
unfolding lead_from sort_counts
leader users counts = lead_from users (sort_counts counts) (none, pos 0)

abbrev pub heats : Map Player → Map ℤ
heats [] = []
heats ((identity, p) ∷ users) = (identity, p.heat) ∷ heats users

abbrev pub line_of : (Player → ℤ → String) → Leader → List String
line_of f (none, n) = []
line_of f (some p, n) = f p n ∷ []

abbrev pub climber_line : Player → ℤ → String
climber_line p n = "top climber " ⧺ display_name p ⧺ " (+" ⧺ show n ⧺ " Rep)"

abbrev pub wanted_line : Player → ℤ → String
wanted_line p n = "most wanted " ⧺ display_name p ⧺ " (Heat " ⧺ show n ⧺ ")"

abbrev pub champ_line : Player → ℤ → String
champ_line p n =
    "street champ "
    ⧺ display_name p
    ⧺ " ("
    ⧺ show n
    ⧺ " collision win"
    ⧺ (if eqb_ℤ n (pos 1) then "" else "s")
    ⧺ ")"

unfoldable pub bulletin_parts : Map Player → WorldState → List String
unfolding leader
bulletin_parts users w =
    line_of climber_line (leader users w.bulletin.climbs)
    ++ (line_of wanted_line (leader users (heats users))
        ++ (line_of champ_line (leader users w.bulletin.collision_wins)
            ++ (if ltb 0 (length w.faction_week.scores)
                then ("faction week: " ⧺ faction_standings w.faction_week.scores) ∷ []
                else [])))

module _ {R : Type 0} where
  abbrev pub set_bulletin : Bulletin → Action R (Unit {0})
  set_bulletin b = edit_world (λ w. record w { bulletin = b })

  unfoldable pub bulletin_tick : Time → Action R String
  bulletin_tick now = do
    world ← gets (λ e. e.world)
    users ← gets (λ e. e.users)
    let b = world.bulletin
    if is_zero b.next_at
        then (set_bulletin (record b { next_at = add now bulletin_interval }) >> pure "")
        else if before now b.next_at
        then pure ""
        else do
          let parts = bulletin_parts users world
          set_bulletin
              (record { next_at = add now bulletin_interval; climbs = []; collision_wins = [] })
          pure (if length parts == 0 then "" else "[GRID] DAILY BULLETIN: " ⧺ joined " · " parts)
