-- ===== src/Game/World/Raid.antt =====
-- Blackwall raids of internal/game/features.go.
pub mod Ends
use text.Mathlib.Text.{◌==◌ as text_eq}
use neongrid.Base.{
  Bool, String, [], false, if◌then◌else◌, length, ltb, none, not, some, true, ℕ, ◌*◌, ◌==◌, ◌∷◌,
}
use neongrid.Base.Int.{leb_ℤ, pos, quot, ℤ, ◌⊕◌, ◌⊖◌, ◌⊗◌}
use neongrid.Base.Map.{Map}
use neongrid.Base.Text.{show, ◌⧺◌}
use neongrid.Clock.{Duration, Time, add, before, minute}
use neongrid.Config.Rules.{rules}
use neongrid.Game.Data.{Player, Raid, Rules, districts, faction_ghostline}
use neongrid.Game.Engine.Action.{Action, gets, intn, pure, save, ◌>>=◌, ◌>>◌}
use neongrid.Game.Engine.Users.{advance_locked, commit}
use neongrid.Game.Flavor.{format_duration, ice_names, pick}
use neongrid.Game.Rating.{add_heat, equipment_rating, expected_gear_rating, level_duration, max_int}
use neongrid.Game.Repository.{Repository, ok}
use neongrid.Game.World.Steps.{
  edit_world, linked_only, max64, score_faction, set_user, update_titles_locked,
}

abbrev pub raid_warning : Duration
raid_warning = pos (30 * minute)

-- What a runner adds to the team, and to the wall.
unfoldable pub raid_power : Player → ℤ
raid_power p =
    let power = p.level ⊕ equipment_rating p in
    if text_eq p.faction faction_ghostline then power ⊕ pos 2 else power

unfoldable pub raid_wall : Player → ℤ
raid_wall p = p.level ⊕ expected_gear_rating p.level

unfoldable pub total : (Player → ℤ) → Map Player → ℤ
total f [] = pos 0
total f ((key, p) ∷ team) = f p ⊕ total f team

unfoldable pub teamwork : ℕ → ℤ
teamwork n = max_int (pos 75) (pos 100 ⊖ pos 5 ⊗ (pos n ⊖ pos 1))

unfoldable pub is_breached : ℤ → ℤ → ℕ → ℕ → Bool
unfolding teamwork
is_breached power wall size roll =
    leb_ℤ (wall ⊗ (pos 55 ⊕ pos roll) ⊗ teamwork size) (power ⊗ pos 100 ⊗ pos 100)

unfoldable pub raid_won : Rules → Player → Player
raid_won rules p = record p {
  progress_seconds = p.progress_seconds ⊕ max64 (pos 60) (quot (level_duration rules p.level) 8);
  heat = add_heat p.heat (pos 3);
  stats = record p.stats { raid_wins = p.stats.raid_wins ⊕ pos 1 };
}

unfoldable pub raid_lost : Rules → Player → Player
raid_lost rules p = record p {
  progress_seconds = p.progress_seconds ⊖ max64 (pos 60) (quot (level_duration rules p.level) 12);
  heat = add_heat p.heat (pos 6);
}

abbrev pub raid_message : Raid → ℕ → Bool → String
raid_message raid size success =
    if success
    then "[GRID] BLACKWALL DOWN: "
      ⧺ show (pos size)
      ⧺ (if size == 1 then " runner" else " runners")
      ⧺ " tore "
      ⧺ raid.ice
      ⧺ " apart in "
      ⧺ raid.district
      ⧺ ". Everyone linked shares the payout."
    else "[GRID] BLACKWALL HOLDS: "
      ⧺ raid.ice
      ⧺ " shredded a "
      ⧺ show (pos size)
      ⧺ "-runner assault in "
      ⧺ raid.district
      ⧺ ". Everyone linked takes the hit."

module _ {R : Type 0} where
  unfoldable pub announce_raid : Time → Action R (String × Bool)
  announce_raid now = do
    ice ← pick ice_names
    district ← pick districts
    edit_world (λ w. record w {
      raid = some (record { ice = ice; district = district; resolves_at = add now raid_warning });
    })
    pure (
      "[GRID] BLACKWALL ALERT: "
          ⧺ ice
          ⧺ " is surfacing in "
          ⧺ district
          ⧺ ". Every linked runner gets tested against it in "
          ⧺ format_duration raid_warning
          ⧺ ". Stay on the Grid.",
      true,
    )

  unfoldable pub start_raid : Time → Action R (String × Bool)
  start_raid now e = elim e.world.raid [
    | some raid ↦ (ok ("", false), e)
    | none ↦
        if ltb (length (linked_only e.users)) 2 then (ok ("", false), e) else announce_raid now e
  ]

  -- The team, each runner advanced.
  unfoldable pub muster : Time → Map Player → Action R (Map Player)
  muster now [] = pure []
  muster now ((key, p) ∷ users) =
      if not p.connected
      then muster now users
      else do q ← advance_locked key p now; team ← muster now users; pure ((key, q) ∷ team)

module _ {R : Type 0} ⦃repo : Repository R⦄ where
  unfoldable pub reward_one : Bool → String → Player → Action R (Unit {0})
  reward_one success key p = do
    rules ← gets (λ e. e.rules)
    if success
        then (do
          q ← set_user key (raid_won rules p)
          score_faction q (pos 1)
          r ← update_titles_locked key q
          save r)
        else commit key (raid_lost rules p)

  unfoldable pub reward_each : Bool → Map Player → Action R (Unit {0})
  reward_each success [] = pure tt
  reward_each success ((key, p) ∷ team) = reward_one success key p >> reward_each success team

  abbrev pub assault : Raid → Map Player → Action R String
  assault raid [] = pure (
      "[GRID] " ⧺ raid.ice ⧺ " surfaced in " ⧺ raid.district
      ⧺ " and found nobody home. It sank back into the deep Grid.")
  assault raid (x ∷ xs) = do
    let team = x ∷ xs
    roll ← intn 76
    let success = is_breached (total raid_power team) (total raid_wall team) (length team) roll
    reward_each success team
    pure (raid_message raid (length team) success)

  unfoldable pub run_raid : Time → Raid → Action R String
  run_raid now raid = do
    edit_world (λ w. record w { raid = none })
    users ← gets (λ e. e.users)
    team ← muster now users
    assault raid team

  unfoldable pub resolve_raid : Time → Action R String
  resolve_raid now e = elim e.world.raid [
    | none ↦ (ok "", e)
    | some raid ↦ if before now raid.resolves_at then (ok "", e) else run_raid now raid e
  ]
