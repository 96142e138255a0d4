-- ===== src/Game/World/Encounter.antt =====
-- A runner meets ICE: `encounterLocked`.
-- The gain of a win, before the stance; the loss of a defeat.
use text.Mathlib.Text.{◌==◌ as text_eq}
use neongrid.Base.{List, Option, String, [], false, if◌then◌else◌, none, some, ℕ, ◌++◌, ◌==◌, ◌∷◌}
use neongrid.Base.Int.{ltb_ℤ, pos, quot, ℤ, ◌⊕◌, ◌⊖◌, ◌⊗◌}
use neongrid.Base.Text.{◌⧺◌}
use neongrid.Config.Rules.{rules}
use neongrid.Game.Data.{
  Item, Player, Rules, district_ghost_quarter, faction_chrome, faction_nomad, scar_burned_optic,
  scar_ghost_signal,
}
use neongrid.Game.Engine.Action.{Action, gets, intn, pure, ◌>>=◌, ◌>>◌}
use neongrid.Game.Flavor.{
  Pair, ice_loss_templates, ice_names, ice_unique_templates, ice_win_templates, pick, place_in,
  render,
}
use neongrid.Game.Rating.{
  add_heat, display_name, ice_win_chance, level_duration, stance_heat, stance_reward,
}
use neongrid.Game.Repository.{Repository}
use neongrid.Game.Titles.{add_scar}
use neongrid.Game.World.Artifacts.{rare_loot}
use neongrid.Game.World.Steps.{max64, score_faction, set_user}

unfoldable pub ice_gain : Rules → Player → ℤ
ice_gain rules p =
    let gain = max64 (pos 10) (quot (level_duration rules p.level) 20) in
    if text_eq p.faction faction_chrome then quot (gain ⊗ pos 3) 2 else gain

unfoldable pub ice_loss : Rules → Player → ℤ
ice_loss rules p =
    let loss = max64 (pos 5) (quot (level_duration rules p.level) 30) in
    let eased = if text_eq p.faction faction_nomad then max64 (pos 3) (quot loss 2) else loss in
    if text_eq p.district district_ghost_quarter then quot (eased ⊗ pos 3) 2 else eased

abbrev pub ice_pairs : Player → String → String → List Pair
ice_pairs p ice place = ("runner", display_name p) ∷ ("ice", ice) ∷ ("place", place) ∷ []

module _ {R : Type 0} where
  -- A scar with one chance in `n`, and what is said of it.
  unfoldable pub roll_scar : String → Player → ℕ → String → String → Action R (String × Player)
  roll_scar key p n scar text = do
    roll ← intn n
    let (q, added) = if roll == 0 then add_scar p scar else (p, false)
    r ← set_user key q
    pure (if added then text else "", r)

module _ {R : Type 0} ⦃repo : Repository R⦄ where
  abbrev pub ice_message : Option Item → Player → String → String → Action R String
  ice_message none p ice place = do
    template ← pick ice_win_templates
    pure (render template (ice_pairs p ice place))
  ice_message (some item) p ice place = do
    template ← pick ice_unique_templates
    pure (render template (ice_pairs p ice place ++ ("item", item.name) ∷ []))

  unfoldable pub beat_ice : String → Player → String → String → Action R (String × Player)
  beat_ice key p ice place = do
    score_faction p (pos 1)
    rules ← gets (λ e. e.rules)
    q ← set_user key (record p {
      stats = record p.stats { ice_wins = p.stats.ice_wins ⊕ pos 1 };
      progress_seconds = p.progress_seconds ⊕ stance_reward p (ice_gain rules p);
      heat = add_heat p.heat (stance_heat p (pos 2));
    })
    (scar, r) ← roll_scar key q 25 scar_ghost_signal " Ghost Signal acquired."
    (item, s) ← rare_loot key r ""
    message ← ice_message item s ice place
    pure ("[GRID] " ⧺ message ⧺ scar, s)

  unfoldable pub lose_to_ice : String → Player → String → String → Action R (String × Player)
  lose_to_ice key p ice place = do
    rules ← gets (λ e. e.rules)
    q ← set_user key (record p {
      progress_seconds = p.progress_seconds ⊖ ice_loss rules p;
      heat = add_heat p.heat (stance_heat p (pos 8));
    })
    (scar, r) ← roll_scar key q 12 scar_burned_optic " Burned Optic acquired."
    template ← pick ice_loss_templates
    pure ("[GRID] " ⧺ render template (ice_pairs r ice place) ⧺ scar, r)

  unfoldable pub encounter : String → Player → Action R (String × Player)
  encounter key p = do
    ice ← pick ice_names
    place ← place_in p.district
    roll ← intn 100
    world ← gets (λ e. e.world)
    if ltb_ℤ (pos roll) (ice_win_chance p world.faction_week.champion)
        then beat_ice key p ice place
        else lose_to_ice key p ice place
