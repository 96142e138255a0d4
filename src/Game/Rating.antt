-- ===== src/Game/Rating.antt =====
-- The formulas of internal/game/game.go and features.go: penalties, level lengths, gear, odds, power,
-- Heat. None of them changes the state.
pub mod Bounds
use text.Mathlib.Text.{◌==◌ as text_eq}
use neongrid.Base.{
  Bool, String, [], any, false, if◌then◌else◌, length, not, suc, zero, ℕ, ◌&&◌, ◌||◌, ◌∷◌,
}
use neongrid.Base.Int.{leb_ℤ, ltb_ℤ, minus, pos, quot, ℤ, ◌⊕◌, ◌⊖◌, ◌⊗◌}
use neongrid.Base.Map.{Map, get_default}
use neongrid.Base.Text.{show, ◌⧺◌}
use neongrid.Clock.{Duration, second}
use neongrid.Game.Data.{
  Activity, Item, Player, Rules, district_corporate_arcology, district_floodline,
  district_ghost_quarter, district_old_transit, districts, faction_chrome, faction_ghostline,
  faction_nomad, max_heat, scar_burned_optic, scar_ghost_signal, scar_synthetic_adrenal_gland,
  slot_armor_plating, slot_deck, slot_drone, slot_neural_implant, slot_weapon_rig, stance_cold,
  stance_hot,
}

-- `max`, `min` and `max64` of the package
unfoldable pub max_int : ℤ → ℤ → ℤ
max_int a b = if ltb_ℤ b a then a else b

unfoldable pub min_int : ℤ → ℤ → ℤ
min_int a b = if ltb_ℤ a b then a else b

unfoldable pub clamp_heat : ℤ → ℤ
clamp_heat heat =
    if ltb_ℤ heat (pos 0) then pos 0 else if ltb_ℤ (pos max_heat) heat then pos max_heat else heat

unfoldable pub add_heat : ℤ → ℤ → ℤ
add_heat heat amount = clamp_heat (heat ⊕ amount)

unfoldable pub disconnect_heat : Activity → ℤ
disconnect_heat Activity.kick = pos 15
disconnect_heat Activity.part = pos 5
disconnect_heat Activity.quit = pos 5
disconnect_heat _ = pos 0

unfoldable pub penalty_seconds : ℤ → Activity → ℤ → Rules → ℤ
penalty_seconds level kind length rules =
    let level_scale = (if ltb_ℤ level (pos 1) then pos 1 else level) ⊖ pos 1 in
    let spoken : ℤ = if ltb_ℤ length (pos 0) then pos 0 else length in
    let per_level = level_scale ⊗ rules.speech_per_level_seconds in
    elim kind [
      | Activity.chat ↦
          rules.speech_base_seconds ⊕ per_level ⊕ spoken ⊗ rules.speech_per_character_seconds
      | Activity.action ↦
          rules.action_base_seconds
          ⊕ level_scale ⊗ rules.action_per_level_seconds
          ⊕ spoken ⊗ rules.action_per_character_seconds
      | Activity.nick ↦ rules.nick_penalty_seconds ⊕ per_level
      | Activity.part ↦ rules.part_penalty_seconds ⊕ per_level
      | Activity.quit ↦ rules.quit_penalty_seconds ⊕ per_level
      | Activity.kick ↦ rules.kick_penalty_seconds ⊕ per_level
      | Activity.netsplit ↦ pos 0
    ]

unfoldable pub level_duration : Rules → ℤ → ℤ
level_duration rules level =
    let l : ℤ = if ltb_ℤ level (pos 1) then pos 1 else level in
    let duration = rules.base_level_seconds ⊕ (l ⊖ pos 1) ⊗ rules.level_step_seconds in
    if ltb_ℤ duration (pos 1) then pos 1 else duration

unfoldable pub gear_tier : ℤ → ℤ
gear_tier level = pos 1 ⊕ quot (level ⊖ pos 1) 3

-- The loop of `expectedGearRating` runs while `l > level-5`, so five rounds are enough.
expected_from : ℕ → ℤ → ℤ → ℤ → ℤ
expected_from zero level l total = total
expected_from (suc rounds) level l total =
    let rest = expected_from rounds level (l ⊖ pos 1) (total ⊕ gear_tier l) in
    if leb_ℤ (pos 2) l && ltb_ℤ (level ⊖ pos 5) l then rest else total

unfoldable pub expected_gear_rating : ℤ → ℤ
unfolding expected_from gear_tier
expected_gear_rating level = expected_from 5 level level (pos 0)

unfoldable pub sum_ratings : ℤ → Map Item → ℤ
sum_ratings total [] = total
sum_ratings total ((slot, item) ∷ m) = sum_ratings (total ⊕ item.rating) m

unfoldable pub equipment_rating : Player → ℤ
unfolding sum_ratings
equipment_rating p = sum_ratings (pos 0) p.equipment

unfoldable pub display_name : Player → String
display_name p = if text_eq p.alias "" then p.nick else p.alias

unfoldable pub has_scar : Player → String → Bool
has_scar p scar = any (λ existing. text_eq existing scar) p.scars

unfoldable pub stance_odds : Player → ℤ
stance_odds p =
    if text_eq p.stance stance_hot
    then minus 10
    else if text_eq p.stance stance_cold
    then pos 10
    else pos 0

unfoldable pub stance_reward : Player → ℤ → ℤ
stance_reward p gain =
    if text_eq p.stance stance_hot
    then quot (gain ⊗ pos 3) 2
    else if text_eq p.stance stance_cold
    then quot (gain ⊗ pos 3) 5
    else gain

unfoldable pub stance_heat : Player → ℤ → ℤ
stance_heat p heat =
    if text_eq p.stance stance_hot
    then quot (heat ⊗ pos 3) 2
    else if text_eq p.stance stance_cold
    then quot heat 2
    else heat

unfoldable pub district_encounter_bonus : String → ℤ
district_encounter_bonus district =
    if text_eq district district_corporate_arcology
    then pos 2
    else if text_eq district district_old_transit
    then pos 1
    else if text_eq district district_ghost_quarter
    then minus 2
    else pos 0

-- `if test { chance += amount }`
abbrev pub when_add : Bool → ℤ → ℤ → ℤ
when_add test amount chance = if test then chance ⊕ amount else chance

-- The chance before `iceWinChance` brings it into its range.
unfoldable pub ice_odds : Player → String → ℤ
ice_odds p champion =
    let c0 = pos 65 ⊕ pos 3 ⊗ (equipment_rating p ⊖ expected_gear_rating p.level) ⊕ stance_odds p in
    let c1 = when_add (not (text_eq champion "") && text_eq p.faction champion) (pos 5) c0 in
    let c2 = when_add (has_scar p scar_ghost_signal) (pos 5) c1 in
    let c3 : ℤ = if has_scar p scar_burned_optic then c2 ⊖ pos 5 else c2 in
    let c4 = when_add (text_eq p.faction faction_ghostline) (pos 10) c3 in
    let c5 = c4 ⊕ pos 5 ⊗ district_encounter_bonus p.district in c5 ⊖ quot p.heat 5

unfoldable pub ice_win_chance : Player → String → ℤ
unfolding max_int min_int ice_odds
ice_win_chance p champion = max_int (pos 10) (min_int (pos 95) (ice_odds p champion))

unfoldable pub collision_power : Player → ℤ
collision_power p =
    let p0 = p.level ⊕ equipment_rating p ⊕ quot p.heat 25 in
    let p1 = when_add (has_scar p scar_synthetic_adrenal_gland) (pos 2) p0 in
    let p2 : ℤ = if has_scar p scar_burned_optic then p1 ⊖ pos 1 else p1 in
    let p3 : ℤ =
      if text_eq p.faction faction_ghostline
      then p2 ⊕ pos 2
      else when_add (text_eq p.faction faction_chrome || text_eq p.faction faction_nomad) (pos 1)
          p2 in
    if text_eq p.district district_floodline || text_eq p.district district_corporate_arcology
    then p3 ⊕ pos 1
    else if text_eq p.district district_ghost_quarter
    then p3 ⊖ pos 1
    else p3

unfoldable pub collision_loss : Player → ℤ → ℤ
unfolding max_int
collision_loss p loss =
    if text_eq p.faction faction_nomad then max_int (pos 3) (quot loss 2) else loss

unfoldable pub rare_loot_chance : Player → ℤ
unfolding min_int
rare_loot_chance p =
    let chance = pos 5 ⊕ quot p.heat 10 in
    let staked : ℤ =
      if text_eq p.stance stance_hot
      then chance ⊗ pos 2
      else if text_eq p.stance stance_cold
      then quot chance 2
      else chance in
    min_int (pos 100) staked

unfoldable pub valid_district : String → Bool
valid_district district = any (λ known. text_eq district known) districts

unfoldable pub valid_faction : String → Bool
valid_faction faction =
    text_eq faction faction_ghostline
    || text_eq faction faction_chrome
    || text_eq faction faction_nomad

-- The zero value of `Item`, read at a slot that a runner has nothing in.
abbrev pub no_item : Item
no_item = record { name = ""; rating = pos 0; unique = false; breaks_at = pos 0 }

slot_name : String → String
slot_name slot = get_default "" slot (
    (slot_weapon_rig, "Mono-edge weapon rig")
    ∷ (slot_armor_plating, "Reactive armor plating")
    ∷ (slot_neural_implant, "Neural reflex implant")
    ∷ (slot_deck, "Ghostline deck")
    ∷ (slot_drone, "Scout drone")
    ∷ [])

unfoldable pub equipment_name : String → ℤ → String
unfolding slot_name
equipment_name slot tier = slot_name slot ⧺ " Mk " ⧺ show tier

unfoldable pub next_level_in : Player → Rules → Duration
next_level_in p rules =
    let remaining = level_duration rules p.level ⊖ p.progress_seconds in
    (if ltb_ℤ remaining (pos 0) then pos 0 else remaining) ⊗ pos second
