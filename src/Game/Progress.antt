-- ===== src/Game/Progress.antt =====
-- `advancePlayer` of internal/game/game.go: connected time, Heat decay, level-ups and titles.
pub mod Kept
pub mod Loop
use neongrid.Base.{
  List, String, [], false, get_or, if◌then◌else◌, suc, zero, ℕ, ◌%◌, ◌++◌, ◌==◌, ◌∷◌,
}
use neongrid.Base.Int.{divide, eqb_ℤ, leb_ℤ, ltb_ℤ, negsuc, pos, pos_part, ℤ, ◌⊕◌, ◌⊖◌, ◌⊗◌}
use neongrid.Base.Map.{get_default, put}
use neongrid.Base.Text.{show, ◌⧺◌}
use neongrid.Clock.{Time, add, after, is_zero, second, seconds, since}
use neongrid.Game.Data.{Item, Player, Rules, equipment_slots, slot_weapon_rig}
use neongrid.Game.Rating.{
  clamp_heat, display_name, equipment_name, gear_tier, level_duration, no_item,
}
use neongrid.Game.Titles.{update_titles}

-- `equipmentSlots[(p.Level-2)%len(equipmentSlots)]`. A level below 2 is not reached after a level-up
-- of a runner whose level is 1 or more; an index below 0 is a panic in Go, and the slot "" here.
unfoldable pub upgrade_slot : ℤ → String
upgrade_slot level = elim (level ⊖ pos 2) [
  | pos n ↦ get_or equipment_slots (n % 5) ""
  | negsuc n ↦ if suc n % 5 == 0 then slot_weapon_rig else ""
]

-- The variables of the level-up loop.
pub record Climb : Type 0 where
  pub runner : Player
  pub last_gear : String

-- The gear that a level-up installs: a unique in the slot is kept.
unfoldable pub install : Player → Climb
install p =
    let tier = gear_tier p.level in
    let slot = upgrade_slot p.level in
    let old = get_default no_item slot p.equipment in
    let item : Item = record {
      name = equipment_name slot tier;
      rating = tier;
      unique = false;
      breaks_at = pos 0;
    } in
    if old.unique
    then record { runner = p; last_gear = "UNIQUE " ⧺ old.name ⧺ " retained." }
    else record {
      runner = record p { equipment = put slot item p.equipment };
      last_gear = "Installed " ⧺ item.name ⧺ ".";
    }

-- One round of the loop.
unfoldable pub gain_level : Rules → Player → Climb
gain_level rules p = install (record p {
  progress_seconds = p.progress_seconds ⊖ level_duration rules p.level;
  level = p.level ⊕ pos 1;
})

-- The loop on fuel. A round takes at least a second of progress, so one round more than the
-- progress has seconds is enough.
unfoldable pub climb : ℕ → Rules → Climb → Climb
climb zero rules c = c
climb (suc fuel) rules c =
    let rest = climb fuel rules (gain_level rules c.runner) in
    if leb_ℤ (level_duration rules c.runner.level) c.runner.progress_seconds then rest else c

unfoldable pub climb_all : Rules → Player → Climb
climb_all rules p =
    climb (suc (pos_part p.progress_seconds)) rules (record { runner = p; last_gear = "" })

level_up_verb : ℤ → String
level_up_verb level =
    get_or ("reached" ∷ "climbed to" ∷ "hit" ∷ "clawed up to" ∷ []) (pos_part level % 4) ""

climb_message : Player → ℤ → String → List String
unfolding level_up_verb
climb_message p gained last_gear =
    if eqb_ℤ gained (pos 1)
    then ("[GRID] "
        ⧺ display_name p
        ⧺ " "
        ⧺ level_up_verb p.level
        ⧺ " Rep "
        ⧺ show p.level
        ⧺ ". "
        ⧺ last_gear)
      ∷ []
    else if ltb_ℤ (pos 1) gained
    then ("[GRID] "
        ⧺ display_name p
        ⧺ " surged to Rep "
        ⧺ show p.level
        ⧺ " (+"
        ⧺ show gained
        ⧺ "). Latest: "
        ⧺ last_gear)
      ∷ []
    else []

-- The clocks of a connected runner: the time since the last call becomes progress, in whole
-- seconds, and takes Heat away, in whole decay intervals.
unfoldable pub accrue_progress : Time → Player → Player
accrue_progress now p =
    let last : Time = if is_zero p.last_progress_at then now else p.last_progress_at in
    let elapsed = seconds (since now last) in
    if ltb_ℤ (pos 0) elapsed
    then record p {
      progress_seconds = p.progress_seconds ⊕ elapsed;
      last_progress_at = add last (elapsed ⊗ pos second);
    }
    else record p { last_progress_at = last }

unfoldable pub decay_heat : Rules → Time → Player → Player
decay_heat rules now p =
    let last : Time = if is_zero p.last_heat_at then now else p.last_heat_at in
    let elapsed = divide (since now last) rules.heat_decay_interval in
    if ltb_ℤ (pos 0) elapsed
    then record p {
      heat = clamp_heat (p.heat ⊖ elapsed);
      last_heat_at = add last (elapsed ⊗ rules.heat_decay_interval);
    }
    else record p { last_heat_at = last }

unfoldable pub see : Time → Player → Player
see now p = if after now p.last_seen_at then record p { last_seen_at = now } else p

unfoldable pub advance_player : Player → Time → Rules → Player × List String
unfolding climb_message
advance_player p now rules =
    let p1 = decay_heat rules now (accrue_progress now (see now p)) in
    let c = climb_all rules p1 in
    let (q, titles) = update_titles c.runner in
    if p.connected
    then (q, climb_message c.runner (c.runner.level ⊖ p1.level) c.last_gear ++ titles)
    else (record p { last_progress_at = now; last_heat_at = now }, [])
