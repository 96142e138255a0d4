-- ===== src/Game/World/Artifacts.antt =====
-- Artifacts: the unique items of which the Grid has one each (`rareLootLocked`, `retireUniqueLocked`,
-- `releaseAbandonedUniquesLocked`, `burnOutUniquesLocked` and `stealUniqueLocked`).
pub mod Life
pub mod Moves
use text.Mathlib.Text.{◌==◌ as text_eq}
use neongrid.Base.{
  Bool, List, Option, String, [], drop, false, get_or, if◌then◌else◌, leb, length, none, not, some,
  take, true, ℕ, ◌&&◌, ◌++◌, ◌==◌, ◌∷◌,
}
use neongrid.Base.Int.{eqb_ℤ, leb_ℤ, pos, ℤ, ◌⊕◌, ◌⊖◌}
use neongrid.Base.Map.{get_default, put}
use neongrid.Base.Text.{◌⧺◌}
use neongrid.Game.Data.{
  Item, Player, equipment_slots, slot_armor_plating, slot_deck, slot_drone, slot_neural_implant,
  slot_weapon_rig,
}
use neongrid.Game.Engine.Action.{Action, call, intn, pure, save, ◌>>=◌, ◌>>◌}
use neongrid.Game.Engine.Users.{take_pending}
use neongrid.Game.Rating.{
  display_name, equipment_name, gear_tier, max_int, no_item, rare_loot_chance,
}
use neongrid.Game.Repository.{Repository}
use neongrid.Game.World.Steps.{set_user, update_titles_locked}

pub record RareItem : Type 0 where
  pub name : String
  pub slot : String
  pub bonus : ℤ

abbrev rare_item : String → String → ℕ → RareItem
rare_item name slot bonus = record { name = name; slot = slot; bonus = pos bonus }

abbrev pub rare_items : List RareItem
rare_items =
    rare_item "Blackglass Deck" slot_deck 3
    ∷ rare_item "Saint-9 Reflex Coil" slot_neural_implant 2
    ∷ rare_item "Prototype Mantis Rig" slot_weapon_rig 4
    ∷ rare_item "Aegis Nullplate" slot_armor_plating 3
    ∷ rare_item "Whisperbyte Scout" slot_drone 2
    ∷ []

abbrev pub item_at : Player → String → Item
item_at p slot = get_default no_item slot p.equipment

-- The standard gear of a slot at the runner's level.
unfoldable pub standard_gear : String → ℤ → Item
standard_gear slot level = record {
  name = equipment_name slot (gear_tier level);
  rating = gear_tier level;
  unique = false;
  breaks_at = pos 0;
}

abbrev pub equip : String → Item → Player → Player
equip slot item p = record p { equipment = put slot item p.equipment }

abbrev pub found_unique : Player → Player
found_unique p = record p { stats = record p.stats { uniques = p.stats.uniques ⊕ pos 1 } }

abbrev pub is_burning : Player → Item → Bool
is_burning p item =
    item.unique && not (eqb_ℤ item.breaks_at (pos 0)) && leb_ℤ item.breaks_at p.level

abbrev pub salvaged : Option Item → String
salvaged none = ""
salvaged (some item) = " The salvage run turned up UNIQUE " ⧺ item.name ⧺ "!"

unfoldable pub unique_slots : Player → List String → List String
unique_slots p [] = []
unique_slots p (slot ∷ slots) =
    let rest = unique_slots p slots in if (item_at p slot).unique then slot ∷ rest else rest

-- The artifact as its new owner holds it: its remaining life stays, one level at least.
unfoldable pub moved_artifact : Player → Player → Item → Item
moved_artifact winner loser item =
    let remaining = max_int (pos 1) (item.breaks_at ⊖ loser.level) in
    record item { breaks_at = winner.level ⊕ remaining }

abbrev pub thief : Player → Player
thief p = record p {
  stats = record p.stats { thefts = p.stats.thefts ⊕ pos 1; uniques = p.stats.uniques ⊕ pos 1 };
}

module _ {R : Type 0} where
  unfoldable pub unique_life_levels : Action R ℤ
  unique_life_levels = do n ← intn 5; pure (pos 4 ⊕ pos n)

  -- The artifact that has been claimed goes into its slot.
  unfoldable pub fit_artifact : String → Player → RareItem → Action R (Option Item × Player)
  fit_artifact key p candidate = do
    life ← unique_life_levels
    let item : Item = record {
      name = candidate.name;
      rating = gear_tier p.level ⊕ candidate.bonus;
      unique = true;
      breaks_at = p.level ⊕ life;
    }
    q ← set_user key (found_unique (equip candidate.slot item p))
    r ← update_titles_locked key q
    pure (some item, r)

module _ {R : Type 0} ⦃repo : Repository R⦄ where
  -- The loop over the drop table.
  unfoldable pub claim_first :
      String → Player → String → List RareItem → Action R (Option Item × Player)
  claim_first key p exclude [] = pure (none, p)
  claim_first key p exclude (candidate ∷ rest) =
      let next = claim_first key p exclude rest in
      if text_eq candidate.name exclude
      then next
      else (call (repo.claim_rare_item candidate.name p.identity) >>= λ claimed.
          if claimed then fit_artifact key p candidate else next)

  unfoldable pub rare_loot : String → Player → String → Action R (Option Item × Player)
  rare_loot key p exclude = do
    roll ← intn 100
    if leb_ℤ (rare_loot_chance p) (pos roll) then pure (none, p) else do
      start ← intn (length rare_items)
      claim_first key p exclude (drop start rare_items ++ take start rare_items)

  unfoldable pub retire_unique : String → Player → String → Action R (Item × Player)
  retire_unique key p slot = do
    call (repo.release_rare_item (item_at p slot).name)
    let replacement = standard_gear slot p.level
    q ← set_user key (equip slot replacement p)
    pure (replacement, q)

  unfoldable pub release_each : String → Player → List String → Action R (List String × Player)
  release_each key p [] = pure ([], p)
  release_each key p (slot ∷ slots) =
      if not (item_at p slot).unique then release_each key p slots else do
        (replacement, q) ← retire_unique key p slot
        (messages, r) ← release_each key q slots
        let dark =
            "[GRID] "
            ⧺ display_name p
            ⧺ "'s UNIQUE "
            ⧺ (item_at p slot).name
            ⧺ " went dark while its owner was off the Grid. It's back on the black market."
        pure (dark ∷ messages, r)

  -- `if len(messages) > 0 { e.repo.Save(p) }`
  unfoldable pub save_if_any : List String → Player → Action R (Unit {0})
  save_if_any [] p = pure tt
  save_if_any (m ∷ ms) p = save p

  unfoldable pub release_abandoned : String → Player → Action R (List String)
  release_abandoned key p = do
    (messages, q) ← release_each key p equipment_slots
    save_if_any messages q
    pure messages

  unfoldable pub burn_each : String → Player → List String → Action R (List String × Player)
  burn_each key p [] = pure ([], p)
  burn_each key p (slot ∷ slots) =
      if not (is_burning p (item_at p slot)) then burn_each key p slots else do
        let item = item_at p slot
        (replacement, q) ← retire_unique key p slot
        (salvage, r) ← rare_loot key q item.name
        (messages, s) ← burn_each key r slots
        let burnt =
            "[GRID] "
            ⧺ display_name p
            ⧺ "'s UNIQUE "
            ⧺ item.name
            ⧺ " burned out and slipped back onto the black market. Fitted "
            ⧺ replacement.name
            ⧺ "."
            ⧺ salvaged salvage
        pure (burnt ∷ messages, s)

  unfoldable pub burn_out_uniques : String → Player → Action R (List String × Player)
  burn_out_uniques key p = do
    (messages, q) ← burn_each key p equipment_slots
    save_if_any messages q
    carried ← take_pending
    pure (messages ++ carried, q)

  unfoldable pub take_artifact :
      String → Player → String → Player → String → Action R (String × (Player × Player))
  take_artifact winner_key winner loser_key loser slot = do
    let item = item_at loser slot
    call (repo.transfer_rare_item item.name winner.identity)
    w ← set_user winner_key (thief (equip slot (moved_artifact winner loser item) winner))
    l ← set_user loser_key (equip slot (standard_gear slot loser.level) loser)
    w' ← update_titles_locked winner_key w
    pure (item.name, (w', l))

  -- The name of the stolen item, or "", and the two runners.
  unfoldable pub steal_unique :
      String → Player → String → Player → Action R (String × (Player × Player))
  steal_unique winner_key winner loser_key loser =
      let slots = unique_slots loser equipment_slots in
      if length slots == 0 then pure ("", (winner, loser)) else do
        roll ← intn 100
        if leb 20 roll then pure ("", (winner, loser)) else do
          i ← intn (length slots)
          take_artifact winner_key winner loser_key loser (get_or slots i "")
