-- ===== src/Game/Data.antt =====
-- The data of internal/game/game.go and features.go: runners, the shared world, the rules. A nil
-- map or slice is the empty one, and a nil pointer is `none`.
use neongrid.Base.{String, Bool, List, [], ◌∷◌, Option, ℕ}
use neongrid.Base.Int.{ℤ}
use neongrid.Base.Map.{Map}
use neongrid.Clock.{Time, Duration}

pub data Activity : Type 0 where
  chat action nick part quit kick netsplit : Activity

abbrev pub max_heat : ℕ
max_heat = 100

abbrev pub slot_weapon_rig : String
slot_weapon_rig = "weapon_rig"

abbrev pub slot_armor_plating : String
slot_armor_plating = "armor_plating"

abbrev pub slot_neural_implant : String
slot_neural_implant = "neural_implant"

abbrev pub slot_deck : String
slot_deck = "deck"

abbrev pub slot_drone : String
slot_drone = "drone"

abbrev pub faction_ghostline : String
faction_ghostline = "ghostline"

abbrev pub faction_chrome : String
faction_chrome = "chrome"

abbrev pub faction_nomad : String
faction_nomad = "nomad"

abbrev pub scar_burned_optic : String
scar_burned_optic = "Burned Optic"

abbrev pub scar_ghost_signal : String
scar_ghost_signal = "Ghost Signal"

abbrev pub scar_corporate_backdoor : String
scar_corporate_backdoor = "Corporate Backdoor"

abbrev pub scar_synthetic_adrenal_gland : String
scar_synthetic_adrenal_gland = "Synthetic Adrenal Gland"

abbrev pub district_neon_market : String
district_neon_market = "Neon Market"

abbrev pub district_floodline : String
district_floodline = "Floodline"

abbrev pub district_corporate_arcology : String
district_corporate_arcology = "Corporate Arcology"

abbrev pub district_old_transit : String
district_old_transit = "Old Transit"

abbrev pub district_ghost_quarter : String
district_ghost_quarter = "Ghost Quarter"

abbrev pub stance_hot : String
stance_hot = "hot"

abbrev pub stance_cold : String
stance_cold = "cold"

abbrev pub districts : List String
districts =
    district_neon_market ∷ district_floodline ∷ district_corporate_arcology ∷ district_old_transit
    ∷ district_ghost_quarter ∷ []

abbrev pub equipment_slots : List String
equipment_slots =
    slot_weapon_rig ∷ slot_armor_plating ∷ slot_neural_implant ∷ slot_deck ∷ slot_drone ∷ []

pub record Item : Type 0 where
  pub name : String
  pub rating : ℤ
  pub unique : Bool
  -- the Rep level at which a unique burns out
  pub breaks_at : ℤ

pub record RunnerStats : Type 0 where
  pub ice_wins : ℤ
  pub collision_wins : ℤ
  pub contracts : ℤ
  pub uniques : ℤ
  pub thefts : ℤ
  pub dead_drops : ℤ
  pub raid_wins : ℤ
  pub longest_streak : ℤ

pub record Player : Type 0 where
  pub identity : String
  pub account : String
  pub nick : String
  pub alias : String
  pub guest : Bool
  pub level : ℤ
  pub progress_seconds : ℤ
  pub last_progress_at : Time
  pub connected : Bool
  pub last_seen_at : Time
  pub next_encounter_at : Time
  pub next_collision_at : Time
  pub district : String
  pub next_district_at : Time
  pub heat : ℤ
  pub last_heat_at : Time
  pub faction : String
  pub last_faction_swap_at : Time
  pub equipment : Map Item
  pub scars : List String
  pub titles : List String
  pub chosen_title : String
  pub stats : RunnerStats
  pub stance : String
  pub rivals : Map ℤ
  pub streak_since : Time
  pub streak_days : ℤ

pub record Contract : Type 0 where
  pub title : String
  pub district : String
  pub participants : List String
  pub ends_at : Time
  pub failed : Bool
  -- the participant whose disconnect failed the contract
  pub dropped_by : String

pub record FactionWeek : Type 0 where
  pub scores : Map ℤ
  pub ends_at : Time
  pub champion : String

pub record Raid : Type 0 where
  pub ice : String
  pub district : String
  pub resolves_at : Time

pub record Bulletin : Type 0 where
  pub next_at : Time
  pub climbs : Map ℤ
  pub collision_wins : Map ℤ

pub record WorldState : Type 0 where
  pub pirate_until : Time
  pub next_city_event_at : Time
  pub faction_swap_until : Time
  pub faction_swap_started_at : Time
  pub next_faction_swap_at : Time
  pub recent_events : List String
  pub contract : Option Contract
  pub faction_week : FactionWeek
  pub dead_drop : String
  pub raid : Option Raid
  pub bulletin : Bulletin

pub record Rules : Type 0 where
  pub game_channel : String
  pub base_level_seconds : ℤ
  pub level_step_seconds : ℤ
  pub speech_base_seconds : ℤ
  pub speech_per_level_seconds : ℤ
  pub speech_per_character_seconds : ℤ
  pub action_base_seconds : ℤ
  pub action_per_level_seconds : ℤ
  pub action_per_character_seconds : ℤ
  pub nick_penalty_seconds : ℤ
  pub part_penalty_seconds : ℤ
  pub quit_penalty_seconds : ℤ
  pub kick_penalty_seconds : ℤ
  pub encounter_interval : Duration
  pub city_event_interval : Duration
  pub district_interval : Duration
  pub heat_decay_interval : Duration
  pub contract_duration : Duration
  pub contract_max_participants : ℤ
  pub collision_interval : Duration
  pub pirate_duration : Duration
  pub guest_retention : Duration
  pub artifact_offline_release : Duration
