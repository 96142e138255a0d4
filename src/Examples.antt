-- ===== src/Examples.antt =====
-- A store in memory, runners and an engine, for the examples.
pub mod Engines
pub mod Formulas
pub mod Limits
pub mod Worlds
pub mod Artifacts
use neongrid.Base.{List, String, [], false, none, some, true, ℕ, ◌*◌, ◌∷◌}
use neongrid.Base.Int.{pos}
use neongrid.Base.Map.{delete}
use neongrid.Clock.{Time, hour, minute, second, zero_time}
use neongrid.Config.Rules.{rules}
use neongrid.Game.Data.{Contract, Player, Rules, WorldState}
use neongrid.Game.Engine.Action.{Engine, save}
use neongrid.Game.Join.{new_player}
use neongrid.Game.Repository.{Error, Repository, err, ok}
use neongrid.Game.Views.{recent_events, top}

-- The store: the runners saved, the last first.
abbrev pub Store : Type 0
Store = List Player

abbrev pub runner : String → String → Player
runner identity nick = new_player identity nick "" (pos (1000 * second))

instance abbrev pub memory : Repository Store
memory = record {
  load_all = λ s. (ok s, s);
  save = λ p s. (ok tt, p ∷ s);
  delete = λ identity s. (ok tt, s);
  claim_rare_item = λ item identity s. (ok true, s);
  release_rare_item = λ item s. (ok tt, s);
  transfer_rare_item = λ item identity s. (ok tt, s);
  migrate_guest = λ guest identity account nick s. (ok (runner identity nick), s);
  top = λ limit s. (ok s, s);
  load_world_state = λ s. (err Error.storage, s);
  save_world_state = λ world s. (ok tt, s);
}

abbrev pub at : ℕ → Time
at n = pos (n * second)

abbrev pub empty_world : WorldState
empty_world = record {
  pirate_until = zero_time;
  next_city_event_at = zero_time;
  faction_swap_until = zero_time;
  faction_swap_started_at = zero_time;
  next_faction_swap_at = zero_time;
  recent_events = [];
  contract = none;
  faction_week = record { scores = []; ends_at = zero_time; champion = "" };
  dead_drop = "";
  raid = none;
  bulletin = record { next_at = zero_time; climbs = []; collision_wins = [] };
}

abbrev pub standard : Rules
standard = record {
  game_channel = "#neongrid";
  base_level_seconds = pos 1800;
  level_step_seconds = pos 120;
  speech_base_seconds = pos 30;
  speech_per_level_seconds = pos 5;
  speech_per_character_seconds = pos 1;
  action_base_seconds = pos 45;
  action_per_level_seconds = pos 7;
  action_per_character_seconds = pos 1;
  nick_penalty_seconds = pos 90;
  part_penalty_seconds = pos 180;
  quit_penalty_seconds = pos 240;
  kick_penalty_seconds = pos 360;
  encounter_interval = pos (60 * minute);
  city_event_interval = pos (120 * minute);
  district_interval = pos (6 * hour);
  heat_decay_interval = pos (30 * minute);
  contract_duration = pos (8 * hour);
  contract_max_participants = pos 4;
  collision_interval = pos (90 * minute);
  pirate_duration = pos (5 * minute);
  guest_retention = pos (14 * 24 * hour);
  artifact_offline_release = pos (7 * 24 * hour);
}

abbrev pub fresh : Engine Store
fresh = record {
  store = [];
  rules = standard;
  rng = λ i. i;
  world = empty_world;
  users = [];
  pending = [];
  missing_since = [];
}

-- Neo is online, with Heat and a contract.
abbrev pub neo : Player
neo = record (runner "guest:neo" "neo") {
  connected = true;
  level = pos 3;
  progress_seconds = pos 100;
  heat = pos 7;
}

abbrev pub job : Contract
job = record {
  title = "Data heist";
  district = "Neon Market";
  participants = "guest:neo" ∷ "guest:trin" ∷ [];
  ends_at = pos (9000 * second);
  failed = false;
  dropped_by = "";
}

abbrev pub online : Engine Store
online = record fresh {
  users = ("guest:neo", neo) ∷ ("guest:trin", runner "guest:trin" "trin") ∷ [];
  world = record empty_world {
    contract = some job;
    faction_swap_started_at = pos (900 * second);
    faction_swap_until = pos (5000 * second);
  };
}
