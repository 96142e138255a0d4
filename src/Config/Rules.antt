-- ===== src/Config/Rules.antt =====
-- The rules of the game that a configuration makes: `Rules` of internal/config/config.go. The
-- products wrap around as Go's do.
use neongrid.Base.{if◌then◌else◌}
use neongrid.Base.Int.{ltb_ℤ, pos, ℤ, ◌⊗◌}
use neongrid.Clock.{Duration, hour, minute}
use neongrid.Config.{Settings}
use neongrid.Game.Data.{Rules}

unfoldable pub duration_minutes : ℤ → ℤ → Duration
duration_minutes value fallback = (if ltb_ℤ value (pos 1) then fallback else value) ⊗ pos minute

unfoldable pub duration_days : ℤ → ℤ → Duration
duration_days value fallback = (if ltb_ℤ value (pos 1) then fallback else value) ⊗ pos 24 ⊗ pos hour

unfoldable pub max_int : ℤ → ℤ → ℤ
max_int value fallback = if ltb_ℤ value (pos 1) then fallback else value

unfoldable pub rules : Settings → Rules
unfolding duration_minutes duration_days max_int
rules c = record {
  game_channel = c.channel;
  base_level_seconds = c.progression.base_minutes ⊗ pos 60;
  level_step_seconds = c.progression.level_step_minutes ⊗ pos 60;
  speech_base_seconds = c.penalty.speech_base_seconds;
  speech_per_level_seconds = c.penalty.speech_per_level_seconds;
  speech_per_character_seconds = c.penalty.speech_per_character_seconds;
  action_base_seconds = c.penalty.action_base_seconds;
  action_per_level_seconds = c.penalty.action_per_level_seconds;
  action_per_character_seconds = c.penalty.action_per_character_seconds;
  nick_penalty_seconds = c.penalty.nick_seconds;
  part_penalty_seconds = c.penalty.part_seconds;
  quit_penalty_seconds = c.penalty.quit_seconds;
  kick_penalty_seconds = c.penalty.kick_seconds;
  encounter_interval = duration_minutes c.events.encounter_minutes (pos 60);
  city_event_interval = duration_minutes c.events.city_event_minutes (pos 120);
  district_interval = max_int c.events.district_hours (pos 6) ⊗ pos hour;
  heat_decay_interval = duration_minutes c.events.heat_decay_minutes (pos 30);
  contract_duration = max_int c.events.contract_hours (pos 8) ⊗ pos hour;
  contract_max_participants = max_int c.events.contract_participants (pos 4);
  collision_interval = duration_minutes c.events.collision_minutes (pos 90);
  pirate_duration = duration_minutes c.events.pirate_minutes (pos 5);
  guest_retention = duration_days c.guest_retention_days (pos 14);
  artifact_offline_release = duration_days c.events.artifact_offline_days (pos 7);
}
