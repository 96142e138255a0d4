-- ===== src/Game/Start.antt =====
-- `New` of internal/game/game.go. Here the rules that an engine starts with; Game/Start/Boot has the rest.
pub mod Least
pub mod Boot
pub mod Ready
use neongrid.Base.{if◌then◌else◌, ◌*◌}
use neongrid.Base.Int.{ltb_ℤ, pos, ℤ}
use neongrid.Clock.{hour, minute, second}
use neongrid.Game.Data.{Rules}

-- `if d < least { d = fallback }`
abbrev pub or_fallback : ℤ → ℤ → ℤ → ℤ
or_fallback d least fallback = if ltb_ℤ d least then fallback else d

unfoldable pub repaired_rules : Rules → Rules
repaired_rules r = record r {
  base_level_seconds = or_fallback r.base_level_seconds (pos 1) (pos 1800);
  encounter_interval = or_fallback r.encounter_interval (pos second) (pos hour);
  city_event_interval = or_fallback r.city_event_interval (pos second) (pos (2 * hour));
  district_interval = or_fallback r.district_interval (pos second) (pos (6 * hour));
  heat_decay_interval = or_fallback r.heat_decay_interval (pos second) (pos (30 * minute));
  contract_duration = or_fallback r.contract_duration (pos minute) (pos (8 * hour));
  contract_max_participants = or_fallback r.contract_max_participants (pos 1) (pos 4);
  collision_interval = or_fallback r.collision_interval (pos minute) (pos (90 * minute));
  pirate_duration = or_fallback r.pirate_duration (pos second) (pos (5 * minute));
  guest_retention = or_fallback r.guest_retention (pos hour) (pos (14 * 24 * hour));
  artifact_offline_release =
      or_fallback r.artifact_offline_release (pos hour) (pos (7 * 24 * hour));
}
