-- ===== src/Game/Start/Least.antt =====
-- What `New` makes of any rules.
use neongrid.Base.{arith, ◌*◌}
use neongrid.Base.Int.{pos, ℤ, ◌≤ℤ◌}
use neongrid.Clock.{hour, minute, second}
use neongrid.Game.Data.{Rules}
use neongrid.Game.Start.{or_fallback, repaired_rules}

or_fallback_least :
    (d least fallback : ℤ) → least ≤ℤ fallback → least ≤ℤ or_fallback d least fallback
or_fallback_least d least fallback h = ground arith

-- Whatever the rules, an engine starts with an interval of Heat decay, by which `advancePlayer` divides,
-- of a second at least, a first level of a second at least, a contract of a participant at least, and
-- every other interval at least the second, minute or hour that `New` asks of it.
pub repaired_rules_least :
    (r : Rules)
    → (pos second ≤ℤ (repaired_rules r).heat_decay_interval)
      × (pos 1 ≤ℤ (repaired_rules r).base_level_seconds)
      × (pos second ≤ℤ (repaired_rules r).encounter_interval)
      × (pos second ≤ℤ (repaired_rules r).city_event_interval)
      × (pos second ≤ℤ (repaired_rules r).district_interval)
      × (pos minute ≤ℤ (repaired_rules r).contract_duration)
      × (pos 1 ≤ℤ (repaired_rules r).contract_max_participants)
      × (pos minute ≤ℤ (repaired_rules r).collision_interval)
      × (pos second ≤ℤ (repaired_rules r).pirate_duration)
      × (pos hour ≤ℤ (repaired_rules r).guest_retention)
      × (pos hour ≤ℤ (repaired_rules r).artifact_offline_release)
unfolding repaired_rules
repaired_rules_least r = (
  or_fallback_least r.heat_decay_interval (pos second) (pos (30 * minute)) (omega arith),
  or_fallback_least r.base_level_seconds (pos 1) (pos 1800) (omega arith),
  or_fallback_least r.encounter_interval (pos second) (pos hour) (omega arith),
  or_fallback_least r.city_event_interval (pos second) (pos (2 * hour)) (omega arith),
  or_fallback_least r.district_interval (pos second) (pos (6 * hour)) (omega arith),
  or_fallback_least r.contract_duration (pos minute) (pos (8 * hour)) (omega arith),
  or_fallback_least r.contract_max_participants (pos 1) (pos 4) (omega arith),
  or_fallback_least r.collision_interval (pos minute) (pos (90 * minute)) (omega arith),
  or_fallback_least r.pirate_duration (pos second) (pos (5 * minute)) (omega arith),
  or_fallback_least r.guest_retention (pos hour) (pos (14 * 24 * hour)) (omega arith),
  or_fallback_least r.artifact_offline_release (pos hour) (pos (7 * 24 * hour)) (omega arith),
)
