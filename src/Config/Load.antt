-- ===== src/Config/Load.antt =====
-- `Load` and `validate` of internal/config/config.go.
use text.Mathlib.Text.{starts_with, ◌==◌ as text_eq}
use neongrid.Base.{List, Option, String, [], if◌then◌else◌, none, not, some, ◌||◌, ◌∷◌}
use neongrid.Base.Int.{ltb_ℤ, pos, ℤ}
use neongrid.Config.{Failure, Loaded, Settings, defaults, ◌>>=◌}
use neongrid.Config.Env.{Environment, apply_env}

abbrev pub Knob : Type 0
Knob = String × ℤ

-- The settings that must not be negative. The code ranges over a map, so that it may name any of
-- those that are; here it names the first.
unfoldable pub knobs : Settings → List Knob
knobs c =
    ("progression.base_minutes", c.progression.base_minutes)
    ∷ ("progression.level_step_minutes", c.progression.level_step_minutes)
    ∷ ("penalty.speech_base_seconds", c.penalty.speech_base_seconds)
    ∷ ("penalty.speech_per_level_seconds", c.penalty.speech_per_level_seconds)
    ∷ ("penalty.speech_per_character_seconds", c.penalty.speech_per_character_seconds)
    ∷ ("penalty.action_base_seconds", c.penalty.action_base_seconds)
    ∷ ("penalty.action_per_level_seconds", c.penalty.action_per_level_seconds)
    ∷ ("penalty.action_per_character_seconds", c.penalty.action_per_character_seconds)
    ∷ ("penalty.nick_seconds", c.penalty.nick_seconds)
    ∷ ("penalty.part_seconds", c.penalty.part_seconds)
    ∷ ("penalty.quit_seconds", c.penalty.quit_seconds)
    ∷ ("penalty.kick_seconds", c.penalty.kick_seconds)
    ∷ ("events.encounter_minutes", c.events.encounter_minutes)
    ∷ ("events.city_event_minutes", c.events.city_event_minutes)
    ∷ ("events.pirate_minutes", c.events.pirate_minutes)
    ∷ ("events.district_hours", c.events.district_hours)
    ∷ ("events.heat_decay_minutes", c.events.heat_decay_minutes)
    ∷ ("events.contract_hours", c.events.contract_hours)
    ∷ ("events.contract_participants", c.events.contract_participants)
    ∷ ("events.collision_minutes", c.events.collision_minutes)
    ∷ ("events.artifact_offline_days", c.events.artifact_offline_days)
    ∷ []

unfoldable pub first_negative : List Knob → Option Failure
first_negative [] = none
first_negative ((name, value) ∷ rest) =
    let later = first_negative rest in
    if ltb_ℤ value (pos 0) then some (Failure.negative name) else later

unfoldable pub validate : Settings → Option Failure
unfolding knobs first_negative
validate c =
    if text_eq c.server ""
    then some (Failure.missing "server")
    else if ltb_ℤ c.port (pos 1) || ltb_ℤ (pos 65535) c.port
    then some Failure.bad_port
    else if text_eq c.nick ""
    then some (Failure.missing "nick")
    else if not (starts_with c.channel "#")
    then some Failure.bad_channel
    else if text_eq c.database ""
    then some (Failure.missing "database")
    else first_negative (knobs c)

abbrev or_text : String → String → String
or_text s fallback = if text_eq s "" then fallback else s

-- `if value < 1 { value = fallback }`
unfoldable pub at_least_one : ℤ → ℤ → ℤ
at_least_one value fallback = if ltb_ℤ value (pos 1) then fallback else value

-- What `Load` fills in after the environment.
unfoldable pub filled : Settings → Settings
unfolding at_least_one
filled c =
    let s = c.nickserv in
    record c {
      user = or_text c.user c.nick;
      name = or_text c.name c.nick;
      nickserv = record s {
        name = or_text s.name "NickServ";
        identify_command = or_text s.identify_command "IDENTIFY";
      };
      guest_retention_days = at_least_one c.guest_retention_days (pos 14);
      reconnect_seconds = at_least_one c.reconnect_seconds (pos 10);
      events = record c.events { tick_seconds = at_least_one c.events.tick_seconds (pos 30) };
    }

abbrev pub checked : Settings → Option Failure → Loaded Settings
checked c none = Loaded.loaded c
checked c (some x) = Loaded.failed x

-- The file system, as what a path holds, and the YAML library, as what a text makes of settings, are
-- parameters.
module _ (read_file : String → Option String)
    (unmarshal : String → Settings → Option Settings) where
  unfoldable pub from_file : String → Loaded Settings
  from_file path = if text_eq path "" then Loaded.loaded defaults else elim (read_file path) [
    | none ↦ Loaded.failed Failure.unreadable
    | some data_read ↦ elim (unmarshal data_read defaults) [
      | none ↦ Loaded.failed Failure.malformed
      | some c ↦ Loaded.loaded c
    ]
  ]

  unfoldable pub load : Environment → String → Loaded Settings
  unfolding from_file filled validate
  load env path = do
    c ← from_file path
    d ← apply_env env c
    checked (filled d) (validate (filled d))
