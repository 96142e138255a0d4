-- ===== src/Config/Env.antt =====
-- The environment variables that override the file: `applyEnv` of internal/config/config.go. The
-- environment is a function: what `os.LookupEnv` gives for a name.
use text.Mathlib.Text.{◌==◌ as text_eq}
use neongrid.Base.{Bool, List, Option, String, [], if◌then◌else◌, none, some, ◌∷◌}
use neongrid.Base.Int.{ℤ}
use neongrid.Base.Text.{trim_space}
use neongrid.Config.{Events, Failure, Loaded, Penalty, Settings, ◌>>=◌}
use neongrid.Config.Parse.{atoi, parse_bool, split_commas}

abbrev pub Environment : Type 0
Environment = String → Option String

unfoldable pub str : Environment → String → String → String
str env name target = elim (env name) [ none ↦ target | some value ↦ value ]

abbrev parsed : {A : Type 0} → String → Option A → Loaded A
parsed name none = Loaded.failed (Failure.bad_value name)
parsed name (some a) = Loaded.loaded a

unfoldable pub int_env : Environment → String → ℤ → Loaded ℤ
int_env env name target = elim (env name) [
  | none ↦ Loaded.loaded target
  | some value ↦ parsed name (atoi value)
]

unfoldable pub bool_env : Environment → String → Bool → Loaded Bool
bool_env env name target = elim (env name) [
  | none ↦ Loaded.loaded target
  | some value ↦ parsed name (parse_bool value)
]

keep_accounts : List String → List String
keep_accounts [] = []
keep_accounts (account ∷ rest) =
    let kept = keep_accounts rest in
    if text_eq (trim_space account) "" then kept else trim_space account ∷ kept

unfoldable pub admin_env : Environment → List String → List String
unfolding keep_accounts
admin_env env accounts = elim (env "NEONGRID_ADMIN_ACCOUNTS") [
  | none ↦ accounts
  | some value ↦ keep_accounts (split_commas value)
]

-- The text settings.
unfoldable pub apply_text : Environment → Settings → Settings
unfolding str
apply_text env c =
    let s = c.nickserv in
    record c {
      server = str env "NEONGRID_SERVER" c.server;
      nick = str env "NEONGRID_NICK" c.nick;
      user = str env "NEONGRID_USER" c.user;
      name = str env "NEONGRID_NAME" c.name;
      channel = str env "NEONGRID_CHANNEL" c.channel;
      database = str env "NEONGRID_DATABASE" c.database;
      web_listen = str env "NEONGRID_WEB_LISTEN" c.web_listen;
      admin_accounts = admin_env env c.admin_accounts;
      nickserv = record s {
        name = str env "NEONGRID_NICKSERV_NAME" s.name;
        account = str env "NEONGRID_NICKSERV_ACCOUNT" s.account;
        password = str env "NEONGRID_NICKSERV_PASSWORD" s.password;
        identify_command = str env "NEONGRID_NICKSERV_IDENTIFY_COMMAND" s.identify_command;
      };
    }

unfoldable pub penalty_env : Environment → Penalty → Loaded Penalty
penalty_env env p = do
  speech_base ← int_env env "NEONGRID_PENALTY_SPEECH_BASE_SECONDS" p.speech_base_seconds
  speech_per_level ←
      int_env env "NEONGRID_PENALTY_SPEECH_PER_LEVEL_SECONDS" p.speech_per_level_seconds
  speech_per_character ←
      int_env env "NEONGRID_PENALTY_SPEECH_PER_CHARACTER_SECONDS" p.speech_per_character_seconds
  action_base ← int_env env "NEONGRID_PENALTY_ACTION_BASE_SECONDS" p.action_base_seconds
  action_per_level ←
      int_env env "NEONGRID_PENALTY_ACTION_PER_LEVEL_SECONDS" p.action_per_level_seconds
  action_per_character ←
      int_env env "NEONGRID_PENALTY_ACTION_PER_CHARACTER_SECONDS" p.action_per_character_seconds
  nick ← int_env env "NEONGRID_PENALTY_NICK_SECONDS" p.nick_seconds
  part ← int_env env "NEONGRID_PENALTY_PART_SECONDS" p.part_seconds
  quit ← int_env env "NEONGRID_PENALTY_QUIT_SECONDS" p.quit_seconds
  kick ← int_env env "NEONGRID_PENALTY_KICK_SECONDS" p.kick_seconds
  Loaded.loaded (record {
    speech_base_seconds = speech_base;
    speech_per_level_seconds = speech_per_level;
    speech_per_character_seconds = speech_per_character;
    action_base_seconds = action_base;
    action_per_level_seconds = action_per_level;
    action_per_character_seconds = action_per_character;
    nick_seconds = nick;
    part_seconds = part;
    quit_seconds = quit;
    kick_seconds = kick;
  })

unfoldable pub events_env : Environment → Events → Loaded Events
events_env env v = do
  tick ← int_env env "NEONGRID_EVENTS_TICK_SECONDS" v.tick_seconds
  encounter ← int_env env "NEONGRID_EVENTS_ENCOUNTER_MINUTES" v.encounter_minutes
  city_event ← int_env env "NEONGRID_EVENTS_CITY_EVENT_MINUTES" v.city_event_minutes
  pirate ← int_env env "NEONGRID_EVENTS_PIRATE_MINUTES" v.pirate_minutes
  district ← int_env env "NEONGRID_EVENTS_DISTRICT_HOURS" v.district_hours
  heat_decay ← int_env env "NEONGRID_EVENTS_HEAT_DECAY_MINUTES" v.heat_decay_minutes
  contract ← int_env env "NEONGRID_EVENTS_CONTRACT_HOURS" v.contract_hours
  participants ← int_env env "NEONGRID_EVENTS_CONTRACT_PARTICIPANTS" v.contract_participants
  collision ← int_env env "NEONGRID_EVENTS_COLLISION_MINUTES" v.collision_minutes
  artifact ← int_env env "NEONGRID_EVENTS_ARTIFACT_OFFLINE_DAYS" v.artifact_offline_days
  Loaded.loaded (record {
    tick_seconds = tick;
    encounter_minutes = encounter;
    city_event_minutes = city_event;
    pirate_minutes = pirate;
    district_hours = district;
    heat_decay_minutes = heat_decay;
    contract_hours = contract;
    contract_participants = participants;
    collision_minutes = collision;
    artifact_offline_days = artifact;
  })

-- The first variable, in the order of the code, that does not parse is the error.
unfoldable pub apply_env : Environment → Settings → Loaded Settings
apply_env env c0 = do
  let c = apply_text env c0
  sasl ← bool_env env "NEONGRID_NICKSERV_SASL" c.nickserv.sasl
  fallback ← bool_env env "NEONGRID_TLS_LEGACY_FALLBACK" c.tls_legacy_fallback
  port ← int_env env "NEONGRID_PORT" c.port
  tls ← bool_env env "NEONGRID_TLS" c.tls
  tls12 ← bool_env env "NEONGRID_TLS12_ONLY" c.tls12_only
  retention ← int_env env "NEONGRID_GUEST_RETENTION_DAYS" c.guest_retention_days
  reconnect ← int_env env "NEONGRID_RECONNECT_SECONDS" c.reconnect_seconds
  base ← int_env env "NEONGRID_PROGRESSION_BASE_MINUTES" c.progression.base_minutes
  step ← int_env env "NEONGRID_PROGRESSION_LEVEL_STEP_MINUTES" c.progression.level_step_minutes
  penalty ← penalty_env env c.penalty
  events ← events_env env c.events
  Loaded.loaded (record c {
    port = port;
    tls = tls;
    tls12_only = tls12;
    tls_legacy_fallback = fallback;
    nickserv = record c.nickserv { sasl = sasl };
    progression = record { base_minutes = base; level_step_minutes = step };
    penalty = penalty;
    events = events;
    guest_retention_days = retention;
    reconnect_seconds = reconnect;
  })
