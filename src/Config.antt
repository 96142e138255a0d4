-- ===== src/Config.antt =====
-- The configuration, internal/config/config.go: its types and the defaults.
pub mod Parse
pub mod Env
pub mod Load
pub mod Rules
pub mod Bounds
use neongrid.Base.{Bool, List, String, [], false, true}
use neongrid.Base.Int.{pos, ℤ}

pub record NickServ : Type 0 where
  pub name : String
  pub account : String
  pub password : String
  -- authenticate while the connection registers, where the server offers it
  pub sasl : Bool
  pub identify_command : String

pub record Progression : Type 0 where
  pub base_minutes : ℤ
  pub level_step_minutes : ℤ

pub record Penalty : Type 0 where
  pub speech_base_seconds : ℤ
  pub speech_per_level_seconds : ℤ
  pub speech_per_character_seconds : ℤ
  pub action_base_seconds : ℤ
  pub action_per_level_seconds : ℤ
  pub action_per_character_seconds : ℤ
  pub nick_seconds : ℤ
  pub part_seconds : ℤ
  pub quit_seconds : ℤ
  pub kick_seconds : ℤ

pub record Events : Type 0 where
  pub tick_seconds : ℤ
  pub encounter_minutes : ℤ
  pub city_event_minutes : ℤ
  pub pirate_minutes : ℤ
  pub district_hours : ℤ
  pub heat_decay_minutes : ℤ
  pub contract_hours : ℤ
  pub contract_participants : ℤ
  pub collision_minutes : ℤ
  pub artifact_offline_days : ℤ

pub record Settings : Type 0 where
  pub server : String
  pub port : ℤ
  pub tls : Bool
  pub tls12_only : Bool
  pub tls_legacy_fallback : Bool
  pub nick : String
  pub user : String
  pub name : String
  pub channel : String
  pub database : String
  pub web_listen : String
  pub admin_accounts : List String
  pub nickserv : NickServ
  pub progression : Progression
  pub penalty : Penalty
  pub events : Events
  pub guest_retention_days : ℤ
  pub reconnect_seconds : ℤ

abbrev pub defaults : Settings
defaults = record {
  server = "irc.libera.chat";
  port = pos 6697;
  tls = true;
  tls12_only = false;
  tls_legacy_fallback = false;
  nick = "neongrid";
  user = "";
  name = "";
  channel = "#neongrid";
  database = "neongrid.db";
  web_listen = "";
  admin_accounts = [];
  nickserv = record {
    name = "NickServ";
    account = "";
    password = "";
    sasl = true;
    identify_command = "IDENTIFY";
  };
  progression = record { base_minutes = pos 30; level_step_minutes = pos 2 };
  penalty = record {
    speech_base_seconds = pos 30;
    speech_per_level_seconds = pos 5;
    speech_per_character_seconds = pos 1;
    action_base_seconds = pos 45;
    action_per_level_seconds = pos 7;
    action_per_character_seconds = pos 1;
    nick_seconds = pos 90;
    part_seconds = pos 180;
    quit_seconds = pos 240;
    kick_seconds = pos 360;
  };
  events = record {
    tick_seconds = pos 30;
    encounter_minutes = pos 60;
    city_event_minutes = pos 120;
    pirate_minutes = pos 5;
    district_hours = pos 6;
    heat_decay_minutes = pos 30;
    contract_hours = pos 8;
    contract_participants = pos 4;
    collision_minutes = pos 90;
    artifact_offline_days = pos 7;
  };
  guest_retention_days = pos 14;
  reconnect_seconds = pos 10;
}

-- Why there is no configuration.
pub data Failure : Type 0 where
  unreadable malformed : Failure
  bad_value missing negative : String → Failure
  bad_port bad_channel : Failure

pub data Loaded {ℓ} (A : Type ℓ) : Type ℓ where
  loaded : A → Loaded A
  failed : Failure → Loaded A

module _ {A B : Type 0} where
  infixl 10 ◌>>=◌
  unfoldable pub ◌>>=◌ : Loaded A → (A → Loaded B) → Loaded B
  Loaded.loaded a >>= f = f a
  Loaded.failed x >>= f = Loaded.failed x
