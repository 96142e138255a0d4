-- ===== src/Config/Bounds.antt =====
-- What `Load` promises of the configuration that it returns, and `Rules` of the rules made from it.
use mathlib.Core.Path.{subst}
use text.Mathlib.Text.{starts_with, ◌==◌ as text_eq}
use neongrid.Base.{
  All, List, Option, String, [], arith, false, if◌then◌else◌, none, refl, some, true, ◌*◌, ◌∷◌, ◌≡◌,
}
use neongrid.Base.Int.{pos, ℤ, ◌≤ℤ◌, ◌⊗◌}
use neongrid.Clock.{hour, minute}
use neongrid.Config.{Failure, Loaded, Settings, ◌>>=◌}
use neongrid.Config.Env.{Environment, apply_env}
use neongrid.Config.Load.{
  Knob, at_least_one, checked, filled, first_negative, from_file, knobs, load, validate,
}
use neongrid.Config.Rules.{duration_days, duration_minutes, max_int, rules}
use neongrid.Game.World.Collision.{collision}
use neongrid.Game.World.Encounter.{encounter}

module _ {A B : Type 0} where
  -- What a chain returns comes from what its first step returns.
  bind_loaded :
      (m : Loaded A) (f : A → Loaded B) (b : B)
      → (m >>= f) ≡ Loaded.loaded b
      → (a : A) × (f a ≡ Loaded.loaded b)
  unfolding ◌>>=◌
  bind_loaded (Loaded.loaded a) f b h = (a, h)
  bind_loaded (Loaded.failed x) f b h = absurd (cc)

-- A setting that is not negative.
abbrev pub IsKnob : Knob → Type 0
IsKnob (name, value) = pos 0 ≤ℤ value

first_negative-none : (ks : List Knob) → first_negative ks ≡ none → All IsKnob ks
unfolding first_negative
first_negative-none [] h = tt
first_negative-none ((name, value) ∷ ks) h = ground (arith, first_negative-none ks)

-- Settings that the engine and the bot can run on.
pub record IsSettings (c : Settings) : Type 0 where
  pub server : text_eq c.server "" ≡ false
  pub port : (pos 1 ≤ℤ c.port) × (c.port ≤ℤ pos 65535)
  pub nick : text_eq c.nick "" ≡ false
  pub user : text_eq c.user "" ≡ false
  pub name : text_eq c.name "" ≡ false
  pub services : text_eq c.nickserv.name "" ≡ false
  pub identify : text_eq c.nickserv.identify_command "" ≡ false
  pub channel : starts_with c.channel "#" ≡ true
  pub database : text_eq c.database "" ≡ false
  pub signs : All IsKnob (knobs c)
  pub tick : pos 1 ≤ℤ c.events.tick_seconds
  pub retention : pos 1 ≤ℤ c.guest_retention_days
  pub reconnect : pos 1 ≤ℤ c.reconnect_seconds

record Passed (c : Settings) : Type 0 where
  server : text_eq c.server "" ≡ false
  port : (pos 1 ≤ℤ c.port) × (c.port ≤ℤ pos 65535)
  nick : text_eq c.nick "" ≡ false
  channel : starts_with c.channel "#" ≡ true
  database : text_eq c.database "" ≡ false
  rest : first_negative (knobs c) ≡ none

validate-none : (c : Settings) → validate c ≡ none → Passed c
unfolding validate
validate-none c h = ground arith

at_least_one_pos : (v f : ℤ) → pos 1 ≤ℤ f → pos 1 ≤ℤ at_least_one v f
unfolding at_least_one
at_least_one_pos v f h = ground arith

filled_names :
    (c : Settings)
    → text_eq c.nick "" ≡ false
    → (text_eq (filled c).user "" ≡ false) × (text_eq (filled c).name "" ≡ false)
unfolding filled
filled_names c h = ground arith

or_named :
    (s fallback : String)
    → text_eq fallback "" ≡ false
    → text_eq (if text_eq s "" then fallback else s) "" ≡ false
or_named s fallback h = ground (arith, h)

filled_services :
    (c : Settings)
    → (text_eq (filled c).nickserv.name "" ≡ false)
      × (text_eq (filled c).nickserv.identify_command "" ≡ false)
unfolding filled
filled_services c =
    (or_named c.nickserv.name "NickServ" refl, or_named c.nickserv.identify_command "IDENTIFY" refl)

filled-IsSettings : (c : Settings) → validate (filled c) ≡ none → IsSettings (filled c)
unfolding filled
filled-IsSettings c h =
    let p = validate-none (filled c) h in
    let names = filled_names c p.nick in
    let services = filled_services c in
    record {
      server = p.server;
      port = p.port;
      nick = p.nick;
      user = names.0;
      name = names.1;
      services = services.0;
      identify = services.1;
      channel = p.channel;
      database = p.database;
      signs = first_negative-none (knobs (filled c)) p.rest;
      tick = at_least_one_pos c.events.tick_seconds (pos 30) (omega arith);
      retention = at_least_one_pos c.guest_retention_days (pos 14) (omega arith);
      reconnect = at_least_one_pos c.reconnect_seconds (pos 10) (omega arith);
    }

checked-IsSettings :
    (c d : Settings) (o : Option Failure)
    → validate (filled d) ≡ o
    → checked (filled d) o ≡ Loaded.loaded c
    → IsSettings c
checked-IsSettings c d none v h =
    subst IsSettings (loaded_value (filled d) c h) (filled-IsSettings d v)
  where
    loaded_value : (a b : Settings) → Loaded.loaded a ≡ Loaded.loaded b → a ≡ b
    loaded_value a b e = cc
checked-IsSettings c d (some x) v h = absurd (cc)

-- Whatever the file, the YAML reader and the environment hold, a configuration that `Load` returns
-- without an error has a server, a nick, a user, a name, a name and a command for NickServ, a database, a
-- channel with its #, a port between 1 and 65535, none of the settings of `validate` negative, and a tick, a retention and a reconnect delay of 1 or more.
pub load-IsSettings :
    (read_file : String → Option String) (unmarshal : String → Settings → Option Settings)
    (env : Environment) (path : String) (c : Settings)
    → load read_file unmarshal env path ≡ Loaded.loaded c
    → IsSettings c
unfolding load
load-IsSettings read_file unmarshal env path c h =
    let (a, ha) = bind_loaded (from_file read_file unmarshal path) _ c h in
    let (d, hd) = bind_loaded (apply_env env a) _ c ha in
    checked-IsSettings c d (validate (filled d)) refl hd

minutes_least :
    (v f : ℤ) → v ≤ℤ pos 100_000 → pos 1 ≤ℤ f → f ≤ℤ pos 1000 → pos minute ≤ℤ duration_minutes v f
unfolding duration_minutes ◌⊗◌
minutes_least v f small one few = ground arith

max_int_pos : (v f : ℤ) → pos 1 ≤ℤ f → pos 1 ≤ℤ max_int v f
unfolding max_int
max_int_pos v f h = ground arith

hours_least :
    (v f : ℤ) → v ≤ℤ pos 100_000 → pos 1 ≤ℤ f → f ≤ℤ pos 1000 → pos hour ≤ℤ max_int v f ⊗ pos hour
unfolding max_int ◌⊗◌
hours_least v f small one few = ground arith

days_least :
    (v f : ℤ) → v ≤ℤ pos 100_000 → pos 1 ≤ℤ f → f ≤ℤ pos 1000 → pos (24 * hour) ≤ℤ duration_days v f
unfolding duration_days ◌⊗◌
days_least v f small one few = ground arith

-- Settings of at most 100 000, for which no interval wraps around an `int64`.
abbrev pub IsModest : Settings → Type 0
IsModest c =
    All (λ (v : ℤ). v ≤ℤ pos 100_000)
      (c.events.encounter_minutes ∷ c.events.city_event_minutes ∷ c.events.district_hours
        ∷ c.events.heat_decay_minutes ∷ c.events.contract_hours ∷ c.events.collision_minutes
        ∷ c.events.pirate_minutes ∷ c.guest_retention_days ∷ c.events.artifact_offline_days ∷ [])

-- The rules that settings of at most 100 000 make, negative and missing ones included: every interval
-- between events is at least its unit, so that none is 0 or negative, in particular not the one that
-- `advancePlayer` divides by, and a contract has room for a participant.
pub rules-intervals :
    (c : Settings)
    → IsModest c
    → (pos minute ≤ℤ (rules c).heat_decay_interval)
      × (pos minute ≤ℤ (rules c).encounter_interval)
      × (pos minute ≤ℤ (rules c).city_event_interval)
      × (pos minute ≤ℤ (rules c).collision_interval)
      × (pos minute ≤ℤ (rules c).pirate_duration)
      × (pos hour ≤ℤ (rules c).district_interval)
      × (pos hour ≤ℤ (rules c).contract_duration)
      × (pos (24 * hour) ≤ℤ (rules c).guest_retention)
      × (pos (24 * hour) ≤ℤ (rules c).artifact_offline_release)
      × (pos 1 ≤ℤ (rules c).contract_max_participants)
unfolding rules
rules-intervals c
      (
        encounter,
        (city, (district, (heat, (contract, (collision, (pirate, (guest, (artifact, _)))))))),
      ) =
    (
      minutes_least _ _ heat (omega arith) (omega arith),
      minutes_least _ _ encounter (omega arith) (omega arith),
      minutes_least _ _ city (omega arith) (omega arith),
      minutes_least _ _ collision (omega arith) (omega arith),
      minutes_least _ _ pirate (omega arith) (omega arith),
      hours_least _ _ district (omega arith) (omega arith),
      hours_least _ _ contract (omega arith) (omega arith),
      days_least _ _ guest (omega arith) (omega arith),
      days_least _ _ artifact (omega arith) (omega arith),
      max_int_pos c.events.contract_participants (pos 4) (omega arith),
    )
