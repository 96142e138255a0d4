-- ===== src/Examples/Limits.antt =====
-- The cooldown table and the configuration on concrete input.
use text.Mathlib.Text.{◌==◌ as text_eq}
use neongrid.Base.{
  All, List, Option, String, [], arith, false, if◌then◌else◌, none, not, refl, some, true, ◌&&◌,
  ◌*◌, ◌||◌, ◌∷◌, ◌≡◌, ◌⊎◌,
}
use neongrid.Base.Int.{pos, ◌<ℤ◌, ◌≤ℤ◌}
use neongrid.Base.Map.{Map, get}
use neongrid.Base.Text.{trim_space}
use neongrid.Clock.{Duration, hour, minute, since}
use neongrid.Config.{Loaded, Settings, defaults, ◌>>=◌}
use neongrid.Config.Bounds.{IsModest, IsSettings, load-IsSettings, rules-intervals}
use neongrid.Config.Env.{
  Environment, admin_env, apply_env, apply_text, bool_env, events_env, int_env, penalty_env, str,
}
use neongrid.Config.Load.{at_least_one, filled, from_file, load, validate}
use neongrid.Config.Parse.{atoi, numeral, split_commas}
use neongrid.Config.Rules.{rules}
use neongrid.Examples.{at, neo, runner}
use neongrid.Game.Data.{Player}
use neongrid.Irc.Limiter.{allow_all, any_cooling, command_cooldown, is_cooling, target_cooldown}
use neongrid.Irc.Limiter.Spacing.{Ask, allow_all_spaces, allow_all_whole, asked}
use neongrid.Storage.{is_among, is_further, merge}
use neongrid.Storage.Merge.{merge-titles, merge_ranks}

abbrev user_keys : Map Duration
user_keys = ("user neo", command_cooldown) ∷ ("target #neongrid", target_cooldown) ∷ []

abbrev between_asks : List Ask
between_asks = (at 101, user_keys) ∷ (at 101, ("user trin", command_cooldown) ∷ []) ∷ []

granted : (allow_all (at 100) user_keys []).0 ≡ true
unfolding allow_all any_cooling is_cooling get
granted = refl

has_user : get "user neo" user_keys ≡ some command_cooldown
unfolding get
has_user = refl

soon : since (at 102) (at 100) <ℤ command_cooldown
unfolding since
soon = omega arith

within : All (λ (a : Ask). (at 100 ≤ℤ a.0) × (a.0 ≤ℤ at 102)) between_asks
within = ((omega arith, omega arith), ((omega arith, omega arith), tt))

allow_all_spaces_example :
    (allow_all (at 102) user_keys (asked between_asks (allow_all (at 100) user_keys []).1)).0
    ≡ false
allow_all_spaces_example =
    allow_all_spaces "user neo" (at 100) (at 102) command_cooldown command_cooldown user_keys
      user_keys between_asks [] granted has_user has_user (omega arith) soon (omega arith) within

allow_all_whole_example :
    (allow_all (at 100) user_keys [] ≡ (false, []))
    ⊎ (((allow_all (at 100) user_keys []).0 ≡ true)
        × (get "user neo" (allow_all (at 100) user_keys []).1 ≡ some (at 100)))
allow_all_whole_example = allow_all_whole (at 100) user_keys [] "user neo" command_cooldown has_user

-- No file is readable, and the environment sets a port and two administrators.
no_file : String → Option String
no_file path = none

no_yaml : String → Settings → Option Settings
no_yaml text c = none

environment : Environment
environment name =
    if text_eq name "NEONGRID_PORT"
    then some "6667"
    else if text_eq name "NEONGRID_ADMIN_ACCOUNTS"
    then some "neo, ,trin"
    else none

abbrev started : Settings
started = record defaults {
  port = pos 6667;
  user = "neongrid";
  name = "neongrid";
  admin_accounts = "neo" ∷ "trin" ∷ [];
}

loads : load no_file no_yaml environment "" ≡ Loaded.loaded started
unfolding load from_file apply_env apply_text bool_env int_env penalty_env events_env admin_env str
    filled validate no_file environment atoi numeral split_commas trim_space at_least_one ◌>>=◌
loads = refl

load-IsSettings_example : IsSettings started
load-IsSettings_example = load-IsSettings no_file no_yaml environment "" started loads

modest : IsModest started
modest = (
  omega arith,
  (
    omega arith,
    (
      omega arith,
      (omega arith, (omega arith, (omega arith, (omega arith, (omega arith, (omega arith, tt)))))),
    ),
  ),
)

rules-intervals_example :
    (pos minute ≤ℤ (rules started).heat_decay_interval)
    × (pos minute ≤ℤ (rules started).encounter_interval)
    × (pos minute ≤ℤ (rules started).city_event_interval)
    × (pos minute ≤ℤ (rules started).collision_interval)
    × (pos minute ≤ℤ (rules started).pirate_duration)
    × (pos hour ≤ℤ (rules started).district_interval)
    × (pos hour ≤ℤ (rules started).contract_duration)
    × (pos (24 * hour) ≤ℤ (rules started).guest_retention)
    × (pos (24 * hour) ≤ℤ (rules started).artifact_offline_release)
    × (pos 1 ≤ℤ (rules started).contract_max_participants)
rules-intervals_example = rules-intervals started modest

merge_ranks_example :
    (is_further neo (merge neo (runner "acct:neo" "neo")) ≡ false)
    × (is_further (runner "acct:neo" "neo") (merge neo (runner "acct:neo" "neo")) ≡ false)
merge_ranks_example = merge_ranks neo (runner "acct:neo" "neo")

abbrev titled : Player
titled = record neo { titles = "Ghost" ∷ [] }

merge-titles_example : is_among "Ghost" (merge titled neo).titles ≡ true
merge-titles_example = merge-titles titled neo "Ghost" ghost
  where
    ghost :
        (is_among "Ghost" neo.titles
          || (is_among "Ghost" titled.titles && not (text_eq "Ghost" "")))
        ≡ true
    ghost = ground arith
