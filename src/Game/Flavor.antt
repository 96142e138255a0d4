-- ===== src/Game/Flavor.antt =====
-- The announcements of internal/game/flavor.go: the pools of templates, how a template is filled, and
-- how durations are written (internal/game/game.go).
use Prim.Native.String.{len}
use text.Mathlib.Text.{starts_with, ◌==◌ as text_eq}
use neongrid.Base.{
  List, Option, String, [], get_or, if◌then◌else◌, length, ltb, none, some, suc, zero, ℕ, ◌%◌, ◌+◌,
  ◌-◌, ◌/◌, ◌==◌, ◌∷◌,
}
use neongrid.Base.Int.{ltb_ℤ, neg_part, pos, pos_part, quot, ℤ, ◌⊕◌, ◌⊖◌}
use neongrid.Base.Text.{show, ◌⧺◌}
use neongrid.Clock.{Duration, hour, minute, second}
use neongrid.Game.Data.{
  district_corporate_arcology, district_floodline, district_ghost_quarter, district_neon_market,
  district_old_transit,
}
use neongrid.Game.Engine.Action.{Action, intn, pure, ◌>>=◌}

abbrev pub ice_names : List String
ice_names =
    "KRAKEN v3" ∷ "Hellhound-9" ∷ "BLACK ORCHID" ∷ "Tessellate" ∷ "Wendigo" ∷ "Glasshouse"
    ∷ "Saint Elmo's Fire" ∷ "Mirrorworm" ∷ "Cold Iron" ∷ "LAZARUS" ∷ "Nightjar" ∷ "Tollkeeper" ∷ []

abbrev pub ice_win_templates : List String
ice_win_templates =
    "{runner} slipped past {ice} {place} and walked off with a data shard."
    ∷ "{runner} cracked {ice} wide open {place}. Shard secured."
    ∷ "{ice} never saw {runner} coming. Clean extraction {place}."
    ∷ "{runner} danced through {ice}'s kill-loop {place} and pocketed the payload."
    ∷ "{runner} fed {ice} a ghost signature {place} and lifted a shard while it chased it." ∷ []

abbrev pub ice_unique_templates : List String
ice_unique_templates =
    "{runner} gutted {ice} {place} and found UNIQUE {item} in the wreckage."
    ∷ "Behind {ice}, {runner} found something nobody was supposed to find: UNIQUE {item}."
    ∷ "{runner} broke {ice} {place}. The vault behind it held UNIQUE {item}." ∷ []

abbrev pub ice_loss_templates : List String
ice_loss_templates =
    "{ice} caught {runner} {place}. They burned time shaking the trace."
    ∷ "{runner} tripped {ice} and had to jack out hard {place}."
    ∷ "{ice} bit {runner} {place}. Lost time, lost nerve, kept the deck."
    ∷ "{runner} ran straight into {ice} {place} and barely got out."
    ∷ "{ice} backtraced {runner} {place}. They spent the next hour hiding." ∷ []

abbrev pub drift_templates : List String
drift_templates =
    "{runner} drifted from {from} to {to}."
    ∷ "{runner} caught a night bus out of {from}. Now running from {to}."
    ∷ "{runner} burned their {from} safehouse and set up in {to}."
    ∷ "{runner} followed a rumor from {from} into {to}." ∷ []

abbrev pub contract_corps : List String
contract_corps =
    "Helix Dynamics" ∷ "Kurosawa-Vance" ∷ "Obsidian Mutual" ∷ "Meridian Biolabs"
    ∷ "Saint Adler Securities" ∷ "NovaGrid Utilities" ∷ []

abbrev pub contract_jobs : List String
contract_jobs =
    "breach" ∷ "extraction" ∷ "data heist" ∷ "server-farm burn" ∷ "prototype snatch"
    ∷ "blackmail run" ∷ []

-- A district that has no places has the empty list.
unfoldable pub district_places : String → List String
district_places district =
    if text_eq district district_neon_market
    then "under the noodle-stall holo-signs" ∷ "behind a pachinko parlor"
      ∷ "in a rented kiosk full of burner decks" ∷ []
    else if text_eq district district_floodline
    then "in a half-drowned server basement" ∷ "on a rooftop above the tide"
      ∷ "inside a rusted pump station" ∷ []
    else if text_eq district district_corporate_arcology
    then "forty floors up a Helix tower" ∷ "in a borrowed executive washroom"
      ∷ "on a maintenance ledge outside the arcology" ∷ []
    else if text_eq district district_old_transit
    then "in a dead maglev car" ∷ "under the Old Transit switching yard"
      ∷ "on a platform nobody has used since the crash" ∷ []
    else if text_eq district district_ghost_quarter
    then "in a squat full of dead terminals" ∷ "between two burned-out tenements"
      ∷ "in a basement with no address" ∷ []
    else []

-- By the kind of the collision, 0 to 3.
unfoldable pub collision_templates : ℕ → List String
collision_templates zero =
    "{winner} cracked {loser}'s deck and siphoned {gain}."
    ∷ "{winner} found a backdoor in {loser}'s firmware and drained {gain}."
    ∷ "{winner} spoofed {loser}'s handshake and walked out with {gain}." ∷ []
collision_templates (suc zero) =
    "{winner} beat {loser} to a dead drop {place}."
    ∷ "{winner} and {loser} raced for the same dead drop. {winner} got there first."
    ∷ "{loser} arrived at the dead drop {place} to find {winner}'s calling card." ∷ []
collision_templates (suc (suc zero)) =
    "{winner} hunted {loser} through the {district}." ∷ "{winner} ran {loser} to ground {place}."
    ∷ "{loser} spent an hour running from {winner} through the {district}. It didn't work." ∷ []
collision_templates n =
    "{winner} jammed {loser}'s drone feed and took the shard."
    ∷ "{winner} hijacked {loser}'s drone mid-flight and flew it into a wall."
    ∷ "{loser}'s drone went dark. {winner} was waiting on the other end of the jam." ∷ []

pub data CityEventKind : Type 0 where
  blackout corporate_sweep data_leak gang_war bounty megacorp_run : CityEventKind

unfoldable pub city_event_texts : CityEventKind → List String
city_event_texts CityEventKind.blackout =
    "BLACKOUT rolls across the lower stacks."
    ∷ "BLACKOUT: a substation blew and half the city went dark."
    ∷ "BLACKOUT: the grid browns out, and every deck on backup power stutters." ∷ []
city_event_texts CityEventKind.corporate_sweep =
    "CORPORATE SWEEP detected. Keep your signatures cold."
    ∷ "CORPORATE SWEEP: security drones are pinging every open port in the city."
    ∷ "CORPORATE SWEEP: a megacorp audit team is walking the Grid with a warrant." ∷ []
city_event_texts CityEventKind.data_leak =
    "DATA LEAK: fresh intel is spilling onto the Grid."
    ∷ "DATA LEAK: a disgruntled sysadmin just dumped a corp archive into the open."
    ∷ "DATA LEAK: somebody's backup server is serving files to anyone who asks." ∷ []
city_event_texts CityEventKind.gang_war =
    "GANG WAR erupts beneath the maglev lines."
    ∷ "GANG WAR: two crews are fighting over the same three blocks."
    ∷ "GANG WAR: the streets are loud tonight and nobody's deck is safe." ∷ []
city_event_texts CityEventKind.bounty =
    "BOUNTY contract posted; every faction is watching."
    ∷ "BOUNTY: a fixer is paying double for anything off a Meridian server."
    ∷ "BOUNTY: someone put a price on a corp exec's calendar. Everyone wants it." ∷ []
city_event_texts CityEventKind.megacorp_run =
    "MEGACORP RUN authorized. The payout is probably a trap."
    ∷ "MEGACORP RUN: a corp is hiring deniable talent again." ∷ []

-- The name and the value of a placeholder.
abbrev pub Pair : Type 0
Pair = String × String

-- The first placeholder that the text begins with.
unfoldable pub match_at : List Pair → String → Option Pair
match_at [] text = none
match_at ((name, value) ∷ pairs) text =
    let rest = match_at pairs text in
    if starts_with text ("{" ⧺ name ⧺ "}") then some ("{" ⧺ name ⧺ "}", value) else rest

-- `strings.NewReplacer` reads the text once from the left; `skip` characters belong to a placeholder
-- that has been filled already.
unfoldable pub replace_from : List Pair → ℕ → String → String
unfolding match_at
replace_from pairs skip String.[] = ""
replace_from pairs (suc skip) (String.◌∷◌ c s) = replace_from pairs skip s
replace_from pairs zero (String.◌∷◌ c s) = elim (match_at pairs (String.◌∷◌ c s)) [
  | none ↦ String.◌∷◌ c (replace_from pairs zero s)
  | some (key, value) ↦ value ⧺ replace_from pairs (len key - 1) s
]

unfoldable pub render : String → List Pair → String
unfolding replace_from
render template pairs = replace_from pairs 0 template

-- `d.Round(time.Second)`, as whole seconds: half a second rounds away from zero.
unfoldable pub rounded : Duration → ℤ
rounded d =
    if ltb_ℤ d (pos 0)
    then quot (d ⊖ pos (second / 2)) second
    else quot (d ⊕ pos (second / 2)) second

-- `Duration.String` of whole seconds, at least 0.
abbrev pub clock_text : ℕ → String
clock_text s =
    if ltb s 60
    then show (pos s) ⧺ "s"
    else if ltb s 3600
    then show (pos (s / 60)) ⧺ "m" ⧺ show (pos (s % 60)) ⧺ "s"
    else show (pos (s / 3600)) ⧺ "h" ⧺ show (pos (s / 60 % 60)) ⧺ "m" ⧺ show (pos (s % 60)) ⧺ "s"

unfoldable pub format_duration : Duration → String
unfolding rounded
format_duration d =
    if (pos_part d + neg_part d) % hour == 0
    then show (quot d hour) ⧺ "h"
    else if (pos_part d + neg_part d) % minute == 0
    then show (quot d minute) ⧺ "m"
    else if ltb_ℤ (rounded d) (pos 0)
    then "-" ⧺ clock_text (neg_part (rounded d))
    else clock_text (pos_part (rounded d))

module _ {R : Type 0} where
  unfoldable pub pick : List String → Action R String
  pick pool = do i ← intn (length pool); pure (get_or pool i "")

  unfoldable pub place_in : String → Action R String
  unfolding district_places
  place_in district =
      let places = district_places district in
      if ltb 0 (length places) then pick places else pure ("somewhere in " ⧺ district)
