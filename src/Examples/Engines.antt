-- ===== src/Examples/Engines.antt =====
-- The engine's theorems on engines of a runner or two.
use mathlib.Core.Path.{subst}
use neongrid.Base.{
  List, [], arith, false, if◌then◌else◌, none, refl, some, sym, true, ◌*◌, ◌∷◌, ◌≡◌,
}
use neongrid.Base.Int.{IsInt64, divide, pos, quot, ℤ, ◌⊕◌, ◌⊖◌, ◌⊗◌}
use neongrid.Base.Map.{get, put}
use neongrid.Base.Text.{equal_fold, to_lower, trim_space}
use neongrid.Clock.{Time, add, after, before, is_zero, second, seconds, since, zero_time}
use neongrid.Examples.{Store, at, empty_world, fresh, job, memory, neo, online, standard}
use neongrid.Game.Contract.{is_in}
use neongrid.Game.Data.{Activity, Player}
use neongrid.Game.Engine.Action.{Engine, call, save, ◌>>=◌}
use neongrid.Game.Engine.Users.{
  advance_locked, commit, find_by_identity, find_connected, find_locked, note_climbs, or_not_found,
  put_user, queue_locked, require,
}
use neongrid.Game.Join.{new_player}
use neongrid.Game.Leave.{disconnect}
use neongrid.Game.Leave.Effects.{disconnect_drops, disconnect_spares, unlinked}
use neongrid.Game.Profile.{
  activity, faction_refusal, faction_swap_open, raise_some, set_faction, status,
}
use neongrid.Game.Profile.Choices.{set_faction_once}
use neongrid.Game.Profile.Effects.{Commits, activity_charges}
use neongrid.Game.Progress.{accrue_progress, advance_player, climb, climb_all, decay_heat, see}
use neongrid.Game.Rating.{display_name, level_duration, penalty_seconds, valid_faction}
use neongrid.Game.Rating.Bounds.{IsHeat}
use neongrid.Game.Repository.{Error, err}
use neongrid.Game.Requests.{Request, history, history-Inv, ignore, perform}
use neongrid.Game.Safe.{Inv}
use neongrid.Game.Safe.Join.{Trusted}
use neongrid.Game.Titles.{
  add_title, award, award_one, has_title, title_rules, top_rival, update_titles,
}
use neongrid.Game.World.{faction_swap_duration, faction_swap_tick}
use neongrid.Game.World.Windows.{faction_swap_tick_opens}

trusted : Trusted memory
unfolding new_player
trusted = record {
  migrates =
      λ guest key account nick s. record { keyed = refl; heated = (omega arith, omega arith) };
}

abbrev requests : List (Time × Request)
requests =
    (at 1000, Request.join "neo" "")
    ∷ (at 1100, Request.activity "" "neo" "#neongrid" Activity.chat (pos 12))
    ∷ (at 1200, Request.rename "neo" "morph")
    ∷ (at 1250, Request.tick)
    ∷ (at 1300, Request.bind "morph" "Anderson")
    ∷ (at 1400, Request.disconnect "morph" Activity.quit)
    ∷ []

fresh-Inv : Inv fresh
fresh-Inv = record { is_map = tt; runners = tt; few_pending = omega arith }

history-Inv_example : Inv (history requests fresh)
history-Inv_example = history-Inv trusted requests fresh fresh-Inv

neo_found : find_locked "" "neo" online.users ≡ some ("guest:neo", neo)
unfolding find_locked find_by_identity find_connected new_player equal_fold to_lower
neo_found = refl

in_channel : equal_fold "#NeonGrid" "#neongrid" ≡ true
unfolding equal_fold to_lower
in_channel = refl

activity_charges_example :
    let q = (advance_player neo (at 1060) standard).0 in
    let safe = before (at 1060) zero_time in
    let penalty : ℤ =
      if safe then pos 0 else penalty_seconds q.level Activity.chat (pos 12) standard in
    let progress : ℤ = if safe then q.progress_seconds else q.progress_seconds ⊖ penalty in
    Commits
      (activity "" "neo" "#NeonGrid" Activity.chat (pos 12) (at 1060))
      online
      "guest:neo"
      (record q { last_seen_at = at 1060; progress_seconds = progress })
      (penalty, safe)
activity_charges_example =
    activity_charges "" "neo" "#NeonGrid" Activity.chat (pos 12) (at 1060) online "guest:neo" neo
      neo_found in_channel

neo_job : is_in neo.identity job.participants ≡ true
unfolding new_player
neo_job = refl

neo_keyed : neo.identity ≡ "guest:neo"
unfolding new_player
neo_keyed = refl

disconnect_drops_example :
    (disconnect "neo" Activity.quit (at 1060) online).1.world.contract
    ≡ some (record job {
      failed = true;
      dropped_by = display_name (advance_player neo (at 1060) standard).0;
    })
disconnect_drops_example =
    disconnect_drops "neo" Activity.quit (at 1060) online "guest:neo" neo job neo_found refl
      neo_keyed refl refl refl neo_job

-- Neo again, with no progress yet.
abbrev idle : Player
idle = record neo { progress_seconds = pos 0 }

abbrev quiet : Engine Store
quiet = record fresh { users = ("guest:neo", idle) ∷ [] }

idle_later :
    ((advance_player idle (at 1000) standard).0.progress_seconds ≡ pos 0)
    × ((advance_player idle (at 1000) standard).0.heat ≡ pos 7)
unfolding advance_player update_titles award title_rules award_one get climb_all climb
    level_duration ◌⊕◌ ◌⊗◌ ◌⊖◌ decay_heat divide since is_zero accrue_progress seconds quot add
    after see has_title top_rival new_player add_title
idle_later = (refl, refl)

idle_found : find_locked "" "neo" quiet.users ≡ some ("guest:neo", idle)
unfolding find_locked find_by_identity find_connected new_player equal_fold to_lower
idle_found = refl

disconnect_spares_example :
    Commits
      (disconnect "neo" Activity.netsplit (at 1000))
      quiet
      "guest:neo"
      (unlinked (at 1000) (advance_player idle (at 1000) standard).0)
      (pos 0)
disconnect_spares_example =
    disconnect_spares "neo" (at 1000) quiet "guest:neo" idle idle_found refl
      (subst IsInt64 (sym idle_later.0) (omega arith, omega arith))
      (subst IsHeat (sym idle_later.1) (omega arith, omega arith))

neo_free : faction_refusal online.world (at 1060) neo (to_lower (trim_space "Chrome")) ≡ none
unfolding faction_refusal new_player to_lower trim_space
neo_free = refl

set_faction_open :
    (valid_faction (to_lower (trim_space "Chrome")) ≡ true)
    × (faction_swap_open online.world (at 1060) ≡ true)
    × (before (at 1060) online.world.faction_swap_started_at ≡ false)
unfolding valid_faction to_lower trim_space faction_swap_open is_zero before
set_faction_open = (refl, refl, refl)

online-Inv : Inv online
unfolding get new_player
online-Inv = record {
  is_map = (refl, (refl, tt));
  runners = (
    record { keyed = refl; heated = (omega arith, omega arith) },
    (record { keyed = refl; heated = (omega arith, omega arith) }, tt),
  );
  few_pending = omega arith;
}

-- A guest chooses, asks for its status, and chooses again.
abbrev asked : List (Time × Request)
asked = (at 1070, Request.status "" "neo") ∷ []

abbrev chrome : Engine Store
chrome = history asked (set_faction "" "neo" "Chrome" (at 1060) online).1

neo_again : (p : Player) × (find_locked "" "neo" chrome.users ≡ some ("guest:neo", p))
unfolding find_locked find_by_identity find_connected new_player equal_fold to_lower history perform
    set_faction ignore ◌>>=◌ status require or_not_found valid_faction trim_space raise_some
    faction_refusal faction_swap_open advance_locked put_user queue_locked note_climbs ◌⊖◌ ◌⊕◌
    advance_player see accrue_progress decay_heat climb climb_all level_duration update_titles award
    award_one title_rules has_title add_title top_rival is_zero before since add divide quot commit
    save call get put display_name ◌⊗◌ seconds after
neo_again = (_, refl)

set_faction_once_example :
    (x : Error) × (set_faction "" "neo" "nomad" (at 2000) chrome ≡ (err x, chrome))
set_faction_once_example =
    set_faction_once "" "neo" "Chrome" (at 1060) online "guest:neo" neo asked "" "neo" "nomad"
      (at 2000) neo_again.0 online-Inv neo_found set_faction_open.0 neo_free set_faction_open.1
      set_faction_open.2 (refl, tt) neo_again.1

-- The weekly crash is due.
abbrev due : Engine Store
due = record fresh { world = record empty_world { next_faction_swap_at = pos (1000 * second) } }

due_now :
    (is_zero due.world.faction_swap_until ≡ true)
    × (is_zero due.world.next_faction_swap_at ≡ false)
    × (before (at 1060) due.world.next_faction_swap_at ≡ false)
unfolding is_zero before
due_now = (refl, refl, refl)

faction_swap_tick_opens_example :
    faction_swap_open (faction_swap_tick (at 1060) due).1.world (at 5000)
    ≡ before (at 5000) (add (at 1060) faction_swap_duration)
faction_swap_tick_opens_example =
    faction_swap_tick_opens (at 1060) (at 5000) due (omega arith) due_now.0 due_now.1 due_now.2
