-- ===== src/Examples/Worlds.antt =====
-- The theorems on the world's events, at small worlds.
use Prim.Native.String.{len}
use neongrid.Base.{
  All, List, Option, String, [], arith, false, none, refl, some, true, ◌↔◌, ◌∷◌, ◌≡◌, ◌⊎◌,
}
use neongrid.Base.Int.{ltb_ℤ, pos, pos_part, ℤ}
use neongrid.Base.Map.{IsMap, Map, get}
use neongrid.Base.Text.{equal_fold, to_lower, trim_space}
use neongrid.Clock.{Time, before, is_zero}
use neongrid.Examples.{Store, at, empty_world, fresh, job, memory, neo, online, standard}
use neongrid.Game.Contract.{is_in}
use neongrid.Game.Data.{Activity, Player}
use neongrid.Game.Engine.Action.{Engine, call, gets, modify, pure, save_world, ◌>>=◌}
use neongrid.Game.Engine.Guards.{OnOk}
use neongrid.Game.Engine.Users.{Entry, find_by_identity, find_connected, find_locked, take_pending}
use neongrid.Game.Join.{new_player}
use neongrid.Game.Leave.{disconnect}
use neongrid.Game.Progress.{advance_player}
use neongrid.Game.Rating.{display_name}
use neongrid.Game.Repository.{Error, Repository, err, ok}
use neongrid.Game.Requests.{Request, history}
use neongrid.Game.Safe.{Inv}
use neongrid.Game.Start.Boot.{new}
use neongrid.Game.Start.Ready.{IsReady, new-IsReady}
use neongrid.Game.World.{faction_swap_tick, remember}
use neongrid.Game.World.Bulletin.{bulletin_tick, leader}
use neongrid.Game.World.Bulletin.Best.{AllBelow, Leads, leader_best}
use neongrid.Game.World.City.{city_event_progress_change, city_events}
use neongrid.Game.World.City.Sign.{city_events_sign}
use neongrid.Game.World.Collision.{collision, due_runners, pick_opponent}
use neongrid.Game.World.Collision.Pairing.{Paired, pick_opponent_pairs}
use neongrid.Game.World.Contracts.{outcome_message, resolve_contract, start_contract}
use neongrid.Game.World.Contracts.Outcome.{dropped_contract_fails}
use neongrid.Game.World.Contracts.Roster.{IsTeam}
use neongrid.Game.World.Contracts.Team.{Standing, start_contract-IsTeam}
use neongrid.Game.World.DeadDrop.{claim_dead_drop, dead_drop_expiry, is_clean_code, write_code}
use neongrid.Game.World.DeadDrop.Claim.{claim_dead_drop_once}
use neongrid.Game.World.DeadDrop.Noise.{strip_noise, write_code_strips}
use neongrid.Game.World.Raid.{resolve_raid}
use neongrid.Game.World.Raid.Ends.{NoneDue, resolve_raid_settles}
use neongrid.Game.World.Steps.{edit_world}
use neongrid.Game.World.Streak.{streak_tick}
use neongrid.Game.World.Streak.Once.{streak_tick_once}
use neongrid.Game.World.Tick.{city_tick, tick, tick_each, turn}
use neongrid.Game.World.Tick.Delivery.{StandIn, tick_delivers}
use neongrid.Game.World.Week.{champion_of, faction_order, faction_week_tick}
use neongrid.Game.World.Week.Champion.{IsBest, champion_of-IsBest}

champion_of-IsBest_example :
    All
      (λ f.
        (champion_of (("nomad", pos 4) ∷ ("chrome", pos 2) ∷ []) ≡ f)
        ↔ IsBest (("nomad", pos 4) ∷ ("chrome", pos 2) ∷ []) f)
      faction_order
champion_of-IsBest_example = champion_of-IsBest (("nomad", pos 4) ∷ ("chrome", pos 2) ∷ [])

city_events_sign_example :
    All
      (λ event.
        ltb_ℤ (city_event_progress_change event neo) (pos 0) ≡ ltb_ℤ event.progress_change (pos 0))
      city_events
city_events_sign_example = city_events_sign neo

write_code_strips_example :
    (r : String × String) × ((write_code 5 fresh).0 ≡ ok r)
    × (len r.0 ≡ 5)
    × (strip_noise r.1 ≡ r.0)
write_code_strips_example = write_code_strips 5 fresh

-- A drop is open, and Neo is there.
abbrev drop_open : Engine Store
drop_open = record online {
  world = record online.world { dead_drop = "ACDEF"; pirate_until = at 2000 };
}

neo_there : find_locked "" "neo" drop_open.users ≡ some ("guest:neo", neo)
unfolding find_locked find_by_identity find_connected new_player equal_fold to_lower
neo_there = refl

drop_clean :
    (equal_fold "#neongrid" "#neongrid" ≡ true)
    × (is_clean_code (at 1060) drop_open.world " acdef " ≡ true)
unfolding equal_fold to_lower before trim_space
drop_clean = (refl, refl)

-- What others do before the second claim.
abbrev meanwhile : List (Time × Request)
meanwhile = (at 1060, Request.join "case" "") ∷ (at 1061, Request.status "" "trin") ∷ []

claim_dead_drop_once_example :
    let e = (claim_dead_drop "" "neo" "#neongrid" " acdef " (at 1060) drop_open).1 in
    let e' = history meanwhile e in
    claim_dead_drop "" "trin" "#neongrid" "ACDEF" (at 1062) e' ≡ (ok "", e')
claim_dead_drop_once_example =
    claim_dead_drop_once "" "neo" "#neongrid" " acdef " (at 1060) drop_open ("guest:neo", neo)
      meanwhile "" "trin" "#neongrid" "ACDEF" (at 1062) drop_clean.0 drop_clean.1 neo_there refl
      (refl, (refl, tt))

online-IsMap : IsMap online.users
unfolding get
online-IsMap = (refl, (refl, tt))

pick_opponent_pairs_example :
    (o : Option Entry) × ((pick_opponent ("guest:neo", neo) online.users online).0 ≡ ok o)
    × Paired ("guest:neo", neo) online.users o
pick_opponent_pairs_example =
    pick_opponent_pairs ("guest:neo", neo) online.users online online-IsMap

abbrev climbs : Map ℤ
climbs = ("guest:trin", pos 2) ∷ ("guest:gone", pos 9) ∷ ("guest:neo", pos 5) ∷ []

climbs-IsMap : IsMap climbs
unfolding get
climbs-IsMap = (refl, (refl, (refl, tt)))

leader_best_example :
    AllBelow online.users (leader online.users climbs).1 climbs
    × Leads online.users climbs (leader online.users climbs)
leader_best_example = leader_best online.users climbs climbs-IsMap

abbrev raided : Engine Store
raided = record online {
  world = record online.world {
    raid = some (record { ice = "Wendigo"; district = "Floodline"; resolves_at = at 1000 });
  };
}

resolve_raid_settles_example : NoneDue (resolve_raid (at 1060) raided).1.world.raid (at 1060)
resolve_raid_settles_example = resolve_raid_settles (at 1060) raided

streak_tick_once_example :
    (r : String × Player) × ((streak_tick (at 200_000) "guest:neo" neo online).0 ≡ ok r)
    × (streak_tick (at 200_000) "guest:neo" r.1 fresh ≡ (ok ("", r.1), fresh))
unfolding is_zero new_player
streak_tick_once_example =
    streak_tick_once (at 200_000) "guest:neo" neo online fresh refl (omega arith)

-- Before any contract runs.
abbrev idle : Engine Store
idle = record online { world = empty_world }

idle-Inv : Inv idle
unfolding new_player
idle-Inv = record {
  is_map = online-IsMap;
  runners = (
    record { keyed = refl; heated = (omega arith, omega arith) },
    (record { keyed = refl; heated = (omega arith, omega arith) }, tt),
  );
  few_pending = omega arith;
}

start_contract-IsTeam_example :
    Standing
      (IsTeam idle.users (pos_part idle.rules.contract_max_participants))
      (start_contract (at 1060) idle).1
unfolding get
start_contract-IsTeam_example =
    start_contract-IsTeam (at 1060) idle "guest:neo" neo idle-Inv refl refl refl

neo_known : find_locked "" "neo" online.users ≡ some ("guest:neo", neo)
unfolding find_locked find_by_identity find_connected new_player equal_fold to_lower
neo_known = refl

neo_takes_part : (neo.identity ≡ "guest:neo") × (is_in neo.identity job.participants ≡ true)
unfolding new_player
neo_takes_part = (refl, refl)

dropped_contract_fails_example :
    let dropper = display_name (advance_player neo (at 1060) standard).0 in
    let (r, e'') = resolve_contract (at 1061) (disconnect "neo" Activity.quit (at 1060) online).1 in
    ((r ≡ ok (outcome_message (record job { failed = true; dropped_by = dropper }) false))
      × (e''.world.contract ≡ none))
    ⊎ ((x : Error) × (r ≡ err x))
dropped_contract_fails_example =
    dropped_contract_fails "neo" Activity.quit (at 1060) (at 1061) online "guest:neo" neo job
      neo_known refl neo_takes_part.0 refl refl refl neo_takes_part.1

abbrev waiting : Engine Store
waiting = record fresh { pending = "[GRID] neo reached Rep 2." ∷ [] }

ticked : (tick (at 1060) waiting).0 ≡ ok ("[GRID] neo reached Rep 2." ∷ [])
unfolding tick turn faction_swap_tick resolve_contract resolve_raid dead_drop_expiry
    faction_week_tick bulletin_tick city_tick tick_each collision take_pending remember gets pure
    ◌>>=◌ is_zero before edit_world modify save_world call due_runners
ticked = refl

tick_delivers_example :
    StandIn waiting.pending ("[GRID] neo reached Rep 2." ∷ [])
    × ((tick (at 1060) waiting).1.pending ≡ [])
tick_delivers_example = tick_delivers (at 1060) waiting _ ticked

-- A store that holds a runner and a world.
abbrev kept_world : Repository Store
kept_world = record memory {
  load_all = λ s. (ok (record neo { heat = pos 900; level = pos 0; district = "" } ∷ []), s);
  load_world_state = λ s. (ok empty_world, s);
}

new-IsReady_example : OnOk IsReady (new ⦃repo = kept_world⦄ standard (λ i. i) (at 1060) [])
new-IsReady_example = new-IsReady ⦃repo = kept_world⦄ standard (λ i. i) (at 1060) []
