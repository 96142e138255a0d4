-- ===== src/Game/Join.antt =====
-- Runners that come: `Join` and `Bind` of internal/game/game.go, the migration of a guest, and timers.
use text.Mathlib.Text.{◌==◌ as text_eq}
use neongrid.Base.{Bool, Option, String, [], false, if◌then◌else◌, none, some, true, ◌||◌}
use neongrid.Base.Int.{ltb_ℤ, pos, pos_part, quot, ◌⊕◌, ◌⊗◌}
use neongrid.Base.Map.{get}
use neongrid.Base.Text.{trim_space}
use neongrid.Clock.{Duration, Time, add, after, hour, is_zero, since, zero_time}
use neongrid.Game.Contract.{mark_contract_failed, rekey_contract_participant}
use neongrid.Game.Data.{Player, district_neon_market}
use neongrid.Game.Engine.Action.{
  Action, call, gets, intn, pure, raise_if, save, save_world_if, ◌>>=◌, ◌>>◌,
}
use neongrid.Game.Engine.Users.{
  Entry, account_key, advance_locked, commit, delete_user, find_connected, guest_key,
  migratable_guest, put_user,
}
use neongrid.Game.Repository.{Error, Repository}

unfoldable pub new_player : String → String → String → Time → Player
new_player identity nick account now = record {
  identity = identity;
  account = account;
  nick = nick;
  alias = "";
  guest = text_eq account "";
  level = pos 1;
  progress_seconds = pos 0;
  last_progress_at = now;
  connected = false;
  last_seen_at = now;
  next_encounter_at = now;
  next_collision_at = zero_time;
  district = district_neon_market;
  next_district_at = zero_time;
  heat = pos 0;
  last_heat_at = now;
  faction = "";
  last_faction_swap_at = zero_time;
  equipment = [];
  scars = [];
  titles = [];
  chosen_title = "";
  stats = record {
    ice_wins = pos 0;
    collision_wins = pos 0;
    contracts = pos 0;
    uniques = pos 0;
    thefts = pos 0;
    dead_drops = pos 0;
    raid_wins = pos 0;
    longest_streak = pos 0;
  };
  stance = "";
  rivals = [];
  streak_since = now;
  streak_days = pos 0;
}

-- What `joinLocked` sets on every runner that joins.
unfoldable pub linked : String → String → Time → Player → Player
linked nick account now p = record p {
  nick = nick;
  account = account;
  guest = text_eq account "";
  connected = true;
  last_seen_at = now;
  last_progress_at = now;
  last_heat_at = now;
}

-- A rejoin more than an hour after the runner was last seen begins a new streak.
unfoldable pub resume_streak : Time → Player → Player
resume_streak now p =
    if is_zero p.streak_since || ltb_ℤ (pos hour) (since now p.last_seen_at)
    then record p { streak_since = now; streak_days = pos 0 }
    else p

module _ {R : Type 0} where
  -- The closure of `staggerTimersLocked`: a timer that came due moves to between a quarter of its
  -- interval and the whole of it from now. `Int63n` is the next random number below its argument.
  unfoldable pub stagger : Time → Time → Duration → Action R Time
  stagger now at interval = if is_zero at || after at now then pure at else do
    r ← intn (pos_part (quot (interval ⊗ pos 3) 4 ⊕ pos 1))
    pure (add now (quot interval 4 ⊕ pos r))

  unfoldable pub stagger_timers : Player → Time → Action R Player
  stagger_timers p now = do
    rules ← gets (λ e. e.rules)
    encounter ← stagger now p.next_encounter_at rules.encounter_interval
    district ← stagger now p.next_district_at rules.district_interval
    collision ← stagger now p.next_collision_at rules.collision_interval
    pure (record p {
      next_encounter_at = encounter;
      next_district_at = district;
      next_collision_at = collision;
    })

  -- The runner that joins: a new one, one that is linked already, or one that comes back.
  unfoldable pub arrive : Option Player → String → String → String → Time → Action R Player
  arrive none identity nick account now = do
    rules ← gets (λ e. e.rules)
    pure (record (new_player identity nick account now) {
      next_encounter_at = add now rules.encounter_interval;
      next_district_at = add now rules.district_interval;
      next_collision_at = add now rules.collision_interval;
    })
  arrive (some p) identity nick account now =
      if p.connected
      then advance_locked identity p now
      else do q ← stagger_timers p now; pure (resume_streak now q)

module _ {R : Type 0} ⦃repo : Repository R⦄ where
  -- A guest's runner moves under the account: what stands there then, and whether a contract names it.
  unfoldable pub migrate :
      Option Entry → String → String → String → Time → Action R (Option Player × Bool)
  migrate none identity nick account now = do
    users ← gets (λ e. e.users)
    pure (get identity users, false)
  migrate (some (guest_key, guest)) identity nick account now = do
    advanced ← advance_locked guest_key guest now
    save advanced
    migrated ← call (repo.migrate_guest advanced.identity identity account nick)
    delete_user advanced.identity
    put_user identity migrated
    changed ← rekey_contract_participant guest.identity identity
    pure (some migrated, changed)

  unfoldable pub join_locked : String → String → Time → Action R Player
  join_locked nick account now = do
    let guest = text_eq account ""
    let identity : String = if guest then guest_key nick else account_key account
    users ← gets (λ e. e.users)
    (found, changed) ←
        migrate (if guest then none else migratable_guest nick account users) identity nick account
          now
    p ← arrive found identity nick account now
    let q = linked nick account now p
    commit identity q
    save_world_if changed
    pure q

  -- The runner of another account under the nick goes offline.
  unfoldable pub leave_account : Option Entry → String → Time → Action R Bool
  leave_account none identity now = pure false
  leave_account (some (key, p)) identity now =
      if p.guest || text_eq p.identity identity then pure false else do
        q ← advance_locked key p now
        let q' : Player = record q { connected = false; last_seen_at = now }
        put_user key q'
        changed ← mark_contract_failed q'.identity
        save q'
        pure changed

  unfoldable pub bind : String → String → Time → Action R Player
  bind nick account now = do
    raise_if (text_eq (trim_space account) "") Error.account_required
    users ← gets (λ e. e.users)
    changed ← leave_account (find_connected nick users) (account_key account) now
    p ← join_locked nick account now
    save_world_if changed
    pure p
