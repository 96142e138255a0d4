-- ===== src/Game/Leave.antt =====
-- Runners that go: `Disconnect`, `DisconnectAll` and `Reconcile` of internal/game/game.go.
pub mod Effects
use neongrid.Base.{Bool, Option, String, [], false, if◌then◌else◌, none, not, some, true, ◌||◌, ◌∷◌}
use neongrid.Base.Int.{ltb_ℤ, pos, ℤ, ◌⊖◌}
use neongrid.Base.Map.{Map, delete, get, put}
use neongrid.Clock.{Duration, Time, since, zero_time}
use neongrid.Config.Rules.{rules}
use neongrid.Game.Contract.{mark_contract_failed}
use neongrid.Game.Data.{Activity, Player, Rules}
use neongrid.Game.Engine.Action.{
  Action, gets, modify, pure, raise_if, save, save_world_if, ◌>>=◌, ◌>>◌,
}
use neongrid.Game.Engine.Users.{advance_locked, commit, put_user, require}
use neongrid.Game.Rating.{add_heat, disconnect_heat, penalty_seconds}
use neongrid.Game.Repository.{Error, Repository}

-- The heat, progress and link that `Disconnect` leaves, before the streak.
unfoldable pub disconnected : Rules → Activity → Time → Player → Player
disconnected rules kind now p = record p {
  progress_seconds = p.progress_seconds ⊖ penalty_seconds p.level kind (pos 0) rules;
  heat = add_heat p.heat (disconnect_heat kind);
  connected = false;
  last_seen_at = now;
  last_progress_at = now;
  last_heat_at = now;
}

unfoldable pub end_streak : Player → Player
end_streak p = record p { streak_since = zero_time; streak_days = pos 0 }

abbrev pub is_netsplit : Activity → Bool
is_netsplit Activity.netsplit = true
is_netsplit _ = false

-- Only connected runners can be missing.
unfoldable pub still_missing : Map Player → Map Time → Map Time
still_missing users [] = []
still_missing users ((key, t) ∷ m) =
    let rest = still_missing users m in
    elim (get key users) [ none ↦ rest | some p ↦ if p.connected then (key, t) ∷ rest else rest ]

module _ {R : Type 0} ⦃repo : Repository R⦄ where
  -- The part of `Disconnect` that a netsplit is spared.
  unfoldable pub forfeit : Activity → String → Player → Action R (Player × Bool)
  forfeit kind key p = if is_netsplit kind then pure (p, false) else do
    put_user key p
    changed ← mark_contract_failed p.identity
    pure (end_streak p, changed)

  unfoldable pub disconnect : String → Activity → Time → Action R ℤ
  disconnect nick kind now = do
    (key, p) ← require "" nick
    raise_if (not p.connected) Error.runner_not_found
    q ← advance_locked key p now
    rules ← gets (λ e. e.rules)
    (q', changed) ← forfeit kind key (disconnected rules kind now q)
    commit key q'
    save_world_if changed
    pure (penalty_seconds q.level kind (pos 0) rules)

  unfoldable pub disconnect_one : String → Player → Time → Action R (Unit {0})
  disconnect_one key p now = if not p.connected then pure tt else do
    q ← advance_locked key p now
    commit key (record q { connected = false; last_progress_at = now; last_heat_at = now })

  -- The loop of `DisconnectAll`.
  unfoldable pub disconnect_each : Map Player → Time → Action R (Unit {0})
  disconnect_each [] now = pure tt
  disconnect_each ((key, p) ∷ users) now = disconnect_one key p now >> disconnect_each users now

  unfoldable pub disconnect_all : Time → Action R (Unit {0})
  disconnect_all now = do
    users ← gets (λ e. e.users)
    disconnect_each users now
    modify (λ e. record e { missing_since = [] })

module _ {R : Type 0} ⦃repo : Repository R⦄ where
  -- A runner that stayed away for the grace period leaves without a penalty.
  unfoldable pub drop_missing : String → Player → Time → Action R Bool
  drop_missing key p now = do
    modify (λ e. record e { missing_since = delete key e.missing_since })
    q ← advance_locked key p now
    let q' = end_streak (record q { connected = false; last_seen_at = now })
    put_user key q'
    changed ← mark_contract_failed q'.identity
    save q'
    pure changed

  -- A runner that is not in the roster, by when that was first noticed.
  unfoldable pub missed : Option Time → Duration → Time → String → Player → Action R Bool
  missed none grace now key p =
      modify (λ e. record e { missing_since = put key now e.missing_since }) >> pure false
  missed (some seen) grace now key p =
      if ltb_ℤ (since now seen) grace then pure false else drop_missing key p now

  unfoldable pub reconcile_one : (String → Bool) → Duration → Time → String → Player → Action R Bool
  reconcile_one present grace now key p =
      if not p.connected || present p.nick
      then modify (λ e. record e { missing_since = delete key e.missing_since }) >> pure false
      else do seen ← gets (λ e. get key e.missing_since); missed seen grace now key p

  unfoldable pub reconcile_each :
      (String → Bool) → Duration → Time → Map Player → Bool → Action R Bool
  reconcile_each present grace now [] changed = pure changed
  reconcile_each present grace now ((key, p) ∷ users) changed = do
    failed ← reconcile_one present grace now key p
    reconcile_each present grace now users (failed || changed)

  unfoldable pub reconcile : (String → Bool) → Duration → Time → Action R (Unit {0})
  reconcile present grace now = do
    users ← gets (λ e. e.users)
    changed ← reconcile_each present grace now users false
    modify (λ e. record e { missing_since = still_missing e.users e.missing_since })
    save_world_if changed
