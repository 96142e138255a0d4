-- ===== src/Game/Requests.antt =====
-- Everything that the bot and the scheduler ask of the engine, as one data type, and what holds after
-- any sequence of such requests, made at any times.
use neongrid.Game.World.DeadDrop
use neongrid.Game.Join
use neongrid.Game.Leave
use neongrid.Game.Profile
use neongrid.Game.Rename
use neongrid.Game.World.Tick
use neongrid.Game.Views
use neongrid.Base.{Bool, List, String, [], length, ◌∷◌}
use neongrid.Base.Int.{ℤ}
use neongrid.Clock.{Duration, Time}
use neongrid.Game.Data.{Activity}
use neongrid.Game.Engine.Action.{Action, Engine, pure, ◌>>=◌}
use neongrid.Game.Engine.Guards.{Any}
use neongrid.Game.Repository.{Repository}
use neongrid.Game.Safe.{Inv, Safe, Safe-bind, Safe-pure}
use neongrid.Game.Safe.Contracts.{claim_dead_drop-Safe, force_pirate-Safe}
use neongrid.Game.Safe.Join.{Trusted, bind-Safe, join_locked-Safe}
use neongrid.Game.Safe.Leave.{
  disconnect-Safe, disconnect_all-Safe, reconcile-Safe, rename-Safe, top-Safe,
}
use neongrid.Game.Safe.Profile.{
  activity-Safe, set_alias-Safe, set_faction-Safe, set_stance-Safe, set_title-Safe, status-Safe,
}
use neongrid.Game.Safe.Tick.{tick-Safe}
use neongrid.Game.Start.Boot.{new}

pub data Request : Type 0 where
  join : String → String → Request
  bind : String → String → Request
  rename : String → String → Request
  disconnect : String → Activity → Request
  disconnect_all : Request
  reconcile : (String → Bool) → Duration → Request
  set_alias set_title set_faction set_stance : String → String → String → Request
  activity : String → String → String → Activity → ℤ → Request
  status : String → String → Request
  top : ℤ → Request
  tick : Request
  claim_dead_drop : String → String → String → String → Request
  force_pirate : Request

module _ {R : Type 0} where
  -- A caller that looks only at the error.
  unfoldable pub ignore : {A : Type 0} → Action R A → Action R (Unit {0})
  ignore m = m >>= λ a. pure tt

  ignore-Safe : {A : Type 0} (m : Action R A) → Safe Any m → Safe Any (ignore m)
  unfolding ignore
  ignore-Safe m h = Safe-bind Any Any _ _ h (λ a _. Safe-pure Any tt tt)

module _ {R : Type 0} ⦃repo : Repository R⦄ where
  unfoldable pub perform : Time → Request → Action R (Unit {0})
  perform now (Request.join nick account) = ignore (Join.join_locked nick account now)
  perform now (Request.bind nick account) = ignore (Join.bind nick account now)
  perform now (Request.rename old new) = ignore (Rename.rename old new now)
  perform now (Request.disconnect nick kind) = ignore (Leave.disconnect nick kind now)
  perform now Request.disconnect_all = Leave.disconnect_all now
  perform now (Request.reconcile present grace) = Leave.reconcile present grace now
  perform now (Request.set_alias identity nick name) =
      ignore (Profile.set_alias identity nick name now)
  perform now (Request.set_title identity nick name) =
      ignore (Profile.set_title identity nick name now)
  perform now (Request.set_faction identity nick name) =
      ignore (Profile.set_faction identity nick name now)
  perform now (Request.set_stance identity nick name) =
      ignore (Profile.set_stance identity nick name now)
  perform now (Request.activity identity nick channel kind length) =
      ignore (Profile.activity identity nick channel kind length now)
  perform now (Request.status identity nick) = ignore (Profile.status identity nick now)
  perform now (Request.top limit) = ignore (Views.top limit now)
  perform now Request.tick = ignore (Tick.tick now)
  perform now (Request.claim_dead_drop identity nick channel text) =
      ignore (DeadDrop.claim_dead_drop identity nick channel text now)
  perform now Request.force_pirate = ignore (DeadDrop.force_pirate now)

  -- The engine after a history of requests, each with its time; a request that fails is passed over.
  unfoldable pub history : List (Time × Request) → Engine R → Engine R
  history [] e = e
  history ((now, q) ∷ rest) e = history rest (perform now q e).1

module _ {R : Type 0} ⦃repo : Repository R⦄ (trusted : Trusted repo) where
  perform-Safe : (now : Time) (q : Request) → Safe {R = R} Any (perform now q)
  unfolding perform
  perform-Safe now (Request.join nick account) =
      ignore-Safe _ (join_locked-Safe trusted nick account now)
  perform-Safe now (Request.bind nick account) = ignore-Safe _ (bind-Safe trusted nick account now)
  perform-Safe now (Request.rename old new) = ignore-Safe _ (rename-Safe old new now)
  perform-Safe now (Request.disconnect nick kind) = ignore-Safe _ (disconnect-Safe nick kind now)
  perform-Safe now Request.disconnect_all = disconnect_all-Safe now
  perform-Safe now (Request.reconcile present grace) = reconcile-Safe present grace now
  perform-Safe now (Request.set_alias identity nick name) =
      ignore-Safe _ (set_alias-Safe identity nick name now)
  perform-Safe now (Request.set_title identity nick name) =
      ignore-Safe _ (set_title-Safe identity nick name now)
  perform-Safe now (Request.set_faction identity nick name) =
      ignore-Safe _ (set_faction-Safe identity nick name now)
  perform-Safe now (Request.set_stance identity nick name) =
      ignore-Safe _ (set_stance-Safe identity nick name now)
  perform-Safe now (Request.activity identity nick channel kind length) =
      ignore-Safe _ (activity-Safe identity nick channel kind length now)
  perform-Safe now (Request.status identity nick) = ignore-Safe _ (status-Safe identity nick now)
  perform-Safe now (Request.top limit) = ignore-Safe _ (top-Safe limit now)
  perform-Safe now Request.tick = ignore-Safe _ (tick-Safe now)
  perform-Safe now (Request.claim_dead_drop identity nick channel text) =
      ignore-Safe _ (claim_dead_drop-Safe identity nick channel text now)
  perform-Safe now Request.force_pirate = ignore-Safe _ (force_pirate-Safe now)

  -- Over a repository whose `MigrateGuest` gives a runner under the key asked for with a Heat between 0
  -- and 100, from a state that satisfies the invariant, after any requests at any times, ticks and
  -- failed ones included: each runner of the engine stands under its own identity, no key stands twice,
  -- every Heat is between 0 and 100, and at most 50 announcements wait.
  pub history-Inv :
      (requests : List (Time × Request)) (e : Engine R) → Inv e → Inv (history requests e)
  unfolding history
  history-Inv [] e h = h
  history-Inv ((now, q) ∷ rest) e h =
      history-Inv rest (perform now q e).1 ((perform-Safe now q).at e h).0
