-- ===== src/Game/Start/Ready.antt =====
-- What an engine is when `New` returns it.
use mathlib.Core.Path.{subst}
use neongrid.Base.{
  Bool, Bool-cases, List, String, [], arith, false, if-both, if◌then◌else◌, inl, inr, length, refl,
  sym, true, ℕ, ◌∷◌, ◌≡◌, ◌≤◌,
}
use neongrid.Base.Int.{ltb_ℤ, negsuc, pos, ℤ, ◌≤ℤ◌}
use neongrid.Base.Map.{Each, Each-put, IsMap, Map, put-IsMap}
use neongrid.Clock.{Time}
use neongrid.Config.Rules.{rules}
use neongrid.Game.Data.{Item, Player, Rules, WorldState, district_neon_market}
use neongrid.Game.Engine.Action.{Action, Engine, call, gets, intn, save, save_world, save_world_if}
use neongrid.Game.Engine.Gives.{Gives, Gives-pure, Gives-step}
use neongrid.Game.Engine.Leaves.{
  Keeps, Keeps-bind, Keeps-call, Keeps-given, Keeps-modify, Keeps-pure,
}
use neongrid.Game.Engine.Users.{put_user}
use neongrid.Game.Rating.{valid_district}
use neongrid.Game.Rating.Bounds.{clamp_heat-IsHeat}
use neongrid.Game.Repository.{Repository, Result, err, ok}
use neongrid.Game.Safe.{Inv, IsRunner, OnOk}
use neongrid.Game.Start.Boot.{
  age_each, blank, fill, load_each, new, on_time, repair_runner, set_timers, unlinked_at,
}
use neongrid.Game.World.{next_faction_swap_at}
use neongrid.Game.World.Artifacts.{unique_life_levels}
use neongrid.Game.World.Steps.{edit_world}

-- A runner that has just been loaded: it is not linked, its level is 1 at least, and it lives in a
-- district of the city.
pub record IsStarted (key : String) (p : Player) : Type 0 where
  pub runner : IsRunner key p
  pub unlinked : p.connected ≡ false
  pub leveled : pos 1 ≤ℤ p.level
  pub housed : valid_district p.district ≡ true

pub record IsReady {R : Type 0} (e : Engine R) : Type 0 where
  pub inv : Inv e
  pub started : Each IsStarted e.users

level_least : (level : ℤ) → pos 1 ≤ℤ (if ltb_ℤ level (pos 1) then pos 1 else level)
level_least (pos n) = ground arith
level_least (negsuc n) = ground arith

market_known : valid_district district_neon_market ≡ true
unfolding valid_district
market_known = refl

housed_least :
    (district : String)
    → valid_district (if valid_district district then district else district_neon_market) ≡ true
housed_least district = elim (Bool-cases (valid_district district)) [
  | inl known ↦ rw known known
  | inr lost ↦ rw lost market_known
]

repaired-IsStarted :
    (rules : Rules) (now : Time) (p : Player) (equipment : Map Item)
    → let q = on_time rules now (record (unlinked_at now p) { equipment = equipment }) in
      IsStarted q.identity q
unfolding on_time unlinked_at
repaired-IsStarted rules now p equipment = record {
  runner = record { keyed = refl; heated = clamp_heat-IsHeat p.heat };
  unlinked = refl;
  leveled = level_least p.level;
  housed = housed_least p.district;
}

module _ {R : Type 0} where
  -- Steps that touch neither the runners nor what waits.
  same_runners :
      (e e' : Engine R) → e'.users ≡ e.users → e'.pending ≡ e.pending → IsReady e → IsReady e'
  same_runners e e' users pending h = record {
    inv = record {
      is_map = subst IsMap (sym users) h.inv.is_map;
      runners = subst (Each IsRunner) (sym users) h.inv.runners;
      few_pending = subst (λ (p : List String). length p ≤ 50) (sym pending) h.inv.few_pending;
    };
    started = subst (Each IsStarted) (sym users) h.started;
  }

  intn-Keeps : (n : ℕ) → Keeps {R = R} IsReady (intn n)
  unfolding intn
  intn-Keeps n = record { keeps = λ e h. same_runners e _ refl refl h }

  gets-Keeps : {A : Type 0} (f : Engine R → A) → Keeps {R = R} IsReady (gets f)
  unfolding gets
  gets-Keeps f = record { keeps = λ e h. h }

  if-Keeps :
      {A : Type 0} (b : Bool) (m n : Action R A)
      → Keeps IsReady m
      → Keeps IsReady n
      → Keeps IsReady (if b then m else n)
  if-Keeps b m n h k = if-both (Keeps IsReady) b m n h k

  age_each-Keeps :
      (level : ℤ) (equipment : Map Item) → Keeps {R = R} IsReady (age_each level equipment)
  unfolding age_each unique_life_levels
  age_each-Keeps level [] = Keeps-pure _
  age_each-Keeps level ((slot, item) ∷ equipment) =
      Keeps-bind _ _
        (if-Keeps _ _ _ (Keeps-bind _ _ (intn-Keeps 5) λ n. Keeps-pure _) (Keeps-pure _))
        λ life. Keeps-bind _ _ (age_each-Keeps level equipment) λ rest. Keeps-pure _

  repair_runner-Keeps : (now : Time) (p : Player) → Keeps {R = R} IsReady (repair_runner now p)
  unfolding repair_runner
  repair_runner-Keeps now p =
      Keeps-bind _ _ (age_each-Keeps _ _)
        λ equipment. Keeps-bind _ _ (gets-Keeps _) λ rules. Keeps-pure _

  repair_runner-Gives :
      (now : Time) (p : Player) → Gives {R = R} (λ q. IsStarted q.identity q) (repair_runner now p)
  unfolding repair_runner
  repair_runner-Gives now p = Gives-step _ _ _ λ equipment.
      Gives-step _ _ _ λ rules. Gives-pure _ _ (repaired-IsStarted rules now p equipment)

  put_user-Keeps :
      (q : Player) → IsStarted q.identity q → Keeps {R = R} IsReady (put_user q.identity q)
  unfolding put_user
  put_user-Keeps q h = Keeps-modify _ λ e r. record {
    inv = record {
      is_map = put-IsMap q.identity q e.users r.inv.is_map;
      runners = Each-put IsRunner q.identity q e.users r.inv.runners h.runner;
      few_pending = r.inv.few_pending;
    };
    started = Each-put IsStarted q.identity q e.users r.started h;
  }

  edit-Keeps : (f : WorldState → WorldState) → Keeps {R = R} IsReady (edit_world f)
  unfolding edit_world
  edit-Keeps f = Keeps-modify _ λ e h. same_runners e _ refl refl h

module _ {R : Type 0} ⦃repo : Repository R⦄ where
  call-Keeps : {A : Type 0} (f : R → Result A × R) → Keeps {R = R} IsReady (call f)
  call-Keeps f = Keeps-call f λ e s h. same_runners e _ refl refl h

  save_world_if-Keeps : (b : Bool) → Keeps {R = R} IsReady (save_world_if b)
  unfolding save_world_if save_world call
  save_world_if-Keeps true = record { keeps = λ e h. same_runners e _ refl refl h }
  save_world_if-Keeps false = Keeps-pure tt

  load_each-Keeps :
      (now : Time) (players : List Player) → Keeps {R = R} IsReady (load_each now players)
  unfolding load_each save
  load_each-Keeps now [] = Keeps-pure tt
  load_each-Keeps now (p ∷ players) =
      Keeps-given _ _ _ (repair_runner-Gives now p) (repair_runner-Keeps now p) λ q h.
        Keeps-bind _ _ (put_user-Keeps q h)
          λ done. Keeps-bind _ _ (call-Keeps _) λ saved. load_each-Keeps now players

  set_timers-Keeps : (now : Time) → Keeps {R = R} IsReady (set_timers now)
  unfolding set_timers next_faction_swap_at
  set_timers-Keeps now = Keeps-bind _ _ (gets-Keeps _) λ rules.
      Keeps-bind _ _ (gets-Keeps _) λ world.
        Keeps-bind _ _
          (if-Keeps _ _ _ (Keeps-bind _ _ (intn-Keeps 7) λ days. Keeps-pure _) (Keeps-pure _))
          λ swap. Keeps-bind _ _ (edit-Keeps _) λ done. save_world_if-Keeps _

  fill-Keeps : (now : Time) → Keeps {R = R} IsReady (fill now)
  unfolding fill
  fill-Keeps now = Keeps-bind _ _ (call-Keeps _) λ players.
      Keeps-bind _ _ (load_each-Keeps now players) λ done.
        Keeps-bind _ _ (call-Keeps _)
          λ world. Keeps-bind _ _ (edit-Keeps _) λ placed. set_timers-Keeps now

  blank-IsReady : (rules : Rules) (rng : ℕ → ℕ) (store : R) → IsReady (blank rules rng store)
  unfolding blank
  blank-IsReady rules rng store = record {
    inv = record { is_map = tt; runners = tt; few_pending = omega arith };
    started = tt;
  }

  -- Whatever the store holds and answers, an engine that `New` returns satisfies the invariant: each
  -- runner stands under its own identity, no key twice, every Heat is between 0 and 100, and at most 50
  -- announcements wait. Each of its runners is unlinked, has a level of 1 at least and lives in a
  -- district of the city.
  pub new-IsReady :
      (rules : Rules) (rng : ℕ → ℕ) (now : Time) (store : R)
      → OnOk IsReady (new rules rng now store)
  unfolding new
  new-IsReady rules rng now store =
      let (r, e) = fill now (blank rules rng store) in
      filled r e ((fill-Keeps now).keeps _ (blank-IsReady rules rng store))
    where
      filled :
          (r : Result (Unit {0})) (e : Engine R)
          → IsReady e
          → OnOk IsReady (elim r [ ok done ↦ ok e | err x ↦ err x ])
      filled (ok done) e h = h
      filled (err x) e h = tt
