-- ===== src/Game/Safe/Contracts.antt =====
-- Contracts, raids and dead drops keep the invariant.
use neongrid.Base.{
  Bool, List, Option, String, [], false, if-both, if◌then◌else◌, none, refl, some, suc, zero, ℕ,
  ◌∷◌,
}
use neongrid.Base.Int.{pos, ℤ}
use neongrid.Base.Map.{Each, Map, get}
use neongrid.Clock.{Time}
use neongrid.Config.Rules.{rules}
use neongrid.Game.Data.{Contract, Player, Raid, Rules}
use neongrid.Game.Engine.Action.{Action, Engine, pure, save, ◌>>=◌, ◌>>◌}
use neongrid.Game.Engine.Finds.{OnSome}
use neongrid.Game.Engine.Guards.{Any, OnOk}
use neongrid.Game.Engine.Users.{Entry, commit}
use neongrid.Game.Rating.Bounds.{add_heat-IsHeat}
use neongrid.Game.Repository.{Repository, Result}
use neongrid.Game.Safe.{
  Inv, IsRunner, Safe, Safe-bind, Safe-gets, Safe-if, Safe-pure, Safe-read, Safe-step, Safe-then,
}
use neongrid.Game.Safe.Artifacts.{same_heat}
use neongrid.Game.Safe.Join.{intn-Safe}
use neongrid.Game.Safe.Steps.{
  GoodEntry, advance_locked-Safe, commit-Safe, find_locked-Good, get-Good, save-Safe,
}
use neongrid.Game.Safe.World.{
  edit_world-Safe, pick-Safe, reheated, remember-Safe, score_faction-Safe, set_user-Safe,
  update_titles_locked-Safe,
}
use neongrid.Game.World.Bulletin.{bulletin_tick}
use neongrid.Game.World.Contracts.{
  end_contract, paid, pay_each, pay_one, perm, perm_from, post_by, post_contract, resolve_contract,
  set_back, start_contract,
}
use neongrid.Game.World.DeadDrop.{
  claim_dead_drop, dead_drop_expiry, force_pirate, open_pirate_frequency, pocket, pocket_if,
  pocketed, write_code,
}
use neongrid.Game.World.Raid.{
  announce_raid, assault, muster, raid_lost, raid_won, resolve_raid, reward_each, reward_one,
  run_raid, start_raid,
}
use neongrid.Game.World.Steps.{score_faction, set_user, update_titles_locked}
use neongrid.Game.World.Week.{faction_week_tick}

module _ {R : Type 0} where
  perm_from-Safe : (n i : ℕ) (m : List ℕ) → Safe {R = R} Any (perm_from n i m)
  unfolding perm_from
  perm_from-Safe zero i m = Safe-pure Any m tt
  perm_from-Safe (suc n) i m = Safe-step _ _ (intn-Safe _) λ j. perm_from-Safe n (suc i) _

  post_contract-Safe :
      (now : Time) (candidates : Map Player) → Safe {R = R} Any (post_contract now candidates)
  unfolding post_contract post_by perm
  post_contract-Safe now candidates = Safe-read _ _ λ rules.
      Safe-step _ _ (perm_from-Safe _ 0 []) λ order. Safe-step _ _ (pick-Safe _) λ corp.
        Safe-step _ _ (pick-Safe _) λ job.
          Safe-step _ _ (intn-Safe _) λ i. Safe-then _ _ (edit_world-Safe _) (Safe-pure Any _ tt)

  -- A method that reads the engine before it does anything.
  pub Safe-view :
      {A : Type 0} (f : Engine R → Action R A)
      → ((e : Engine R) → Safe Any (f e))
      → Safe Any (λ e. f e e)
  Safe-view f h = record { at = λ e i. (h e).at e i }

  -- A choice between actions that stands inside an action.
  pub Safe-either :
      {A : Type 0} (b : Bool) (m n : Action R A)
      → Safe Any m
      → Safe Any n
      → Safe Any (λ e. if b then m e else n e)
  Safe-either {A} b m n h k = record {
    at = λ e i.
        if-both (λ (r : Result A × Engine R). Inv r.1 × OnOk Any r.0) b _ _ (h.at e i) (k.at e i);
  }

  pub Safe-option :
      {A B : Type 0} (o : Option B) (m : Action R A) (f : B → Action R A)
      → Safe Any m
      → ((b : B) → Safe Any (f b))
      → Safe {R = R} {A = A} Any (λ e. elim o [ none ↦ m e | some b ↦ f b e ])
  Safe-option none m f h k = record { at = λ e i. h.at e i }
  Safe-option (some b) m f h k = record { at = λ e i. (k b).at e i }

  pub start_contract-Safe : (now : Time) → Safe {R = R} Any (start_contract now)
  unfolding start_contract pure
  start_contract-Safe now = Safe-view _ λ e.
      Safe-option e.world.contract _ _
        (Safe-either _ _ _ (Safe-pure Any ("", false) tt) (post_contract-Safe now _))
        (λ c. Safe-pure Any ("", false) tt)

  announce_raid-Safe : (now : Time) → Safe {R = R} Any (announce_raid now)
  unfolding announce_raid
  announce_raid-Safe now = Safe-step _ _ (pick-Safe _) λ ice.
      Safe-step _ _ (pick-Safe _) λ district. Safe-then _ _ (edit_world-Safe _) (Safe-pure Any _ tt)

  pub start_raid-Safe : (now : Time) → Safe {R = R} Any (start_raid now)
  unfolding start_raid pure
  start_raid-Safe now = Safe-view _ λ e.
      Safe-option e.world.raid _ _
        (Safe-either _ _ _ (Safe-pure Any ("", false) tt) (announce_raid-Safe now))
        (λ raid. Safe-pure Any ("", false) tt)

  muster-Safe :
      (now : Time) (users : Map Player)
      → Each IsRunner users
      → Safe {R = R} (Each IsRunner) (muster now users)
  unfolding muster
  muster-Safe now [] h = Safe-pure (Each IsRunner) [] tt
  muster-Safe now ((key, p) ∷ users) h = Safe-if _ _ _ _ (muster-Safe now users h.1) (
      Safe-bind (IsRunner key) _ _ _ (advance_locked-Safe key p now h.0) λ q k.
        Safe-bind (Each IsRunner) _ _ _ (muster-Safe now users h.1)
          λ team m. Safe-pure (Each IsRunner) _ (k, m))

  write_code-Safe : (n : ℕ) → Safe {R = R} Any (write_code n)
  unfolding write_code
  write_code-Safe zero = Safe-pure Any _ tt
  write_code-Safe (suc zero) = Safe-step _ _ (intn-Safe _) λ i. Safe-pure Any _ tt
  write_code-Safe (suc (suc n)) = Safe-step _ _ (intn-Safe _) λ i.
      Safe-step _ _ (intn-Safe _)
        λ j. Safe-step _ _ (write_code-Safe (suc n)) λ r. Safe-pure Any _ tt

  pub open_pirate_frequency-Safe : (now : Time) → Safe {R = R} Any (open_pirate_frequency now)
  unfolding open_pirate_frequency
  open_pirate_frequency-Safe now = Safe-read _ _ λ rules. Safe-then _ _ (edit_world-Safe _) (
      Safe-step _ _ (write_code-Safe 5) λ r. Safe-then _ _ (edit_world-Safe _) (Safe-pure Any _ tt))

  pub dead_drop_expiry-Safe : (now : Time) → Safe {R = R} Any (dead_drop_expiry now)
  unfolding dead_drop_expiry
  dead_drop_expiry-Safe now = Safe-read _ _ λ world.
      Safe-if Any _ _ _ (Safe-pure Any _ tt)
        (Safe-then _ _ (edit_world-Safe _) (Safe-pure Any _ tt))

  pub faction_week_tick-Safe : (now : Time) → Safe {R = R} Any (faction_week_tick now)
  unfolding faction_week_tick
  faction_week_tick-Safe now = Safe-read _ _ λ world.
      Safe-if Any _ _ _ (Safe-then _ _ (edit_world-Safe _) (Safe-pure Any _ tt)) (
        Safe-if Any _ _ _ (Safe-pure Any _ tt)
          (Safe-then _ _ (edit_world-Safe _) (Safe-pure Any _ tt)))

  pub bulletin_tick-Safe : (now : Time) → Safe {R = R} Any (bulletin_tick now)
  unfolding bulletin_tick
  bulletin_tick-Safe now = Safe-read _ _ λ world. Safe-read _ _ λ users.
      Safe-if Any _ _ _ (Safe-then _ _ (edit_world-Safe _) (Safe-pure Any _ tt)) (
        Safe-if Any _ _ _ (Safe-pure Any _ tt)
          (Safe-then _ _ (edit_world-Safe _) (Safe-pure Any _ tt)))

paid-IsRunner :
    (rules : Rules) (key : String) (p : Player) → IsRunner key p → IsRunner key (paid rules p)
unfolding paid
paid-IsRunner rules key p h = reheated key p _ h refl (add_heat-IsHeat _ _)

set_back-IsRunner :
    (rules : Rules) (key : String) (p : Player) → IsRunner key p → IsRunner key (set_back rules p)
unfolding set_back
set_back-IsRunner rules key p h = reheated key p _ h refl (add_heat-IsHeat _ _)

raid_won-IsRunner :
    (rules : Rules) (key : String) (p : Player) → IsRunner key p → IsRunner key (raid_won rules p)
unfolding raid_won
raid_won-IsRunner rules key p h = reheated key p _ h refl (add_heat-IsHeat _ _)

raid_lost-IsRunner :
    (rules : Rules) (key : String) (p : Player) → IsRunner key p → IsRunner key (raid_lost rules p)
unfolding raid_lost
raid_lost-IsRunner rules key p h = reheated key p _ h refl (add_heat-IsHeat _ _)

pocketed-IsRunner :
    (gain : ℤ) (key : String) (p : Player) → IsRunner key p → IsRunner key (pocketed gain p)
unfolding pocketed
pocketed-IsRunner gain key p h = same_heat key p _ h refl refl

module _ {R : Type 0} ⦃repo : Repository R⦄ where
  -- A runner that is rewarded, or set back, and saved.
  prize-Safe :
      (success : Bool) (key : String) (won lost : Player) (points : ℤ)
      → IsRunner key won
      → IsRunner key lost
      → Safe {R = R} Any (
          if success
          then (set_user key won >>= λ r.
              score_faction r points >> (update_titles_locked key r >>= λ s. save s))
          else commit key lost)
  prize-Safe success key won lost points h k =
      Safe-if Any _ _ _
        (Safe-bind (IsRunner key) _ _ _ (set_user-Safe key won h) λ r m.
          Safe-then _ _ (score_faction-Safe r points)
            (Safe-bind (IsRunner key) _ _ _ (update_titles_locked-Safe key r m) λ s n. save-Safe s))
        (commit-Safe key lost k)

  pay_one-Safe :
      (now : Time) (success : Bool) (key : String) (p : Player)
      → IsRunner key p
      → Safe {R = R} Any (pay_one now success key p)
  unfolding pay_one
  pay_one-Safe now success key p h =
      Safe-bind (IsRunner key) _ _ _ (advance_locked-Safe key p now h) λ q k. Safe-read _ _ λ rules.
        prize-Safe success key _ _ (pos 3) (paid-IsRunner rules key q k)
          (set_back-IsRunner rules key q k)

  pay_each-Safe :
      (now : Time) (success : Bool) (identities : List String)
      → Safe {R = R} Any (pay_each now success identities)
  unfolding pay_each
  pay_each-Safe now success [] = Safe-pure Any tt tt
  pay_each-Safe now success (identity ∷ identities) =
      Safe-bind (Each IsRunner) _ _ _ (Safe-gets _ _ (λ e i. i.runners)) λ users h.
        Safe-then _ _ (paid_if (get identity users) (get-Good identity users h))
          (pay_each-Safe now success identities)
    where
      paid_if :
          (o : Option Player)
          → OnSome (IsRunner identity) o
          → Safe {R = R} Any (elim o [ none ↦ pure tt | some p ↦ pay_one now success identity p ])
      paid_if none h = Safe-pure Any tt tt
      paid_if (some p) h = pay_one-Safe now success identity p h

  end_contract-Safe : (now : Time) (c : Contract) → Safe {R = R} Any (end_contract now c)
  unfolding end_contract
  end_contract-Safe now c = Safe-read _ _ λ users.
      Safe-then _ _ (pay_each-Safe now _ c.participants)
        (Safe-then _ _ (edit_world-Safe _) (Safe-pure Any _ tt))

  pub resolve_contract-Safe : (now : Time) → Safe {R = R} Any (resolve_contract now)
  unfolding resolve_contract pure
  resolve_contract-Safe now = Safe-view _ λ e.
      Safe-option e.world.contract (pure "") _ (Safe-pure Any "" tt)
        λ c. Safe-either _ (pure "") _ (Safe-pure Any "" tt) (end_contract-Safe now c)

  reward_each-Safe :
      (success : Bool) (team : Map Player)
      → Each IsRunner team
      → Safe {R = R} Any (reward_each success team)
  unfolding reward_each reward_one
  reward_each-Safe success [] h = Safe-pure Any tt tt
  reward_each-Safe success ((key, p) ∷ team) h =
      Safe-then _ _
        (Safe-read _ _ λ rules.
          prize-Safe success key _ _ (pos 1) (raid_won-IsRunner rules key p h.0)
            (raid_lost-IsRunner rules key p h.0))
        (reward_each-Safe success team h.1)

  assault-Safe :
      (raid : Raid) (team : Map Player) → Each IsRunner team → Safe {R = R} Any (assault raid team)
  assault-Safe raid [] h = Safe-pure Any _ tt
  assault-Safe raid (x ∷ xs) h =
      Safe-step _ _ (intn-Safe 76)
        λ roll. Safe-then _ _ (reward_each-Safe _ (x ∷ xs) h) (Safe-pure Any _ tt)

  run_raid-Safe : (now : Time) (raid : Raid) → Safe {R = R} Any (run_raid now raid)
  unfolding run_raid
  run_raid-Safe now raid = Safe-then _ _ (edit_world-Safe _) (
      Safe-bind (Each IsRunner) _ _ _ (Safe-gets _ _ (λ e i. i.runners))
        λ users h. Safe-bind (Each IsRunner) _ _ _ (muster-Safe now users h) (assault-Safe raid))

  pub resolve_raid-Safe : (now : Time) → Safe {R = R} Any (resolve_raid now)
  unfolding resolve_raid pure
  resolve_raid-Safe now = Safe-view _ λ e.
      Safe-option e.world.raid (pure "") _ (Safe-pure Any "" tt)
        λ raid. Safe-either _ (pure "") _ (Safe-pure Any "" tt) (run_raid-Safe now raid)

  pub force_pirate-Safe : (now : Time) → Safe {R = R} Any (force_pirate now)
  unfolding force_pirate
  force_pirate-Safe now =
      Safe-step _ _ (open_pirate_frequency-Safe now)
        λ message. Safe-then _ _ (remember-Safe _) (Safe-pure Any _ tt)

  pocket-Safe : (now : Time) (x : Entry) → GoodEntry x → Safe {R = R} Any (pocket now x)
  pocket-Safe now (key, p) h =
      Safe-bind (IsRunner key) _ _ _ (advance_locked-Safe key p now h) λ q k. Safe-read _ _ λ rules.
        Safe-bind (IsRunner key) _ _ _ (set_user-Safe key _ (pocketed-IsRunner _ key q k)) λ r m.
          Safe-then _ _ (score_faction-Safe r _) (
            Safe-bind (IsRunner key) _ _ _ (update_titles_locked-Safe key r m) λ s n.
              Safe-then _ _ (edit_world-Safe _) (
                Safe-then _ _ (save-Safe s) (Safe-then _ _ (remember-Safe _) (Safe-pure Any _ tt))))

  pub claim_dead_drop-Safe :
      (identity nick channel text : String) (now : Time)
      → Safe {R = R} Any (claim_dead_drop identity nick channel text now)
  unfolding claim_dead_drop pure
  claim_dead_drop-Safe identity nick channel text now = record {
    at = λ e i.
        (Safe-either _ _ (pure "")
            (pocket_if-Safe _ (find_locked-Good identity nick e.users i.runners))
            (Safe-pure Any "" tt)).at
          e i;
  }
    where
      pocket_if-Safe : (o : Option Entry) → OnSome GoodEntry o → Safe {R = R} Any (pocket_if now o)
      pocket_if-Safe none h = Safe-pure Any "" tt
      pocket_if-Safe (some x) h = Safe-if Any _ _ _ (pocket-Safe now x h) (Safe-pure Any "" tt)
