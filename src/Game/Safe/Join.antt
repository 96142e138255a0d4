-- ===== src/Game/Safe/Join.antt =====
-- Runners that come keep the invariant of the engine.
use text.Mathlib.Text.{◌==◌ as text_eq}
use neongrid.Base.{Bool, Option, String, arith, false, if-both, none, refl, some, ℕ}
use neongrid.Base.Map.{Each}
use neongrid.Clock.{Duration, Time}
use neongrid.Game.Data.{Player}
use neongrid.Game.Engine.Action.{intn}
use neongrid.Game.Engine.Finds.{OnSome}
use neongrid.Game.Engine.Guards.{Any, OnOk}
use neongrid.Game.Engine.Users.{Entry, find_connected, guest_key}
use neongrid.Game.Join.{
  arrive, bind, join_locked, leave_account, linked, migrate, new_player, resume_streak, stagger,
  stagger_timers,
}
use neongrid.Game.Repository.{Repository}
use neongrid.Game.Safe.{
  IsRunner, Safe, Safe-bind, Safe-call, Safe-gets, Safe-if, Safe-pure, Safe-raise_if, Safe-read,
  Safe-then,
}
use neongrid.Game.Safe.Steps.{
  GoodEntry, advance_locked-Safe, commit-Safe, delete_user-Safe, find_connected-Good, get-Good,
  mark_contract_failed-Safe, migratable_guest-Good, put_user-Safe, rekey-Safe, save-Safe,
  save_world_if-Safe,
}

-- What the engine relies on when a guest's runner is migrated: what comes back has the account's key,
-- and a Heat in range.
pub record Trusted {R : Type 0} (repo : Repository R) : Type 0 where
  pub migrates :
      (guest key account nick : String) (s : R)
      → OnOk (IsRunner key) (repo.migrate_guest guest key account nick s).0

resume_streak-IsRunner :
    (key : String) (now : Time) (p : Player) → IsRunner key p → IsRunner key (resume_streak now p)
unfolding resume_streak
resume_streak-IsRunner key now p h =
    if-both (IsRunner key) _ _ _ (record { keyed = h.keyed; heated = h.heated }) h

module _ {R : Type 0} where
  pub intn-Safe : (n : ℕ) → Safe {R = R} Any (intn n)
  unfolding intn
  intn-Safe n = record {
    at =
        λ e i. (record { is_map = i.is_map; runners = i.runners; few_pending = i.few_pending }, tt);
  }

  stagger-Safe : (now at : Time) (interval : Duration) → Safe {R = R} Any (stagger now at interval)
  unfolding stagger
  stagger-Safe now at interval =
      Safe-if Any _ _ _ (Safe-pure Any at tt)
        (Safe-bind Any _ _ _ (intn-Safe _) (λ r _. Safe-pure Any _ tt))

  stagger_timers-Safe :
      (key : String) (p : Player) (now : Time)
      → IsRunner key p
      → Safe {R = R} (IsRunner key) (stagger_timers p now)
  unfolding stagger_timers
  stagger_timers-Safe key p now h = Safe-read _ _ λ rules.
      Safe-bind Any _ _ _ (stagger-Safe _ _ _) λ encounter _.
        Safe-bind Any _ _ _ (stagger-Safe _ _ _) λ district _.
          Safe-bind Any _ _ _ (stagger-Safe _ _ _) λ collision _.
            Safe-pure (IsRunner key) _ (record { keyed = h.keyed; heated = h.heated })

  arrive-Safe :
      (o : Option Player) (identity nick account : String) (now : Time)
      → OnSome (IsRunner identity) o
      → Safe {R = R} (IsRunner identity) (arrive o identity nick account now)
  unfolding arrive new_player
  arrive-Safe none identity nick account now h =
      Safe-read _ _
        λ rules. Safe-pure (IsRunner identity) _ (record { keyed = refl; heated = omega arith })
  arrive-Safe (some p) identity nick account now h =
      Safe-if (IsRunner identity) _ _ _ (advance_locked-Safe identity p now h) (
        Safe-bind (IsRunner identity) _ _ _ (stagger_timers-Safe identity p now h)
          λ q k. Safe-pure (IsRunner identity) _ (resume_streak-IsRunner identity now q k))

module _ {R : Type 0} ⦃repo : Repository R⦄ (trusted : Trusted repo) where
  migrate-Safe :
      (o : Option Entry) (identity nick account : String) (now : Time)
      → OnSome GoodEntry o
      → Safe {R = R} (λ r. OnSome (IsRunner identity) r.0) (migrate o identity nick account now)
  unfolding migrate
  migrate-Safe none identity nick account now h =
      Safe-bind (Each IsRunner) _ _ _ (Safe-gets _ _ (λ e i. i.runners))
        λ users k. Safe-pure _ _ (get-Good identity users k)
  migrate-Safe (some (guest_key, guest)) identity nick account now h =
      Safe-bind (IsRunner guest_key) _ _ _ (advance_locked-Safe guest_key guest now h) λ q k.
        Safe-then _ _ (save-Safe q) (
          Safe-bind (IsRunner identity) _ _ _
            (Safe-call (IsRunner identity) _ (trusted.migrates q.identity identity account nick))
            λ migrated m. Safe-then _ _ (delete_user-Safe _) (
              Safe-then _ _ (put_user-Safe identity migrated m)
                (Safe-bind Any _ _ _ (rekey-Safe _ _) λ changed _. Safe-pure _ _ m)))

  pub join_locked-Safe :
      (nick account : String) (now : Time) → Safe {R = R} Any (join_locked nick account now)
  unfolding join_locked linked
  join_locked-Safe nick account now =
      Safe-bind (Each IsRunner) _ _ _ (Safe-gets _ _ (λ e i. i.runners)) λ users k.
        Safe-bind (λ (r : Option Player × Bool). OnSome (IsRunner _) r.0) _ _ _
          (migrate-Safe _ _ nick account now (
            if-both (OnSome GoodEntry) (text_eq account "") _ _ tt
              (migratable_guest-Good nick account users k)))
          λ r found. Safe-bind (IsRunner _) _ _ _ (arrive-Safe r.0 _ nick account now found) λ p h.
            Safe-then _ _ (commit-Safe _ _ (record { keyed = h.keyed; heated = h.heated }))
              (Safe-then _ _ (save_world_if-Safe r.1) (Safe-pure Any _ tt))

  leave_account-Safe :
      (o : Option Entry) (identity : String) (now : Time)
      → OnSome GoodEntry o
      → Safe {R = R} Any (leave_account o identity now)
  unfolding leave_account
  leave_account-Safe none identity now h = Safe-pure Any false tt
  leave_account-Safe (some (key, p)) identity now h = Safe-if Any _ _ _ (Safe-pure Any false tt) (
      Safe-bind (IsRunner key) _ _ _ (advance_locked-Safe key p now h) λ q k.
        Safe-then _ _ (put_user-Safe key _ (record { keyed = k.keyed; heated = k.heated })) (
          Safe-bind Any _ _ _ (mark_contract_failed-Safe _)
            λ changed _. Safe-then _ _ (save-Safe _) (Safe-pure Any changed tt)))

  pub bind-Safe : (nick account : String) (now : Time) → Safe {R = R} Any (bind nick account now)
  unfolding bind
  bind-Safe nick account now = Safe-then _ _ (Safe-raise_if _ _) (
      Safe-bind (Each IsRunner) _ _ _ (Safe-gets _ _ (λ e i. i.runners)) λ users k.
        Safe-bind Any _ _ _
          (leave_account-Safe (find_connected nick users) _ now (find_connected-Good nick users k))
          λ changed _.
            Safe-bind Any _ _ _ (join_locked-Safe nick account now)
              λ p _. Safe-then _ _ (save_world_if-Safe changed) (Safe-pure Any p tt))
