-- ===== src/Game/Safe/Leave.antt =====
-- Runners that go, and runners that change their nick, keep the invariant of the engine.
use neongrid.Base.{Bool, Option, String, [], false, none, refl, some, sym, ◌||◌, ◌∙◌, ◌∷◌, ◌≡◌}
use neongrid.Base.Int.{pos, ℤ}
use neongrid.Base.Map.{Each, Map}
use neongrid.Clock.{Duration, Time}
use neongrid.Game.Data.{Activity, Player, Rules}
use neongrid.Game.Engine.Action.{Engine, modify}
use neongrid.Game.Leave.{
  disconnect, disconnect_all, disconnect_each, disconnect_one, disconnected, drop_missing,
  end_streak, forfeit, missed, reconcile, reconcile_each, reconcile_one,
}
use neongrid.Game.Rating.{add_heat, disconnect_heat}
use neongrid.Game.Rating.Bounds.{add_heat-IsHeat}
use neongrid.Game.Rename.{move_key, rename}
use neongrid.Game.Repository.{Repository}
use neongrid.Game.Safe.{
  Any, IsRunner, OnOk-Any, Safe, Safe-bind, Safe-call, Safe-gets, Safe-if, Safe-modify, Safe-pure,
  Safe-raise_if, Safe-read, Safe-then,
}
use neongrid.Game.Safe.Steps.{
  GoodEntry, advance_locked-Safe, commit-Safe, delete_user-Safe, mark_contract_failed-Safe,
  put_user-Safe, rekey-Safe, require-Safe, save-Safe, save_world_if-Safe,
}
use neongrid.Game.Views.{top, top_each, top_one}

disconnected-IsRunner :
    (rules : Rules) (kind : Activity) (now : Time) (key : String) (p : Player)
    → IsRunner key p
    → IsRunner key (disconnected rules kind now p)
unfolding disconnected
disconnected-IsRunner rules kind now key p h = record {
  keyed = h.keyed;
  heated = add_heat-IsHeat p.heat (disconnect_heat kind);
}

end_streak-IsRunner : (key : String) (p : Player) → IsRunner key p → IsRunner key (end_streak p)
unfolding end_streak
end_streak-IsRunner key p h = record { keyed = h.keyed; heated = h.heated }

move-IsRunner :
    (key old nick : String) (progress heat : ℤ) (p : Player)
    → old ≡ key
    → IsRunner key p
    → IsRunner old
        (record p { progress_seconds = progress; heat = add_heat p.heat heat; nick = nick })
move-IsRunner key old nick progress heat p same h = record {
  keyed = h.keyed ∙ sym same;
  heated = add_heat-IsHeat p.heat heat;
}

module _ {R : Type 0} where
  modify_missing-Safe :
      (f : Engine R → Map Time) → Safe Any (modify (λ e. record e { missing_since = f e }))
  modify_missing-Safe f =
      Safe-modify _
        λ e i. record { is_map = i.is_map; runners = i.runners; few_pending = i.few_pending }

module _ {R : Type 0} ⦃repo : Repository R⦄ where
  forfeit-Safe :
      (kind : Activity) (key : String) (p : Player)
      → IsRunner key p
      → Safe {R = R} (λ r. IsRunner key r.0) (forfeit kind key p)
  unfolding forfeit
  forfeit-Safe kind key p h = Safe-if _ _ _ _ (Safe-pure _ _ h) (
      Safe-then _ _ (put_user-Safe key p h) (
        Safe-bind Any _ _ _ (mark_contract_failed-Safe _)
          λ changed _. Safe-pure _ _ (end_streak-IsRunner key p h)))

  pub disconnect-Safe :
      (nick : String) (kind : Activity) (now : Time) → Safe {R = R} Any (disconnect nick kind now)
  unfolding disconnect
  disconnect-Safe nick kind now = Safe-bind GoodEntry _ _ _ (require-Safe "" nick) λ x good.
      Safe-then _ _ (Safe-raise_if _ _) (
        Safe-bind (IsRunner x.0) _ _ _ (advance_locked-Safe x.0 x.1 now good) λ q h.
          Safe-read _ _ λ rules.
            Safe-bind (λ (r : Player × Bool). IsRunner x.0 r.0) _ _ _
              (forfeit-Safe kind x.0 _ (disconnected-IsRunner rules kind now x.0 q h))
              λ r k.
                Safe-then _ _ (commit-Safe x.0 r.0 k)
                  (Safe-then _ _ (save_world_if-Safe r.1) (Safe-pure Any _ tt)))

  disconnect_one-Safe :
      (key : String) (p : Player) (now : Time)
      → IsRunner key p
      → Safe {R = R} Any (disconnect_one key p now)
  unfolding disconnect_one
  disconnect_one-Safe key p now h = Safe-if Any _ _ _ (Safe-pure Any tt tt) (
      Safe-bind (IsRunner key) _ _ _ (advance_locked-Safe key p now h)
        λ q k. commit-Safe key _ (record { keyed = k.keyed; heated = k.heated }))

  disconnect_each-Safe :
      (users : Map Player) (now : Time)
      → Each IsRunner users
      → Safe {R = R} Any (disconnect_each users now)
  unfolding disconnect_each
  disconnect_each-Safe [] now h = Safe-pure Any tt tt
  disconnect_each-Safe ((key, p) ∷ users) now h =
      Safe-then _ _ (disconnect_one-Safe key p now h.0) (disconnect_each-Safe users now h.1)

  pub disconnect_all-Safe : (now : Time) → Safe {R = R} Any (disconnect_all now)
  unfolding disconnect_all
  disconnect_all-Safe now =
      Safe-bind (Each IsRunner) _ _ _ (Safe-gets _ _ (λ e i. i.runners))
        λ users h. Safe-then _ _ (disconnect_each-Safe users now h) (modify_missing-Safe (λ e. []))

  drop_missing-Safe :
      (key : String) (p : Player) (now : Time)
      → IsRunner key p
      → Safe {R = R} Any (drop_missing key p now)
  unfolding drop_missing
  drop_missing-Safe key p now h = Safe-then _ _ (modify_missing-Safe _) (
      Safe-bind (IsRunner key) _ _ _ (advance_locked-Safe key p now h) λ q k.
        Safe-then _ _
          (put_user-Safe key _
            (end_streak-IsRunner key _ (record { keyed = k.keyed; heated = k.heated })))
          (Safe-bind Any _ _ _ (mark_contract_failed-Safe _)
            λ changed _. Safe-then _ _ (save-Safe _) (Safe-pure Any changed tt)))

  missed-Safe :
      (o : Option Time) (grace : Duration) (now : Time) (key : String) (p : Player)
      → IsRunner key p
      → Safe {R = R} Any (missed o grace now key p)
  unfolding missed
  missed-Safe none grace now key p h =
      Safe-then _ _ (modify_missing-Safe _) (Safe-pure Any false tt)
  missed-Safe (some seen) grace now key p h =
      Safe-if Any _ _ _ (Safe-pure Any false tt) (drop_missing-Safe key p now h)

  reconcile_one-Safe :
      (present : String → Bool) (grace : Duration) (now : Time) (key : String) (p : Player)
      → IsRunner key p
      → Safe {R = R} Any (reconcile_one present grace now key p)
  unfolding reconcile_one
  reconcile_one-Safe present grace now key p h =
      Safe-if Any _ _ _ (Safe-then _ _ (modify_missing-Safe _) (Safe-pure Any false tt))
        (Safe-read _ _ λ o. missed-Safe o grace now key p h)

  reconcile_each-Safe :
      (present : String → Bool) (grace : Duration) (now : Time) (users : Map Player) (b : Bool)
      → Each IsRunner users
      → Safe {R = R} Any (reconcile_each present grace now users b)
  unfolding reconcile_each
  reconcile_each-Safe present grace now [] b h = Safe-pure Any b tt
  reconcile_each-Safe present grace now ((key, p) ∷ users) b h =
      Safe-bind Any _ _ _ (reconcile_one-Safe present grace now key p h.0)
        λ failed _. reconcile_each-Safe present grace now users (failed || b) h.1

  pub reconcile-Safe :
      (present : String → Bool) (grace : Duration) (now : Time)
      → Safe {R = R} Any (reconcile present grace now)
  unfolding reconcile
  reconcile-Safe present grace now =
      Safe-bind (Each IsRunner) _ _ _ (Safe-gets _ _ (λ e i. i.runners)) λ users h.
        Safe-bind Any _ _ _ (reconcile_each-Safe present grace now users false h)
          λ changed _. Safe-then _ _ (modify_missing-Safe _) (save_world_if-Safe changed)

  move_key-Safe :
      (rekey : Bool) (old_key new_key : String) (p : Player)
      → IsRunner old_key p
      → Safe {R = R} (λ r. IsRunner r.0.identity r.0) (move_key rekey old_key new_key p)
  unfolding move_key
  move_key-Safe rekey old_key new_key p h =
      Safe-if _ _ _ _ (Safe-pure _ _ (record { keyed = refl; heated = h.heated })) (
        Safe-then _ _ (delete_user-Safe old_key) (
          Safe-bind Any _ _ _ (rekey-Safe old_key new_key) λ changed _.
            Safe-then _ _ (Safe-call Any _ (λ s. OnOk-Any _))
              (Safe-pure _ _ (record { keyed = refl; heated = h.heated }))))

  pub rename-Safe :
      (old_nick new_nick : String) (now : Time) → Safe {R = R} Any (rename old_nick new_nick now)
  unfolding rename
  rename-Safe old_nick new_nick now = Safe-bind GoodEntry _ _ _ (require-Safe "" old_nick) λ x good.
      Safe-then _ _ (Safe-raise_if _ _) (
        Safe-read _ _ λ users.
          Safe-bind (IsRunner x.0) _ _ _ (advance_locked-Safe x.0 x.1 now good) λ q h.
            Safe-read _ _ λ rules.
              Safe-bind (λ (r : Player × Bool). IsRunner r.0.identity r.0) _ _ _
                (move_key-Safe _ x.1.identity _ _
                  (move-IsRunner x.0 x.1.identity new_nick _ (pos 4) q good.keyed h))
                λ r k.
                  Safe-then _ _ (commit-Safe r.0.identity r.0 k)
                    (Safe-then _ _ (save_world_if-Safe r.1) (Safe-pure Any _ tt)))

  top_one-Safe :
      (key : String) (p : Player) (now : Time)
      → IsRunner key p
      → Safe {R = R} Any (top_one key p now)
  unfolding top_one
  top_one-Safe key p now h =
      Safe-if Any _ _ _ (Safe-pure Any tt tt)
        (Safe-bind (IsRunner key) _ _ _ (advance_locked-Safe key p now h) λ q _. save-Safe q)

  top_each-Safe :
      (users : Map Player) (now : Time)
      → Each IsRunner users
      → Safe {R = R} Any (top_each users now)
  unfolding top_each
  top_each-Safe [] now h = Safe-pure Any tt tt
  top_each-Safe ((key, p) ∷ users) now h =
      Safe-then _ _ (top_one-Safe key p now h.0) (top_each-Safe users now h.1)

  pub top-Safe : (limit : ℤ) (now : Time) → Safe {R = R} Any (top limit now)
  unfolding top
  top-Safe limit now =
      Safe-bind (Each IsRunner) _ _ _ (Safe-gets _ _ (λ e i. i.runners))
        λ users h. Safe-then _ _ (top_each-Safe users now h) (Safe-call Any _ (λ s. OnOk-Any _))
