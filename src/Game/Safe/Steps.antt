-- ===== src/Game/Safe/Steps.antt =====
-- The steps that every method is built from keep the invariant.
use text.Mathlib.Text.{◌==◌ as text_eq}
use neongrid.Base.{
  Bool, List, Option, String, arith, false, if-both, if◌then◌else◌, length, length-drop, none, some,
  true, ◌++◌, ◌-◌, ◌∙◌,
}
use neongrid.Base.Int.{ℤ}
use neongrid.Base.Map.{Each, Each-delete, Each-put, Map, delete-IsMap, get, put-IsMap}
use neongrid.Clock.{Time}
use neongrid.Game.Contract.{
  dropped, is_in, mark_contract_failed, rekey_contract_participant, renamed, set_contract,
}
use neongrid.Game.Data.{Contract, Player}
use neongrid.Game.Engine.Action.{Engine, pure, save, save_world, save_world_if}
use neongrid.Game.Engine.Finds.{
  OnSome, find_connected-Each, find_locked-Each, get-Each, migratable_guest-Each,
}
use neongrid.Game.Engine.Guards.{Any, OnOk, OnOk-Any}
use neongrid.Game.Engine.Users.{
  Entry, advance_locked, commit, delete_user, find_connected, find_locked, migratable_guest,
  note_climbs, or_not_found, put_user, queue_locked, require,
}
use neongrid.Game.Progress.{advance_player}
use neongrid.Game.Progress.Kept.{advance_player-Kept}
use neongrid.Game.Repository.{Error, Repository, Result, ok}
use neongrid.Game.Safe.{
  Inv, IsRunner, Safe, Safe-bind, Safe-call, Safe-gets, Safe-if, Safe-modify, Safe-pure, Safe-raise,
}
use neongrid.Game.Start.Boot.{new}

abbrev pub GoodEntry : Entry → Type 0
GoodEntry x = IsRunner x.0 x.1

pub find_connected-Good :
    (nick : String) (users : Map Player)
    → Each IsRunner users
    → OnSome GoodEntry (find_connected nick users)
find_connected-Good = find_connected-Each IsRunner

pub get-Good :
    (key : String) (users : Map Player)
    → Each IsRunner users
    → OnSome (IsRunner key) (get key users)
get-Good = get-Each IsRunner

pub find_locked-Good :
    (identity nick : String) (users : Map Player)
    → Each IsRunner users
    → OnSome GoodEntry (find_locked identity nick users)
find_locked-Good = find_locked-Each IsRunner

pub migratable_guest-Good :
    (nick account : String) (users : Map Player)
    → Each IsRunner users
    → OnSome GoodEntry (migratable_guest nick account users)
migratable_guest-Good = migratable_guest-Each IsRunner

module _ {R : Type 0} where
  or_not_found-Safe :
      (o : Option Entry) → OnSome GoodEntry o → Safe {R = R} GoodEntry (or_not_found o)
  unfolding or_not_found
  or_not_found-Safe none h = Safe-raise GoodEntry Error.runner_not_found
  or_not_found-Safe (some x) h = Safe-pure GoodEntry x h

  pub require-Safe : (identity nick : String) → Safe {R = R} GoodEntry (require identity nick)
  unfolding require
  require-Safe identity nick =
      Safe-bind (OnSome GoodEntry) GoodEntry _ _
        (Safe-gets _ _ (λ e i. find_locked-Good identity nick e.users i.runners)) or_not_found-Safe

  pub put_user-Safe :
      (key : String) (p : Player) → IsRunner key p → Safe {R = R} Any (put_user key p)
  unfolding put_user
  put_user-Safe key p h = Safe-modify _ λ e i. record {
    is_map = put-IsMap key p e.users i.is_map;
    runners = Each-put IsRunner key p e.users i.runners h;
    few_pending = i.few_pending;
  }

  pub delete_user-Safe : (key : String) → Safe {R = R} Any (delete_user key)
  unfolding delete_user
  delete_user-Safe key = Safe-modify _ λ e i. record {
    is_map = delete-IsMap key e.users i.is_map;
    runners = Each-delete IsRunner key e.users i.runners;
    few_pending = i.few_pending;
  }

  pub queue_locked-Safe : (messages : List String) → Safe {R = R} Any (queue_locked messages)
  unfolding queue_locked
  queue_locked-Safe messages = Safe-modify _ λ e i. record {
    is_map = i.is_map;
    runners = i.runners;
    few_pending =
        omega (arith, length-drop (length (e.pending ++ messages) - 50) (e.pending ++ messages));
  }

  pub note_climbs-Safe : (identity : String) (n : ℤ) → Safe {R = R} Any (note_climbs identity n)
  unfolding note_climbs
  note_climbs-Safe identity n =
      Safe-modify _
        λ e i. record { is_map = i.is_map; runners = i.runners; few_pending = i.few_pending }

  pub advance_locked-Safe :
      (key : String) (p : Player) (now : Time)
      → IsRunner key p
      → Safe {R = R} (IsRunner key) (advance_locked key p now)
  unfolding advance_locked
  advance_locked-Safe key p now h =
      Safe-bind Any (IsRunner key) _ _ (Safe-gets Any _ (λ e i. tt)) λ rules _.
        let q = (advance_player p now rules).0 in
        let kept = advance_player-Kept p now rules in
        let good : IsRunner key q = record {
          keyed = kept.identity ∙ h.keyed;
          heated = kept.heat h.heated;
        } in
        Safe-bind Any (IsRunner key) _ _ (put_user-Safe key q good) λ _ _.
          Safe-bind Any (IsRunner key) _ _ (queue_locked-Safe _) λ _ _.
            Safe-bind Any (IsRunner key) _ _
              (Safe-if Any _ _ _ (note_climbs-Safe _ _) (Safe-pure Any tt tt))
              λ _ _. Safe-pure (IsRunner key) q good

  pub set_contract-Inv : (c : Contract) (e : Engine R) → Inv e → Inv (set_contract c e)
  unfolding set_contract
  set_contract-Inv c e i = record {
    is_map = i.is_map;
    runners = i.runners;
    few_pending = i.few_pending;
  }

  pub mark_contract_failed-Safe :
      (identity : String) → Safe {R = R} Any (mark_contract_failed identity)
  unfolding mark_contract_failed
  mark_contract_failed-Safe identity = record { at = λ e i. marked e.world.contract e i }
    where
      marked :
          (o : Option Contract) (e : Engine R)
          → Inv e
          → let r : Result Bool × Engine R = elim o [
            | none ↦ (ok false, e)
            | some c ↦
                if c.failed
                then (ok false, e)
                else if is_in identity c.participants
                then (ok true, set_contract (dropped identity e.users c) e)
                else (ok false, e)
          ] in
            Inv r.1 × OnOk Any r.0
      marked none e i = (i, tt)
      marked (some c) e i =
          let P : Result Bool × Engine R → Type 0 = λ r. Inv r.1 × OnOk Any r.0 in
          if-both P c.failed _ _ (i, tt)
            (if-both P (is_in identity c.participants) _ _ (set_contract-Inv _ e i, tt) (i, tt))

  pub rekey-Safe : (old new : String) → Safe {R = R} Any (rekey_contract_participant old new)
  unfolding rekey_contract_participant
  rekey-Safe old new = record { at = λ e i. rekeyed e.world.contract e i }
    where
      rekeyed :
          (o : Option Contract) (e : Engine R)
          → Inv e
          → let r : Result Bool × Engine R = elim o [
            | none ↦ (ok false, e)
            | some c ↦ if text_eq old new then (ok false, e) else (
              ok (is_in old c.participants),
              set_contract (record c { participants = renamed old new c.participants }) e,
            )
          ] in
            Inv r.1 × OnOk Any r.0
      rekeyed none e i = (i, tt)
      rekeyed (some c) e i =
          if-both (λ (r : Result Bool × Engine R). Inv r.1 × OnOk Any r.0) (text_eq old new) _ _
            (i, tt) (set_contract-Inv _ e i, tt)

module _ {R : Type 0} ⦃repo : Repository R⦄ where
  pub save-Safe : (p : Player) → Safe {R = R} Any (save p)
  unfolding save
  save-Safe p = Safe-call Any (repo.save p) (λ s. OnOk-Any (repo.save p s).0)

  pub commit-Safe : (key : String) (p : Player) → IsRunner key p → Safe {R = R} Any (commit key p)
  unfolding commit
  commit-Safe key p h = Safe-bind Any Any _ _ (put_user-Safe key p h) (λ _ _. save-Safe p)

  pub save_world_if-Safe : (b : Bool) → Safe {R = R} Any (save_world_if b)
  unfolding save_world_if save_world
  save_world_if-Safe b = record { at = λ e i. saved b e i }
    where
      saved :
          (b : Bool) (e : Engine R)
          → Inv e
          → let r = (if b then save_world else pure tt) e in Inv r.1 × OnOk Any r.0
      saved true e i = (Safe-call Any (repo.save_world_state e.world) (λ s. OnOk-Any _)).at e i
      saved false e i = (Safe-pure {R = R} Any tt tt).at e i
