-- ===== src/Game/Profile/Window.antt =====
-- A runner that has chosen its faction in a faction window: the steps after which it still has that
-- faction, chosen at that time, and the window is the same.
use neongrid.Base.{
  Bool, List, Option, String, false, if-both, if◌then◌else◌, none, some, true, ◌∙◌, ◌≡◌,
}
use neongrid.Base.Int.{ℤ}
use neongrid.Base.Map.{Each, Each-put, Map}
use neongrid.Clock.{Time}
use neongrid.Game.Contract.{dropped, is_in, mark_contract_failed, set_contract}
use neongrid.Game.Data.{Contract, Player}
use neongrid.Game.Engine.Action.{Engine, call, modify, save, save_world, save_world_if}
use neongrid.Game.Engine.Finds.{Holds, OnSome, find_locked-Each}
use neongrid.Game.Engine.Guards.{
  Any, Guards, Guards-bind, Guards-call, Guards-gets, Guards-if, Guards-modify, Guards-pure,
  Guards-raise, Guards-read, Guards-then, OnOk, OnOk-Any,
}
use neongrid.Game.Engine.Users.{
  Entry, advance_locked, commit, note_climbs, or_not_found, put_user, queue_locked, require,
}
use neongrid.Game.Progress.{advance_player}
use neongrid.Game.Progress.Kept.{advance_player-Kept}
use neongrid.Game.Repository.{Error, Repository, Result, ok}

-- Under `key` stands a runner of the faction `f`, chosen at `t`.
abbrev pub Alike : String → String → Time → String → Player → Type 0
Alike key f t k p = k ≡ key → (p.faction ≡ f) × (p.last_faction_swap_at ≡ t)

-- Whoever stands under `key` has the faction `f`, chosen at `t`, and the window began at `s`.
pub record Chosen (key f : String) (t s : Time) {R : Type 0} (e : Engine R) : Type 0 where
  pub alike : Each (Alike key f t) e.users
  pub started : e.world.faction_swap_started_at ≡ s

module _ {R : Type 0} {key f : String} {t s : Time} where
  or_not_found-Stays :
      (o : Option Entry)
      → OnSome (Holds (Alike key f t)) o
      → Guards {R = R} (Chosen key f t s) (Holds (Alike key f t)) (or_not_found o)
  unfolding or_not_found
  or_not_found-Stays none h = Guards-raise _ Error.runner_not_found
  or_not_found-Stays (some x) h = Guards-pure _ x h

  pub require-Stays :
      (identity nick : String)
      → Guards {R = R} (Chosen key f t s) (Holds (Alike key f t)) (require identity nick)
  unfolding require
  require-Stays identity nick =
      Guards-bind (OnSome (Holds (Alike key f t))) _ _ _
        (Guards-gets _ _ (λ e i. find_locked-Each (Alike key f t) identity nick e.users i.alike))
        or_not_found-Stays

  pub put_user-Stays :
      (k : String) (p : Player)
      → Alike key f t k p
      → Guards {R = R} (Chosen key f t s) Any (put_user k p)
  unfolding put_user
  put_user-Stays k p h =
      Guards-modify _ λ e i. record {
        alike = Each-put (Alike key f t) k p e.users i.alike h;
        started = i.started;
      }

  pub queue-Stays :
      (messages : List String) → Guards {R = R} (Chosen key f t s) Any (queue_locked messages)
  unfolding queue_locked
  queue-Stays messages = Guards-modify _ λ e i. record { alike = i.alike; started = i.started }

  note_climbs-Stays :
      (identity : String) (n : ℤ) → Guards {R = R} (Chosen key f t s) Any (note_climbs identity n)
  unfolding note_climbs
  note_climbs-Stays identity n =
      Guards-modify _ λ e i. record { alike = i.alike; started = i.started }

  pub missing-Stays :
      (g : Engine R → Map Time)
      → Guards (Chosen key f t s) Any (modify (λ e. record e { missing_since = g e }))
  missing-Stays g = Guards-modify _ λ e i. record { alike = i.alike; started = i.started }

  pub advance-Stays :
      (k : String) (p : Player) (now : Time)
      → Alike key f t k p
      → Guards {R = R} (Chosen key f t s) (Alike key f t k) (advance_locked k p now)
  unfolding advance_locked
  advance-Stays k p now h = Guards-read _ _ λ rules.
      let q = (advance_player p now rules).0 in
      let kept = advance_player-Kept p now rules in
      let same : Alike key f t k q = λ here.
        let (faction, swapped) = h here in (kept.faction ∙ faction, kept.swapped ∙ swapped) in
      Guards-then _ _ (put_user-Stays k q same) (
        Guards-then _ _ (queue-Stays _) (
          Guards-then _ _ (Guards-if Any _ _ _ (note_climbs-Stays _ _) (Guards-pure Any tt tt))
            (Guards-pure _ q same)))

  pub fail_contract-Stays :
      (identity : String) → Guards {R = R} (Chosen key f t s) Any (mark_contract_failed identity)
  unfolding mark_contract_failed set_contract
  fail_contract-Stays identity = record { at = λ e i. failed e.world.contract e i }
    where
      failed :
          (o : Option Contract) (e : Engine R)
          → Chosen key f t s e
          → let r : Result Bool × Engine R = elim o [
            | none ↦ (ok false, e)
            | some c ↦
                if c.failed
                then (ok false, e)
                else if is_in identity c.participants
                then (ok true, set_contract (dropped identity e.users c) e)
                else (ok false, e)
          ] in
            Chosen key f t s r.1 × OnOk Any r.0
      failed none e i = (i, tt)
      failed (some c) e i =
          let P : Result Bool × Engine R → Type 0 = λ r. Chosen key f t s r.1 × OnOk Any r.0 in
          if-both P c.failed _ _ (i, tt)
            (if-both P (is_in identity c.participants) _ _
              (record { alike = i.alike; started = i.started }, tt) (i, tt))

module _ {R : Type 0} ⦃repo : Repository R⦄ {key f : String} {t s : Time} where
  pub save-Stays : (p : Player) → Guards {R = R} (Chosen key f t s) Any (save p)
  unfolding save
  save-Stays p =
      Guards-call Any (repo.save p) (λ e s i. record { alike = i.alike; started = i.started })
        (λ s. OnOk-Any (repo.save p s).0)

  pub commit-Stays :
      (k : String) (p : Player)
      → Alike key f t k p
      → Guards {R = R} (Chosen key f t s) Any (commit k p)
  unfolding commit
  commit-Stays k p h = Guards-then _ _ (put_user-Stays k p h) (save-Stays p)

  pub save_world-Stays : Guards {R = R} (Chosen key f t s) Any save_world
  unfolding save_world call
  save_world-Stays = record {
    at = λ e i. (record { alike = i.alike; started = i.started }, OnOk-Any _);
  }

  pub save_world_if-Stays : (b : Bool) → Guards {R = R} (Chosen key f t s) Any (save_world_if b)
  unfolding save_world_if
  save_world_if-Stays b = Guards-if Any b _ _ save_world-Stays (Guards-pure Any tt tt)
