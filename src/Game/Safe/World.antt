-- ===== src/Game/Safe/World.antt =====
-- The steps that the world events share keep the invariant.
use mathlib.Core.Path.{subst}
use neongrid.Base.{
  Bool, List, String, [], arith, false, if-both, if◌then◌else◌, sym, ℕ, ◌==◌, ◌∙◌, ◌∷◌, ◌≡◌,
}
use neongrid.Base.Int.{ℤ}
use neongrid.Game.Data.{Player, WorldState}
use neongrid.Game.Engine.Action.{call, save_world}
use neongrid.Game.Engine.Users.{take_pending}
use neongrid.Game.Flavor.{pick, place_in}
use neongrid.Game.Rating.{has_scar}
use neongrid.Game.Rating.Bounds.{IsHeat}
use neongrid.Game.Repository.{Repository, Result}
use neongrid.Game.Safe.{
  Any, IsRunner, OnOk-Any, Safe, Safe-bind, Safe-call, Safe-if, Safe-modify, Safe-pure, Safe-step,
  Safe-then,
}
use neongrid.Game.Safe.Join.{intn-Safe}
use neongrid.Game.Safe.Steps.{put_user-Safe, queue_locked-Safe}
use neongrid.Game.Titles.{add_scar, update_titles}
use neongrid.Game.Titles.Laws.{update_titles_only}
use neongrid.Game.World.{remember}
use neongrid.Game.World.Encounter.{roll_scar}
use neongrid.Game.World.Steps.{edit_world, note_win, score_faction, set_user, update_titles_locked}

update_titles-IsRunner :
    (key : String) (p : Player) → IsRunner key p → IsRunner key (update_titles p).0
update_titles-IsRunner key p h =
    subst (IsRunner key) (sym (update_titles_only p))
      (record { keyed = h.keyed; heated = h.heated })

add_scar-IsRunner :
    (key : String) (p : Player) (scar : String) → IsRunner key p → IsRunner key (add_scar p scar).0
unfolding add_scar
add_scar-IsRunner key p scar h =
    if-both (λ (r : Player × Bool). IsRunner key r.0) (has_scar p scar) _ _ h
      (record { keyed = h.keyed; heated = h.heated })

pub scar_if-IsRunner :
    (key : String) (p : Player) (scar : String) (b : Bool)
    → IsRunner key p
    → IsRunner key (if b then add_scar p scar else (p, false)).0
scar_if-IsRunner key p scar b h =
    if-both (λ (r : Player × Bool). IsRunner key r.0) b _ _ (add_scar-IsRunner key p scar h) h

-- A runner with another Heat in range.
pub reheated :
    (key : String) (p q : Player)
    → IsRunner key p
    → q.identity ≡ p.identity
    → IsHeat q.heat
    → IsRunner key q
reheated key p q h same heat = record { keyed = same ∙ h.keyed; heated = heat }

module _ {R : Type 0} where
  pub set_user-Safe :
      (key : String) (p : Player) → IsRunner key p → Safe {R = R} (IsRunner key) (set_user key p)
  unfolding set_user
  set_user-Safe key p h = Safe-then _ _ (put_user-Safe key p h) (Safe-pure (IsRunner key) p h)

  pub edit_world-Safe : (f : WorldState → WorldState) → Safe {R = R} Any (edit_world f)
  unfolding edit_world
  edit_world-Safe f =
      Safe-modify _
        λ e i. record { is_map = i.is_map; runners = i.runners; few_pending = i.few_pending }

  pub update_titles_locked-Safe :
      (key : String) (p : Player)
      → IsRunner key p
      → Safe {R = R} (IsRunner key) (update_titles_locked key p)
  unfolding update_titles_locked
  update_titles_locked-Safe key p h =
      Safe-then _ _ (queue_locked-Safe _) (set_user-Safe key _ (update_titles-IsRunner key p h))

  pub score_faction-Safe : (p : Player) (n : ℤ) → Safe {R = R} Any (score_faction p n)
  unfolding score_faction
  score_faction-Safe p n = Safe-if Any _ _ _ (Safe-pure Any tt tt) (edit_world-Safe _)

  pub note_win-Safe : (identity : String) → Safe {R = R} Any (note_win identity)
  unfolding note_win
  note_win-Safe identity = edit_world-Safe _

  pub take_pending-Safe : Safe {R = R} Any take_pending
  unfolding take_pending
  take_pending-Safe = record {
    at = λ e i. (record { is_map = i.is_map; runners = i.runners; few_pending = omega arith }, tt);
  }

  pub pick-Safe : (pool : List String) → Safe {R = R} Any (pick pool)
  unfolding pick
  pick-Safe pool = Safe-step _ _ (intn-Safe _) λ i. Safe-pure Any _ tt

  pub place_in-Safe : (district : String) → Safe {R = R} Any (place_in district)
  unfolding place_in
  place_in-Safe district = Safe-if Any _ _ _ (pick-Safe _) (Safe-pure Any _ tt)

  pub roll_scar-Safe :
      (key : String) (p : Player) (n : ℕ) (scar text : String)
      → IsRunner key p
      → Safe {R = R} (λ r. IsRunner key r.1) (roll_scar key p n scar text)
  unfolding roll_scar
  roll_scar-Safe key p n scar text h = Safe-step _ _ (intn-Safe n) λ roll.
      Safe-bind (IsRunner key) _ _ _
        (set_user-Safe key _ (scar_if-IsRunner key p scar (roll == 0) h)) λ q k. Safe-pure _ _ k

module _ {R : Type 0} ⦃repo : Repository R⦄ where
  pub save_world-Safe : Safe {R = R} Any save_world
  unfolding save_world
  save_world-Safe = record {
    at = λ e i. (Safe-call Any (repo.save_world_state e.world) (λ s. OnOk-Any _)).at e i;
  }

  pub remember-Safe : (messages : List String) → Safe {R = R} Any (remember messages)
  unfolding remember
  remember-Safe [] = Safe-pure Any tt tt
  remember-Safe (m ∷ ms) =
      Safe-then _ _
        (Safe-modify _
          λ e i. record { is_map = i.is_map; runners = i.runners; few_pending = i.few_pending })
        save_world-Safe

  pub repo_call-Safe : {A : Type 0} (f : R → Result A × R) → Safe {R = R} Any (call f)
  repo_call-Safe f = Safe-call Any f (λ s. OnOk-Any _)
