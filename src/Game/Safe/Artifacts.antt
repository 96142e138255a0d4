-- ===== src/Game/Safe/Artifacts.antt =====
-- The steps of artifacts keep the invariant.
use mathlib.Core.Path.{subst}
use neongrid.Base.{List, String, [], refl, sym, ◌∙◌, ◌∷◌, ◌≡◌}
use neongrid.Game.Data.{Player, equipment_slots}
use neongrid.Game.Rating.Bounds.{IsHeat}
use neongrid.Game.Repository.{Repository}
use neongrid.Game.Safe.{Any, IsRunner, Safe, Safe-bind, Safe-if, Safe-pure, Safe-step, Safe-then}
use neongrid.Game.Safe.Join.{intn-Safe}
use neongrid.Game.Safe.Steps.{save-Safe}
use neongrid.Game.Safe.World.{
  repo_call-Safe, set_user-Safe, take_pending-Safe, update_titles_locked-Safe,
}
use neongrid.Game.World.Artifacts.{
  RareItem, burn_each, burn_out_uniques, claim_first, fit_artifact, rare_loot, release_abandoned,
  release_each, retire_unique, save_if_any, steal_unique, take_artifact, unique_life_levels,
}

abbrev pub GoodBy : {A : Type 0} → String → A × Player → Type 0
GoodBy key r = IsRunner key r.1

pub same_heat :
    (key : String) (p q : Player)
    → IsRunner key p
    → q.identity ≡ p.identity
    → q.heat ≡ p.heat
    → IsRunner key q
same_heat key p q h same heat = record {
  keyed = same ∙ h.keyed;
  heated = subst IsHeat (sym heat) h.heated;
}

-- The two runners of a bout stay runners of their keys.
abbrev pub GoodPair : {A : Type 0} → String → String → A × (Player × Player) → Type 0
GoodPair winner loser r = IsRunner winner r.1.0 × IsRunner loser r.1.1

module _ {R : Type 0} where
  unique_life_levels-Safe : Safe {R = R} Any unique_life_levels
  unfolding unique_life_levels
  unique_life_levels-Safe = Safe-step _ _ (intn-Safe 5) λ n. Safe-pure Any _ tt

  fit_artifact-Safe :
      (key : String) (p : Player) (c : RareItem)
      → IsRunner key p
      → Safe {R = R} (GoodBy key) (fit_artifact key p c)
  unfolding fit_artifact
  fit_artifact-Safe key p c h = Safe-step _ _ unique_life_levels-Safe λ life.
      Safe-bind (IsRunner key) _ _ _ (set_user-Safe key _ (same_heat key p _ h refl refl)) λ q k.
        Safe-bind (IsRunner key) _ _ _ (update_titles_locked-Safe key q k) λ r m. Safe-pure _ _ m

module _ {R : Type 0} ⦃repo : Repository R⦄ where
  claim_first-Safe :
      (key : String) (p : Player) (exclude : String) (cs : List RareItem)
      → IsRunner key p
      → Safe {R = R} (GoodBy key) (claim_first key p exclude cs)
  unfolding claim_first
  claim_first-Safe key p exclude [] h = Safe-pure _ _ h
  claim_first-Safe key p exclude (c ∷ cs) h =
      let next = claim_first-Safe key p exclude cs h in
      Safe-if _ _ _ _ next (
        Safe-step _ _ (repo_call-Safe _)
          λ claimed. Safe-if _ _ _ _ (fit_artifact-Safe key p c h) next)

  pub rare_loot-Safe :
      (key : String) (p : Player) (exclude : String)
      → IsRunner key p
      → Safe {R = R} (GoodBy key) (rare_loot key p exclude)
  unfolding rare_loot
  rare_loot-Safe key p exclude h = Safe-step _ _ (intn-Safe 100) λ roll.
      Safe-if _ _ _ _ (Safe-pure _ _ h)
        (Safe-step _ _ (intn-Safe _) λ start. claim_first-Safe key p exclude _ h)

  retire_unique-Safe :
      (key : String) (p : Player) (slot : String)
      → IsRunner key p
      → Safe {R = R} (GoodBy key) (retire_unique key p slot)
  unfolding retire_unique
  retire_unique-Safe key p slot h = Safe-then _ _ (repo_call-Safe _) (
      Safe-bind (IsRunner key) _ _ _ (set_user-Safe key _ (same_heat key p _ h refl refl))
        λ q k. Safe-pure _ _ k)

  release_each-Safe :
      (key : String) (p : Player) (slots : List String)
      → IsRunner key p
      → Safe {R = R} (GoodBy key) (release_each key p slots)
  unfolding release_each
  release_each-Safe key p [] h = Safe-pure _ _ h
  release_each-Safe key p (slot ∷ slots) h = Safe-if _ _ _ _ (release_each-Safe key p slots h) (
      Safe-bind (GoodBy key) _ _ _ (retire_unique-Safe key p slot h) λ r k.
        Safe-bind (GoodBy key) _ _ _ (release_each-Safe key r.1 slots k) λ s m. Safe-pure _ _ m)

  save_if_any-Safe :
      (messages : List String) (p : Player) → Safe {R = R} Any (save_if_any messages p)
  unfolding save_if_any
  save_if_any-Safe [] p = Safe-pure Any tt tt
  save_if_any-Safe (m ∷ ms) p = save-Safe p

  pub release_abandoned-Safe :
      (key : String) (p : Player) → IsRunner key p → Safe {R = R} Any (release_abandoned key p)
  unfolding release_abandoned
  release_abandoned-Safe key p h =
      Safe-bind (GoodBy key) _ _ _ (release_each-Safe key p equipment_slots h)
        λ r k. Safe-then _ _ (save_if_any-Safe r.0 r.1) (Safe-pure Any _ tt)

  burn_each-Safe :
      (key : String) (p : Player) (slots : List String)
      → IsRunner key p
      → Safe {R = R} (GoodBy key) (burn_each key p slots)
  unfolding burn_each
  burn_each-Safe key p [] h = Safe-pure _ _ h
  burn_each-Safe key p (slot ∷ slots) h = Safe-if _ _ _ _ (burn_each-Safe key p slots h) (
      Safe-bind (GoodBy key) _ _ _ (retire_unique-Safe key p slot h) λ r k.
        Safe-bind (GoodBy key) _ _ _ (rare_loot-Safe key r.1 _ k) λ s m.
          Safe-bind (GoodBy key) _ _ _ (burn_each-Safe key s.1 slots m) λ t n. Safe-pure _ _ n)

  pub burn_out_uniques-Safe :
      (key : String) (p : Player)
      → IsRunner key p
      → Safe {R = R} (GoodBy key) (burn_out_uniques key p)
  unfolding burn_out_uniques
  burn_out_uniques-Safe key p h =
      Safe-bind (GoodBy key) _ _ _ (burn_each-Safe key p equipment_slots h) λ r k.
        Safe-then _ _ (save_if_any-Safe r.0 r.1)
          (Safe-step _ _ take_pending-Safe λ carried. Safe-pure _ _ k)

  take_artifact-Safe :
      (wk : String) (w : Player) (lk : String) (l : Player) (slot : String)
      → IsRunner wk w
      → IsRunner lk l
      → Safe {R = R} (GoodPair wk lk) (take_artifact wk w lk l slot)
  unfolding take_artifact
  take_artifact-Safe wk w lk l slot h k = Safe-then _ _ (repo_call-Safe _) (
      Safe-bind (IsRunner wk) _ _ _ (set_user-Safe wk _ (same_heat wk w _ h refl refl)) λ w1 h1.
        Safe-bind (IsRunner lk) _ _ _ (set_user-Safe lk _ (same_heat lk l _ k refl refl)) λ l1 k1.
          Safe-bind (IsRunner wk) _ _ _ (update_titles_locked-Safe wk w1 h1)
            λ w2 h2. Safe-pure _ _ (h2, k1))

  pub steal_unique-Safe :
      (wk : String) (w : Player) (lk : String) (l : Player)
      → IsRunner wk w
      → IsRunner lk l
      → Safe {R = R} (GoodPair wk lk) (steal_unique wk w lk l)
  unfolding steal_unique
  steal_unique-Safe wk w lk l h k = Safe-if _ _ _ _ (Safe-pure _ _ (h, k)) (
      Safe-step _ _ (intn-Safe 100) λ roll.
        Safe-if _ _ _ _ (Safe-pure _ _ (h, k))
          (Safe-step _ _ (intn-Safe _) λ i. take_artifact-Safe wk w lk l _ h k))
