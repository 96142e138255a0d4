-- ===== src/Game/World/Raid/Ends.antt =====
-- A raid ends when its time has come.
use mathlib.Core.Path.{subst}
use neongrid.Base.{
  Bool, Bool-cases, Option, Option-cases, String, [], inl, inr, none, refl, some, sym, true, ◌∷◌,
  ◌≡◌,
}
use neongrid.Base.Map.{Map}
use neongrid.Clock.{Time, before}
use neongrid.Game.Data.{Player, Raid}
use neongrid.Game.Engine.Action.{Engine}
use neongrid.Game.Engine.Leaves.{Keeps, Keeps-bind, Keeps-pure, Leaves, Leaves-modify, Leaves-then}
use neongrid.Game.Repository.{Repository}
use neongrid.Game.World.Keeps.{
  Aside, Keeps-advance, Keeps-commit, Keeps-gets, Keeps-if, Keeps-intn, Keeps-save, Keeps-score,
  Keeps-set_user, Keeps-titles,
}
use neongrid.Game.World.Raid.{assault, muster, resolve_raid, reward_each, reward_one, run_raid}
use neongrid.Game.World.Steps.{edit_world}

-- No raid stands whose time has come.
abbrev pub NoneDue : Option Raid → Time → Type 0
NoneDue none now = Unit
NoneDue (some raid) now = before now raid.resolves_at ≡ true

abbrev NoRaid : {R : Type 0} → Engine R → Type 0
NoRaid e = e.world.raid ≡ none

module _ {R : Type 0} where
  aside : Aside {R = R} NoRaid
  aside = record {
    users = λ e u h. h;
    pending = λ e p h. h;
    bulletin = λ e b h. h;
    week = λ e w h. h;
    store = λ e s h. h;
    rng = λ e r h. h;
  }

  muster-Keeps : (now : Time) (users : Map Player) → Keeps {R = R} NoRaid (muster now users)
  unfolding muster
  muster-Keeps now [] = Keeps-pure _
  muster-Keeps now ((key, p) ∷ users) = Keeps-if aside _ _ _ (muster-Keeps now users) (
      Keeps-bind _ _ (Keeps-advance aside key p now)
        λ q. Keeps-bind _ _ (muster-Keeps now users) λ team. Keeps-pure _)

module _ {R : Type 0} ⦃repo : Repository R⦄ where
  reward_one-Keeps :
      (success : Bool) (key : String) (p : Player) → Keeps {R = R} NoRaid (reward_one success key p)
  unfolding reward_one
  reward_one-Keeps success key p = Keeps-bind _ _ (Keeps-gets aside _) λ rules.
      Keeps-if aside success _ _
        (Keeps-bind _ _ (Keeps-set_user aside key _) λ q.
          Keeps-bind _ _ (Keeps-score aside q _)
            λ scored. Keeps-bind _ _ (Keeps-titles aside key q) λ r. Keeps-save aside r)
        (Keeps-commit aside key _)

  reward_each-Keeps :
      (success : Bool) (team : Map Player) → Keeps {R = R} NoRaid (reward_each success team)
  unfolding reward_each
  reward_each-Keeps success [] = Keeps-pure tt
  reward_each-Keeps success ((key, p) ∷ team) =
      Keeps-bind _ _ (reward_one-Keeps success key p) λ done. reward_each-Keeps success team

  assault-Keeps : (raid : Raid) (team : Map Player) → Keeps {R = R} NoRaid (assault raid team)
  assault-Keeps raid [] = Keeps-pure _
  assault-Keeps raid (x ∷ team) =
      Keeps-bind _ _ (Keeps-intn aside 76)
        λ roll. Keeps-bind _ _ (reward_each-Keeps _ (x ∷ team)) λ done. Keeps-pure _

  run_raid-Leaves : (now : Time) (raid : Raid) → Leaves {R = R} NoRaid (run_raid now raid)
  unfolding run_raid edit_world
  run_raid-Leaves now raid = Leaves-then _ _ (Leaves-modify _ λ e. refl) λ cleared.
      Keeps-bind _ _ (Keeps-gets aside _)
        λ users. Keeps-bind _ _ (muster-Keeps now users) λ team. assault-Keeps raid team

  -- After the raids have been looked at, at any time and whatever the store answers, no raid stands
  -- whose time has come.
  pub resolve_raid_settles :
      (now : Time) (e : Engine R) → NoneDue (resolve_raid now e).1.world.raid now
  unfolding resolve_raid
  resolve_raid_settles now e = elim (Option-cases e.world.raid) [
    | inl quiet ↦ rw quiet tt
    | inr (raid, stands) ↦ elim (Bool-cases (before now raid.resolves_at)) [
      | inl early ↦ rw (stands, early) early
      | inr late ↦
          rw (stands, late)
            (subst (λ o. NoneDue o now) (sym ((run_raid-Leaves now raid).leaves _)) tt)
    ]
  ]
