-- ===== src/Game/Safe/Profile.antt =====
-- The profile commands and what is said keep the invariant of the engine.
use neongrid.Base.{Bool, Option, String, false, if-both, length, none, some}
use neongrid.Base.Int.{pos, ℤ}
use neongrid.Base.Text.{equal_fold}
use neongrid.Clock.{Time}
use neongrid.Game.Data.{Activity, Player}
use neongrid.Game.Engine.Action.{Engine, pure, ◌>>◌}
use neongrid.Game.Engine.Guards.{Any, OnOk}
use neongrid.Game.Engine.Users.{commit}
use neongrid.Game.Profile.{
  activity, raise_some, set_alias, set_faction, set_stance, set_title, status, transmit,
}
use neongrid.Game.Repository.{Error, Repository, Result}
use neongrid.Game.Safe.{
  Inv, IsRunner, Safe, Safe-bind, Safe-pure, Safe-raise, Safe-raise_if, Safe-read, Safe-then,
}
use neongrid.Game.Safe.Steps.{GoodEntry, advance_locked-Safe, commit-Safe, require-Safe, save-Safe}

module _ {R : Type 0} ⦃repo : Repository R⦄ where
  -- A runner with a changed profile is written back and returned.
  commit_and_return :
      (key : String) (q : Player) → IsRunner key q → Safe {R = R} Any (commit key q >> pure q)
  commit_and_return key q h = Safe-then _ _ (commit-Safe key q h) (Safe-pure Any q tt)

  pub set_alias-Safe :
      (identity nick name : String) (now : Time)
      → Safe {R = R} Any (set_alias identity nick name now)
  unfolding set_alias
  set_alias-Safe identity nick name now = Safe-then _ _ (Safe-raise_if _ _) (
      Safe-bind GoodEntry _ _ _ (require-Safe identity nick) λ x good. Safe-read _ _ λ users.
        Safe-then _ _ (Safe-raise_if _ _) (
          Safe-bind (IsRunner x.0) _ _ _ (advance_locked-Safe x.0 x.1 now good)
            λ q h. commit_and_return x.0 _ (record { keyed = h.keyed; heated = h.heated })))

  pub set_title-Safe :
      (identity nick name : String) (now : Time)
      → Safe {R = R} Any (set_title identity nick name now)
  unfolding set_title
  set_title-Safe identity nick name now =
      Safe-bind GoodEntry _ _ _ (require-Safe identity nick) λ x good.
        Safe-then _ _ (Safe-raise_if _ _) (
          Safe-bind (IsRunner x.0) _ _ _ (advance_locked-Safe x.0 x.1 now good)
            λ q h. commit_and_return x.0 _ (record { keyed = h.keyed; heated = h.heated }))

  raise_some-Safe : (o : Option Error) → Safe {R = R} Any (raise_some o)
  unfolding raise_some
  raise_some-Safe none = Safe-pure Any tt tt
  raise_some-Safe (some x) = Safe-raise Any x

  pub set_faction-Safe :
      (identity nick name : String) (now : Time)
      → Safe {R = R} Any (set_faction identity nick name now)
  unfolding set_faction
  set_faction-Safe identity nick name now = Safe-then _ _ (Safe-raise_if _ _) (
      Safe-bind GoodEntry _ _ _ (require-Safe identity nick) λ x good. Safe-read _ _ λ world.
        Safe-then _ _ (raise_some-Safe _) (
          Safe-bind (IsRunner x.0) _ _ _ (advance_locked-Safe x.0 x.1 now good)
            λ q h. commit_and_return x.0 _ (record { keyed = h.keyed; heated = h.heated })))

  pub set_stance-Safe :
      (identity nick name : String) (now : Time)
      → Safe {R = R} Any (set_stance identity nick name now)
  unfolding set_stance
  set_stance-Safe identity nick name now = Safe-then _ _ (Safe-raise_if _ _) (
      Safe-bind GoodEntry _ _ _ (require-Safe identity nick) λ x good.
        Safe-bind (IsRunner x.0) _ _ _ (advance_locked-Safe x.0 x.1 now good)
          λ q h. commit_and_return x.0 _ (record { keyed = h.keyed; heated = h.heated }))

  pub status-Safe :
      (identity nick : String) (now : Time) → Safe {R = R} Any (status identity nick now)
  unfolding status
  status-Safe identity nick now = Safe-bind GoodEntry _ _ _ (require-Safe identity nick) λ x good.
      Safe-bind (IsRunner x.0) _ _ _ (advance_locked-Safe x.0 x.1 now good)
        λ q h. Safe-then _ _ (save-Safe q) (Safe-pure Any q tt)

  transmit-Safe :
      (identity nick : String) (kind : Activity) (length : ℤ) (now : Time)
      → Safe {R = R} Any (transmit identity nick kind length now)
  unfolding transmit
  transmit-Safe identity nick kind length now =
      Safe-bind GoodEntry _ _ _ (require-Safe identity nick) λ x good.
        Safe-bind (IsRunner x.0) _ _ _ (advance_locked-Safe x.0 x.1 now good) λ q h.
          Safe-read _ _ λ rules. Safe-read _ _ λ world.
            Safe-then _ _ (commit-Safe x.0 _ (record { keyed = h.keyed; heated = h.heated }))
              (Safe-pure Any _ tt)

  pub activity-Safe :
      (identity nick channel : String) (kind : Activity) (length : ℤ) (now : Time)
      → Safe {R = R} Any (activity identity nick channel kind length now)
  unfolding activity
  activity-Safe identity nick channel kind length now = record {
    at = λ e i.
        if-both (λ (r : Result (ℤ × Bool) × Engine R). Inv r.1 × OnOk Any r.0)
          (equal_fold channel e.rules.game_channel) _ _
          ((transmit-Safe identity nick kind length now).at e i)
          ((Safe-pure {R = R} Any (pos 0, false) tt).at e i);
  }
