-- ===== src/Game/Profile/Chosen.antt =====
-- The profile commands and what is said, where a runner has chosen its faction in a faction window.
use text.Mathlib.Text.{◌==◌ as text_eq}
use neongrid.Base.{
  Bool, Option, String, ap, false, if-both, if◌then◌else◌, length, none, not, refl, some, sym, true,
  ◌∙◌, ◌≡◌,
}
use neongrid.Base.Int.{ℤ}
use neongrid.Base.Text.{equal_fold, to_lower, trim_space}
use neongrid.Clock.{Time, before}
use neongrid.Game.Data.{Activity, Player, WorldState}
use neongrid.Game.Engine.Action.{Engine, pure, ◌>>◌}
use neongrid.Game.Engine.Finds.{Holds}
use neongrid.Game.Engine.Guards.{
  Any, Guards, Guards-bind, Guards-gets, Guards-pure, Guards-raise, Guards-raise_if, Guards-read,
  Guards-then, OnOk,
}
use neongrid.Game.Engine.Users.{commit}
use neongrid.Game.Profile.{
  activity, faction_refusal, faction_swap_open, raise_some, set_alias, set_faction, set_stance,
  set_title, status, transmit,
}
use neongrid.Game.Profile.Window.{
  Alike, Chosen, advance-Stays, commit-Stays, require-Stays, save-Stays,
}
use neongrid.Game.Repository.{Error, Repository, Result}

-- A second choice in a window in which the runner has chosen already is refused.
pub faction_refusal_again :
    (world : WorldState) (now at : Time) (p : Player) (chosen faction : String)
    → text_eq chosen "" ≡ false
    → before at world.faction_swap_started_at ≡ false
    → p.faction ≡ chosen
    → p.last_faction_swap_at ≡ at
    → (x : Error) × (faction_refusal world now p faction ≡ some x)
unfolding faction_refusal
faction_refusal_again world now at p chosen faction named late fa sw =
    rw (fa, sw, named, late) (refused (text_eq chosen faction) (not (faction_swap_open world now)))
  where
    refused :
        (a b : Bool)
        → (x : Error) × ((if a
              then some Error.same_faction
              else if b
              then some Error.faction_locked
              else some Error.respec_used)
            ≡ some x)
    refused true b = (Error.same_faction, refl)
    refused false true = (Error.faction_locked, refl)
    refused false false = (Error.respec_used, refl)

module _ {R : Type 0} ⦃repo : Repository R⦄ {who f : String} {t s : Time} where
  -- A runner with a changed profile is written back and returned.
  commit_and_return :
      (key : String) (q : Player)
      → Alike who f t key q
      → Guards {R = R} (Chosen who f t s) Any (commit key q >> pure q)
  commit_and_return key q h = Guards-then _ _ (commit-Stays key q h) (Guards-pure Any q tt)

  pub set_alias-Stays :
      (identity nick name : String) (now : Time)
      → Guards {R = R} (Chosen who f t s) Any (set_alias identity nick name now)
  unfolding set_alias
  set_alias-Stays identity nick name now = Guards-then _ _ (Guards-raise_if _ _) (
      Guards-bind (Holds (Alike who f t)) _ _ _ (require-Stays identity nick) λ x good.
        Guards-read _ _ λ users. Guards-then _ _ (Guards-raise_if _ _) (
          Guards-bind (Alike who f t x.0) _ _ _ (advance-Stays x.0 x.1 now good)
            λ q h. commit_and_return x.0 _ h))

  pub set_title-Stays :
      (identity nick name : String) (now : Time)
      → Guards {R = R} (Chosen who f t s) Any (set_title identity nick name now)
  unfolding set_title
  set_title-Stays identity nick name now =
      Guards-bind (Holds (Alike who f t)) _ _ _ (require-Stays identity nick) λ x good.
        Guards-then _ _ (Guards-raise_if _ _) (
          Guards-bind (Alike who f t x.0) _ _ _ (advance-Stays x.0 x.1 now good)
            λ q h. commit_and_return x.0 _ h)

  -- A refusal ends the command, so what follows runs where there was none.
  raise_some-Stays :
      (o : Option Error) → Guards {R = R} (Chosen who f t s) (λ done. o ≡ none) (raise_some o)
  unfolding raise_some
  raise_some-Stays none = Guards-pure _ tt refl
  raise_some-Stays (some x) = Guards-raise _ x

  -- The runner itself is refused, and another may choose.
  pub set_faction-Stays :
      (identity nick name : String) (now : Time)
      → text_eq f "" ≡ false
      → before t s ≡ false
      → Guards {R = R} (Chosen who f t s) Any (set_faction identity nick name now)
  unfolding set_faction
  set_faction-Stays identity nick name now named late = Guards-then _ _ (Guards-raise_if _ _) (
      Guards-bind (Holds (Alike who f t)) _ _ _ (require-Stays identity nick) λ x good.
        Guards-bind (λ w. w.faction_swap_started_at ≡ s) _ _ _ (Guards-gets _ _ λ e i. i.started)
          λ world began.
            Guards-bind (λ done. faction_refusal world now x.1 (to_lower (trim_space name)) ≡ none)
              _ _ _ (raise_some-Stays _)
              λ done free.
                Guards-bind (Alike who f t x.0) _ _ _ (advance-Stays x.0 x.1 now good) λ q h.
                  commit_and_return x.0 _ (λ here.
                    let (faction, swapped) = good here in
                    let (y, refused) =
                      faction_refusal_again world now t x.1 f (to_lower (trim_space name)) named
                        (ap (before t) began ∙ late) faction swapped in
                    absurd (clash _ y refused free)))
    where
      clash : (o : Option Error) (y : Error) → o ≡ some y → o ≡ none → ⊥
      clash o y is_some is_none = let none_some : none ≡ some y = sym is_none ∙ is_some in cc

  pub set_stance-Stays :
      (identity nick name : String) (now : Time)
      → Guards {R = R} (Chosen who f t s) Any (set_stance identity nick name now)
  unfolding set_stance
  set_stance-Stays identity nick name now = Guards-then _ _ (Guards-raise_if _ _) (
      Guards-bind (Holds (Alike who f t)) _ _ _ (require-Stays identity nick) λ x good.
        Guards-bind (Alike who f t x.0) _ _ _ (advance-Stays x.0 x.1 now good)
          λ q h. commit_and_return x.0 _ h)

  pub status-Stays :
      (identity nick : String) (now : Time)
      → Guards {R = R} (Chosen who f t s) Any (status identity nick now)
  unfolding status
  status-Stays identity nick now =
      Guards-bind (Holds (Alike who f t)) _ _ _ (require-Stays identity nick) λ x good.
        Guards-bind (Alike who f t x.0) _ _ _ (advance-Stays x.0 x.1 now good)
          λ q h. Guards-then _ _ (save-Stays q) (Guards-pure Any q tt)

  transmit-Stays :
      (identity nick : String) (kind : Activity) (length : ℤ) (now : Time)
      → Guards {R = R} (Chosen who f t s) Any (transmit identity nick kind length now)
  unfolding transmit
  transmit-Stays identity nick kind length now =
      Guards-bind (Holds (Alike who f t)) _ _ _ (require-Stays identity nick) λ x good.
        Guards-bind (Alike who f t x.0) _ _ _ (advance-Stays x.0 x.1 now good) λ q h.
          Guards-read _ _ λ rules.
            Guards-read _ _ λ world. Guards-then _ _ (commit-Stays x.0 _ h) (Guards-pure Any _ tt)

  pub activity-Stays :
      (identity nick channel : String) (kind : Activity) (length : ℤ) (now : Time)
      → Guards {R = R} (Chosen who f t s) Any (activity identity nick channel kind length now)
  unfolding activity pure
  activity-Stays identity nick channel kind length now = record {
    at = λ e i.
        if-both (λ (r : Result (ℤ × Bool) × Engine R). Chosen who f t s r.1 × OnOk Any r.0)
          (equal_fold channel e.rules.game_channel) _ _
          ((transmit-Stays identity nick kind length now).at e i) (i, tt);
  }
