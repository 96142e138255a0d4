-- ===== src/Game/World/DeadDrop/Claim.antt =====
-- The claim of a dead drop, and the claims after it.
use mathlib.Core.Path.{subst}
use neongrid.Base.{All, List, String, [], ap, false, refl, some, sym, true, ◌++◌, ◌∷◌, ◌≡◌}
use neongrid.Base.Text.{equal_fold}
use neongrid.Clock.{Time}
use neongrid.Game.Engine.Action.{Engine, modify}
use neongrid.Game.Engine.Leaves.{
  Keeps, Keeps-bind, Keeps-modify, Keeps-pure, Leaves, Leaves-after, Leaves-modify, Leaves-then,
  Sure-advance, Sure-gets,
}
use neongrid.Game.Engine.Users.{Entry, find_locked}
use neongrid.Game.Join.{linked}
use neongrid.Game.Repository.{Repository, ok}
use neongrid.Game.Requests.{Request, history}
use neongrid.Game.World.{last_events, remember}
use neongrid.Game.World.DeadDrop.{claim_dead_drop, clear_dead_drop, is_clean_code, pocket}
use neongrid.Game.World.DeadDrop.Between.{claim-none, history-NoDrop, may_open}
use neongrid.Game.World.DeadDrop.Quiet.{NoDrop, save-Quiet, save_world-Quiet}
use neongrid.Game.World.Gives.{Sure-score, Sure-set_user, Sure-titles}
use neongrid.Game.World.Steps.{edit_world}
use neongrid.Storage.{later}

module _ {R : Type 0} where
  clear-Leaves : Leaves {R = R} NoDrop clear_dead_drop
  unfolding edit_world
  clear-Leaves = Leaves-modify _ λ e. refl

  remember_log-Keeps :
      (m : String) (ms : List String)
      → Keeps {R = R} NoDrop (
          modify (λ e. record e {
            world = record e.world {
              recent_events = last_events (e.world.recent_events ++ m ∷ ms);
            };
          }))
  remember_log-Keeps m ms = Keeps-modify _ λ e h. h

module _ {R : Type 0} ⦃repo : Repository R⦄ where
  remember-Keeps : (messages : List String) → Keeps {R = R} NoDrop (remember messages)
  unfolding remember
  remember-Keeps [] = Keeps-pure tt
  remember-Keeps (m ∷ ms) = Keeps-bind _ _ (remember_log-Keeps m ms) λ done. save_world-Quiet

  pocket-Leaves : (now : Time) (x : Entry) → Leaves {R = R} NoDrop (pocket now x)
  pocket-Leaves now (key, p) = Leaves-after _ _ (Sure-advance key p now) λ q.
      Leaves-after _ _ (Sure-gets _) λ rules. Leaves-after _ _ (Sure-set_user key _) λ r.
        Leaves-after _ _ (Sure-score r _) λ scored. Leaves-after _ _ (Sure-titles key r) λ s.
          Leaves-then _ _ clear-Leaves λ cleared.
            Keeps-bind _ _ (save-Quiet s)
              λ saved. Keeps-bind _ _ (remember-Keeps _) λ logged. Keeps-pure _

  -- Once a linked runner has transmitted the clean code in the game channel before the frequency closed,
  -- and after any further requests but ticks and `ForcePirate`, at any times, failed ones included, a
  -- claim, whoever makes it, wherever, whenever and of whatever text, is answered with nothing and
  -- changes nothing, whether or not the store has saved the first.
  pub claim_dead_drop_once :
      (identity nick channel text : String) (now : Time) (e : Engine R) (x : Entry)
      (between : List (Time × Request)) (identity' nick' channel' text' : String) (later : Time)
      → equal_fold channel e.rules.game_channel ≡ true
      → is_clean_code now e.world text ≡ true
      → find_locked identity nick e.users ≡ some x
      → x.1.connected ≡ true
      → All (λ (r : Time × Request). may_open r.1 ≡ false) between
      → let e' = history between (claim_dead_drop identity nick channel text now e).1 in
        claim_dead_drop identity' nick' channel' text' later e' ≡ (ok "", e')
  unfolding claim_dead_drop
  claim_dead_drop_once identity nick channel text now e x between identity' nick' channel' text'
        later here clean found linked quiet =
      claim-none identity' nick' channel' text' later _ (
        history-NoDrop between _ quiet
          (subst NoDrop (sym (ap (λ r. r.1) (claimed))) ((pocket-Leaves now x).leaves e)))
    where
      claimed : claim_dead_drop identity nick channel text now e ≡ pocket now x e
      claimed = rw (here, clean, found, linked) refl
