-- ===== src/Game/World/Gives.antt =====
-- What the steps that the world's events share give back, and that they never fail.
use mathlib.Core.Path.{subst}
use neongrid.Base.{List, String, sym}
use neongrid.Base.Int.{ℤ}
use neongrid.Game.Data.{Player, WorldState}
use neongrid.Game.Engine.Gives.{Gives, Gives-pure, Gives-step, Returns, Returns-bind, Returns-pure}
use neongrid.Game.Engine.Leaves.{
  Sure, Sure-bind, Sure-if, Sure-modify, Sure-pure, Sure-put_user, Sure-queue,
}
use neongrid.Game.Engine.Users.{put_user, queue_locked}
use neongrid.Game.Safe.{Any}
use neongrid.Game.Titles.Laws.{update_titles_only}
use neongrid.Game.World.Steps.{edit_world, score_faction, set_user, update_titles_locked}

module _ {R : Type 0} where
  pub set_user-Gives :
      (Q : Player → Type 0) (key : String) (q : Player) → Q q → Gives {R = R} Q (set_user key q)
  unfolding set_user
  set_user-Gives Q key q h = Gives-step Q (put_user key q) _ λ done. Gives-pure Q q h

  -- New titles change nothing else about a runner.
  pub update_titles_locked-Gives :
      (Q : Player → Type 0) (key : String) (p : Player)
      → ((titles : List String) → Q (record p { titles = titles }))
      → Gives {R = R} Q (update_titles_locked key p)
  unfolding update_titles_locked
  update_titles_locked-Gives Q key p h =
      Gives-step Q (queue_locked _) _
        λ done. set_user-Gives Q key _ (subst Q (sym (update_titles_only p)) (h _))

  pub Sure-set_user : (key : String) (q : Player) → Sure {R = R} (set_user key q)
  unfolding set_user
  Sure-set_user key q = Sure-bind _ _ (Sure-put_user key q) λ done. Sure-pure q

  pub Sure-edit : (f : WorldState → WorldState) → Sure {R = R} (edit_world f)
  unfolding edit_world
  Sure-edit f = Sure-modify _

  pub Sure-score : (p : Player) (points : ℤ) → Sure {R = R} (score_faction p points)
  unfolding score_faction
  Sure-score p points = Sure-if _ _ _ (Sure-pure tt) (Sure-edit _)

  pub Sure-titles : (key : String) (p : Player) → Sure {R = R} (update_titles_locked key p)
  unfolding update_titles_locked
  Sure-titles key p = Sure-bind _ _ (Sure-queue _) λ queued. Sure-set_user key _

module _ {R : Type 0} where
  pub set_user-Returns :
      (Q : Player → Type 0) (key : String) (q : Player) → Q q → Returns {R = R} Q (set_user key q)
  unfolding set_user
  set_user-Returns Q key q h =
      Returns-bind Any Q _ _ (Sure-put_user key q) λ done _. Returns-pure Q q h

  pub update_titles_locked-Returns :
      (Q : Player → Type 0) (key : String) (p : Player)
      → ((titles : List String) → Q (record p { titles = titles }))
      → Returns {R = R} Q (update_titles_locked key p)
  unfolding update_titles_locked
  update_titles_locked-Returns Q key p h =
      Returns-bind Any Q _ _ (Sure-queue _)
        λ queued _. set_user-Returns Q key _ (subst Q (sym (update_titles_only p)) (h _))
