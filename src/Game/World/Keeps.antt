-- ===== src/Game/World/Keeps.antt =====
-- What the steps that the world's events share leave as it is.
-- The steps of the runners keep what does not speak of the runners and of what is announced.
use neongrid.Base.{Bool, List, String, if-both, if◌then◌else◌, ℕ}
use neongrid.Base.Int.{ℤ}
use neongrid.Base.Map.{Map}
use neongrid.Clock.{Time}
use neongrid.Game.Data.{Bulletin, FactionWeek, Player}
use neongrid.Game.Engine.Action.{Action, Engine, gets, intn, save}
use neongrid.Game.Engine.Leaves.{Keeps, Keeps-bind, Keeps-call, Keeps-modify, Keeps-pure}
use neongrid.Game.Engine.Users.{advance_locked, commit, note_climbs, put_user, queue_locked}
use neongrid.Game.Repository.{Repository}
use neongrid.Game.World.Steps.{edit_world, score_faction, set_user, update_titles_locked}

pub record Aside {R : Type 0} (Q : Engine R → Type 0) : Type 0 where
  pub users : (e : Engine R) (u : Map Player) → Q e → Q (record e { users = u })
  pub pending : (e : Engine R) (p : List String) → Q e → Q (record e { pending = p })
  pub bulletin :
      (e : Engine R) (b : Bulletin) → Q e → Q (record e { world = record e.world { bulletin = b } })
  pub week :
      (e : Engine R) (w : FactionWeek)
      → Q e
      → Q (record e { world = record e.world { faction_week = w } })
  pub store : (e : Engine R) (s : R) → Q e → Q (record e { store = s })
  pub rng : (e : Engine R) (r : ℕ → ℕ) → Q e → Q (record e { rng = r })

module _ {R : Type 0} {Q : Engine R → Type 0} (aside : Aside Q) where
  pub Keeps-gets : {A : Type 0} (f : Engine R → A) → Keeps Q (gets f)
  unfolding gets
  Keeps-gets f = record { keeps = λ e q. q }

  pub Keeps-put_user : (key : String) (q : Player) → Keeps Q (put_user key q)
  unfolding put_user
  Keeps-put_user key q = Keeps-modify _ λ e h. aside.users e _ h

  pub Keeps-queue : (messages : List String) → Keeps Q (queue_locked messages)
  unfolding queue_locked
  Keeps-queue messages = Keeps-modify _ λ e h. aside.pending e _ h

  pub Keeps-if :
      {A : Type 0} (b : Bool) (m n : Action R A)
      → Keeps Q m
      → Keeps Q n
      → Keeps Q (if b then m else n)
  Keeps-if b m n h k = if-both (Keeps Q) b m n h k

  pub Keeps-advance : (key : String) (p : Player) (now : Time) → Keeps Q (advance_locked key p now)
  unfolding advance_locked note_climbs
  Keeps-advance key p now = Keeps-bind _ _ (Keeps-gets _) λ rules.
      Keeps-bind _ _ (Keeps-put_user key _) λ done. Keeps-bind _ _ (Keeps-queue _) λ queued.
        Keeps-bind _ _ (Keeps-if _ _ _ (Keeps-modify _ λ e h. aside.bulletin e _ h) (Keeps-pure tt))
          λ noted. Keeps-pure _

  pub Keeps-intn : (n : ℕ) → Keeps Q (intn n)
  unfolding intn
  Keeps-intn n = record { keeps = λ e h. aside.rng e _ h }

  pub Keeps-set_user : (key : String) (q : Player) → Keeps Q (set_user key q)
  unfolding set_user
  Keeps-set_user key q = Keeps-bind _ _ (Keeps-put_user key q) λ done. Keeps-pure q

  pub Keeps-score : (p : Player) (points : ℤ) → Keeps Q (score_faction p points)
  unfolding score_faction edit_world
  Keeps-score p points = Keeps-if _ _ _ (Keeps-pure tt) (Keeps-modify _ λ e h. aside.week e _ h)

  pub Keeps-titles : (key : String) (p : Player) → Keeps Q (update_titles_locked key p)
  unfolding update_titles_locked
  Keeps-titles key p = Keeps-bind _ _ (Keeps-queue _) λ queued. Keeps-set_user key _

module _ {R : Type 0} ⦃repo : Repository R⦄ {Q : Engine R → Type 0} (aside : Aside Q) where
  pub Keeps-save : (p : Player) → Keeps Q (save p)
  unfolding save
  Keeps-save p = Keeps-call _ λ e s h. aside.store e s h

  pub Keeps-commit : (key : String) (q : Player) → Keeps Q (commit key q)
  unfolding commit
  Keeps-commit key q = Keeps-bind _ _ (Keeps-put_user aside key q) λ done. Keeps-save q
