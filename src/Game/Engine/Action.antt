-- ===== src/Game/Engine/Action.antt =====
-- Actions on the engine: what they return, or the error, and the engine after them. What was written
-- before an error stays written.
use neongrid.Base.{Bool, List, String, if◌then◌else◌, suc, ℕ, ◌%◌}
use neongrid.Base.Map.{Map}
use neongrid.Clock.{Time}
use neongrid.Game.Data.{Player, Rules, WorldState}
use neongrid.Game.Repository.{Error, Repository, Result, err, ok}

pub record Engine (R : Type 0) : Type 0 where
  pub store : R
  pub rules : Rules
  -- the numbers that the random generator gives from here on
  pub rng : ℕ → ℕ
  pub world : WorldState
  pub users : Map Player
  pub pending : List String
  pub missing_since : Map Time

abbrev pub Action : Type 0 → Type 0 → Type 0
Action R A = Engine R → Result A × Engine R

module _ {R A : Type 0} where
  unfoldable pub pure : A → Action R A
  pure a e = (ok a, e)

  unfoldable pub raise : Error → Action R A
  raise x e = (err x, e)

  unfoldable pub gets : (Engine R → A) → Action R A
  gets f e = (ok (f e), e)

module _ {R : Type 0} where
  unfoldable pub modify : (Engine R → Engine R) → Action R (Unit {0})
  modify f e = (ok tt, f e)

  unfoldable pub raise_if : Bool → Error → Action R (Unit {0})
  raise_if test x e = (if test then err x else ok tt, e)

module _ {R A B : Type 0} where
  abbrev pub proceed : Result A → (A → Action R B) → Action R B
  proceed (ok a) f e = f a e
  proceed (err x) f e = (err x, e)

  infixl 10 ◌>>=◌ ◌>>◌
  -- Opening this opens the other actions too.
  unfoldable pub ◌>>=◌ : Action R A → (A → Action R B) → Action R B
  unfolding pure raise gets modify raise_if
  ◌>>=◌ m f e = let (r, e') = m e in proceed r f e'

  abbrev pub ◌>>◌ : Action R A → Action R B → Action R B
  m >> n = m >>= λ _. n

module _ {R A : Type 0} where
  -- A call of the repository.
  unfoldable pub call : (R → Result A × R) → Action R A
  call f e = let (r, s) = f e.store in (r, record e { store = s })

module _ {R : Type 0} where
  -- `e.rng.Intn(n)`
  unfoldable pub intn : ℕ → Action R ℕ
  intn n e = (ok (e.rng 0 % n), record e { rng = λ i. e.rng (suc i) })

module _ {R : Type 0} ⦃repo : Repository R⦄ where
  unfoldable pub save : Player → Action R (Unit {0})
  unfolding call
  save p = call (repo.save p)

  -- `e.repo.SaveWorldState(e.world)`
  unfoldable pub save_world : Action R (Unit {0})
  unfolding call
  save_world e = call (repo.save_world_state e.world) e

  -- `if changed { e.repo.SaveWorldState(e.world) }`
  unfoldable pub save_world_if : Bool → Action R (Unit {0})
  unfolding save_world pure
  save_world_if changed = if changed then save_world else pure tt
