-- ===== src/Game/Safe.antt =====
-- The invariant of the engine, and rules by which an action keeps it, one for each way to build one.
pub mod Steps
pub mod Profile
pub mod Join
pub mod Leave
pub mod World
pub mod Artifacts
pub mod Collision
pub mod Contracts
pub mod City
pub mod Tick
pub use neongrid.Game.Engine.Guards.{Any, OnOk, OnOk-Any}
use neongrid.Base.{Bool, String, if◌then◌else◌, length, ◌≡◌, ◌≤◌}
use neongrid.Base.Map.{Each, IsMap}
use neongrid.Game.Data.{Player}
use neongrid.Game.Engine.Action.{
  Action, Engine, call, gets, modify, pure, raise, raise_if, ◌>>=◌, ◌>>◌,
}
use neongrid.Game.Engine.Guards.{
  Any, Guards, Guards-bind, Guards-call, Guards-gets, Guards-if, Guards-modify, Guards-pure,
  Guards-raise, Guards-raise_if, OnOk,
}
use neongrid.Game.Rating.Bounds.{IsHeat}
use neongrid.Game.Repository.{Error, Result}

-- A runner stands under its identity, and its Heat is between 0 and 100.
pub record IsRunner (key : String) (p : Player) : Type 0 where
  pub keyed : p.identity ≡ key
  pub heated : IsHeat p.heat

-- Keys are distinct, every runner is one, and at most 50 announcements wait for the next tick.
pub record Inv {R : Type 0} (e : Engine R) : Type 0 where
  pub is_map : IsMap e.users
  pub runners : Each IsRunner e.users
  pub few_pending : length e.pending ≤ 50

-- `m` keeps the invariant, whether it returns or fails, and what it returns satisfies `Q`.
abbrev pub Safe : {R A : Type 0} → (A → Type 0) → Action R A → Type 0
Safe Q m = Guards Inv Q m

module _ {R A : Type 0} where
  pub Safe-pure : (Q : A → Type 0) (a : A) → Q a → Safe {R = R} Q (pure a)
  Safe-pure Q a q = Guards-pure Q a q

  pub Safe-raise : (Q : A → Type 0) (x : Error) → Safe {R = R} Q (raise x)
  Safe-raise Q x = Guards-raise Q x

  pub Safe-gets :
      (Q : A → Type 0) (f : Engine R → A) → ((e : Engine R) → Inv e → Q (f e)) → Safe Q (gets f)
  Safe-gets Q f q = Guards-gets Q f q

  pub Safe-if :
      (Q : A → Type 0) (b : Bool) (m n : Action R A)
      → Safe Q m
      → Safe Q n
      → Safe Q (if b then m else n)
  Safe-if Q b m n h k = Guards-if Q b m n h k

  -- A call of the repository changes nothing but the store.
  pub Safe-call :
      (Q : A → Type 0) (f : R → Result A × R) → ((s : R) → OnOk Q (f s).0) → Safe Q (call f)
  Safe-call Q f q =
      Guards-call Q f
        (λ e s h. record { is_map = h.is_map; runners = h.runners; few_pending = h.few_pending }) q

module _ {R : Type 0} where
  pub Safe-modify :
      (f : Engine R → Engine R) → ((e : Engine R) → Inv e → Inv (f e)) → Safe Any (modify f)
  Safe-modify f k = Guards-modify f k

  pub Safe-raise_if : (b : Bool) (x : Error) → Safe {R = R} Any (raise_if b x)
  Safe-raise_if b x = Guards-raise_if b x

module _ {R A B : Type 0} where
  pub Safe-bind :
      (Q : A → Type 0) (S : B → Type 0) (m : Action R A) (f : A → Action R B)
      → Safe Q m
      → ((a : A) → Q a → Safe S (f a))
      → Safe S (m >>= f)
  Safe-bind Q S m f h k = Guards-bind Q S m f h k

-- Sequencing, in the shapes that `do` blocks take.
module _ {R A : Type 0} {S : A → Type 0} where
  pub Safe-then :
      (m : Action R (Unit {0})) (n : Action R A) → Safe Any m → Safe S n → Safe S (m >> n)
  Safe-then m n h k = Safe-bind Any S m (λ _. n) h (λ _ _. k)

  pub Safe-read :
      {B : Type 0} (g : Engine R → B) (f : B → Action R A)
      → ((b : B) → Safe S (f b))
      → Safe S (gets g >>= f)
  Safe-read g f k = Safe-bind Any S (gets g) f (Safe-gets Any g (λ e i. tt)) (λ b _. k b)

  -- A step whose result says nothing.
  pub Safe-step :
      {B : Type 0} (m : Action R B) (f : B → Action R A)
      → Safe Any m
      → ((b : B) → Safe S (f b))
      → Safe S (m >>= f)
  Safe-step m f h k = Safe-bind Any S m f h (λ b _. k b)
