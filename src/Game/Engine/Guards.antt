-- ===== src/Game/Engine/Guards.antt =====
-- Actions that keep a property of the engine, and what they return while it holds: one rule for each
-- way to build an action.
use neongrid.Base.{Bool, if-both, if◌then◌else◌}
use neongrid.Game.Engine.Action.{
  Action, Engine, call, gets, modify, proceed, pure, raise, raise_if, ◌>>=◌, ◌>>◌,
}
use neongrid.Game.Repository.{Error, Result, err, ok}

abbrev pub OnOk : {A : Type 0} → (A → Type 0) → Result A → Type 0
OnOk Q (ok a) = Q a
OnOk Q (err x) = Unit

abbrev pub Any : {A : Type 0} → A → Type 0
Any a = Unit

pub OnOk-Any : {A : Type 0} (r : Result A) → OnOk Any r
OnOk-Any (ok a) = tt
OnOk-Any (err x) = tt

-- `m` keeps `J`, whether it returns or fails, and from an engine that satisfies `J` what it returns
-- satisfies `Q`.
pub record Guards {R A : Type 0} (J : Engine R → Type 0) (Q : A → Type 0) (m : Action R A)
    : Type 0 where
  pub at : (e : Engine R) → J e → J (m e).1 × OnOk Q (m e).0

module _ {R A : Type 0} {J : Engine R → Type 0} where
  pub Guards-pure : (Q : A → Type 0) (a : A) → Q a → Guards {R = R} J Q (pure a)
  unfolding pure
  Guards-pure Q a q = record { at = λ e h. (h, q) }

  pub Guards-raise : (Q : A → Type 0) (x : Error) → Guards {R = R} J Q (raise x)
  unfolding raise
  Guards-raise Q x = record { at = λ e h. (h, tt) }

  pub Guards-gets :
      (Q : A → Type 0) (f : Engine R → A) → ((e : Engine R) → J e → Q (f e)) → Guards J Q (gets f)
  unfolding gets
  Guards-gets Q f q = record { at = λ e h. (h, q e h) }

  pub Guards-if :
      (Q : A → Type 0) (b : Bool) (m n : Action R A)
      → Guards J Q m
      → Guards J Q n
      → Guards J Q (if b then m else n)
  Guards-if Q b m n h k = if-both (Guards J Q) b m n h k

  -- A call of the repository changes nothing but the store.
  pub Guards-call :
      (Q : A → Type 0) (f : R → Result A × R)
      → ((e : Engine R) (s : R) → J e → J (record e { store = s }))
      → ((s : R) → OnOk Q (f s).0)
      → Guards J Q (call f)
  unfolding call
  Guards-call Q f k q = record { at = λ e h. (k e _ h, q e.store) }

module _ {R : Type 0} {J : Engine R → Type 0} where
  pub Guards-modify :
      (f : Engine R → Engine R) → ((e : Engine R) → J e → J (f e)) → Guards J Any (modify f)
  unfolding modify
  Guards-modify f k = record { at = λ e h. (k e h, tt) }

  pub Guards-raise_if : (b : Bool) (x : Error) → Guards {R = R} J Any (raise_if b x)
  unfolding raise_if
  Guards-raise_if b x = record { at = λ e h. (h, if-both (OnOk Any) b _ _ tt tt) }

module _ {R A B : Type 0} {J : Engine R → Type 0} where
  proceed-Guards :
      (Q : A → Type 0) (S : B → Type 0) (r : Result A) (f : A → Action R B) (e : Engine R)
      → J e
      → OnOk Q r
      → ((a : A) → Q a → Guards J S (f a))
      → J (proceed r f e).1 × OnOk S (proceed r f e).0
  proceed-Guards Q S (ok a) f e h q k = (k a q).at e h
  proceed-Guards Q S (err x) f e h q k = (h, tt)

  pub Guards-bind :
      (Q : A → Type 0) (S : B → Type 0) (m : Action R A) (f : A → Action R B)
      → Guards J Q m
      → ((a : A) → Q a → Guards J S (f a))
      → Guards J S (m >>= f)
  unfolding ◌>>=◌
  Guards-bind Q S m f h k = record {
    at = λ e i. let (i', q) = h.at e i in proceed-Guards Q S (m e).0 f (m e).1 i' q k;
  }

-- Sequencing, in the shapes that `do` blocks take.
module _ {R A : Type 0} {J : Engine R → Type 0} {S : A → Type 0} where
  pub Guards-then :
      (m : Action R (Unit {0})) (n : Action R A)
      → Guards J Any m
      → Guards J S n
      → Guards J S (m >> n)
  Guards-then m n h k = Guards-bind Any S m (λ _. n) h (λ _ _. k)

  pub Guards-read :
      {B : Type 0} (g : Engine R → B) (f : B → Action R A)
      → ((b : B) → Guards J S (f b))
      → Guards J S (gets g >>= f)
  Guards-read g f k = Guards-bind Any S (gets g) f (Guards-gets Any g (λ e i. tt)) (λ b _. k b)

  -- A step whose result says nothing.
  pub Guards-step :
      {B : Type 0} (m : Action R B) (f : B → Action R A)
      → Guards J Any m
      → ((b : B) → Guards J S (f b))
      → Guards J S (m >>= f)
  Guards-step m f h k = Guards-bind Any S m f h (λ b _. k b)
