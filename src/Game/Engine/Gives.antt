-- ===== src/Game/Engine/Gives.antt =====
-- What an action gives: a property of each result that it returns, from any engine. An action that
-- fails gives nothing.
use mathlib.Core.Path.{subst}
use neongrid.Base.{
  Bool, ap, arith, false, if-both, if◌then◌else◌, refl, suc, true, ℕ, ◌%◌, ◌<◌, ◌∙◌, ◌≡◌,
}
use neongrid.Game.Engine.Action.{Action, Engine, intn, proceed, pure, ◌>>=◌}
use neongrid.Game.Repository.{Result, err, ok}
use neongrid.Game.Safe.{Any, OnOk, OnOk-Any}

-- Whatever `m` returns satisfies `Q`.
pub record Gives {R A : Type 0} (Q : A → Type 0) (m : Action R A) : Type 0 where
  pub gives : (e : Engine R) → OnOk Q (m e).0

module _ {R A : Type 0} where
  pub Gives-pure : (Q : A → Type 0) (a : A) → Q a → Gives {R = R} Q (pure a)
  unfolding pure
  Gives-pure Q a q = record { gives = λ e. q }

  pub Gives-Any : (m : Action R A) → Gives Any m
  Gives-Any m = record { gives = λ e. OnOk-Any (m e).0 }

  pub Gives-if :
      (Q : A → Type 0) (b : Bool) (m n : Action R A)
      → Gives Q m
      → Gives Q n
      → Gives Q (if b then m else n)
  Gives-if Q b m n h k = if-both (Gives Q) b m n h k

  -- In each branch the test is known.
  pub Gives-split :
      (Q : A → Type 0) (b : Bool) (m n : Action R A)
      → (b ≡ true → Gives Q m)
      → (b ≡ false → Gives Q n)
      → Gives Q (if b then m else n)
  Gives-split Q true m n h k = h refl
  Gives-split Q false m n h k = k refl

  pub Gives-weaken :
      (Q S : A → Type 0) (m : Action R A) → Gives Q m → ((a : A) → Q a → S a) → Gives S m
  Gives-weaken Q S m h f = record { gives = λ e. weaken (m e).0 (h.gives e) }
    where
      weaken : (r : Result A) → OnOk Q r → OnOk S r
      weaken (ok a) q = f a q
      weaken (err x) q = tt

  -- What was returned, from the equation of a run.
  pub Gives-ok :
      (Q : A → Type 0) (m : Action R A) (e : Engine R) (a : A) → Gives Q m → (m e).0 ≡ ok a → Q a
  Gives-ok Q m e a h run = subst (OnOk Q) run (h.gives e)

module _ {R A B : Type 0} where
  proceed-Gives :
      (Q : A → Type 0) (S : B → Type 0) (r : Result A) (f : A → Action R B) (e : Engine R)
      → OnOk Q r
      → ((a : A) → Q a → Gives S (f a))
      → OnOk S (proceed r f e).0
  proceed-Gives Q S (ok a) f e q k = (k a q).gives e
  proceed-Gives Q S (err x) f e q k = tt

  pub Gives-bind :
      (Q : A → Type 0) (S : B → Type 0) (m : Action R A) (f : A → Action R B)
      → Gives Q m
      → ((a : A) → Q a → Gives S (f a))
      → Gives S (m >>= f)
  unfolding ◌>>=◌
  Gives-bind Q S m f h k = record { gives = λ e. proceed-Gives Q S (m e).0 f (m e).1 (h.gives e) k }

  -- A step whose result says nothing.
  pub Gives-step :
      (S : B → Type 0) (m : Action R A) (f : A → Action R B)
      → ((a : A) → Gives S (f a))
      → Gives S (m >>= f)
  Gives-step S m f k = Gives-bind Any S m f (Gives-Any m) (λ a _. k a)

module _ {R : Type 0} where
  -- `intn` gives a number below its bound.
  pub intn-Gives : (n : ℕ) → Gives {R = R} (λ i. i < suc n) (intn (suc n))
  unfolding intn
  intn-Gives n = record { gives = λ e. omega arith }

-- `m` returns, from any engine, a result that satisfies `Q`.
pub record Returns {R A : Type 0} (Q : A → Type 0) (m : Action R A) : Type 0 where
  pub returns : (e : Engine R) → (a : A) × ((m e).0 ≡ ok a) × Q a

module _ {R A : Type 0} where
  pub Returns-pure : (Q : A → Type 0) (a : A) → Q a → Returns {R = R} Q (pure a)
  unfolding pure
  Returns-pure Q a q = record { returns = λ e. (a, refl, q) }

  pub Returns-split :
      (Q : A → Type 0) (b : Bool) (m n : Action R A)
      → (b ≡ true → Returns Q m)
      → (b ≡ false → Returns Q n)
      → Returns Q (if b then m else n)
  Returns-split Q true m n h k = h refl
  Returns-split Q false m n h k = k refl

module _ {R A B : Type 0} where
  proceed-ok :
      (r : Result A) (a : A) (f : A → Action R B) (e : Engine R) → r ≡ ok a → proceed r f e ≡ f a e
  proceed-ok r a f e h = ap (λ x. proceed x f e) h

  pub Returns-bind :
      (Q : A → Type 0) (S : B → Type 0) (m : Action R A) (f : A → Action R B)
      → Returns Q m
      → ((a : A) → Q a → Returns S (f a))
      → Returns S (m >>= f)
  unfolding ◌>>=◌
  Returns-bind Q S m f h k = record {
    returns = λ e.
        let (a, run, q) = h.returns e in
        let (b, run', s) = (k a q).returns (m e).1 in
        (b, ap (λ x. x.0) (proceed-ok (m e).0 a f (m e).1 run) ∙ run', s);
  }

module _ {R : Type 0} where
  pub intn-Returns : (n : ℕ) → Returns {R = R} (λ i. i < suc n) (intn (suc n))
  unfolding intn
  intn-Returns n = record { returns = λ e. (e.rng 0 % suc n, refl, omega arith) }
